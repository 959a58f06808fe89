-- ===== src/Qualification/Laws.antt =====
-- src/qualification.c: what `record_descriptor` and `contains` promise one another.
use digit.Base.{
  ℕ, ◌-◌, ◌≤◌, ◌<◌, ◌≡◌, refl, ◌∙◌, inl, inr, true, false, ◌&&◌, ◌||◌, some, List, [], ◌∷◌, ◌++◌,
  length, take_all, length-append, All, All-append, Text, str_eq, str_eq→eq, str_eq_refl, leb,
  Bool-cases, arith,
}
use digit.Abi.{Descriptor}
use digit.Qualification.{
  Entry, Inventory, init, matches, contains_entry, contains, entry_of, is_empty, record_descriptor,
  qualification_max,
}

-- The descriptor that an entry stands for.
abbrev pub identity : Entry → Descriptor
identity e = record {
  id = e.module_id;
  version_major = e.version_major;
  version_minor = e.version_minor;
  version_patch = e.version_patch;
  has_qualify = false;
  has_start = false;
  has_stop = false;
}

-- No entry stands twice.
abbrev pub Distinct : List Entry → Type 0
Distinct [] = Unit
Distinct (e ∷ entries) = (contains_entry entries (identity e) ≡ false) × Distinct entries

abbrev pub IsNamed : Entry → Type 0
IsNamed e = is_empty e.module_id ≡ false

pub record IsSound (inventory : Inventory) : Type 0 where
  pub bounded : length inventory.entries ≤ qualification_max
  pub distinct : Distinct inventory.entries
  pub named : All IsNamed inventory.entries

pub init-IsSound : IsSound init
unfolding init
init-IsSound = record { bounded = omega arith; distinct = tt; named = tt }

str_eq_sym : (s t : Text) → str_eq s t ≡ str_eq t s
unfolding str_eq
str_eq_sym [] [] = refl
str_eq_sym [] (d ∷ t) = refl
str_eq_sym (c ∷ s) [] = refl
str_eq_sym (c ∷ s) (d ∷ t) = ground (arith, str_eq_sym s t)

pub matches_sym : (e x : Entry) → matches e (identity x) ≡ matches x (identity e)
unfolding matches
matches_sym e x = ground (arith, str_eq_sym e.module_id x.module_id)

-- What matches an entry has its identity.
matches_sound :
    (e : Entry) (d : Descriptor)
    → matches e d ≡ true
    → (e.module_id ≡ d.id)
      × (e.version_major ≡ d.version_major)
      × (e.version_minor ≡ d.version_minor)
      × (e.version_patch ≡ d.version_patch)
unfolding matches
matches_sound e d h = ground (arith, str_eq→eq e.module_id d.id)

pub contains_entry-append :
    (xs ys : List Entry) (d : Descriptor)
    → contains_entry (xs ++ ys) d ≡ (contains_entry xs d || contains_entry ys d)
unfolding contains_entry
contains_entry-append [] ys d = refl
contains_entry-append (x ∷ xs) ys d = ground (arith, contains_entry-append xs ys d)

module _ (id_max : ℕ) (d : Descriptor) (fits : length d.id < id_max) where
  pub entry_of-id : (entry_of id_max d).module_id ≡ d.id
  unfolding entry_of
  entry_of-id = take_all (id_max - 1) d.id (omega arith)

  matches-entry_of : (e : Entry) → matches (entry_of id_max d) (identity e) ≡ matches e d
  unfolding matches entry_of
  matches-entry_of e = rw entry_of-id (ground (arith, str_eq_sym d.id e.module_id))

  Distinct-snoc :
      (entries : List Entry)
      → Distinct entries
      → contains_entry entries d ≡ false
      → Distinct (entries ++ entry_of id_max d ∷ [])
  unfolding contains_entry
  Distinct-snoc [] h fresh = (refl, tt)
  Distinct-snoc (e ∷ entries) h fresh =
      let others : contains_entry entries d ≡ false = ground arith in
      let unlike : matches e d ≡ false = ground arith in
      (
        contains_entry-append entries (entry_of id_max d ∷ []) (identity e)
            ∙ rw (h.0, matches-entry_of e, unlike),
        Distinct-snoc entries h.1 others,
      )

  -- Recording keeps the inventory within its array, and free of duplicates and of empty names.
  pub record_descriptor-IsSound :
      (inventory : Inventory) → IsSound inventory → IsSound (record_descriptor id_max inventory d).1
  unfolding record_descriptor contains
  record_descriptor-IsSound inventory sound = elim (Bool-cases (is_empty d.id)) [
    | inl empty ↦ rw empty sound
    | inr name ↦ elim (Bool-cases (contains_entry inventory.entries d)) [
      | inl old ↦ rw (name, old) sound
      | inr new ↦ elim (Bool-cases (leb qualification_max (length inventory.entries))) [
        | inl full ↦ rw (name, new, full) sound
        | inr room ↦
            rw (name, new, room)
              (record {
                bounded = omega (
                  arith,
                  length-append inventory.entries (entry_of id_max d ∷ []),
                  let small : length inventory.entries < qualification_max = ground arith in small,
                );
                distinct = Distinct-snoc inventory.entries sound.distinct new;
                named =
                    All-append IsNamed inventory.entries _ sound.named (rw entry_of-id name, tt);
              })
      ]
    ]
  ]

  same_contained :
      (entries : List Entry) (x : Descriptor)
      → contains_entry entries d ≡ true
      → matches (entry_of id_max d) x ≡ true
      → contains_entry entries x ≡ true
  unfolding contains_entry
  same_contained [] x old same = cc
  same_contained (e ∷ entries) x old same =
      let eq = matches_sound (entry_of id_max d) x same in
      elim (Bool-cases (matches e d)) [
        | inl this ↦
            let (p, q, r, s) = matches_sound e d this in
            let hit : matches e x ≡ true =
              unfold matches entry_of in
              ground (arith, entry_of-id, eq, p, q, r, s, str_eq_refl x.id) in
            rw hit
        | inr other ↦ ground (arith, same_contained entries x)
      ]

  -- After a call, the inventory answers for exactly the descriptors it answered for before, and for
  -- this one if the call succeeded.
  pub contains-record_descriptor :
      (inventory : Inventory) (x : Descriptor)
      → contains (some (record_descriptor id_max inventory d).1) (some x) ≡ (
          contains (some inventory) (some x)
          || ((record_descriptor id_max inventory d).0 && matches (entry_of id_max d) x))
  unfolding record_descriptor contains contains_entry
  contains-record_descriptor inventory x = ground (
    arith,
    contains_entry-append inventory.entries (entry_of id_max d ∷ []) x,
    same_contained inventory.entries x,
  )

  -- A version that was recorded is known.
  pub contains_recorded :
      (inventory : Inventory)
      → (record_descriptor id_max inventory d).0 ≡ true
      → contains (some (record_descriptor id_max inventory d).1) (some d) ≡ true
  contains_recorded inventory h =
      let self : matches (entry_of id_max d) d ≡ true =
        unfold matches entry_of in ground (arith, entry_of-id, str_eq_refl d.id) in
      contains-record_descriptor inventory d ∙ ground (arith, h, self)
