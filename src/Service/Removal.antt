-- ===== src/Service/Removal.antt =====
-- src/service_registry.c: a service is taken out of the table.
use digit.Base.{
  ℕ, zero, suc, ◌+◌, ◌-◌, ◌≡◌, refl, sym, subst, ◌∙◌, true, false, ◌&&◌, none, some, List, [], ◌∷◌,
  set, Text, str_eq, str_eq→eq, length-set, if◌then◌else◌, ◌==◌, arith, Bool-cases, Option-cases,
  inl, inr, ◌⊎◌,
}
use digit.Service.{
  Slot, Registry, empty_slot, is_named, lookup, is_taken, find_owned, unregister, unregister_slot,
  returned,
}
use digit.Service.Table.{used_slots, DistinctNames, IsWellFormed}

-- The chosen slot is taken out of the array.
abbrev cleared : List Slot → ℕ → List Slot
cleared slots i = set slots i empty_slot

module _ (name : Text) (context : ℕ) where
  -- The slot that the search chooses: it is the first entry, or one of the rest.
  found_slot :
      (s : Slot) (slots : List Slot) (i : ℕ)
      → find_owned name context (s ∷ slots) ≡ some i
      → ((is_named name s ≡ true) × (i ≡ 0))
        ⊎ ((j : ℕ) × (find_owned name context slots ≡ some j) × (i ≡ suc j))
  unfolding find_owned
  found_slot s slots i e = elim (Bool-cases (is_named name s && (s.handler_context == context))) [
    | inl here ↦ inl (ground (arith, e, here))
    | inr there ↦ elim (Option-cases (find_owned name context slots)) [
      | inl missing ↦ ground (arith, e, there, missing)
      | inr (j, found) ↦ inr (j, found, ground (arith, e, there, found))
    ]
  ]

  cleared-used_slots :
      (slots : List Slot) (i : ℕ)
      → find_owned name context slots ≡ some i
      → used_slots (cleared slots i) + 1 ≡ used_slots slots
  unfolding find_owned is_named
  cleared-used_slots [] i e = ground arith
  cleared-used_slots (s ∷ slots) i e = elim (found_slot s slots i e) [
    | inl (here, first) ↦ rw first (ground (arith, here))
    | inr (j, found, next) ↦ rw next (omega (arith, cleared-used_slots slots j found))
  ]

  cleared-is_taken :
      (other : Text) (slots : List Slot) (i : ℕ)
      → is_taken other slots ≡ false
      → is_taken other (cleared slots i) ≡ false
  unfolding is_taken is_named
  cleared-is_taken other [] i e = refl
  cleared-is_taken other (s ∷ slots) zero e = ground (arith, e)
  cleared-is_taken other (s ∷ slots) (suc i) e = ground (arith, e, cleared-is_taken other slots i)

  cleared-DistinctNames :
      (slots : List Slot) (i : ℕ) → DistinctNames slots → DistinctNames (cleared slots i)
  cleared-DistinctNames [] i d = tt
  cleared-DistinctNames (s ∷ slots) zero (d, ds) = ((λ e. cc), ds)
  cleared-DistinctNames (s ∷ slots) (suc i) (d, ds) =
      ((λ u. cleared-is_taken s.name slots i (d u)), cleared-DistinctNames slots i ds)

  lookup-not_taken :
      (other : Text) (slots : List Slot) → is_taken other slots ≡ false → lookup other slots ≡ none
  unfolding lookup is_taken
  lookup-not_taken other [] e = refl
  lookup-not_taken other (s ∷ slots) e = ground (arith, e, lookup-not_taken other slots)

  found-is_taken :
      (slots : List Slot) (j : ℕ)
      → find_owned name context slots ≡ some j
      → is_taken name slots ≡ true
  unfolding is_taken find_owned
  found-is_taken [] j e = ground (arith, e)
  found-is_taken (s ∷ slots) j e = elim (found_slot s slots j e) [
    | inl (here, first) ↦ ground (arith, here)
    | inr (k, found, next) ↦ ground (arith, found-is_taken slots k found)
  ]

  named_alone :
      (s : Slot) (slots : List Slot)
      → (s.used ≡ true → is_taken s.name slots ≡ false)
      → is_named name s ≡ true
      → (s.name ≡ name) × (is_taken name slots ≡ false)
  unfolding is_named
  named_alone s slots d e =
      let same : s.name ≡ name = str_eq→eq s.name name (ground (arith, e)) in
      (same, subst (λ (n : Text). is_taken n slots ≡ false) same (d (ground (arith, e))))

  other_slot :
      (s : Slot) (other : Text)
      → s.name ≡ name
      → str_eq name other ≡ false
      → is_named other s ≡ false
  unfolding is_named
  other_slot s other same ne = let e : str_eq s.name other ≡ false = rw same ne in ground (arith, e)

  cleared-lookup :
      (slots : List Slot) (i : ℕ)
      → DistinctNames slots
      → find_owned name context slots ≡ some i
      → (lookup name (cleared slots i) ≡ none)
        × ((other : Text)
            → str_eq name other ≡ false
            → lookup other (cleared slots i) ≡ lookup other slots)
  unfolding lookup is_named
  cleared-lookup [] i d e = ground (arith, e)
  cleared-lookup (s ∷ slots) i (d, ds) e = elim (found_slot s slots i e) [
    | inl (here, first) ↦
        let (same, alone) = named_alone s slots d here in
        rw first (
          (lookup-not_taken name slots alone),
          λ other ne. let skip = other_slot s other same ne in ground (arith, skip),
        )
    | inr (j, found, next) ↦
        let (gone, others) = cleared-lookup slots j ds found in
        let there = found-is_taken slots j found in
        let passed : is_named name s ≡ false = elim (Bool-cases (is_named name s)) [
          | inr f ↦ f
          | inl t ↦ let alone = (named_alone s slots d t).1 in ground (arith, there, alone)
        ] in
        rw next (
          ground (arith, passed, gone),
          λ other ne. let rest = others other ne in ground (arith, rest),
        )
  ]

-- What an unregistration that returns success goes through.
removed :
    (thread : ℕ) (name : Text) (context : ℕ) (r : Registry)
    → (unregister thread name context r).0 ≡ returned true
    → (i : ℕ) × (find_owned name context r.services ≡ some i)
      × ((unregister thread name context r).1 ≡ record r {
        services = cleared r.services i;
        count = if r.count == 0 then 0 else r.count - 1;
      })
unfolding unregister unregister_slot
removed thread name context r e = elim (Option-cases (find_owned name context r.services)) [
  | inl missing ↦ ground (arith, e, missing)
  | inr (i, found) ↦ (i, found, ground (arith, e, found))
]

-- An unregistration that succeeds without having waited keeps the table well formed; afterwards the
-- name leads nowhere, and every other name leads where it led before.
pub unregister_removes :
    (thread : ℕ) (name : Text) (context : ℕ) (r : Registry) (other : Text)
    → IsWellFormed r
    → (unregister thread name context r).0 ≡ returned true
    → IsWellFormed (unregister thread name context r).1
      × (lookup other (unregister thread name context r).1.services
          ≡ (if str_eq name other then none else lookup other r.services))
unregister_removes thread name context r other w e =
    let (i, found, now) = removed thread name context r e in
    let (gone, others) = cleared-lookup name context r.services i w.distinct found in
    let fewer = cleared-used_slots name context r.services i found in
    let well : IsWellFormed (record r {
      services = cleared r.services i;
      count = if r.count == 0 then 0 else r.count - 1;
    }) =
      record {
        sized = length-set r.services i empty_slot ∙ w.sized;
        counted = ground (arith, fewer, w.counted);
        distinct = cleared-DistinctNames name context r.services i w.distinct;
      } in
    (
      subst IsWellFormed (sym now) well,
      rw now (elim (Bool-cases (str_eq name other)) [
        | inl same ↦ rw same (rw (← str_eq→eq name other same) gone)
        | inr differs ↦ rw differs (others other differs)
      ]),
    )
