-- ===== src/Qualification/Store/RoundTrip.antt =====
-- src/qualification_store.c: saving and loading.
use digit.Base.{
  ℕ, suc, ◌+◌, ◌≤◌, ◌≡◌, refl, sym, ap, ◌∙◌, inl, inr, true, false, Option, some, List, [], ◌∷◌,
  ◌++◌, map, append_assoc, append-nil, length, length-append, All, Text, Option-cases, arith,
  some_inj,
}
use digit.Base.Decimal.{is_digit}
use digit.Base.File.{fgets_lines, fgets_lines-line, fgets_lines-empty}
use digit.Qualification.{Entry, Inventory, init, contains_entry, qualification_max}
use digit.Qualification.Laws.{contains_entry-append, identity, Distinct, IsSound, matches_sym}
use digit.Qualification.Store.{load_lines, load, print_entry, Stream, print_entries, save}
use digit.Qualification.Store.Lines.{
  IsStorable, body, print_entry-append, no_char-body, length-body,
}
use digit.Qualification.Store.Reading.{load_line-next}

-- The text of a file of entries.
all_lines : List Entry → Text
all_lines [] = []
all_lines (e ∷ entries) = print_entry e ++ all_lines entries

print_entries-eq :
    (stream : Stream) (index : ℕ) (entries : List Entry) (content : Text)
    → print_entries stream index entries ≡ some content
    → content ≡ all_lines entries
unfolding print_entries all_lines
print_entries-eq stream index [] content h = sym (some_inj h)
print_entries-eq stream index (e ∷ entries) content h =
    elim (Option-cases (print_entries stream (suc index) entries)) [
      | inl bad ↦ ground (arith, bad)
      | inr (rest, good) ↦
          ground (arith, good, print_entries-eq stream (suc index) entries rest good)
    ]

-- A stream without faults prints every entry.
print_entries-total :
    (stream : Stream) (index : ℕ) (entries : List Entry)
    → ((i : ℕ) → stream.prints i ≡ true)
    → print_entries stream index entries ≡ some (all_lines entries)
unfolding print_entries all_lines
print_entries-total stream index [] h = refl
print_entries-total stream index (e ∷ entries) h =
    rw (h index, print_entries-total stream (suc index) entries h)

line_of : Entry → Text
line_of e = body e ++ 10 ∷ []

module _ (id_max : ℕ) where
  fgets_lines-all_lines :
      (entries : List Entry)
      → All (IsStorable id_max) entries
      → fgets_lines 512 (all_lines entries) ≡ map line_of entries
  unfolding all_lines line_of
  fgets_lines-all_lines [] h = fgets_lines-empty 512
  fgets_lines-all_lines (e ∷ entries) h =
      ap (fgets_lines 512) (print_entry-append e (all_lines entries))
      ∙ fgets_lines-line 512 (body e) (all_lines entries) (omega (arith, length-body id_max e h.0))
          (unfold is_digit in no_char-body 10 e refl refl h.0.no_line_end)
      ∙ ap (◌∷◌ (body e ++ 10 ∷ [])) (fgets_lines-all_lines entries h.1)

  Distinct-middle :
      (xs : List Entry) (e : Entry) (ys : List Entry)
      → Distinct (xs ++ e ∷ ys)
      → contains_entry xs (identity e) ≡ false
  unfolding contains_entry
  Distinct-middle [] e ys h = refl
  Distinct-middle (x ∷ xs) e ys h = ground (
    arith,
    Distinct-middle xs e ys h.1,
    contains_entry-append xs (e ∷ ys) (identity x),
    matches_sym x e,
  )

  load_lines-map :
      (before entries : List Entry)
      → All (IsStorable id_max) entries
      → Distinct (before ++ entries)
      → length before + length entries ≤ qualification_max
      → load_lines id_max (map line_of entries) (record { entries = before })
        ≡ some (record { entries = before ++ entries })
  unfolding load_lines line_of
  load_lines-map before [] st d room = rw append-nil
  load_lines-map before (e ∷ entries) st d room =
      let inventory : Inventory = record { entries = before } in
      let next =
        load_line-next id_max e st.0 inventory (Distinct-middle before e entries d) (omega arith) in
      let shift : (before ++ e ∷ []) ++ entries ≡ before ++ e ∷ entries =
        append_assoc before (e ∷ []) entries in
      rw (next, load_lines)
        (load_lines-map (before ++ e ∷ []) entries st.1 (rw shift d)
            (omega (arith, length-append before (e ∷ [])))
          ∙ ap (λ (es : List Entry). some (record { entries = es })) shift)

-- If every entry can be stored, then what a successful save left in the file is loaded as the same
-- inventory.
pub load-save :
    (id_max : ℕ) (stream : Stream) (before : Option Text) (inventory : Inventory) (content : Text)
    → IsSound inventory
    → All (IsStorable id_max) inventory.entries
    → save stream before inventory ≡ (true, some content)
    → load id_max (some (record { content = content; read_error = false })) ≡ (true, inventory)
unfolding load init
load-save id_max stream before inventory content sound st saved =
    let printed : print_entries stream 0 inventory.entries ≡ some content =
      unfold save in ground (arith, saved) in
    let same = print_entries-eq stream 0 inventory.entries content printed in
    rw (
      same,
      fgets_lines-all_lines id_max inventory.entries st,
      load_lines-map id_max [] inventory.entries st sound.distinct (omega (arith, sound.bounded)),
    )

-- On a stream without faults the save of a sound inventory whose entries can be stored succeeds, and
-- the content that it leaves in the file is loaded as the same inventory.
pub save-total :
    (id_max : ℕ) (stream : Stream) (before : Option Text) (inventory : Inventory)
    → stream.opens ≡ true
    → ((i : ℕ) → stream.prints i ≡ true)
    → stream.closes ≡ true
    → IsSound inventory
    → All (IsStorable id_max) inventory.entries
    → (content : Text) × (save stream before inventory ≡ (true, some content))
      × (load id_max (some (record { content = content; read_error = false })) ≡ (true, inventory))
save-total id_max stream before inventory o p c sound st =
    let saved : save stream before inventory ≡ (true, some (all_lines inventory.entries)) =
      unfold save in rw (print_entries-total stream 0 inventory.entries p) (ground arith) in
    (
      all_lines inventory.entries,
      saved,
      load-save id_max stream before inventory (all_lines inventory.entries) sound st saved,
    )
