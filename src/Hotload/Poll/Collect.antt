-- ===== src/Hotload/Poll/Collect.antt =====
-- src/hotload.c: what the scan of the modules' directory collects.
use digit.Base.{
  ℕ, zero, suc, ◌≤◌, ◌≡◌, refl, sym, ap, ◌∙◌, inl, inr, true, false, Option, none, some, List, [],
  ◌∷◌, ◌++◌, length, take, Text, leb, arith, Bool-cases, if◌then◌else◌, append-nil, append_assoc,
  length-append,
}
use digit.Abi.{Limits}
use digit.Hotload.{File}
use digit.Hotload.Poll.{
  Directory, Scan, overfull, complete, candidate_at, collect_next, collect_names, collect,
}

-- The libraries of the directory's entries, in the order of the entries.
abbrev pub with_candidate : Option File → List File → List File
with_candidate none files = files
with_candidate (some file) files = file ∷ files

abbrev pub candidates : Limits → Text → Directory → List Text → List File
candidates limits root directory [] = []
candidates limits root directory (name ∷ names) =
    with_candidate (candidate_at limits root directory name)
      (candidates limits root directory names)

-- All files if they fit the array, and else those that fill it.
abbrev pub fitted : ℕ → List File → Scan
fitted max files = if leb (length files) max then complete files else overfull (take max files)

take-filled :
    (max : ℕ) (files more : List File) → length files ≡ max → take max (files ++ more) ≡ files
take-filled zero [] more e = refl
take-filled (suc max) [] more e = absurd (omega (arith, e))
take-filled zero (f ∷ files) more e = absurd (omega (arith, e))
take-filled (suc max) (f ∷ files) more e =
    ap (◌∷◌ f) (take-filled max files more (omega (arith, e)))

fitted_over :
    (max : ℕ) (files : List File) (file : File) (more : List File)
    → length files ≡ max
    → fitted max (files ++ file ∷ more) ≡ overfull files
fitted_over max files file more e =
    let over : leb (length (files ++ file ∷ more)) max ≡ false =
      ground (arith, length-append files (file ∷ more), e) in
    rw over (ap overfull (take-filled max files (file ∷ more) e))

-- One entry of the directory, before a loop `k` over the later ones.
collect_next-fitted :
    (max : ℕ) (o : Option File) (files later : List File) (k : List File → Scan)
    → length files ≤ max
    → ((more : List File) → length more ≤ max → k more ≡ fitted max (more ++ later))
    → (elim (collect_next max o files) [ none ↦ overfull files | some more ↦ k more ])
      ≡ fitted max (files ++ with_candidate o later)
collect_next-fitted max none files later k fits rest = rest files fits
collect_next-fitted max (some file) files later k fits rest =
    elim (Bool-cases (leb max (length files))) [
      | inl full ↦ rw full (sym (fitted_over max files file later (ground (arith, full, fits))))
      | inr room ↦ rw room (
          rest (files ++ file ∷ []) (ground (arith, room, length-append files (file ∷ [])))
          ∙ ap (fitted max) (append_assoc files (file ∷ []) later))
    ]

collect_names-fitted :
    (limits : Limits) (root : Text) (directory : Directory) (names : List Text) (files : List File)
    → length files ≤ limits.registry_max
    → collect_names limits root directory names files
      ≡ fitted limits.registry_max (files ++ candidates limits root directory names)
unfolding collect_names
collect_names-fitted limits root directory [] files fits =
    let all : leb (length files) limits.registry_max ≡ true = ground (arith, fits) in
    rw (append-nil files, all) refl
collect_names-fitted limits root directory (name ∷ names) files fits =
    collect_next-fitted limits.registry_max (candidate_at limits root directory name) files
      (candidates limits root directory names) (collect_names limits root directory names) fits
      (collect_names-fitted limits root directory names)

-- The scan of a directory that could be opened collects the libraries of all its entries, in the
-- order of the entries, if they fit the array, and otherwise reports a failure with the first of them
-- that fill the array.
pub collect-fitted :
    (limits : Limits) (root : Text) (directory : Directory)
    → collect limits root (some directory)
      ≡ fitted limits.registry_max (candidates limits root directory directory.names)
unfolding collect
collect-fitted limits root directory =
    collect_names-fitted limits root directory directory.names [] (omega arith)
