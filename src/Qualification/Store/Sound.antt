-- ===== src/Qualification/Store/Sound.antt =====
-- src/qualification_store.c: whatever the file holds, what is loaded is sound.
use digit.Base.{
  subst, length-take-le, some_inj, ℕ, ◌-◌, ◌<◌, ◌≡◌, refl, inl, inr, ◌⊎◌, Bool, true, false, Option,
  none, some, List, [], ◌∷◌, length, Text, Bool-cases, Option-cases, arith,
}
use digit.Base.File.{fgets_lines, c_string}
use digit.Qualification.{Inventory, init, record_descriptor}
use digit.Qualification.Laws.{IsSound, init-IsSound, record_descriptor-IsSound}
use digit.Qualification.Store.{
  strip_line_end, scan_fields, at_end, descriptor_of, if_recorded, load_fields, is_skipped,
  load_line, load_lines, Readable, accept, load,
}

load_fields-IsSound :
    (id_max : ℕ) (fields : Option (Text × ℕ × ℕ × ℕ)) (inventory next : Inventory)
    → 0 < id_max
    → IsSound inventory
    → load_fields id_max fields inventory ≡ some next
    → IsSound next
unfolding load_fields descriptor_of
load_fields-IsSound id_max none inventory next pos sound e = cc
load_fields-IsSound id_max (some (id, major, minor, patch)) inventory next pos sound e =
    let d = descriptor_of id_max (id, major, minor, patch) in
    let short : length d.id < id_max = omega (arith, length-take-le (id_max - 1) id) in
    recorded (record_descriptor id_max inventory d)
      (record_descriptor-IsSound id_max d short inventory sound) e
  where
    recorded : (r : Bool × Inventory) → IsSound r.1 → if_recorded r ≡ some next → IsSound next
    recorded (true, i) s e = subst IsSound (some_inj e) s
    recorded (false, i) s e = cc

load_line-IsSound :
    (id_max : ℕ) (buffer : Text) (inventory next : Inventory)
    → 0 < id_max
    → IsSound inventory
    → load_line id_max buffer inventory ≡ some next
    → IsSound next
unfolding load_line
load_line-IsSound id_max buffer inventory next pos sound e =
    let line = strip_line_end (c_string buffer) in
    elim (Bool-cases (is_skipped line)) [
      | inl skip ↦ subst IsSound (some_inj (rw skip at e)) sound
      | inr read ↦
          load_fields-IsSound id_max (at_end (scan_fields line)) inventory next pos sound
            (rw read at e)
    ]

load_lines-IsSound :
    (id_max : ℕ) (lines : List Text) (inventory next : Inventory)
    → 0 < id_max
    → IsSound inventory
    → load_lines id_max lines inventory ≡ some next
    → IsSound next
unfolding load_lines
load_lines-IsSound id_max [] inventory next pos sound e = subst IsSound (some_inj e) sound
load_lines-IsSound id_max (line ∷ lines) inventory next pos sound e =
    elim (Option-cases (load_line id_max line inventory)) [
      | inl bad ↦ absurd (none≢some (rw (bad, load_lines) at e))
      | inr (i, good) ↦
          load_lines-IsSound id_max lines i next pos
            (load_line-IsSound id_max line inventory i pos sound good) (rw (good, load_lines) at e)
    ]
  where
    none≢some : none ≡ some next → ⊥
    none≢some h = cc

-- Whatever the file holds, the loaded inventory fits its array, has no version twice and no empty
-- name; and a refused file leaves the empty inventory.
pub load-IsSound :
    (id_max : ℕ) (file : Option Readable)
    → 0 < id_max
    → IsSound (load id_max file).1 × (((load id_max file).0 ≡ true) ⊎ ((load id_max file).1 ≡ init))
unfolding load
load-IsSound id_max none pos = (init-IsSound, inl refl)
load-IsSound id_max (some file) pos =
    elim (Option-cases (load_lines id_max (fgets_lines 512 file.content) init)) [
      | inl bad ↦ rw bad (init-IsSound, inr refl)
      | inr (i, good) ↦
          rw good
            (accepted file.read_error i (load_lines-IsSound id_max _ init i pos init-IsSound good))
    ]
  where
    accepted :
        (b : Bool) (i : Inventory)
        → IsSound i
        → IsSound (accept b (some i)).1
          × (((accept b (some i)).0 ≡ true) ⊎ ((accept b (some i)).1 ≡ init))
    accepted true i s = (init-IsSound, inr refl)
    accepted false i s = (s, inl refl)
