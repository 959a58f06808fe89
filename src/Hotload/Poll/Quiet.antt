-- ===== src/Hotload/Poll/Quiet.antt =====
-- src/hotload.c: what the polls keep true, and when a poll has nothing to do.
use digit.Base.{
  ℕ, suc, ◌+◌, ◌-◌, ◌≤◌, ◌≡◌, refl, sym, ap, ◌∙◌, inl, inr, Bool, true, false, ◌||◌, Option, none,
  some, List, [], ◌∷◌, length, Text, str_eq, str_eq_refl, str_eq→eq, arith, Bool-cases,
  if◌then◌else◌, All,
}
use digit.Hotload.{File, Host, Env, audit, new_candidate, update_candidate}
use digit.Hotload.Promote.{promote}
use digit.Hotload.Promote.Clean.{IsClean, CleansUp, undescribed, promote-CleansUp}
use digit.Hotload.Poll.{
  poll_known, after_promotion, commit_into, attempt, find_file, commit, is_changed, Polled,
  poll_file, poll_files, poll, complete, snapshot,
}

-- The table has a line for the id.
abbrev pub lists : List File → Text → Bool
lists [] id = false
lists (f ∷ files) id = str_eq f.module_id id || lists files id

-- No two entries of the table have one id.
abbrev pub DistinctIds : List File → Type 0
DistinctIds [] = Unit
DistinctIds (f ∷ files) = (lists files f.module_id ≡ false) × DistinctIds files

-- The table fits its array, and names each module once.
abbrev pub IsTable : ℕ → List File → Type 0
IsTable max files = (length files ≤ max) × DistinctIds files

str_eq_sym : (s t : Text) → str_eq s t ≡ str_eq t s
unfolding str_eq
str_eq_sym [] [] = refl
str_eq_sym [] (d ∷ t) = refl
str_eq_sym (c ∷ s) [] = refl
str_eq_sym (c ∷ s) (d ∷ t) = ground (arith, str_eq_sym s t)

lists-commit :
    (max : ℕ) (file : File) (files : List File) (id : Text)
    → lists files id ≡ false
    → str_eq file.module_id id ≡ false
    → lists (commit max file files).1 id ≡ false
unfolding commit
lists-commit max file [] id none' new = ground arith
lists-commit max file (f ∷ files) id none' new =
    ground (arith, lists-commit (max - 1) file files id)

lists-same : (files : List File) (s t : Text) → str_eq s t ≡ true → lists files s ≡ lists files t
lists-same files s t e = ap (lists files) (str_eq→eq s t e)

commit-DistinctIds :
    (max : ℕ) (file : File) (files : List File)
    → DistinctIds files
    → DistinctIds (commit max file files).1
unfolding commit
commit-DistinctIds max file [] d = ground arith
commit-DistinctIds max file (f ∷ files) (fresh, d) =
    elim (Bool-cases (str_eq f.module_id file.module_id)) [
      | inl same ↦ rw same ((sym (lists-same files f.module_id file.module_id same) ∙ fresh), d)
      | inr other ↦ rw other (
        lists-commit (max - 1) file files f.module_id fresh
            (sym (str_eq_sym f.module_id file.module_id) ∙ other),
        commit-DistinctIds (max - 1) file files d,
      )
    ]

length-commit :
    (max : ℕ) (file : File) (files : List File)
    → length files ≤ max
    → length (commit max file files).1 ≤ max
unfolding commit
length-commit max file [] le = ground arith
length-commit max file (f ∷ files) le = ground (arith, length-commit (max - 1) file files)

-- How many of the files the loader gives without a descriptor.
abbrev pub undescribed_files : Env → List File → ℕ
undescribed_files env [] = 0
undescribed_files env (file ∷ files) = undescribed (env.load file) + undescribed_files env files

-- What one poll from `start` keeps true: the table, the number of changes, a clean host, and the
-- number of libraries that stay loaded.
abbrev IsPolled : ℕ → Host → ℕ → ℕ → Polled → Type 0
IsPolled max start left rounds p =
    IsTable max p.files
    × (p.changes ≤ rounds)
    × IsClean start.barrier p.host
    × (start.left_loaded ≤ p.host.left_loaded)
    × (p.host.left_loaded ≤ start.left_loaded + left)

module _ (env : Env) (start : Host) where
  attempted :
      (file : File) (left rounds : ℕ) (p : Polled) (r : Bool × Host)
      → IsPolled env.limits.registry_max start left rounds p
      → IsClean start.barrier r.1
      → (start.left_loaded ≤ r.1.left_loaded)
        × (r.1.left_loaded ≤ start.left_loaded + (left + undescribed (env.load file)))
      → IsPolled env.limits.registry_max start
          (left + undescribed (env.load file))
          (suc rounds)
          (after_promotion env.limits.registry_max file p r)
  attempted file left rounds p (false, h) (table, le, was, low, high) clean left' =
      (table, omega arith, clean, left'.0, left'.1)
  attempted file left rounds p (true, h) ((fits, distinct), le, was, low, high) clean left' =
      go (commit env.limits.registry_max file p.files)
        (length-commit env.limits.registry_max file p.files fits)
        (commit-DistinctIds env.limits.registry_max file p.files distinct)
    where
      go :
          (c : Bool × List File)
          → length c.1 ≤ env.limits.registry_max
          → DistinctIds c.1
          → IsPolled env.limits.registry_max start
              (left + undescribed (env.load file))
              (suc rounds)
              (commit_into env.limits.registry_max file (record p { host = h }) c)
      go (true, files) f d = ((f, d), omega (arith, le), clean, left'.0, left'.1)
      go (false, files) f d = ((f, d), omega (arith, le), clean, left'.0, left'.1)

  poll_file-IsPolled :
      (file : File) (left rounds : ℕ) (p : Polled)
      → IsPolled env.limits.registry_max start left rounds p
      → IsPolled env.limits.registry_max start
          (left + undescribed (env.load file))
          (suc rounds)
          (poll_file env file p)
  unfolding poll_file audit
  poll_file-IsPolled file left rounds p ok = go (find_file p.files file.module_id)
    where
      attempt_ok :
          (h : Host)
          → IsClean start.barrier h
          → (start.left_loaded ≤ h.left_loaded) × (h.left_loaded ≤ start.left_loaded + left)
          → IsPolled env.limits.registry_max start
              (left + undescribed (env.load file))
              (suc rounds)
              (after_promotion env.limits.registry_max file p (promote env file h))
      attempt_ok h (staged, loaded, b) (low, high) =
          let ((s, l, b'), more, most) = promote-CleansUp env file h staged loaded in
          attempted file left rounds p (promote env file h) ok (s, l, b' ∙ b)
            (omega (arith, low, more), omega (arith, high, most))

      go :
          (previous : Option File)
          → IsPolled env.limits.registry_max start
              (left + undescribed (env.load file))
              (suc rounds)
              (poll_known env file p previous)
      go none = attempt_ok (audit file.module_id new_candidate p.host) ok.2 (ok.3, ok.4)
      go (some f) = pick (is_changed f file)
        where
          pick :
              (b : Bool)
              → IsPolled env.limits.registry_max start
                  (left + undescribed (env.load file))
                  (suc rounds)
                  (if b then attempt env update_candidate file p else p)
          pick true = attempt_ok (audit file.module_id update_candidate p.host) ok.2 (ok.3, ok.4)
          pick false =
              let (table, le, clean, low, high) = ok in
              (table, omega (arith, le), clean, low, omega (arith, high))

  poll_files-IsPolled :
      (current : List File) (left rounds : ℕ) (p : Polled)
      → IsPolled env.limits.registry_max start left rounds p
      → IsPolled env.limits.registry_max start
          (left + undescribed_files env current)
          (rounds + length current)
          (poll_files env current p)
  unfolding poll_files
  poll_files-IsPolled [] left rounds p (t, le, c, low, high) =
      (t, omega (arith, le), c, low, omega (arith, high))
  poll_files-IsPolled (file ∷ files) left rounds p ok =
      let (t, le, c, low, high) =
        poll_files-IsPolled files (left + undescribed (env.load file)) (suc rounds)
          (poll_file env file p) (poll_file-IsPolled file left rounds p ok) in
      (t, omega (arith, le), c, low, omega (arith, high))

-- A poll returns whose scan succeeds, and that begins with a table that fits its array and names each
-- module once, no staged copy, and no second library to unload. It keeps all that, counts no more
-- changes than there are candidates, and leaves the barrier as it was. Beside the installed libraries
-- no more than before stay loaded, but for those that the loader gives without a descriptor.
pub poll_keeps :
    (env : Env) (current files : List File) (h : Host)
    → IsTable env.limits.registry_max files
    → h.staged ≡ false
    → h.preloaded ≡ false
    → (p : Polled) × (poll env (complete current) files h ≡ some p)
      × IsTable env.limits.registry_max p.files
      × (p.changes ≤ length current)
      × CleansUp (undescribed_files env current) h p.host
unfolding poll
poll_keeps env current files h table staged loaded =
    let start : Polled = record { changes = 0; files = files; host = h } in
    let (t, le, clean, low, high) =
      poll_files-IsPolled env h current 0 0 start
        (table, omega arith, (staged, loaded, refl), omega arith, omega arith) in
    (poll_files env current start, refl, t, omega (arith, le), (clean, low, omega (arith, high)))

-- The table lists this file as it is.
abbrev IsListed : List File → File → Type 0
IsListed files f = find_file files f.module_id ≡ some f

unchanged : (f : File) → is_changed f f ≡ false
unfolding is_changed
unchanged f = ground arith

poll_file-listed : (env : Env) (f : File) (p : Polled) → IsListed p.files f → poll_file env f p ≡ p
unfolding poll_file
poll_file-listed env f p listed =
    ap (poll_known env f p) listed
    ∙ ap (λ (b : Bool). if b then attempt env update_candidate f p else p) (unchanged f)

poll_files-listed :
    (env : Env) (current : List File) (p : Polled)
    → All (IsListed p.files) current
    → poll_files env current p ≡ p
unfolding poll_files
poll_files-listed env [] p all = refl
poll_files-listed env (f ∷ current) p (listed, all) =
    rw (poll_file-listed env f p listed) (poll_files-listed env current p all)

IsListed-later :
    (f : File) (files current : List File)
    → lists current f.module_id ≡ false
    → All (IsListed files) current
    → All (IsListed (f ∷ files)) current
unfolding find_file
IsListed-later f files [] fresh all = tt
IsListed-later f files (g ∷ current) fresh (listed, all) = (
  ground (arith, fresh, listed, str_eq_sym f.module_id g.module_id),
  IsListed-later f files current (ground (arith, fresh)) all,
)

lists_itself : (files : List File) → DistinctIds files → All (IsListed files) files
unfolding find_file
lists_itself [] d = tt
lists_itself (f ∷ files) (fresh, d) =
    (rw (str_eq_refl f.module_id) refl, IsListed-later f files files fresh (lists_itself files d))

-- A poll right after a snapshot of the same directory, whose names are distinct, promotes nothing:
-- it counts no change, and leaves the table and the whole state as they are.
pub poll-snapshot :
    (env : Env) (current files : List File) (h : Host)
    → DistinctIds current
    → poll env (complete current) (snapshot files (complete current)).1 h
      ≡ some (record { changes = 0; files = current; host = h })
unfolding poll snapshot
poll-snapshot env current files h distinct = ap some (
    poll_files-listed env current (record { changes = 0; files = current; host = h })
      (lists_itself current distinct))
