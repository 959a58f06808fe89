-- ===== src/Hotload/Promote/Clean.antt =====
-- src/hotload.c: what a promotion leaves behind.
use digit.Base.{
  ℕ, ◌+◌, ◌≤◌, is_some, if◌then◌else◌, ◌≡◌, refl, ◌∙◌, Bool, true, false, Option, none, some, Text,
  arith,
}
use digit.Abi.{Descriptor, ModuleRecord}
use digit.Qualification.{contains}
use digit.Hotload.{File, Candidate, Loaded, Barrier, free, ours, Host, Env, audit, find}
use digit.Hotload.Promote.{
  Plan, Gate, next_gate, ◌then_gate◌, stop_incumbent, stop_registered, unregister_incumbent, admit,
  start_candidate, persist, install, restore, restart_incumbent, swap, finish, reject_preload,
  transition, preloaded_candidate, with_library, with_descriptor, plan_of, identity, report_green,
  report_red, valid_candidate, inspected, promote, outcome,
}

-- Nothing of the attempt is left in the locals: no staged copy, no second library that is the
-- promotion's, and the barrier as it was.
abbrev pub IsClean : Barrier → Host → Type 0
IsClean b h = (h.staged ≡ false) × (h.preloaded ≡ false) × (h.barrier ≡ b)

-- How many libraries the loader gives without a descriptor: one or none.
abbrev pub undescribed : Option Loaded → ℕ
undescribed none = 0
undescribed (some l) = if is_some l.descriptor then 0 else 1

-- The promotion cleans up after itself, and leaves at most `n` libraries loaded.
abbrev pub CleansUp : ℕ → Host → Host → Type 0
CleansUp n h r =
    IsClean h.barrier r × (h.left_loaded ≤ r.left_loaded) × (r.left_loaded ≤ h.left_loaded + n)

module _ (env : Env) where
  -- A gate that leaves no further library loaded.
  abbrev Counts : Gate → Type 0
  Counts g = (h : Host) → (g h).1.left_loaded ≡ h.left_loaded

  stop_incumbent-Counts : (p : Plan) → Counts (stop_incumbent env p)
  unfolding stop_incumbent
  stop_incumbent-Counts p h = ground arith

  stop_registered-Counts : (p : Plan) → Counts (stop_registered env p)
  unfolding stop_registered
  stop_registered-Counts p h = ground arith

  unregister-Counts : (p : Plan) → Counts (unregister_incumbent env p)
  unfolding unregister_incumbent
  unregister-Counts p h = ground arith

  admit-Counts : (p : Plan) → Counts (admit env p)
  unfolding admit
  admit-Counts p h = ground arith

  start_candidate-Counts : (p : Plan) → Counts (start_candidate env p)
  unfolding start_candidate
  start_candidate-Counts p h = ground arith

  persist-Counts : (p : Plan) → Counts (persist env p)
  unfolding persist
  persist-Counts p h = ground arith

  install-Counts : (p : Plan) → Counts (install env p)
  unfolding install
  install-Counts p h = ground arith

  then-Counts : (f g : Gate) → Counts f → Counts g → Counts (f then_gate g)
  then-Counts f g kf kg h = go (f h) (kf h)
    where
      go :
          (r : Bool × Host)
          → r.1.left_loaded ≡ h.left_loaded
          → (next_gate r g).1.left_loaded ≡ h.left_loaded
      go (false, a) s = s
      go (true, a) s = kg a ∙ s

  swap-Counts : (p : Plan) → Counts (swap env p)
  unfolding swap
  swap-Counts p = then-Counts (stop_incumbent env p) _ (stop_incumbent-Counts p) (
      then-Counts (stop_registered env p) _ (stop_registered-Counts p) (
        then-Counts (unregister_incumbent env p) _ (unregister-Counts p) (
          then-Counts (admit env p) _ (admit-Counts p) (
            then-Counts (start_candidate env p) _ (start_candidate-Counts p) (
              then-Counts (persist env p) (install env p) (persist-Counts p) (install-Counts p))))))

  restore-left_loaded : (p : Plan) (h : Host) → (restore env p h).left_loaded ≡ h.left_loaded
  unfolding restore restart_incumbent
  restore-left_loaded p h = ground arith

  outcome-CleansUp :
      (plan : Plan) (r : Bool × Host)
      → IsClean free (outcome env plan r).1 × ((outcome env plan r).1.left_loaded ≡ r.1.left_loaded)
  unfolding finish reject_preload
  outcome-CleansUp plan (true, h) = ((refl, refl, refl), refl)
  outcome-CleansUp plan (false, h) = ((refl, refl, refl), restore-left_loaded plan h)

  transition-CleansUp : (plan : Plan) (h : Host) → CleansUp 0 h (transition env plan h).1
  unfolding transition
  transition-CleansUp plan h =
      let start : Host = record h { barrier = ours } in
      ground (arith, outcome-CleansUp plan (swap env plan start), swap-Counts plan start)

  preloaded-CleansUp : (plan : Plan) (h : Host) → CleansUp 0 h (preloaded_candidate env plan h).1
  unfolding preloaded_candidate
  preloaded-CleansUp plan h = ground (arith, transition-CleansUp plan h)

  with_descriptor-CleansUp :
      (id : Text) (c : Candidate) (incumbent : Option ModuleRecord) (already : Bool) (h : Host)
      (l : Loaded) (d : Option Descriptor)
      → h.preloaded ≡ false
      → CleansUp (if is_some d then 0 else 1) h (with_descriptor env id c incumbent already h l d).1
  unfolding audit
  with_descriptor-CleansUp id c incumbent already h l none p =
      ((refl, p, refl), omega arith, omega arith)
  with_descriptor-CleansUp id c incumbent already h l (some d) p =
      preloaded-CleansUp (plan_of env id c incumbent already h l d) (record h { preloaded = true })

  with_library-CleansUp :
      (id : Text) (c : Candidate) (incumbent : Option ModuleRecord) (already : Bool) (h : Host)
      (l : Option Loaded)
      → h.preloaded ≡ false
      → CleansUp (undescribed l) h (with_library env id c incumbent already h l).1
  unfolding audit
  with_library-CleansUp id c incumbent already h none p =
      ((refl, p, refl), omega arith, omega arith)
  with_library-CleansUp id c incumbent already h (some l) p =
      with_descriptor-CleansUp id c incumbent already h l l.descriptor p

  -- What the promotion keeps on the way to the loader.
  abbrev Reported : Host → Host → Type 0
  Reported h r =
      (r.preloaded ≡ h.preloaded) × (r.barrier ≡ h.barrier) × (r.left_loaded ≡ h.left_loaded)

  report_green_same :
      (id : Text) (already : Bool) (h : Host) → Reported h (report_green env id already h)
  unfolding report_green
  report_green_same id already h = ground arith

  report_red_same : (c : Candidate) (h : Host) → Reported h (report_red env c h)
  unfolding report_red
  report_red_same c h = ground arith

  valid-CleansUp :
      (file : File) (h : Host) (c : Candidate)
      → h.preloaded ≡ false
      → CleansUp (undescribed (env.load file)) h (valid_candidate env file c h).1
  unfolding valid_candidate
  valid-CleansUp file h c p =
      let already = contains (some h.qualifications) (some (identity c)) in
      let incumbent = find env h.registry file.module_id in
      let green = report_green env file.module_id already h in
      let (kept, same, counted) = report_green_same file.module_id already h in
      ground (
        arith,
        kept,
        same,
        counted,
        with_library-CleansUp file.module_id c incumbent already green (env.load file) (kept ∙ p),
      )

  inspected-CleansUp :
      (file : File) (h : Host) (c : Option Candidate)
      → h.preloaded ≡ false
      → CleansUp (undescribed (env.load file)) h (inspected env file h c).1
  unfolding audit
  inspected-CleansUp file h none p = ((refl, p, refl), omega arith, omega arith)
  inspected-CleansUp file h (some c) p =
      ground (arith, p, report_red_same c h, valid-CleansUp file h c p)

-- A promotion that begins with no staged copy on disk and no second library to unload ends so, whether
-- it succeeds or fails, and leaves the barrier as it found it. No further library stays loaded beside
-- the installed ones, or at most one, if the loader gives the candidate's library without a
-- descriptor.
pub promote-CleansUp :
    (env : Env) (file : File) (h : Host)
    → h.staged ≡ false
    → h.preloaded ≡ false
    → CleansUp (undescribed (env.load file)) h (promote env file h).1
unfolding promote
promote-CleansUp env file h s p = ground (
  arith,
  inspected-CleansUp env file
      (record h { staged = true; preloaded = false; start_attempted = false }) (env.inspect file)
      refl,
)
