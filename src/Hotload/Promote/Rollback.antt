-- ===== src/Hotload/Promote/Rollback.antt =====
-- src/hotload.c: the libraries and the registry along the gates and the label `restore`.
use digit.Base.{
  ◌≡◌, refl, sym, subst, ◌∙◌, ◌⊎◌, inl, inr, Bool, true, false, Option, none, some, arith,
  Bool-cases,
}
use digit.Abi.{Descriptor, ModuleRecord}
use digit.Hotload.{Loaded, ours, Host, Env}
use digit.Hotload.Promote.{
  Plan, Gate, next_gate, ◌then_gate◌, swap, finish, restore, restarts, restart_incumbent,
  reject_preload, transition, is_running, descriptor_in, stop_incumbent, stop_registered,
  unregister_incumbent, admit, start_candidate, persist, install, outcome, is_free, stops_after,
}

-- The installed libraries are untouched.
abbrev pub SameLoader : Host → Host → Type 0
SameLoader h r = (r.loader ≡ h.loader) × (r.closed ≡ h.closed)

-- An incumbent that ran, and whose start function is missing or failed when it was to run again.
abbrev pub IsLost : Env → Option ModuleRecord → Option Loaded → Type 0
IsLost env incumbent old =
    (d : Descriptor) × (is_running incumbent ≡ true)
    × (descriptor_in old ≡ some d)
    × (restarts env d ≡ false)

module _ (env : Env) where
  stop_incumbent-SameLoader : (p : Plan) (h : Host) → SameLoader h (stop_incumbent env p h).1
  unfolding stop_incumbent
  stop_incumbent-SameLoader p h = ground arith

  stop_registered-SameLoader : (p : Plan) (h : Host) → SameLoader h (stop_registered env p h).1
  unfolding stop_registered
  stop_registered-SameLoader p h = ground arith

  unregister-SameLoader : (p : Plan) (h : Host) → SameLoader h (unregister_incumbent env p h).1
  unfolding unregister_incumbent
  unregister-SameLoader p h = ground arith

  admit-SameLoader : (p : Plan) (h : Host) → SameLoader h (admit env p h).1
  unfolding admit
  admit-SameLoader p h = ground arith

  start_candidate-SameLoader : (p : Plan) (h : Host) → SameLoader h (start_candidate env p h).1
  unfolding start_candidate
  start_candidate-SameLoader p h = ground arith

  persist-SameLoader : (p : Plan) (h : Host) → SameLoader h (persist env p h).1
  unfolding persist
  persist-SameLoader p h = ground arith

  install-SameLoader :
      (p : Plan) (h : Host) → (install env p h).0 ≡ false → SameLoader h (install env p h).1
  unfolding install
  install-SameLoader p h e = ground arith

  -- A failed gate behind one that keeps the libraries.
  abbrev KeepsLoader : Gate → Type 0
  KeepsLoader g = (h : Host) → (g h).0 ≡ false → SameLoader h (g h).1

  then-KeepsLoader :
      (f g : Gate)
      → ((h : Host) → SameLoader h (f h).1)
      → KeepsLoader g
      → KeepsLoader (f then_gate g)
  then-KeepsLoader f g kf kg h = go (f h) (kf h)
    where
      go :
          (r : Bool × Host)
          → SameLoader h r.1
          → (next_gate r g).0 ≡ false
          → SameLoader h (next_gate r g).1
      go (false, a) s e = s
      go (true, a) s e = let t = kg a e in (t.0 ∙ s.0, t.1 ∙ s.1)

  swap-SameLoader : (p : Plan) → KeepsLoader (swap env p)
  unfolding swap
  swap-SameLoader p =
      let g₆ : Gate = persist env p then_gate install env p in
      let g₅ : Gate = start_candidate env p then_gate g₆ in
      let g₄ : Gate = admit env p then_gate g₅ in
      let g₃ : Gate = unregister_incumbent env p then_gate g₄ in
      let g₂ : Gate = stop_registered env p then_gate g₃ in
      then-KeepsLoader (stop_incumbent env p) g₂ (stop_incumbent-SameLoader p) (
        then-KeepsLoader (stop_registered env p) g₃ (stop_registered-SameLoader p) (
          then-KeepsLoader (unregister_incumbent env p) g₄ (unregister-SameLoader p) (
            then-KeepsLoader (admit env p) g₅ (admit-SameLoader p) (
              then-KeepsLoader (start_candidate env p) g₆ (start_candidate-SameLoader p) (
                then-KeepsLoader (persist env p) (install env p) (persist-SameLoader p)
                  (install-SameLoader p))))))

  restart-registry :
      (p : Plan) (o : Option Descriptor) (h : Host)
      → SameLoader h (restart_incumbent env p o h)
        × (((restart_incumbent env p o h).registry ≡ h.registry)
            ⊎ ((d : Descriptor) × (o ≡ some d) × (restarts env d ≡ false)))
  unfolding restart_incumbent
  restart-registry p none h = ((refl, refl), inl refl)
  restart-registry p (some d) h = elim (Bool-cases (restarts env d)) [
    | inl again ↦ ground (arith, again)
    | inr lost ↦ (ground (arith, lost), inr (d, refl, lost))
  ]

  restore_running :
      (p : Plan) (h : Host)
      → is_running p.incumbent ≡ true
      → restore env p h
        ≡ restart_incumbent env p
            (descriptor_in p.old_loaded)
            (record h { registry = p.before; candidate_stops = stops_after env p h })
  unfolding restore
  restore_running p h e = ground (arith, e)

  restore_idle :
      (p : Plan) (h : Host)
      → is_running p.incumbent ≡ false
      → restore env p h ≡ record h { registry = p.before; candidate_stops = stops_after env p h }
  unfolding restore
  restore_idle p h e = ground (arith, e)

  abbrev IsRestored : Plan → Host → Host → Type 0
  IsRestored p h r =
      SameLoader h r × ((r.registry ≡ p.before) ⊎ IsLost env p.incumbent p.old_loaded)

  -- What the label `restore` leaves.
  restore-registry : (p : Plan) (h : Host) → IsRestored p h (restore env p h)
  restore-registry p h = elim (Bool-cases (is_running p.incumbent)) [
    | inl ran ↦ subst (IsRestored p h) (sym (restore_running p h ran)) (
        lost_case ran (
          restart-registry p (descriptor_in p.old_loaded)
            (record h { registry = p.before; candidate_stops = stops_after env p h })))
    | inr idle ↦ subst (IsRestored p h) (sym (restore_idle p h idle)) ((refl, refl), inl refl)
  ]
    where
      after : Host
      after =
          restart_incumbent env p (descriptor_in p.old_loaded)
            (record h { registry = p.before; candidate_stops = stops_after env p h })

      lost_case :
          is_running p.incumbent ≡ true
          → SameLoader h after
            × ((after.registry ≡ p.before)
                ⊎ ((d : Descriptor) × (descriptor_in p.old_loaded ≡ some d)
                    × (restarts env d ≡ false)))
          → IsRestored p h after
      lost_case ran (same, inl e) = (same, inl e)
      lost_case ran (same, inr (d, e, l)) = (same, inr (d, ran, e, l))

  -- A failure that leaves the modules and the libraries of `h`, or has lost the incumbent.
  abbrev pub FailsBack : Option ModuleRecord → Option Loaded → Host → Bool × Host → Type 0
  FailsBack incumbent old h r =
      r.0 ≡ false → SameLoader h r.1 × ((r.1.registry ≡ h.registry) ⊎ IsLost env incumbent old)

  outcome-FailsBack :
      (p : Plan) (h a : Host) (r : Bool × Host)
      → p.before ≡ h.registry
      → SameLoader h a
      → (r.0 ≡ false → SameLoader a r.1)
      → FailsBack p.incumbent p.old_loaded h (outcome env p r)
  unfolding finish reject_preload
  outcome-FailsBack p h a (true, x) b s k e = cc
  outcome-FailsBack p h a (false, x) b s k e =
      let t = k refl in
      let (same, back) = restore-registry p x in
      ((same.0 ∙ t.0 ∙ s.0, same.1 ∙ t.1 ∙ s.1), settle back)
    where
      settle :
          ((restore env p x).registry ≡ p.before) ⊎ IsLost env p.incumbent p.old_loaded
          → ((restore env p x).registry ≡ h.registry) ⊎ IsLost env p.incumbent p.old_loaded
      settle (inl e) = inl (e ∙ b)
      settle (inr l) = inr l

  pub transition-FailsBack :
      (p : Plan) (h : Host)
      → p.before ≡ h.registry
      → FailsBack p.incumbent p.old_loaded h (transition env p h)
  unfolding transition
  transition-FailsBack p h b = elim (Bool-cases (is_free h.barrier)) [
    | inl yes' ↦ rw yes' (
        outcome-FailsBack p h (record h { barrier = ours })
          (swap env p (record h { barrier = ours })) b (refl, refl)
          (swap-SameLoader p (record h { barrier = ours })))
    | inr busy ↦ rw busy (λ e. ((refl, refl), inl refl))
  ]
