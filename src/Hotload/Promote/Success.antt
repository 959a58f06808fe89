-- ===== src/Hotload/Promote/Success.antt =====
-- src/hotload.c: a promotion that goes through all its gates.
use digit.Base.{
  ◌≡◌, refl, ◌∙◌, ap, sym, subst, Bool, true, false, not, ◌&&◌, some, length, arith, ◌<◌,
  Bool-cases, inl, inr,
}
use digit.Abi.{Result, ok}
use digit.Qualification.{Inventory, contains}
use digit.Qualification.Laws.{contains_recorded}
use digit.Hotload.{Host, Env, ours}
use digit.Manager.{Registry, is_ok}
use digit.Hotload.Promote.{
  Plan, Gate, ◌then_gate◌, next_gate, swap, admission, and_then, stop_incumbent, stop_registered,
  unregister_incumbent, admit, start_candidate, persist, install, transition, is_free, outcome,
  finish,
}

passed_first : (f g : Gate) (h : Host) → ((f then_gate g) h).0 ≡ true → (f h).0 ≡ true
passed_first f g h = go (f h)
  where
    go : (r : Bool × Host) → (next_gate r g).0 ≡ true → r.0 ≡ true
    go (true, a) e = refl
    go (false, a) e = e

passed_then : (f g : Gate) (h : Host) → ((f then_gate g) h).0 ≡ true → (f then_gate g) h ≡ g (f h).1
passed_then f g h = go (f h)
  where
    go : (r : Bool × Host) → (next_gate r g).0 ≡ true → next_gate r g ≡ g r.1
    go (true, a) e = refl
    go (false, a) e = cc

-- The five calls of the registry, each on the registry that the one before left.
pub record IsAdmitted (env : Env) (p : Plan) (before after : Registry) : Type 0 where
  pub discovered : Registry
  pub verified : Registry
  pub restored : Registry
  pub authorized : Registry
  pub discovers : env.discover before p.descriptor ≡ (ok, discovered)
  pub verifies : env.verify discovered p.id ≡ (ok, verified)
  pub restores : env.restore p.candidate.qualification verified p.id ≡ (ok, restored)
  pub authorizes : env.authorize restored p.id ≡ (ok, authorized)
  pub activates : env.activate authorized p.id ≡ (ok, after)

and_then_ok :
    (env : Env) (r : Result × Registry) (f : Registry → Result × Registry)
    → (and_then env r f).0 ≡ ok
    → (r ≡ (ok, r.1)) × (and_then env r f ≡ f r.1)
and_then_ok env (result, g) f e = elim (Bool-cases (is_ok result)) [
  | inl yes' ↦
      let same : result ≡ ok = ground (arith, yes') in
      (ap (λ (x : Result). (x, g)) same, rw yes' refl)
  | inr refused ↦ let bad : result ≡ ok = rw refused at e in absurd (ground (arith, refused, bad))
]

admission-IsAdmitted :
    (env : Env) (p : Plan) (g : Registry)
    → (admission env p g).0 ≡ ok
    → IsAdmitted env p g (admission env p g).1
unfolding admission
admission-IsAdmitted env p g e =
    let verify : Registry → Result × Registry = λ x. env.verify x p.id in
    let restore : Registry → Result × Registry =
      λ x. env.restore p.candidate.qualification x p.id in
    let authorize : Registry → Result × Registry = λ x. env.authorize x p.id in
    let activate : Registry → Result × Registry = λ x. env.activate x p.id in
    let first = env.discover g p.descriptor in
    let second = and_then env first verify in
    let third = and_then env second restore in
    let fourth = and_then env third authorize in
    let (passed₄, last) = and_then_ok env fourth activate e in
    let (passed₃, step₄) =
      and_then_ok env third authorize (ap (λ (x : Result × Registry). x.0) passed₄) in
    let (passed₂, step₃) =
      and_then_ok env second restore (ap (λ (x : Result × Registry). x.0) passed₃) in
    let (passed₁, step₂) =
      and_then_ok env first verify (ap (λ (x : Result × Registry). x.0) passed₂) in
    record {
      discovered = first.1;
      verified = second.1;
      restored = third.1;
      authorized = fourth.1;
      discovers = passed₁;
      verifies = sym step₂ ∙ passed₂;
      restores = sym step₃ ∙ passed₃;
      authorizes = sym step₄ ∙ passed₄;
      activates = sym last ∙ ap (λ (x : Result). (x, (and_then env fourth activate).1)) e;
    }

module _ (env : Env) (p : Plan) where
  abbrev pub before_admission : Host → Host
  before_admission h =
      (unregister_incumbent env p (stop_registered env p (stop_incumbent env p h).1).1).1

  abbrev tail₆ : Gate
  tail₆ = persist env p then_gate install env p

  abbrev tail₅ : Gate
  tail₅ = start_candidate env p then_gate tail₆

  abbrev tail₄ : Gate
  tail₄ = admit env p then_gate tail₅

  abbrev tail₃ : Gate
  tail₃ = unregister_incumbent env p then_gate tail₄

  abbrev tail₂ : Gate
  tail₂ = stop_registered env p then_gate tail₃

  after_clearing : (h : Host) → (swap env p h).0 ≡ true → swap env p h ≡ tail₄ (before_admission h)
  unfolding swap
  after_clearing h e =
      let s₁ = passed_then (stop_incumbent env p) tail₂ h e in
      let h₁ = (stop_incumbent env p h).1 in
      let e₁ : (tail₂ h₁).0 ≡ true = rw (← s₁) e in
      let s₂ = passed_then (stop_registered env p) tail₃ h₁ e₁ in
      let h₂ = (stop_registered env p h₁).1 in
      let e₂ : (tail₃ h₂).0 ≡ true = rw (← s₂) e₁ in
      s₁ ∙ s₂ ∙ passed_then (unregister_incumbent env p) tail₄ h₂ e₂

  -- What the gates from the admission on establish.
  abbrev pub IsPromoted : Host → Host → Type 0
  IsPromoted a r =
      IsAdmitted env p a.registry r.registry
      × ((p.descriptor.has_start && not (is_ok (env.module_start p.descriptor))) ≡ false)
      × (contains (some r.qualifications) (some p.descriptor) ≡ true)

  stop_incumbent_kept : (h : Host) → (stop_incumbent env p h).1.qualifications ≡ h.qualifications
  unfolding stop_incumbent
  stop_incumbent_kept h = ground arith

  stop_registered_kept : (h : Host) → (stop_registered env p h).1.qualifications ≡ h.qualifications
  unfolding stop_registered
  stop_registered_kept h = ground arith

  unregister_kept : (h : Host) → (unregister_incumbent env p h).1.qualifications ≡ h.qualifications
  unfolding unregister_incumbent
  unregister_kept h = ground arith

  before_admission_kept : (h : Host) → (before_admission h).qualifications ≡ h.qualifications
  before_admission_kept h =
      unregister_kept (stop_registered env p (stop_incumbent env p h).1).1
      ∙ stop_registered_kept (stop_incumbent env p h).1
      ∙ stop_incumbent_kept h

  -- The plan knows whether the inventory has the version.
  abbrev Knows : Host → Type 0
  Knows h = p.already_qualified ≡ contains (some h.qualifications) (some p.descriptor)

  admit_passed :
      (h : Host)
      → (admit env p h).0 ≡ true
      → ((admission env p h.registry).0 ≡ ok)
        × ((admit env p h).1 ≡ record h { registry = (admission env p h.registry).1 })
  unfolding admit
  admit_passed h e = ground (arith, e)

  start_passed :
      (h : Host)
      → (start_candidate env p h).0 ≡ true
      → ((p.descriptor.has_start && not (is_ok (env.module_start p.descriptor))) ≡ false)
        × ((start_candidate env p h).1 ≡ record h { start_attempted = true })
  unfolding start_candidate
  start_passed h e = ground (arith, e)

  persist_passed :
      (h : Host)
      → length p.descriptor.id < env.limits.id_max
      → Knows h
      → (persist env p h).0 ≡ true
      → ((persist env p h).1.registry ≡ h.registry)
        × (contains (some (persist env p h).1.qualifications) (some p.descriptor) ≡ true)
  unfolding persist
  persist_passed h fit knows e =
      ground
        (arith, e, knows, contains_recorded env.limits.id_max p.descriptor fit h.qualifications)

  install_kept :
      (h : Host)
      → ((install env p h).1.registry ≡ h.registry)
        × ((install env p h).1.qualifications ≡ h.qualifications)
  unfolding install
  install_kept h = ground arith

  tail-IsPromoted :
      (a : Host)
      → length p.descriptor.id < env.limits.id_max
      → Knows a
      → (tail₄ a).0 ≡ true
      → IsPromoted a (tail₄ a).1
  tail-IsPromoted a fit knows e =
      let inventory_of = λ (h : Host). h.qualifications in
      let inventory_knows = λ (i : Inventory). contains (some i) (some p.descriptor) in
      let s₁ = passed_then (admit env p) tail₅ a e in
      let (admitted, a₁) = admit_passed a (passed_first (admit env p) tail₅ a e) in
      let h₁ = (admit env p a).1 in
      let e₁ : (tail₅ h₁).0 ≡ true = rw (← s₁) e in
      let s₂ = passed_then (start_candidate env p) tail₆ h₁ e₁ in
      let (started, a₂) = start_passed h₁ (passed_first (start_candidate env p) tail₆ h₁ e₁) in
      let h₂ = (start_candidate env p h₁).1 in
      let e₂ : (tail₆ h₂).0 ≡ true = rw (← s₂) e₁ in
      let s₃ = passed_then (persist env p) (install env p) h₂ e₂ in
      let (same, known) =
        persist_passed h₂ fit
          (knows ∙ ap inventory_knows (sym (ap inventory_of a₂ ∙ ap inventory_of a₁)))
          (passed_first (persist env p) (install env p) h₂ e₂) in
      let h₃ = (persist env p h₂).1 in
      let all : tail₄ a ≡ install env p h₃ = s₁ ∙ s₂ ∙ s₃ in
      let (ki, kq) = install_kept h₃ in
      let registry_of = λ (h : Host). h.registry in
      (
        subst (IsAdmitted env p a.registry)
            (sym (
              ap (λ (r : Bool × Host). r.1.registry) all
              ∙ ki
              ∙ same
              ∙ ap registry_of a₂
              ∙ ap registry_of a₁))
            (admission-IsAdmitted env p a.registry admitted),
        started,
        rw (all, kq) known,
      )

-- A promotion that wins the barrier and passes all gates has admitted the candidate to the registry.
-- From the registry that the removal of the incumbent left, discover, verify, restore, authorize and
-- activate returned OK one after the other, and the registry of the host is what the last one left.
-- The start function is absent or has succeeded, and the inventory has the candidate's version. It
-- holds for a candidate whose id fits the ABI's field, where the plan says rightly whether the
-- inventory had the version when the promotion began.
pub transition_success :
    (env : Env) (p : Plan) (h : Host)
    → length p.descriptor.id < env.limits.id_max
    → p.already_qualified ≡ contains (some h.qualifications) (some p.descriptor)
    → (transition env p h).0 ≡ true
    → IsPromoted env p (before_admission env p (record h { barrier = ours })) (transition env p h).1
unfolding transition finish
transition_success env p h fit knows e = elim (Bool-cases (is_free h.barrier)) [
  | inr busy ↦ let no = rw busy at e in cc
  | inl won ↦ rw won (go (swap env p (record h { barrier = ours })) refl (rw won at e))
]
  where
    go :
        (r : Bool × Host)
        → swap env p (record h { barrier = ours }) ≡ r
        → (outcome env p r).0 ≡ true
        → IsPromoted env p
            (before_admission env p (record h { barrier = ours }))
            (outcome env p r).1
    go (false, a) s o = cc
    go (true, a) s o =
        let passed : (swap env p (record h { barrier = ours })).0 ≡ true = rw s refl in
        let clear = after_clearing env p (record h { barrier = ours }) passed in
        let t =
          tail-IsPromoted env p (before_admission env p (record h { barrier = ours })) fit
            (knows
              ∙ ap (λ (i : Inventory). contains (some i) (some p.descriptor))
                  (sym (before_admission_kept env p (record h { barrier = ours }))))
            (rw (← clear) passed) in
        let t2 = rw (← clear, s) at t in t2
