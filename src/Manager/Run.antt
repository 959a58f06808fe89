-- ===== src/Manager/Run.antt =====
-- src/module_manager.c: the whole loop.
use digit.Base.{
  ℕ, zero, suc, ◌+◌, ◌≤◌, ◌≡◌, ◌↔◌, refl, sym, ap, ◌∙◌, inl, inr, Option, none, some, List, [], ◌∷◌,
  ◌++◌, length, arith, ltb, Bool-cases,
}
use digit.Abi.{Result, ok}
use digit.Authority.{requires_qualification}
use digit.Manager.{
  Registry, Env, Event, rejection, activated, start_failure, Manager, continue_with, record_at,
  qualify_new, restore_known, admit, activate_one, activate_from, count_rejected, verdict,
  qualify_and_activate,
}
use digit.Manager.Step.{descriptors, IsLawful}
use digit.Manager.Keeps.{activate_one-descriptors}

-- How often the audit says that a module was activated.
pub activations : List Event → ℕ
activations [] = 0
activations (activated id ∷ events) = suc (activations events)
activations (rejection d stage ∷ events) = activations events
activations (start_failure id ∷ events) = activations events

activations-append : (xs ys : List Event) → activations (xs ++ ys) ≡ activations xs + activations ys
unfolding activations
activations-append [] ys = omega arith
activations-append (activated id ∷ xs) ys = omega (arith, activations-append xs ys)
activations-append (rejection d stage ∷ xs) ys = activations-append xs ys
activations-append (start_failure id ∷ xs) ys = activations-append xs ys

abbrev one_if : {A : Type 0} → Option A → ℕ
one_if none = 0
one_if (some a) = 1

module _ (env : Env) where
  qualify_new-activations :
      (index : ℕ) (m : Manager)
      → activations (qualify_new env index m).1.events ≡ activations m.events
  unfolding qualify_new activations
  qualify_new-activations index m = grind (arith, activations-append)

  restore_known-activations :
      (index : ℕ) (m : Manager)
      → activations (restore_known env index m).1.events ≡ activations m.events
  unfolding restore_known activations
  restore_known-activations index m = grind (arith, activations-append)

  admit-activations :
      (index : ℕ) (m : Manager)
      → activations (admit env index m).1.events
        ≡ activations m.events + one_if (admit env index m).0
  unfolding admit activations
  admit-activations index m = grind (arith, activations-append)

  continue-activations :
      (index : ℕ) (r : Option (Unit {0}) × Manager)
      → activations (continue_with r (λ _. admit env index)).1.events
        ≡ activations r.1.events + one_if (continue_with r (λ _. admit env index)).0
  continue-activations index (none, m) = omega arith
  continue-activations index (some u, m) = admit-activations index m

  -- A round is audited as an activation exactly if it is not counted as a rejection.
  pub activate_one-activations :
      (index : ℕ) (m : Manager)
      → activations (activate_one env index m).1.events
        ≡ activations m.events + one_if (activate_one env index m).0
  unfolding activate_one
  activate_one-activations index m =
      elim (Bool-cases (
        requires_qualification (some m.qualifications)
          (some (record_at env index m.registry).descriptor))) [
            | inl new ↦ rw new (
                continue-activations index (qualify_new env index m)
                ∙ ap
                    (λ (k : ℕ).
                      k + one_if (continue_with (qualify_new env index m) (λ _. admit env index)).0)
                    (qualify_new-activations index m))
            | inr known ↦ rw known (
                continue-activations index (restore_known env index m)
                ∙ ap
                    (λ (k : ℕ).
                      k
                      + one_if (continue_with (restore_known env index m) (λ _. admit env index)).0)
                    (restore_known-activations index m))
          ]

length-descriptors : (g : Registry) → length (descriptors g) ≡ length g
length-descriptors [] = refl
length-descriptors (r ∷ g) = ap suc (length-descriptors g)

module _ (env : Env) (lawful : IsLawful env) where
  count_kept :
      (index : ℕ) (m : Manager) → length (activate_one env index m).1.registry ≡ length m.registry
  count_kept index m =
      sym (length-descriptors _)
      ∙ ap length (activate_one-descriptors env lawful index m)
      ∙ length-descriptors _

  -- Enough fuel: one round for each module that is left.
  activate_from-total :
      (fuel index rejected : ℕ) (m : Manager)
      → length m.registry ≤ index + fuel
      → (end : ℕ × Manager) × (activate_from env fuel index rejected m ≡ some end)
  unfolding activate_from
  activate_from-total zero index rejected m h = ((rejected, m), ground arith)
  activate_from-total (suc fuel) index rejected m h =
      elim (Bool-cases (ltb index (length m.registry))) [
        | inl more ↦
            let (end, e) =
              activate_from-total fuel (index + 1)
                (count_rejected (activate_one env index m).0 rejected) (activate_one env index m).1
                (omega (arith, count_kept index m)) in
            (end, rw more e)
        | inr done ↦ ((rejected, m), rw done)
      ]

  activate_from-counts :
      (fuel index rejected : ℕ) (m : Manager) (end : ℕ × Manager)
      → index ≤ length m.registry
      → activate_from env fuel index rejected m ≡ some end
      → activations end.1.events + end.0 + index
        ≡ activations m.events + rejected + length m.registry
  unfolding activate_from
  activate_from-counts zero index rejected m end le h = ground arith
  activate_from-counts (suc fuel) index rejected m end le h =
      elim (Bool-cases (ltb index (length m.registry))) [
        | inl more ↦
            let n = (activate_one env index m).1 in
            let o = (activate_one env index m).0 in
            let rec =
              activate_from-counts fuel (index + 1) (count_rejected o rejected) n end
                (let kept = count_kept index m in ground (arith, kept, more)) (rw more at h) in
            let sum : one_if o + count_rejected o rejected ≡ rejected + 1 = tally o rejected in
            omega (arith, rec, count_kept index m, activate_one-activations env index m, sum)
        | inr done ↦ ground (arith, done)
      ]
    where
      tally :
          (o : Option (Unit {0})) (rejected : ℕ)
          → one_if o + count_rejected o rejected ≡ rejected + 1
      tally none r = omega arith
      tally (some u) r = omega arith

  activate_from-descriptors :
      (fuel index rejected : ℕ) (m : Manager) (end : ℕ × Manager)
      → activate_from env fuel index rejected m ≡ some end
      → descriptors end.1.registry ≡ descriptors m.registry
  unfolding activate_from
  activate_from-descriptors zero index rejected m end h = ground arith
  activate_from-descriptors (suc fuel) index rejected m end h =
      let n = (activate_one env index m).1 in
      let o = (activate_one env index m).0 in
      elim (Bool-cases (ltb index (length m.registry))) [
        | inl more ↦
            activate_from-descriptors fuel (index + 1) (count_rejected o rejected) n end
              (rw more at h)
            ∙ activate_one-descriptors env lawful index m
        | inr done ↦ ground (arith, done)
      ]

  result_of :
      (m : Manager) (end : ℕ × Manager)
      → activate_from env env.limits.registry_max 0 0 m ≡ some end
      → (qualify_and_activate env m ≡ some (verdict end))
        × (((verdict end).0 ≡ ok)
            ↔ (activations end.1.events ≡ activations m.events + length m.registry))
  unfolding qualify_and_activate
  result_of m end e =
      let counts = activate_from-counts env.limits.registry_max 0 0 m end (omega arith) e in
      (
        rw (e, qualify_and_activate),
        (λ h. ground (arith, counts, h), λ h. ground (arith, counts, h)),
      )

  -- The loop ends for every registry that fits its array, its result is OK exactly if every module
  -- was activated, and the registry holds the same modules as before.
  pub qualify_and_activate_result :
      (m : Manager)
      → length m.registry ≤ env.limits.registry_max
      → (result : Result) × (next : Manager) × (qualify_and_activate env m ≡ some (result, next))
        × ((result ≡ ok) ↔ (activations next.events ≡ activations m.events + length m.registry))
        × (descriptors next.registry ≡ descriptors m.registry)
  qualify_and_activate_result m fits =
      let (end, e) = activate_from-total env.limits.registry_max 0 0 m (omega arith) in
      let (run, iff) = result_of m end e in
      (
        (verdict end).0,
        end.1,
        run,
        iff,
        activate_from-descriptors env.limits.registry_max 0 0 m end e,
      )
