-- ===== src/Manager/Keeps.antt =====
-- src/module_manager.c: what a round leaves true, whether or not the module is rejected. One rule
-- for each way to build a step.
use digit.Base.{
  inl, inr, ℕ, zero, suc, ◌<◌, ◌≡◌, refl, ap, ◌∙◌, true, Option, none, some, List, [], ◌∷◌, All,
  length, arith, Bool-cases,
}
use digit.Abi.{Descriptor}
use digit.Qualification.{contains}
use digit.Qualification.Laws.{IsSound, record_descriptor-IsSound, contains_recorded}
use digit.Authority.{requires_qualification}
use digit.Manager.{
  Registry, Env, Manager, continue_with, record_at, qualify_new, restore_known, restored, admit,
  activate_one,
}
use digit.Manager.Step.{descriptors, IsLawful, descriptor_at, slot, record_at-slot}

-- The ids of the modules end within their arrays.
abbrev pub IdsFit : Env → List Descriptor → Type 0
IdsFit env ds =
    All (λ d. length d.id < env.limits.id_max) ds
    × (length env.stale.descriptor.id < env.limits.id_max)

pub id_fits :
    (env : Env) (index : ℕ) (g : Registry)
    → IdsFit env (descriptors g)
    → length (record_at env index g).descriptor.id < env.limits.id_max
id_fits env index g fit = rw (record_at-slot env index g) (go (descriptors g) index fit.0)
  where
    go :
        (ds : List Descriptor) (index : ℕ)
        → All (λ d. length d.id < env.limits.id_max) ds
        → length (slot env.stale.descriptor ds index).id < env.limits.id_max
    go [] index h = fit.1
    go (d ∷ ds) zero h = h.0
    go (d ∷ ds) (suc index) h = go ds index h.1

module _ (env : Env) (lawful : IsLawful env) where
  admit-descriptors :
      (index : ℕ) (m : Manager)
      → descriptors (admit env index m).1.registry ≡ descriptors m.registry
  unfolding admit
  admit-descriptors index m =
      let g = m.registry in
      let id = (record_at env index g).descriptor.id in
      let g₁ = (env.authorize g id).1 in
      let id₁ = (record_at env index g₁).descriptor.id in
      let g₂ = (env.activate g₁ id₁).1 in
      let id₂ = (record_at env index g₂).descriptor.id in
      ground
        (arith, lawful.authorize_keeps g id, lawful.activate_keeps g₁ id₁, lawful.fail_keeps g₂ id₂)

  admit-qualifications :
      (index : ℕ) (m : Manager) → (admit env index m).1.qualifications ≡ m.qualifications
  unfolding admit
  admit-qualifications index m = ground arith

  qualify_new-descriptors :
      (index : ℕ) (m : Manager)
      → descriptors (qualify_new env index m).1.registry ≡ descriptors m.registry
  unfolding qualify_new
  qualify_new-descriptors index m =
      let g = m.registry in
      let id = (record_at env index g).descriptor.id in
      let g₁ = (env.verify g id).1 in
      let id₁ = (record_at env index g₁).descriptor.id in
      ground (arith, lawful.verify_keeps g id, lawful.qualify_keeps g₁ id₁)

  restore_known-descriptors :
      (index : ℕ) (m : Manager)
      → descriptors (restore_known env index m).1.registry ≡ descriptors m.registry
  unfolding restore_known
  restore_known-descriptors index m =
      let g = m.registry in
      let id = (record_at env index g).descriptor.id in
      let g₁ = (env.verify g id).1 in
      let id₁ = (record_at env index g₁).descriptor.id in
      ground (arith, lawful.verify_keeps g id, lawful.restore_keeps (restored env) g₁ id₁)

  restore_known-qualifications :
      (index : ℕ) (m : Manager) → (restore_known env index m).1.qualifications ≡ m.qualifications
  unfolding restore_known
  restore_known-qualifications index m = ground arith

  admit_after :
      (index : ℕ) (r : Option (Unit {0}) × Manager)
      → descriptors (continue_with r (λ _. admit env index)).1.registry ≡ descriptors r.1.registry
  admit_after index (none, m) = refl
  admit_after index (some _, m) = admit-descriptors index m

  -- A round changes no descriptor, and neither adds nor removes a module.
  pub activate_one-descriptors :
      (index : ℕ) (m : Manager)
      → descriptors (activate_one env index m).1.registry ≡ descriptors m.registry
  unfolding activate_one
  activate_one-descriptors index m =
      elim (Bool-cases (
        requires_qualification (some m.qualifications)
          (some (record_at env index m.registry).descriptor))) [
            | inl new ↦
                rw new
                  (admit_after index (qualify_new env index m) ∙ qualify_new-descriptors index m)
            | inr known ↦
                rw known (
                  admit_after index (restore_known env index m) ∙ restore_known-descriptors index m)
          ]

  -- The descriptor of the slot is the same through the whole round.
  same_after_two :
      (index : ℕ) (m : Manager)
      → let g₁ = (env.verify m.registry (record_at env index m.registry).descriptor.id).1 in
        let g₂ = (env.qualify g₁ (record_at env index g₁).descriptor.id).1 in
        (record_at env index g₂).descriptor ≡ (record_at env index m.registry).descriptor
  same_after_two index m =
      descriptor_at env index m.registry _ (lawful.qualify_keeps _ _ ∙ lawful.verify_keeps _ _)

  module _ (index : ℕ) (m : Manager)
      (fit : length (record_at env index m.registry).descriptor.id < env.limits.id_max) where
    later_fit :
        let g₁ = (env.verify m.registry (record_at env index m.registry).descriptor.id).1 in
        let g₂ = (env.qualify g₁ (record_at env index g₁).descriptor.id).1 in
        length (record_at env index g₂).descriptor.id < env.limits.id_max
    later_fit = rw (same_after_two index m) fit

    qualify_new-IsSound :
        IsSound m.qualifications → IsSound (qualify_new env index m).1.qualifications
    unfolding qualify_new
    qualify_new-IsSound sound =
        let g₁ = (env.verify m.registry (record_at env index m.registry).descriptor.id).1 in
        let g₂ = (env.qualify g₁ (record_at env index g₁).descriptor.id).1 in
        let d = (record_at env index g₂).descriptor in
        ground (
          arith,
          sound,
          record_descriptor-IsSound env.limits.id_max d later_fit m.qualifications sound,
        )

    qualify_new-contains :
        (next : Manager)
        → qualify_new env index m ≡ (some tt, next)
        → contains (some next.qualifications) (some (record_at env index m.registry).descriptor)
          ≡ true
    unfolding qualify_new
    qualify_new-contains next h =
        let g₁ = (env.verify m.registry (record_at env index m.registry).descriptor.id).1 in
        let g₂ = (env.qualify g₁ (record_at env index g₁).descriptor.id).1 in
        let d = (record_at env index g₂).descriptor in
        rw (← same_after_two index m)
          (ground (arith, h, contains_recorded env.limits.id_max d later_fit m.qualifications))

    -- A round keeps the inventory sound, whether or not the module is rejected.
    pub activate_one-IsSound :
        IsSound m.qualifications → IsSound (activate_one env index m).1.qualifications
    unfolding activate_one
    activate_one-IsSound sound =
        elim (Bool-cases (
          requires_qualification (some m.qualifications)
            (some (record_at env index m.registry).descriptor))) [
              | inl new ↦ rw new (after (qualify_new env index m) (qualify_new-IsSound sound))
              | inr known ↦ rw known (
                  after (restore_known env index m)
                    (rw (restore_known-qualifications index m) sound))
            ]
      where
        after :
            (r : Option (Unit {0}) × Manager)
            → IsSound r.1.qualifications
            → IsSound (continue_with r (λ _. admit env index)).1.qualifications
        after (none, n) s = s
        after (some _, n) s = rw (admit-qualifications index n) s

    -- A module that a round has activated stands in the inventory under its exact version.
    pub activate_one-contains :
        (next : Manager)
        → activate_one env index m ≡ (some tt, next)
        → contains (some next.qualifications) (some (record_at env index m.registry).descriptor)
          ≡ true
    unfolding activate_one
    activate_one-contains next h =
        elim (Bool-cases (
          requires_qualification (some m.qualifications)
            (some (record_at env index m.registry).descriptor))) [
              | inl new ↦ first (qualify_new env index m) (qualify_new-contains) (rw new at h)
              | inr known ↦
                  first (restore_known env index m)
                    (λ n e.
                      rw
                        (
                          ← ap (λ (r : Option (Unit {0}) × Manager). r.1.qualifications) e,
                          restore_known-qualifications index m,
                        )
                        (unfold requires_qualification in ground (arith, known)))
                    (rw known at h)
            ]
      where
        first :
            (r : Option (Unit {0}) × Manager)
            → ((n : Manager)
                → r ≡ (some tt, n)
                → contains
                    (some n.qualifications)
                    (some (record_at env index m.registry).descriptor)
                  ≡ true)
            → continue_with r (λ _. admit env index) ≡ (some tt, next)
            → contains (some next.qualifications) (some (record_at env index m.registry).descriptor)
              ≡ true
        first (none, n) k e = cc
        first (some u, n) k e =
            rw
              (
                ← ap (λ (r : Option (Unit {0}) × Manager). r.1.qualifications) e,
                admit-qualifications index n,
              )
              (k n refl)
