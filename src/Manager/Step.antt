-- ===== src/Manager/Step.antt =====
-- src/module_manager.c: the activation of a module, and what the calls of the registry keep.
use digit.Base.{ℕ, zero, suc, ◌≡◌, refl, sym, ap, ◌∙◌, some, List, [], ◌∷◌, ◌++◌, map, Text, arith}
use digit.Abi.{Descriptor, QualificationResult, ok}
use digit.Authority.{allow, may_activate}
use digit.Manager.{Registry, RegistryCall, Env, activated, Manager, record_at, admit}

abbrev pub descriptors : Registry → List Descriptor
descriptors = map λ r. r.descriptor

-- A registry call changes no descriptor, and neither adds nor removes a module.
abbrev pub KeepsDescriptors : RegistryCall → Type 0
KeepsDescriptors f = (g : Registry) (id : Text) → descriptors (f g id).1 ≡ descriptors g

-- What Core relies on: the calls that it makes while it goes through the registry leave the list of
-- modules as it is.
pub record IsLawful (env : Env) : Type 0 where
  pub verify_keeps : KeepsDescriptors env.verify
  pub qualify_keeps : KeepsDescriptors env.qualify
  pub restore_keeps : (q : QualificationResult) → KeepsDescriptors (env.restore q)
  pub authorize_keeps : KeepsDescriptors env.authorize
  pub activate_keeps : KeepsDescriptors env.activate
  pub fail_keeps : KeepsDescriptors env.fail

-- The activation of a module that was admitted: authority allowed the record that the registry held
-- after the authorization, the registry activated it, and the lifecycle audit says so.
pub admit_gate :
    (env : Env) (index : ℕ) (m next : Manager)
    → admit env index m ≡ (some tt, next)
    → let g = (env.authorize m.registry (record_at env index m.registry).descriptor.id).1 in
      let r = record_at env index g in
      (may_activate env.limits.min_tests (some r) ≡ allow)
      × ((env.activate g r.descriptor.id).0 ≡ ok)
      × (next.registry ≡ (env.activate g r.descriptor.id).1)
      × (next.events ≡ m.events ++ activated (record_at env index next.registry).descriptor.id ∷ [])
unfolding admit
admit_gate env index m next h = ground arith

abbrev pub slot : Descriptor → List Descriptor → ℕ → Descriptor
slot d [] index = d
slot d (x ∷ xs) zero = x
slot d (x ∷ xs) (suc index) = slot d xs index

pub record_at-slot :
    (env : Env) (index : ℕ) (g : Registry)
    → (record_at env index g).descriptor ≡ slot env.stale.descriptor (descriptors g) index
unfolding record_at
record_at-slot env index [] = refl
record_at-slot env zero (r ∷ g) = refl
record_at-slot env (suc index) (r ∷ g) = record_at-slot env index g

pub descriptor_at :
    (env : Env) (index : ℕ) (g g' : Registry)
    → descriptors g' ≡ descriptors g
    → (record_at env index g').descriptor ≡ (record_at env index g).descriptor
descriptor_at env index g g' e =
    record_at-slot env index g'
    ∙ ap (λ (ds : List Descriptor). slot env.stale.descriptor ds index) e
    ∙ sym (record_at-slot env index g)
