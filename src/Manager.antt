-- ===== src/Manager.antt =====
-- src/module_manager.c: qualifying and activating the discovered modules, one after the other, and
-- stopping them. The registry of the ABI, its loader and the code of the modules are a parameter.
pub mod Step
pub mod Keeps
pub mod Reports
pub mod Run
pub mod Discovery
mod DiscoveryExamples
pub mod Examples
use digit.Base.{
  ℕ, zero, suc, ◌+◌, ◌-◌, Bool, true, false, not, ◌&&◌, ◌||◌, Option, none, some, List, [], ◌∷◌,
  ◌++◌, length, get_elem?, Text, text, ltb, leb, ◌==◌, if◌then◌else◌, ◌≡◌,
}
use digit.Abi.{
  Limits, Descriptor, QualificationResult, ModuleRecord, State, qualified, active, stopped, failed,
  other, Result, ok, start_failed,
}
use digit.Qualification.{Inventory, record_descriptor}
use digit.Qualification.Store.{Stream, save}
use digit.Authority.{Decision, allow, deny, requires_qualification, may_activate, is_active}

-- The registry: the records up to `count`. A call of the ABI takes the registry and a module's id.
abbrev pub Registry : Type 0
Registry = List ModuleRecord

abbrev pub RegistryCall : Type 0
RegistryCall = Registry → Text → Result × Registry

-- What the manager uses and does not implement. `stale` is what an array slot past `count` holds,
-- and the n-th save goes to `stream n`.
pub record Env : Type 0 where
  pub limits : Limits
  pub verify : RegistryCall
  pub qualify : RegistryCall
  pub restore : QualificationResult → RegistryCall
  pub authorize : RegistryCall
  pub activate : RegistryCall
  pub fail : RegistryCall
  pub abi_stop : RegistryCall
  pub start : Descriptor → Result
  pub stale : ModuleRecord
  pub stream : ℕ → Stream

-- The stages that a rejection names.
pub data Stage : Type 0 where
  stage_verify stage_qualify stage_gate stage_persistence stage_restore stage_authorization : Stage
  stage_authority stage_activate stage_start : Stage

-- What operators see: an audited rejection with its alert, and the entries of the lifecycle audit.
pub data Event : Type 0 where
  rejection : Descriptor → Stage → Event
  start_failure : Text → Event
  activated : Text → Event

pub record Manager : Type 0 where
  pub registry : Registry
  pub qualifications : Inventory
  pub state_file : Option Text
  pub saves : ℕ
  pub events : List Event

-- A step of the loop; `none` is `continue` after `++rejected`.
abbrev pub Step : Type 0 → Type 0
Step A = Manager → Option A × Manager

abbrev pub pure : {A : Type 0} → A → Step A
pure a m = (some a, m)

infixl 5 ◌>>=◌ ◌>>◌
abbrev pub continue_with : {A B : Type 0} → Option A × Manager → (A → Step B) → Option B × Manager
continue_with (none, m) f = (none, m)
continue_with (some a, m) f = f a m

abbrev pub ◌>>=◌ : {A B : Type 0} → Step A → (A → Step B) → Step B
◌>>=◌ s f m = continue_with (s m) f

abbrev pub ◌>>◌ : {B : Type 0} → Step (Unit {0}) → Step B → Step B
s >> k = s >>= λ _. k

abbrev pub is_ok : Result → Bool
is_ok ok = true
is_ok _ = false

abbrev pub count_rejected : Option (Unit {0}) → ℕ → ℕ
count_rejected none rejected = rejected + 1
count_rejected (some _) rejected = rejected

abbrev pub verdict : ℕ × Manager → Result × Manager
verdict (rejected, m) = (if rejected == 0 then ok else start_failed, m)

abbrev is_allow : Decision → Bool
is_allow allow = true
is_allow deny = false

module _ (env : Env) where
  -- &manager->registry.modules[index]
  unfoldable pub record_at : ℕ → Registry → ModuleRecord
  record_at index registry = elim (get_elem? registry index) [ none ↦ env.stale | some r ↦ r ]

  unfoldable pub record_of : ℕ → Step ModuleRecord
  unfolding record_at
  record_of index m = (some (record_at index m.registry), m)

  unfoldable pub emit : Event → Step (Unit {0})
  emit event m = (some tt, record m { events = m.events ++ event ∷ [] })

  -- digit_module_rejection, then `continue`
  unfoldable pub reject : ℕ → Stage → Step (Unit {0})
  reject index stage m = (
    none,
    record m { events = m.events ++ rejection (record_at index m.registry).descriptor stage ∷ [] },
  )

  -- `continue` with a line on stderr only
  unfoldable pub skip : Step (Unit {0})
  skip m = (none, m)

  -- A call of the ABI about the module in a slot.
  unfoldable pub call : RegistryCall → ℕ → Step Result
  call f index m =
      let (result, registry) = f m.registry (record_at index m.registry).descriptor.id in
      (some result, record m { registry = registry })

  unfoldable pub unless_ok : Result → Step (Unit {0}) → Step (Unit {0})
  unless_ok result handler = if is_ok result then pure tt else handler

  -- The gate behind a fresh qualification.
  unfoldable pub passes_gate : ModuleRecord → Bool
  passes_gate r =
      let q = r.qualification in
      (elim r.state [ qualified ↦ true | _ ↦ false ])
      && not (ltb q.tests_executed env.limits.min_tests)
      && (q.tests_passed == q.tests_executed)
      && (q.tests_failed == 0)
      && q.negative_test_executed
      && q.negative_test_passed

  -- digit_qualification_record && digit_qualification_store_save
  abbrev save_recorded : Manager → Bool × Inventory → Bool × Manager
  save_recorded m (false, inventory) = (false, record m { qualifications = inventory })
  save_recorded m (true, inventory) =
      let (saved, file) = save (env.stream m.saves) m.state_file inventory in
      (saved, record m { qualifications = inventory; state_file = file; saves = m.saves + 1 })

  unfoldable pub persist : Descriptor → Step Bool
  persist d m =
      let (done, next) = save_recorded m (record_descriptor env.limits.id_max m.qualifications d) in
      (some done, next)

  unfoldable pub restored : QualificationResult
  restored = record {
    tests_executed = env.limits.min_tests;
    tests_passed = env.limits.min_tests;
    tests_failed = 0;
    negative_test_executed = true;
    negative_test_passed = true;
  }

  -- A version that the inventory does not know.
  unfoldable pub qualify_new : ℕ → Step (Unit {0})
  unfolding record_of reject call unless_ok passes_gate persist
  qualify_new index = do
    verified ← call env.verify index
    unless_ok verified (reject index stage_verify)
    result ← call env.qualify index
    unless_ok result (reject index stage_qualify)
    current ← record_of index
    (if passes_gate current then pure tt else reject index stage_gate)
    saved ← persist current.descriptor
    if saved then pure tt else reject index stage_persistence

  -- A version that has qualified before.
  unfoldable pub restore_known : ℕ → Step (Unit {0})
  unfolding reject skip call unless_ok restored
  restore_known index = do
    verified ← call env.verify index
    unless_ok verified skip
    result ← call (env.restore restored) index
    unless_ok result (reject index stage_restore)

  -- (void)stnlabz_module_registry_fail, the audit entry, and the rejection
  unfoldable pub fail_start : ℕ → Step (Unit {0})
  unfolding record_of call emit reject
  fail_start index = do
    result ← call env.fail index
    r ← record_of index
    emit (start_failure r.descriptor.id)
    reject index stage_start

  unfoldable pub start_module : ℕ → Step (Unit {0})
  unfolding record_of fail_start emit
  start_module index = do
    r ← record_of index
    (if r.descriptor.has_start && not (is_ok (env.start r.descriptor))
        then fail_start index
        else pure tt)
    emit (activated r.descriptor.id)

  -- Authorization, authority, activation and start of the module in a slot.
  unfoldable pub admit : ℕ → Step (Unit {0})
  unfolding record_of call unless_ok reject start_module
  admit index = do
    result ← call env.authorize index
    unless_ok result (reject index stage_authorization)
    current ← record_of index
    (if is_allow (may_activate env.limits.min_tests (some current))
        then pure tt
        else reject index stage_authority)
    activation ← call env.activate index
    unless_ok activation (reject index stage_activate)
    start_module index

  -- One round of the loop.
  unfoldable pub activate_one : ℕ → Step (Unit {0})
  unfolding record_at qualify_new restore_known admit
  activate_one index m =
      let d = (record_at index m.registry).descriptor in
      continue_with
        ((if requires_qualification (some m.qualifications) (some d)
            then qualify_new index
            else restore_known index)
          m)
        (λ _. admit index)

  -- The loop, for at most `fuel` rounds; `none` is out of fuel.
  unfoldable pub activate_from : ℕ → ℕ → ℕ → Manager → Option (ℕ × Manager)
  activate_from zero index rejected m =
      if ltb index (length m.registry) then none else some (rejected, m)
  activate_from (suc fuel) index rejected m =
      let (outcome, next) = activate_one index m in
      let rest = activate_from fuel (index + 1) (count_rejected outcome rejected) next in
      if ltb index (length m.registry) then rest else some (rejected, m)

  unfoldable pub qualify_and_activate : Manager → Option (Result × Manager)
  unfolding activate_from
  qualify_and_activate m = elim (activate_from env.limits.registry_max 0 0 m) [
    | none ↦ none
    | some end ↦ some (verdict end)
  ]

  -- The shutdown stops the active modules, the last one first.
  unfoldable pub shutdown : ℕ → Registry → Registry
  unfolding record_at
  shutdown zero registry = registry
  shutdown (suc index) registry =
      let r = record_at index registry in
      shutdown index
        (if is_active r.state then (env.abi_stop registry r.descriptor.id).1 else registry)
