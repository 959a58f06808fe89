-- ===== src/Hotload/Promote.antt =====
-- src/hotload.c: digit_hotload_promote, cut into the parts between its gates.
pub mod Clean
pub mod Rollback
pub mod Failure
pub mod Success
use digit.Base.{
  ℕ, ◌+◌, Bool, true, false, not, ◌&&◌, ◌||◌, Option, none, some, List, [], ◌∷◌, ◌++◌, length, Text,
  str_eq, leb, ◌==◌, if◌then◌else◌, is_some,
}
use digit.Abi.{Descriptor, ModuleRecord, Result, ok}
use digit.Qualification.{Inventory, contains, record_descriptor}
use digit.Qualification.Store.{save, Stream}
use digit.Authority.{is_active}
use digit.Manager.{Registry, RegistryCall, is_ok}
use digit.Hotload.{
  File, Candidate, Loaded, Event, staging_failed, inspection_failed, qualification_red,
  incumbent_retained, version_changed, qualification_green, load_failed, incumbent_loader_missing,
  transition_busy, incumbent_stop_failed, registry_stop_failed, unregister_failed, admission_failed,
  start_failed, qualification_persist_failed, hotload_active, incumbent_fail_audit_unavailable,
  incumbent_restart_failed, incumbent_restored, Barrier, free, ours, theirs, Host, Env, audit, find,
  set_failed,
}

-- unlink (staged)
abbrev pub unlink : Host → Host
unlink h = record h { staged = false }

-- The values that the promotion fixes before it touches the incumbent.
pub record Plan : Type 0 where
  pub id : Text
  pub candidate : Candidate
  pub staged_module : Loaded
  pub descriptor : Descriptor
  pub already_qualified : Bool
  pub incumbent : Option ModuleRecord
  pub old_loaded : Option Loaded
  pub before : Registry

abbrev pub is_running : Option ModuleRecord → Bool
is_running none = false
is_running (some r) = is_active r.state

-- old_active
abbrev pub old_active : Plan → Bool
old_active plan = is_running plan.incumbent

abbrev pub descriptor_in : Option Loaded → Option Descriptor
descriptor_in none = none
descriptor_in (some l) = l.descriptor

-- A gate: `false` is `goto restore`.
abbrev pub Gate : Type 0
Gate = Host → Bool × Host

abbrev pub next_gate : Bool × Host → Gate → Bool × Host
next_gate (false, h) g = (false, h)
next_gate (true, h) g = g h

infixr 5 ◌then_gate◌
abbrev pub ◌then_gate◌ : Gate → Gate → Gate
◌then_gate◌ f g h = next_gate (f h) g

unfoldable pub identity : Candidate → Descriptor
identity c = record {
  id = c.module_id;
  version_major = c.version_major;
  version_minor = c.version_minor;
  version_patch = c.version_patch;
  has_qualify = false;
  has_start = false;
  has_stop = false;
}

unfoldable pub same_version : Option ModuleRecord → Candidate → Bool
same_version none c = false
same_version (some r) c =
    (r.descriptor.version_major == c.version_major)
    && (r.descriptor.version_minor == c.version_minor)
    && (r.descriptor.version_patch == c.version_patch)

unfoldable pub replace_loaded : Text → Loaded → List Loaded → List Loaded
replace_loaded id new [] = []
replace_loaded id new (l ∷ ls) =
    if str_eq l.module_id id then new ∷ ls else l ∷ replace_loaded id new ls

-- The handle that the replacement closes.
unfoldable pub replaced_handle : Text → List Loaded → List ℕ
replaced_handle id [] = []
replaced_handle id (l ∷ ls) = if str_eq l.module_id id then l.handle ∷ [] else replaced_handle id ls

abbrev pub is_free : Barrier → Bool
is_free free = true
is_free _ = false

module _ (env : Env) where
  abbrev gate_of : Plan → Event → Bool → Host → Bool × Host
  gate_of plan event true h = (true, h)
  gate_of plan event false h = (false, audit plan.id event h)

  unfoldable pub stop_incumbent : Plan → Gate
  unfolding audit
  stop_incumbent plan h =
      gate_of plan incumbent_stop_failed
        (elim plan.incumbent [
          | none ↦ true
          | some r ↦ not (
              is_active r.state
              && r.descriptor.has_stop
              && not (is_ok (env.module_stop r.descriptor)))
        ])
        h

  -- A call of the registry whose result is a gate.
  abbrev call_gate : Plan → Event → Host → Result × Registry → Bool × Host
  call_gate plan event h (result, registry) =
      gate_of plan event (is_ok result) (record h { registry = registry })

  unfoldable pub stop_registered : Plan → Gate
  unfolding audit
  stop_registered plan h =
      if old_active plan
      then call_gate plan registry_stop_failed h (env.stop h.registry plan.id)
      else (true, h)

  unfoldable pub unregister_incumbent : Plan → Gate
  unfolding audit
  unregister_incumbent plan h =
      if is_some plan.incumbent
      then call_gate plan unregister_failed h (env.unregister h.registry plan.id)
      else (true, h)

  -- `if (module_result == OK) module_result = …`
  abbrev and_then : Result × Registry → (Registry → Result × Registry) → Result × Registry
  and_then (result, registry) f = if is_ok result then f registry else (result, registry)

  unfoldable pub admission : Plan → Registry → Result × Registry
  admission plan registry =
      and_then
        (and_then
          (and_then (and_then (env.discover registry plan.descriptor) (λ g. env.verify g plan.id))
            (λ g. env.restore plan.candidate.qualification g plan.id))
          (λ g. env.authorize g plan.id))
        (λ g. env.activate g plan.id)

  unfoldable pub admit : Plan → Gate
  unfolding audit admission
  admit plan h = call_gate plan admission_failed h (admission plan h.registry)

  unfoldable pub start_candidate : Plan → Gate
  unfolding audit
  start_candidate plan h =
      gate_of plan start_failed
        (not (plan.descriptor.has_start && not (is_ok (env.module_start plan.descriptor))))
        (record h { start_attempted = true })

  abbrev persist_recorded : Plan → Host → Bool × Inventory → Bool × Host
  persist_recorded plan h (false, inventory) =
      (false, audit plan.id qualification_persist_failed (record h { qualifications = inventory }))
  persist_recorded plan h (true, inventory) =
      let (saved, file) = save (env.stream h.saves) h.state_file inventory in
      gate_of plan qualification_persist_failed saved
        (record h { qualifications = inventory; state_file = file; saves = h.saves + 1 })

  unfoldable pub persist : Plan → Gate
  unfolding audit
  persist plan h =
      if plan.already_qualified
      then (true, h)
      else persist_recorded plan h
          (record_descriptor env.limits.id_max h.qualifications plan.descriptor)

  -- The library of the candidate takes its place in the installed loader.
  unfoldable pub install : Plan → Gate
  unfolding replace_loaded replaced_handle
  install plan h =
      if is_some plan.incumbent
      then (
        true,
        record h {
          loader = replace_loaded plan.id plan.staged_module h.loader;
          closed = h.closed ++ replaced_handle plan.id h.loader;
        },
      )
      else if leb env.limits.loader_max (length h.loader)
      then (false, h)
      else (true, record h { loader = h.loader ++ plan.staged_module ∷ [] })

  unfoldable pub swap : Plan → Gate
  swap plan =
      stop_incumbent plan
      then_gate stop_registered plan
      then_gate unregister_incumbent plan
      then_gate admit plan
      then_gate start_candidate plan
      then_gate persist plan
      then_gate install plan

  -- The handle is the installed loader's now; the barrier is released and the staged copy removed.
  unfoldable pub finish : Plan → Host → Host
  unfolding audit
  finish plan h =
      audit plan.id hotload_active (record h { preloaded = false; barrier = free; staged = false })

  abbrev mark_failed : Plan → Host → Result × Registry → Host
  mark_failed plan h (result, registry) =
      if is_ok result
      then record h { registry = registry }
      else audit plan.id incumbent_fail_audit_unavailable
          (record h { registry = set_failed env registry plan.id })

  -- The start function of the incumbent must exist and succeed.
  unfoldable pub restarts : Descriptor → Bool
  restarts d = d.has_start && is_ok (env.restart d)

  unfoldable pub restart_incumbent : Plan → Option Descriptor → Host → Host
  unfolding audit restarts set_failed
  restart_incumbent plan none h = h
  restart_incumbent plan (some d) h =
      if restarts d
      then audit plan.id incumbent_restored h
      else audit plan.id incumbent_restart_failed (mark_failed plan h (env.fail h.registry plan.id))

  -- old_copy.descriptor
  abbrev old_descriptor : Plan → Option Descriptor
  old_descriptor plan = descriptor_in plan.old_loaded

  -- `if (candidate_start_attempted && loaded_descriptor->stop != NULL) (void)loaded_descriptor->stop();`
  abbrev stops_after : Plan → Host → ℕ
  stops_after plan h =
      if h.start_attempted && plan.descriptor.has_stop
      then h.candidate_stops + 1
      else h.candidate_stops

  -- The label `restore`.
  unfoldable pub restore : Plan → Host → Host
  unfolding restart_incumbent
  restore plan h =
      let back = record h { registry = plan.before; candidate_stops = stops_after plan h } in
      if old_active plan then restart_incumbent plan (old_descriptor plan) back else back

  -- The label `reject_preload`; `acquired` is `transition_acquired`.
  unfoldable pub reject_preload : Bool → Host → Host
  reject_preload acquired h = record h {
    barrier = if acquired then free else h.barrier;
    preloaded = false;
    staged = false;
  }

  abbrev outcome : Plan → Bool × Host → Bool × Host
  outcome plan (true, h) = (true, finish plan h)
  outcome plan (false, h) = (false, reject_preload true (restore plan h))

  -- From digit_service_transition_begin on.
  unfoldable pub transition : Plan → Host → Bool × Host
  unfolding audit finish restore reject_preload swap
  transition plan h =
      if is_free h.barrier
      then outcome plan (swap plan (record h { barrier = ours }))
      else (false, reject_preload false (audit plan.id transition_busy h))

  abbrev no_loader_entry : Plan → Bool
  no_loader_entry plan = is_some plan.incumbent && not (is_some plan.old_loaded)

  unfoldable pub preloaded_candidate : Plan → Host → Bool × Host
  unfolding audit transition reject_preload
  preloaded_candidate plan h =
      if no_loader_entry plan
      then (false, reject_preload false (audit plan.id incumbent_loader_missing h))
      else transition plan h

  abbrev pub plan_of :
      Text → Candidate → Option ModuleRecord → Bool → Host → Loaded → Descriptor → Plan
  plan_of id c incumbent already h l d = record {
    id = id;
    candidate = c;
    staged_module = l;
    descriptor = d;
    already_qualified = already;
    incumbent = incumbent;
    old_loaded = env.loader_find h.loader id;
    before = h.registry;
  }

  abbrev with_descriptor :
      Text
      → Candidate
      → Option ModuleRecord
      → Bool
      → Host
      → Loaded
      → Option Descriptor
      → Bool × Host
  with_descriptor id c incumbent already h l none =
      (false, unlink (audit id load_failed (record h { left_loaded = h.left_loaded + 1 })))
  with_descriptor id c incumbent already h l (some d) =
      preloaded_candidate (plan_of id c incumbent already h l d) (record h { preloaded = true })

  -- stnlabz_module_loader_load, and its descriptor. A library that comes without one stays loaded.
  abbrev with_library :
      Text → Candidate → Option ModuleRecord → Bool → Host → Option Loaded → Bool × Host
  with_library id c incumbent already h none = (false, unlink (audit id load_failed h))
  with_library id c incumbent already h (some l) =
      with_descriptor id c incumbent already h l l.descriptor

  -- The lines between the version test and the preload.
  unfoldable pub report_green : Text → Bool → Host → Host
  unfolding audit
  report_green id already h =
      let changed = audit id version_changed h in
      if already then changed else audit id qualification_green changed

  unfoldable pub valid_candidate : File → Candidate → Host → Bool × Host
  unfolding audit find same_version identity report_green preloaded_candidate
  valid_candidate file c h =
      let already = contains (some h.qualifications) (some (identity c)) in
      let incumbent = find env h.registry file.module_id in
      if same_version incumbent c
      then (true, unlink h)
      else with_library file.module_id c incumbent already (report_green file.module_id already h)
          (env.load file)

  -- digit_report_red_candidate
  unfoldable pub report_red : Candidate → Host → Host
  unfolding audit find
  report_red c h =
      let red = audit c.module_id qualification_red h in
      elim (find env h.registry c.module_id) [
        | none ↦ red
        | some r ↦ if is_active r.state then audit r.descriptor.id incumbent_retained red else red
      ]

  abbrev inspected : File → Host → Option Candidate → Bool × Host
  inspected file h none = (false, unlink (audit file.module_id inspection_failed h))
  inspected file h (some c) =
      if c.valid then valid_candidate file c h else (false, unlink (report_red c h))

  unfoldable pub promote : File → Host → Bool × Host
  unfolding audit valid_candidate report_red
  promote file h =
      if env.copy file
      then inspected file (record h { staged = true; preloaded = false; start_attempted = false })
          (env.inspect file)
      else (false, audit file.module_id staging_failed h)
