-- ===== src/Hotload.antt =====
-- src/hotload.c: the state of the hotload layer, and what it takes from the ABI and from the system.
pub mod Inspect
pub mod Promote
pub mod Poll
pub mod Examples
use digit.Base.{
  get_elem?, set, ℕ, Bool, true, false, Option, none, some, List, [], ◌∷◌, ◌++◌, Text,
  if◌then◌else◌,
}
use digit.Abi.{Limits, Descriptor, QualificationResult, ModuleRecord, State, failed, Result, ok}
use digit.Qualification.{Inventory}
use digit.Qualification.Store.{Stream}
use digit.Manager.{Registry, RegistryCall}

-- digit_hotload_file_t
pub record File : Type 0 where
  pub module_id : Text
  pub path : Text
  pub modified_time : ℕ
  pub size : ℕ

-- digit_candidate_result_t
pub record Candidate : Type 0 where
  pub valid : Bool
  pub module_id : Text
  pub version_major : ℕ
  pub version_minor : ℕ
  pub version_patch : ℕ
  pub qualification : QualificationResult

-- stnlabz_loaded_module_t; a handle is a number here.
pub record Loaded : Type 0 where
  pub module_id : Text
  pub descriptor : Option Descriptor
  pub handle : ℕ

-- The names of the lifecycle audit.
pub data Event : Type 0 where
  staging_failed inspection_failed qualification_red incumbent_retained : Event
  version_changed qualification_green load_failed incumbent_loader_missing transition_busy : Event
  incumbent_stop_failed registry_stop_failed unregister_failed admission_failed : Event
  start_failed qualification_persist_failed hotload_active : Event
  incumbent_fail_audit_unavailable incumbent_restart_failed incumbent_restored : Event
  new_candidate update_candidate : Event

-- Who holds the barrier of the service registry.
pub data Barrier : Type 0 where
  free ours theirs : Barrier

-- The manager's part of the state, and the locals of one promotion that must be undone: whether the
-- staged copy is on disk, whether the candidate's library is loaded beside the installed ones, and
-- whether its start was attempted. `left_loaded` counts the libraries that a promotion has loaded and
-- neither installed nor unloaded, and `candidate_stops` the calls of the stop function of a candidate
-- on the way back.
pub record Host : Type 0 where
  pub registry : Registry
  pub loader : List Loaded
  pub qualifications : Inventory
  pub state_file : Option Text
  pub saves : ℕ
  pub barrier : Barrier
  pub staged : Bool
  pub preloaded : Bool
  pub start_attempted : Bool
  pub left_loaded : ℕ
  pub candidate_stops : ℕ
  pub closed : List ℕ
  pub events : List (Text × Event)

-- What the layer uses and does not implement: staging and isolated inspection of a candidate as far
-- as they are the work of the system, the loader and the registry of the ABI, and the functions of
-- the modules. `find_slot` is the slot that stnlabz_module_registry_find points to, and `restart` is the start function of the incumbent when it is restored.
pub record Env : Type 0 where
  pub limits : Limits
  pub copy : File → Bool
  pub inspect : File → Option Candidate
  pub load : File → Option Loaded
  pub loader_find : List Loaded → Text → Option Loaded
  pub find_slot : Registry → Text → Option ℕ
  pub discover : Registry → Descriptor → Result × Registry
  pub verify : RegistryCall
  pub restore : QualificationResult → RegistryCall
  pub authorize : RegistryCall
  pub activate : RegistryCall
  pub stop : RegistryCall
  pub unregister : RegistryCall
  pub fail : RegistryCall
  pub module_stop : Descriptor → Result
  pub module_start : Descriptor → Result
  pub restart : Descriptor → Result
  pub stream : ℕ → Stream

-- digit_hotload_audit
unfoldable pub audit : Text → Event → Host → Host
audit id event h = record h { events = h.events ++ (id, event) ∷ [] }

-- stnlabz_module_registry_find
unfoldable pub find : Env → Registry → Text → Option ModuleRecord
find env registry id = elim (env.find_slot registry id) [
  | none ↦ none
  | some i ↦ get_elem? registry i
]

abbrev set_state : Registry → ℕ → Option ModuleRecord → Registry
set_state registry i none = registry
set_state registry i (some r) = set registry i (record r { state = failed })

-- `failed->state = FAILED`, if the module is found
unfoldable pub set_failed : Env → Registry → Text → Registry
set_failed env registry id = elim (env.find_slot registry id) [
  | none ↦ registry
  | some i ↦ set_state registry i (get_elem? registry i)
]
