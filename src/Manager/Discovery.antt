-- ===== src/Manager/Discovery.antt =====
-- src/module_manager.c: the qualification state is loaded before the modules are discovered.
use digit.Base.{
  ℕ, ◌≡◌, ◌⊎◌, Bool, true, false, not, Option, ◌∷◌, ◌++◌, length, Text, text, leb, if◌then◌else◌,
}
use digit.Abi.{Result, invalid_argument, err_qualification}
use digit.Qualification.{Inventory}
use digit.Qualification.Laws.{IsSound}
use digit.Qualification.Store.{Readable, load}
use digit.Manager.{Registry, Manager, is_ok}

-- DIGIT_RUNTIME_MODULE_PATH
abbrev pub module_path : Text
module_path = text "/opt/digit/modules"

-- DIGIT_QUALIFICATION_STATE_FILE
abbrev pub state_file : Text
state_file = text "qualification.state"

-- The sizes of the manager's paths, the files that can be opened, and the discovery of the ABI, which
-- changes the registry, the loader and the report.
pub record Discovery (Loader Report : Type 0) : Type 0 where
  pub id_max : ℕ
  pub modules_path_size : ℕ
  pub qualification_path_size : ℕ
  pub open_file : Text → Option Readable
  pub scan : Registry → Loader → Text → Report → Result × (Registry × (Loader × Report))

-- The manager with its loader, and the report of the caller.
pub record Discovered (Loader Report : Type 0) : Type 0 where
  pub manager : Manager
  pub loader : Loader
  pub report : Report

module _ {Loader Report : Type 0} (env : Discovery Loader Report) where
  -- digit_module_manager_set_qualification_path; `false` is a path that does not fit.
  unfoldable pub set_qualification_path : Bool × Text
  set_qualification_path =
      let path = module_path ++ (b'/' ∷ state_file) in
      (not (leb env.qualification_path_size (length path)), path)

  -- The loading of the state file.
  abbrev pub loaded_state : Bool × Inventory
  loaded_state = load env.id_max (env.open_file set_qualification_path.1)

  abbrev pub scanned :
      Discovered Loader Report
      → Result × (Registry × (Loader × Report))
      → Result × Discovered Loader Report
  scanned s (result, (registry, (loader, report))) = (
    result,
    record {
      manager = record (s.manager) { registry = registry };
      loader = loader;
      report = report;
    },
  )

  abbrev pub with_inventory : Inventory → Discovered Loader Report → Discovered Loader Report
  with_inventory inventory s = record s {
    manager = record (s.manager) { qualifications = inventory };
  }

  abbrev loaded : Discovered Loader Report → Bool × Inventory → Result × Discovered Loader Report
  loaded s (false, inventory) = (err_qualification, with_inventory inventory s)
  loaded s (true, inventory) =
      scanned (with_inventory inventory s)
        (env.scan s.manager.registry s.loader module_path s.report)

  -- digit_module_manager_discover; `given` is that neither pointer is null.
  unfoldable pub discover : Bool → Discovered Loader Report → Result × Discovered Loader Report
  unfolding set_qualification_path
  discover given s =
      if not given
      then (invalid_argument, s)
      else if leb env.modules_path_size (length module_path)
      then (invalid_argument, s)
      else if not set_qualification_path.0
      then (invalid_argument, s)
      else loaded s loaded_state

  -- The scan has run on the inventory of an accepted state file, and its result is the result.
  abbrev pub IsScanned : Discovered Loader Report → Result × Discovered Loader Report → Type 0
  IsScanned s r =
      (loaded_state.0 ≡ true)
      × (r
          ≡ scanned (with_inventory loaded_state.1 s)
              (env.scan s.manager.registry s.loader module_path s.report))

  -- The result is an error, and nothing but the inventory has changed.
  abbrev pub IsRefused : Discovered Loader Report → Result × Discovered Loader Report → Type 0
  IsRefused s r = (is_ok r.0 ≡ false) × (r.1 ≡ with_inventory r.1.manager.qualifications s)

  abbrev pub IsOutcome : Discovered Loader Report → Result × Discovered Loader Report → Type 0
  IsOutcome s r = IsSound r.1.manager.qualifications × (IsScanned s r ⊎ IsRefused s r)
