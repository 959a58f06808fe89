-- ===== src/Abi.antt =====
-- The types of the STN-LABZ ABI that Core reads. Its headers and its implementation belong to
-- another repository, so its constants are a parameter, and its registry, loader and discovery are
-- parameters of the models that call them.
use digit.Base.{ℕ, Bool, Text}

-- STNLABZ_MODULE_ID_MAX, STNLABZ_MODULE_MIN_TESTS, STNLABZ_MODULE_SERVICE_NAME_MAX,
-- STNLABZ_MODULE_REGISTRY_MAX,
-- STNLABZ_MODULE_LOADER_MAX and STNLABZ_MODULE_LOADER_PATH_MAX
pub record Limits : Type 0 where
  pub id_max : ℕ
  pub min_tests : ℕ
  pub service_name_max : ℕ
  pub registry_max : ℕ
  pub loader_max : ℕ
  pub loader_path_max : ℕ

-- stnlabz_module_descriptor_t: its identity, and whether it has the functions that Core may call.
pub record Descriptor : Type 0 where
  pub id : Text
  pub version_major : ℕ
  pub version_minor : ℕ
  pub version_patch : ℕ
  pub has_qualify : Bool
  pub has_start : Bool
  pub has_stop : Bool

-- stnlabz_module_qualification_result_t
pub record QualificationResult : Type 0 where
  pub tests_executed : ℕ
  pub tests_passed : ℕ
  pub tests_failed : ℕ
  pub negative_test_executed : Bool
  pub negative_test_passed : Bool

-- stnlabz_module_state_t: the states that Core names, and all others.
pub data State : Type 0 where
  qualified active stopped failed : State
  other : ℕ → State

-- stnlabz_module_record_t
pub record ModuleRecord : Type 0 where
  pub descriptor : Descriptor
  pub state : State
  pub qualification : QualificationResult
  pub activation_authorized : Bool

-- stnlabz_module_result_t: the results that Core names, and all others.
pub data Result : Type 0 where
  ok invalid_argument not_found err_qualification start_failed : Result
  err_other : ℕ → Result
