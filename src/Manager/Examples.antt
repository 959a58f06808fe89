-- ===== src/Manager/Examples.antt =====
-- src/module_manager.c with a registry of one module whose version has qualified before.
use digit.Base.{
  ℕ, ◌≡◌, ◌↔◌, refl, Bool, true, false, none, some, List, [], ◌∷◌, ◌++◌, ◌+◌, ◌<◌, length, text,
  arith,
}
use digit.Abi.{Limits, ModuleRecord, qualified, Result, ok, not_found}
use digit.Qualification.{Inventory, contains, contains_entry, matches}
use digit.Qualification.Laws.{IsSound}
use digit.Qualification.Store.{Stream}
use digit.Authority.{may_activate, allow, requires_qualification}
use digit.Authority.Examples.{incumbent}
use digit.Manager.{Env, Manager, activated, record_at, admit, activate_one, qualify_and_activate}
use digit.Manager.Step.{IsLawful, descriptors, admit_gate}
use digit.Manager.Keeps.{activate_one-contains}
use digit.Manager.Run.{activations, qualify_and_activate_result}

abbrev pub limits : Limits
limits = record {
  id_max = 64;
  min_tests = 3;
  service_name_max = 64;
  registry_max = 64;
  loader_max = 64;
  loader_path_max = 256;
}

abbrev pub good_stream : Stream
good_stream = record { opens = true; prints = λ _. true; closes = true; torn = [] }

abbrev module_record : ModuleRecord
module_record = record incumbent { state = qualified }

-- A registry that grants every call and changes nothing.
abbrev env : Env
env = record {
  limits = limits;
  verify = λ g id. (ok, g);
  qualify = λ g id. (ok, g);
  restore = λ q g id. (ok, g);
  authorize = λ g id. (ok, g);
  activate = λ g id. (ok, g);
  fail = λ g id. (ok, g);
  abi_stop = λ g id. (ok, g);
  start = λ d. ok;
  stale = module_record;
  stream = λ n. good_stream;
}

abbrev unverified : Env
unverified = record env { verify = λ g id. (not_found, g) }

env-IsLawful : IsLawful env
env-IsLawful = record {
  verify_keeps = λ g id. refl;
  qualify_keeps = λ g id. refl;
  restore_keeps = λ q g id. refl;
  authorize_keeps = λ g id. refl;
  activate_keeps = λ g id. refl;
  fail_keeps = λ g id. refl;
}

abbrev known : Inventory
known = record {
  entries =
      record { module_id = text "echo"; version_major = 1; version_minor = 2; version_patch = 3 }
      ∷ [];
}

pub known-IsSound : IsSound known
unfolding contains_entry
known-IsSound = record { bounded = omega arith; distinct = (refl, tt); named = (refl, tt) }

abbrev pub manager : Manager
manager = record {
  registry = module_record ∷ [];
  qualifications = known;
  state_file = none;
  saves = 0;
  events = [];
}

abbrev newcomer : Manager
newcomer = record manager { qualifications = record { entries = [] } }

abbrev admitted : Manager
admitted = record manager { events = activated (text "echo") ∷ [] }

admits_module : admit env 0 manager ≡ (some tt, admitted)
unfolding admit may_activate
admits_module = refl

admit_gate_example :
    (may_activate 3 (some (record_at env 0 manager.registry)) ≡ allow)
    × ((env.activate manager.registry (record_at env 0 manager.registry).descriptor.id).0 ≡ ok)
    × (admitted.registry ≡ manager.registry)
    × (admitted.events
        ≡ manager.events ++ activated (record_at env 0 admitted.registry).descriptor.id ∷ [])
admit_gate_example = admit_gate env 0 manager admitted admits_module

short_id : length (record_at env 0 manager.registry).descriptor.id < 64
unfolding record_at
short_id = omega arith

activates_module : activate_one env 0 manager ≡ (some tt, admitted)
unfolding activate_one requires_qualification admit may_activate contains contains_entry matches
    digit.Base.str_eq
activates_module = refl

activate_one-contains_example :
    contains (some admitted.qualifications) (some (record_at env 0 manager.registry).descriptor)
    ≡ true
activate_one-contains_example =
    activate_one-contains env env-IsLawful 0 manager short_id admitted activates_module

qualify_and_activate_result_example :
    (result : Result) × (next : Manager) × (qualify_and_activate env manager ≡ some (result, next))
    × ((result ≡ ok)
        ↔ (activations next.events ≡ activations manager.events + length manager.registry))
    × (descriptors next.registry ≡ descriptors manager.registry)
qualify_and_activate_result_example =
    qualify_and_activate_result env env-IsLawful manager (omega arith)
