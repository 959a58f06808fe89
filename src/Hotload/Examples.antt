-- ===== src/Hotload/Examples.antt =====
-- src/hotload.c with one running module and a candidate of its next version.
use digit.Base.{◌≡◌, ◌≤◌, ◌⊎◌, refl, true, false, none, some, [], ◌∷◌, take, text, str_eq, arith}
use digit.Abi.{ok, not_found}
use digit.Authority.Examples.{incumbent}
use digit.Manager.Examples.{limits, good_stream}
use digit.Qualification.{contains}
use digit.Hotload.{File, Candidate, Loaded, Host, Env, free, ours, find}
use digit.Hotload.Inspect.{
  Library, Child, bytes, qualify_candidate_child, qualify_candidate_isolated, receive,
  inspected_valid, arrived_in_time, is_green,
}
use digit.Hotload.Promote.{Plan, promote, transition}
use digit.Hotload.Promote.Clean.{CleansUp, promote-CleansUp}
use digit.Hotload.Promote.Rollback.{SameLoader, IsLost}
use digit.Hotload.Promote.Failure.{promote_rolls_back}
use digit.Hotload.Promote.Success.{IsPromoted, before_admission, transition_success}
use digit.Base.{if◌then◌else◌}
use digit.Hotload.Poll.Collect.{fitted, candidates, collect-fitted}
use digit.Hotload.Poll.{Directory, candidate_at, collect, Polled, complete, poll, snapshot}
use digit.Hotload.Poll.Quiet.{IsTable, undescribed_files, poll_keeps, poll-snapshot}

abbrev candidate : Candidate
candidate = record {
  valid = true;
  module_id = text "echo";
  version_major = 2;
  version_minor = 0;
  version_patch = 0;
  qualification = incumbent.qualification;
}

abbrev library : Loaded
library = record {
  module_id = text "echo";
  descriptor =
      some
        (record incumbent.descriptor { version_major = 2; version_minor = 0; version_patch = 0 });
  handle = 2;
}

abbrev installed : Loaded
installed = record { module_id = text "echo"; descriptor = some incumbent.descriptor; handle = 1 }

abbrev pub env : Env
env = record {
  limits = limits;
  copy = λ file. true;
  inspect = λ file. some candidate;
  load = λ file. some library;
  loader_find = λ loader id. some installed;
  find_slot = λ g id. some 0;
  discover = λ g d. (ok, g);
  verify = λ g id. (ok, g);
  restore = λ q g id. (ok, g);
  authorize = λ g id. (ok, g);
  activate = λ g id. (ok, g);
  stop = λ g id. (ok, g);
  unregister = λ g id. (ok, g);
  fail = λ g id. (ok, g);
  module_stop = λ d. ok;
  module_start = λ d. ok;
  restart = λ d. ok;
  stream = λ n. good_stream;
}

-- The same, but the registry refuses to activate the candidate.
abbrev refusing : Env
refusing = record env { activate = λ g id. (not_found, g) }

abbrev pub host : Host
host = record {
  registry = incumbent ∷ [];
  loader = installed ∷ [];
  qualifications = record { entries = [] };
  state_file = none;
  saves = 0;
  barrier = free;
  staged = false;
  preloaded = false;
  start_attempted = false;
  left_loaded = 0;
  candidate_stops = 0;
  closed = [];
  events = [];
}

abbrev file : File
file = record { module_id = text "echo"; path = text "echo.so"; modified_time = 5; size = 6 }

promote-CleansUp_example : CleansUp 0 host (promote env file host).1
promote-CleansUp_example = promote-CleansUp env file host refl refl

refuses : (promote refusing file host).0 ≡ false
unfolding promote contains digit.Qualification.contains_entry digit.Hotload.Promote.stop_incumbent
    digit.Hotload.Promote.stop_registered digit.Hotload.Promote.unregister_incumbent
    digit.Hotload.Promote.admit
refuses = refl

promote_rolls_back_example :
    SameLoader host (promote refusing file host).1
    × (((promote refusing file host).1.registry ≡ host.registry)
        ⊎ IsLost refusing
            (find refusing host.registry file.module_id)
            (refusing.loader_find host.loader file.module_id))
promote_rolls_back_example = promote_rolls_back refusing file host refuses

abbrev plan : Plan
plan = record {
  id = text "echo";
  candidate = candidate;
  staged_module = library;
  descriptor = record incumbent.descriptor {
    version_major = 2;
    version_minor = 0;
    version_patch = 0;
  };
  already_qualified = false;
  incumbent = some incumbent;
  old_loaded = some installed;
  before = incumbent ∷ [];
}

replaces : (transition env plan host).0 ≡ true
unfolding transition digit.Hotload.Promote.stop_incumbent digit.Hotload.Promote.stop_registered
    digit.Hotload.Promote.unregister_incumbent digit.Hotload.Promote.admit
    digit.Hotload.Promote.start_candidate digit.Hotload.Promote.persist
    digit.Qualification.record_descriptor contains digit.Qualification.contains_entry
    digit.Qualification.Store.save digit.Qualification.Store.print_entries
    digit.Hotload.Promote.install
replaces = refl

nothing_known : plan.already_qualified ≡ contains (some host.qualifications) (some plan.descriptor)
unfolding contains digit.Qualification.contains_entry
nothing_known = refl

transition_success_example :
    IsPromoted env plan
      (before_admission env plan (record host { barrier = ours }))
      (transition env plan host).1
transition_success_example = transition_success env plan host (omega arith) nothing_known replaces

abbrev opened : Library
opened = record {
  opened = true;
  exported = true;
  descriptor = some incumbent.descriptor;
  qualify = (ok, incumbent.qualification);
}

abbrev child : Child
child = record {
  piped = true;
  forked = true;
  clock_started = true;
  wakes = record { clock_read = true; elapsed = 10; ready = bytes 100 } ∷ [];
  reaped = true;
  exit_status = some 0;
}

abbrev green : Candidate
green = record {
  valid = true;
  module_id = text "echo";
  version_major = 1;
  version_minor = 2;
  version_patch = 3;
  qualification = incumbent.qualification;
}

inspects :
    qualify_candidate_isolated 100 child (qualify_candidate_child limits (text "echo") opened)
    ≡ some green
unfolding qualify_candidate_isolated qualify_candidate_child receive is_green str_eq
inspects = refl

inspected_valid_example :
    (green.module_id ≡ take 63 (text "echo"))
    × (opened.qualify.0 ≡ ok)
    × (green.qualification ≡ opened.qualify.1)
    × (limits.min_tests ≤ green.qualification.tests_executed)
    × (green.qualification.tests_passed ≡ green.qualification.tests_executed)
    × (green.qualification.tests_failed ≡ 0)
    × (green.qualification.negative_test_executed ≡ true)
    × (green.qualification.negative_test_passed ≡ true)
    × (100 ≤ arrived_in_time child.wakes)
inspected_valid_example = inspected_valid limits (text "echo") opened 100 child green inspects refl

poll_keeps_example :
    (p : Polled) × (poll env (complete (file ∷ [])) [] host ≡ some p)
    × IsTable 64 p.files
    × (p.changes ≤ 1)
    × CleansUp (undescribed_files env (file ∷ [])) host p.host
poll_keeps_example = poll_keeps env (file ∷ []) [] host (omega arith, tt) refl refl

poll-snapshot_example :
    poll env (complete (file ∷ [])) (snapshot [] (complete (file ∷ []))).1 host
    ≡ some (record { changes = 0; files = file ∷ []; host = host })
poll-snapshot_example = poll-snapshot env (file ∷ []) [] host (refl, tt)

-- A directory with the library of `echo` and a file beside it.
abbrev directory : Directory
directory = record {
  names = text ".." ∷ text "echo" ∷ text "README" ∷ [];
  stat = λ path.
      if str_eq path (text "/m/echo")
      then some (record { is_directory = true; is_regular = false; modified_time = 1; size = 1 })
      else some (record { is_directory = false; is_regular = true; modified_time = 5; size = 6 });
}

collect-fitted_example :
    collect limits (text "/m") (some directory)
    ≡ fitted limits.registry_max (candidates limits (text "/m") directory directory.names)
collect-fitted_example = collect-fitted limits (text "/m") directory

collects_echo :
    candidates limits (text "/m") directory directory.names
    ≡ record {
      module_id = text "echo";
      path = text "/m/echo/bin/echo.so";
      modified_time = 5;
      size = 6;
    }
      ∷ []
unfolding candidate_at str_eq
collects_echo = refl
