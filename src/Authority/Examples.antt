-- ===== src/Authority/Examples.antt =====
-- src/authority.c on a running incumbent and a qualified candidate.
use digit.Base.{◌≡◌, ◌↔◌, ◌⊎◌, refl, true, some, text}
use digit.Abi.{ModuleRecord, qualified, active, stopped}
use digit.Authority.{allow, may_replace, may_dispatch}
use digit.Authority.Laws.{IsFit, may_replace_iff}

abbrev pub incumbent : ModuleRecord
incumbent = record {
  descriptor = record {
    id = text "echo";
    version_major = 1;
    version_minor = 2;
    version_patch = 3;
    has_qualify = true;
    has_start = true;
    has_stop = true;
  };
  state = active;
  qualification = record {
    tests_executed = 5;
    tests_passed = 5;
    tests_failed = 0;
    negative_test_executed = true;
    negative_test_passed = true;
  };
  activation_authorized = true;
}

abbrev candidate : ModuleRecord
candidate = record incumbent { state = qualified }

may_replace_iff_example : (may_replace 3 (some incumbent) (some candidate) ≡ allow) ↔ (
    (may_dispatch (some incumbent) ≡ allow)
    × IsFit 3 candidate
    × ((candidate.state ≡ qualified) ⊎ (candidate.state ≡ stopped)))
may_replace_iff_example = may_replace_iff 3 incumbent candidate

incumbent_serves : may_dispatch (some incumbent) ≡ allow
unfolding may_dispatch
incumbent_serves = refl
