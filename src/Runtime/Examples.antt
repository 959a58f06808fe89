-- ===== src/Runtime/Examples.antt =====
-- src/runtime.c through a fault, one round of the loop, and a release.
use digit.Base.{◌≡◌, refl, true, false, some, [], ◌∷◌, any}
use digit.Hotload.Poll.{complete}
use digit.Hotload.Examples.{env, host}
use digit.Runtime.{
  Runtime, init, integrity, company_preservation, report_fault, reports, releases, act, act_all,
  human_release, slept, Round, run_rounds, normal_operations_allowed,
}
use digit.Runtime.Preservation.{
  IsSettled, is_release, preservation_holds, preservation-IsSettled, release_needed,
}

abbrev preserving : Runtime
preserving = record {
  has_modules = true;
  files = [];
  host = host;
  running = true;
  operational_state = company_preservation;
  preservation_cause = integrity;
  preservation_cause_set = true;
  stop_requested = false;
}

abbrev quiet_round : Round
quiet_round = record { naps = slept (releases false ∷ []) ∷ []; scan = complete [] }

preservation_holds_example :
    ((run_rounds env (quiet_round ∷ []) preserving).1.operational_state ≡ company_preservation)
    × ((run_rounds env (quiet_round ∷ []) preserving).1.files ≡ preserving.files)
    × ((run_rounds env (quiet_round ∷ []) preserving).1.host ≡ preserving.host)
preservation_holds_example = preservation_holds env (quiet_round ∷ []) preserving refl refl

preservation-IsSettled_example :
    IsSettled (act_all (reports integrity ∷ releases true ∷ []) (init true host false))
preservation-IsSettled_example =
    preservation-IsSettled true false host (reports integrity ∷ releases true ∷ [])

released :
    normal_operations_allowed
      (some (act_all (releases true ∷ []) (report_fault integrity preserving)))
    ≡ true
unfolding normal_operations_allowed act_all act report_fault human_release
released = refl

release_needed_example : any is_release (releases true ∷ []) ≡ true
release_needed_example = release_needed (releases true ∷ []) integrity preserving released
