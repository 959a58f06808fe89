-- ===== src/Runtime.antt =====
-- src/runtime.c: the operational state of Core, and the loop that polls for module changes.
pub mod Preservation
mod Examples
use digit.Base.{ℕ, Bool, true, false, not, ◌&&◌, Option, none, some, List, [], ◌∷◌, if◌then◌else◌}
use digit.Hotload.{File, Host, Env}
use digit.Hotload.Poll.{Polled, Scan, poll, snapshot}

-- digit_operational_state_t
pub data Operational : Type 0 where
  normal safe_mode company_preservation : Operational

-- digit_fault_t
pub data Fault : Type 0 where
  authority integrity system mission truthfulness unauthorized_condition : Fault

-- digit_runtime_t, with the state behind its module manager, the table of its hotload, and the flag
-- that the signal handler sets.
pub record Runtime : Type 0 where
  pub has_modules : Bool
  pub files : List File
  pub host : Host
  pub running : Bool
  pub operational_state : Operational
  pub preservation_cause : Fault
  pub preservation_cause_set : Bool
  pub stop_requested : Bool

-- digit_runtime_init
unfoldable pub init : Bool → Host → Bool → Runtime
init has_modules host stop_requested = record {
  has_modules = has_modules;
  files = [];
  host = host;
  running = false;
  operational_state = normal;
  preservation_cause = system;
  preservation_cause_set = false;
  stop_requested = stop_requested;
}

-- digit_runtime_report_fault, assignment by assignment
unfoldable pub report_fault : Fault → Runtime → Runtime
report_fault fault r =
    let entered = record r {
      operational_state = safe_mode;
      preservation_cause = fault;
      preservation_cause_set = true;
    } in
    record entered { operational_state = company_preservation }

abbrev pub is_preserving : Operational → Bool
is_preserving company_preservation = true
is_preserving _ = false

abbrev pub is_normal : Operational → Bool
is_normal normal = true
is_normal _ = false

-- digit_runtime_human_release
unfoldable pub human_release : Bool → Runtime → Bool × Runtime
human_release authorized r =
    if not authorized
    then (false, r)
    else if not (is_preserving r.operational_state)
    then (false, r)
    else (true, record r { operational_state = normal; preservation_cause_set = false })

-- digit_runtime_operational_state; `none` is a null pointer.
unfoldable pub operational_state : Option Runtime → Operational
operational_state none = company_preservation
operational_state (some r) = r.operational_state

-- digit_runtime_normal_operations_allowed
unfoldable pub normal_operations_allowed : Option Runtime → Bool
normal_operations_allowed none = false
normal_operations_allowed (some r) = is_normal r.operational_state

-- What callers of this file do while the loop sleeps. A signal and digit_runtime_request_stop set the
-- same flag.
pub data Action : Type 0 where
  reports : Fault → Action
  releases : Bool → Action
  stops : Action

unfoldable pub act : Action → Runtime → Runtime
unfolding report_fault human_release
act (reports fault) r = report_fault fault r
act (releases authorized) r = (human_release authorized r).1
act stops r = record r { stop_requested = true }

unfoldable pub act_all : List Action → Runtime → Runtime
unfolding act
act_all [] r = r
act_all (a ∷ actions) r = act_all actions (act a r)

-- How one call of nanosleep ends, after the actions that happen during it.
pub data Nap : Type 0 where
  slept interrupted failed : List Action → Nap

-- One round: the naps until the delay is over, and what the poll finds in the directory.
pub record Round : Type 0 where
  pub naps : List Nap
  pub scan : Scan

-- How the inner loop ends; `unfinished` is an inner loop that goes on behind the naps given.
pub data Slept : Type 0 where
  awake timing_failure unfinished : Slept

unfoldable pub sleep : List Nap → Runtime → Slept × Runtime
unfolding act_all report_fault
sleep [] r = (unfinished, r)
sleep (slept actions ∷ naps) r = (awake, act_all actions r)
sleep (failed actions ∷ naps) r =
    (timing_failure, record (report_fault system (act_all actions r)) { running = false })
sleep (interrupted actions ∷ naps) r =
    let later = act_all actions r in
    let rest = sleep naps later in if later.stop_requested then (awake, later) else rest

abbrev polled : Runtime → Option Polled → Runtime
polled r none = r
polled r (some p) = record r { files = p.files; host = p.host }

-- The lines behind the sleep, up to the next test of the loop.
unfoldable pub after_sleep : Env → Scan → Runtime → Runtime
unfolding normal_operations_allowed
after_sleep env scan r =
    if normal_operations_allowed (some r) then polled r (poll env scan r.files r.host) else r

-- How a round ends behind its sleep; `rest` is the loop from there on.
abbrev pub end_round : Slept × Runtime → Option Bool × Runtime → Option Bool × Runtime
end_round (unfinished, woken) rest = (none, woken)
end_round (timing_failure, woken) rest = (some false, woken)
end_round (awake, woken) rest =
    if woken.stop_requested then (some true, record woken { running = false }) else rest

-- The loop; `none` is that it still runs when the rounds are used up.
unfoldable pub run_rounds : Env → List Round → Runtime → Option Bool × Runtime
unfolding sleep after_sleep
run_rounds env [] r =
    if r.stop_requested then (some true, record r { running = false }) else (none, r)
run_rounds env (round ∷ rounds) r =
    let ending = sleep round.naps r in
    let rest = run_rounds env rounds (after_sleep env round.scan ending.1) in
    if r.stop_requested then (some true, record r { running = false }) else end_round ending rest

abbrev after_snapshot : Env → List Round → Runtime → Bool × List File → Option Bool × Runtime
after_snapshot env rounds r (false, files) = (some false, record r { files = files })
after_snapshot env rounds r (true, files) =
    run_rounds env rounds (record r { files = files; stop_requested = false; running = true })

-- digit_runtime_run; `signals` tells whether both handlers could be installed, and `scan` is the
-- first collection of the directory.
unfoldable pub run : Env → Bool → Scan → List Round → Runtime → Option Bool × Runtime
unfolding run_rounds
run env signals scan rounds r =
    if not r.has_modules
    then (some false, r)
    else if not signals
    then (some false, r)
    else after_snapshot env rounds r (snapshot r.files scan)
