-- ===== src/Hotload/Inspect.antt =====
-- src/hotload.c: the qualification of a candidate in the child process.
use digit.Base.{
  Option-cases, Bool-cases, inl, inr, ℕ, ◌+◌, min, leb, List, [], ◌∷◌, ◌≤◌, ◌≡◌, Bool, true, false,
  not, ◌&&◌, Option, none, some, Text, str_eq, str_eq→eq, take, ◌-◌, ltb, ◌==◌, if◌then◌else◌,
  arith,
}
use digit.Abi.{Limits, Descriptor, QualificationResult, Result, ok}
use digit.Manager.{is_ok}
use digit.Hotload.{Candidate}

-- What dlopen, dlsym and the exported function give: `none` is a failure or a null descriptor.
pub record Library : Type 0 where
  pub opened : Bool
  pub exported : Bool
  pub descriptor : Option Descriptor
  pub qualify : Result × QualificationResult

-- The test behind `result->valid`.
unfoldable pub is_green : ℕ → Result × QualificationResult → Bool
is_green min_tests (result, q) =
    is_ok result
    && not (ltb q.tests_executed min_tests)
    && (q.tests_passed == q.tests_executed)
    && (q.tests_failed == 0)
    && q.negative_test_executed
    && q.negative_test_passed

abbrev candidate_of : Limits → Library → Descriptor → Candidate
candidate_of limits library d = record {
  valid = is_green limits.min_tests library.qualify;
  module_id = take (limits.id_max - 1) d.id;
  version_major = d.version_major;
  version_minor = d.version_minor;
  version_patch = d.version_patch;
  qualification = library.qualify.1;
}

abbrev inspect_descriptor : Limits → Text → Library → Option Descriptor → Option Candidate
inspect_descriptor limits module_id library none = none
inspect_descriptor limits module_id library (some d) =
    if not (str_eq d.id module_id)
    then none
    else if not d.has_qualify
    then none
    else some (candidate_of limits library d)

unfoldable pub qualify_candidate_child : Limits → Text → Library → Option Candidate
unfolding is_green
qualify_candidate_child limits module_id library =
    if not library.opened
    then none
    else if not library.exported
    then none
    else inspect_descriptor limits module_id library library.descriptor

-- One round of the parent's loop: whether the clock could be read, the milliseconds since the start,
-- and what poll and read gave.
pub data Ready : Type 0 where
  timed_out interrupted broken ended : Ready
  bytes : ℕ → Ready

pub record Wake : Type 0 where
  pub clock_read : Bool
  pub elapsed : ℕ
  pub ready : Ready

-- DIGIT_QUALIFICATION_TIMEOUT_MS
abbrev pub timeout_ms : ℕ
timeout_ms = 3000

abbrev pub after_read : Ready → ℕ → ℕ → Option ℕ
after_read (bytes n) size received = some (received + min n (size - received))
after_read interrupted size received = some received
after_read _ size received = none

abbrev pub after_wake : Wake → ℕ → ℕ → Option ℕ
after_wake w size received =
    if not w.clock_read
    then none
    else if leb timeout_ms w.elapsed
    then none
    else after_read w.ready size received

-- The loop that fills the result; it waits for ever where no wake is left.
unfoldable pub receive : ℕ → ℕ → List Wake → Bool
receive size received [] = leb size received
receive size received (w ∷ wakes) = elim (after_wake w size received) [
  | none ↦ leb size received
  | some more ↦ let rest = receive size more wakes in if leb size received then true else rest
]

-- The child as the parent sees it: whether it could be made, what arrived, whether waitpid returned
-- it, and its exit status if it exited.
pub record Child : Type 0 where
  pub piped : Bool
  pub forked : Bool
  pub clock_started : Bool
  pub wakes : List Wake
  pub reaped : Bool
  pub exit_status : Option ℕ

abbrev exited_well : Option ℕ → Bool
exited_well none = false
exited_well (some status) = status == 0

-- `size` is the size of the result. A child that could not inspect the candidate sends nothing.
unfoldable pub qualify_candidate_isolated : ℕ → Child → Option Candidate → Option Candidate
qualify_candidate_isolated size child sent =
    if child.piped
      && child.forked
      && child.clock_started
      && receive size 0 child.wakes
      && child.reaped
      && exited_well child.exit_status
    then sent
    else none

child_valid :
    (limits : Limits) (module_id : Text) (library : Library) (d : Option Descriptor) (c : Candidate)
    → inspect_descriptor limits module_id library d ≡ some c
    → c.valid ≡ true
    → (c.module_id ≡ take (limits.id_max - 1) module_id)
      × (library.qualify.0 ≡ ok)
      × (c.qualification ≡ library.qualify.1)
      × (limits.min_tests ≤ c.qualification.tests_executed)
      × (c.qualification.tests_passed ≡ c.qualification.tests_executed)
      × (c.qualification.tests_failed ≡ 0)
      × (c.qualification.negative_test_executed ≡ true)
      × (c.qualification.negative_test_passed ≡ true)
unfolding is_green
child_valid limits module_id library none c h valid = cc
child_valid limits module_id library (some d) c h valid =
    ground (arith, h, valid, str_eq→eq d.id module_id)

abbrev pub bytes_of : Ready → ℕ
bytes_of (bytes n) = n
bytes_of _ = 0

-- The bytes that could be read within the time limit.
abbrev pub arrived_in_time : List Wake → ℕ
arrived_in_time [] = 0
arrived_in_time (w ∷ wakes) =
    (if ltb w.elapsed timeout_ms then bytes_of w.ready else 0) + arrived_in_time wakes

after_wake_bound :
    (w : Wake) (size received more : ℕ)
    → after_wake w size received ≡ some more
    → more ≤ received + (if ltb w.elapsed timeout_ms then bytes_of w.ready else 0)
after_wake_bound w size received more h = ground (arith, h)

receive_in_time :
    (size received : ℕ) (wakes : List Wake)
    → receive size received wakes ≡ true
    → size ≤ received + arrived_in_time wakes
unfolding receive
receive_in_time size received [] h = ground arith
receive_in_time size received (w ∷ wakes) h = elim (Option-cases (after_wake w size received)) [
  | inl stop ↦ let full : leb size received ≡ true = rw (stop, receive) at h in ground (arith, full)
  | inr (more, go) ↦
      let full : (if leb size received then true else receive size more wakes) ≡ true =
        rw (go, receive) at h in
      let share = after_wake_bound w size received more go in
      elim (Bool-cases (leb size received)) [
        | inl yet ↦ ground (arith, yet)
        | inr wait ↦
            let rec = receive_in_time size more wakes (rw wait at full) in omega (arith, rec, share)
      ]
]

-- A candidate that passes inspection as valid carries the id that was asked for, cut to the size of
-- its field, and the result of its qualify function, which returned OK with enough tests, all of them
-- passed, and the negative test executed and passed. The whole result arrived within the time limit.
pub inspected_valid :
    (limits : Limits) (module_id : Text) (library : Library) (size : ℕ) (child : Child)
    (c : Candidate)
    → qualify_candidate_isolated size child (qualify_candidate_child limits module_id library)
      ≡ some c
    → c.valid ≡ true
    → (c.module_id ≡ take (limits.id_max - 1) module_id)
      × (library.qualify.0 ≡ ok)
      × (c.qualification ≡ library.qualify.1)
      × (limits.min_tests ≤ c.qualification.tests_executed)
      × (c.qualification.tests_passed ≡ c.qualification.tests_executed)
      × (c.qualification.tests_failed ≡ 0)
      × (c.qualification.negative_test_executed ≡ true)
      × (c.qualification.negative_test_passed ≡ true)
      × (size ≤ arrived_in_time child.wakes)
unfolding qualify_candidate_child qualify_candidate_isolated
inspected_valid limits module_id library size child c h valid = ground (
  arith,
  h,
  child_valid limits module_id library library.descriptor c,
  receive_in_time size 0 child.wakes,
)
