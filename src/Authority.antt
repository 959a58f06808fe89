-- ===== src/Authority.antt =====
-- src/authority.c: the decisions that gate activation, replacement and dispatch.
pub mod Laws
pub mod Examples
use digit.Base.{ℕ, Bool, true, false, not, ◌&&◌, ◌||◌, Option, none, some, ltb, ◌==◌, if◌then◌else◌}
use digit.Abi.{Descriptor, ModuleRecord, State, qualified, active, stopped, failed, other}
use digit.Qualification.{Inventory, contains}

pub data Decision : Type 0 where
  deny allow : Decision

abbrev pub is_active : State → Bool
is_active active = true
is_active _ = false

abbrev pub is_startable : State → Bool
is_startable qualified = true
is_startable stopped = true
is_startable _ = false

-- In this file `none` is the null pointer.
unfoldable pub requires_qualification : Option Inventory → Option Descriptor → Bool
requires_qualification (some inventory) (some d) = not (contains (some inventory) (some d))
requires_qualification _ _ = true

unfoldable pub may_activate : ℕ → Option ModuleRecord → Decision
may_activate min_tests none = deny
may_activate min_tests (some r) =
    if not (is_startable r.state)
    then deny
    else if ltb r.qualification.tests_executed min_tests
        || not (r.qualification.tests_failed == 0)
        || not r.qualification.negative_test_executed
        || not r.qualification.negative_test_passed
        || not r.activation_authorized
    then deny
    else allow

abbrev is_allowed : Decision → Bool
is_allowed allow = true
is_allowed deny = false

unfoldable pub may_replace : ℕ → Option ModuleRecord → Option ModuleRecord → Decision
unfolding may_activate
may_replace min_tests (some current) (some candidate) =
    if not (is_active current.state)
    then deny
    else if not (is_allowed (may_activate min_tests (some candidate)))
    then deny
    else allow
may_replace min_tests _ _ = deny

unfoldable pub may_dispatch : Option ModuleRecord → Decision
may_dispatch none = deny
may_dispatch (some r) = if is_active r.state then allow else deny
