-- ===== src/Authority/Laws.antt =====
-- src/authority.c: what an ALLOW says about the records, and how the decisions exclude one another.
use digit.Base.{ℕ, ◌≤◌, ◌≡◌, ◌↔◌, ◌⊎◌, refl, true, Option, none, some, arith}
use digit.Abi.{ModuleRecord, qualified, stopped}
use digit.Authority.{deny, allow, may_activate, may_replace, may_dispatch}

-- The evidence that activation asks for.
pub record IsFit (min_tests : ℕ) (r : ModuleRecord) : Type 0 where
  pub enough : min_tests ≤ r.qualification.tests_executed
  pub no_failure : r.qualification.tests_failed ≡ 0
  pub negative_executed : r.qualification.negative_test_executed ≡ true
  pub negative_passed : r.qualification.negative_test_passed ≡ true
  pub authorized : r.activation_authorized ≡ true

pub may_activate-IsFit :
    (min_tests : ℕ) (r : ModuleRecord)
    → may_activate min_tests (some r) ≡ allow
    → IsFit min_tests r × ((r.state ≡ qualified) ⊎ (r.state ≡ stopped))
unfolding may_activate
may_activate-IsFit min_tests r h = ground arith

pub IsFit-may_activate :
    (min_tests : ℕ) (r : ModuleRecord)
    → IsFit min_tests r
    → ((r.state ≡ qualified) ⊎ (r.state ≡ stopped))
    → may_activate min_tests (some r) ≡ allow
unfolding may_activate
IsFit-may_activate min_tests r fit s = ground (arith, s)

-- A replacement is allowed exactly if the incumbent may be dispatched to, and the candidate has all
-- the evidence and is qualified or stopped.
pub may_replace_iff :
    (min_tests : ℕ) (current candidate : ModuleRecord)
    → (may_replace min_tests (some current) (some candidate) ≡ allow) ↔ (
        (may_dispatch (some current) ≡ allow)
        × IsFit min_tests candidate
        × ((candidate.state ≡ qualified) ⊎ (candidate.state ≡ stopped)))
unfolding may_replace may_dispatch
may_replace_iff min_tests current candidate = (λ h. ground arith, λ h. ground (arith, h))

-- No record is both fit to start and fit to serve: a module is dispatched to only once it is active.
pub dispatch_excludes_activation :
    (min_tests : ℕ) (r : Option ModuleRecord)
    → may_dispatch r ≡ allow
    → may_activate min_tests r ≡ deny
unfolding may_dispatch may_activate
dispatch_excludes_activation min_tests none h = refl
dispatch_excludes_activation min_tests (some r) h = ground arith
