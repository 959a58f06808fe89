-- ===== src/Runtime/Preservation.antt =====
-- src/runtime.c: Company Preservation and its release.
use digit.Base.{
  ◌≡◌, refl, sym, subst, Bool, true, false, Option, none, some, List, [], ◌∷◌, any, arith,
  Bool-cases, inl, inr, if◌then◌else◌,
}
use digit.Hotload.Poll.{Scan}
use digit.Hotload.{Host, Env}
use digit.Runtime.{
  end_round, Runtime, normal, company_preservation, Fault, report_fault, human_release, init,
  Action, reports, releases, stops, act, act_all, Nap, slept, interrupted, failed, Round, Slept,
  awake, timing_failure, unfinished, sleep, after_sleep, run_rounds, normal_operations_allowed,
}

abbrev pub is_release : Action → Bool
is_release (releases authorized) = authorized
is_release _ = false

abbrev pub actions_of : Nap → List Action
actions_of (slept actions) = actions
actions_of (interrupted actions) = actions
actions_of (failed actions) = actions

-- Whether a human releases Core in some round.
abbrev pub has_release : List Round → Bool
has_release rounds = any (λ round. any (λ nap. any is_release (actions_of nap)) round.naps) rounds

-- The cause is set exactly in Company Preservation, and Safe Mode is over once the fault is reported.
abbrev pub IsSettled : Runtime → Type 0
IsSettled r =
    (r.operational_state ≡ (if r.preservation_cause_set then company_preservation else normal))

act-IsSettled : (a : Action) (r : Runtime) → IsSettled r → IsSettled (act a r)
unfolding act report_fault human_release
act-IsSettled (reports fault) r s = refl
act-IsSettled (releases authorized) r s = ground (arith, s)
act-IsSettled stops r s = s

-- The modules and the table of one state are those of the other, and both preserve.
abbrev IsFrozen : Runtime → Runtime → Type 0
IsFrozen r s =
    (s.operational_state ≡ company_preservation) × (s.files ≡ r.files) × (s.host ≡ r.host)

act-IsFrozen :
    (a : Action) (q r : Runtime) → is_release a ≡ false → IsFrozen q r → IsFrozen q (act a r)
unfolding act report_fault human_release
act-IsFrozen (reports fault) q r n (o, f, h) = (refl, f, h)
act-IsFrozen (releases authorized) q r n (o, f, h) = ground (arith, n, o, f, h)
act-IsFrozen stops q r n (o, f, h) = (o, f, h)

act_all-IsFrozen :
    (actions : List Action) (q r : Runtime)
    → any is_release actions ≡ false
    → IsFrozen q r
    → IsFrozen q (act_all actions r)
unfolding act_all
act_all-IsFrozen [] q r n k = k
act_all-IsFrozen (a ∷ actions) q r n k =
    act_all-IsFrozen actions q (act a r) (ground (arith, n))
      (act-IsFrozen a q r (ground (arith, n)) k)

abbrev nap_releases : Nap → Bool
nap_releases nap = any is_release (actions_of nap)

sleep-IsFrozen :
    (naps : List Nap) (q r : Runtime)
    → any nap_releases naps ≡ false
    → IsFrozen q r
    → IsFrozen q (sleep naps r).1
unfolding sleep report_fault
sleep-IsFrozen [] q r n k = k
sleep-IsFrozen (slept actions ∷ naps) q r n k = act_all-IsFrozen actions q r (ground (arith, n)) k
sleep-IsFrozen (failed actions ∷ naps) q r n k =
    let (o, f, h) = act_all-IsFrozen actions q r (ground (arith, n)) k in (refl, f, h)
sleep-IsFrozen (interrupted actions ∷ naps) q r n k =
    let later = act_all-IsFrozen actions q r (ground (arith, n)) k in
    go (act_all actions r).stop_requested later
      (sleep-IsFrozen naps q (act_all actions r) (ground (arith, n)) later)
  where
    go :
        (b : Bool)
        → IsFrozen q (act_all actions r)
        → IsFrozen q (sleep naps (act_all actions r)).1
        → IsFrozen q
            (if◌then◌else◌ {A = Slept × Runtime} b
              (awake, act_all actions r)
              (sleep naps (act_all actions r))).1
    go true x y = x
    go false x y = y

after_sleep-frozen :
    (env : Env) (scan : Scan) (r : Runtime)
    → r.operational_state ≡ company_preservation
    → after_sleep env scan r ≡ r
unfolding after_sleep normal_operations_allowed
after_sleep-frozen env scan r o = rw o refl

if-IsFrozen :
    (q : Runtime) (b : Bool) (x y : Option Bool × Runtime)
    → IsFrozen q x.1
    → IsFrozen q y.1
    → IsFrozen q (if b then x else y).1
if-IsFrozen q true x y kx ky = kx
if-IsFrozen q false x y kx ky = ky

end_round-IsFrozen :
    (q : Runtime) (ending : Slept × Runtime) (rest : Option Bool × Runtime)
    → IsFrozen q ending.1
    → IsFrozen q rest.1
    → IsFrozen q (end_round ending rest).1
end_round-IsFrozen q (unfinished, woken) rest k kr = k
end_round-IsFrozen q (timing_failure, woken) rest k kr = k
end_round-IsFrozen q (awake, woken) rest k kr =
    if-IsFrozen q woken.stop_requested (some true, record woken { running = false }) rest k kr

run_rounds-IsFrozen :
    (env : Env) (rounds : List Round) (q r : Runtime)
    → has_release rounds ≡ false
    → IsFrozen q r
    → IsFrozen q (run_rounds env rounds r).1
unfolding run_rounds
run_rounds-IsFrozen env [] q r n k =
    if-IsFrozen q r.stop_requested (some true, record r { running = false }) (none, r) k k
run_rounds-IsFrozen env (round ∷ rounds) q r n k =
    let ending = sleep round.naps r in
    let woken = sleep-IsFrozen round.naps q r (ground (arith, n)) k in
    let same = after_sleep-frozen env round.scan ending.1 woken.0 in
    let rest = run_rounds-IsFrozen env rounds q ending.1 (ground (arith, n)) woken in
    let rest' = subst (λ (s : Runtime). IsFrozen q (run_rounds env rounds s).1) (sym same) rest in
    if-IsFrozen q r.stop_requested (some true, record r { running = false })
      (end_round ending (run_rounds env rounds (after_sleep env round.scan ending.1))) k
      (end_round-IsFrozen q ending (run_rounds env rounds (after_sleep env round.scan ending.1))
        woken rest')

-- While Core is in Company Preservation and no human releases it, the loop promotes nothing: however
-- long it runs, and however it ends, it leaves the modules and the table of fingerprints as they are,
-- and Core in Company Preservation, whatever further faults are reported.
pub preservation_holds :
    (env : Env) (rounds : List Round) (r : Runtime)
    → r.operational_state ≡ company_preservation
    → has_release rounds ≡ false
    → ((run_rounds env rounds r).1.operational_state ≡ company_preservation)
      × ((run_rounds env rounds r).1.files ≡ r.files)
      × ((run_rounds env rounds r).1.host ≡ r.host)
preservation_holds env rounds r o n = run_rounds-IsFrozen env rounds r r n (o, refl, refl)

act_all-IsSettled :
    (actions : List Action) (r : Runtime) → IsSettled r → IsSettled (act_all actions r)
unfolding act_all
act_all-IsSettled [] r s = s
act_all-IsSettled (a ∷ actions) r s = act_all-IsSettled actions (act a r) (act-IsSettled a r s)

-- From the initial state on, whatever faults are reported and releases are tried, Core is never left
-- in Safe Mode: it is in Company Preservation exactly while a cause is set, and normal otherwise.
pub preservation-IsSettled :
    (has_modules stop : Bool) (host : Host) (actions : List Action)
    → IsSettled (act_all actions (init has_modules host stop))
unfolding init
preservation-IsSettled has_modules stop host actions =
    act_all-IsSettled actions (init has_modules host stop) refl

-- If normal operations are allowed some time after a fault was reported, an authorized release was
-- among the actions since.
pub release_needed :
    (actions : List Action) (fault : Fault) (r : Runtime)
    → normal_operations_allowed (some (act_all actions (report_fault fault r))) ≡ true
    → any is_release actions ≡ true
unfolding normal_operations_allowed report_fault
release_needed actions fault r e = elim (Bool-cases (any is_release actions)) [
  | inl released ↦ released
  | inr held ↦
      let reported = report_fault fault r in
      let kept = (act_all-IsFrozen actions reported reported held (refl, refl, refl)).0 in
      ground (arith, kept, e)
]
