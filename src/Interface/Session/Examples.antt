-- ===== src/Interface/Session/Examples.antt =====
-- modules/interface/src/session_store.c with one session.
use digit.Base.{
  ℕ, zero, suc, All, ◌≡◌, refl, true, not, ◌&&◌, none, some, List, [], ◌∷◌, ◌+◌, Text, text, str_eq,
  leb, arith, if◌then◌else◌, replicate,
}
use digit.Interface.Session.{
  Entry, Draw, given, interrupted, cleared, init, session, issue, resolve, revoke, revoke_identity,
  token_valid, lifetime, find_session, identity_valid,
}
use digit.Interface.Session.Tokens.{IsDrawn, IsBytes}
use digit.Interface.Session.Issue.{resolve-issue}
use digit.Interface.Session.Invariant.{IsWellFormed}
use digit.Interface.Session.Reach.{issues, Reachable, start, onward, Reachable-IsWellFormed}
use digit.Interface.Session.Revoke.{resolve-revoke}
use digit.Interface.Session.RevokeIdentity.{resolve-revoke_identity, unless}

-- Thirty-two bytes, in two calls with a signal between them
abbrev draws : List Draw
draws = given (171 ∷ 5 ∷ []) ∷ interrupted ∷ given (replicate 30 16) ∷ []

replicate-IsBytes : (n : ℕ) → IsBytes (replicate n 16)
replicate-IsBytes zero = tt
replicate-IsBytes (suc n) = (omega arith, replicate-IsBytes n)

draws-IsDrawn : All IsDrawn draws
draws-IsDrawn = ((omega arith, (omega arith, tt)), (tt, (replicate-IsBytes 30, tt)))

abbrev token : Text
token = text "ab05101010101010101010101010101010101010101010101010101010101010"

abbrev after : List Entry
after = session (text "ann") token 100 ∷ replicate 127 cleared

issues_ann : issue 1 (text "ann") 100 draws init ≡ (some token, after)
unfolding issue init
issues_ann = refl

ann_reached : Reachable after
ann_reached = onward init after start (
    issues 1 (text "ann") 100 draws init token after issues_ann draws-IsDrawn (unfold init in refl))

Reachable-IsWellFormed_example : IsWellFormed after
Reachable-IsWellFormed_example = Reachable-IsWellFormed after ann_reached

no_session : find_session token 200 init ≡ none
unfolding find_session init
no_session = refl

resolve-issue_example :
    (token_valid (some token) ≡ true)
    × (resolve after (some token) 200 64 ≡ (
        if str_eq token token && not (leb (100 + lifetime) 200)
        then some (text "ann")
        else resolve init (some token) 200 64))
resolve-issue_example =
    resolve-issue 1 (text "ann") 100 draws init token after token 200 64 issues_ann draws-IsDrawn
      (omega arith) no_session (omega arith)

revokes_ann : revoke after (some token) ≡ (true, init)
unfolding revoke init
revokes_ann = refl

resolve-revoke_example :
    resolve init (some token) 200 64
    ≡ (if str_eq token token then none else resolve after (some token) 200 64)
resolve-revoke_example =
    resolve-revoke after init token token 200 64 (Reachable-IsWellFormed after ann_reached)
      revokes_ann

resolve-revoke_identity_example :
    resolve (revoke_identity after (some (text "ann"))).1 (some token) 200 64
    ≡ unless (text "ann") (resolve after (some token) 200 64)
resolve-revoke_identity_example =
    resolve-revoke_identity after (text "ann") token 200 64
      (Reachable-IsWellFormed after ann_reached) (unfold identity_valid in refl)
