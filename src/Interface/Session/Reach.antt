-- ===== src/Interface/Session/Reach.antt =====
-- modules/interface/src/session_store.c: the stores that the operations lead to.
use digit.Base.{ℕ, ◌≡◌, refl, sym, ap, ◌∙◌, false, Option, some, List, All, Text}
use digit.Interface.Session.{
  Entry, Draw, init, issue, session, revoke, revoke_identity, token_valid,
}
use digit.Interface.Session.Tokens.{IsDrawn, token_valid-hex}
use digit.Interface.Session.Issue.{issue-IsIssue}
use digit.Interface.Session.Invariant.{
  holds, IsWellFormed, init-IsWellFormed, put_free-length, put_free-sessions,
  put_free-DistinctTokens,
}
use digit.Interface.Session.Pruned.{pruned-IsWellFormed, revoke-IsPruned, revoke_identity-IsPruned}

-- One operation that changes the store. A new token is none of those that are there, which the
-- random bytes of the system stand for.
pub data Step : List Entry → List Entry → Type 0 where
  issues :
      (authentication : ℕ) (identity : Text) (now : ℕ) (draws : List Draw) (store : List Entry)
      (token : Text) (next : List Entry)
      → issue authentication identity now draws store ≡ (some token, next)
      → All IsDrawn draws
      → holds token store ≡ false
      → Step store next
  revokes : (store : List Entry) (token : Option Text) → Step store (revoke store token).1
  revokes_identity :
      (store : List Entry) (identity : Option Text) → Step store (revoke_identity store identity).1

pub data Reachable : List Entry → Type 0 where
  start : Reachable init
  onward : (store after : List Entry) → Reachable store → Step store after → Reachable after

issue-IsWellFormed :
    (authentication : ℕ) (identity : Text) (now : ℕ) (draws : List Draw) (store : List Entry)
    (token : Text) (next : List Entry)
    → issue authentication identity now draws store ≡ (some token, next)
    → All IsDrawn draws
    → holds token store ≡ false
    → IsWellFormed store
    → IsWellFormed next
issue-IsWellFormed authentication identity now draws store token next e drawn fresh w =
    let i = issue-IsIssue authentication identity now draws store token next e in
    let new = session identity token now in
    let valid =
      ap (λ (t : Text). token_valid (some t)) (sym i.made)
      ∙ token_valid-hex draws i.bytes drawn i.drawn in
    record {
      sized = put_free-length now new refl store next i.put ∙ w.sized;
      sessions =
          put_free-sessions now new refl store next (λ u. (valid, i.identity_ok)) w.sessions i.put;
      distinct = put_free-DistinctTokens now new refl store next fresh w.distinct i.put;
    }

step-IsWellFormed :
    (store after : List Entry) → Step store after → IsWellFormed store → IsWellFormed after
step-IsWellFormed _ _ (issues authentication identity now draws store token next e drawn fresh) w =
    issue-IsWellFormed authentication identity now draws store token next e drawn fresh w
step-IsWellFormed _ _ (revokes store token) w =
    pruned-IsWellFormed store (revoke store token).1 (revoke-IsPruned store token) w
step-IsWellFormed _ _ (revokes_identity store identity) w =
    pruned-IsWellFormed store (revoke_identity store identity).1
      (revoke_identity-IsPruned store identity) w

-- Every store that the operations lead to has the size of the array, its active sessions have
-- well-formed tokens and identities, and no two of them have one token, as long as no token is drawn
-- that is there.
pub Reachable-IsWellFormed : (store : List Entry) → Reachable store → IsWellFormed store
Reachable-IsWellFormed _ start = init-IsWellFormed
Reachable-IsWellFormed _ (onward store after r s) =
    step-IsWellFormed store after s (Reachable-IsWellFormed store r)
