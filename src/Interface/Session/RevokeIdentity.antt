-- ===== src/Interface/Session/RevokeIdentity.antt =====
-- modules/interface/src/session_store.c: what tokens resolve to after the sessions of an identity were revoked.
use digit.Base.{
  ℕ, ◌≡◌, refl, sym, ap, ◌∙◌, Bool, true, false, ◌||◌, Option, none, some, List, [], ◌∷◌, length,
  All, Text, str_eq, str_eq→eq, leb, ◌==◌, if◌then◌else◌, arith, Bool-cases, inl, inr,
}
use digit.Interface.Session.{
  Entry, cleared, identity_valid, token_valid, find_session, fitting, resolve, clear_identity,
  belongs, revoke_identity,
}
use digit.Interface.Session.Resolve.{
  answers, find_session-answers, find_session-past, resolve_refused,
}
use digit.Interface.Session.Invariant.{holds, IsSession, DistinctTokens, IsWellFormed}
use digit.Interface.Session.Pruned.{clear_identity-mine, clear_identity-other}
use digit.Interface.Session.Revoke.{equal_token, find_session-holds, resolve_valid}

-- The session, unless it belongs to that identity.
abbrev unless_session : Text → Option Entry → Option Entry
unless_session identity none = none
unless_session identity (some e) = if str_eq e.identity identity then none else some e

-- An identity, unless it is that one.
abbrev pub unless : Text → Option Text → Option Text
unless identity none = none
unless identity (some i) = if str_eq i identity then none else some i

clear_identity-find_session :
    (identity token : Text) (now : ℕ) (entries : List Entry)
    → token_valid (some token) ≡ true
    → All IsSession entries
    → DistinctTokens entries
    → find_session token now (clear_identity identity entries).1
      ≡ unless_session identity (find_session token now entries)
clear_identity-find_session identity token now [] valid st d =
    unfold clear_identity find_session in refl
clear_identity-find_session identity token now (e ∷ entries) valid (s, st) (d, ds) =
    let rec = clear_identity-find_session identity token now entries valid st ds in
    elim (Bool-cases (belongs identity e)) [
      | inl mine ↦ rw (clear_identity-mine identity e entries mine) (
          find_session-past token now cleared (clear_identity identity entries).1 refl
          ∙ rec
          ∙ gone mine)
      | inr other ↦ rw (clear_identity-other identity e entries other) (stays other rec)
    ]
  where
    -- The rest has no session of the token that the entry has.
    alone : answers token now e ≡ true → find_session token now entries ≡ none
    alone stops =
        let active : e.active ≡ true = ground (arith, stops) in
        let same : token ≡ e.token =
          str_eq→eq token e.token
            (sym (equal_token token e valid s active) ∙ ground (arith, stops)) in
        find_session-holds token now entries valid st
          (ap (λ (t : Text). holds t entries) same ∙ d active)

    gone :
        belongs identity e ≡ true
        → unless_session identity (find_session token now entries)
          ≡ unless_session identity (find_session token now (e ∷ entries))
    gone mine = elim (Bool-cases (answers token now e)) [
      | inr past ↦ ap (unless_session identity) (sym (find_session-past token now e entries past))
      | inl stops ↦
          let own : str_eq e.identity identity ≡ true = ground (arith, mine) in
          ap (unless_session identity) (alone stops)
          ∙ sym (
              ap (unless_session identity) (find_session-answers token now e entries stops)
              ∙ rw own refl)
    ]

    stays :
        belongs identity e ≡ false
        → find_session token now (clear_identity identity entries).1
          ≡ unless_session identity (find_session token now entries)
        → find_session token now (e ∷ (clear_identity identity entries).1)
          ≡ unless_session identity (find_session token now (e ∷ entries))
    stays other rec = elim (Bool-cases (answers token now e)) [
      | inr past ↦
          find_session-past token now e (clear_identity identity entries).1 past
          ∙ rec
          ∙ ap (unless_session identity) (sym (find_session-past token now e entries past))
      | inl stops ↦
          let own : str_eq e.identity identity ≡ false = ground (arith, other, stops) in
          find_session-answers token now e (clear_identity identity entries).1 stops
          ∙ sym (
              ap (unless_session identity) (find_session-answers token now e entries stops)
              ∙ rw own refl)
    ]

unless-fitting :
    (identity : Text) (gate : Bool) (size : ℕ) (o : Option Entry)
    → (if gate then none else fitting size (unless_session identity o))
      ≡ unless identity (if gate then none else fitting size o)
unless-fitting identity true size o = refl
unless-fitting identity false size none = refl
unless-fitting identity false size (some e) = elim (Bool-cases (leb size (length e.identity))) [
  | inl long ↦ elim (Bool-cases (str_eq e.identity identity)) [
    | inl same ↦ rw (same, long) refl
    | inr other ↦ rw (other, long) refl
  ]
  | inr fits ↦ elim (Bool-cases (str_eq e.identity identity)) [
    | inl same ↦ rw (fits, same) refl
    | inr other ↦ rw (fits, other) (rw fits refl)
  ]
]

-- Once the sessions of a valid identity were revoked in a well-formed store, a token resolves to
-- what it resolved to before, unless that was this identity: then it resolves to nothing.
pub resolve-revoke_identity :
    (store : List Entry) (identity token : Text) (now size : ℕ)
    → IsWellFormed store
    → identity_valid (some identity) ≡ true
    → resolve (revoke_identity store (some identity)).1 (some token) now size
      ≡ unless identity (resolve store (some token) now size)
resolve-revoke_identity store identity token now size w named =
    ap (λ (s : List Entry). resolve s (some token) now size) cleared_store
    ∙ elim (Bool-cases (token_valid (some token))) [
      | inr invalid ↦
          resolve_refused (clear_identity identity store).1 token now size invalid
          ∙ ap (unless identity) (sym (resolve_refused store token now size invalid))
      | inl valid ↦
          resolve_valid (clear_identity identity store).1 token now size valid
          ∙ ap (λ (o : Option Entry). if (size == 0) || (now == 0) then none else fitting size o)
              (clear_identity-find_session identity token now store valid w.sessions w.distinct)
          ∙ unless-fitting identity ((size == 0) || (now == 0)) size (find_session token now store)
          ∙ ap (unless identity) (sym (resolve_valid store token now size valid))
    ]
  where
    cleared_store : (revoke_identity store (some identity)).1 ≡ (clear_identity identity store).1
    cleared_store = unfold revoke_identity in rw named refl
