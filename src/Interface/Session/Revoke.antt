-- ===== src/Interface/Session/Revoke.antt =====
-- modules/interface/src/session_store.c: what tokens resolve to after sessions were revoked.
use digit.Base.{
  ℕ, ◌≡◌, refl, sym, ap, subst, ◌∙◌, Bool, true, false, ◌&&◌, ◌||◌, Option, none, some, List, [],
  ◌∷◌, All, Text, str_eq, str_eq_refl, str_eq→eq, ◌==◌, if◌then◌else◌, arith, Bool-cases, inl, inr,
}
use digit.Interface.Session.{
  Entry, cleared, token_valid, session_equal, find_session, fitting, resolve, clear_token, revoke,
}
use digit.Interface.Session.Tokens.{token_valid-length}
use digit.Interface.Session.Resolve.{
  answers, find_session-answers, find_session-past, session_equal-str_eq, resolve_refused,
}
use digit.Interface.Session.Invariant.{holds, IsSession, DistinctTokens, IsWellFormed}
use digit.Interface.Session.Pruned.{clear_token-cons, revoke_cases}

-- The comparison of a valid token with the token of a session.
pub equal_token :
    (token : Text) (e : Entry)
    → token_valid (some token) ≡ true
    → IsSession e
    → e.active ≡ true
    → session_equal token e.token 64 ≡ str_eq token e.token
equal_token token e valid s active =
    session_equal-str_eq token e.token (token_valid-length token valid)
      (token_valid-length e.token (s active).0)

pub find_session-holds :
    (token : Text) (now : ℕ) (entries : List Entry)
    → token_valid (some token) ≡ true
    → All IsSession entries
    → holds token entries ≡ false
    → find_session token now entries ≡ none
find_session-holds token now [] valid st h = unfold find_session in refl
find_session-holds token now (e ∷ entries) valid (s, st) h =
    find_session-past token now e entries past
    ∙ find_session-holds token now entries valid st (ground (arith, h))
  where
    past : answers token now e ≡ false
    past = elim (Bool-cases e.active) [
      | inr idle ↦ ground (arith, idle)
      | inl active ↦
          let apart : str_eq token e.token ≡ false = elim (Bool-cases (str_eq token e.token)) [
            | inl same ↦ absurd (
                ground (
                  arith,
                  h,
                  active,
                  ap (str_eq e.token) (str_eq→eq token e.token same),
                  str_eq_refl e.token,
                ))
            | inr differs ↦ differs
          ] in
          ground (arith, equal_token token e valid s active, apart)
    ]

module _ (token other : Text) (now : ℕ) (valid : token_valid (some token) ≡ true)
    (valid' : token_valid (some other) ≡ true) where
  abbrev Shows : List Entry → List Entry → Type 0
  Shows entries more =
      find_session other now more
      ≡ (if str_eq other token then none else find_session other now entries)

  Shows-cleared :
      (e : Entry) (entries : List Entry)
      → IsSession e
      → All IsSession entries
      → (e.active ≡ true → holds e.token entries ≡ false)
      → e.active && session_equal token e.token 64 ≡ true
      → Shows (e ∷ entries) (cleared ∷ entries)
  Shows-cleared e entries s st d here =
      let active : e.active ≡ true = ground (arith, here) in
      let same : token ≡ e.token =
        str_eq→eq token e.token (sym (equal_token token e valid s active) ∙ ground (arith, here)) in
      find_session-past other now cleared entries refl ∙ elim (Bool-cases (str_eq other token)) [
        | inl mine ↦ rw mine (
            find_session-holds other now entries valid' st
              (ap (λ (t : Text). holds t entries) (str_eq→eq other token mine ∙ same) ∙ d active))
        | inr differs ↦
            let past : answers other now e ≡ false =
              ground
                (arith, equal_token other e valid' s active, ap (str_eq other) same, differs) in
            rw differs (sym (find_session-past other now e entries past))
      ]

  Shows-past :
      (e : Entry) (entries rest : List Entry)
      → e.active && session_equal token e.token 64 ≡ false
      → Shows entries rest
      → Shows (e ∷ entries) (e ∷ rest)
  Shows-past e entries rest past rec = elim (Bool-cases (answers other now e)) [
    | inr no' ↦
        find_session-past other now e rest no'
        ∙ rec
        ∙ ap (λ (o : Option Entry). if str_eq other token then none else o)
            (sym (find_session-past other now e entries no'))
    | inl stops ↦
        let apart : str_eq other token ≡ false = elim (Bool-cases (str_eq other token)) [
          | inr differs ↦ differs
          | inl mine ↦ absurd (
              ground (
                arith,
                past,
                stops,
                ap (λ (t : Text). session_equal t e.token 64) (str_eq→eq other token mine),
              ))
        ] in
        find_session-answers other now e rest stops
        ∙ rw apart (sym (find_session-answers other now e entries stops))
  ]

  clear_token-find_session :
      (entries more : List Entry)
      → All IsSession entries
      → DistinctTokens entries
      → clear_token token entries ≡ some more
      → Shows entries more
  clear_token-find_session [] more st d c = absurd (unfold clear_token in ground (arith, c))
  clear_token-find_session (e ∷ entries) more (s, st) (d, ds) c =
      elim (clear_token-cons token e entries more c) [
        | inl (here, there) ↦
            subst (Shows (e ∷ entries)) there (Shows-cleared e entries s st d here)
        | inr (past, rest, fit, there) ↦
            subst (Shows (e ∷ entries)) there
              (Shows-past e entries rest past (clear_token-find_session entries rest st ds fit))
      ]

pub resolve_valid :
    (store : List Entry) (token : Text) (now size : ℕ)
    → token_valid (some token) ≡ true
    → resolve store (some token) now size
      ≡ (if (size == 0) || (now == 0) then none else fitting size (find_session token now store))
unfolding resolve
resolve_valid store token now size valid = rw valid refl

none_either : (b : Bool) → ◌≡◌ {A = Option Text} none (if b then none else none)
none_either true = refl
none_either false = refl

none_first :
    (gate same : Bool) (size : ℕ) (o : Option Entry)
    → (if gate then none else fitting size (if same then none else o))
      ≡ (if same then none else (if gate then none else fitting size o))
none_first true same size o = none_either same
none_first false true size o = refl
none_first false false size o = refl

-- Once a token of a well-formed store was revoked, it resolves to nothing, and every other token
-- resolves to what it resolved to before.
pub resolve-revoke :
    (store next : List Entry) (token other : Text) (now size : ℕ)
    → IsWellFormed store
    → revoke store (some token) ≡ (true, next)
    → resolve next (some other) now size
      ≡ (if str_eq other token then none else resolve store (some other) now size)
resolve-revoke store next token other now size w e = elim (Bool-cases (token_valid (some other))) [
  | inr invalid ↦
      resolve_refused next other now size invalid
      ∙ none_either (str_eq other token)
      ∙ ap (λ (o : Option Text). if str_eq other token then none else o)
          (sym (resolve_refused store other now size invalid))
  | inl valid' ↦ elim (revoke_cases store token) [
    | inl stays ↦ absurd (ground (arith, e, stays))
    | inr (rest, fit, goes) ↦
        let valid : token_valid (some token) ≡ true = unfold revoke in ground (arith, e) in
        let same : rest ≡ next = ground (arith, e, goes) in
        resolve_valid next other now size valid'
        ∙ ap (λ (o : Option Entry). if (size == 0) || (now == 0) then none else fitting size o)
            (ap (find_session other now) (sym same)
              ∙ clear_token-find_session token other now valid valid' store rest w.sessions
                  w.distinct fit)
        ∙ none_first ((size == 0) || (now == 0)) (str_eq other token) size
            (find_session other now store)
        ∙ ap (λ (o : Option Text). if str_eq other token then none else o)
            (sym (resolve_valid store other now size valid'))
  ]
]
