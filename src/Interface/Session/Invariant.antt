-- ===== src/Interface/Session/Invariant.antt =====
-- modules/interface/src/session_store.c: the stores that can be reached.
use digit.Base.{
  ℕ, zero, suc, ◌≡◌, refl, sym, ap, subst, ◌∙◌, Bool, true, false, not, ◌&&◌, ◌||◌, some, List, [],
  ◌∷◌, length, All, any, Text, str_eq, str_eq_refl, str_eq→eq, leb, arith, Bool-cases, Option-cases,
  inl, inr, ◌⊎◌, replicate,
}
use digit.Interface.Session.{Entry, capacity, cleared, init, identity_valid, token_valid, put_free}

-- An active entry with this token.
abbrev pub has_token : Text → Entry → Bool
has_token token e = e.active && str_eq e.token token

abbrev pub holds : Text → List Entry → Bool
holds token entries = any (has_token token) entries

abbrev pub IsSession : Entry → Type 0
IsSession e =
    e.active ≡ true
    → (token_valid (some e.token) ≡ true) × (identity_valid (some e.identity) ≡ true)

-- No two active entries have one token.
abbrev pub DistinctTokens : List Entry → Type 0
DistinctTokens [] = Unit
DistinctTokens (e ∷ entries) =
    (e.active ≡ true → holds e.token entries ≡ false) × DistinctTokens entries

pub record IsWellFormed (store : List Entry) : Type 0 where
  pub sized : length store ≡ capacity
  pub sessions : All IsSession store
  pub distinct : DistinctTokens store

pub init-IsWellFormed : IsWellFormed init
unfolding init
init-IsWellFormed = record {
  sized = refl;
  sessions = cleared_sessions capacity;
  distinct = cleared_distinct capacity;
}
  where
    cleared_sessions : (n : ℕ) → All IsSession (replicate n cleared)
    cleared_sessions zero = tt
    cleared_sessions (suc n) = ((λ e. cc), cleared_sessions n)

    cleared_distinct : (n : ℕ) → DistinctTokens (replicate n cleared)
    cleared_distinct zero = tt
    cleared_distinct (suc n) = ((λ e. cc), cleared_distinct n)

-- A session is put into a store.
module _ (now : ℕ) (new : Entry) (used : new.active ≡ true) where
  pub put_free-length :
      (entries more : List Entry)
      → put_free now new entries ≡ some more
      → length more ≡ length entries
  unfolding put_free
  put_free-length [] more e = ground arith
  put_free-length (d ∷ entries) more e = elim (Option-cases (put_free now new entries)) [
    | inl full ↦ ground (arith, e, full)
    | inr (rest, fit) ↦ ground (arith, e, fit, put_free-length entries rest fit)
  ]

  -- What a successful put does to the entry in front and to the rest.
  put_free-cons :
      (d : Entry) (entries more : List Entry)
      → put_free now new (d ∷ entries) ≡ some more
      → (new ∷ entries ≡ more)
        ⊎ ((d.active ≡ true)
            × (rest : List Entry) × (put_free now new entries ≡ some rest)
            × (d ∷ rest ≡ more))
  unfolding put_free
  put_free-cons d entries more e = elim (Bool-cases (not d.active || leb d.expires_at now)) [
    | inl free ↦ inl (ground (arith, e, free))
    | inr taken ↦ elim (Option-cases (put_free now new entries)) [
      | inl full ↦ ground (arith, e, full, taken)
      | inr (rest, fit) ↦ inr (ground (arith, taken), rest, fit, ground (arith, e, taken, fit))
    ]
  ]

  pub put_free-sessions :
      (entries more : List Entry)
      → IsSession new
      → All IsSession entries
      → put_free now new entries ≡ some more
      → All IsSession more
  put_free-sessions [] more n st e = absurd (unfold put_free in ground (arith, e))
  put_free-sessions (d ∷ entries) more n (sd, st) e = elim (put_free-cons d entries more e) [
    | inl here ↦ subst (All IsSession) here (n, st)
    | inr (a, rest, fit, there) ↦
        subst (All IsSession) there (sd, put_free-sessions entries rest n st fit)
  ]

  put_free-holds :
      (token : Text) (entries more : List Entry)
      → holds token entries ≡ false
      → str_eq new.token token ≡ false
      → put_free now new entries ≡ some more
      → holds token more ≡ false
  put_free-holds token [] more h n e = absurd (unfold put_free in ground (arith, e))
  put_free-holds token (d ∷ entries) more h n e = elim (put_free-cons d entries more e) [
    | inl here ↦ ap (holds token) (sym here) ∙ ground (arith, h, n)
    | inr (a, rest, fit, there) ↦
        let rec = put_free-holds token entries rest (ground (arith, h)) n fit in
        ap (holds token) (sym there) ∙ ground (arith, h, rec)
  ]

  pub put_free-DistinctTokens :
      (entries more : List Entry)
      → holds new.token entries ≡ false
      → DistinctTokens entries
      → put_free now new entries ≡ some more
      → DistinctTokens more
  put_free-DistinctTokens [] more h d e = absurd (unfold put_free in ground (arith, e))
  put_free-DistinctTokens (x ∷ entries) more h (dx, ds) e = elim (put_free-cons x entries more e) [
    | inl here ↦ subst DistinctTokens here ((λ u. ground (arith, h)), ds)
    | inr (a, rest, fit, there) ↦
        let apart : str_eq new.token x.token ≡ false =
          elim (Bool-cases (str_eq new.token x.token)) [
            | inl same ↦ absurd (
                ground (
                  arith,
                  h,
                  a,
                  ap (λ (t : Text). str_eq x.token t) (str_eq→eq new.token x.token same),
                  str_eq_refl x.token,
                ))
            | inr differs ↦ differs
          ] in
        subst DistinctTokens there (
          (λ u. put_free-holds x.token entries rest (dx u) apart fit),
          put_free-DistinctTokens entries rest (ground (arith, h)) ds fit,
        )
  ]
