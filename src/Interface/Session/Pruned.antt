-- ===== src/Interface/Session/Pruned.antt =====
-- modules/interface/src/session_store.c: stores in which some sessions were cleared.
use digit.Base.{
  suc, ◌+◌, ◌≡◌, refl, ap, subst, ◌∙◌, true, false, ◌&&◌, Option, none, some, List, [], ◌∷◌, length,
  All, Text, arith, Bool-cases, Option-cases, inl, inr, ◌⊎◌,
}
use digit.Interface.Session.{
  Entry, cleared, session_equal, clear_token, clear_identity, belongs, revoke, revoke_identity,
  token_valid, identity_valid,
}
use digit.Interface.Session.Invariant.{holds, IsSession, DistinctTokens, IsWellFormed}

-- The second store is the first with some entries cleared.
pub data IsPruned : List Entry → List Entry → Type 0 where
  ends : IsPruned [] []
  keeps :
      (e : Entry) (entries more : List Entry)
      → IsPruned entries more
      → IsPruned (e ∷ entries) (e ∷ more)
  clears :
      (e : Entry) (entries more : List Entry)
      → IsPruned entries more
      → IsPruned (e ∷ entries) (cleared ∷ more)

pub IsPruned-self : (entries : List Entry) → IsPruned entries entries
IsPruned-self [] = ends
IsPruned-self (e ∷ entries) = keeps e entries entries (IsPruned-self entries)

pruned-length : (entries more : List Entry) → IsPruned entries more → length more ≡ length entries
pruned-length _ _ ends = refl
pruned-length _ _ (keeps e entries more p) = ap suc (pruned-length entries more p)
pruned-length _ _ (clears e entries more p) = ap suc (pruned-length entries more p)

pruned-sessions :
    (entries more : List Entry) → IsPruned entries more → All IsSession entries → All IsSession more
pruned-sessions _ _ ends st = tt
pruned-sessions _ _ (keeps e entries more p) (s, st) = (s, pruned-sessions entries more p st)
pruned-sessions _ _ (clears e entries more p) (s, st) =
    ((λ u. cc), pruned-sessions entries more p st)

pub pruned-holds :
    (token : Text) (entries more : List Entry)
    → IsPruned entries more
    → holds token entries ≡ false
    → holds token more ≡ false
pruned-holds token _ _ ends h = refl
pruned-holds token _ _ (keeps e entries more p) h =
    let rec = pruned-holds token entries more p (ground (arith, h)) in ground (arith, h, rec)
pruned-holds token _ _ (clears e entries more p) h =
    pruned-holds token entries more p (ground (arith, h))

pruned-DistinctTokens :
    (entries more : List Entry)
    → IsPruned entries more
    → DistinctTokens entries
    → DistinctTokens more
pruned-DistinctTokens _ _ ends d = tt
pruned-DistinctTokens _ _ (keeps e entries more p) (d, ds) =
    ((λ u. pruned-holds e.token entries more p (d u)), pruned-DistinctTokens entries more p ds)
pruned-DistinctTokens _ _ (clears e entries more p) (d, ds) =
    ((λ u. cc), pruned-DistinctTokens entries more p ds)

pub pruned-IsWellFormed :
    (store next : List Entry) → IsPruned store next → IsWellFormed store → IsWellFormed next
pruned-IsWellFormed store next p w = record {
  sized = pruned-length store next p ∙ w.sized;
  sessions = pruned-sessions store next p w.sessions;
  distinct = pruned-DistinctTokens store next p w.distinct;
}

-- What clearing a token does to the entry in front and to the rest.
pub clear_token-cons :
    (token : Text) (e : Entry) (entries more : List Entry)
    → clear_token token (e ∷ entries) ≡ some more
    → ((e.active && session_equal token e.token 64 ≡ true) × (cleared ∷ entries ≡ more))
      ⊎ ((e.active && session_equal token e.token 64 ≡ false)
          × (rest : List Entry) × (clear_token token entries ≡ some rest)
          × (e ∷ rest ≡ more))
unfolding clear_token
clear_token-cons token e entries more c =
    elim (Bool-cases (e.active && session_equal token e.token 64)) [
      | inl here ↦ inl (here, ground (arith, c, here))
      | inr past ↦ elim (Option-cases (clear_token token entries)) [
        | inl missing ↦ ground (arith, c, past, missing)
        | inr (rest, fit) ↦ inr (past, rest, fit, ground (arith, c, past, fit))
      ]
    ]

clear_token-IsPruned :
    (token : Text) (entries more : List Entry)
    → clear_token token entries ≡ some more
    → IsPruned entries more
clear_token-IsPruned token [] more c = absurd (unfold clear_token in ground (arith, c))
clear_token-IsPruned token (e ∷ entries) more c = elim (clear_token-cons token e entries more c) [
  | inl (here, there) ↦
      subst (IsPruned (e ∷ entries)) there (clears e entries entries (IsPruned-self entries))
  | inr (past, rest, fit, there) ↦
      subst (IsPruned (e ∷ entries)) there
        (keeps e entries rest (clear_token-IsPruned token entries rest fit))
]

-- What revoking gives.
pub revoke_cases :
    (store : List Entry) (token : Text)
    → (revoke store (some token) ≡ (false, store))
      ⊎ ((next : List Entry) × (clear_token token store ≡ some next)
          × (revoke store (some token) ≡ (true, next)))
unfolding revoke
revoke_cases store token = elim (Option-cases (clear_token token store)) [
  | inl missing ↦ inl (ground (arith, missing))
  | inr (next, fit) ↦ elim (Bool-cases (token_valid (some token))) [
    | inl valid ↦ inr (next, fit, ground (arith, fit, valid))
    | inr invalid ↦ inl (ground (arith, invalid))
  ]
]

pub revoke-IsPruned :
    (store : List Entry) (token : Option Text) → IsPruned store (revoke store token).1
revoke-IsPruned store none = unfold revoke in IsPruned-self store
revoke-IsPruned store (some token) = elim (revoke_cases store token) [
  | inl stays ↦ rw stays (IsPruned-self store)
  | inr (next, fit, goes) ↦ rw goes (clear_token-IsPruned token store next fit)
]

pub clear_identity-mine :
    (identity : Text) (e : Entry) (entries : List Entry)
    → belongs identity e ≡ true
    → clear_identity identity (e ∷ entries)
      ≡ ((clear_identity identity entries).0 + 1, cleared ∷ (clear_identity identity entries).1)
unfolding clear_identity
clear_identity-mine identity e entries mine = rw mine refl

pub clear_identity-other :
    (identity : Text) (e : Entry) (entries : List Entry)
    → belongs identity e ≡ false
    → clear_identity identity (e ∷ entries)
      ≡ ((clear_identity identity entries).0, e ∷ (clear_identity identity entries).1)
unfolding clear_identity
clear_identity-other identity e entries other = rw other refl

pub clear_identity-IsPruned :
    (identity : Text) (entries : List Entry) → IsPruned entries (clear_identity identity entries).1
clear_identity-IsPruned identity [] = unfold clear_identity in ends
clear_identity-IsPruned identity (e ∷ entries) =
    let rec = clear_identity-IsPruned identity entries in
    elim (Bool-cases (belongs identity e)) [
      | inl mine ↦ rw (clear_identity-mine identity e entries mine) (clears e entries _ rec)
      | inr other ↦ rw (clear_identity-other identity e entries other) (keeps e entries _ rec)
    ]

pub revoke_identity-IsPruned :
    (store : List Entry) (identity : Option Text)
    → IsPruned store (revoke_identity store identity).1
unfolding revoke_identity
revoke_identity-IsPruned store none = IsPruned-self store
revoke_identity-IsPruned store (some identity) =
    elim (Bool-cases (identity_valid (some identity))) [
      | inl valid ↦ rw valid (clear_identity-IsPruned identity store)
      | inr invalid ↦ rw invalid (IsPruned-self store)
    ]
