-- ===== src/Interface/Session/Resolve.antt =====
-- modules/interface/src/session_store.c: the loop of the resolution, entry by entry.
use digit.Base.{
  ℕ, ◌<◌, ◌≡◌, refl, sym, ap, ◌∙◌, Bool, true, false, not, ◌&&◌, none, some, List, ◌∷◌, length,
  Text, str_eq, str_eq_refl, str_eq→eq, leb, arith, Bool-cases, inl, inr,
}
use digit.Interface.Session.{Entry, token_valid, session_equal, find_session, fitting, resolve}
use digit.Interface.Session.Tokens.{session_equal_refl, session_equal→eq}

-- An entry that the loop of the resolution stops at.
abbrev pub answers : Text → ℕ → Entry → Bool
answers token now e = e.active && not (leb e.expires_at now) && session_equal token e.token 64

pub find_session-answers :
    (token : Text) (now : ℕ) (e : Entry) (entries : List Entry)
    → answers token now e ≡ true
    → find_session token now (e ∷ entries) ≡ some e
unfolding find_session
find_session-answers token now e entries yes' = rw yes' refl

pub find_session-past :
    (token : Text) (now : ℕ) (e : Entry) (entries : List Entry)
    → answers token now e ≡ false
    → find_session token now (e ∷ entries) ≡ find_session token now entries
unfolding find_session
find_session-past token now e entries past = rw past refl

pub session_equal-str_eq :
    (s t : Text) → length s ≡ 64 → length t ≡ 64 → session_equal s t 64 ≡ str_eq s t
session_equal-str_eq s t ls lt = elim (Bool-cases (session_equal s t 64)) [
  | inl same ↦ same ∙ sym (ap (str_eq s) (sym (session_equal→eq s t 64 ls lt same)) ∙ str_eq_refl s)
  | inr differs ↦ elim (Bool-cases (str_eq s t)) [
    | inl same ↦ absurd (
        ground (
          arith,
          differs,
          ap (λ (x : Text). session_equal s x 64) (sym (str_eq→eq s t same)),
          session_equal_refl s 64,
        ))
    | inr apart ↦ differs ∙ sym apart
  ]
]

pub resolve_found :
    (store : List Entry) (token : Text) (now size : ℕ)
    → token_valid (some token) ≡ true
    → 0 < now
    → 0 < size
    → resolve store (some token) now size ≡ fitting size (find_session token now store)
unfolding resolve
resolve_found store token now size valid pos room = ground (arith, valid, pos, room)

pub resolve_refused :
    (store : List Entry) (token : Text) (now size : ℕ)
    → token_valid (some token) ≡ false
    → resolve store (some token) now size ≡ none
unfolding resolve
resolve_refused store token now size invalid = rw invalid refl
