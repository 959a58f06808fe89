-- ===== src/Interface/Session.antt =====
-- modules/interface/src/session_store.c: the sessions of the HTTP interface. A time that is not
-- positive is 0 here: the source refuses all of them alike. An entry has the fields that the source
-- file itself reads; the others are only cleared.
pub mod Tokens
pub mod Resolve
pub mod Issue
pub mod Invariant
pub mod Pruned
pub mod Revoke
pub mod RevokeIdentity
pub mod Reach
mod Examples
use digit.Base.{
  ℕ, zero, suc, ◌+◌, ◌-◌, ◌/◌, ◌%◌, ◌^◌, Bool, true, false, not, ◌&&◌, ◌||◌, Option, none, some,
  List, [], ◌∷◌, ◌++◌, length, get_elem?, take, replicate, all, Text, text, str_eq, leb, ◌==◌,
  if◌then◌else◌,
}

-- digit_session_entry_t
pub record Entry : Type 0 where
  pub token : Text
  pub identity : Text
  pub expires_at : ℕ
  pub active : Bool

-- DIGIT_SESSION_CAPACITY
abbrev pub capacity : ℕ
capacity = 128

-- DIGIT_SESSION_ID_SIZE
abbrev pub id_size : ℕ
id_size = 64

-- DIGIT_SESSION_LIFETIME
abbrev pub lifetime : ℕ
lifetime = 3600

-- memset (entry, 0, sizeof *entry)
abbrev pub cleared : Entry
cleared = record { token = []; identity = []; expires_at = 0; active = false }

-- digit_session_store_init
unfoldable pub init : List Entry
init = replicate capacity cleared

-- session_identity_valid; `none` is a null pointer.
unfoldable pub identity_valid : Option Text → Bool
identity_valid none = false
identity_valid (some identity) = not (length identity == 0) && not (leb id_size (length identity))

abbrev pub is_hex : ℕ → Bool
is_hex c = (leb b'0' c && leb c b'9') || (leb b'a' c && leb c b'f')

-- session_token_valid
unfoldable pub token_valid : Option Text → Bool
token_valid none = false
token_valid (some token) = (length token == 64) && all is_hex token

-- session_equal: no character differs. A text that ends before has its end compared.
unfoldable pub session_equal : Text → Text → ℕ → Bool
session_equal left right zero = true
session_equal [] [] (suc n) = true
session_equal [] (d ∷ right) (suc n) = false
session_equal (c ∷ left) [] (suc n) = false
session_equal (c ∷ left) (d ∷ right) (suc n) = (c == d) && session_equal left right n

-- What one call of getrandom gives: a signal, an error, or bytes.
pub data Draw : Type 0 where
  interrupted : Draw
  failed : Draw
  given : Text → Draw

abbrev before_rest : Text → Option Text → Option Text
before_rest bytes none = none
before_rest bytes (some rest) = some (bytes ++ rest)

-- session_random: the bytes that are wanted still, from these calls; a call that is not in the list
-- fails.
unfoldable pub random : ℕ → List Draw → Option Text
random zero draws = some []
random (suc n) [] = none
random (suc n) (interrupted ∷ draws) = random (suc n) draws
random (suc n) (failed ∷ draws) = none
random (suc n) (given bytes ∷ draws) =
    let rest = random (suc n - length (take (suc n) bytes)) draws in
    if length bytes == 0 then none else before_rest (take (suc n) bytes) rest

abbrev pub digits : Text
digits = text "0123456789abcdef"

abbrev pub char_at : Option ℕ → ℕ
char_at none = 0
char_at (some c) = c

abbrev pub digit_of : ℕ → ℕ
digit_of n = char_at (get_elem? digits n)

-- The token of the random bytes
unfoldable pub hex : Text → Text
hex [] = []
hex (byte ∷ bytes) = digit_of (byte / 16) ∷ digit_of (byte % 16) ∷ hex bytes

-- The first entry that is free or over takes the new session.
abbrev behind : Entry → Option (List Entry) → Option (List Entry)
behind e none = none
behind e (some entries) = some (e ∷ entries)

unfoldable pub put_free : ℕ → Entry → List Entry → Option (List Entry)
put_free now new [] = none
put_free now new (e ∷ entries) =
    if not e.active || leb e.expires_at now
    then some (new ∷ entries)
    else behind e (put_free now new entries)

abbrev pub session : Text → Text → ℕ → Entry
session identity token now = record {
  token = token;
  identity = identity;
  expires_at = now + lifetime;
  active = true;
}

abbrev put_session : Text → List Entry → Option (List Entry) → Option Text × List Entry
put_session token store none = (none, store)
put_session token store (some entries) = (some token, entries)

abbrev issue_drawn : Text → ℕ → List Entry → Option Text → Option Text × List Entry
issue_drawn identity now store none = (none, store)
issue_drawn identity now store (some bytes) =
    put_session (hex bytes) store (put_free now (session identity (hex bytes) now) store)

-- digit_session_issue behind its test for null pointers; `authentication` is its argument
-- authentication_succeeded.
unfoldable pub issue : ℕ → Text → ℕ → List Draw → List Entry → Option Text × List Entry
unfolding identity_valid random hex put_free
issue authentication identity now draws store =
    if not (authentication == 1)
      || not (identity_valid (some identity))
      || (now == 0)
      || not (leb now (2 ^ 63 - 1 - lifetime))
    then (none, store)
    else issue_drawn identity now store (random 32 draws)

-- The loop of digit_session_resolve
unfoldable pub find_session : Text → ℕ → List Entry → Option Entry
unfolding session_equal
find_session token now [] = none
find_session token now (e ∷ entries) =
    if e.active && not (leb e.expires_at now) && session_equal token e.token 64
    then some e
    else find_session token now entries

abbrev pub fitting : ℕ → Option Entry → Option Text
fitting size none = none
fitting size (some e) = if leb size (length e.identity) then none else some e.identity

-- digit_session_resolve, with a buffer of `size` characters for the identity; 0 stands for no buffer.
unfoldable pub resolve : List Entry → Option Text → ℕ → ℕ → Option Text
unfolding token_valid find_session
resolve store none now size = none
resolve store (some token) now size =
    if not (token_valid (some token)) || (size == 0) || (now == 0)
    then none
    else fitting size (find_session token now store)

-- The loop of digit_session_revoke
abbrev past : Entry → Option (List Entry) → Option (List Entry)
past e none = none
past e (some entries) = some (e ∷ entries)

unfoldable pub clear_token : Text → List Entry → Option (List Entry)
unfolding session_equal
clear_token token [] = none
clear_token token (e ∷ entries) =
    if e.active && session_equal token e.token 64
    then some (cleared ∷ entries)
    else past e (clear_token token entries)

abbrev revoked : List Entry → Option (List Entry) → Bool × List Entry
revoked store none = (false, store)
revoked store (some entries) = (true, entries)

-- digit_session_revoke
unfoldable pub revoke : List Entry → Option Text → Bool × List Entry
unfolding token_valid clear_token
revoke store none = (false, store)
revoke store (some token) =
    if token_valid (some token) then revoked store (clear_token token store) else (false, store)

abbrev pub belongs : Text → Entry → Bool
belongs identity e = e.active && str_eq e.identity identity

abbrev counted : Bool → Entry → ℕ × List Entry → ℕ × List Entry
counted true e (count, entries) = (count + 1, cleared ∷ entries)
counted false e (count, entries) = (count, e ∷ entries)

-- The loop of digit_session_revoke_identity
unfoldable pub clear_identity : Text → List Entry → ℕ × List Entry
unfolding str_eq
clear_identity identity [] = (0, [])
clear_identity identity (e ∷ entries) =
    counted (belongs identity e) e (clear_identity identity entries)

-- digit_session_revoke_identity
unfoldable pub revoke_identity : List Entry → Option Text → ℕ × List Entry
unfolding identity_valid clear_identity
revoke_identity store none = (0, store)
revoke_identity store (some identity) =
    if identity_valid (some identity) then clear_identity identity store else (0, store)
