-- ===== src/Interface/Session/Tokens.antt =====
-- modules/interface/src/session_store.c: how tokens are made and compared.
use digit.Base.{
  ℕ, zero, suc, ◌-◌, ◌*◌, ◌/◌, ◌%◌, ◌<◌, ◌≡◌, refl, sym, ap, subst, ◌∙◌, true, some, List, [], ◌∷◌,
  ◌++◌, length, length-append, get_elem?, take, all, All, All-append, length-take-le, Text, arith,
  Option-cases, inl, inr, some_inj,
}
use digit.Interface.Session.{
  Draw, interrupted, failed, given, session_equal, random, hex, digits, digit_of, char_at, is_hex,
  token_valid,
}

pub session_equal_refl : (t : Text) (n : ℕ) → session_equal t t n ≡ true
unfolding session_equal
session_equal_refl t zero = refl
session_equal_refl [] (suc n) = refl
session_equal_refl (c ∷ t) (suc n) = ground (arith, session_equal_refl t n)

pub session_equal→eq :
    (s t : Text) (n : ℕ) → length s ≡ n → length t ≡ n → session_equal s t n ≡ true → s ≡ t
unfolding session_equal
session_equal→eq [] [] n ls lt e = refl
session_equal→eq [] (d ∷ t) n ls lt e = absurd (omega (arith, ls, lt))
session_equal→eq (c ∷ s) [] n ls lt e = absurd (omega (arith, ls, lt))
session_equal→eq (c ∷ s) (d ∷ t) zero ls lt e = absurd (omega (arith, ls))
session_equal→eq (c ∷ s) (d ∷ t) (suc n) ls lt e =
    let rest = session_equal→eq s t n (omega (arith, ls)) (omega (arith, lt)) (ground (arith, e)) in
    let first : c ≡ d = ground (arith, e) in rw (first, rest) refl

-- Bytes that a call of getrandom may give.
abbrev pub IsBytes : Text → Type 0
IsBytes bytes = All (λ (b : ℕ). b < 256) bytes

abbrev pub IsDrawn : Draw → Type 0
IsDrawn interrupted = Unit
IsDrawn failed = Unit
IsDrawn (given bytes) = IsBytes bytes

-- What a call that gives bytes leaves to the calls behind it.
random_given :
    (n : ℕ) (first : Text) (draws : List Draw) (bytes : Text)
    → random (suc n) (given first ∷ draws) ≡ some bytes
    → (rest : Text) × (random (suc n - length (take (suc n) first)) draws ≡ some rest)
      × (take (suc n) first ++ rest ≡ bytes)
unfolding random
random_given n first draws bytes e =
    elim (Option-cases (random (suc n - length (take (suc n) first)) draws)) [
      | inl lost ↦ ground (arith, e, lost)
      | inr (rest, more) ↦ (rest, more, ground (arith, e, more))
    ]

pub length-random :
    (n : ℕ) (draws : List Draw) (bytes : Text) → random n draws ≡ some bytes → length bytes ≡ n
unfolding random
length-random zero draws bytes e = ap length (sym (some_inj e))
length-random (suc n) [] bytes e = cc
length-random (suc n) (interrupted ∷ draws) bytes e = length-random (suc n) draws bytes e
length-random (suc n) (failed ∷ draws) bytes e = cc
length-random (suc n) (given first ∷ draws) bytes e =
    let (rest, more, whole) = random_given n first draws bytes e in
    omega (
      arith,
      ap length whole,
      length-append (take (suc n) first) rest,
      length-random (suc n - length (take (suc n) first)) draws rest more,
      length-take-le (suc n) first,
    )

take-IsBytes : (n : ℕ) (bytes : Text) → IsBytes bytes → IsBytes (take n bytes)
take-IsBytes zero bytes b = tt
take-IsBytes (suc n) [] b = tt
take-IsBytes (suc n) (c ∷ bytes) (b, bs) = (b, take-IsBytes n bytes bs)

pub random-IsBytes :
    (n : ℕ) (draws : List Draw) (bytes : Text)
    → All IsDrawn draws
    → random n draws ≡ some bytes
    → IsBytes bytes
unfolding random
random-IsBytes zero draws bytes d e = subst IsBytes (some_inj e) tt
random-IsBytes (suc n) [] bytes d e = cc
random-IsBytes (suc n) (interrupted ∷ draws) bytes (d, ds) e =
    random-IsBytes (suc n) draws bytes ds e
random-IsBytes (suc n) (failed ∷ draws) bytes d e = cc
random-IsBytes (suc n) (given first ∷ draws) bytes (d, ds) e =
    let (rest, more, whole) = random_given n first draws bytes e in
    subst IsBytes whole (
      All-append _ (take (suc n) first) rest (take-IsBytes (suc n) first d)
        (random-IsBytes (suc n - length (take (suc n) first)) draws rest ds more))

length-hex : (bytes : Text) → length (hex bytes) ≡ 2 * length bytes
unfolding hex
length-hex [] = refl
length-hex (b ∷ bytes) = omega (arith, length-hex bytes)

digit_at-is_hex :
    (cs : Text) (n : ℕ)
    → all is_hex cs ≡ true
    → n < length cs
    → is_hex (char_at (get_elem? cs n)) ≡ true
digit_at-is_hex [] n h le = absurd (omega (arith, le))
digit_at-is_hex (c ∷ cs) zero h le = ground (arith, h)
digit_at-is_hex (c ∷ cs) (suc n) h le = digit_at-is_hex cs n (ground (arith, h)) (omega (arith, le))

digit_of-is_hex : (n : ℕ) → n < 16 → is_hex (digit_of n) ≡ true
digit_of-is_hex n le = digit_at-is_hex digits n refl le

all-is_hex-hex : (bytes : Text) → IsBytes bytes → all is_hex (hex bytes) ≡ true
unfolding hex
all-is_hex-hex [] b = refl
all-is_hex-hex (byte ∷ bytes) (b, bs) =
    rw
      (
        digit_of-is_hex (byte / 16) (omega (arith, b)),
        digit_of-is_hex (byte % 16) (omega (arith, b)),
      )
      (all-is_hex-hex bytes bs)

-- A token that is drawn is valid.
pub token_valid-hex :
    (draws : List Draw) (bytes : Text)
    → All IsDrawn draws
    → random 32 draws ≡ some bytes
    → token_valid (some (hex bytes)) ≡ true
unfolding token_valid
token_valid-hex draws bytes d e =
    let size : length (hex bytes) ≡ 64 =
      length-hex bytes ∙ ap (λ (n : ℕ). 2 * n) (length-random 32 draws bytes e) in
    rw (size, all-is_hex-hex bytes (random-IsBytes 32 draws bytes d e)) refl

pub token_valid-length : (t : Text) → token_valid (some t) ≡ true → length t ≡ 64
unfolding token_valid
token_valid-length t e = ground (arith, e)
