-- ===== src/Base/Decimal.antt =====
-- Decimal numbers as the C library prints them (%u, %llu) and reads them.
use Prim.Native.Nat.{ℕ, zero, suc, ◌+◌, ◌-◌, ◌*◌, ◌/◌, ◌%◌, ◌^◌, ◌≤◌, ◌<◌}
use mathlib.Core.Path.{◌≡◌, refl, ap}
use mathlib.Core.Logic.{inl, inr}
use mathlib.Core.Bool.{Bool, true, false, ◌&&◌}
use mathlib.Core.List.{[], ◌∷◌, ◌++◌}
use native.Mathlib.Omega.{arith}
use digit.Base.Tests.{ltb, leb, if◌then◌else◌, Bool-cases}
use digit.Base.Lists.{length, All}
use native.Mathlib.Nat.{pow-suc}
use digit.Base.Bytes.{Text, text, has_char}

-- isdigit
unfoldable pub is_digit : ℕ → Bool
is_digit c = leb b'0' c && leb c b'9'

-- The digits of `n` in front of `out`; the fuel is above the number of digits.
emit : ℕ → ℕ → Text → Text
emit zero n out = out
emit (suc f) n out =
    let more = emit f (n / 10) ((b'0' + n % 10) ∷ out) in
    if ltb n 10 then (b'0' + n % 10) ∷ out else more

unfoldable pub to_dec : ℕ → Text
unfolding emit
to_dec n = emit (suc n) n []

to_dec_sample : to_dec 1203 ≡ text "1203"
unfolding to_dec
to_dec_sample = refl

-- The number that digits spell behind `n`.
unfoldable pub dec_value : ℕ → Text → ℕ
dec_value n [] = n
dec_value n (c ∷ s) = dec_value (n * 10 + (c - b'0')) s

-- The longest prefix of digits, and what follows it.
unfoldable pub span_digits : Text → Text × Text
span_digits [] = ([], [])
span_digits (c ∷ s) =
    let (ds, rest) = span_digits s in if is_digit c then (c ∷ ds, rest) else ([], c ∷ s)

abbrev pub IsDigits : Text → Type 0
IsDigits = All (λ c. is_digit c ≡ true)

digit_of_mod : (n : ℕ) → is_digit (b'0' + n % 10) ≡ true
unfolding is_digit
digit_of_mod n = ground arith

emit-IsDigits : (f n : ℕ) (out : Text) → IsDigits out → IsDigits (emit f n out)
unfolding emit
emit-IsDigits zero n out h = h
emit-IsDigits (suc f) n out h =
    ground
      (arith, digit_of_mod n, emit-IsDigits f (n / 10) ((b'0' + n % 10) ∷ out) (digit_of_mod n, h))

value_last : (n : ℕ) (out : Text) → dec_value (n / 10) ((b'0' + n % 10) ∷ out) ≡ dec_value n out
unfolding dec_value
value_last n out = ap (λ (k : ℕ). dec_value k out) (omega arith)

value_first : (n : ℕ) (out : Text) → n < 10 → dec_value 0 ((b'0' + n % 10) ∷ out) ≡ dec_value n out
unfolding dec_value
value_first n out h = ap (λ (k : ℕ). dec_value k out) (omega arith)

dec_value-emit : (f n : ℕ) (out : Text) → n < f → dec_value 0 (emit f n out) ≡ dec_value n out
unfolding emit
dec_value-emit zero n out h = absurd (omega arith)
dec_value-emit (suc f) n out h = elim (Bool-cases (ltb n 10)) [
  | inl small ↦ rw small (value_first n out (ground arith))
  | inr big ↦
      rw big
        (rw (dec_value-emit f (n / 10) ((b'0' + n % 10) ∷ out) (ground arith)) (value_last n out))
]

pub to_dec-IsDigits : (n : ℕ) → IsDigits (to_dec n)
unfolding to_dec
to_dec-IsDigits n = emit-IsDigits (suc n) n [] tt

pub dec_value-to_dec : (n : ℕ) → dec_value 0 (to_dec n) ≡ n
unfolding to_dec dec_value
dec_value-to_dec n = dec_value-emit (suc n) n [] (omega arith)

length-emit : (f n : ℕ) (out : Text) → length out ≤ length (emit f n out)
unfolding emit
length-emit zero n out = omega arith
length-emit (suc f) n out = ground (arith, length-emit f (n / 10) ((b'0' + n % 10) ∷ out))

pub length-to_dec-pos : (n : ℕ) → 0 < length (to_dec n)
unfolding to_dec
length-to_dec-pos n = ground (arith, length-emit n (n / 10) ((b'0' + n % 10) ∷ []))

-- A text that does not begin with a digit.
abbrev pub EndsNumber : Text → Type 0
EndsNumber [] = Unit
EndsNumber (c ∷ s) = is_digit c ≡ false

pub span_digits-append :
    (ds rest : Text) → IsDigits ds → EndsNumber rest → span_digits (ds ++ rest) ≡ (ds, rest)
unfolding span_digits
span_digits-append [] [] h e = refl
span_digits-append [] (c ∷ s) h e = rw e
span_digits-append (d ∷ ds) rest h e = rw (span_digits-append ds rest h.1 e, h.0)

pub has_char-digits : (c : ℕ) (ds : Text) → is_digit c ≡ false → IsDigits ds → has_char c ds ≡ false
unfolding has_char
has_char-digits c [] h ds = refl
has_char-digits c (d ∷ ds) h all = ground (arith, has_char-digits c ds h all.1)

length-emit-le :
    (k f n : ℕ) (out : Text) → n < 10 ^ suc k → length (emit f n out) ≤ suc k + length out
unfolding emit
length-emit-le k zero n out h = omega arith
length-emit-le zero (suc f) n out h = ground arith
length-emit-le (suc k) (suc f) n out h =
    ground (
      arith,
      length-emit-le k f (n / 10) ((b'0' + n % 10) ∷ out) (omega (arith, pow-suc 10 (suc k))),
    )

-- A number below 10 ^ (k + 1) has at most k + 1 digits.
pub length-to_dec-le : (k n : ℕ) → n < 10 ^ suc k → length (to_dec n) ≤ suc k
unfolding to_dec
length-to_dec-le k n h = omega (arith, length-emit-le k (suc n) n [] h)
