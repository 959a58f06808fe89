-- ===== src/Arithmetic/Decimal/RoundTrip.antt =====
-- modules/arithmetic/src/arithmetic.c: a decimal number that fixed_text has written is read.
use digit.Base.{
  ℕ, ◌+◌, ◌-◌, ◌*◌, ◌/◌, ◌%◌, ◌^◌, ◌<◌, ◌≤◌, ◌≡◌, refl, sym, ap, subst, ◌∙◌, Bool, true, false,
  ◌||◌, some, [], ◌∷◌, ◌++◌, append_assoc, length, Text, ◌==◌, arith,
}
use digit.Base.Int.{ℤ, magnitude, is_negative, signed_self}
use digit.Base.Decimal.{
  to_dec, dec_value, is_digit, IsDigits, EndsNumber, to_dec-IsDigits, dec_value-to_dec,
  length-to_dec-pos,
}
use digit.Base.Scan.{skip_spaces, is_space, sign}
use digit.Arithmetic.Reading.{StartsDigit, sign-digit, to_dec-StartsDigit}
use digit.Arithmetic.Decimal.{
  whole_from, with_whole, unsigned_decimal, with_sign, signed_decimal, decimal_operand, strip_zeros,
  strip_point, three_digits, minus_if, fixed_text, with_fraction,
}
use digit.Arithmetic.Decimal.Printing.{
  whole_from-dec_value, fraction_from-dec_value, IsFraction, strip_zeros-IsFraction,
  strip_zeros-point, point_if, strip_point-fraction,
}

-- A text that does not go on with a number in thousandths.
abbrev pub EndsDecimal : Text → Type 0
EndsDecimal [] = Unit
EndsDecimal (c ∷ s) = (is_digit c ≡ false) × ((c == b'.') ≡ false)

-- The text of a number without its sign
abbrev pub unsigned_text : ℕ → Text
unsigned_text m = to_dec (m / 1000) ++ point_if (strip_zeros (three_digits (m % 1000)))

pub fixed_text-parts :
    (v : ℤ) → fixed_text v ≡ minus_if (is_negative v) (unsigned_text (magnitude v))
unfolding fixed_text
fixed_text-parts v =
    let m = magnitude v in
    let w = to_dec (m / 1000) in
    let ds = strip_zeros (three_digits (m % 1000)) in
    let f = strip_zeros-IsFraction (m % 1000) (omega arith) in
    ap (λ (s : Text). strip_point (strip_zeros s))
      (minus_if-append (is_negative v) w (b'.' ∷ three_digits (m % 1000)))
    ∙ ap strip_point (strip_zeros-point (minus_if (is_negative v) w) (three_digits (m % 1000)))
    ∙ strip_point-fraction (minus_if (is_negative v) w) ds f.digits
    ∙ sym (minus_if-append (is_negative v) w (point_if ds))
  where
    minus_if-append : (n : Bool) (s t : Text) → minus_if n (s ++ t) ≡ minus_if n s ++ t
    minus_if-append true s t = refl
    minus_if-append false s t = refl

whole_only-rest :
    (digits whole : ℕ) (rest : Text)
    → 0 < digits
    → EndsDecimal rest
    → with_whole (some (digits, whole, rest)) ≡ some (whole * 1000, rest)
whole_only-rest digits whole [] p e = ground (arith, p)
whole_only-rest digits whole (c ∷ s) p (d, other) = rw other (ground (arith, p))

ends_whole : (ds rest : Text) → EndsDecimal rest → EndsNumber (point_if ds ++ rest)
ends_whole [] [] e = tt
ends_whole [] (c ∷ s) e = e.0
ends_whole (c ∷ ds) rest e = unfold is_digit in refl

ends_fraction : (rest : Text) → EndsDecimal rest → EndsNumber rest
ends_fraction [] e = tt
ends_fraction (c ∷ s) e = e.0

with_fraction-value :
    (whole count frac f : ℕ) (rest : Text)
    → 0 < count
    → frac * 10 ^ (3 - count) ≡ f
    → with_fraction whole (some (count, frac, rest)) ≡ some (whole * 1000 + f, rest)
with_fraction-value whole count frac f rest p e =
    let some_digits : (count == 0) ≡ false = ground (arith, p) in
    rw some_digits (ap (λ (n : ℕ). some (whole * 1000 + n, rest)) e)

unsigned_decimal_starts :
    (ds t : Text)
    → 0 < length ds
    → IsDigits ds
    → unsigned_decimal (ds ++ t) ≡ with_whole (whole_from 0 0 (ds ++ t))
unfolding unsigned_decimal
unsigned_decimal_starts [] t p d = absurd (omega arith)
unsigned_decimal_starts (c ∷ ds) t p (d, more) =
    let starts : is_digit c || (c == b'.') ≡ true = rw d refl in rw starts refl

with_whole-fraction :
    (digits whole f : ℕ) (ds rest : Text)
    → 0 < digits
    → IsFraction f ds
    → EndsDecimal rest
    → with_whole (some (digits, whole, point_if ds ++ rest)) ≡ some (whole * 1000 + f, rest)
with_whole-fraction digits whole f [] rest p i e =
    whole_only-rest digits whole rest p e
    ∙ ap (λ (n : ℕ). some (n, rest)) (omega (arith, i.empty refl))
with_whole-fraction digits whole f (c ∷ ds) rest p i e =
    ap (with_fraction whole) (
      fraction_from-dec_value (c ∷ ds) rest 0 0 i.digits (ends_fraction rest e)
        (omega (arith, i.size)))
    ∙ with_fraction-value whole (0 + length (c ∷ ds)) (dec_value 0 (c ∷ ds)) f rest (omega arith)
        (ap (λ (k : ℕ). dec_value 0 (c ∷ ds) * 10 ^ (3 - k)) (count (length (c ∷ ds))) ∙ i.value)
  where
    count : (n : ℕ) → 0 + n ≡ n
    count n = omega arith

pub unsigned_decimal-text :
    (m : ℕ) (rest : Text)
    → m ≤ 1000000999
    → EndsDecimal rest
    → unsigned_decimal (unsigned_text m ++ rest) ≡ some (m, rest)
unsigned_decimal-text m rest le e =
    let w = m / 1000 in
    let ds = strip_zeros (three_digits (m % 1000)) in
    let value = dec_value-to_dec w in
    ap unsigned_decimal (append_assoc (to_dec w) (point_if ds) rest)
    ∙ unsigned_decimal_starts (to_dec w) (point_if ds ++ rest) (length-to_dec-pos w)
        (to_dec-IsDigits w)
    ∙ ap with_whole (
        whole_from-dec_value (to_dec w) (point_if ds ++ rest) 0 0 (to_dec-IsDigits w)
          (ends_whole ds rest e) (omega (arith, value, le)))
    ∙ with_whole-fraction (0 + length (to_dec w)) (dec_value 0 (to_dec w)) (m % 1000) ds rest
        (omega (arith, length-to_dec-pos w)) (strip_zeros-IsFraction (m % 1000) (omega arith)) e
    ∙ ap (λ (n : ℕ). some (n, rest)) (omega (arith, value))

-- A number of at most a million and 999 thousandths in magnitude that fixed_text has written, in
-- front of a text that does not go on with it, is read as it was.
pub decimal_operand-fixed_text :
    (v : ℤ) (rest : Text)
    → magnitude v ≤ 1000000999
    → EndsDecimal rest
    → decimal_operand (fixed_text v ++ rest) ≡ some (v, rest)
unfolding decimal_operand
decimal_operand-fixed_text v rest le e =
    ap (λ (s : Text). decimal_operand (s ++ rest)) (fixed_text-parts v)
    ∙ ap signed_decimal (sign_read (is_negative v))
    ∙ ap (with_sign (is_negative v)) (unsigned_decimal-text (magnitude v) rest le e)
    ∙ ap (λ (a : ℤ). some (a, rest)) (signed_self v)
  where
    sign_read :
        (n : Bool)
        → sign (skip_spaces (minus_if n (unsigned_text (magnitude v)) ++ rest))
          ≡ (n, unsigned_text (magnitude v) ++ rest)
    sign_read true = unfold skip_spaces is_space in refl
    sign_read false = sign-digit (unsigned_text (magnitude v) ++ rest) (
        subst StartsDigit
          (sym (
            append_assoc (to_dec (magnitude v / 1000))
              (point_if (strip_zeros (three_digits (magnitude v % 1000)))) rest))
          (to_dec-StartsDigit (magnitude v / 1000)
            (point_if (strip_zeros (three_digits (magnitude v % 1000))) ++ rest)))
