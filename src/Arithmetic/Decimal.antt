-- ===== src/Arithmetic/Decimal.antt =====
-- modules/arithmetic/src/arithmetic.c: expressions of two decimal numbers, in thousandths.
pub mod Printing
pub mod RoundTrip
pub mod Fits
pub mod Written
use digit.Base.{
  ℕ, ◌+◌, ◌-◌, ◌*◌, ◌/◌, ◌%◌, ◌^◌, Bool, true, false, not, ◌&&◌, ◌||◌, Option, none, some, List, [],
  ◌∷◌, ◌++◌, Text, text, ltb, leb, ◌==◌, if◌then◌else◌,
}
use digit.Base.Int.{ℤ, pos, ◌+ℤ◌, ◌-ℤ◌, ◌*ℤ◌, quot, signed, magnitude, is_negative}
use digit.Base.Decimal.{is_digit, to_dec}
use digit.Base.Scan.{skip_spaces, sign}
use digit.Arithmetic.{
  Status, status_ok, invalid, divide_by_zero, out_of_range, operator_at, skip_request, at_end,
}

-- The loop over the whole part: the count of its digits, its value, and the rest
unfoldable pub whole_from : ℕ → ℕ → Text → Option (ℕ × ℕ × Text)
unfolding is_digit
whole_from digits whole [] = some (digits, whole, [])
whole_from digits whole (c ∷ s) =
    let more = whole_from (digits + 1) (whole * 10 + (c - b'0')) s in
    if is_digit c
    then if ltb 100000 whole || ((whole == 100000) && ltb 0 (c - b'0')) then none else more
    else some (digits, whole, c ∷ s)

-- The loop over the fraction
unfoldable pub fraction_from : ℕ → ℕ → Text → Option (ℕ × ℕ × Text)
unfolding is_digit
fraction_from count frac [] = some (count, frac, [])
fraction_from count frac (c ∷ s) =
    let more = fraction_from (count + 1) (frac * 10 + (c - b'0')) s in
    if is_digit c then if leb 3 count then none else more else some (count, frac, c ∷ s)

abbrev pub with_fraction : ℕ → Option (ℕ × ℕ × Text) → Option (ℕ × Text)
with_fraction whole none = none
with_fraction whole (some (count, frac, rest)) =
    if count == 0 then none else some (whole * 1000 + frac * 10 ^ (3 - count), rest)

abbrev pub whole_only : ℕ → ℕ → Text → Option (ℕ × Text)
whole_only digits whole rest = if digits == 0 then none else some (whole * 1000, rest)

abbrev pub with_whole : Option (ℕ × ℕ × Text) → Option (ℕ × Text)
with_whole none = none
with_whole (some (digits, whole, [])) = whole_only digits whole []
with_whole (some (digits, whole, c ∷ s)) =
    if c == b'.' then with_fraction whole (fraction_from 0 0 s) else whole_only digits whole (c ∷ s)

abbrev pub starts_decimal : Text → Bool
starts_decimal [] = false
starts_decimal (c ∷ s) = is_digit c || (c == b'.')

unfoldable pub unsigned_decimal : Text → Option (ℕ × Text)
unfolding whole_from fraction_from
unsigned_decimal s = if starts_decimal s then with_whole (whole_from 0 0 s) else none

abbrev pub with_sign : Bool → Option (ℕ × Text) → Option (ℤ × Text)
with_sign negative none = none
with_sign negative (some (n, rest)) = some (signed negative n, rest)

abbrev pub signed_decimal : Bool × Text → Option (ℤ × Text)
signed_decimal (negative, s) = with_sign negative (unsigned_decimal s)

-- decimal_operand: the number of thousandths and the cursor behind it
unfoldable pub decimal_operand : Text → Option (ℤ × Text)
unfolding unsigned_decimal skip_spaces
decimal_operand s = signed_decimal (sign (skip_spaces s))

-- A text without the zeros at its end
abbrev pub before_zeros : ℕ → Text → Text
before_zeros c [] = if c == b'0' then [] else c ∷ []
before_zeros c (d ∷ s) = c ∷ d ∷ s

unfoldable pub strip_zeros : Text → Text
strip_zeros [] = []
strip_zeros (c ∷ s) = before_zeros c (strip_zeros s)

-- A text without the point at its end
unfoldable pub strip_point : Text → Text
strip_point [] = []
strip_point (c ∷ []) = if c == b'.' then [] else c ∷ []
strip_point (c ∷ d ∷ s) = c ∷ strip_point (d ∷ s)

-- "%03llu" of a number below 1000
abbrev pub three_digits : ℕ → Text
three_digits n = (b'0' + n / 100) ∷ (b'0' + n / 10 % 10) ∷ (b'0' + n % 10) ∷ []

abbrev pub minus_if : Bool → Text → Text
minus_if negative s = if negative then b'-' ∷ s else s

-- fixed_text, with a buffer that has room
unfoldable pub fixed_text : ℤ → Text
unfolding strip_zeros strip_point
fixed_text value = strip_point (
    strip_zeros (
      minus_if (is_negative value)
        (to_dec (magnitude value / 1000) ++ b'.' ∷ three_digits (magnitude value % 1000))))

-- The status, the operation, and the text of the answer
pub record Answer : Type 0 where
  pub status : Status
  pub operation : ℕ
  pub decimal_answer : Text

abbrev refused : Status → Answer
refused status = record { status = status; operation = 0; decimal_answer = [] }

-- The switch on the operation
abbrev pub decimal_value : ℤ → ℤ → ℕ → Option ℤ
decimal_value a b operation =
    if operation == b'+'
    then some (a +ℤ b)
    else if operation == b'-'
    then some (a -ℤ b)
    else if operation == b'*'
    then some (quot (a *ℤ b) (pos 1000))
    else if operation == b'/'
    then some (quot (a *ℤ pos 1000) b)
    else none

-- "%s %c %s = %s."
abbrev pub print_answer : ℤ → ℤ → ℕ → ℤ → Text
print_answer a b operation value =
    fixed_text a
    ++ 32 ∷ operation ∷ 32 ∷ (fixed_text b ++ (text " = " ++ (fixed_text value ++ b'.' ∷ [])))

abbrev pub answer : ℤ → ℤ → ℕ → Option ℤ → Answer
answer a b operation none = refused invalid
answer a b operation (some value) = record {
  status = status_ok;
  operation = operation;
  decimal_answer = print_answer a b operation value;
}

abbrev pub with_right : ℤ → ℕ → Option (ℤ × Text) → Answer
with_right a operation none = refused out_of_range
with_right a operation (some (b, rest)) =
    if not (at_end rest)
    then refused invalid
    else if (operation == b'/') && (magnitude b == 0)
    then refused divide_by_zero
    else answer a b operation (decimal_value a b operation)

abbrev pub with_operator : ℤ → Option (ℕ × Text) → Answer
with_operator a none = refused invalid
with_operator a (some (operation, rest)) = with_right a operation (decimal_operand rest)

abbrev pub with_left : Option (ℤ × Text) → Answer
with_left none = refused out_of_range
with_left (some (a, rest)) = with_operator a (operator_at rest)

-- evaluate_decimal
unfoldable pub evaluate_decimal : Text → Answer
unfolding decimal_operand fixed_text
evaluate_decimal expression = with_left (decimal_operand (skip_request expression))
