-- ===== src/Arithmetic.antt =====
-- modules/arithmetic/src/arithmetic.c: the arithmetic service, on expressions of two integers. An
-- int64_t is an integer here; Arithmetic/Exact has the bounds.
pub mod SquareRoot
pub mod Exact
pub mod Reading
pub mod Route
pub mod Decimal
mod Examples
use digit.Base.{
  ℕ, ◌+◌, ◌-◌, ◌*◌, Bool, true, false, not, ◌&&◌, ◌||◌, Option, none, some, List, [], ◌∷◌, Text,
  text, ltb, leb, ◌==◌, if◌then◌else◌,
}
use digit.Base.Int.{ℤ, pos, negsuc, ◌+ℤ◌, ◌-ℤ◌, ◌*ℤ◌, quot, rem, signed, magnitude}
use digit.Base.Decimal.{is_digit}
use digit.Base.Letters.{after_key, first_word}
use digit.Base.Scan.{is_space, skip_spaces, sign}

-- digit_arithmetic_status_t
pub data Status : Type 0 where
  status_ok invalid divide_by_zero out_of_range : Status

-- digit_arithmetic_result_t, without the text of decimal answers; an operation is a character.
pub record Result : Type 0 where
  pub status : Status
  pub left : ℤ
  pub right : ℤ
  pub value : ℤ
  pub remainder : ℤ
  pub operation : ℕ

abbrev pub number_words : List (Text × ℕ)
number_words =
    (text "zero", 0)
    ∷ (text "one", 1)
    ∷ (text "two", 2)
    ∷ (text "three", 3)
    ∷ (text "four", 4)
    ∷ (text "five", 5)
    ∷ (text "six", 6)
    ∷ (text "seven", 7)
    ∷ (text "eight", 8)
    ∷ (text "nine", 9)
    ∷ (text "ten", 10)
    ∷ []

-- The loop over the digits behind `number`
unfoldable pub digits_from : ℕ → Text → Option (ℕ × Text)
unfolding is_digit
digits_from number [] = some (number, [])
digits_from number (c ∷ s) =
    let more = digits_from (number * 10 + (c - b'0')) s in
    if is_digit c
    then if ltb 100000000 number || ((number == 100000000) && ltb 0 (c - b'0')) then none else more
    else some (number, c ∷ s)

abbrev starts_digit : Text → Bool
starts_digit [] = false
starts_digit (c ∷ s) = is_digit c

unfoldable pub unsigned_operand : Text → Option (ℕ × Text)
unfolding digits_from first_word is_digit
unsigned_operand s = if starts_digit s then digits_from 0 s else first_word number_words s

abbrev pub with_sign : Bool → Option (ℕ × Text) → Option (ℤ × Text)
with_sign negative none = none
with_sign negative (some (n, rest)) = some (signed negative n, rest)

abbrev pub signed_operand : Bool × Text → Option (ℤ × Text)
signed_operand (negative, s) = with_sign negative (unsigned_operand s)

-- operand: the number and the cursor behind it
unfoldable pub operand : Text → Option (ℤ × Text)
unfolding unsigned_operand skip_spaces
operand s = signed_operand (sign (skip_spaces s))

abbrev operator_words : List (Text × ℕ)
operator_words =
    (text "multiplied by", b'*')
    ∷ (text "multiply by", b'*')
    ∷ (text "divided by", b'/')
    ∷ (text "divide by", b'/')
    ∷ (text "plus", b'+')
    ∷ (text "minus", b'-')
    ∷ (text "times", b'*')
    ∷ (text "over", b'/')
    ∷ (text "x", b'*')
    ∷ []

abbrev pub is_operator : ℕ → Bool
is_operator c = (c == b'+') || (c == b'-') || (c == b'*') || (c == b'/')

-- The two bytes of a multiplication sign and of a division sign
abbrev two_bytes : Text → Option (ℕ × Text)
two_bytes [] = none
two_bytes (c ∷ []) = none
two_bytes (c ∷ d ∷ s) =
    if (c == 195) && (d == 151)
    then some (b'*', s)
    else if (c == 195) && (d == 183)
    then some (b'/', s)
    else none

abbrev or_else : Option (ℕ × Text) → Option (ℕ × Text) → Option (ℕ × Text)
or_else none later = later
or_else (some r) later = some r

abbrev operator_here : Text → Option (ℕ × Text)
operator_here [] = none
operator_here (c ∷ s) =
    if is_operator c
    then some (c, s)
    else or_else (two_bytes (c ∷ s)) (first_word operator_words (c ∷ s))

-- operator_at
unfoldable pub operator_at : Text → Option (ℕ × Text)
unfolding first_word skip_spaces
operator_at s = operator_here (skip_spaces s)

-- The call of the agent by its name
abbrev past_mark : Text → Text
past_mark [] = []
past_mark (c ∷ s) = if (c == b',') || (c == b':') then s else c ∷ s

abbrev is_called : Text → Bool
is_called [] = false
is_called (c ∷ s) = is_space c || (c == b',') || (c == b':')

abbrev pub called : Text → Option Text → Text
called s none = s
called s (some rest) = if is_called rest then skip_spaces (past_mark rest) else s

abbrev pub past_key : List Text → Text → Text
past_key [] s = s
past_key (key ∷ keys) s = elim (after_key key s) [ none ↦ past_key keys s | some rest ↦ rest ]

abbrev pub request_keys : List Text
request_keys = text "what is " ∷ text "calculate " ∷ text "compute " ∷ []

-- What evaluate skips in front of the first operand
unfoldable pub skip_request : Text → Text
unfolding skip_spaces is_space after_key
skip_request s =
    past_key request_keys (called (skip_spaces s) (after_key (text "digit") (skip_spaces s)))

abbrev past_question : Text → Text
past_question [] = []
past_question (c ∷ s) = if c == b'?' then s else c ∷ s

abbrev is_empty : Text → Bool
is_empty [] = true
is_empty (c ∷ s) = false

-- Nothing but a question mark follows.
unfoldable pub at_end : Text → Bool
unfolding skip_spaces
at_end s = is_empty (skip_spaces (past_question (skip_spaces s)))

-- memset (result, 0, sizeof *result), with a status
abbrev pub without_value : Status → ℤ → ℤ → ℕ → Result
without_value status left right operation = record {
  status = status;
  left = left;
  right = right;
  value = pos 0;
  remainder = pos 0;
  operation = operation;
}

abbrev pub with_value : ℤ → ℤ → ℕ → ℤ → ℤ → Result
with_value left right operation value remainder = record {
  status = status_ok;
  left = left;
  right = right;
  value = value;
  remainder = remainder;
  operation = operation;
}

-- The switch on the operation
unfoldable pub apply : ℤ → ℤ → ℕ → Result
apply a b operation =
    if (operation == b'/') && (magnitude b == 0)
    then without_value divide_by_zero a b operation
    else if operation == b'+'
    then with_value a b operation (a +ℤ b) (pos 0)
    else if operation == b'-'
    then with_value a b operation (a -ℤ b) (pos 0)
    else if operation == b'*'
    then with_value a b operation (a *ℤ b) (pos 0)
    else if operation == b'/'
    then with_value a b operation (quot a b) (rem a b)
    else without_value invalid a b operation

abbrev pub with_right : ℤ → ℕ → Option (ℤ × Text) → Result
with_right a operation none = without_value out_of_range (pos 0) (pos 0) operation
with_right a operation (some (b, rest)) =
    if at_end rest then apply a b operation else without_value invalid (pos 0) (pos 0) operation

abbrev pub with_operator : ℤ → Option (ℕ × Text) → Result
with_operator a none = without_value invalid (pos 0) (pos 0) 0
with_operator a (some (operation, rest)) = with_right a operation (operand rest)

abbrev pub with_left : Option (ℤ × Text) → Result
with_left none = without_value out_of_range (pos 0) (pos 0) 0
with_left (some (a, rest)) = with_operator a (operator_at rest)

-- The part of evaluate for two integers
unfoldable pub evaluate_integers : Text → Result
unfolding skip_request operand operator_at at_end apply
evaluate_integers expression = with_left (operand (skip_request expression))
