-- ===== src/Arithmetic/Decimal/Written.antt =====
-- modules/arithmetic/src/arithmetic.c: expressions of two decimal numbers that are written out.
use digit.Base.{
  ℕ, ◌/◌, ◌%◌, ◌<◌, ◌≤◌, ◌≡◌, refl, sym, ap, subst, ◌∙◌, Bool, true, false, ◌&&◌, some, [], ◌∷◌,
  ◌++◌, append_assoc, append-nil, length, Text, ◌==◌,
}
use digit.Base.Int.{ℤ, magnitude, is_negative}
use digit.Base.Decimal.{to_dec, is_digit}
use digit.Base.Letters.{after_key}
use digit.Base.Scan.{skip_spaces, is_space}
use digit.Arithmetic.{is_operator, skip_request, at_end, status_ok}
use digit.Arithmetic.Reading.{StartsDigit, to_dec-StartsDigit, skip_request_digit, is_operator-read}
use digit.Arithmetic.Decimal.{
  decimal_operand, strip_zeros, three_digits, minus_if, fixed_text, decimal_value, evaluate_decimal,
  answer, print_answer, with_left, with_operator, with_right,
}
use digit.Arithmetic.Decimal.Fits.{length-print_answer}
use digit.Arithmetic.Decimal.Printing.{point_if}
use digit.Arithmetic.Decimal.RoundTrip.{unsigned_text, fixed_text-parts, decimal_operand-fixed_text}

skip_request_digits : (s : Text) → StartsDigit s → skip_request s ≡ s
skip_request_digits [] d = unfold skip_request skip_spaces after_key in refl
skip_request_digits (c ∷ s) d = skip_request_digit c s d

-- Nothing is skipped in front of a written number.
skip_request-fixed_text :
    (v : ℤ) (rest : Text) → skip_request (fixed_text v ++ rest) ≡ fixed_text v ++ rest
skip_request-fixed_text v rest =
    ap (λ (s : Text). skip_request (s ++ rest)) (fixed_text-parts v)
    ∙ go (is_negative v)
    ∙ ap (λ (s : Text). s ++ rest) (sym (fixed_text-parts v))
  where
    go :
        (n : Bool)
        → skip_request (minus_if n (unsigned_text (magnitude v)) ++ rest)
          ≡ minus_if n (unsigned_text (magnitude v)) ++ rest
    go true = unfold skip_request skip_spaces is_space after_key in refl
    go false = skip_request_digits (unsigned_text (magnitude v) ++ rest) (
        subst StartsDigit
          (sym (
            append_assoc (to_dec (magnitude v / 1000))
              (point_if (strip_zeros (three_digits (magnitude v % 1000)))) rest))
          (to_dec-StartsDigit (magnitude v / 1000)
            (point_if (strip_zeros (three_digits (magnitude v % 1000))) ++ rest)))

operand_spaced : (s : Text) → decimal_operand (32 ∷ s) ≡ decimal_operand s
unfolding decimal_operand skip_spaces is_space
operand_spaced s = refl

-- Two decimal numbers of at most a million and 999 thousandths in magnitude that fixed_text has
-- written, with an operation between them that has a value for them, are read as they are; the
-- answer is the text of that value, and it is shorter than 128 characters.
pub evaluate_decimal-fixed_text :
    (a b : ℤ) (op : ℕ) (value : ℤ)
    → magnitude a ≤ 1000000999
    → magnitude b ≤ 1000000999
    → is_operator op ≡ true
    → ((op == b'/') && (magnitude b == 0)) ≡ false
    → decimal_value a b op ≡ some value
    → (evaluate_decimal (fixed_text a ++ (32 ∷ op ∷ 32 ∷ fixed_text b))
        ≡ record { status = status_ok; operation = op; decimal_answer = print_answer a b op value })
      × (length (print_answer a b op value) < 128)
unfolding evaluate_decimal
evaluate_decimal-fixed_text a b op value la lb o real v = (
  ap (λ (s : Text). with_left (decimal_operand s))
        (skip_request-fixed_text a (32 ∷ op ∷ 32 ∷ fixed_text b))
      ∙ ap with_left (
          decimal_operand-fixed_text a (32 ∷ op ∷ 32 ∷ fixed_text b) la
            (unfold is_digit in (refl, refl)))
      ∙ ap (with_operator a) (is_operator-read op (32 ∷ fixed_text b) o)
      ∙ ap (with_right a op) (
          operand_spaced (fixed_text b)
          ∙ ap decimal_operand (sym (append-nil (fixed_text b)))
          ∙ decimal_operand-fixed_text b [] lb tt)
      ∙ finish,
  length-print_answer a b op value la lb v,
)
  where
    ended : at_end [] ≡ true
    ended = unfold at_end skip_spaces in refl

    finish :
        with_right a op (some (b, []))
        ≡ record { status = status_ok; operation = op; decimal_answer = print_answer a b op value }
    finish = rw (ended, real) (ap (answer a b op) v)
