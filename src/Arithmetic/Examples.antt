-- ===== src/Arithmetic/Examples.antt =====
-- modules/arithmetic/src/arithmetic.c on some expressions, among them those of arithmetic_qualify.
use digit.Base.{ℕ, [], ◌∷◌, ◌++◌, length, ◌<◌, ◌*◌, ◌≡◌, refl, arith, Text, text}
use digit.Base.Int.{ℤ, pos, negsuc, ◌*ℤ◌, quot}
use digit.Arithmetic.{status_ok, invalid, divide_by_zero, out_of_range, apply, evaluate_integers}
use digit.Arithmetic.Decimal.{fixed_text, print_answer, evaluate_decimal}
use digit.Arithmetic.Decimal.Written.{evaluate_decimal-fixed_text}
use digit.Base.{some}
use digit.Arithmetic.SquareRoot.{HasRoot, poly_isqrt, poly_isqrt-HasRoot}
use digit.Arithmetic.Exact.{IsExact, evaluate_integers-IsExact}
use digit.Arithmetic.Route.{route, integers, polynomial, route-evaluate_integers}
use digit.Arithmetic.Reading.{print_pair}

adds : (evaluate_integers (text "Digit what is two plus two?")).value ≡ pos 4
unfolding evaluate_integers digit.Base.Int.◌+ℤ◌
adds = refl

multiplies : (evaluate_integers (text "1000000000 * 1000000000")).value ≡ pos 1000000000000000000
unfolding evaluate_integers digit.Base.Int.◌*ℤ◌
multiplies = refl

subtracts : (evaluate_integers (text "7 minus 12")).value ≡ negsuc 4
unfolding evaluate_integers digit.Base.Int.◌-ℤ◌
subtracts = refl

refuses_zero : (evaluate_integers (text "8 divided by zero")).status ≡ divide_by_zero
unfolding evaluate_integers
refuses_zero = refl

refuses_large : (evaluate_integers (text "1000000001 + 2")).status ≡ out_of_range
unfolding evaluate_integers
refuses_large = refl

refuses_third : (evaluate_integers (text "2 plus 2 plus 2")).status ≡ invalid
unfolding evaluate_integers
refuses_third = refl

divides : (evaluate_integers (text "-7 / 2")).status ≡ status_ok
unfolding evaluate_integers
divides = refl

poly_isqrt-HasRoot_example : HasRoot 2000000 (poly_isqrt 2000000)
poly_isqrt-HasRoot_example = poly_isqrt-HasRoot 2000000 (omega arith)

evaluate_integers-IsExact_example : IsExact (evaluate_integers (text "-7 / 2"))
evaluate_integers-IsExact_example = evaluate_integers-IsExact (text "-7 / 2") divides

route-evaluate_integers_example :
    (route (print_pair (negsuc 6) b'/' (pos 2)) ≡ integers)
    × (evaluate_integers (print_pair (negsuc 6) b'/' (pos 2)) ≡ apply (negsuc 6) (pos 2) b'/')
route-evaluate_integers_example =
    route-evaluate_integers (negsuc 6) (pos 2) b'/' (omega arith) (omega arith) refl

solves : route (text "solve (x+1)*(x+2) = 0") ≡ polynomial
unfolding route
solves = refl

evaluate_decimal-fixed_text_example :
    (evaluate_decimal (fixed_text (negsuc 1249) ++ (32 ∷ b'*' ∷ 32 ∷ fixed_text (pos 2500)))
      ≡ record {
        status = status_ok;
        operation = b'*';
        decimal_answer = print_answer (negsuc 1249) (pos 2500) b'*' (negsuc 3124);
      })
    × (length (print_answer (negsuc 1249) (pos 2500) b'*' (negsuc 3124)) < 128)
evaluate_decimal-fixed_text_example =
    evaluate_decimal-fixed_text (negsuc 1249) (pos 2500) b'*' (negsuc 3124) (omega arith)
      (omega arith) refl refl (unfold ◌*ℤ◌ quot in refl)

writes : (evaluate_decimal (text "-1.25 * 2.5")).decimal_answer ≡ text "-1.25 * 2.5 = -3.125."
unfolding evaluate_decimal digit.Arithmetic.skip_request digit.Arithmetic.operator_at
    digit.Arithmetic.at_end digit.Base.Decimal.to_dec quot ◌*ℤ◌
writes = refl

root_of_million : poly_isqrt 1000001 ≡ some 1000
unfolding poly_isqrt
root_of_million = refl
