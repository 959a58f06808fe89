-- ===== src/Arithmetic/Reading.antt =====
-- modules/arithmetic/src/arithmetic.c: expressions of two integers that are written out.
use digit.Base.{
  ℕ, suc, ◌+◌, ◌-◌, ◌*◌, ◌<◌, ◌≤◌, ◌≡◌, refl, sym, ap, ◌∙◌, Bool, true, false, ◌&&◌, ◌||◌, Option,
  none, some, List, [], ◌∷◌, ◌++◌, append-nil, length, Text, text, ltb, leb, ◌==◌, if◌then◌else◌,
  arith,
}
use digit.Base.Int.{ℤ, pos, negsuc, signed, magnitude}
use digit.Base.Decimal.{
  to_dec, dec_value, is_digit, IsDigits, EndsNumber, to_dec-IsDigits, dec_value-to_dec,
  length-to_dec-pos,
}
use digit.Base.Letters.{after_key, first_word, lower}
use digit.Base.Scan.{skip_spaces, is_space, sign}
use digit.Base.Scan.Laws.{skip_spaces-solid}
use digit.Arithmetic.{
  digits_from, unsigned_operand, signed_operand, operand, operator_at, is_operator, apply, at_end,
  skip_request, evaluate_integers, with_left, with_operator, with_right, with_sign, number_words,
  past_key, called, request_keys,
}
use digit.Arithmetic.Exact.{billion}

pub le-dec_value : (ds : Text) (n : ℕ) → n ≤ dec_value n ds
unfolding dec_value
le-dec_value [] n = omega arith
le-dec_value (c ∷ ds) n = omega (arith, le-dec_value ds (n * 10 + (c - b'0')))

digits_from-dec_value :
    (ds rest : Text) (n : ℕ)
    → IsDigits ds
    → EndsNumber rest
    → dec_value n ds ≤ billion
    → digits_from n (ds ++ rest) ≡ some (dec_value n ds, rest)
unfolding digits_from dec_value
digits_from-dec_value [] [] n d e le = refl
digits_from-dec_value [] (c ∷ rest) n d e le = rw e refl
digits_from-dec_value (c ∷ ds) rest n (d, more) e le =
    let small : n * 10 + (c - b'0') ≤ billion =
      omega (arith, le, le-dec_value ds (n * 10 + (c - b'0'))) in
    let fits : ltb 100000000 n || ((n == 100000000) && ltb 0 (c - b'0')) ≡ false =
      ground (arith, small) in
    rw (d, fits) (digits_from-dec_value ds rest (n * 10 + (c - b'0')) more e le)

pub first_of : (b : Bool) (x y : Option (ℕ × Text)) → b ≡ true → (if b then x else y) ≡ x
first_of true x y e = refl
first_of false x y e = cc

unsigned_operand-digits :
    (ds rest : Text)
    → 0 < length ds
    → IsDigits ds
    → EndsNumber rest
    → dec_value 0 ds ≤ billion
    → unsigned_operand (ds ++ rest) ≡ some (dec_value 0 ds, rest)
unfolding unsigned_operand
unsigned_operand-digits [] rest p d e le = absurd (omega arith)
unsigned_operand-digits (c ∷ ds) rest p (d, more) e le =
    first_of (is_digit c) (digits_from 0 (c ∷ (ds ++ rest)))
      (first_word number_words (c ∷ (ds ++ rest))) d
    ∙ digits_from-dec_value (c ∷ ds) rest 0 (d, more) e le

unsigned_operand-to_dec :
    (n : ℕ) (rest : Text)
    → n ≤ billion
    → EndsNumber rest
    → unsigned_operand (to_dec n ++ rest) ≡ some (n, rest)
unsigned_operand-to_dec n rest le e =
    let value = dec_value-to_dec n in
    unsigned_operand-digits (to_dec n) rest (length-to_dec-pos n) (to_dec-IsDigits n) e
      (omega (arith, value, le))
    ∙ ap (λ (m : ℕ). some (m, rest)) value

-- An integer as it is written.
abbrev pub print_int : ℤ → Text
print_int (pos n) = to_dec n
print_int (negsuc n) = b'-' ∷ to_dec (suc n)

-- The first character of a number is no white space, no sign and no letter.
abbrev pub StartsDigit : Text → Type 0
StartsDigit [] = Unit
StartsDigit (c ∷ s) = is_digit c ≡ true

pub to_dec-StartsDigit : (n : ℕ) (rest : Text) → StartsDigit (to_dec n ++ rest)
to_dec-StartsDigit n rest = go (to_dec n) (length-to_dec-pos n) (to_dec-IsDigits n)
  where
    go : (ds : Text) → 0 < length ds → IsDigits ds → StartsDigit (ds ++ rest)
    go [] p d = absurd (omega arith)
    go (c ∷ ds) p d = d.0

pub sign-digit : (s : Text) → StartsDigit s → sign (skip_spaces s) ≡ (false, s)
unfolding skip_spaces is_space is_digit
sign-digit [] d = refl
sign-digit (c ∷ s) d = ground (arith, d)

operand-print_int :
    (a : ℤ) (rest : Text)
    → magnitude a ≤ billion
    → EndsNumber rest
    → operand (print_int a ++ rest) ≡ some (a, rest)
unfolding operand
operand-print_int (pos n) rest le e =
    ap signed_operand (sign-digit (to_dec n ++ rest) (to_dec-StartsDigit n rest))
    ∙ ap (with_sign false) (unsigned_operand-to_dec n rest (omega (arith, le)) e)
operand-print_int (negsuc n) rest le e =
    ap signed_operand minus_read
    ∙ ap (with_sign true) (unsigned_operand-to_dec (suc n) rest (omega (arith, le)) e)
    ∙ ap (λ (a : ℤ). some (a, rest)) (signed_suc n)
  where
    minus_read :
        sign (skip_spaces (b'-' ∷ (to_dec (suc n) ++ rest))) ≡ (true, to_dec (suc n) ++ rest)
    minus_read = unfold skip_spaces is_space in refl

    signed_suc : (n : ℕ) → signed true (suc n) ≡ negsuc n
    signed_suc n = ground arith

pub is_operator-read :
    (op : ℕ) (s : Text) → is_operator op ≡ true → operator_at (32 ∷ op ∷ s) ≡ some (op, s)
unfolding operator_at skip_spaces is_space
is_operator-read op s o =
    let solid : (op == 32) || (leb 9 op && leb op 13) ≡ false = ground (arith, o) in
    rw (solid, o) refl

-- The expression of two integers
abbrev pub print_pair : ℤ → ℕ → ℤ → Text
print_pair a op b = print_int a ++ (32 ∷ op ∷ 32 ∷ print_int b)

after_key_apart :
    (k : ℕ) (key : Text) (c : ℕ) (s : Text)
    → (lower c == lower k) ≡ false
    → after_key (k ∷ key) (c ∷ s) ≡ none
unfolding after_key
after_key_apart k key c s e = rw e refl

past_key_apart :
    (key : Text) (keys : List Text) (s : Text)
    → after_key key s ≡ none
    → past_key (key ∷ keys) s ≡ past_key keys s
past_key_apart key keys s e = rw (e, past_key) refl

-- Nothing is skipped in front of a digit.
pub skip_request_digit : (c : ℕ) (s : Text) → is_digit c ≡ true → skip_request (c ∷ s) ≡ c ∷ s
unfolding skip_request
skip_request_digit c s d =
    ap (λ (t : Text). past_key request_keys (called t (after_key (text "digit") t)))
      (skip_spaces-solid (c ∷ s) solid)
    ∙ ap (λ (o : Option Text). past_key request_keys (called (c ∷ s) o))
        (after_key_apart b'd' (text "igit") c s (apart b'd' refl))
    ∙ past_key_apart (text "what is ") (text "calculate " ∷ text "compute " ∷ []) (c ∷ s)
        (after_key_apart b'w' (text "hat is ") c s (apart b'w' refl))
    ∙ past_key_apart (text "calculate ") (text "compute " ∷ []) (c ∷ s)
        (after_key_apart b'c' (text "alculate ") c s (apart b'c' refl))
    ∙ past_key_apart (text "compute ") [] (c ∷ s)
        (after_key_apart b'c' (text "ompute ") c s (apart b'c' refl))
  where
    solid : is_space c ≡ false
    solid = unfold is_space is_digit in ground (arith, d)

    apart : (k : ℕ) → leb b'a' k ≡ true → (lower c == lower k) ≡ false
    apart k small = unfold is_digit in ground (arith, d, small)

operand_spaced : (s : Text) → operand (32 ∷ s) ≡ operand s
unfolding operand skip_spaces is_space
operand_spaced s = refl

skip_request_number :
    (a : ℤ) (rest : Text) → skip_request (print_int a ++ rest) ≡ print_int a ++ rest
skip_request_number (pos n) rest = go (to_dec n ++ rest) (to_dec-StartsDigit n rest)
  where
    go : (s : Text) → StartsDigit s → skip_request s ≡ s
    go [] d = unfold skip_request skip_spaces after_key in refl
    go (c ∷ s) d = skip_request_digit c s d
skip_request_number (negsuc n) rest = unfold skip_request skip_spaces is_space after_key in refl

-- Two integers of at most a billion in magnitude that are written out with an operation between them
-- are read as they are, and the operation is applied to them.
pub evaluate_integers-print_pair :
    (a b : ℤ) (op : ℕ)
    → magnitude a ≤ billion
    → magnitude b ≤ billion
    → is_operator op ≡ true
    → evaluate_integers (print_pair a op b) ≡ apply a b op
unfolding evaluate_integers
evaluate_integers-print_pair a b op la lb o =
    ap (λ (s : Text). with_left (operand s)) (skip_request_number a (32 ∷ op ∷ 32 ∷ print_int b))
    ∙ ap with_left (operand-print_int a (32 ∷ op ∷ 32 ∷ print_int b) la (unfold is_digit in refl))
    ∙ ap (with_operator a) (is_operator-read op (32 ∷ print_int b) o)
    ∙ ap (with_right a op) (
        operand_spaced (print_int b)
        ∙ ap operand (sym (append-nil (print_int b)))
        ∙ operand-print_int b [] lb tt)
    ∙ unfold at_end skip_spaces in refl
