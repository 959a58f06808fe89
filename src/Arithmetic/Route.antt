-- ===== src/Arithmetic/Route.antt =====
-- modules/arithmetic/src/arithmetic.c: which engine evaluate hands an expression to.
use digit.Base.{
  ℕ, suc, length-append, ◌<◌, ◌≤◌, ◌+◌, append-nil, ◌≡◌, refl, sym, ap, ◌∙◌, Bool, true, false, not,
  ◌&&◌, ◌||◌, Option, none, some, [], ◌∷◌, ◌++◌, length, Text, text, has_char, has_char-append, ltb,
  leb, ◌==◌, if◌then◌else◌, arith,
}
use digit.Base.Int.{ℤ, pos, negsuc, magnitude}
use digit.Base.Decimal.{
  to_dec, is_digit, IsDigits, to_dec-IsDigits, length-to_dec-pos, has_char-digits,
}
use digit.Base.Scan.{is_space}
use digit.Arithmetic.{is_operator, evaluate_integers, apply}
use digit.Arithmetic.Exact.{billion}
use digit.Arithmetic.Reading.{print_int, print_pair, evaluate_integers-print_pair}

pub data Engine : Type 0 where
  no_engine polynomial algebra decimal integers : Engine

unfoldable pub begins : Text → Text → Bool
begins [] s = true
begins (k ∷ key) [] = false
begins (k ∷ key) (c ∷ s) = (c == k) && begins key s

-- strstr (s, key) != NULL, for a key that is not empty
unfoldable pub contains : Text → Text → Bool
unfolding begins
contains key [] = false
contains key (c ∷ s) = begins key (c ∷ s) || contains key s

unfoldable pub is_polynomial : Text → Bool
unfolding contains has_char
is_polynomial s =
    has_char b'^' s
    || contains (text "x*x") s
    || contains (text "X*X") s
    || contains (text "x * x") s
    || contains (text "X * X") s
    || (has_char b'=' s && has_char b'(' s && (has_char b'x' s || has_char b'X' s))

-- A sign behind this character is an operator.
abbrev is_binary : Option ℕ → Bool
is_binary none = false
is_binary (some p) =
    not (p == b'+') && not (p == b'-') && not (p == b'*') && not (p == b'/') && not (p == b'(')

abbrev is_counted : Option ℕ → ℕ → Bool
is_counted preceding c =
    (c == b'*') || (c == b'/') || (((c == b'+') || (c == b'-')) && is_binary preceding)

-- The loop that counts the operators
unfoldable pub count_operators : Option ℕ → Text → ℕ
unfolding is_space
count_operators preceding [] = 0
count_operators preceding (c ∷ s) =
    let same = count_operators preceding s in
    let onward = count_operators (some c) s in
    if is_space c then same else if is_counted preceding c then onward + 1 else onward

-- The choice of evaluate
unfoldable pub route : Text → Engine
unfolding is_polynomial count_operators has_char
route s =
    if length s == 0
    then no_engine
    else if is_polynomial s
    then polynomial
    else if ltb 1 (count_operators none s) || has_char b'=' s || has_char b'(' s || has_char b')' s
    then algebra
    else if has_char b'.' s
    then decimal
    else integers

contains-absent : (k : ℕ) (key s : Text) → has_char k s ≡ false → contains (k ∷ key) s ≡ false
unfolding contains begins has_char
contains-absent k key [] h = refl
contains-absent k key (c ∷ s) h = ground (arith, h, contains-absent k key s)

has_char-print_int :
    (k : ℕ) (a : ℤ) → is_digit k ≡ false → (k == b'-') ≡ false → has_char k (print_int a) ≡ false
unfolding has_char
has_char-print_int k (pos n) d m = has_char-digits k (to_dec n) d (to_dec-IsDigits n)
has_char-print_int k (negsuc n) d m =
    rw m (has_char-digits k (to_dec (suc n)) d (to_dec-IsDigits (suc n)))

-- A character that a written pair does not have.
has_char-print_pair :
    (k : ℕ) (a : ℤ) (op : ℕ) (b : ℤ)
    → is_digit k ≡ false
    → (k == b'-') ≡ false
    → (k == 32) ≡ false
    → (k == op) ≡ false
    → has_char k (print_pair a op b) ≡ false
unfolding has_char
has_char-print_pair k a op b d m blank other =
    has_char-append k (print_int a) (32 ∷ op ∷ 32 ∷ print_int b)
    ∙ rw (has_char-print_int k a d m, blank, other) (has_char-print_int k b d m)

count_digit :
    (c : ℕ) (s : Text) (preceding : Option ℕ)
    → is_digit c ≡ true
    → count_operators preceding (c ∷ s) ≡ count_operators (some c) s
unfolding count_operators is_space is_digit
count_digit c s preceding d =
    let solid : (c == 32) || (leb 9 c && leb c 13) ≡ false = ground (arith, d) in
    let uncounted : is_counted preceding c ≡ false = ground (arith, d) in rw (solid, uncounted) refl

-- No operator stands in digits.
count_operators-digits :
    (ds rest : Text) (preceding : Option ℕ)
    → 0 < length ds
    → IsDigits ds
    → (c : ℕ) × (is_digit c ≡ true)
      × (count_operators preceding (ds ++ rest) ≡ count_operators (some c) rest)
count_operators-digits [] rest preceding p d = absurd (omega arith)
count_operators-digits (c ∷ []) rest preceding p (d, more) = (c, d, count_digit c rest preceding d)
count_operators-digits (c ∷ e ∷ ds) rest preceding p (d, more) =
    let (l, digit, count) = count_operators-digits (e ∷ ds) rest (some c) (omega arith) more in
    (l, digit, count_digit c (e ∷ (ds ++ rest)) preceding d ∙ count)

-- A sign in front of a number is not counted where no operand precedes it.
count_operators-print_int :
    (a : ℤ) (rest : Text) (preceding : Option ℕ)
    → is_binary preceding ≡ false
    → (c : ℕ) × (is_digit c ≡ true)
      × (count_operators preceding (print_int a ++ rest) ≡ count_operators (some c) rest)
count_operators-print_int (pos n) rest preceding u =
    count_operators-digits (to_dec n) rest preceding (length-to_dec-pos n) (to_dec-IsDigits n)
count_operators-print_int (negsuc n) rest preceding u =
    let (c, digit, count) =
      count_operators-digits (to_dec (suc n)) rest (some b'-') (length-to_dec-pos (suc n))
        (to_dec-IsDigits (suc n)) in
    let minus : count_operators preceding (b'-' ∷ (to_dec (suc n) ++ rest))
        ≡ count_operators (some b'-') (to_dec (suc n) ++ rest) =
      unfold count_operators is_space in rw u refl in
    (c, digit, minus ∙ count)

count_operators-op :
    (c op : ℕ) (s : Text)
    → is_digit c ≡ true
    → is_operator op ≡ true
    → count_operators (some c) (32 ∷ op ∷ 32 ∷ s) ≡ count_operators (some op) s + 1
unfolding count_operators is_space is_digit
count_operators-op c op s d o =
    let solid : (op == 32) || (leb 9 op && leb op 13) ≡ false = ground (arith, o) in
    let counted : is_counted (some c) op ≡ true = ground (arith, o, d) in rw (solid, counted) refl

count_operators-print_pair :
    (a : ℤ) (op : ℕ) (b : ℤ) → is_operator op ≡ true → count_operators none (print_pair a op b) ≡ 1
count_operators-print_pair a op b o =
    let (c, digit, first) = count_operators-print_int a (32 ∷ op ∷ 32 ∷ print_int b) none refl in
    let (e, digit', second) = count_operators-print_int b [] (some op) (ground (arith, o)) in
    let done : count_operators (some e) [] ≡ 0 = unfold count_operators in refl in
    first
    ∙ count_operators-op c op (print_int b) digit o
    ∙ ap (λ (n : ℕ). n + 1)
        (ap (count_operators (some op)) (sym (append-nil (print_int b))) ∙ second ∙ done)

is_polynomial-plain :
    (s : Text)
    → has_char b'^' s ≡ false
    → has_char b'x' s ≡ false
    → has_char b'X' s ≡ false
    → has_char b'=' s ≡ false
    → is_polynomial s ≡ false
unfolding is_polynomial
is_polynomial-plain s power x capital equals =
    rw
      (
        power,
        contains-absent b'x' (text "*x") s x,
        contains-absent b'X' (text "*X") s capital,
        contains-absent b'x' (text " * x") s x,
        contains-absent b'X' (text " * X") s capital,
        equals,
      )
      refl

-- A written pair of integers with an operation is handed to the engine for integers.
pub route-print_pair :
    (a : ℤ) (op : ℕ) (b : ℤ) → is_operator op ≡ true → route (print_pair a op b) ≡ integers
unfolding route is_digit
route-print_pair a op b o =
    let plain =
      is_polynomial-plain (print_pair a op b) (absent b'^' refl (ground (arith, o)))
        (absent b'x' refl (ground (arith, o))) (absent b'X' refl (ground (arith, o)))
        (absent b'=' refl (ground (arith, o))) in
    rw
      (
        nonempty,
        plain,
        count_operators-print_pair a op b o,
        absent b'=' refl (ground (arith, o)),
        absent b'(' refl (ground (arith, o)),
        absent b')' refl (ground (arith, o)),
        absent b'.' refl (ground (arith, o)),
      )
      refl
  where
    absent :
        (k : ℕ)
        → (is_digit k || (k == b'-') || (k == 32)) ≡ false
        → (k == op) ≡ false
        → has_char k (print_pair a op b) ≡ false
    absent k other differs =
        has_char-print_pair k a op b (ground (arith, other)) (ground (arith, other))
          (ground (arith, other)) differs

    nonempty : (length (print_pair a op b) == 0) ≡ false
    nonempty = ground (arith, length-append (print_int a) (32 ∷ op ∷ 32 ∷ print_int b))

-- Two integers of at most a billion in magnitude that are written out with an operation between them
-- are handed to the engine for integers, which reads them as they are and applies the operation.
pub route-evaluate_integers :
    (a b : ℤ) (op : ℕ)
    → magnitude a ≤ billion
    → magnitude b ≤ billion
    → is_operator op ≡ true
    → (route (print_pair a op b) ≡ integers)
      × (evaluate_integers (print_pair a op b) ≡ apply a b op)
route-evaluate_integers a b op la lb o =
    (route-print_pair a op b o, evaluate_integers-print_pair a b op la lb o)
