-- ===== src/Arithmetic/Exact.antt =====
-- modules/arithmetic/src/arithmetic.c: the range of the operands and of the results.
use digit.Base.{
  ℕ, ◌+◌, ◌-◌, ◌*◌, ◌/◌, ◌<◌, ◌≤◌, ◌≡◌, refl, sym, subst, Bool, true, ◌&&◌, Option, none, some,
  List, [], ◌∷◌, All, Text, ◌==◌, arith, Bool-cases, Option-cases, inl, inr, ◌⊎◌,
}
use native.Mathlib.Nat.{mul-le-mul}
use digit.Base.Int.{
  ℤ, pos, ◌+ℤ◌, ◌-ℤ◌, ◌*ℤ◌, quot, rem, signed, magnitude, magnitude-signed, magnitude_add_le,
  magnitude_sub_le, magnitude_mul, magnitude-quot_le, magnitude-rem_lt, quot-rem, signed-rem,
  magnitude-quot, is_negative,
}
use digit.Base.Decimal.{is_digit}
use digit.Base.Letters.{after_key, first_word}
use digit.Base.Scan.{skip_spaces, sign}
use digit.Arithmetic.{
  status_ok, invalid, divide_by_zero, Result, digits_from, unsigned_operand, signed_operand,
  operand, operator_at, apply, at_end, skip_request, evaluate_integers, with_value, with_left,
  with_operator, with_right, number_words,
}

-- The largest operand.
abbrev pub billion : ℕ
billion = 1000000000

digit_small : (c : ℕ) → is_digit c ≡ true → c - b'0' ≤ 9
unfolding is_digit
digit_small c d = ground (arith, d)

digits_from_le :
    (s : Text) (number n : ℕ) (rest : Text)
    → number ≤ billion
    → digits_from number s ≡ some (n, rest)
    → n ≤ billion
unfolding digits_from
digits_from_le [] number n rest le e = ground (arith, le, e)
digits_from_le (c ∷ s) number n rest le e =
    let rec = digits_from_le s (number * 10 + (c - b'0')) n rest in
    ground (arith, le, e, rec, digit_small c)

first_word-All :
    (keys : List (Text × ℕ)) (s : Text) (n : ℕ) (rest : Text) (bound : ℕ)
    → All (λ (k : Text × ℕ). k.1 ≤ bound) keys
    → first_word keys s ≡ some (n, rest)
    → n ≤ bound
unfolding first_word
first_word-All [] s n rest bound a e = cc
first_word-All ((key, m) ∷ keys) s n rest bound (here, a) e =
    let rec = first_word-All keys s n rest bound a in ground (arith, here, e, rec)

number_words_le : All (λ (k : Text × ℕ). k.1 ≤ 10) number_words
number_words_le = (
  omega arith,
  (
    omega arith,
    (
      omega arith,
      (
        omega arith,
        (
          omega arith,
          (
            omega arith,
            (omega arith, (omega arith, (omega arith, (omega arith, (omega arith, tt))))),
          ),
        ),
      ),
    ),
  ),
)

unsigned_operand_le :
    (s : Text) (n : ℕ) (rest : Text) → unsigned_operand s ≡ some (n, rest) → n ≤ billion
unfolding unsigned_operand
unsigned_operand_le [] n rest e = absurd (unfold first_word after_key in ground (arith, e))
unsigned_operand_le (c ∷ s) n rest e = elim (Bool-cases (is_digit c)) [
  | inl d ↦ digits_from_le (c ∷ s) 0 n rest (omega arith) (ground (arith, e, d))
  | inr other ↦
      let word : first_word number_words (c ∷ s) ≡ some (n, rest) = ground (arith, e, other) in
      omega (arith, first_word-All number_words (c ∷ s) n rest 10 number_words_le word)
]

operand_le : (s : Text) (a : ℤ) (rest : Text) → operand s ≡ some (a, rest) → magnitude a ≤ billion
unfolding operand
operand_le s a rest e = go (sign (skip_spaces s)) e
  where
    go : (r : Bool × Text) → signed_operand r ≡ some (a, rest) → magnitude a ≤ billion
    go (negative, t) e = elim (Option-cases (unsigned_operand t)) [
      | inl missing ↦ ground (arith, e, missing)
      | inr ((n, more), found) ↦
          let this : signed negative n ≡ a = ground (arith, e, found) in
          subst (λ (x : ℤ). magnitude x ≤ billion) this
            (omega (arith, magnitude-signed negative n, unsigned_operand_le t n more found))
    ]

-- What a result of two integers says.
pub record IsExact (r : Result) : Type 0 where
  pub left_range : magnitude r.left ≤ billion
  pub right_range : magnitude r.right ≤ billion
  pub value_range : magnitude r.value ≤ billion * billion
  pub remainder_range : magnitude r.remainder ≤ billion
  pub exact :
      ((r.operation ≡ b'+') × (r.value ≡ r.left +ℤ r.right))
      ⊎ (((r.operation ≡ b'-') × (r.value ≡ r.left -ℤ r.right))
          ⊎ (((r.operation ≡ b'*') × (r.value ≡ r.left *ℤ r.right))
              ⊎ ((r.operation ≡ b'/')
                  × (r.right *ℤ r.value +ℤ r.remainder ≡ r.left)
                  × (magnitude r.remainder < magnitude r.right)
                  × (r.remainder ≡ signed (is_negative r.left) (magnitude r.remainder))
                  × (magnitude r.value ≡ magnitude r.left / magnitude r.right))))

product_le : (m n : ℕ) → m ≤ billion → n ≤ billion → m * n ≤ billion * billion
product_le m n h k = mul-le-mul h k

module _ (a b : ℤ) (operation : ℕ) (la : magnitude a ≤ billion) (lb : magnitude b ≤ billion) where
  sum-IsExact : operation ≡ b'+' → IsExact (with_value a b operation (a +ℤ b) (pos 0))
  sum-IsExact o = record {
    left_range = la;
    right_range = lb;
    value_range = omega (arith, la, lb, magnitude_add_le a b);
    remainder_range = omega arith;
    exact = inl (o, refl);
  }

  difference-IsExact : operation ≡ b'-' → IsExact (with_value a b operation (a -ℤ b) (pos 0))
  difference-IsExact o = record {
    left_range = la;
    right_range = lb;
    value_range = omega (arith, la, lb, magnitude_sub_le a b);
    remainder_range = omega arith;
    exact = inr (inl (o, refl));
  }

  product-IsExact : operation ≡ b'*' → IsExact (with_value a b operation (a *ℤ b) (pos 0))
  product-IsExact o = record {
    left_range = la;
    right_range = lb;
    value_range =
        subst (λ (m : ℕ). m ≤ billion * billion) (sym (magnitude_mul a b))
          (product_le (magnitude a) (magnitude b) la lb);
    remainder_range = omega arith;
    exact = inr (inr (inl (o, refl)));
  }

  quotient-IsExact :
      operation ≡ b'/' → 0 < magnitude b → IsExact (with_value a b operation (quot a b) (rem a b))
  quotient-IsExact o real = record {
    left_range = la;
    right_range = lb;
    value_range = omega (arith, la, magnitude-quot_le a b);
    remainder_range = omega (arith, lb, magnitude-rem_lt a b real);
    exact = inr (
        inr (inr (o, quot-rem a b, magnitude-rem_lt a b real, signed-rem a b, magnitude-quot a b)));
  }

  apply-IsExact : (apply a b operation).status ≡ status_ok → IsExact (apply a b operation)
  unfolding apply
  apply-IsExact e = elim (Bool-cases ((operation == b'/') && (magnitude b == 0))) [
    | inl over ↦ absurd (no_division (rw over at e))
    | inr real ↦ elim (Bool-cases (operation == b'+')) [
      | inl plus ↦ rw (real, plus) (sum-IsExact (ground (arith, plus)))
      | inr not_plus ↦ elim (Bool-cases (operation == b'-')) [
        | inl minus ↦ rw (real, not_plus, minus) (difference-IsExact (ground (arith, minus)))
        | inr not_minus ↦ elim (Bool-cases (operation == b'*')) [
          | inl times ↦
              rw (real, not_plus, not_minus, times) (product-IsExact (ground (arith, times)))
          | inr not_times ↦ elim (Bool-cases (operation == b'/')) [
            | inl over ↦
                rw (real, not_plus, not_minus, not_times, over)
                  (quotient-IsExact (ground (arith, over)) (ground (arith, real, over)))
            | inr unknown ↦
                absurd (no_operation (rw (real, not_plus, not_minus, not_times, unknown) at e))
          ]
        ]
      ]
    ]
  ]
    where
      no_division : divide_by_zero ≡ status_ok → ⊥
      no_division e = cc

      no_operation : invalid ≡ status_ok → ⊥
      no_operation e = cc

-- If the expression is accepted, then both operands are at most a billion in magnitude, the value is
-- at most a billion times a billion, and it is the sum, the difference or the product of the
-- operands, or a quotient whose magnitude is that of the operands' magnitudes rounded down. A quotient
-- times the right operand plus the remainder is the left operand; the remainder is smaller in
-- magnitude than the right operand, and has the sign of the left operand or is zero.
pub evaluate_integers-IsExact :
    (expression : Text)
    → (evaluate_integers expression).status ≡ status_ok
    → IsExact (evaluate_integers expression)
unfolding evaluate_integers
evaluate_integers-IsExact expression e = with_left_exact (operand (skip_request expression)) refl e
  where
    with_right_exact :
        (a : ℤ) (operation : ℕ) (t : Text) (o : Option (ℤ × Text))
        → magnitude a ≤ billion
        → operand t ≡ o
        → (with_right a operation o).status ≡ status_ok
        → IsExact (with_right a operation o)
    with_right_exact a operation t none la f e = cc
    with_right_exact a operation t (some (b, rest)) la f e = elim (Bool-cases (at_end rest)) [
      | inl done ↦ rw done (apply-IsExact a b operation la (operand_le t b rest f) (rw done at e))
      | inr more ↦ let refused = rw more at e in cc
    ]

    with_left_exact :
        (o : Option (ℤ × Text))
        → operand (skip_request expression) ≡ o
        → (with_left o).status ≡ status_ok
        → IsExact (with_left o)
    with_left_exact none f e = cc
    with_left_exact (some (a, rest)) f e = with_operator_exact (operator_at rest) e
      where
        with_operator_exact :
            (o : Option (ℕ × Text))
            → (with_operator a o).status ≡ status_ok
            → IsExact (with_operator a o)
        with_operator_exact none e = cc
        with_operator_exact (some (operation, t)) e =
            with_right_exact a operation t (operand t)
              (operand_le (skip_request expression) a rest f) refl e
