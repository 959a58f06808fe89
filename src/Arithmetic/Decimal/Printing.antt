-- ===== src/Arithmetic/Decimal/Printing.antt =====
-- modules/arithmetic/src/arithmetic.c: the texts of decimal numbers, and reading them.
use digit.Base.{
  ℕ, ◌+◌, ◌-◌, ◌*◌, ◌/◌, ◌%◌, ◌^◌, ◌<◌, ◌≤◌, ◌≡◌, refl, sym, ap, subst, ◌∙◌, true, false, ◌&&◌,
  ◌||◌, some, [], ◌∷◌, ◌++◌, length, Text, ltb, leb, ◌==◌, arith, Bool-cases, inl, inr,
}
use digit.Base.Decimal.{dec_value, is_digit, IsDigits, EndsNumber}
use digit.Arithmetic.Reading.{le-dec_value}
use digit.Arithmetic.Decimal.{
  whole_from, fraction_from, strip_zeros, strip_point, three_digits, before_zeros,
}

abbrev pub million : ℕ
million = 1000000

pub whole_from-dec_value :
    (ds rest : Text) (digits n : ℕ)
    → IsDigits ds
    → EndsNumber rest
    → dec_value n ds ≤ million
    → whole_from digits n (ds ++ rest) ≡ some (digits + length ds, dec_value n ds, rest)
unfolding whole_from dec_value
whole_from-dec_value [] [] digits n d e le = ap (λ (k : ℕ). some (k, n, [])) (omega arith)
whole_from-dec_value [] (c ∷ rest) digits n d e le =
    rw e (ap (λ (k : ℕ). some (k, n, c ∷ rest)) (omega arith))
whole_from-dec_value (c ∷ ds) rest digits n (d, more) e le =
    let small : n * 10 + (c - b'0') ≤ million =
      omega (arith, le, le-dec_value ds (n * 10 + (c - b'0'))) in
    let fits : ltb 100000 n || ((n == 100000) && ltb 0 (c - b'0')) ≡ false =
      ground (arith, small) in
    rw (d, fits)
      (whole_from-dec_value ds rest (digits + 1) (n * 10 + (c - b'0')) more e le
        ∙ ap (λ (k : ℕ). some (k, dec_value (n * 10 + (c - b'0')) ds, rest)) (omega arith))

pub fraction_from-dec_value :
    (ds rest : Text) (count n : ℕ)
    → IsDigits ds
    → EndsNumber rest
    → count + length ds ≤ 3
    → fraction_from count n (ds ++ rest) ≡ some (count + length ds, dec_value n ds, rest)
unfolding fraction_from dec_value
fraction_from-dec_value [] [] count n d e le = ap (λ (k : ℕ). some (k, n, [])) (omega arith)
fraction_from-dec_value [] (c ∷ rest) count n d e le =
    rw e (ap (λ (k : ℕ). some (k, n, c ∷ rest)) (omega arith))
fraction_from-dec_value (c ∷ ds) rest count n (d, more) e le =
    let fits : leb 3 count ≡ false = ground (arith, le) in
    rw (d, fits)
      (fraction_from-dec_value ds rest (count + 1) (n * 10 + (c - b'0')) more e (omega (arith, le))
        ∙ ap (λ (k : ℕ). some (k, dec_value (n * 10 + (c - b'0')) ds, rest)) (omega arith))

-- What is left of a fraction without the zeros at its end.
pub record IsFraction (f : ℕ) (ds : Text) : Type 0 where
  pub digits : IsDigits ds
  pub size : length ds ≤ 3
  pub value : dec_value 0 ds * 10 ^ (3 - length ds) ≡ f
  pub empty : length ds ≡ 0 → f ≡ 0

keeps_digit : (c : ℕ) → (c == b'0') ≡ false → before_zeros c [] ≡ c ∷ []
keeps_digit c e = rw e refl

drops_zero : (c : ℕ) → (c == b'0') ≡ true → before_zeros c [] ≡ []
drops_zero c e = rw e refl

digit_char : (n : ℕ) → n < 10 → is_digit (b'0' + n) ≡ true
unfolding is_digit
digit_char n le = ground (arith, le)

-- The three digits that print a fraction, by their values.
strip_digits :
    (x y z f : ℕ)
    → x < 10
    → y < 10
    → z < 10
    → x * 100 + y * 10 + z ≡ f
    → IsFraction f (strip_zeros ((b'0' + x) ∷ (b'0' + y) ∷ (b'0' + z) ∷ []))
unfolding strip_zeros dec_value
strip_digits x y z f lx ly lz e = elim (Bool-cases (b'0' + z == b'0')) [
  | inr last ↦
      subst (IsFraction f)
        (sym (
          ap (λ (s : Text). before_zeros (b'0' + x) (before_zeros (b'0' + y) s))
            (keeps_digit (b'0' + z) last)))
        (record {
          digits = (digit_char x lx, (digit_char y ly, (digit_char z lz, tt)));
          size = omega arith;
          value = omega (arith, e);
          empty = λ n. absurd (omega (arith, n));
        })
  | inl no_last ↦ elim (Bool-cases (b'0' + y == b'0')) [
    | inr middle ↦
        subst (IsFraction f)
          (sym (
            ap (λ (s : Text). before_zeros (b'0' + x) (before_zeros (b'0' + y) s))
              (drops_zero (b'0' + z) no_last)
            ∙ ap (before_zeros (b'0' + x)) (keeps_digit (b'0' + y) middle)))
          (record {
            digits = (digit_char x lx, (digit_char y ly, tt));
            size = omega arith;
            value = ground (arith, e, no_last);
            empty = λ n. absurd (omega (arith, n));
          })
    | inl no_middle ↦ elim (Bool-cases (b'0' + x == b'0')) [
      | inr first ↦
          subst (IsFraction f)
            (sym (
              ap (λ (s : Text). before_zeros (b'0' + x) (before_zeros (b'0' + y) s))
                (drops_zero (b'0' + z) no_last)
              ∙ ap (before_zeros (b'0' + x)) (drops_zero (b'0' + y) no_middle)
              ∙ keeps_digit (b'0' + x) first))
            (record {
              digits = (digit_char x lx, tt);
              size = omega arith;
              value = ground (arith, e, no_last, no_middle);
              empty = λ n. absurd (omega (arith, n));
            })
      | inl no_first ↦
          subst (IsFraction f)
            (sym (
              ap (λ (s : Text). before_zeros (b'0' + x) (before_zeros (b'0' + y) s))
                (drops_zero (b'0' + z) no_last)
              ∙ ap (before_zeros (b'0' + x)) (drops_zero (b'0' + y) no_middle)
              ∙ drops_zero (b'0' + x) no_first))
            (record {
              digits = tt;
              size = omega arith;
              value = ground (arith, e, no_last, no_middle, no_first);
              empty = λ n. ground (arith, e, no_last, no_middle, no_first);
            })
    ]
  ]
]

pub strip_zeros-IsFraction : (f : ℕ) → f < 1000 → IsFraction f (strip_zeros (three_digits f))
strip_zeros-IsFraction f le =
    strip_digits (f / 100) (f / 10 % 10) (f % 10) f (omega (arith, le)) (omega arith) (omega arith)
      (omega (arith, le))

before_zeros-append :
    (x : ℕ) (xs : Text) (c : ℕ) (ys : Text) → before_zeros x (xs ++ c ∷ ys) ≡ x ∷ (xs ++ c ∷ ys)
before_zeros-append x [] c ys = refl
before_zeros-append x (d ∷ xs) c ys = refl

-- The zeros at the end stand behind the point.
pub strip_zeros-point : (xs s : Text) → strip_zeros (xs ++ b'.' ∷ s) ≡ xs ++ b'.' ∷ strip_zeros s
unfolding strip_zeros
strip_zeros-point [] s = before_point (strip_zeros s)
  where
    before_point : (t : Text) → before_zeros b'.' t ≡ b'.' ∷ t
    before_point [] = refl
    before_point (c ∷ t) = refl
strip_zeros-point (x ∷ xs) s =
    ap (before_zeros x) (strip_zeros-point xs s) ∙ before_zeros-append x xs b'.' (strip_zeros s)

strip_point-append :
    (xs : Text) (c : ℕ) (ys : Text) → strip_point (xs ++ c ∷ ys) ≡ xs ++ strip_point (c ∷ ys)
unfolding strip_point
strip_point-append [] c ys = refl
strip_point-append (x ∷ []) c ys = refl
strip_point-append (x ∷ y ∷ xs) c ys = ap (λ (t : Text). x ∷ t) (strip_point-append (y ∷ xs) c ys)

strip_point-digits : (ds : Text) → IsDigits ds → strip_point ds ≡ ds
unfolding strip_point
strip_point-digits [] d = refl
strip_point-digits (c ∷ []) (d, more) =
    let other : (c == b'.') ≡ false = unfold is_digit in ground (arith, d) in rw other refl
strip_point-digits (c ∷ e ∷ ds) (d, more) =
    ap (λ (t : Text). c ∷ t) (strip_point-digits (e ∷ ds) more)

-- A fraction with its point, if there is anything left of it.
abbrev pub point_if : Text → Text
point_if [] = []
point_if (c ∷ ds) = b'.' ∷ c ∷ ds

pub strip_point-fraction :
    (xs ds : Text) → IsDigits ds → strip_point (xs ++ b'.' ∷ ds) ≡ xs ++ point_if ds
strip_point-fraction xs [] d =
    strip_point-append xs b'.' [] ∙ ap (λ (t : Text). xs ++ t) (unfold strip_point in refl)
strip_point-fraction xs (c ∷ ds) d =
    strip_point-append xs b'.' (c ∷ ds)
    ∙ ap (λ (t : Text). xs ++ t)
        (unfold strip_point in ap (λ (t : Text). b'.' ∷ t) (strip_point-digits (c ∷ ds) d))
