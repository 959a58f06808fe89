-- ===== src/Arithmetic/Decimal/Fits.antt =====
-- modules/arithmetic/src/arithmetic.c: the room for the answer of two decimal numbers.
use digit.Base.{
  ℕ, suc, ◌+◌, ◌*◌, ◌/◌, ◌%◌, ◌^◌, ◌<◌, ◌≤◌, ◌≡◌, subst, Bool, true, false, some, [], ◌∷◌, ◌++◌,
  length, length-append, Text, text, ◌==◌, arith, Bool-cases, inl, inr, some_inj,
}
use native.Mathlib.Nat.{mul-le-mul}
use digit.Base.Int.{
  ℤ, pos, ◌+ℤ◌, ◌-ℤ◌, ◌*ℤ◌, quot, magnitude, is_negative, magnitude_add_le, magnitude_sub_le,
  magnitude_mul, magnitude-quot, magnitude-quot_le,
}
use digit.Base.Decimal.{to_dec, length-to_dec-le}
use digit.Arithmetic.Decimal.{
  strip_zeros, strip_point, before_zeros, three_digits, minus_if, fixed_text, decimal_value,
  print_answer,
}

length-strip_zeros : (s : Text) → length (strip_zeros s) ≤ length s
unfolding strip_zeros
length-strip_zeros [] = omega arith
length-strip_zeros (c ∷ s) = go (strip_zeros s) (length-strip_zeros s)
  where
    go : (t : Text) → length t ≤ length s → length (before_zeros c t) ≤ suc (length s)
    go [] le = ground arith
    go (d ∷ t) le = omega (arith, le)

length-strip_point : (s : Text) → length (strip_point s) ≤ length s
unfolding strip_point
length-strip_point [] = omega arith
length-strip_point (c ∷ []) = ground arith
length-strip_point (c ∷ d ∷ s) = omega (arith, length-strip_point (d ∷ s))

length-minus_if : (n : Bool) (s : Text) → length (minus_if n s) ≤ suc (length s)
length-minus_if true s = omega arith
length-minus_if false s = omega arith

-- The text of a number whose whole part has at most k + 1 digits.
length-fixed_text :
    (k : ℕ) (v : ℤ) → magnitude v / 1000 < 10 ^ suc k → length (fixed_text v) ≤ k + 6
unfolding fixed_text
length-fixed_text k v le =
    let w = to_dec (magnitude v / 1000) in
    let s = w ++ b'.' ∷ three_digits (magnitude v % 1000) in
    omega (
      arith,
      length-strip_point (strip_zeros (minus_if (is_negative v) s)),
      length-strip_zeros (minus_if (is_negative v) s),
      length-minus_if (is_negative v) s,
      length-append w (b'.' ∷ three_digits (magnitude v % 1000)),
      length-to_dec-le k (magnitude v / 1000) le,
    )

product_value :
    (a b : ℤ)
    → magnitude a ≤ 1000000999
    → magnitude b ≤ 1000000999
    → magnitude (quot (a *ℤ b) (pos 1000)) ≤ 10000000000000000
product_value a b la lb =
    let product : magnitude a * magnitude b ≤ 1000000999 * 1000000999 = mul-le-mul la lb in
    omega (arith, magnitude-quot (a *ℤ b) (pos 1000), magnitude_mul a b, product)

abbrev Small : ℤ → Type 0
Small v = magnitude v ≤ 10000000000000000

-- The magnitude of a value
value_le :
    (a b : ℤ) (op : ℕ) (value : ℤ)
    → magnitude a ≤ 1000000999
    → magnitude b ≤ 1000000999
    → decimal_value a b op ≡ some value
    → magnitude value ≤ 10000000000000000
value_le a b op value la lb v = elim (Bool-cases (op == b'+')) [
  | inl plus ↦
      let e : a +ℤ b ≡ value = some_inj (rw plus at v) in
      subst Small e (omega (arith, la, lb, magnitude_add_le a b))
  | inr not_plus ↦ elim (Bool-cases (op == b'-')) [
    | inl minus ↦
        let e : a -ℤ b ≡ value = some_inj (rw (not_plus, minus) at v) in
        subst Small e (omega (arith, la, lb, magnitude_sub_le a b))
    | inr not_minus ↦ elim (Bool-cases (op == b'*')) [
      | inl times ↦
          let e : quot (a *ℤ b) (pos 1000) ≡ value =
            some_inj (rw (not_plus, not_minus, times) at v) in
          subst Small e (product_value a b la lb)
      | inr not_times ↦ elim (Bool-cases (op == b'/')) [
        | inl over ↦
            let e : quot (a *ℤ pos 1000) b ≡ value =
              some_inj (rw (not_plus, not_minus, not_times, over) at v) in
            subst Small e
              (omega (arith, la, magnitude-quot_le (a *ℤ pos 1000) b, magnitude_mul a (pos 1000)))
        | inr unknown ↦ let gone = rw (not_plus, not_minus, not_times, unknown) at v in cc
      ]
    ]
  ]
]

-- The answer for two numbers of at most a million and 999 thousandths in magnitude is shorter than
-- the array that it is printed into.
pub length-print_answer :
    (a b : ℤ) (op : ℕ) (value : ℤ)
    → magnitude a ≤ 1000000999
    → magnitude b ≤ 1000000999
    → decimal_value a b op ≡ some value
    → length (print_answer a b op value) < 128
length-print_answer a b op value la lb v =
    let bound = value_le a b op value la lb v in
    omega (
      arith,
      length-append (fixed_text a)
          (32 ∷ op ∷ 32 ∷ (fixed_text b ++ (text " = " ++ (fixed_text value ++ b'.' ∷ [])))),
      length-append (fixed_text b) (text " = " ++ (fixed_text value ++ b'.' ∷ [])),
      length-append (fixed_text value) (b'.' ∷ []),
      length-fixed_text 6 a (omega (arith, la)),
      length-fixed_text 6 b (omega (arith, lb)),
      length-fixed_text 13 value (omega (arith, bound)),
    )
