-- ===== src/Base/Int.antt =====
-- Signed integers over the native numbers, and C's division, which rounds toward zero.
use Prim.Native.Nat.{ℕ, suc, ◌+◌, ◌-◌, ◌*◌, ◌/◌, ◌%◌, ◌≤◌, ◌<◌}
use mathlib.Core.Path.{◌≡◌, refl, sym, ap, ◌∙◌}
use mathlib.Core.Bool.{Bool, true, false, not}
use native.Mathlib.Omega.{arith}
use native.Mathlib.Nat.{div-add-mod, mod-lt, div-le_self}
use digit.Base.Tests.{leb, if◌then◌else◌}

-- `negsuc n` is -(n + 1).
pub data ℤ : Type 0 where
  pos : ℕ → ℤ
  negsuc : ℕ → ℤ

abbrev pub pos_part : ℤ → ℕ
pos_part (pos n) = n
pos_part (negsuc n) = 0

abbrev pub neg_part : ℤ → ℕ
neg_part (pos n) = 0
neg_part (negsuc n) = suc n

-- a - b, as an integer.
abbrev pub sub_ℕ : ℕ → ℕ → ℤ
sub_ℕ a b = if leb b a then pos (a - b) else negsuc (b - a - 1)

infixl 65 ◌+ℤ◌ ◌-ℤ◌
infixl 70 ◌*ℤ◌
unfoldable pub ◌+ℤ◌ : ℤ → ℤ → ℤ
a +ℤ b = sub_ℕ (pos_part a + pos_part b) (neg_part a + neg_part b)

unfoldable pub ◌-ℤ◌ : ℤ → ℤ → ℤ
a -ℤ b = sub_ℕ (pos_part a + neg_part b) (neg_part a + pos_part b)

unfoldable pub ◌*ℤ◌ : ℤ → ℤ → ℤ
a *ℤ b =
    sub_ℕ (pos_part a * pos_part b + neg_part a * neg_part b)
      (pos_part a * neg_part b + neg_part a * pos_part b)

abbrev pub magnitude : ℤ → ℕ
magnitude a = pos_part a + neg_part a

abbrev pub is_negative : ℤ → Bool
is_negative (pos n) = false
is_negative (negsuc n) = true

-- m with this sign
abbrev pub signed : Bool → ℕ → ℤ
signed true m = sub_ℕ 0 m
signed false m = pos m

-- a / b and a % b of C, for b that is not 0
unfoldable pub quot : ℤ → ℤ → ℤ
quot a b =
    signed (if is_negative b then not (is_negative a) else is_negative a)
      (magnitude a / magnitude b)

unfoldable pub rem : ℤ → ℤ → ℤ
rem a b = signed (is_negative a) (magnitude a % magnitude b)

pub eq_of_parts : (a b : ℤ) → pos_part a + neg_part b ≡ pos_part b + neg_part a → a ≡ b
eq_of_parts a b h = ground arith

pub magnitude-signed : (n : Bool) (m : ℕ) → magnitude (signed n m) ≡ m
magnitude-signed true m = ground arith
magnitude-signed false m = omega arith

pub magnitude_add_le : (a b : ℤ) → magnitude (a +ℤ b) ≤ magnitude a + magnitude b
unfolding ◌+ℤ◌
magnitude_add_le a b = ground arith

pub magnitude_sub_le : (a b : ℤ) → magnitude (a -ℤ b) ≤ magnitude a + magnitude b
unfolding ◌-ℤ◌
magnitude_sub_le a b = ground arith

neg_part_sub : (m : ℕ) → neg_part (sub_ℕ 0 m) ≡ m
neg_part_sub m = ground arith

pos_part_sub : (m : ℕ) → pos_part (sub_ℕ 0 m) ≡ 0
pos_part_sub m = ground arith

-- A difference of two numbers, one of which is 0.
difference_pos : (x y z : ℕ) → x ≡ z → y ≡ 0 → sub_ℕ x y ≡ pos z
difference_pos x y z e d = ground (arith, e, d)

difference_neg : (x y z : ℕ) → x ≡ 0 → y ≡ z → sub_ℕ x y ≡ sub_ℕ 0 z
difference_neg x y z e d = rw (e, d) refl

mul_signed :
    (a : ℤ) (s : Bool) (q : ℕ)
    → a *ℤ signed s q ≡ signed (if is_negative a then not s else s) (magnitude a * q)
unfolding ◌*ℤ◌
mul_signed (pos m) false q = difference_pos _ _ _ (omega arith) (omega arith)
mul_signed (negsuc m) false q = difference_neg _ _ _ (omega arith) (omega arith)
mul_signed (pos m) true q =
    rw (pos_part_sub q, neg_part_sub q) (difference_neg _ _ _ (omega arith) (omega arith))
mul_signed (negsuc m) true q =
    rw (pos_part_sub q, neg_part_sub q) (difference_pos _ _ _ (omega arith) (omega arith))

add_signed : (s : Bool) (x y : ℕ) → signed s x +ℤ signed s y ≡ signed s (x + y)
unfolding ◌+ℤ◌
add_signed false x y = difference_pos _ _ _ (omega arith) (omega arith)
add_signed true x y = ground arith

pub signed_self : (a : ℤ) → signed (is_negative a) (magnitude a) ≡ a
signed_self (pos n) = ap pos (omega arith)
signed_self (negsuc n) = ground arith

pub magnitude_mul : (a b : ℤ) → magnitude (a *ℤ b) ≡ magnitude a * magnitude b
magnitude_mul a b =
    ap (λ (x : ℤ). magnitude (a *ℤ x)) (sym (signed_self b))
    ∙ ap magnitude (mul_signed a (is_negative b) (magnitude b))
    ∙ magnitude-signed _ _

pub magnitude-quot : (a b : ℤ) → magnitude (quot a b) ≡ magnitude a / magnitude b
unfolding quot
magnitude-quot a b =
    magnitude-signed (if is_negative b then not (is_negative a) else is_negative a)
      (magnitude a / magnitude b)

pub magnitude-quot_le : (a b : ℤ) → magnitude (quot a b) ≤ magnitude a
unfolding quot
magnitude-quot_le a b = omega (
  arith,
  magnitude-signed (if is_negative b then not (is_negative a) else is_negative a)
      (magnitude a / magnitude b),
  div-le_self (magnitude a) (magnitude b),
)

pub magnitude-rem_lt : (a b : ℤ) → 0 < magnitude b → magnitude (rem a b) < magnitude b
unfolding rem
magnitude-rem_lt a b p =
    omega
      (arith, magnitude-signed (is_negative a) (magnitude a % magnitude b), mod-lt (magnitude a) p)

pub signed-rem : (a b : ℤ) → rem a b ≡ signed (is_negative a) (magnitude (rem a b))
unfolding rem
signed-rem a b =
    ap (signed (is_negative a)) (sym (magnitude-signed (is_negative a) (magnitude a % magnitude b)))

-- A quotient and its remainder give the dividend back.
pub quot-rem : (a b : ℤ) → b *ℤ quot a b +ℤ rem a b ≡ a
unfolding quot rem
quot-rem a b =
    ap (λ (x : ℤ). x +ℤ signed (is_negative a) (magnitude a % magnitude b))
      (mul_signed b (if is_negative b then not (is_negative a) else is_negative a)
          (magnitude a / magnitude b)
        ∙ ap (λ (s : Bool). signed s (magnitude b * (magnitude a / magnitude b)))
            (twice (is_negative b) (is_negative a)))
    ∙ add_signed (is_negative a) (magnitude b * (magnitude a / magnitude b))
        (magnitude a % magnitude b)
    ∙ ap (signed (is_negative a)) (div-add-mod (magnitude a) (magnitude b))
    ∙ signed_self a
  where
    twice :
        (s t : Bool) → (if s then not (if s then not t else t) else (if s then not t else t)) ≡ t
    twice true true = refl
    twice true false = refl
    twice false t = refl
