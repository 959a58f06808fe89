-- ===== src/Arithmetic/SquareRoot.antt =====
-- modules/arithmetic/src/arithmetic.c: the square root of the discriminant, poly_isqrt.
use digit.Base.{
  ℕ, subst, sym, zero, suc, ◌+◌, ◌-◌, ◌*◌, ◌/◌, ◌^◌, ◌<◌, ◌≤◌, ◌≡◌, true, false, if◌then◌else◌,
  Option, none, some, refl, ltb, leb, arith, Bool-cases, inl, inr,
}
use native.Mathlib.Nat.{le-div_iff_mul-le, div-lt_iff_lt-mul, pow-suc}

-- The loop on [lo, hi]; a round halves the interval, and `none` is a loop that still runs.
unfoldable pub root_between : ℕ → ℕ → ℕ → ℕ → Option ℕ
root_between zero n lo hi = none
root_between (suc fuel) n lo hi =
    let mid = lo + (hi - lo + 1) / 2 in
    let upper = root_between fuel n mid hi in
    let lower = root_between fuel n lo (mid - 1) in
    if ltb lo hi then (if leb mid (n / mid) then upper else lower) else some lo

-- poly_isqrt
unfoldable pub poly_isqrt : ℕ → Option ℕ
unfolding root_between
poly_isqrt n = root_between 31 n 0 1000000000

-- One test of the loop.
below_root : (n mid : ℕ) → 0 < mid → leb mid (n / mid) ≡ true → mid * mid ≤ n
below_root n mid pos e = (le-div_iff_mul-le pos).0 (ground (arith, e))

above_root : (n mid : ℕ) → 0 < mid → leb mid (n / mid) ≡ false → n < mid * mid
above_root n mid pos e = (div-lt_iff_lt-mul pos).0 (ground (arith, e))

-- The whole numbers that have their square on either side of n.
abbrev pub IsRoot : ℕ → ℕ → Type 0
IsRoot n r = (r * r ≤ n) × (n < (r + 1) * (r + 1))

-- The loop has ended, with that number.
abbrev pub HasRoot : ℕ → Option ℕ → Type 0
HasRoot n result = (r : ℕ) × (result ≡ some r) × IsRoot n r

root_between-HasRoot :
    (fuel n lo hi : ℕ)
    → lo ≤ hi
    → hi - lo < 2 ^ fuel
    → lo * lo ≤ n
    → n < (hi + 1) * (hi + 1)
    → HasRoot n (root_between (suc fuel) n lo hi)
unfolding root_between
root_between-HasRoot zero n lo hi order near low high =
    let same : hi ≡ lo = omega (arith, order, near) in
    let done : ltb lo hi ≡ false = ground (arith, same) in
    rw done (lo, refl, (low, subst (λ (h : ℕ). n < (h + 1) * (h + 1)) same high))
root_between-HasRoot (suc fuel) n lo hi order near low high = elim (Bool-cases (ltb lo hi)) [
  | inr done ↦
      let same : hi ≡ lo = ground (arith, order, done) in
      rw done (lo, refl, (low, subst (λ (h : ℕ). n < (h + 1) * (h + 1)) same high))
  | inl more ↦
      let apart : lo < hi = ground (arith, more) in
      let halves = pow-suc 2 fuel in
      let pos : 0 < lo + (hi - lo + 1) / 2 = omega (arith, apart) in
      let back : lo + (hi - lo + 1) / 2 - 1 + 1 ≡ lo + (hi - lo + 1) / 2 = omega (arith, apart) in
      elim (Bool-cases (leb (lo + (hi - lo + 1) / 2) (n / (lo + (hi - lo + 1) / 2)))) [
        | inl up ↦
            rw (more, up)
              (root_between-HasRoot fuel n (lo + (hi - lo + 1) / 2) hi (omega (arith, apart))
                (omega (arith, apart, near, halves)) (below_root n (lo + (hi - lo + 1) / 2) pos up)
                high)
        | inr down ↦
            rw (more, down)
              (root_between-HasRoot fuel n lo (lo + (hi - lo + 1) / 2 - 1) (omega (arith, apart))
                (omega (arith, apart, near, halves)) low
                (subst (λ (h : ℕ). n < h * h) (sym back)
                  (above_root n (lo + (hi - lo + 1) / 2) pos down)))
      ]
]

-- Below the square of a thousand million and one, the loop ends within 31 tests of its condition, with
-- the whole part of the square root.
pub poly_isqrt-HasRoot : (n : ℕ) → n < 1000000001 * 1000000001 → HasRoot n (poly_isqrt n)
unfolding poly_isqrt
poly_isqrt-HasRoot n bound =
    root_between-HasRoot 30 n 0 1000000000 (omega arith) (omega arith) (omega arith)
      (omega (arith, bound))
