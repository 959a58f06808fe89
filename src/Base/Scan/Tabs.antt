-- ===== src/Base/Scan/Tabs.antt =====
-- A tab of a format, in front of what does not begin with white space.
use Prim.Native.Nat.{ℕ, zero, suc, ◌<◌, ◌≤◌}
use mathlib.Core.Path.{◌≡◌, refl, ap}
use mathlib.Core.Bool.{false}
use mathlib.Core.List.{[], ◌∷◌, ◌++◌}
use mathlib.Core.Option.{some}
use native.Mathlib.Omega.{arith}
use digit.Base.Lists.{length}
use digit.Base.Bytes.{Text}
use digit.Base.Decimal.{to_dec, is_digit, IsDigits, EndsNumber, to_dec-IsDigits, length-to_dec-pos}
use digit.Base.Scan.{Scan, ◌>>◌, spaces, skip_spaces, is_space, word, span_word}
use digit.Base.Scan.Laws.{StartsSolid, skip_spaces-solid}

pub space_eq : {B : Type 0} (k : Scan B) (s : Text) → StartsSolid s → (spaces >> k) (9 ∷ s) ≡ k s
unfolding spaces skip_spaces is_space
space_eq k s solid = ap k (skip_spaces-solid s solid)

solid_digits : (ds rest : Text) → 0 < length ds → IsDigits ds → StartsSolid (ds ++ rest)
unfolding is_space is_digit
solid_digits [] rest p d = absurd (omega arith)
solid_digits (c ∷ ds) rest p d = ground (arith, d.0)

pub solid_name : (s rest : Text) → 0 < length s → StartsSolid s → StartsSolid (s ++ rest)
solid_name [] rest p d = absurd (omega arith)
solid_name (c ∷ s) rest p d = d

pub solid_number : (n : ℕ) (rest : Text) → StartsSolid (to_dec n ++ rest)
solid_number n rest = solid_digits (to_dec n) rest (length-to_dec-pos n) (to_dec-IsDigits n)

pub tab_ends : (s : Text) → EndsNumber (9 ∷ s)
unfolding is_digit
tab_ends s = refl

pub line_ends : (s : Text) → EndsNumber (10 ∷ s)
unfolding is_digit
line_ends s = refl

-- No character of a text is white space.
abbrev pub IsWord : Text → Type 0
IsWord [] = Unit
IsWord (c ∷ s) = (is_space c ≡ false) × IsWord s

span_word-tab :
    (width : ℕ) (s rest : Text)
    → length s ≤ width
    → IsWord s
    → span_word width (s ++ (9 ∷ rest)) ≡ (s, 9 ∷ rest)
unfolding span_word is_space
span_word-tab zero [] rest le w = refl
span_word-tab (suc width) [] rest le w = refl
span_word-tab zero (c ∷ s) rest le w = absurd (omega (arith, le))
span_word-tab (suc width) (c ∷ s) rest le (solid, w) =
    rw (span_word-tab width s rest (omega (arith, le)) w, solid)

pub word-tab :
    (width : ℕ) (s rest : Text)
    → 0 < length s
    → length s ≤ width
    → IsWord s
    → word width (s ++ (9 ∷ rest)) ≡ some (s, 9 ∷ rest)
unfolding word
word-tab width [] rest pos le w = absurd (omega arith)
word-tab width (c ∷ s) rest pos le (solid, w) = rw (
  skip_spaces-solid (c ∷ (s ++ (9 ∷ rest))) solid,
  span_word-tab width (c ∷ s) rest le (solid, w),
)
