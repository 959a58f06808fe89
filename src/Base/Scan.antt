-- ===== src/Base/Scan.antt =====
-- The conversions of sscanf that the program uses, as partial functions on the text that is left.
-- A conversion that fails ends the scan. A number out of range has no meaning in C; the saturation
-- of glibc's strtoul is written out here, and no theorem rests on it.
pub mod Laws
pub mod Tabs
use Prim.Native.Nat.{ℕ, zero, suc, ◌+◌, ◌-◌, ◌%◌, ◌^◌, ◌≤◌, ◌<◌, min}
use mathlib.Core.Path.{◌≡◌, refl, ap, ◌∙◌}
use mathlib.Core.Logic.{◌≢◌, inl, inr}
use mathlib.Core.Bool.{Bool, true, false, ◌&&◌, ◌||◌}
use mathlib.Core.Option.{Option, none, some}
use mathlib.Core.List.{List, [], ◌∷◌, ◌++◌}
use native.Mathlib.Omega.{arith}
use digit.Base.Tests.{ltb, leb, ◌==◌, if◌then◌else◌, Bool-cases}
use digit.Base.Lists.{length, All}
use digit.Base.Bytes.{Text}
use digit.Base.Decimal.{
  is_digit, to_dec, dec_value, span_digits, IsDigits, EndsNumber, to_dec-IsDigits, dec_value-to_dec,
  length-to_dec-pos, span_digits-append,
}

abbrev pub Scan : Type 0 → Type 0
Scan A = Text → Option (A × Text)

abbrev pub pure : {A : Type 0} → A → Scan A
pure a s = some (a, s)

infixl 5 ◌>>=◌ ◌>>◌
abbrev pub ◌>>=◌ : {A B : Type 0} → Scan A → (A → Scan B) → Scan B
◌>>=◌ m f s = elim (m s) [ none ↦ none | some (a, rest) ↦ f a rest ]

abbrev pub ◌>>◌ : {B : Type 0} → Scan (Unit {0}) → Scan B → Scan B
m >> k = m >>= λ _. k

-- isspace
unfoldable pub is_space : ℕ → Bool
is_space c = (c == 32) || (leb 9 c && leb c 13)

unfoldable pub skip_spaces : Text → Text
skip_spaces [] = []
skip_spaces (c ∷ s) = if is_space c then skip_spaces s else c ∷ s

-- A white-space directive of the format: it matches any run of white space, the empty one included.
unfoldable pub spaces : Scan (Unit {0})
unfolding skip_spaces
spaces s = some (tt, skip_spaces s)

-- An ordinary character of the format.
unfoldable pub literal : ℕ → Scan (Unit {0})
literal c [] = none
literal c (d ∷ s) = if c == d then some (tt, s) else none

-- At most `width` characters before the first that is `stop`.
unfoldable pub span_until : ℕ → ℕ → Text → Text × Text
span_until zero stop s = ([], s)
span_until (suc width) stop [] = ([], [])
span_until (suc width) stop (c ∷ s) =
    let (run, rest) = span_until width stop s in if c == stop then ([], c ∷ s) else (c ∷ run, rest)

-- %<width>[^<stop>]: at least one character is needed.
abbrev pub nonempty : Text × Text → Option (Text × Text)
nonempty ([], rest) = none
nonempty (c ∷ run, rest) = some (c ∷ run, rest)

unfoldable pub until : ℕ → ℕ → Scan Text
unfolding span_until
until width stop s = nonempty (span_until width stop s)

-- %<width>s: white space is skipped, and at least one other character is needed.
unfoldable pub span_word : ℕ → Text → Text × Text
span_word zero s = ([], s)
span_word (suc width) [] = ([], [])
span_word (suc width) (c ∷ s) =
    let (run, rest) = span_word width s in if is_space c then ([], c ∷ s) else (c ∷ run, rest)

unfoldable pub word : ℕ → Scan Text
unfolding span_word skip_spaces
word width s = nonempty (span_word width (skip_spaces s))

abbrev pub sign : Text → Bool × Text
sign [] = (false, [])
sign (c ∷ s) = if c == b'-' then (true, s) else if c == b'+' then (false, s) else (false, c ∷ s)

-- strtoul in 64 bits, cut to `bits`
unfoldable pub to_unsigned : ℕ → Bool → ℕ → ℕ
to_unsigned bits negative n =
    (if negative && ltb n (2 ^ 64) then 2 ^ 64 - n else min n (2 ^ 64 - 1)) % 2 ^ bits

-- strtol in 64 bits, cut to the 32-bit pattern of an int
unfoldable pub to_int : Bool → ℕ → ℕ
to_int negative n = (if negative then 2 ^ 64 - min n (2 ^ 63) else min n (2 ^ 63 - 1)) % 2 ^ 32

abbrev number_of : (Bool → ℕ → ℕ) → Bool → Text × Text → Option (ℕ × Text)
number_of convert negative ([], rest) = none
number_of convert negative (d ∷ ds, rest) = some (convert negative (dec_value 0 (d ∷ ds)), rest)

number_after : (Bool → ℕ → ℕ) → Bool × Text → Option (ℕ × Text)
number_after convert (negative, s) = number_of convert negative (span_digits s)

number : (Bool → ℕ → ℕ) → Scan ℕ
unfolding number_after skip_spaces
number convert s = number_after convert (sign (skip_spaces s))

-- %u, %llu and %d
unfoldable pub unsigned_int : Scan ℕ
unfolding number
unsigned_int = number (to_unsigned 32)

unfoldable pub unsigned_long_long : Scan ℕ
unfolding number
unsigned_long_long = number (to_unsigned 64)

unfoldable pub int : Scan ℕ
unfolding number
int = number to_int
