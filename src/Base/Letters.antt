-- ===== src/Base/Letters.antt =====
-- ctype.h and strings.h in the C locale.
use Prim.Native.Nat.{ℕ, ◌+◌}
use mathlib.Core.Bool.{Bool, true, false, ◌&&◌, ◌||◌}
use mathlib.Core.Option.{Option, none, some}
use mathlib.Core.List.{List, [], ◌∷◌}
use digit.Base.Tests.{leb, ◌==◌, if◌then◌else◌}
use digit.Base.Bytes.{Text}
use digit.Base.Decimal.{is_digit}

-- tolower
abbrev pub lower : ℕ → ℕ
lower c = if leb b'A' c && leb c b'Z' then c + 32 else c

-- isalnum
unfoldable pub is_alnum : ℕ → Bool
unfolding is_digit
is_alnum c = is_digit c || (leb b'a' (lower c) && leb (lower c) b'z')

-- strncasecmp (s, key, strlen (key)) == 0, and what follows the key
unfoldable pub after_key : Text → Text → Option Text
after_key [] s = some s
after_key (k ∷ key) [] = none
after_key (k ∷ key) (c ∷ s) = if lower c == lower k then after_key key s else none

-- The character that follows a word may not go on with it.
unfoldable pub ends_word : Text → Bool
unfolding is_alnum
ends_word [] = true
ends_word (c ∷ s) = if is_alnum c || (c == b'_') then false else true

abbrev whole : {A : Type 0} → A → Option Text → Option (A × Text) → Option (A × Text)
whole a none later = later
whole a (some rest) later = if ends_word rest then some (a, rest) else later

-- The first of these words that stands here whole, and what follows it.
unfoldable pub first_word : {A : Type 0} → List (Text × A) → Text → Option (A × Text)
unfolding after_key ends_word
first_word [] s = none
first_word ((key, a) ∷ keys) s = whole a (after_key key s) (first_word keys s)
