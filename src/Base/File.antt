-- ===== src/Base/File.antt =====
-- Files read line by line with fgets, and the C string at the front of a buffer.
use Prim.Native.Nat.{ℕ, ◌-◌, ◌<◌}
use mathlib.Core.Path.{◌≡◌, refl}
use mathlib.Core.Bool.{false, ◌||◌}
use mathlib.Core.List.{List, [], ◌∷◌, ◌++◌}
use native.Mathlib.Omega.{arith}
use digit.Base.Tests.{leb, ◌==◌, if◌then◌else◌}
use digit.Base.Lists.{length}
use digit.Base.Bytes.{Text, has_char}

-- A byte joins the line that is being read; it is the last of the file if no line follows.
abbrev join : ℕ → List Text → List Text
join c [] = (c ∷ []) ∷ []
join c (line ∷ lines) = (c ∷ line) ∷ lines

lines_from : ℕ → ℕ → Text → List Text
lines_from cap room [] = []
lines_from cap room (c ∷ s) =
    let full = (c == 10) || leb room 1 in
    let rest = lines_from cap (if full then cap else room - 1) s in
    if full then (c ∷ []) ∷ rest else join c rest

-- What successive calls of fgets on a buffer of `size` bytes return, to the end of the file.
unfoldable pub fgets_lines : ℕ → Text → List Text
unfolding lines_from
fgets_lines size content = lines_from (size - 1) (size - 1) content

-- The C string at the front of a buffer ends at the first NUL.
unfoldable pub c_string : Text → Text
c_string [] = []
c_string (c ∷ s) = if c == 0 then [] else c ∷ c_string s

pub c_string_self : (s : Text) → has_char 0 s ≡ false → c_string s ≡ s
unfolding c_string has_char
c_string_self [] h = refl
c_string_self (c ∷ s) h = ground (arith, c_string_self s)

lines_from-line :
    (cap room : ℕ) (line rest : Text)
    → length line < room
    → has_char 10 line ≡ false
    → lines_from cap room (line ++ 10 ∷ rest) ≡ (line ++ 10 ∷ []) ∷ lines_from cap cap rest
unfolding lines_from has_char
lines_from-line cap room [] rest h l = refl
lines_from-line cap room (c ∷ line) rest h l =
    ground (arith, lines_from-line cap (room - 1) line rest)

-- A line that fits the buffer is read as one line.
pub fgets_lines-line :
    (size : ℕ) (line rest : Text)
    → length line < size - 1
    → has_char 10 line ≡ false
    → fgets_lines size (line ++ 10 ∷ rest) ≡ (line ++ 10 ∷ []) ∷ fgets_lines size rest
unfolding fgets_lines
fgets_lines-line size line rest h l = lines_from-line (size - 1) (size - 1) line rest h l

pub fgets_lines-empty : (size : ℕ) → fgets_lines size [] ≡ []
unfolding fgets_lines
fgets_lines-empty size = refl
