-- ===== src/CoreSa.antt =====
-- src/core_sa.c: who is a system administrator of an organization. The roster is read anew for each
-- decision; a roster that is malformed, ambiguous, unprotected or changed meanwhile grants nothing.
pub mod Decision
mod Examples
use digit.Base.{
  ℕ, zero, suc, ◌+◌, ◌-◌, ◌*◌, Bool, true, false, not, ◌&&◌, ◌||◌, Option, none, some, List, [],
  ◌∷◌, length, all, min, Text, text, str_eq, has_char, ltb, leb, ◌==◌, if◌then◌else◌,
}
use digit.Base.File.{fgets_lines, c_string}

abbrev pub is_ident_char : ℕ → Bool
is_ident_char c =
    (leb b'a' c && leb c b'z')
    || (leb b'A' c && leb c b'Z')
    || (leb b'0' c && leb c b'9')
    || (c == b'-')
    || (c == b'_')
    || (c == b'.')

-- sa_ident; `none` is a null pointer.
unfoldable pub sa_ident : Option Text → Bool
sa_ident none = false
sa_ident (some s) = not (length s == 0) && not (leb 64 (length s)) && all is_ident_char s

-- strchr (p, '\t'), and the text before and behind it
abbrev cut_before : ℕ → Option (Text × Text) → Option (Text × Text)
cut_before c none = none
cut_before c (some (field, rest)) = some (c ∷ field, rest)

unfoldable pub cut : Text → Option (Text × Text)
cut [] = none
cut (c ∷ p) = if c == 9 then some ([], p) else cut_before c (cut p)

-- The fields of a line behind `n` tabs.
unfoldable pub fields : ℕ → Text → Option (List Text)
unfolding cut
fields zero p = some (p ∷ [])
fields (suc n) p = elim (cut p) [
  | none ↦ none
  | some (field, rest) ↦ elim (fields n rest) [ none ↦ none | some more ↦ some (field ∷ more) ]
]

-- field[0] … field[5]
pub record Row : Type 0 where
  pub identity : Text
  pub organization : Text
  pub role : Text
  pub flag3 : Text
  pub flag4 : Text
  pub flag5 : Text

abbrev row_of : List Text → Option Row
row_of (a ∷ b ∷ c ∷ d ∷ e ∷ f ∷ []) =
    some (record { identity = a; organization = b; role = c; flag3 = d; flag4 = e; flag5 = f })
row_of _ = none

abbrev is_flag : Text → Bool
is_flag s = str_eq s (text "0") || str_eq s (text "1")

unfoldable pub is_valid : Row → Bool
unfolding sa_ident
is_valid row =
    not (has_char 9 row.flag5)
    && sa_ident (some row.identity)
    && sa_ident (some row.organization)
    && (str_eq row.role (text "SA") || str_eq row.role (text "ADMIN"))
    && is_flag row.flag3
    && is_flag row.flag4
    && is_flag row.flag5

abbrev valid_row : Option Row → Option Row
valid_row none = none
valid_row (some row) = if is_valid row then some row else none

abbrev fields_of : Option (List Text) → Option Row
fields_of none = none
fields_of (some fs) = row_of fs

-- The line without its last character, if that is a line end.
abbrev line_cons : ℕ → Option Text → Option Text
line_cons c none = none
line_cons c (some s) = some (c ∷ s)

unfoldable pub without_line_end : Text → Option Text
without_line_end [] = none
without_line_end (c ∷ []) = if c == 10 then some [] else none
without_line_end (c ∷ d ∷ s) = line_cons c (without_line_end (d ∷ s))

abbrev row_in : Option Text → Option Row
row_in none = none
row_in (some line) = valid_row (fields_of (fields 5 line))

-- The row of one buffer; `none` is `invalid = 1`.
unfoldable pub parse_row : Text → Option Row
unfolding fields is_valid without_line_end
parse_row buffer = row_in (without_line_end (c_string buffer))

unfoldable pub concerns : Text → Text → Row → Bool
concerns organization identity row =
    str_eq row.identity identity && str_eq row.organization organization

unfoldable pub grants : Row → Bool
grants row =
    str_eq row.role (text "SA")
    && str_eq row.flag3 (text "1")
    && str_eq row.flag4 (text "1")
    && str_eq row.flag5 (text "1")

-- One round of the loop: `kept` is the rest of it as it stands, `taken` the rest behind this row.
abbrev pub scan_row :
    Text → Text → Option Row → ℕ → Option (ℕ × Bool) → (Row → Option (ℕ × Bool)) → Option (ℕ × Bool)
scan_row organization identity none found kept taken = none
scan_row organization identity (some row) found kept taken =
    if not (concerns organization identity row)
    then kept
    else if ltb 1 (found + 1)
    then none
    else taken row

-- The loop, with `found` and `authorized`; `none` is `invalid`.
unfoldable pub scan_rows : Text → Text → List Text → ℕ → Bool → Option (ℕ × Bool)
unfolding concerns
scan_rows organization identity [] found authorized = some (found, authorized)
scan_rows organization identity (line ∷ lines) found authorized =
    scan_row organization identity (parse_row line) found
      (scan_rows organization identity lines found authorized)
      (λ row. scan_rows organization identity lines (found + 1) (grants row))

-- struct stat; `is_private` is (st_mode & 077) == 0, and a time counts its nanoseconds.
pub record Status : Type 0 where
  pub is_regular : Bool
  pub links : ℕ
  pub size : ℕ
  pub is_private : Bool
  pub uid : ℕ
  pub device : ℕ
  pub inode : ℕ
  pub modified : ℕ × ℕ
  pub changed : ℕ × ℕ

abbrev owned : ℕ → Status → Bool
owned euid st = (st.uid == 0) || (st.uid == euid)

-- The roster's file when it is opened.
unfoldable pub is_protected : ℕ → Status → Bool
is_protected euid st =
    st.is_regular
    && (st.links == 1)
    && not (st.size == 0)
    && leb st.size (8 * 1024 * 1024)
    && st.is_private
    && owned euid st

abbrev same_time : ℕ × ℕ → ℕ × ℕ → Bool
same_time (s, n) (t, m) = (s == t) && (n == m)

-- The file afterwards, through the stream or through its name, is the one that was opened.
unfoldable pub is_unchanged : ℕ → Status → Option Status → Bool
is_unchanged euid st none = false
is_unchanged euid st (some later) =
    later.is_regular
    && (later.links == 1)
    && later.is_private
    && owned euid later
    && (later.device == st.device)
    && (later.inode == st.inode)
    && (later.size == st.size)
    && same_time later.modified st.modified
    && same_time later.changed st.changed

-- What the system gave for one decision: the status at the open, the bytes that were read, whether a
-- read failed, the status afterwards through the stream and through the name, and the close.
pub record Roster : Type 0 where
  pub status : Option Status
  pub content : Text
  pub read_error : Bool
  pub after : Option Status
  pub named : Option Status
  pub closes : Bool

abbrev pub accepts : Option (ℕ × Bool) → Bool
accepts none = false
accepts (some (found, authorized)) = (found == 1) && authorized

abbrev status_holds : ℕ → Option Status → (Status → Bool) → Bool
status_holds euid none test = false
status_holds euid (some st) test = is_protected euid st && test st

-- digit_core_sa_verify; no roster is one that could not be opened without following a link.
abbrev decide : ℕ → Text → Text → Option Roster → Bool
decide euid organization identity none = false
decide euid organization identity (some roster) = status_holds euid roster.status λ st.
    accepts (scan_rows organization identity (fgets_lines 512 roster.content) 0 false)
    && not roster.read_error
    && is_unchanged euid st roster.after
    && is_unchanged euid st roster.named
    && roster.closes

unfoldable pub verify : ℕ → Option Roster → Text → Text → Bool
unfolding sa_ident scan_rows is_protected is_unchanged
verify euid roster organization identity =
    sa_ident (some organization)
    && sa_ident (some identity)
    && not (str_eq identity (text "digit"))
    && decide euid organization identity roster
