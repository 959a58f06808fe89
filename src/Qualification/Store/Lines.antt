-- ===== src/Qualification/Store/Lines.antt =====
-- src/qualification_store.c: the printed line of an entry, byte by byte.
use digit.Base.{
  ℕ, ◌^◌, ◌≤◌, ◌<◌, ◌≡◌, refl, false, [], ◌∷◌, ◌++◌, append_assoc, length, length-append, Text,
  ◌==◌, arith, has_char, has_char-append,
}
use digit.Base.Decimal.{
  is_digit, to_dec, IsDigits, to_dec-IsDigits, has_char-digits, length-to_dec-le,
}
use digit.Qualification.{Entry, is_empty}
use digit.Qualification.Store.{strip_line_end, is_skipped, print_entry}

-- An entry that the file can hold: its name has at most 63 bytes, begins with no '#', and has no
-- separator, line end or NUL.
pub record IsStorable (id_max : ℕ) (e : Entry) : Type 0 where
  pub short : length e.module_id ≤ 63
  pub fits : length e.module_id < id_max
  pub shown : is_skipped e.module_id ≡ false
  pub no_bar : has_char b'|' e.module_id ≡ false
  pub no_line_end : has_char 10 e.module_id ≡ false
  pub no_nul : has_char 0 e.module_id ≡ false
  pub major : e.version_major < 2 ^ 32
  pub minor : e.version_minor < 2 ^ 32
  pub patch : e.version_patch < 2 ^ 32

unfoldable pub versions : Entry → Text
versions e =
    to_dec e.version_major ++ (b'|' ∷ (to_dec e.version_minor ++ (b'|' ∷ to_dec e.version_patch)))

unfoldable pub body : Entry → Text
body e = e.module_id ++ (b'|' ∷ versions e)

pub print_entry-append : (e : Entry) (rest : Text) → print_entry e ++ rest ≡ body e ++ 10 ∷ rest
unfolding print_entry body versions
print_entry-append e rest = simp append_assoc

no_char-versions :
    (c : ℕ) (e : Entry) → is_digit c ≡ false → (c == b'|') ≡ false → has_char c (versions e) ≡ false
unfolding versions has_char
no_char-versions c e h bar = rw (
  has_char-append c (to_dec e.version_major) _,
  has_char-digits c (to_dec e.version_major) h (to_dec-IsDigits e.version_major),
  bar,
  has_char-append c (to_dec e.version_minor) _,
  has_char-digits c (to_dec e.version_minor) h (to_dec-IsDigits e.version_minor),
  bar,
  has_char-digits c (to_dec e.version_patch) h (to_dec-IsDigits e.version_patch),
)

pub no_char-body :
    (c : ℕ) (e : Entry)
    → is_digit c ≡ false
    → (c == b'|') ≡ false
    → has_char c e.module_id ≡ false
    → has_char c (body e) ≡ false
unfolding body has_char
no_char-body c e h bar name =
    rw (has_char-append c e.module_id _, name, bar) (no_char-versions c e h bar)

pub length-body : (id_max : ℕ) (e : Entry) → IsStorable id_max e → length (body e) < 511
unfolding body versions
length-body id_max e st = omega (
  arith,
  length-append e.module_id (b'|' ∷ versions e),
  length-append (to_dec e.version_major)
      (b'|' ∷ (to_dec e.version_minor ++ (b'|' ∷ to_dec e.version_patch))),
  length-append (to_dec e.version_minor) (b'|' ∷ to_dec e.version_patch),
  length-to_dec-le 9 e.version_major (omega (arith, st.major)),
  length-to_dec-le 9 e.version_minor (omega (arith, st.minor)),
  length-to_dec-le 9 e.version_patch (omega (arith, st.patch)),
)

pub strip-digits : (ds : Text) → IsDigits ds → strip_line_end (ds ++ 10 ∷ []) ≡ ds
unfolding strip_line_end
strip-digits [] h = refl
strip-digits (d ∷ ds) h =
    let lf : (d == 10) ≡ false = unfold is_digit in ground (arith, h.0) in
    let cr : (d == 13) ≡ false = unfold is_digit in ground (arith, h.0) in
    rw (strip-digits ds h.1, lf, cr)

pub strip-append :
    (s t : Text)
    → is_empty (strip_line_end t) ≡ false
    → strip_line_end (s ++ t) ≡ s ++ strip_line_end t
unfolding strip_line_end
strip-append [] t h = refl
strip-append (c ∷ s) t h = ground (arith, strip-append s t h, nonempty s)
  where
    nonempty : (s : Text) → is_empty (s ++ strip_line_end t) ≡ false
    nonempty [] = h
    nonempty (c ∷ s) = refl
