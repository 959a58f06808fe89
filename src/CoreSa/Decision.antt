-- ===== src/CoreSa/Decision.antt =====
-- src/core_sa.c: the decision against an independent reading of the roster.
use digit.Base.{
  ℕ, suc, ◌+◌, ◌≡◌, ◌↔◌, refl, sym, ap, ◌∙◌, Bool, true, false, not, ◌&&◌, Option, none, some, List,
  [], ◌∷◌, Text, text, str_eq, ◌==◌, arith, Option-cases, inl, inr, if◌then◌else◌, some_inj,
}
use digit.Base.File.{fgets_lines}
use digit.CoreSa.{
  status_holds, scan_row, Row, parse_row, concerns, grants, scan_rows, Status, Roster, sa_ident,
  is_protected, is_unchanged, accepts, verify,
}

-- All rows of a roster without a malformed line.
abbrev with_row : Option Row → Option (List Row) → Option (List Row)
with_row (some row) (some rows) = some (row ∷ rows)
with_row _ _ = none

abbrev pub rows_of : List Text → Option (List Row)
rows_of [] = some []
rows_of (line ∷ lines) = with_row (parse_row line) (rows_of lines)

-- The rows about one identity in one organization.
abbrev pub rows_about : Text → Text → List Row → List Row
rows_about organization identity [] = []
rows_about organization identity (row ∷ rows) =
    if concerns organization identity row
    then row ∷ rows_about organization identity rows
    else rows_about organization identity rows

-- The roster is well formed as a whole, and exactly one of its rows is about the identity; that one
-- grants.
abbrev pub IsGranted : Text → Text → List Text → Type 0
IsGranted organization identity lines =
    (rows : List Row) × (row : Row) × (rows_of lines ≡ some rows)
    × (rows_about organization identity rows ≡ row ∷ [])
    × (grants row ≡ true)

module _ (organization identity : Text) where
  -- What the loop gives on rows that are all well formed.
  abbrev tally : List Row → ℕ → Bool → Option (ℕ × Bool)
  tally [] found authorized = some (found, authorized)
  tally (row ∷ rows) found authorized =
      if found == 0 then tally rows (found + 1) (grants row) else none

  scan_malformed :
      (lines : List Text) (found : ℕ) (authorized : Bool)
      → rows_of lines ≡ none
      → scan_rows organization identity lines found authorized ≡ none
  unfolding scan_rows
  scan_malformed [] found authorized e = ground (arith, e)
  scan_malformed (line ∷ lines) found authorized e =
      go (λ f b r. scan_malformed lines f b r) (parse_row line) (rows_of lines) refl e
    where
      go :
          ((f : ℕ) (b : Bool)
            → rows_of lines ≡ none
            → scan_rows organization identity lines f b ≡ none)
          → (o : Option Row) (rest : Option (List Row)) → rows_of lines ≡ rest
          → with_row o rest ≡ none
          → scan_row organization identity o found
              (scan_rows organization identity lines found authorized)
              (λ row. scan_rows organization identity lines (found + 1) (grants row))
            ≡ none
      go rec none rest r w = refl
      go rec (some row) (some rows) r w = cc
      go rec (some row) none r w =
          let kept = rec found authorized r in
          let taken = rec (found + 1) (grants row) r in ground (arith, kept, taken)

  scan_formed :
      (lines : List Text) (rows : List Row) (found : ℕ) (authorized : Bool)
      → rows_of lines ≡ some rows
      → scan_rows organization identity lines found authorized
        ≡ tally (rows_about organization identity rows) found authorized
  unfolding scan_rows
  scan_formed [] [] found authorized e = refl
  scan_formed [] (r ∷ rows) found authorized e = cc
  scan_formed (line ∷ lines) rows found authorized e =
      go (λ more f b r. scan_formed lines more f b r) (parse_row line) (rows_of lines) refl e
    where
      go :
          ((more : List Row) (f : ℕ) (b : Bool)
            → rows_of lines ≡ some more
            → scan_rows organization identity lines f b
              ≡ tally (rows_about organization identity more) f b)
          → (o : Option Row) (rest : Option (List Row)) → rows_of lines ≡ rest
          → with_row o rest ≡ some rows
          → scan_row organization identity o found
              (scan_rows organization identity lines found authorized)
              (λ row. scan_rows organization identity lines (found + 1) (grants row))
            ≡ tally (rows_about organization identity rows) found authorized
      go rec none rest r w = cc
      go rec (some row) none r w = cc
      go rec (some row) (some more) r w =
          let now : row ∷ more ≡ rows = some_inj w in
          let kept = rec more found authorized r in
          let taken = rec more (found + 1) (grants row) r in
          rw (← now) (ground (arith, kept, taken))

  tally_many :
      (rows : List Row) (row : Row) (found : ℕ) (b : Bool) → tally (row ∷ rows) (suc found) b ≡ none
  tally_many rows row found b = ground arith

  tally-accepts :
      (rows : List Row)
      → accepts (tally rows 0 false) ≡ true
      → (row : Row) × (rows ≡ row ∷ []) × (grants row ≡ true)
  tally-accepts [] e = cc
  tally-accepts (row ∷ []) e = (row, refl, e)
  tally-accepts (row ∷ next ∷ rows) e = cc

  scan-IsGranted :
      (lines : List Text)
      → (accepts (scan_rows organization identity lines 0 false) ≡ true)
        ↔ IsGranted organization identity lines
  scan-IsGranted lines = (to, from)
    where
      to :
          accepts (scan_rows organization identity lines 0 false) ≡ true
          → IsGranted organization identity lines
      to e = elim (Option-cases (rows_of lines)) [
        | inl bad ↦ let none' = rw (scan_malformed lines 0 false bad) at e in cc
        | inr (rows, good) ↦
            let (row, only, g) =
              tally-accepts (rows_about organization identity rows)
                (rw (scan_formed lines rows 0 false good) at e) in
            (rows, row, good, only, g)
      ]

      from :
          IsGranted organization identity lines
          → accepts (scan_rows organization identity lines 0 false) ≡ true
      from (rows, row, good, only, g) = rw (scan_formed lines rows 0 false good, only) g

-- The status that a protected and unchanged roster has, and its content grants.
abbrev pub IsAuthorized : ℕ → Option Roster → Text → Text → Type 0
IsAuthorized euid opened organization identity =
    (roster : Roster) × (st : Status) × (opened ≡ some roster)
    × (roster.status ≡ some st)
    × (is_protected euid st ≡ true)
    × (is_unchanged euid st roster.after ≡ true)
    × (is_unchanged euid st roster.named ≡ true)
    × (roster.read_error ≡ false)
    × (roster.closes ≡ true)
    × (sa_ident (some organization) ≡ true)
    × (sa_ident (some identity) ≡ true)
    × (str_eq identity (text "digit") ≡ false)
    × IsGranted organization identity (fgets_lines 512 roster.content)

-- The tests of the decision, one after the other.
all_tests : (a b d p g e u n c : Bool) → Bool
all_tests a b d p g e u n c = a && b && not d && (p && (g && not e && u && n && c))

all_tests_iff :
    (a b d p g e u n c : Bool)
    → (all_tests a b d p g e u n c ≡ true) ↔ (
        (a ≡ true)
        × (b ≡ true)
        × (d ≡ false)
        × (p ≡ true)
        × (g ≡ true)
        × (e ≡ false)
        × (u ≡ true)
        × (n ≡ true)
        × (c ≡ true))
unfolding all_tests
all_tests_iff a b d p g e u n c = ground arith

module _ (euid : ℕ) (organization identity : Text) where
  verify_tests :
      (roster : Roster) (st : Status)
      → roster.status ≡ some st
      → verify euid (some roster) organization identity
        ≡ all_tests
            (sa_ident (some organization))
            (sa_ident (some identity))
            (str_eq identity (text "digit"))
            (is_protected euid st)
            (accepts (scan_rows organization identity (fgets_lines 512 roster.content) 0 false))
            roster.read_error
            (is_unchanged euid st roster.after)
            (is_unchanged euid st roster.named)
            roster.closes
  unfolding verify all_tests
  verify_tests roster st s = go roster.status s
    where
      go :
          (status : Option Status)
          → status ≡ some st
          → (sa_ident (some organization)
              && sa_ident (some identity)
              && not (str_eq identity (text "digit"))
              && status_holds euid status λ st.
                accepts (scan_rows organization identity (fgets_lines 512 roster.content) 0 false)
                && not roster.read_error
                && is_unchanged euid st roster.after
                && is_unchanged euid st roster.named
                && roster.closes)
            ≡ all_tests
                (sa_ident (some organization))
                (sa_ident (some identity))
                (str_eq identity (text "digit"))
                (is_protected euid st)
                (accepts (scan_rows organization identity (fgets_lines 512 roster.content) 0 false))
                roster.read_error
                (is_unchanged euid st roster.after)
                (is_unchanged euid st roster.named)
                roster.closes
      go status e = rw e refl

  verify_unopened : verify euid none organization identity ≡ false
  unfolding verify
  verify_unopened = ground arith

  verify_without_status :
      (roster : Roster)
      → roster.status ≡ none
      → verify euid (some roster) organization identity ≡ false
  unfolding verify
  verify_without_status roster s = ground (arith, s)

-- An identity is authorized exactly if both names are well formed, the identity is not Digit itself,
-- the roster is a protected file that was read without an error and did not change meanwhile, every
-- one of its lines is well formed, and exactly one of them is about this identity in this
-- organization: one with the role SA and all three flags set.
pub verify-IsAuthorized :
    (euid : ℕ) (opened : Option Roster) (organization identity : Text)
    → (verify euid opened organization identity ≡ true)
      ↔ IsAuthorized euid opened organization identity
verify-IsAuthorized euid opened organization identity = (to opened, from)
  where
    to :
        (opened : Option Roster)
        → verify euid opened organization identity ≡ true
        → IsAuthorized euid opened organization identity
    to none e = let no' = verify_unopened euid organization identity in cc
    to (some roster) e = elim (Option-cases roster.status) [
      | inl missing ↦
          let no' = verify_without_status euid organization identity roster missing in cc
      | inr (st, s) ↦
          let tests = verify_tests euid organization identity roster st s in
          let (a, b, d, p, g, r, u, n, c) = (all_tests_iff _ _ _ _ _ _ _ _ _).0 (sym tests ∙ e) in
          (
            roster,
            st,
            refl,
            s,
            p,
            u,
            n,
            r,
            c,
            a,
            b,
            d,
            (scan-IsGranted organization identity (fgets_lines 512 roster.content)).0 g,
          )
    ]

    from :
        IsAuthorized euid opened organization identity
        → verify euid opened organization identity ≡ true
    from (roster, st, same, s, p, u, n, r, c, a, b, d, g) =
        let granted = (scan-IsGranted organization identity (fgets_lines 512 roster.content)).1 g in
        ap (λ (o : Option Roster). verify euid o organization identity) same
        ∙ verify_tests euid organization identity roster st s
        ∙ (all_tests_iff _ _ _ _ _ _ _ _ _).1 (a, b, d, p, granted, r, u, n, c)
