-- ===== src/Alert/Lines.antt =====
-- src/alert.c: the lines of the alert file, and reading them.
use digit.Base.{
  ℕ, ◌^◌, ◌<◌, ◌≤◌, ◌≡◌, refl, sym, ap, ◌∙◌, false, some, List, [], ◌∷◌, ◌++◌, append_assoc,
  append-nil, length, length-append, Text, has_char, has_char-append, arith, ◌==◌,
}
use digit.Base.Decimal.{to_dec, is_digit, to_dec-IsDigits, length-to_dec-le, has_char-digits}
use digit.Base.Scan.{until, unsigned_long_long, int}
use digit.Base.Scan.Laws.{until-append, unsigned_long_long-to_dec, int-to_dec, StartsSolid, bind-eq}
use digit.Base.Scan.Tabs.{space_eq, solid_name, solid_number, tab_ends}
use digit.Base.File.{fgets_lines, fgets_lines-line, c_string, c_string_self}
use digit.Alert.{Alert, print_alert, scan_alert}

-- A text that stands between two tabs and is read back.
pub record IsField (width : ℕ) (s : Text) : Type 0 where
  pub named : 0 < length s
  pub short : length s ≤ width
  pub no_tab : has_char 9 s ≡ false
  pub no_line_end : has_char 10 s ≡ false
  pub no_nul : has_char 0 s ≡ false
  pub solid : StartsSolid s

-- An alert whose line is read back.
pub record IsStorable (a : Alert) : Type 0 where
  pub id : IsField 63 a.id
  pub created : a.created_at < 2 ^ 64
  pub severity : a.severity < 4
  pub source : IsField 63 a.source
  pub summary : IsField 255 a.summary
  pub detail : IsField 1023 a.detail
  pub state : IsField 31 a.operational_state

abbrev texts : Alert → Text
texts a = a.source ++ (9 ∷ (a.summary ++ (9 ∷ (a.detail ++ (9 ∷ a.operational_state)))))

abbrev pub body : Alert → Text
body a = a.id ++ (9 ∷ (to_dec a.created_at ++ (9 ∷ (to_dec a.severity ++ (9 ∷ texts a)))))

-- The file that holds these alerts.
abbrev pub all_lines : List Alert → Text
all_lines [] = []
all_lines (a ∷ alerts) = print_alert a ++ all_lines alerts

pub print_alert-append : (a : Alert) (rest : Text) → print_alert a ++ rest ≡ body a ++ 10 ∷ rest
unfolding print_alert
print_alert-append a rest = simp append_assoc

scan_alert-print : (a : Alert) → IsStorable a → scan_alert (print_alert a) ≡ some (a, 10 ∷ [])
unfolding scan_alert print_alert
scan_alert-print a st =
    bind-eq (until 63 9) _ _ (until-append 63 9 a.id _ st.id.named st.id.short st.id.no_tab refl)
    ∙ space_eq _ _ (solid_number a.created_at _)
    ∙ bind-eq unsigned_long_long _ _
        (unsigned_long_long-to_dec a.created_at _ st.created (tab_ends []))
    ∙ space_eq _ _ (solid_number a.severity _)
    ∙ bind-eq int _ _ (int-to_dec a.severity _ (omega (arith, st.severity)) (tab_ends []))
    ∙ space_eq _ _ (solid_name a.source _ st.source.named st.source.solid)
    ∙ bind-eq (until 63 9) _ _
        (until-append 63 9 a.source _ st.source.named st.source.short st.source.no_tab refl)
    ∙ space_eq _ _ (solid_name a.summary _ st.summary.named st.summary.solid)
    ∙ bind-eq (until 255 9) _ _
        (until-append 255 9 a.summary _ st.summary.named st.summary.short st.summary.no_tab refl)
    ∙ space_eq _ _ (solid_name a.detail _ st.detail.named st.detail.solid)
    ∙ bind-eq (until 1023 9) _ _
        (until-append 1023 9 a.detail _ st.detail.named st.detail.short st.detail.no_tab refl)
    ∙ space_eq _ _ (solid_name a.operational_state _ st.state.named st.state.solid)
    ∙ bind-eq (until 31 10) _ _ (
        until-append 31 10 a.operational_state _ st.state.named st.state.short st.state.no_line_end
          refl)

no_char-texts :
    (k : ℕ) (a : Alert)
    → (k == 9) ≡ false
    → has_char k a.source ≡ false
    → has_char k a.summary ≡ false
    → has_char k a.detail ≡ false
    → has_char k a.operational_state ≡ false
    → has_char k (texts a) ≡ false
unfolding has_char
no_char-texts k a tab source summary detail state =
    rw
      (
        has_char-append k a.source _,
        source,
        tab,
        has_char-append k a.summary _,
        summary,
        tab,
        has_char-append k a.detail _,
        detail,
        tab,
      )
      state

no_char-body :
    (k : ℕ) (a : Alert)
    → is_digit k ≡ false
    → (k == 9) ≡ false
    → has_char k a.id ≡ false
    → has_char k (texts a) ≡ false
    → has_char k (body a) ≡ false
unfolding has_char
no_char-body k a digit tab id rest =
    rw
      (
        has_char-append k a.id _,
        id,
        tab,
        has_char-append k (to_dec a.created_at) _,
        has_char-digits k (to_dec a.created_at) digit (to_dec-IsDigits a.created_at),
        tab,
        has_char-append k (to_dec a.severity) _,
        has_char-digits k (to_dec a.severity) digit (to_dec-IsDigits a.severity),
        tab,
      )
      rest

length-texts : (a : Alert) → IsStorable a → length (texts a) ≤ 1375
length-texts a st = omega (
  arith,
  length-append a.source (9 ∷ (a.summary ++ (9 ∷ (a.detail ++ (9 ∷ a.operational_state))))),
  length-append a.summary (9 ∷ (a.detail ++ (9 ∷ a.operational_state))),
  length-append a.detail (9 ∷ a.operational_state),
  st.source.short,
  st.summary.short,
  st.detail.short,
  st.state.short,
)

length-body : (a : Alert) → IsStorable a → length (body a) < 1599
length-body a st = omega (
  arith,
  length-texts a st,
  length-append a.id (9 ∷ (to_dec a.created_at ++ (9 ∷ (to_dec a.severity ++ (9 ∷ texts a))))),
  length-append (to_dec a.created_at) (9 ∷ (to_dec a.severity ++ (9 ∷ texts a))),
  length-append (to_dec a.severity) (9 ∷ texts a),
  length-to_dec-le 19 a.created_at (omega (arith, st.created)),
  length-to_dec-le 0 a.severity (omega (arith, st.severity)),
  st.id.short,
)

-- The line of an alert in its buffer.
pub read_line :
    (a : Alert) → IsStorable a → scan_alert (c_string (body a ++ 10 ∷ [])) ≡ some (a, 10 ∷ [])
read_line a st =
    ap scan_alert (
      c_string_self (body a ++ 10 ∷ []) no_nul
      ∙ sym (print_alert-append a [])
      ∙ append-nil (print_alert a))
    ∙ scan_alert-print a st
  where
    texts_no_nul : has_char 0 (texts a) ≡ false
    texts_no_nul =
        no_char-texts 0 a refl st.source.no_nul st.summary.no_nul st.detail.no_nul st.state.no_nul

    no_nul : has_char 0 (body a ++ 10 ∷ []) ≡ false
    no_nul =
        has_char-append 0 (body a) (10 ∷ [])
        ∙ rw (no_char-body 0 a (unfold is_digit in refl) refl st.id.no_nul texts_no_nul)
            (unfold has_char in refl)

pub fgets_lines-cons :
    (a : Alert) (rest : Text)
    → IsStorable a
    → fgets_lines 1600 (print_alert a ++ rest) ≡ (body a ++ 10 ∷ []) ∷ fgets_lines 1600 rest
fgets_lines-cons a rest st =
    ap (fgets_lines 1600) (print_alert-append a rest)
    ∙ fgets_lines-line 1600 (body a) rest (omega (arith, length-body a st)) (
        no_char-body 10 a (unfold is_digit in refl) refl st.id.no_line_end (
          no_char-texts 10 a refl st.source.no_line_end st.summary.no_line_end st.detail.no_line_end
            st.state.no_line_end))

pub all_lines-append : (xs ys : List Alert) → all_lines (xs ++ ys) ≡ all_lines xs ++ all_lines ys
all_lines-append [] ys = refl
all_lines-append (a ∷ xs) ys =
    ap (◌++◌ (print_alert a)) (all_lines-append xs ys)
    ∙ sym (append_assoc (print_alert a) (all_lines xs) (all_lines ys))
