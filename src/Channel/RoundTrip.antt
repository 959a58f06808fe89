-- ===== src/Channel/RoundTrip.antt =====
-- src/channel.c: writing the file of channels and listing it.
use digit.Base.{
  ℕ, ◌^◌, ◌<◌, ◌≤◌, ◌≡◌, refl, sym, ap, ◌∙◌, false, Option, some, List, [], ◌∷◌, ◌++◌, append_assoc,
  append-nil, length, length-append, All, All-append, Text, has_char, has_char-append, arith, ◌==◌,
}
use digit.Base.Decimal.{to_dec, is_digit, to_dec-IsDigits, length-to_dec-le, has_char-digits}
use digit.Base.Scan.{until, unsigned_long_long, int}
use digit.Base.Scan.Laws.{until-append, unsigned_long_long-to_dec, int-to_dec, StartsSolid, bind-eq}
use digit.Base.Scan.Tabs.{space_eq, solid_name, solid_number, tab_ends, line_ends}
use digit.Base.File.{fgets_lines, fgets_lines-line, fgets_lines-empty, c_string, c_string_self}
use digit.Channel.{
  Clock, Item, print_channel, scan_channel, list_lines, list, Append, append_line, create,
  new_channel, with_item,
}

-- A channel whose line is read back: its texts have no tab, no line end and no NUL, fit their
-- conversions, and the name does not begin with white space.
pub record IsStorable (c : Item) : Type 0 where
  pub id_named : 0 < length c.id
  pub id_short : length c.id ≤ 63
  pub id_no_tab : has_char 9 c.id ≡ false
  pub id_no_line_end : has_char 10 c.id ≡ false
  pub id_no_nul : has_char 0 c.id ≡ false
  pub name_named : 0 < length c.name
  pub name_short : length c.name ≤ 127
  pub name_no_tab : has_char 9 c.name ≡ false
  pub name_no_line_end : has_char 10 c.name ≡ false
  pub name_no_nul : has_char 0 c.name ≡ false
  pub name_solid : StartsSolid c.name
  pub created : c.created_at < 2 ^ 64
  pub last : c.last_activity_at < 2 ^ 64
  pub active : c.active < 2 ^ 31

abbrev numbers : Item → Text
numbers c = to_dec c.created_at ++ (9 ∷ (to_dec c.last_activity_at ++ (9 ∷ to_dec c.active)))

abbrev body : Item → Text
body c = c.id ++ (9 ∷ (c.name ++ (9 ∷ numbers c)))

-- The file that holds these channels.
abbrev pub all_lines : List Item → Text
all_lines [] = []
all_lines (c ∷ items) = print_channel c ++ all_lines items

print_channel-append : (c : Item) (rest : Text) → print_channel c ++ rest ≡ body c ++ 10 ∷ rest
unfolding print_channel
print_channel-append c rest = simp append_assoc

scan_channel-print : (c : Item) → IsStorable c → scan_channel (print_channel c) ≡ some (c, 10 ∷ [])
unfolding scan_channel print_channel
scan_channel-print c st =
    bind-eq (until 63 9) _ _ (until-append 63 9 c.id _ st.id_named st.id_short st.id_no_tab refl)
    ∙ space_eq _ _ (solid_name c.name _ st.name_named st.name_solid)
    ∙ bind-eq (until 127 9) _ _
        (until-append 127 9 c.name _ st.name_named st.name_short st.name_no_tab refl)
    ∙ space_eq _ _ (solid_number c.created_at _)
    ∙ bind-eq unsigned_long_long _ _
        (unsigned_long_long-to_dec c.created_at _ st.created (tab_ends []))
    ∙ space_eq _ _ (solid_number c.last_activity_at _)
    ∙ bind-eq unsigned_long_long _ _
        (unsigned_long_long-to_dec c.last_activity_at _ st.last (tab_ends []))
    ∙ space_eq _ _ (solid_number c.active _)
    ∙ bind-eq int _ _ (int-to_dec c.active _ st.active (line_ends []))

no_char-numbers :
    (k : ℕ) (c : Item) → is_digit k ≡ false → (k == 9) ≡ false → has_char k (numbers c) ≡ false
unfolding has_char
no_char-numbers k c digit tab = rw (
  has_char-append k (to_dec c.created_at) _,
  has_char-digits k (to_dec c.created_at) digit (to_dec-IsDigits c.created_at),
  tab,
  has_char-append k (to_dec c.last_activity_at) _,
  has_char-digits k (to_dec c.last_activity_at) digit (to_dec-IsDigits c.last_activity_at),
  tab,
  has_char-digits k (to_dec c.active) digit (to_dec-IsDigits c.active),
)

no_char-body :
    (k : ℕ) (c : Item)
    → is_digit k ≡ false
    → (k == 9) ≡ false
    → has_char k c.id ≡ false
    → has_char k c.name ≡ false
    → has_char k (body c) ≡ false
unfolding has_char
no_char-body k c digit tab id name =
    rw (has_char-append k c.id _, id, tab, has_char-append k c.name _, name, tab)
      (no_char-numbers k c digit tab)

length-body : (c : Item) → IsStorable c → length (body c) < 4607
length-body c st = omega (
  arith,
  length-append c.id (9 ∷ (c.name ++ (9 ∷ numbers c))),
  length-append c.name (9 ∷ numbers c),
  length-append (to_dec c.created_at) (9 ∷ (to_dec c.last_activity_at ++ (9 ∷ to_dec c.active))),
  length-append (to_dec c.last_activity_at) (9 ∷ to_dec c.active),
  length-to_dec-le 19 c.created_at (omega (arith, st.created)),
  length-to_dec-le 19 c.last_activity_at (omega (arith, st.last)),
  length-to_dec-le 9 c.active (omega (arith, st.active)),
  st.id_short,
  st.name_short,
)

read_line :
    (c : Item) → IsStorable c → scan_channel (c_string (body c ++ 10 ∷ [])) ≡ some (c, 10 ∷ [])
read_line c st =
    ap scan_channel (
      c_string_self (body c ++ 10 ∷ []) no_nul
      ∙ sym (print_channel-append c [])
      ∙ append-nil (print_channel c))
    ∙ scan_channel-print c st
  where
    no_nul : has_char 0 (body c ++ 10 ∷ []) ≡ false
    no_nul =
        has_char-append 0 (body c) (10 ∷ [])
        ∙ rw (no_char-body 0 c (unfold is_digit in refl) refl st.id_no_nul st.name_no_nul)
            (unfold has_char in refl)

-- A file of storable channels is listed as those channels.
pub list-all_lines :
    (items : List Item) → All IsStorable items → list (some (all_lines items)) ≡ items
unfolding list list_lines
list-all_lines [] st = ap list_lines (fgets_lines-empty 4608)
list-all_lines (c ∷ items) st =
    ap (λ (s : Text). list_lines (fgets_lines 4608 s)) (print_channel-append c (all_lines items))
    ∙ ap list_lines (
        fgets_lines-line 4608 (body c) (all_lines items) (omega (arith, length-body c st.0)) (
          no_char-body 10 c (unfold is_digit in refl) refl st.0.id_no_line_end
            st.0.name_no_line_end))
    ∙ ap
        (λ (o : Option (Item × Text)).
          with_item o (list_lines (fgets_lines 4608 (all_lines items))))
        (read_line c st.0)
    ∙ ap (◌∷◌ c) (list-all_lines items st.1)

all_lines-append : (xs ys : List Item) → all_lines (xs ++ ys) ≡ all_lines xs ++ all_lines ys
all_lines-append [] ys = refl
all_lines-append (c ∷ xs) ys =
    ap (◌++◌ (print_channel c)) (all_lines-append xs ys)
    ∙ sym (append_assoc (print_channel c) (all_lines xs) (all_lines ys))

append_created :
    (system : Append) (now : Clock) (sequence : ℕ) (name content after : Text) (c : Item)
    → create system now sequence name (some content) ≡ (some c, some after)
    → (c ≡ new_channel now sequence name) × (content ++ print_channel c ≡ after)
unfolding create append_line
append_created system now sequence name content after c e = ground (arith, e)

-- If the file holds the lines of storable channels, and the creation of a channel succeeds with one
-- that is storable, then the list afterwards is the channels before with the new one at its end.
pub list-create :
    (system : Append) (now : Clock) (sequence : ℕ) (name after : Text) (items : List Item)
    (c : Item)
    → All IsStorable items
    → IsStorable c
    → create system now sequence name (some (all_lines items)) ≡ (some c, some after)
    → list (some after) ≡ items ++ c ∷ []
list-create system now sequence name after items c st new e =
    let (made, written) = append_created system now sequence name (all_lines items) after c e in
    let whole : all_lines (items ++ c ∷ []) ≡ after =
      all_lines-append items (c ∷ [])
      ∙ ap (◌++◌ (all_lines items)) (append-nil (print_channel c))
      ∙ written in
    ap (λ (s : Text). list (some s)) (sym whole)
    ∙ list-all_lines (items ++ c ∷ []) (All-append IsStorable items (c ∷ []) st (new, tt))
