-- ===== src/Alert/Acks.antt =====
-- src/alert.c: the lines of the file of acknowledgements, and finding one.
use digit.Base.{
  ℕ, zero, suc, ◌^◌, ◌<◌, ◌≤◌, ◌≡◌, refl, sym, ap, ◌∙◌, false, Option, none, some, List, [], ◌∷◌,
  ◌++◌, append_assoc, length, length-append, All, Text, has_char, str_eq, arith, if◌then◌else◌,
}
use digit.Base.Decimal.{to_dec}
use digit.Base.Scan.{word, unsigned_long_long, spaces, skip_spaces, is_space}
use digit.Base.Scan.Laws.{unsigned_long_long-to_dec, StartsSolid, bind-eq, skip_spaces-solid}
use digit.Base.Scan.Tabs.{space_eq, solid_number, line_ends, IsWord, word-tab}
use digit.Base.File.{c_string_self}
use digit.Alert.{scan_ack, find_ack, is_acknowledged, print_ack, ack_found}

-- The id of an acknowledgement, and its time.
abbrev pub Ack : Type 0
Ack = Text × ℕ

-- An acknowledgement whose line is read back.
pub record IsStored (a : Ack) : Type 0 where
  pub named : 0 < length a.0
  pub short : length a.0 ≤ 63
  pub solid : IsWord a.0
  pub no_nul : has_char 0 a.0 ≡ false
  pub time : a.1 < 2 ^ 64

-- The file that holds these acknowledgements.
abbrev pub ack_lines : List Ack → Text
ack_lines [] = []
ack_lines (a ∷ acks) = print_ack a.0 a.1 ++ ack_lines acks

-- The time of the first acknowledgement of an id.
abbrev pub first_ack : Text → List Ack → Option ℕ
first_ack id [] = none
first_ack id (a ∷ acks) = if str_eq a.0 id then some a.1 else first_ack id acks

starts_solid : (acks : List Ack) → All IsStored acks → StartsSolid (ack_lines acks)
unfolding print_ack
starts_solid [] st = tt
starts_solid ((id, time) ∷ acks) (a, st) = go id a.named a.solid
  where
    go : (id : Text) → 0 < length id → IsWord id → StartsSolid (print_ack id time ++ ack_lines acks)
    go [] pos w = absurd (omega arith)
    go (c ∷ id) pos (solid, w) = solid

line_end_eq : (s : Text) → StartsSolid s → skip_spaces (10 ∷ s) ≡ s
unfolding skip_spaces is_space
line_end_eq s solid = skip_spaces-solid s solid

print_ack-append :
    (id : Text) (now : ℕ) (rest : Text)
    → print_ack id now ++ rest ≡ id ++ (9 ∷ (to_dec now ++ 10 ∷ rest))
unfolding print_ack
print_ack-append id now rest = simp append_assoc

scan_ack-line :
    (a : Ack) (rest : Text)
    → IsStored a
    → StartsSolid rest
    → scan_ack (print_ack a.0 a.1 ++ rest) ≡ some (a, rest)
unfolding scan_ack
scan_ack-line (id, now) rest st solid =
    ap scan_ack (print_ack-append id now rest)
    ∙ bind-eq (word 63) _ _ (word-tab 63 id _ st.named st.short st.solid)
    ∙ space_eq _ _ (solid_number now _)
    ∙ bind-eq unsigned_long_long _ _ (unsigned_long_long-to_dec now _ st.time (line_ends []))
    ∙ bind-eq spaces _ _ spaces_eq
    ∙ ap (λ (s : Text). some ((s, now), rest)) (c_string_self id st.no_nul)
  where
    spaces_eq : spaces (10 ∷ rest) ≡ some (tt, rest)
    spaces_eq = unfold spaces in ap (λ (s : Text). some (tt, s)) (line_end_eq rest solid)

length-print_ack : (id : Text) (now : ℕ) → 0 < length (print_ack id now)
unfolding print_ack
length-print_ack id now =
    omega
      (arith, length-append id (9 ∷ (to_dec now ++ 10 ∷ [])), length-append (to_dec now) (10 ∷ []))

find_ack-lines :
    (fuel : ℕ) (id : Text) (acks : List Ack)
    → length (ack_lines acks) ≤ fuel
    → All IsStored acks
    → find_ack fuel id (ack_lines acks) ≡ first_ack id acks
unfolding find_ack
find_ack-lines zero id [] le st = refl
find_ack-lines (suc fuel) id [] le st = unfold scan_ack word skip_spaces in refl
find_ack-lines zero id (a ∷ acks) le st = absurd (
    omega (arith, le, length-append (print_ack a.0 a.1) (ack_lines acks), length-print_ack a.0 a.1))
find_ack-lines (suc fuel) id (a ∷ acks) le (sa, st) =
    ap (λ (o : Option (Ack × Text)). ack_found id o (λ rest. find_ack fuel id rest))
      (scan_ack-line a (ack_lines acks) sa (starts_solid acks st))
    ∙ ap (λ (o : Option ℕ). if str_eq a.0 id then some a.1 else o)
        (find_ack-lines fuel id acks
          (omega (
            arith,
            le,
            length-append (print_ack a.0 a.1) (ack_lines acks),
            length-print_ack a.0 a.1,
          ))
          st)

-- A file of acknowledgements answers as the list of them.
pub is_acknowledged-lines :
    (id : Text) (acks : List Ack)
    → All IsStored acks
    → is_acknowledged (some (ack_lines acks)) id ≡ first_ack id acks
unfolding is_acknowledged
is_acknowledged-lines id acks st = find_ack-lines (length (ack_lines acks)) id acks (omega arith) st

pub ack_lines-append : (xs ys : List Ack) → ack_lines (xs ++ ys) ≡ ack_lines xs ++ ack_lines ys
ack_lines-append [] ys = refl
ack_lines-append (a ∷ xs) ys =
    ap (◌++◌ (print_ack a.0 a.1)) (ack_lines-append xs ys)
    ∙ sym (append_assoc (print_ack a.0 a.1) (ack_lines xs) (ack_lines ys))
