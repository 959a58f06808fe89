-- ===== src/Channel/Examples.antt =====
-- src/channel.c with one channel.
use digit.Base.{
  ◌≡◌, refl, true, none, some, [], ◌∷◌, ◌++◌, take, has_char, Text, text, str_eq, is_some, arith,
}
use digit.Base.Decimal.{to_dec}
use digit.Base.Scan.{is_space}
use digit.Channel.{
  Clock, Item, Message, Append, append_line, create, get, list, safe_text, make_id, new_channel,
  print_channel, content_of, find,
}
use digit.Channel.RoundTrip.{IsStorable, all_lines, list-all_lines, list-create}
use digit.Channel.Messages.{print_message, new_message, message_append, message_append-get}

abbrev general : Item
general = record {
  id = text "general";
  name = text "General";
  created_at = 7;
  last_activity_at = 7;
  active = 1;
}

abbrev lab : Item
lab = record {
  id = text "channel-9-1";
  name = text "lab";
  created_at = 9;
  last_activity_at = 9;
  active = 1;
}

abbrev good : Append
good = record { directory = true; opens = true; prints = true; closes = true; torn = none }

general-IsStorable : IsStorable general
unfolding has_char is_space
general-IsStorable = record {
  id_named = omega arith;
  id_short = omega arith;
  id_no_tab = refl;
  id_no_line_end = refl;
  id_no_nul = refl;
  name_named = omega arith;
  name_short = omega arith;
  name_no_tab = refl;
  name_no_line_end = refl;
  name_no_nul = refl;
  name_solid = refl;
  created = omega arith;
  last = omega arith;
  active = omega arith;
}

lab-IsStorable : IsStorable lab
unfolding has_char is_space
lab-IsStorable = record {
  id_named = omega arith;
  id_short = omega arith;
  id_no_tab = refl;
  id_no_line_end = refl;
  id_no_nul = refl;
  name_named = omega arith;
  name_short = omega arith;
  name_no_tab = refl;
  name_no_line_end = refl;
  name_no_nul = refl;
  name_solid = refl;
  created = omega arith;
  last = omega arith;
  active = omega arith;
}

abbrev morning : Clock
morning = record { id_time = 9; created_time = 9 }

abbrev before : Text
before = all_lines (general ∷ [])

creates_lab :
    create good morning 0 (text "lab") (some before)
    ≡ (some lab, some (before ++ print_channel lab))
unfolding create append_line safe_text new_channel make_id to_dec has_char
creates_lab = refl

list-create_example : list (some (before ++ print_channel lab)) ≡ general ∷ lab ∷ []
list-create_example =
    list-create good morning 0 (text "lab") (before ++ print_channel lab) (general ∷ []) lab
      (general-IsStorable, tt) lab-IsStorable creates_lab

lists_general : is_some (get (some before) (text "general")) ≡ true
unfolding get find str_eq
lists_general = rw (list-all_lines (general ∷ []) (general-IsStorable, tt)) refl

abbrev hello : Message
hello = record {
  id = text "message-9-1";
  channel_id = text "general";
  created_at = 9;
  origin = text "ann";
  body = text "hi";
}

appends_hello :
    message_append good (some before) morning 0 (text "general") (text "ann") (text "hi") none
    ≡ (some hello, some (content_of none ++ print_message hello))
unfolding message_append append_line safe_text new_message make_id to_dec has_char
appends_hello = rw lists_general refl

message_append-get_example :
    (is_some (get (some before) (text "general")) ≡ true)
    × (safe_text (some hello.origin) ≡ true)
    × (safe_text (some hello.body) ≡ true)
    × (hello.channel_id ≡ take 63 (text "general"))
    × (some (content_of none ++ print_message hello)
        ≡ some (content_of none ++ print_message hello))
message_append-get_example =
    message_append-get good (some before) morning 0 (text "general") (text "ann") (text "hi") none
      hello _ appends_hello
