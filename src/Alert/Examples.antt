-- ===== src/Alert/Examples.antt =====
-- src/alert.c with two alerts.
use digit.Base.{
  ℕ, ◌≡◌, ◌<◌, ◌≤◌, refl, ap, ◌∙◌, true, none, some, List, [], ◌∷◌, ◌++◌, length, take, has_char,
  Text, text, str_eq, is_some, arith, if◌then◌else◌, false,
}
use digit.Base.Decimal.{to_dec}
use digit.Base.Scan.{is_space}
use digit.Base.Scan.Laws.{StartsSolid}
use digit.Channel.{Clock, Append, Item, Message, append_line}
use digit.Channel
use digit.Channel.Messages.{message_append, new_message, print_message}
use digit.Alert.{
  Alert, Listed, Store, print_alert, is_accepted, safe, new_alert, alert_id, raise, list, get,
  acknowledge, print_ack, find,
}
use digit.Alert.Lines.{IsField, IsStorable, all_lines}
use digit.Alert.Acks.{IsStored}
use digit.Alert.Laws.{view, store_of, list-view, list-raise}
use digit.Alert.Acknowledge.{get-acknowledge}
use digit.Alert.Body.{speak, find_channel, spoken_body, spoken}

abbrev morning : Clock
morning = record { id_time = 9; created_time = 9 }

abbrev old : Alert
old = record {
  id = text "alert-7-1";
  created_at = 7;
  severity = 1;
  source = text "CORE";
  summary = text "low";
  detail = text "disk";
  operational_state = text "NORMAL";
}

abbrev new : Alert
new = record {
  id = text "alert-9-2";
  created_at = 9;
  severity = 2;
  source = text "CORE";
  summary = text "high";
  detail = text "fan";
  operational_state = text "NORMAL";
}

abbrev good : Append
good = record { directory = true; opens = true; prints = true; closes = true; torn = none }

field :
    (width : ℕ) (s : Text)
    → 0 < length s
    → length s ≤ width
    → has_char 9 s ≡ false
    → has_char 10 s ≡ false
    → has_char 0 s ≡ false
    → StartsSolid s
    → IsField width s
field width s named short tab line_end nul solid = record {
  named = named;
  short = short;
  no_tab = tab;
  no_line_end = line_end;
  no_nul = nul;
  solid = solid;
}

old-IsStorable : IsStorable old
unfolding has_char is_space
old-IsStorable = record {
  id = field 63 old.id (omega arith) (omega arith) refl refl refl refl;
  created = omega arith;
  severity = omega arith;
  source = field 63 old.source (omega arith) (omega arith) refl refl refl refl;
  summary = field 255 old.summary (omega arith) (omega arith) refl refl refl refl;
  detail = field 1023 old.detail (omega arith) (omega arith) refl refl refl refl;
  state = field 31 old.operational_state (omega arith) (omega arith) refl refl refl refl;
}

new-IsStorable : IsStorable new
unfolding has_char is_space
new-IsStorable = record {
  id = field 63 new.id (omega arith) (omega arith) refl refl refl refl;
  created = omega arith;
  severity = omega arith;
  source = field 63 new.source (omega arith) (omega arith) refl refl refl refl;
  summary = field 255 new.summary (omega arith) (omega arith) refl refl refl refl;
  detail = field 1023 new.detail (omega arith) (omega arith) refl refl refl refl;
  state = field 31 new.operational_state (omega arith) (omega arith) refl refl refl refl;
}

abbrev before : Store
before = store_of (old ∷ []) (some []) 1

abbrev after : Store
after = record {
  alerts = some (all_lines (old ∷ []) ++ print_alert new);
  acks = some [];
  sequence = 2;
}

raises_new :
    raise good morning 2 (text "CORE") (text "high") (text "fan") (text "NORMAL") before
    ≡ (some new, after)
unfolding raise is_accepted safe new_alert alert_id append_line has_char to_dec
raises_new = refl

list-raise_example : list true after ≡ view (some []) true (old ∷ new ∷ [])
list-raise_example =
    list-raise good morning 2 (text "CORE") (text "high") (text "fan") (text "NORMAL") (old ∷ [])
      (some []) 1 new after true (old-IsStorable, tt) new-IsStorable raises_new

ack-IsStored : IsStored (text "alert-7-1", 12)
unfolding has_char is_space
ack-IsStored = record {
  named = omega arith;
  short = omega arith;
  solid = (refl, (refl, (refl, (refl, (refl, (refl, (refl, (refl, (refl, tt)))))))));
  no_nul = refl;
  time = omega arith;
}

abbrev shown_old : Listed
shown_old = record { alert = old; acknowledged_at = some 12 }

abbrev acked : Store
acked = record before { acks = some (print_ack (text "alert-7-1") 12) }

acknowledges_old : acknowledge good 12 (text "alert-7-1") before ≡ (some shown_old, acked)
unfolding acknowledge get find str_eq append_line
acknowledges_old = rw (list-view false (old ∷ []) (some []) 1 (old-IsStorable, tt)) refl

get-acknowledge_example :
    (is_some shown_old.acknowledged_at ≡ true)
    × (get (text "alert-7-1") acked ≡ (
        if str_eq (text "alert-7-1") (text "alert-7-1")
        then some shown_old
        else get (text "alert-7-1") before))
get-acknowledge_example =
    get-acknowledge good 12 (text "alert-7-1") (old ∷ []) [] 1 shown_old acked (text "alert-7-1")
      (old-IsStorable, tt) tt ack-IsStored acknowledges_old

abbrev alerts_channel : Item
alerts_channel = record {
  id = text "channel-1-1";
  name = text "ALERTS";
  created_at = 1;
  last_activity_at = 1;
  active = 1;
}

abbrev channels : Text
channels = Channel.print_channel alerts_channel

abbrev said : Message
said = new_message morning 5 (text "channel-1-1") (text "digit") (spoken_body new)

finds_alerts : find_channel (some channels) ≡ some alerts_channel
unfolding find_channel Channel.list digit.Base.File.fgets_lines Channel.print_channel to_dec
    digit.Base.Scan.until digit.Base.File.c_string digit.Base.Scan.spaces is_space
    digit.Base.Scan.unsigned_long_long digit.Base.Decimal.span_digits digit.Base.Decimal.is_digit
    digit.Base.Scan.int digit.Base.Scan.to_unsigned digit.Base.Scan.to_int
    digit.Base.Decimal.dec_value
finds_alerts = refl

sends :
    message_append good
      (some channels)
      morning
      5
      (text "channel-1-1")
      (text "digit")
      (spoken_body new)
      none
    ≡ (some said, some (print_message said))
unfolding message_append Channel.get digit.Base.File.fgets_lines Channel.print_channel to_dec
    digit.Base.Scan.until digit.Base.File.c_string digit.Base.Scan.spaces is_space
    digit.Base.Scan.unsigned_long_long digit.Base.Decimal.span_digits digit.Base.Decimal.is_digit
    digit.Base.Scan.int str_eq Channel.safe_text has_char spoken_body
sends = refl

speaks : speak good (some channels) morning 5 new none ≡ (some said, some (print_message said))
unfolding speak
speaks = ap (spoken good (some channels) morning 5 new none) finds_alerts ∙ spoken_sends
  where
    spoken_sends :
        spoken good (some channels) morning 5 new none (some alerts_channel)
        ≡ (some said, some (print_message said))
    spoken_sends = sends
