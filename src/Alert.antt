-- ===== src/Alert.antt =====
-- src/alert.c: alerts and their acknowledgements as lines of two files, and the message that Digit
-- speaks into the channel of alerts.
pub mod Body
pub mod Lines
pub mod Acks
pub mod Laws
pub mod Acknowledge
mod Examples
use digit.Base.{
  ℕ, zero, suc, ◌+◌, ◌%◌, ◌^◌, Bool, true, false, not, ◌&&◌, ◌||◌, Option, none, some, List, [],
  ◌∷◌, ◌++◌, length, take, Text, text, str_eq, has_char, leb, ◌==◌, if◌then◌else◌, is_some,
}
use digit.Base.Decimal.{to_dec}
use digit.Base.Scan.{Scan, pure, ◌>>=◌, ◌>>◌, until, word, spaces, unsigned_long_long, int}
use digit.Base.File.{fgets_lines, c_string}
use digit.Channel.{Clock, Append, append_line}

-- digit_alert_t; the severity is the number of the enumeration's constant.
pub record Alert : Type 0 where
  pub id : Text
  pub created_at : ℕ
  pub severity : ℕ
  pub source : Text
  pub summary : Text
  pub detail : Text
  pub operational_state : Text

-- An alert as it is listed, with the time of its acknowledgement.
pub record Listed : Type 0 where
  pub alert : Alert
  pub acknowledged_at : Option ℕ

-- digit_alert_safe; `none` is a null pointer.
unfoldable pub safe : Option Text → Bool
safe none = false
safe (some s) = not (has_char 9 s) && not (has_char 10 s) && not (has_char 13 s)

-- digit_alert_id, at the time `now` and behind `sequence` earlier ids
unfoldable pub alert_id : ℕ → ℕ → Text
alert_id now sequence =
    take 63 (text "alert-" ++ to_dec now ++ (b'-' ∷ to_dec ((sequence + 1) % 2 ^ 64)))

-- "%s\t%llu\t%d\t%s\t%s\t%s\t%s\n"
unfoldable pub print_alert : Alert → Text
print_alert a =
    a.id
    ++ (9
        ∷ (to_dec a.created_at
            ++ (9
                ∷ (to_dec a.severity
                    ++ (9
                        ∷ (a.source
                            ++ (9
                                ∷ (a.summary
                                    ++ (9
                                        ∷ (a.detail
                                            ++ (9 ∷ (a.operational_state ++ 10 ∷ []))))))))))))

-- "%63[^\t]\t%llu\t%d\t%63[^\t]\t%255[^\t]\t%1023[^\t]\t%31[^\n]"
unfoldable pub scan_alert : Scan Alert
scan_alert = do
  id ← until 63 9
  spaces
  created_at ← unsigned_long_long
  spaces
  severity ← int
  spaces
  source ← until 63 9
  spaces
  summary ← until 255 9
  spaces
  detail ← until 1023 9
  spaces
  operational_state ← until 31 10
  pure (record {
    id = id;
    created_at = created_at;
    severity = severity;
    source = source;
    summary = summary;
    detail = detail;
    operational_state = operational_state;
  })

-- "%63s\t%llu\n"
unfoldable pub scan_ack : Scan (Text × ℕ)
scan_ack = do
  stored ← word 63
  spaces
  timestamp ← unsigned_long_long
  spaces
  pure (c_string stored, timestamp)

abbrev ack_found : Text → Option ((Text × ℕ) × Text) → (Text → Option ℕ) → Option ℕ
ack_found id none later = none
ack_found id (some ((stored, timestamp), rest)) later =
    if str_eq stored id then some timestamp else later rest

-- The loop of digit_alert_is_acknowledged, for at most `fuel` lines.
unfoldable pub find_ack : ℕ → Text → Text → Option ℕ
unfolding scan_ack
find_ack zero id s = none
find_ack (suc fuel) id s = ack_found id (scan_ack s) (λ rest. find_ack fuel id rest)

-- digit_alert_is_acknowledged; each round takes at least one character of the file.
unfoldable pub is_acknowledged : Option Text → Text → Option ℕ
unfolding find_ack
is_acknowledged none id = none
is_acknowledged (some content) id = find_ack (length content) id content

-- The files, and the ids that were given before.
pub record Store : Type 0 where
  pub alerts : Option Text
  pub acks : Option Text
  pub sequence : ℕ

abbrev pub listed : Option Text → Bool → Option (Alert × Text) → List Listed → List Listed
listed acks unacknowledged_only none items = items
listed acks unacknowledged_only (some (a, rest)) items =
    let when = is_acknowledged acks a.id in
    if unacknowledged_only && is_some when
    then items
    else record { alert = a; acknowledged_at = when } ∷ items

unfoldable pub list_lines : Option Text → Bool → List Text → List Listed
unfolding scan_alert is_acknowledged
list_lines acks only [] = []
list_lines acks only (line ∷ lines) =
    listed acks only (scan_alert (c_string line)) (list_lines acks only lines)

-- digit_alert_list, without its capacity
unfoldable pub list : Bool → Store → List Listed
unfolding list_lines
list only store = elim store.alerts [
  | none ↦ []
  | some content ↦ list_lines store.acks only (fgets_lines 1600 content)
]

unfoldable pub find : Text → List Listed → Option Listed
find id [] = none
find id (a ∷ items) = if str_eq a.alert.id id then some a else find id items

-- digit_alert_get, with DIGIT_ALERT_MAX
unfoldable pub get : Text → Store → Option Listed
unfolding list find
get id store = find id (take 1024 (list false store))

unfoldable pub new_alert : Clock → ℕ → ℕ → Text → Text → Text → Text → Alert
unfolding alert_id
new_alert now sequence severity source summary detail state = record {
  id = alert_id now.id_time sequence;
  created_at = now.created_time;
  severity = severity;
  source = source;
  summary = summary;
  detail = detail;
  operational_state = state;
}

-- The tests on the arguments of digit_alert_raise
unfoldable pub is_accepted : ℕ → Text → Text → Text → Text → Bool
unfolding safe
is_accepted severity source summary detail state =
    not (leb 4 severity)
    && safe (some source)
    && safe (some summary)
    && safe (some detail)
    && safe (some state)
    && not (leb 64 (length source))
    && not (leb 256 (length summary))
    && not (leb 1024 (length detail))
    && not (leb 32 (length state))

abbrev raised : Alert → Store → Bool × Option Text → Option Alert × Store
raised a store (true, file) = (some a, record store { alerts = file })
raised a store (false, file) = (none, record store { alerts = file })

-- digit_alert_raise up to the message, which Body models. An id is counted only where the state's
-- directory is there.
unfoldable pub raise : Append → Clock → ℕ → Text → Text → Text → Text → Store → Option Alert × Store
unfolding is_accepted new_alert print_alert append_line
raise system now severity source summary detail state store =
    if not (is_accepted severity source summary detail state) || not system.directory
    then (none, store)
    else let a = new_alert now store.sequence severity source summary detail state in
      raised a (record store { sequence = (store.sequence + 1) % 2 ^ 64 })
        (append_line system (print_alert a) store.alerts)

-- The line of an acknowledgement
unfoldable pub print_ack : Text → ℕ → Text
print_ack id now = id ++ (9 ∷ (to_dec now ++ 10 ∷ []))

abbrev acknowledged : Listed → ℕ → Store → Bool × Option Text → Option Listed × Store
acknowledged found now store (true, file) =
    (some (record found { acknowledged_at = some now }), record store { acks = file })
acknowledged found now store (false, file) = (none, record store { acks = file })

abbrev acknowledge_found : Append → ℕ → Text → Store → Option Listed → Option Listed × Store
acknowledge_found system now id store none = (none, store)
acknowledge_found system now id store (some found) =
    if is_some found.acknowledged_at
    then (some found, store)
    else acknowledged found now store (append_line system (print_ack id now) store.acks)

-- digit_alert_acknowledge
unfoldable pub acknowledge : Append → ℕ → Text → Store → Option Listed × Store
unfolding get append_line print_ack
acknowledge system now id store = acknowledge_found system now id store (get id store)
