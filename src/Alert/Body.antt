-- ===== src/Alert/Body.antt =====
-- src/alert.c: what Digit speaks about an alert, and into which channel.
use digit.Base.{
  ℕ, zero, suc, ◌-◌, ◌≡◌, refl, Bool, true, false, not, ◌&&◌, ◌||◌, Option, none, some, List, [],
  ◌∷◌, ◌++◌, length, take, drop, Text, text, str_eq, leb, ◌==◌, if◌then◌else◌, arith, Bool-cases,
  inl, inr, is_some, map,
}
use digit.Base.Decimal.{to_dec}
use digit.Base.Letters.{lower}
use digit.Channel.{Clock, Item, Message, Append, get}
use digit.Channel
use digit.Channel.Messages.{message_append, message_append-get}
use digit.Alert.{Alert}

-- digit_alert_severity_string
unfoldable pub severity_string : ℕ → Text
severity_string severity =
    if severity == 0
    then text "INFO"
    else if severity == 1
    then text "WARNING"
    else if severity == 2
    then text "ERROR"
    else if severity == 3
    then text "CRITICAL"
    else text "UNKNOWN"

-- strcasecmp (s, t) == 0
unfoldable pub case_eq : Text → Text → Bool
unfolding str_eq
case_eq s t = str_eq (map lower s) (map lower t)

unfoldable pub first_named : Text → List Item → Option Item
unfolding case_eq
first_named name [] = none
first_named name (c ∷ items) = if case_eq c.name name then some c else first_named name items

-- digit_alert_find_channel
unfoldable pub find_channel : Option Text → Option Item
unfolding first_named
find_channel channels = first_named (text "Alerts") (take 128 (Channel.list channels))

abbrev is_break : ℕ → Bool
is_break c = (c == 32) || (c == 9) || (c == 13) || (c == 10)

-- The run in front of the first white space: strcspn (v, " \t\r\n")
unfoldable pub token_run : Text → Text
token_run [] = []
token_run (c ∷ s) = if is_break c then [] else c ∷ token_run s

unfoldable pub starts_with : Text → Text → Bool
starts_with [] s = true
starts_with (k ∷ key) [] = false
starts_with (k ∷ key) (c ∷ s) = (k == c) && starts_with key s

abbrev is_boundary : Option ℕ → Bool
is_boundary none = true
is_boundary (some c) = c == 32

abbrev value_after : ℕ → Text → Option Text
value_after n s = elim (drop n s) [
  | [] ↦ none
  | c ∷ v ↦ if c == b'=' then some (token_run v) else none
]

abbrev fitting : ℕ → Option Text → Option Text
fitting capacity none = none
fitting capacity (some v) =
    if not (length v == 0) && not (leb capacity (length v)) then some v else none

-- The key at this place: its value, if there is one that fits.
abbrev token_here : Text → ℕ → Option ℕ → Text → Option Text
token_here key capacity before s =
    if is_boundary before then fitting capacity (value_after (length key) s) else none

-- The search, behind the character `before`; `skip` characters of a match are passed over.
abbrev first_token : Option Text → Option Text → Option Text
first_token none later = later
first_token (some v) later = some v

unfoldable pub find_token : Text → ℕ → ℕ → Option ℕ → Text → Option Text
unfolding starts_with token_run
find_token key capacity skip before [] = none
find_token key capacity (suc skip) before (c ∷ s) = find_token key capacity skip (some c) s
find_token key capacity zero before (c ∷ s) =
    let onward = find_token key capacity (length key - 1) (some c) s in
    let next = find_token key capacity 0 (some c) s in
    if starts_with key (c ∷ s)
    then first_token (token_here key capacity before (c ∷ s)) onward
    else next

-- digit_alert_detail_token
unfoldable pub detail_token : Text → Text → ℕ → Option Text
unfolding find_token
detail_token detail key capacity = find_token key capacity 0 none detail

abbrev reported : Option Text → Text
reported none = text "UNREPORTED"
reported (some v) = v

-- The two characters that stand for a line end in a body
abbrev break_mark : Text
break_mark = 92 ∷ b'n' ∷ []

abbrev line : Text → Text → Text
line label value = break_mark ++ label ++ value

unfoldable pub module_body : Alert → Text
unfolding severity_string detail_token
module_body a =
    text "severity: "
    ++ severity_string a.severity
    ++ line (text "summary: ") a.summary
    ++ line (text "module: ") (reported (detail_token a.detail (text "module") 96))
    ++ line (text "subsystem: ") (text "module_lifecycle")
    ++ line (text "version: ") (reported (detail_token a.detail (text "version") 40))
    ++ line (text "cause: ") (reported (detail_token a.detail (text "reason") 128))
    ++ line (text "stage: ") (reported (detail_token a.detail (text "stage") 80))
    ++ line (text "event_id: ") a.id
    ++ line (text "timestamp: ") (to_dec a.created_at)
    ++ line (text "operational_state: ") a.operational_state
    ++ line (text "detail: ") a.detail

unfoldable pub plain_body : Alert → Text
unfolding severity_string
plain_body a =
    severity_string a.severity
    ++ text " alert from "
    ++ a.source
    ++ text ". "
    ++ a.summary
    ++ text ". "
    ++ a.detail
    ++ text " Operational state: "
    ++ a.operational_state
    ++ text ". Alert ID: "
    ++ a.id
    ++ text "."

unfoldable pub spoken_body : Alert → Text
unfolding module_body plain_body
spoken_body a = if str_eq a.source (text "MODULE") then module_body a else plain_body a

-- digit_alert_speak: the message, and the file of messages afterwards. The time and the sequence of
-- messages are those of digit_channel_message_append.
abbrev pub spoken :
    Append
    → Option Text
    → Clock
    → ℕ
    → Alert
    → Option Text
    → Option Item
    → Option Message × Option Text
spoken system channels now sequence a messages none = (none, messages)
spoken system channels now sequence a messages (some c) =
    if leb 4096 (length (spoken_body a))
    then (none, messages)
    else message_append system channels now sequence c.id (text "digit") (spoken_body a) messages

unfoldable pub speak :
    Append → Option Text → Clock → ℕ → Alert → Option Text → Option Message × Option Text
unfolding find_channel spoken_body
speak system channels now sequence a messages =
    spoken system channels now sequence a messages (find_channel channels)

first_named-name :
    (name : Text) (items : List Item) (c : Item)
    → first_named name items ≡ some c
    → case_eq c.name name ≡ true
unfolding first_named
first_named-name name [] c e = cc
first_named-name name (d ∷ items) c e = ground (arith, e, first_named-name name items c)

-- If Digit speaks about an alert, then the channel it finds is named Alerts when the case of letters
-- is ignored, it is one of the channels of the file, and the message goes into it.
pub speak-Alerts :
    (system : Append) (channels : Option Text) (now : Clock) (sequence : ℕ) (a : Alert)
    (messages : Option Text) (m : Message) (after : Option Text)
    → speak system channels now sequence a messages ≡ (some m, after)
    → (c : Item) × (find_channel channels ≡ some c)
      × (case_eq c.name (text "Alerts") ≡ true)
      × (is_some (get channels c.id) ≡ true)
      × (m.channel_id ≡ take 63 c.id)
unfolding speak
speak-Alerts system channels now sequence a messages m after e = go (find_channel channels) refl e
  where
    go :
        (o : Option Item)
        → find_channel channels ≡ o
        → spoken system channels now sequence a messages o ≡ (some m, after)
        → (c : Item) × (find_channel channels ≡ some c)
          × (case_eq c.name (text "Alerts") ≡ true)
          × (is_some (get channels c.id) ≡ true)
          × (m.channel_id ≡ take 63 c.id)
    go none f e = cc
    go (some c) f e =
        let named : case_eq c.name (text "Alerts") ≡ true =
          unfold find_channel in
          first_named-name (text "Alerts") (take 128 (Channel.list channels)) c f in
        elim (Bool-cases (leb 4096 (length (spoken_body a)))) [
          | inl long ↦ let gone = rw long at e in cc
          | inr fits ↦
              let sent = rw fits at e in
              let (known, origin, body, at, file) =
                message_append-get system channels now sequence c.id (text "digit") (spoken_body a)
                  messages m after sent in
              (c, f, named, known, at)
        ]
