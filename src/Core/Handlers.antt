-- ===== src/Core/Handlers.antt =====
-- src/core_services.c: the handlers of the services over channels, alerts and administrators. The
-- sizes of the structures are parameters, since the compiler lays them out.
use digit.Base.{
  ℕ, Bool, true, false, not, ◌&&◌, Option, none, some, List, take, length, Text, text, leb, ◌==◌,
}
use digit.Channel.{Clock, Item, Message, Append}
use digit.Channel
use digit.Channel.Messages.{message_append, message_list}
use digit.Alert.{Alert, Listed, Store}
use digit.Alert
use digit.Alert.Body.{speak}
use digit.CoreSa.{Roster}
use digit.CoreSa

-- The arguments of a handler but the request itself: which pointers are there, and the sizes.
pub record Call : Type 0 where
  pub request : Bool
  pub request_size : ℕ
  pub response : Bool
  pub response_size : ℕ
  pub response_used : Bool

-- What a handler returns.
pub data Reply {ℓ} (A : Type ℓ) : Type ℓ where
  invalid_argument : Reply A
  start_failed : Reply A
  answered : A → Reply A

-- The test of a handler that takes a request of this size.
abbrev pub takes : ℕ → ℕ → Call → Bool
takes request_size response_size call =
    call.request
    && (call.request_size == request_size)
    && call.response
    && leb response_size call.response_size
    && call.response_used

-- The test of a handler that takes no request.
abbrev pub takes_nothing : ℕ → Call → Bool
takes_nothing response_size call =
    (call.request_size == 0)
    && call.response
    && leb response_size call.response_size
    && call.response_used

-- The handlers' common form: behind the test comes one call of Core, which may change a file.
abbrev pub answer {ℓ} : {A : Type ℓ} → {S : Type 0} → Bool → A × S → S → Reply A × S
answer false (result, next) state = (invalid_argument, state)
answer true (result, next) state = (answered result, next)

abbrev pub answer_with {ℓ} : {A : Type ℓ} → Bool → A → Reply A
answer_with false result = invalid_argument
answer_with true result = answered result

-- channel_create_service; the state is the file of the channels.
unfoldable pub channel_create :
    ℕ → ℕ → Call → Append → Clock → ℕ → Text → Option Text → Reply (Option Item) × Option Text
channel_create request_size response_size call system now sequence name channels =
    answer (takes request_size response_size call)
      (Channel.create system now sequence name channels) channels

-- channel_list_service, with DIGIT_CORE_SERVICE_CHANNEL_LIST_MAX
unfoldable pub channel_list : ℕ → Call → Option Text → Reply (List Item)
channel_list response_size call channels =
    answer_with (takes_nothing response_size call) (take 128 (Channel.list channels))

-- channel_get_service
unfoldable pub channel_get : ℕ → ℕ → Call → Text → Option Text → Reply (Option Item)
channel_get request_size response_size call id channels =
    answer_with (takes request_size response_size call) (Channel.get channels id)

-- channel_message_append_service; the state is the file of the messages.
unfoldable pub channel_message_append :
    ℕ
    → ℕ
    → Call
    → Append
    → Option Text
    → Clock
    → ℕ
    → Text
    → Text
    → Text
    → Option Text
    → Reply (Option Message) × Option Text
channel_message_append request_size response_size call system channels now sequence id origin body
      messages =
    answer (takes request_size response_size call)
      (message_append system channels now sequence id origin body messages) messages

-- channel_message_list_service, with DIGIT_CORE_SERVICE_MESSAGE_LIST_MAX
unfoldable pub channel_message_list : ℕ → ℕ → Call → Text → Option Text → Reply (List Message)
channel_message_list request_size response_size call id messages =
    answer_with (takes request_size response_size call) (take 256 (message_list id messages))

-- The whole of digit_alert_raise: an alert that is written is spoken about, at a later reading of the
-- clock.
abbrev spoken_about :
    Append
    → Option Text
    → Clock
    → ℕ
    → Option Text
    → Option Alert × Store
    → Option Alert × (Store × Option Text)
spoken_about system channels now sequence messages (none, store) = (none, (store, messages))
spoken_about system channels now sequence messages (some a, store) =
    (some a, (store, (speak system channels now sequence a messages).1))

unfoldable pub raise_alert :
    Append
    → Option Text
    → Clock
    → Clock
    → ℕ
    → ℕ
    → Text
    → Text
    → Text
    → Text
    → Store × Option Text
    → Option Alert × (Store × Option Text)
raise_alert system channels now said_at sequence severity source summary detail state
      (store, messages) =
    spoken_about system channels said_at sequence messages
      (Alert.raise system now severity source summary detail state store)

-- alert_raise_service; the state is the files of the alerts and of the messages.
unfoldable pub alert_raise :
    ℕ
    → ℕ
    → Call
    → Append
    → Option Text
    → Clock
    → Clock
    → ℕ
    → ℕ
    → Text
    → Text
    → Text
    → Text
    → Store × Option Text
    → Reply (Option Alert) × (Store × Option Text)
unfolding raise_alert
alert_raise request_size response_size call system channels now said_at sequence severity source
      summary detail state files =
    answer (takes request_size response_size call)
      (raise_alert system channels now said_at sequence severity source summary detail state files)
      files

-- alert_list_service, with DIGIT_CORE_SERVICE_ALERT_LIST_MAX
unfoldable pub alert_list : ℕ → ℕ → Call → Bool → Store → Reply (List Listed)
alert_list request_size response_size call unacknowledged_only store =
    answer_with (takes request_size response_size call)
      (take 256 (Alert.list unacknowledged_only store))

-- alert_get_service
unfoldable pub alert_get : ℕ → ℕ → Call → Text → Store → Reply (Option Listed)
alert_get request_size response_size call id store =
    answer_with (takes request_size response_size call) (Alert.get id store)

-- alert_ack_service
unfoldable pub alert_ack : ℕ → ℕ → Call → Append → ℕ → Text → Store → Reply (Option Listed) × Store
alert_ack request_size response_size call system now id store =
    answer (takes request_size response_size call) (Alert.acknowledge system now id store) store

-- digit_admin_sa_service; an identity that has no terminator in its array is not passed on.
unfoldable pub admin_sa : ℕ → ℕ → Call → ℕ → Option Roster → Text → Reply Bool
admin_sa request_size response_size call euid roster identity =
    answer_with (takes request_size response_size call)
      (not (leb 64 (length identity)) && CoreSa.verify euid roster (text "stn-labz") identity)
