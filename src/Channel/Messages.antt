-- ===== src/Channel/Messages.antt =====
-- src/channel.c: the messages of the channels.
use digit.Base.{
  ℕ, ◌≡◌, Bool, true, false, not, ◌||◌, Option, none, some, List, [], ◌∷◌, ◌++◌, length, take, Text,
  text, str_eq, leb, arith, if◌then◌else◌, is_some,
}
use digit.Base.Decimal.{to_dec}
use digit.Base.Scan.{Scan, pure, ◌>>=◌, ◌>>◌, until, spaces, unsigned_long_long}
use digit.Base.File.{fgets_lines, c_string}
use digit.Channel.{Clock, Message, Append, append_line, get, safe_text, make_id, content_of}

-- The line of digit_channel_message_append
unfoldable pub print_message : Message → Text
print_message m =
    m.id
    ++ (9
        ∷ (m.channel_id
            ++ (9 ∷ (to_dec m.created_at ++ (9 ∷ (m.origin ++ (9 ∷ (m.body ++ 10 ∷ []))))))))

unfoldable pub new_message : Clock → ℕ → Text → Text → Text → Message
new_message now sequence channel_id origin body = record {
  id = make_id (text "message") now.id_time sequence;
  channel_id = take 63 channel_id;
  created_at = now.created_time;
  origin = origin;
  body = body;
}

abbrev appended : Message → Bool × Option Text → Option Message × Option Text
appended m (true, file) = (some m, file)
appended m (false, file) = (none, file)

-- digit_channel_message_append: the file of the channels is read, that of the messages is appended to.
unfoldable pub message_append :
    Append
    → Option Text
    → Clock
    → ℕ
    → Text
    → Text
    → Text
    → Option Text
    → Option Message × Option Text
unfolding new_message append_line
message_append system channels now sequence channel_id origin body file =
    if not (is_some (get channels channel_id))
      || not (safe_text (some origin))
      || not (safe_text (some body))
      || leb 32 (length origin)
      || leb 4096 (length body)
    then (none, file)
    else appended (new_message now sequence channel_id origin body)
        (append_line system (print_message (new_message now sequence channel_id origin body)) file)

-- "%63[^\t]\t%63[^\t]\t%llu\t%31[^\t]\t%4095[^\n]"
unfoldable pub scan_message : Scan Message
scan_message = do
  id ← until 63 9
  spaces
  channel_id ← until 63 9
  spaces
  created_at ← unsigned_long_long
  spaces
  origin ← until 31 9
  spaces
  body ← until 4095 10
  pure (record {
    id = id;
    channel_id = channel_id;
    created_at = created_at;
    origin = origin;
    body = body;
  })

abbrev in_channel : Text → Option (Message × Text) → List Message → List Message
in_channel id none messages = messages
in_channel id (some (m, rest)) messages = if str_eq m.channel_id id then m ∷ messages else messages

unfoldable pub list_messages : Text → List Text → List Message
unfolding scan_message
list_messages id [] = []
list_messages id (line ∷ lines) =
    in_channel id (scan_message (c_string line)) (list_messages id lines)

-- digit_channel_message_list, without its capacity
unfoldable pub message_list : Text → Option Text → List Message
unfolding list_messages
message_list id none = []
message_list id (some content) = list_messages id (fgets_lines 4608 content)

-- A message that was appended belongs to a channel that the file lists, its texts have no tab and no
-- line end, and the file is the one before with its line at the end.
pub message_append-get :
    (system : Append) (channels : Option Text) (now : Clock) (sequence : ℕ)
    (channel_id origin body : Text) (file : Option Text) (m : Message) (after : Option Text)
    → message_append system channels now sequence channel_id origin body file ≡ (some m, after)
    → (is_some (get channels channel_id) ≡ true)
      × (safe_text (some m.origin) ≡ true)
      × (safe_text (some m.body) ≡ true)
      × (m.channel_id ≡ take 63 channel_id)
      × (after ≡ some (content_of file ++ print_message m))
unfolding message_append new_message append_line
message_append-get system channels now sequence channel_id origin body file m after e =
    ground (arith, e)
