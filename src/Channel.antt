-- ===== src/Channel.antt =====
-- src/channel.c: the channels and their messages, as tab-separated lines of two files.
pub mod RoundTrip
pub mod Messages
mod Examples
use digit.Base.{
  ℕ, ◌+◌, ◌%◌, ◌^◌, Bool, true, false, not, ◌&&◌, ◌||◌, Option, none, some, List, [], ◌∷◌, ◌++◌,
  length, take, Text, text, str_eq, has_char, leb, ◌==◌, if◌then◌else◌,
}
use digit.Base.Decimal.{to_dec}
use digit.Base.Scan.{Scan, pure, ◌>>=◌, ◌>>◌, until, spaces, unsigned_long_long, int}
use digit.Base.File.{fgets_lines, c_string}

-- digit_channel_t; `active` is the bit pattern of an int.
pub record Item : Type 0 where
  pub id : Text
  pub name : Text
  pub created_at : ℕ
  pub last_activity_at : ℕ
  pub active : ℕ

-- digit_channel_message_t
pub record Message : Type 0 where
  pub id : Text
  pub channel_id : Text
  pub created_at : ℕ
  pub origin : Text
  pub body : Text

-- digit_channel_safe_text; `none` is a null pointer.
unfoldable pub safe_text : Option Text → Bool
safe_text none = false
safe_text (some []) = false
safe_text (some (c ∷ s)) =
    not (has_char 9 (c ∷ s)) && not (has_char 10 (c ∷ s)) && not (has_char 13 (c ∷ s))

-- digit_channel_make_id, at the time `now` and behind `sequence` earlier ids
unfoldable pub make_id : Text → ℕ → ℕ → Text
make_id prefix now sequence =
    take 63 (prefix ++ (b'-' ∷ (to_dec now ++ (b'-' ∷ to_dec ((sequence + 1) % 2 ^ 64)))))

-- The line of digit_channel_write
unfoldable pub print_channel : Item → Text
print_channel c =
    c.id
    ++ (9
        ∷ (c.name
            ++ (9
                ∷ (to_dec c.created_at
                    ++ (9 ∷ (to_dec c.last_activity_at ++ (9 ∷ (to_dec c.active ++ 10 ∷ []))))))))

-- "%63[^\t]\t%127[^\t]\t%llu\t%llu\t%d": a tab of the format matches any white space.
unfoldable pub scan_channel : Scan Item
scan_channel = do
  id ← until 63 9
  spaces
  name ← until 127 9
  spaces
  created_at ← unsigned_long_long
  spaces
  last_activity_at ← unsigned_long_long
  spaces
  active ← int
  pure (record {
    id = id;
    name = name;
    created_at = created_at;
    last_activity_at = last_activity_at;
    active = active;
  })

-- A line that does not match is left out.
abbrev pub with_item {ℓ} : {A : Type ℓ} → Option (A × Text) → List A → List A
with_item none items = items
with_item (some (item, rest)) items = item ∷ items

unfoldable pub list_lines : List Text → List Item
unfolding scan_channel
list_lines [] = []
list_lines (line ∷ lines) = with_item (scan_channel (c_string line)) (list_lines lines)

-- digit_channel_list, without its capacity; no content is a file that cannot be opened.
unfoldable pub list : Option Text → List Item
unfolding list_lines
list none = []
list (some content) = list_lines (fgets_lines 4608 content)

unfoldable pub find : Text → List Item → Option Item
find id [] = none
find id (c ∷ items) = if str_eq c.id id then some c else find id items

-- digit_channel_get, with DIGIT_CHANNEL_MAX
unfoldable pub get : Option Text → Text → Option Item
unfolding list find
get file id = find id (take 128 (list file))

-- What the calls of one append on a file give: the directory, fopen, fprintf and fclose. A stream that
-- fails leaves `torn` in the file.
pub record Append : Type 0 where
  pub directory : Bool
  pub opens : Bool
  pub prints : Bool
  pub closes : Bool
  pub torn : Option Text

abbrev pub content_of : Option Text → Text
content_of none = []
content_of (some content) = content

unfoldable pub append_line : Append → Text → Option Text → Bool × Option Text
append_line system line file =
    if not system.directory || not system.opens
    then (false, file)
    else if not system.prints || not system.closes
    then (false, system.torn)
    else (true, some (content_of file ++ line))

-- What the two calls of digit_channel_now give that an append makes: the one of digit_channel_make_id,
-- and the one for created_at.
pub record Clock : Type 0 where
  pub id_time : ℕ
  pub created_time : ℕ

unfoldable pub new_channel : Clock → ℕ → Text → Item
unfolding make_id
new_channel now sequence name = record {
  id = make_id (text "channel") now.id_time sequence;
  name = name;
  created_at = now.created_time;
  last_activity_at = now.created_time;
  active = 1;
}

abbrev created : Item → Bool × Option Text → Option Item × Option Text
created c (true, file) = (some c, file)
created c (false, file) = (none, file)

-- digit_channel_create; the sequence is counted by the caller of the model.
unfoldable pub create : Append → Clock → ℕ → Text → Option Text → Option Item × Option Text
unfolding safe_text new_channel append_line print_channel
create system now sequence name file =
    if not (safe_text (some name)) || leb 128 (length name)
    then (none, file)
    else created (new_channel now sequence name)
        (append_line system (print_channel (new_channel now sequence name)) file)

-- digit_channel_init, at the time `now`
unfoldable pub init : Append → Bool → ℕ → Option Text → Bool × Option Text
unfolding get append_line print_channel
init system directory now file = elim (get file (text "general")) [
  | some c ↦ (directory, file)
  | none ↦
      if directory
      then append_line system
          (print_channel (record {
            id = text "general";
            name = text "General";
            created_at = now;
            last_activity_at = now;
            active = 1;
          }))
          file
      else (false, file)
]
