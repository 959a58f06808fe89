-- ===== src/Qualification/Store.antt =====
-- src/qualification_store.c: the inventory as a text file, one `id|major|minor|patch` line for each
-- entry.
pub mod Lines
mod Reading
pub mod Sound
pub mod RoundTrip
use digit.Base.{
  ℕ, zero, suc, ◌+◌, ◌-◌, Bool, true, false, ◌&&◌, ◌||◌, Option, none, some, List, [], ◌∷◌, ◌++◌,
  length, take, Text, str_eq, ltb, leb, ◌==◌, if◌then◌else◌,
}
use digit.Base.Decimal.{to_dec}
use digit.Base.Scan.{Scan, pure, ◌>>=◌, ◌>>◌, until, literal, unsigned_int}
use digit.Base.File.{fgets_lines, c_string}
use digit.Abi.{Descriptor}
use digit.Qualification.{Entry, Inventory, init, record_descriptor, is_empty}

-- The loop that drops trailing line ends.
unfoldable pub strip_line_end : Text → Text
strip_line_end [] = []
strip_line_end (c ∷ s) =
    let rest = strip_line_end s in
    if ((c == 10) || (c == 13)) && is_empty rest then [] else c ∷ rest

-- "%63[^|]|%u|%u|%u"
unfoldable pub scan_fields : Scan (Text × ℕ × ℕ × ℕ)
scan_fields = do
  id ← until 63 b'|'
  literal b'|'
  major ← unsigned_int
  literal b'|'
  minor ← unsigned_int
  literal b'|'
  patch ← unsigned_int
  pure (id, major, minor, patch)

-- The conversion %c must find nothing left.
abbrev pub at_end : Option ((Text × ℕ × ℕ × ℕ) × Text) → Option (Text × ℕ × ℕ × ℕ)
at_end (some (fields, [])) = some fields
at_end _ = none

unfoldable pub descriptor_of : ℕ → Text × ℕ × ℕ × ℕ → Descriptor
descriptor_of id_max (id, major, minor, patch) = record {
  id = take (id_max - 1) id;
  version_major = major;
  version_minor = minor;
  version_patch = patch;
  has_qualify = false;
  has_start = false;
  has_stop = false;
}

abbrev pub if_recorded : Bool × Inventory → Option Inventory
if_recorded (true, inventory) = some inventory
if_recorded (false, inventory) = none

unfoldable pub load_fields : ℕ → Option (Text × ℕ × ℕ × ℕ) → Inventory → Option Inventory
load_fields id_max none inventory = none
load_fields id_max (some fields) inventory =
    if_recorded (record_descriptor id_max inventory (descriptor_of id_max fields))

abbrev pub is_skipped : Text → Bool
is_skipped [] = true
is_skipped (c ∷ s) = c == b'#'

-- One round of the loop; `none` is the rejection of the whole file.
unfoldable pub load_line : ℕ → Text → Inventory → Option Inventory
load_line id_max buffer inventory =
    let line = strip_line_end (c_string buffer) in
    if is_skipped line
    then some inventory
    else load_fields id_max (at_end (scan_fields line)) inventory

unfoldable pub load_lines : ℕ → List Text → Inventory → Option Inventory
load_lines id_max [] inventory = some inventory
load_lines id_max (line ∷ lines) inventory = elim (load_line id_max line inventory) [
  | none ↦ none
  | some next ↦ load_lines id_max lines next
]

-- What fopen and the reads gave: the bytes up to the end of the file, or to a read error.
pub record Readable : Type 0 where
  pub content : Text
  pub read_error : Bool

abbrev pub accept : Bool → Option Inventory → Bool × Inventory
accept read_error none = (false, init)
accept true (some inventory) = (false, init)
accept false (some inventory) = (true, inventory)

-- A file that cannot be opened is an empty inventory; one that is malformed is refused.
unfoldable pub load : ℕ → Option Readable → Bool × Inventory
load id_max none = (true, init)
load id_max (some file) =
    accept file.read_error (load_lines id_max (fgets_lines 512 file.content) init)

-- fprintf (file, "%s|%u|%u|%u\n", …)
unfoldable pub print_entry : Entry → Text
print_entry e =
    e.module_id
    ++ (b'|'
        ∷ (to_dec e.version_major
            ++ (b'|' ∷ (to_dec e.version_minor ++ (b'|' ∷ (to_dec e.version_patch ++ 10 ∷ []))))))

-- Whether each call on the stream succeeds, and what a stream that failed left in the file.
pub record Stream : Type 0 where
  pub opens : Bool
  pub prints : ℕ → Bool
  pub closes : Bool
  pub torn : Text

unfoldable pub print_entries : Stream → ℕ → List Entry → Option Text
print_entries stream index [] = some []
print_entries stream index (e ∷ entries) =
    let rest = print_entries stream (suc index) entries in
    if stream.prints index
    then elim rest [ none ↦ none | some content ↦ some (print_entry e ++ content) ]
    else none

abbrev pub written : Stream → Option Text → Bool × Option Text
written stream none = (false, some stream.torn)
written stream (some content) =
    if stream.closes then (true, some content) else (false, some stream.torn)

-- The result, and the file afterwards; `none` is no file.
unfoldable pub save : Stream → Option Text → Inventory → Bool × Option Text
save stream before inventory =
    if stream.opens
    then written stream (print_entries stream 0 inventory.entries)
    else (false, before)
