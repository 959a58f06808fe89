-- ===== src/Qualification.antt =====
-- src/qualification.c: the inventory of module versions that have passed qualification.
pub mod Laws
pub mod Store
mod Examples
use digit.Base.{
  ℕ, ◌+◌, ◌-◌, Bool, true, false, ◌&&◌, Option, none, some, List, [], ◌∷◌, ◌++◌, length, take, Text,
  str_eq, ltb, leb, ◌==◌, if◌then◌else◌,
}
use digit.Abi.{Descriptor}

-- DIGIT_QUALIFICATION_MAX
abbrev pub qualification_max : ℕ
qualification_max = 4096

pub record Entry : Type 0 where
  pub module_id : Text
  pub version_major : ℕ
  pub version_minor : ℕ
  pub version_patch : ℕ

-- The first `count` elements of the array `entries`.
pub record Inventory : Type 0 where
  pub entries : List Entry

unfoldable pub init : Inventory
init = record { entries = [] }

unfoldable pub matches : Entry → Descriptor → Bool
matches entry d =
    str_eq entry.module_id d.id
    && (entry.version_major == d.version_major)
    && (entry.version_minor == d.version_minor)
    && (entry.version_patch == d.version_patch)

unfoldable pub contains_entry : List Entry → Descriptor → Bool
contains_entry [] d = false
contains_entry (entry ∷ entries) d = if matches entry d then true else contains_entry entries d

-- `none` is the null pointer.
unfoldable pub contains : Option Inventory → Option Descriptor → Bool
contains (some inventory) (some d) = contains_entry inventory.entries d
contains _ _ = false

unfoldable pub entry_of : ℕ → Descriptor → Entry
entry_of id_max d = record {
  module_id = take (id_max - 1) d.id;
  version_major = d.version_major;
  version_minor = d.version_minor;
  version_patch = d.version_patch;
}

abbrev pub is_empty : Text → Bool
is_empty [] = true
is_empty (c ∷ s) = false

unfoldable pub record_descriptor : ℕ → Inventory → Descriptor → Bool × Inventory
record_descriptor id_max inventory d =
    if is_empty d.id
    then (false, inventory)
    else if contains (some inventory) (some d)
    then (true, inventory)
    else if leb qualification_max (length inventory.entries)
    then (false, inventory)
    else (true, record { entries = inventory.entries ++ entry_of id_max d ∷ [] })
