-- ===== src/Audit.antt =====
-- src/audit.c: the rolling history of lifecycle events. The entry that each event adds to the audit
-- file is left to the system.
pub mod History
mod Examples
use digit.Base.{
  ℕ, zero, suc, ◌+◌, ◌-◌, ◌%◌, ◌^◌, Option, none, some, List, [], ◌∷◌, set, take, replicate, Text,
  ltb, if◌then◌else◌,
}

-- digit_lifecycle_entry_t
pub record Entry : Type 0 where
  pub sequence : ℕ
  pub module_id : Text
  pub event : Text
  pub detail : Text

-- DIGIT_LIFECYCLE_AUDIT_CAPACITY
abbrev pub capacity : ℕ
capacity = 8192

pub record Lifecycle : Type 0 where
  pub entries : List Entry
  pub head : ℕ
  pub count : ℕ
  pub sequence : ℕ

-- The variables before the first event.
abbrev pub blank : Entry
blank = record { sequence = 0; module_id = []; event = []; detail = [] }

unfoldable pub init : Lifecycle
init = record { entries = replicate capacity blank; head = 0; count = 0; sequence = 0 }

abbrev or_empty : Option Text → Text
or_empty none = []
or_empty (some s) = s

-- One event, as it is cut to the entry's fields; unsigned long has 64 bits.
unfoldable pub entry_of : ℕ → Text → Text → Option Text → Entry
entry_of sequence module_id event detail = record {
  sequence = sequence;
  module_id = take 63 module_id;
  event = take 47 event;
  detail = take 255 (or_empty detail);
}

unfoldable pub add : Text → Text → Option Text → Lifecycle → Lifecycle
unfolding entry_of
add module_id event detail l =
    let sequence = (l.sequence + 1) % 2 ^ 64 in
    record {
      entries = set l.entries l.head (entry_of sequence module_id event detail);
      head = (l.head + 1) % capacity;
      count = if ltb l.count capacity then l.count + 1 else l.count;
      sequence = sequence;
    }

-- digit_audit_lifecycle; `none` is a null pointer.
unfoldable pub lifecycle : Option Text → Option Text → Option Text → Lifecycle → Lifecycle
unfolding add
lifecycle (some module_id) (some event) detail l = add module_id event detail l
lifecycle _ _ detail l = l
