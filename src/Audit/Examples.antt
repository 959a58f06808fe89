-- ===== src/Audit/Examples.antt =====
-- src/audit.c after two events.
use digit.Base.{◌≡◌, ◌-◌, ◌%◌, min, none, some, List, [], ◌∷◌, Option, get_elem?, Text, text, arith}
use digit.Audit.{capacity}
use digit.Audit.History.{add_all, entry_at, ring_holds_recent}

abbrev two_events : List (Text × Text × Option Text)
two_events =
    (text "echo", text "ACTIVATED", none) ∷ (text "time", text "START_FAILED", some (text "x")) ∷ []

ring_holds_recent_example :
    ((add_all two_events).count ≡ min 2 capacity)
    × (get_elem? (add_all two_events).entries ((2 - 1 - 1) % capacity) ≡ entry_at two_events 1)
ring_holds_recent_example = ring_holds_recent two_events 1 (omega arith) (omega arith) (omega arith)
