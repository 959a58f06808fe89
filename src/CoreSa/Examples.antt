-- ===== src/CoreSa/Examples.antt =====
-- src/core_sa.c with a roster of one row.
use digit.Base.{◌≡◌, ◌↔◌, true, false, some, [], ◌∷◌, ◌++◌, Text, text}
use digit.CoreSa.{Roster, Status, verify}
use digit.CoreSa.Decision.{IsAuthorized, verify-IsAuthorized}

abbrev roster_status : Status
roster_status = record {
  is_regular = true;
  links = 1;
  size = 22;
  is_private = true;
  uid = 0;
  device = 1;
  inode = 2;
  modified = (3, 4);
  changed = (5, 6);
}

abbrev row : Text
row = text "ann" ++ 9 ∷ (text "lab" ++ 9 ∷ (text "SA" ++ 9 ∷ b'1' ∷ 9 ∷ b'1' ∷ 9 ∷ b'1' ∷ 10 ∷ []))

abbrev roster : Roster
roster = record {
  status = some roster_status;
  content = row;
  read_error = false;
  after = some roster_status;
  named = some roster_status;
  closes = true;
}

verify-IsAuthorized_example :
    (verify 1000 (some roster) (text "lab") (text "ann") ≡ true)
    ↔ IsAuthorized 1000 (some roster) (text "lab") (text "ann")
verify-IsAuthorized_example = verify-IsAuthorized 1000 (some roster) (text "lab") (text "ann")
