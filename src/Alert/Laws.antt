-- ===== src/Alert/Laws.antt =====
-- src/alert.c: what the list of alerts shows after an alert was raised.
use digit.Base.{
  ℕ, ◌≡◌, refl, sym, ap, ◌∙◌, Bool, ◌&&◌, Option, some, List, [], ◌∷◌, ◌++◌, append-nil, All,
  All-append, Text, arith, if◌then◌else◌, is_some,
}
use digit.Base.File.{fgets_lines, fgets_lines-empty}
use digit.Channel.{Clock, Append, append_line}
use digit.Alert.{
  Alert, Listed, Store, print_alert, is_acknowledged, listed, list_lines, list, raise,
}
use digit.Alert.Lines.{IsStorable, all_lines, all_lines-append, read_line, fgets_lines-cons}

-- What a list shows of these alerts: all of them, or those that are not acknowledged.
abbrev pub view : Option Text → Bool → List Alert → List Listed
view acks only [] = []
view acks only (a ∷ alerts) =
    if only && is_some (is_acknowledged acks a.id)
    then view acks only alerts
    else record { alert = a; acknowledged_at = is_acknowledged acks a.id } ∷ view acks only alerts

list_lines-view :
    (acks : Option Text) (only : Bool) (alerts : List Alert)
    → All IsStorable alerts
    → list_lines acks only (fgets_lines 1600 (all_lines alerts)) ≡ view acks only alerts
unfolding list_lines
list_lines-view acks only [] st = ap (list_lines acks only) (fgets_lines-empty 1600)
list_lines-view acks only (a ∷ alerts) (sa, st) =
    ap (list_lines acks only) (fgets_lines-cons a (all_lines alerts) sa)
    ∙ ap
        (λ (o : Option (Alert × Text)).
          listed acks only o (list_lines acks only (fgets_lines 1600 (all_lines alerts))))
        (read_line a sa)
    ∙ ap
        (λ (items : List Listed).
          if only && is_some (is_acknowledged acks a.id)
          then items
          else record { alert = a; acknowledged_at = is_acknowledged acks a.id } ∷ items)
        (list_lines-view acks only alerts st)

-- The files with these alerts.
abbrev pub store_of : List Alert → Option Text → ℕ → Store
store_of alerts acks sequence = record {
  alerts = some (all_lines alerts);
  acks = acks;
  sequence = sequence;
}

pub list-view :
    (only : Bool) (alerts : List Alert) (acks : Option Text) (sequence : ℕ)
    → All IsStorable alerts
    → list only (store_of alerts acks sequence) ≡ view acks only alerts
unfolding list
list-view only alerts acks sequence st = list_lines-view acks only alerts st

raised_file :
    (system : Append) (now : Clock) (severity : ℕ) (source summary detail state : Text) (a : Alert)
    (content : Text) (acks : Option Text) (sequence : ℕ) (next : Store)
    → raise system now severity source summary detail state
        (record { alerts = some content; acks = acks; sequence = sequence })
      ≡ (some a, next)
    → (next.alerts ≡ some (content ++ print_alert a)) × (next.acks ≡ acks)
unfolding raise append_line
raised_file system now severity source summary detail state a content acks sequence next e =
    ground (arith, e)

-- If the file holds the lines of storable alerts, and an alert is raised that is storable, then the
-- list afterwards shows the alerts before and the new one at the end, in full or without those that
-- are acknowledged.
pub list-raise :
    (system : Append) (now : Clock) (severity : ℕ) (source summary detail state : Text)
    (alerts : List Alert) (acks : Option Text) (sequence : ℕ) (a : Alert) (next : Store)
    (only : Bool)
    → All IsStorable alerts
    → IsStorable a
    → raise system now severity source summary detail state (store_of alerts acks sequence)
      ≡ (some a, next)
    → list only next ≡ view acks only (alerts ++ a ∷ [])
list-raise system now severity source summary detail state alerts acks sequence a next only st new
      e =
    let (file, same) =
      raised_file system now severity source summary detail state a (all_lines alerts) acks sequence
        next e in
    let whole : all_lines (alerts ++ a ∷ []) ≡ all_lines alerts ++ print_alert a =
      all_lines-append alerts (a ∷ [])
      ∙ ap (◌++◌ (all_lines alerts)) (append-nil (print_alert a)) in
    let file' : next.alerts ≡ some (all_lines (alerts ++ a ∷ [])) = file ∙ ap some (sym whole) in
    same_list next only file' same
    ∙ list-view only (alerts ++ a ∷ []) acks 0 (All-append IsStorable alerts (a ∷ []) st (new, tt))
  where
    same_list :
        (next : Store) (only : Bool)
        → next.alerts ≡ some (all_lines (alerts ++ a ∷ []))
        → next.acks ≡ acks
        → list only next ≡ list only (store_of (alerts ++ a ∷ []) acks 0)
    same_list next only f s = unfold list in rw (f, s) refl
