-- ===== src/Alert/Acknowledge.antt =====
-- src/alert.c: the lookups after an alert was acknowledged.
use digit.Base.{
  ℕ, zero, suc, ◌≡◌, refl, sym, ap, ◌∙◌, true, false, Option, none, some, List, [], ◌∷◌, ◌++◌,
  append-nil, take, All, All-append, Text, str_eq, str_eq_refl, str_eq→eq, arith, if◌then◌else◌,
  is_some, Bool-cases, Option-cases, inl, inr, some_inj,
}
use digit.Channel.{Append, append_line}
use digit.Alert.{
  Alert, Listed, Store, print_ack, list, find, get, acknowledge, acknowledge_found, acknowledged,
}
use digit.Alert.Lines.{IsStorable, all_lines}
use digit.Alert.Acks.{Ack, IsStored, ack_lines, ack_lines-append, first_ack, is_acknowledged-lines}
use digit.Alert.Laws.{view, store_of, list-view}

-- An alert with its acknowledgement in this list.
abbrev shown : List Ack → Alert → Listed
shown acks a = record { alert = a; acknowledged_at = first_ack a.id acks }

abbrev shown_first : List Ack → Option Alert → Option Listed
shown_first acks none = none
shown_first acks (some a) = some (shown acks a)

abbrev first_alert : Text → List Alert → Option Alert
first_alert id [] = none
first_alert id (a ∷ alerts) = if str_eq a.id id then some a else first_alert id alerts

find-view :
    (n : ℕ) (id : Text) (acks : List Ack) (alerts : List Alert)
    → All IsStored acks
    → find id (take n (view (some (ack_lines acks)) false alerts))
      ≡ shown_first acks (first_alert id (take n alerts))
unfolding find
find-view zero id acks alerts st = refl
find-view (suc n) id acks [] st = refl
find-view (suc n) id acks (a ∷ alerts) st =
    let here = is_acknowledged-lines a.id acks st in
    let rest = find-view n id acks alerts st in
    elim (Bool-cases (str_eq a.id id)) [
      | inl same ↦ rw (same, here) refl
      | inr other ↦ rw (other, rest) refl
    ]

get-first :
    (id : Text) (alerts : List Alert) (acks : List Ack) (sequence : ℕ)
    → All IsStorable alerts
    → All IsStored acks
    → get id (store_of alerts (some (ack_lines acks)) sequence)
      ≡ shown_first acks (first_alert id (take 1024 alerts))
unfolding get
get-first id alerts acks sequence st sa =
    ap (λ (items : List Listed). find id (take 1024 items))
      (list-view false alerts (some (ack_lines acks)) sequence st)
    ∙ find-view 1024 id acks alerts sa

first_alert-id :
    (id : Text) (alerts : List Alert) (a : Alert) → first_alert id alerts ≡ some a → a.id ≡ id
first_alert-id id [] a e = cc
first_alert-id id (b ∷ alerts) a e = elim (Bool-cases (str_eq b.id id)) [
  | inl same ↦
      let now : b ≡ a = some_inj (rw same at e) in
      ap (λ (x : Alert). x.id) (sym now) ∙ str_eq→eq b.id id same
  | inr other ↦ first_alert-id id alerts a (rw other at e)
]

first_ack-snoc :
    (id other : Text) (now : ℕ) (acks : List Ack)
    → first_ack other (acks ++ (id, now) ∷ []) ≡ (elim (first_ack other acks) [
      | some t ↦ some t
      | none ↦ if str_eq id other then some now else none
    ])
first_ack-snoc id other now [] = refl
first_ack-snoc id other now (a ∷ acks) = ground (arith, first_ack-snoc id other now acks)

-- Another alert is shown as before.
shown_first-other :
    (id other : Text) (now : ℕ) (acks : List Ack) (o : Option Alert)
    → ((a : Alert) → o ≡ some a → a.id ≡ other)
    → str_eq id other ≡ false
    → shown_first (acks ++ (id, now) ∷ []) o ≡ shown_first acks o
shown_first-other id other now acks none named differs = refl
shown_first-other id other now acks (some a) named differs =
    let apart : str_eq id a.id ≡ false = rw (named a refl) differs in
    let same : first_ack a.id (acks ++ (id, now) ∷ []) ≡ first_ack a.id acks =
      first_ack-snoc id a.id now acks ∙ keep apart (first_ack a.id acks) in
    ap (λ (o : Option ℕ). some (record { alert = a; acknowledged_at = o })) same
  where
    keep :
        str_eq id a.id ≡ false
        → (o : Option ℕ)
        → (elim o [ some t ↦ some t | none ↦ if str_eq id a.id then some now else none ]) ≡ o
    keep apart none = rw apart refl
    keep apart (some t) = refl

shown-now :
    (id : Text) (now : ℕ) (acks : List Ack) (a : Alert)
    → a.id ≡ id
    → first_ack a.id acks ≡ none
    → shown (acks ++ (id, now) ∷ []) a ≡ record { alert = a; acknowledged_at = some now }
shown-now id now acks a named fresh =
    let own : str_eq id a.id ≡ true = rw named (str_eq_refl id) in
    ap (λ (o : Option ℕ). record { alert = a; acknowledged_at = o })
      (first_ack-snoc id a.id now acks ∙ rw (fresh, own) refl)

module _ (system : Append) (now : ℕ) (id : Text) (alerts : List Alert) (acks : List Ack)
    (sequence : ℕ) (st : All IsStorable alerts) (sa : All IsStored acks)
    (new : IsStored (id, now)) where
  abbrev store : Store
  store = store_of alerts (some (ack_lines acks)) sequence

  get_eq :
      (other : Text) → get other store ≡ shown_first acks (first_alert other (take 1024 alerts))
  get_eq other = get-first other alerts acks sequence st sa

  appended :
      (a : Alert) (found : Listed) (next : Store)
      → acknowledged (shown acks a) now store (append_line system (print_ack id now) store.acks)
        ≡ (some found, next)
      → (found ≡ record { alert = a; acknowledged_at = some now })
        × (next.alerts ≡ some (all_lines alerts))
        × (next.acks ≡ some (ack_lines acks ++ print_ack id now))
  unfolding append_line
  appended a found next e = ground (arith, e)

  -- The lookups afterwards.
  get_next :
      (next : Store) (other : Text)
      → next.alerts ≡ some (all_lines alerts)
      → next.acks ≡ some (ack_lines acks ++ print_ack id now)
      → get other next ≡ shown_first (acks ++ (id, now) ∷ []) (first_alert other (take 1024 alerts))
  get_next next other f k =
      let whole : ack_lines acks ++ print_ack id now ≡ ack_lines (acks ++ (id, now) ∷ []) =
        ap (◌++◌ (ack_lines acks)) (sym (append-nil (print_ack id now)))
        ∙ sym (ack_lines-append acks ((id, now) ∷ [])) in
      same_get f (k ∙ ap some whole)
      ∙ get-first other alerts (acks ++ (id, now) ∷ []) sequence st
          (All-append IsStored acks ((id, now) ∷ []) sa (new, tt))
    where
      same_get :
          next.alerts ≡ some (all_lines alerts)
          → next.acks ≡ some (ack_lines (acks ++ (id, now) ∷ []))
          → get other next
            ≡ get other (store_of alerts (some (ack_lines (acks ++ (id, now) ∷ []))) sequence)
      same_get f k = unfold get list in rw (f, k) refl

  abbrev Answers : Listed → Store → Text → Type 0
  Answers found next other =
      (is_some found.acknowledged_at ≡ true)
      × (get other next ≡ (if str_eq id other then some found else get other store))

  unchanged :
      (a : Alert) (t : ℕ) (other : Text)
      → first_alert id (take 1024 alerts) ≡ some a
      → first_ack a.id acks ≡ some t
      → Answers (shown acks a) store other
  unchanged a t other first before = (
    rw before refl,
    elim (Bool-cases (str_eq id other)) [
      | inl same ↦ rw same (
          ap (λ (x : Text). get x store) (sym (str_eq→eq id other same))
          ∙ get_eq id
          ∙ rw first refl)
      | inr differs ↦ rw differs refl
    ],
  )

  changed :
      (a : Alert) (found : Listed) (next : Store) (other : Text)
      → first_alert id (take 1024 alerts) ≡ some a
      → first_ack a.id acks ≡ none
      → acknowledged (shown acks a) now store (append_line system (print_ack id now) store.acks)
        ≡ (some found, next)
      → Answers found next other
  changed a found next other first fresh e =
      let (made, f, k) = appended a found next e in
      let named = first_alert-id id (take 1024 alerts) a first in
      (
        rw made refl,
        elim (Bool-cases (str_eq id other)) [
          | inl same ↦ rw same (
              ap (λ (x : Text). get x next) (sym (str_eq→eq id other same))
              ∙ get_next next id f k
              ∙ ap (shown_first (acks ++ (id, now) ∷ [])) first
              ∙ ap some (shown-now id now acks a named fresh ∙ sym made))
          | inr differs ↦ rw differs (
              get_next next other f k
              ∙ shown_first-other id other now acks (first_alert other (take 1024 alerts))
                  (first_alert-id other (take 1024 alerts)) differs
              ∙ sym (get_eq other))
        ],
      )

  found_cases :
      (o : Option Alert) (found : Listed) (next : Store) (other : Text)
      → first_alert id (take 1024 alerts) ≡ o
      → acknowledge_found system now id store (shown_first acks o) ≡ (some found, next)
      → Answers found next other
  found_cases none found next other first e = cc
  found_cases (some a) found next other first e = elim (Option-cases (first_ack a.id acks)) [
    | inl fresh ↦ changed a found next other first fresh (rw fresh at e)
    | inr (t, before) ↦
        let kept : (some (record { alert = a; acknowledged_at = some t }), store)
            ≡ (some found, next) =
          rw before at e in
        let same_found : shown acks a ≡ found =
          ap (λ (o : Option ℕ). record { alert = a; acknowledged_at = o }) before
          ∙ some_inj (ap (λ (r : Option Listed × Store). r.0) kept) in
        let same_store : store ≡ next = ap (λ (r : Option Listed × Store). r.1) kept in
        rw (← same_found, ← same_store) (unchanged a t other first before)
  ]

  acknowledge-Answers :
      (found : Listed) (next : Store) (other : Text)
      → acknowledge system now id store ≡ (some found, next)
      → Answers found next other
  unfolding acknowledge
  acknowledge-Answers found next other e =
      found_cases (first_alert id (take 1024 alerts)) found next other refl
        (ap (acknowledge_found system now id store) (sym (get_eq id)) ∙ e)

-- If the files hold the lines of storable alerts and acknowledgements, and an alert is acknowledged,
-- then the answer carries a time, the lookup of that alert gives the answer from then on, and the
-- lookup of every other alert gives what it gave before.
pub get-acknowledge :
    (system : Append) (now : ℕ) (id : Text) (alerts : List Alert) (acks : List Ack) (sequence : ℕ)
    (found : Listed) (next : Store) (other : Text)
    → All IsStorable alerts
    → All IsStored acks
    → IsStored (id, now)
    → acknowledge system now id (store_of alerts (some (ack_lines acks)) sequence)
      ≡ (some found, next)
    → (is_some found.acknowledged_at ≡ true)
      × (get other next ≡ (
          if str_eq id other
          then some found
          else get other (store_of alerts (some (ack_lines acks)) sequence)))
get-acknowledge system now id alerts acks sequence found next other st sa new e =
    acknowledge-Answers system now id alerts acks sequence st sa new found next other e
