-- ===== src/Audit/History.antt =====
-- src/audit.c: the ring after any number of events.
use digit.Base.{
  ℕ, zero, suc, ◌+◌, ◌-◌, ◌%◌, ◌^◌, ◌<◌, ◌≡◌, ◌≢◌, refl, sym, ap, ◌∙◌, min, Option, none, some,
  List, [], ◌∷◌, length, replicate, get_elem?, get_elem?-set_self, get_elem?-set_ne, length-set,
  Text, arith,
}
use digit.Audit.{Entry, Lifecycle, init, entry_of, add, capacity, blank}

-- The variables after a number of events: module, event and detail of each, the last one first.
abbrev pub add_all : List (Text × Text × Option Text) → Lifecycle
add_all [] = init
add_all ((module_id, event, detail) ∷ earlier) = add module_id event detail (add_all earlier)

length-replicate : {A : Type 0} (n : ℕ) (a : A) → length (replicate n a) ≡ n
length-replicate zero a = refl
length-replicate (suc n) a = omega (arith, length-replicate n a)

-- The counters that a number of events leaves.
abbrev IsRing : ℕ → Lifecycle → Type 0
IsRing n l =
    (length l.entries ≡ capacity)
    × (l.head ≡ n % capacity)
    × (l.count ≡ min n capacity)
    × (l.sequence ≡ n)

add-IsRing :
    (n : ℕ) (module_id event : Text) (detail : Option Text) (l : Lifecycle)
    → suc n < 2 ^ 64
    → IsRing n l
    → IsRing (suc n) (add module_id event detail l)
unfolding add
add-IsRing n module_id event detail l fits (size, head, count, sequence) = (
  length-set l.entries l.head _ ∙ size,
  omega (arith, head),
  ground (arith, count),
  omega (arith, sequence, fits),
)

ring :
    (events : List (Text × Text × Option Text))
    → length events < 2 ^ 64
    → IsRing (length events) (add_all events)
unfolding init
ring [] fits = (length-replicate capacity blank, refl, refl, refl)
ring ((module_id, event, detail) ∷ events) fits =
    add-IsRing (length events) module_id event detail (add_all events) fits
      (ring events (omega (arith, fits)))

-- The newest event but `age`, as the entry of its number.
abbrev pub entry_at : List (Text × Text × Option Text) → ℕ → Option Entry
entry_at [] age = none
entry_at ((module_id, event, detail) ∷ events) zero =
    some (entry_of (suc (length events)) module_id event detail)
entry_at (x ∷ events) (suc age) = entry_at events age

add-newest :
    (n : ℕ) (module_id event : Text) (detail : Option Text) (l : Lifecycle) (slot : ℕ)
    → suc n < 2 ^ 64
    → IsRing n l
    → slot ≡ n % capacity
    → get_elem? (add module_id event detail l).entries slot
      ≡ some (entry_of (suc n) module_id event detail)
unfolding add
add-newest n module_id event detail l slot fits (size, head, count, sequence) at =
    let here : slot ≡ l.head = at ∙ sym head in
    let number : (l.sequence + 1) % 2 ^ 64 ≡ suc n = omega (arith, sequence, fits) in
    rw here (
      get_elem?-set_self l.entries l.head
        (entry_of ((l.sequence + 1) % 2 ^ 64) module_id event detail) (omega (arith, head, size))
      ∙ ap (λ (k : ℕ). some (entry_of k module_id event detail)) number)

add-older :
    (n : ℕ) (module_id event : Text) (detail : Option Text) (l : Lifecycle) (slot : ℕ)
    → IsRing n l
    → slot ≢ n % capacity
    → get_elem? (add module_id event detail l).entries slot ≡ get_elem? l.entries slot
unfolding add
add-older n module_id event detail l slot (size, head, count, sequence) other =
    get_elem?-set_ne l.entries l.head slot _ (λ e. other (sym e ∙ head))

held :
    (events : List (Text × Text × Option Text)) (age : ℕ)
    → length events < 2 ^ 64
    → age < capacity
    → age < length events
    → get_elem? (add_all events).entries ((length events - 1 - age) % capacity)
      ≡ entry_at events age
held [] age fits recent some' = absurd (omega (arith, some'))
held ((m, e, d) ∷ events) zero fits recent some' =
    add-newest (length events) m e d (add_all events) _ fits (ring events (omega (arith, fits)))
      (omega arith)
held ((m, e, d) ∷ events) (suc age) fits recent some' =
    let same : (suc (length events) - 1 - suc age) % capacity
        ≡ (length events - 1 - age) % capacity =
      omega arith in
    add-older (length events) m e d (add_all events) _ (ring events (omega (arith, fits)))
      (λ clash. omega (arith, clash, recent, some'))
    ∙ ap (get_elem? (add_all events).entries) same
    ∙ held events age (omega (arith, fits)) (omega (arith, recent)) (omega (arith, some'))

-- After any sequence of fewer than 2 ^ 64 events, the ring counts them up to its capacity, and each
-- of the last 8192 stands in it with its number, in the slot of its number.
pub ring_holds_recent :
    (events : List (Text × Text × Option Text)) (age : ℕ)
    → length events < 2 ^ 64
    → age < capacity
    → age < length events
    → ((add_all events).count ≡ min (length events) capacity)
      × (get_elem? (add_all events).entries ((length events - 1 - age) % capacity)
          ≡ entry_at events age)
ring_holds_recent events age fits recent some' =
    ((ring events fits).2, held events age fits recent some')
