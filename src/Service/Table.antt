-- ===== src/Service/Table.antt =====
-- src/service_registry.c: the table under registration, removal and lookup.
use digit.Base.{
  ℕ, ◌+◌, ◌≡◌, refl, sym, ap, subst, ◌∙◌, true, false, ◌||◌, some, List, [], ◌∷◌, length, Text,
  str_eq, str_eq_refl, str_eq→eq, if◌then◌else◌, arith, Bool-cases, Option-cases, inl, inr,
}
use digit.Service.{
  Slot, Registry, service_max, is_named, lookup, is_taken, put_free, register_named, service_record,
}

-- size_t count
abbrev pub used_slots : List Slot → ℕ
used_slots [] = 0
used_slots (s ∷ slots) = (if s.used then 1 else 0) + used_slots slots

-- No two used slots have one name.
abbrev pub DistinctNames : List Slot → Type 0
DistinctNames [] = Unit
DistinctNames (s ∷ slots) = (s.used ≡ true → is_taken s.name slots ≡ false) × DistinctNames slots

-- The array has its size, the count is the number of used slots, and no name is used twice.
pub record IsWellFormed (r : Registry) : Type 0 where
  pub sized : length r.services ≡ service_max
  pub counted : r.count ≡ used_slots r.services
  pub distinct : DistinctNames r.services

pub str_eq_sym : (s t : Text) → str_eq s t ≡ str_eq t s
unfolding str_eq
str_eq_sym [] [] = refl
str_eq_sym [] (d ∷ t) = refl
str_eq_sym (c ∷ s) [] = refl
str_eq_sym (c ∷ s) (d ∷ t) = ground (arith, str_eq_sym s t)

-- Two names that both are a third one.
pub str_eq_both :
    (s t name : Text) → str_eq s name ≡ true → str_eq t name ≡ true → str_eq s t ≡ true
str_eq_both s t name a b = rw (str_eq→eq s name a, str_eq→eq t name b) (str_eq_refl name)

taken-same :
    (s t : Text) (slots : List Slot) → str_eq s t ≡ true → is_taken s slots ≡ is_taken t slots
taken-same s t slots e = ap (λ (x : Text). is_taken x slots) (str_eq→eq s t e)

module _ (new : Slot) (used : new.used ≡ true) where
  put_free-length :
      (slots more : List Slot) → put_free new slots ≡ some more → length more ≡ length slots
  unfolding put_free
  put_free-length [] more e = ground arith
  put_free-length (s ∷ slots) more e = elim (Option-cases (put_free new slots)) [
    | inl full ↦ ground (arith, e, full)
    | inr (rest, fit) ↦ let rec = put_free-length slots rest fit in ground (arith, e, fit, rec)
  ]

  put_free-used_slots :
      (slots more : List Slot)
      → put_free new slots ≡ some more
      → used_slots more ≡ used_slots slots + 1
  unfolding put_free
  put_free-used_slots [] more e = ground arith
  put_free-used_slots (s ∷ slots) more e = elim (Option-cases (put_free new slots)) [
    | inl full ↦ ground (arith, e, full, used)
    | inr (rest, fit) ↦
        let rec = put_free-used_slots slots rest fit in ground (arith, e, fit, rec, used)
  ]

  put_free-is_taken :
      (name : Text) (slots more : List Slot)
      → put_free new slots ≡ some more
      → is_taken name more ≡ (str_eq new.name name || is_taken name slots)
  unfolding put_free is_taken is_named
  put_free-is_taken name [] more e = ground arith
  put_free-is_taken name (s ∷ slots) more e = elim (Option-cases (put_free new slots)) [
    | inl full ↦ ground (arith, e, full, used)
    | inr (rest, fit) ↦
        let rec = put_free-is_taken name slots rest fit in ground (arith, e, fit, rec, used)
  ]

  put_free-lookup :
      (name : Text) (slots more : List Slot)
      → is_taken new.name slots ≡ false
      → put_free new slots ≡ some more
      → lookup name more ≡ (
          if str_eq new.name name
          then some (new.handler, new.handler_context)
          else lookup name slots)
  unfolding put_free is_taken is_named lookup
  put_free-lookup name [] more fresh e = ground arith
  put_free-lookup name (s ∷ slots) more fresh e = elim (Option-cases (put_free new slots)) [
    | inl full ↦ let k = str_eq_both s.name new.name name in ground (arith, e, full, used, fresh, k)
    | inr (rest, fit) ↦
        let k = str_eq_both s.name new.name name in
        elim (Bool-cases (is_taken new.name slots)) [
          | inl taken ↦ ground (arith, fresh, taken)
          | inr not_taken ↦
              let rec = put_free-lookup name slots rest not_taken fit in
              ground (arith, e, fit, rec, used, fresh, k)
        ]
  ]

  put_free-DistinctNames :
      (slots more : List Slot)
      → is_taken new.name slots ≡ false
      → put_free new slots ≡ some more
      → DistinctNames slots
      → DistinctNames more
  unfolding put_free is_taken is_named
  put_free-DistinctNames [] more fresh e d = ground arith
  put_free-DistinctNames (s ∷ slots) more fresh e (d, ds) = elim (Bool-cases s.used) [
    | inr free ↦
        let now : new ∷ slots ≡ more = ground (arith, e, free) in
        subst DistinctNames now ((λ _. ground (arith, fresh, free)), ds)
    | inl taken ↦ elim (Option-cases (put_free new slots)) [
      | inl full ↦ ground (arith, e, full, taken)
      | inr (rest, fit) ↦
          let now : s ∷ rest ≡ more = ground (arith, e, taken, fit) in
          let later' : is_taken new.name slots ≡ false = ground (arith, fresh) in
          let other : str_eq s.name new.name ≡ false = ground (arith, fresh, taken) in
          subst DistinctNames now (
            (λ u.
                put_free-is_taken s.name slots rest fit
                ∙ ground (arith, d u, str_eq_sym s.name new.name, other)),
            put_free-DistinctNames slots rest later' fit ds,
          )
    ]
  ]

-- What a registration that succeeds goes through.
pub registered :
    (name_max thread : ℕ) (name : Text) (handler context : ℕ) (r : Registry)
    → (register_named name_max thread name handler context r).0 ≡ true
    → (is_taken name r.services ≡ false)
      × (slots : List Slot) × (put_free (service_record name handler context) r.services
          ≡ some slots)
      × ((register_named name_max thread name handler context r).1
          ≡ record r { services = slots; count = r.count + 1 })
unfolding register_named
registered name_max thread name handler context r e =
    elim (Option-cases (put_free (service_record name handler context) r.services)) [
      | inl full ↦ ground (arith, e, full)
      | inr (slots, fit) ↦ (ground (arith, e), slots, fit, ground (arith, e, fit))
    ]

pub refused :
    (name_max thread : ℕ) (name : Text) (handler context : ℕ) (r : Registry)
    → (register_named name_max thread name handler context r).0 ≡ false
    → (register_named name_max thread name handler context r).1 ≡ r
unfolding register_named
refused name_max thread name handler context r e =
    elim (Option-cases (put_free (service_record name handler context) r.services)) [
      | inl full ↦ ground (arith, e, full)
      | inr (slots, fit) ↦ ground (arith, e, fit)
    ]

-- Registering a service keeps the table well formed, whether it succeeds or not.
pub register-IsWellFormed :
    (name_max thread : ℕ) (name : Text) (handler context : ℕ) (r : Registry)
    → IsWellFormed r
    → IsWellFormed (register_named name_max thread name handler context r).1
register-IsWellFormed name_max thread name handler context r w =
    elim (Bool-cases (register_named name_max thread name handler context r).0) [
      | inr stays ↦
          subst IsWellFormed (sym (refused name_max thread name handler context r stays)) w
      | inl yes' ↦
          let (fresh, slots, fit, now) = registered name_max thread name handler context r yes' in
          let new = service_record name handler context in
          subst IsWellFormed (sym now) (record {
            sized = put_free-length new refl r.services slots fit ∙ w.sized;
            counted = omega (arith, put_free-used_slots new refl r.services slots fit, w.counted);
            distinct = put_free-DistinctNames new refl r.services slots fresh fit w.distinct;
          })
    ]

-- After a registration that succeeds, the name leads to the handler and the context that it gave,
-- and every other name leads where it led before.
pub lookup-register :
    (name_max thread : ℕ) (name : Text) (handler context : ℕ) (r : Registry) (other : Text)
    → (register_named name_max thread name handler context r).0 ≡ true
    → lookup other (register_named name_max thread name handler context r).1.services
      ≡ (if str_eq name other then some (handler, context) else lookup other r.services)
lookup-register name_max thread name handler context r other e =
    let (fresh, slots, fit, now) = registered name_max thread name handler context r e in
    rw now
      (put_free-lookup (service_record name handler context) refl other r.services slots fresh fit)
