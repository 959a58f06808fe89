-- ===== src/AgentRoot/Validity.antt =====
-- src/agent_root.c: what a valid root says, and the root of Digit.
use digit.Base.{
  ◌≡◌, refl, ap, true, Option, none, some, List, [], ◌∷◌, map, Text, text, str_eq, str_eq→eq, arith,
}
use digit.AgentRoot.{
  Root, same, orders_ok, traits_ok, validate, digit_root, required_orders, required_traits,
}

same_text : (o : Option Text) (t : Text) → same o t ≡ true → o ≡ some t
unfolding same
same_text none t e = cc
same_text (some s) t e = ap some (str_eq→eq s t e)

orders-required :
    (os : List (Option Text)) (ts : List Text) → orders_ok os ts ≡ true → os ≡ map some ts
unfolding orders_ok
orders-required [] [] e = refl
orders-required [] (t ∷ ts) e = cc
orders-required (o ∷ os) [] e = cc
orders-required (o ∷ os) (t ∷ ts) e =
    let first = same_text o t (ground (arith, e)) in
    let rest = orders-required os ts (ground (arith, e)) in cc

traits-required :
    (os : List (Option Text)) (ts : List Text) → traits_ok os ts ≡ true → os ≡ map some ts
unfolding traits_ok
traits-required [] [] e = refl
traits-required [] (t ∷ ts) e = cc
traits-required (o ∷ os) [] e = cc
traits-required (o ∷ os) (t ∷ ts) e =
    let first = same_text o t (ground (arith, e)) in
    let rest = traits-required os ts (ground (arith, e)) in cc

-- A valid root carries exactly the required orders and traits, each in its place, and belongs to
-- STN-LABZ.
pub validate_required :
    (r : Root)
    → validate (some r) ≡ true
    → (r.orders ≡ map some required_orders)
      × (r.traits ≡ map some required_traits)
      × (r.organization_id ≡ some (text "STN-LABZ"))
unfolding validate
validate_required r e =
    let (o, t, s) = parts in
    (
      orders-required r.orders required_orders o,
      traits-required r.traits required_traits t,
      same_text r.organization_id (text "STN-LABZ") s,
    )
  where
    parts :
        (orders_ok r.orders required_orders ≡ true)
        × (traits_ok r.traits required_traits ≡ true)
        × (same r.organization_id (text "STN-LABZ") ≡ true)
    parts = ground (arith, e)

-- A test: the compiled root is valid.
pub digit_root_valid : validate (some digit_root) ≡ true
unfolding validate digit_root str_eq
digit_root_valid = refl
