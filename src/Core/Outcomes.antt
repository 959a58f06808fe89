-- ===== src/Core/Outcomes.antt =====
-- src/core_services.c: what the registrations lead to, one after the other.
use digit.Base.{
  ℕ, All, ◌≡◌, refl, sym, ap, subst, ◌∙◌, Bool, true, false, Option, none, some, List, [], ◌∷◌, any,
  Text, str_eq, str_eq→eq, if◌then◌else◌, Bool-cases, inl, inr, ◌⊎◌,
}
use digit.Service.{Registry, register, register_named, lookup, excluded, owner}
use digit.Service.Table.{IsWellFormed, registered, refused, register-IsWellFormed, lookup-register}
use digit.Core.{unregistered_names, unregister_core, registered_next, failed_with, register_later}
use digit.Core.Unregistering.{IsQuiet, Releases, Released, unregister_names-IsQuiet}

-- The registrations so far: a name leads where it led, or to a handler of Core.
abbrev pub Adds : Registry → Registry → Type 0
Adds first r =
    (other : Text)
    → (lookup other r.services ≡ lookup other first.services)
      ⊎ ((any (λ n. str_eq n other) unregistered_names ≡ true)
          × (handler : ℕ) × (lookup other r.services ≡ some (handler, 0)))

-- Where a name leads after these registrations.
abbrev pub handler_in : List (Text × ℕ) → Text → Option (ℕ × ℕ) → Option (ℕ × ℕ)
handler_in [] other before = before
handler_in ((name, handler) ∷ services) other before =
    handler_in services other (if str_eq name other then some (handler, 0) else before)

-- A registration in a quiet table.
pub record Registered (thread : ℕ) (name : Text) (handler : ℕ) (r : Registry) (ok : Bool)
    (next : Registry) : Type 0 where
  pub quiet : IsQuiet thread next
  pub added :
      ok ≡ true
      → (other : Text)
      → lookup other next.services
        ≡ (if str_eq name other then some (handler, 0) else lookup other r.services)
  pub refused : ok ≡ false → next ≡ r

pub register_quiet :
    (name_max thread : ℕ) (name : Text) (handler : ℕ) (r : Registry) (ok : Bool) (next : Registry)
    → IsQuiet thread r
    → register name_max thread (some name) (some handler) 0 r ≡ (ok, next)
    → Registered thread name handler r ok next
unfolding register owner
register_quiet name_max thread name handler r false next q e =
    let named = register_named name_max thread name handler 0 r in
    let stays : next ≡ r =
      sym (ap (λ (x : Bool × Registry). x.1) e)
      ∙ refused name_max thread name handler 0 r (ap (λ (x : Bool × Registry). x.0) e) in
    record { quiet = subst (IsQuiet thread) (sym stays) q; added = λ u. cc; refused = λ u. stays }
register_quiet name_max thread name handler r true next q e =
    let taken = ap (λ (x : Bool × Registry). x.0) e in
    let there : (register_named name_max thread name handler 0 r).1 ≡ next =
      ap (λ (x : Bool × Registry). x.1) e in
    let (fresh, slots, fit, now) = registered name_max thread name handler 0 r taken in
    let idle : next.active_calls ≡ 0 =
      ap (λ (x : Registry). x.active_calls) (sym there ∙ now) ∙ q.idle in
    let mine : excluded thread next ≡ false = ap (excluded thread) (sym there ∙ now) ∙ q.mine in
    record {
      quiet = record {
        well =
            subst IsWellFormed there
              (register-IsWellFormed name_max thread name handler 0 r q.well);
        idle = idle;
        mine = mine;
      };
      added = λ u other.
          ap (λ (x : Registry). lookup other x.services) (sym there)
          ∙ lookup-register name_max thread name handler 0 r other taken;
      refused = λ u. cc;
    }

pub Adds-more :
    (thread : ℕ) (name : Text) (handler : ℕ) (first r mid : Registry)
    → any (λ n. str_eq n name) unregistered_names ≡ true
    → Adds first r
    → Registered thread name handler r true mid
    → Adds first mid
Adds-more thread name handler first r mid here adds one other =
    elim (Bool-cases (str_eq name other)) [
      | inl mine ↦ inr (
        subst (λ (t : Text). any (λ n. str_eq n t) unregistered_names ≡ true)
            (str_eq→eq name other mine) here,
        handler,
        one.added refl other ∙ rw mine refl,
      )
      | inr apart ↦
          let same : lookup other mid.services ≡ lookup other r.services =
            one.added refl other ∙ rw apart refl in
          subst
            (λ (o : Option (ℕ × ℕ)).
              (o ≡ lookup other first.services)
              ⊎ ((any (λ n. str_eq n other) unregistered_names ≡ true)
                  × (h : ℕ) × (o ≡ some (h, 0))))
            (sym same) (adds other)
    ]

-- A registration that fails takes the ones before it back.
takes_back :
    (names : List Text) (first mid next : Registry) (other : Text)
    → (lookup other mid.services ≡ lookup other first.services)
      ⊎ ((any (λ n. str_eq n other) names ≡ true)
          × (handler : ℕ) × (lookup other mid.services ≡ some (handler, 0)))
    → Releases names mid next
    → Released names mid next
    → (lookup other next.services ≡ lookup other first.services)
      ⊎ ((any (λ n. str_eq n other) names ≡ true) × (lookup other next.services ≡ none))
takes_back names first mid next other (inr (mine, handler, l)) releases released =
    inr (mine, released other handler mine l)
takes_back names first mid next other (inl same) releases released = elim (releases other) [
  | inl kept ↦ inl (kept ∙ same)
  | inr gone ↦ inr gone
]

-- What the registrations lead to.
abbrev pub Outcomes : ℕ → List (Text × ℕ) → Registry → Registry → Option (Bool × Registry) → Type 0
Outcomes thread services first r result =
    (ok : Bool) × (next : Registry) × (result ≡ some (ok, next))
    × IsQuiet thread next
    × (ok ≡ true
        → (other : Text)
        → lookup other next.services ≡ handler_in services other (lookup other r.services))
    × (ok ≡ false → Releases unregistered_names first next)

pub register_later-Outcomes :
    (name_max thread : ℕ) (services : List (Text × ℕ)) (first r : Registry)
    → IsQuiet thread r
    → Adds first r
    → All (λ (s : Text × ℕ). any (λ n. str_eq n s.0) unregistered_names ≡ true) services
    → Outcomes thread services first r (register_later name_max thread services r)
unfolding register_later
register_later-Outcomes name_max thread [] first r q adds named =
    (true, r, refl, q, (λ u other. refl), (λ u. cc))
register_later-Outcomes name_max thread ((name, handler) ∷ services) first r q adds (here, named) =
    go (register name_max thread (some name) (some handler) 0 r) refl
      (λ mid q' adds'. register_later-Outcomes name_max thread services first mid q' adds' named)
  where
    go :
        (result : Bool × Registry)
        → register name_max thread (some name) (some handler) 0 r ≡ result
        → ((mid : Registry)
            → IsQuiet thread mid
            → Adds first mid
            → Outcomes thread services first mid (register_later name_max thread services mid))
        → Outcomes thread ((name, handler) ∷ services) first r (
            registered_next result
              (register_later name_max thread services)
              (λ next. failed_with (unregister_core thread next)))
    go (true, mid) e onward =
        let one = register_quiet name_max thread name handler r true mid q e in
        let (ok, next, runs, quiet, good, bad) =
          onward mid one.quiet (Adds-more thread name handler first r mid here adds one) in
        (
          ok,
          next,
          runs,
          quiet,
          (λ u other. good u other ∙ ap (handler_in services other) (one.added refl other)),
          bad,
        )
    go (false, mid) e onward =
        let one = register_quiet name_max thread name handler r false mid q e in
        let (next, runs, quiet, releases, released) =
          unregister_names-IsQuiet thread unregistered_names mid one.quiet in
        (
          false,
          next,
          ap failed_with (unfold unregister_core in runs),
          quiet,
          (λ u. cc),
          (λ u other.
              takes_back unregistered_names first mid next other
                (subst
                  (λ (x : Registry).
                    (lookup other x.services ≡ lookup other first.services)
                    ⊎ ((any (λ n. str_eq n other) unregistered_names ≡ true)
                        × (h : ℕ) × (lookup other x.services ≡ some (h, 0))))
                  (sym (one.refused refl)) (adds other))
                releases released),
        )
