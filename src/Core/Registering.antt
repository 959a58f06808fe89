-- ===== src/Core/Registering.antt =====
-- src/core_services.c: the table of services after the registration of Core's own.
use digit.Base.{
  ℕ, All, ◌≡◌, refl, ap, ◌∙◌, Bool, true, false, none, some, ◌∷◌, any, Text, str_eq, if◌then◌else◌,
  inl, inr, ◌⊎◌,
}
use digit.Service.{Registry, register, lookup}
use digit.Core.{
  later_services, root_service, unregistered_names, registered_next, register_later, register_core,
}
use digit.Core.Unregistering.{IsQuiet}
use digit.Core.Outcomes.{Outcomes, handler_in, register_quiet, Adds-more, register_later-Outcomes}

root_unregistered : any (λ n. str_eq n root_service) unregistered_names ≡ true
unfolding str_eq
root_unregistered = refl

later_unregistered :
    All (λ (s : Text × ℕ). any (λ n. str_eq n s.0) unregistered_names ≡ true) later_services
unfolding str_eq
later_unregistered =
    (refl, (refl, (refl, (refl, (refl, (refl, (refl, (refl, (refl, (refl, tt))))))))))

register_core-Outcomes :
    (name_max thread : ℕ) (r : Registry)
    → IsQuiet thread r
    → Outcomes thread ((root_service, 1) ∷ later_services) r r (register_core name_max thread r)
unfolding register_core
register_core-Outcomes name_max thread r q =
    go (register name_max thread (some root_service) (some 1) 0 r) refl
  where
    go :
        (result : Bool × Registry)
        → register name_max thread (some root_service) (some 1) 0 r ≡ result
        → Outcomes thread ((root_service, 1) ∷ later_services) r r (
            registered_next result
              (register_later name_max thread later_services)
              (λ next. some (false, next)))
    go (true, mid) e =
        let one = register_quiet name_max thread root_service 1 r true mid q e in
        let (ok, next, runs, quiet, good, bad) =
          register_later-Outcomes name_max thread later_services r mid one.quiet
            (Adds-more thread root_service 1 r r mid root_unregistered (λ other. inl refl) one)
            later_unregistered in
        (
          ok,
          next,
          runs,
          quiet,
          (λ u other. good u other ∙ ap (handler_in later_services other) (one.added refl other)),
          bad,
        )
    go (false, mid) e =
        let one = register_quiet name_max thread root_service 1 r false mid q e in
        (
          false,
          mid,
          refl,
          one.quiet,
          (λ u. cc),
          (λ u other. inl (ap (λ (x : Registry). lookup other x.services) (one.refused refl))),
        )

-- In a quiet table the registration of Core's services ends without waiting and leaves the table
-- quiet. If it succeeds, each of its names leads to its handler and every other name leads where it
-- led; if it fails, every name leads where it led, or is one of its names and leads nowhere.
pub register_core_all :
    (name_max thread : ℕ) (r : Registry) (other : Text)
    → IsQuiet thread r
    → (ok : Bool) × (next : Registry) × (register_core name_max thread r ≡ some (ok, next))
      × IsQuiet thread next
      × ((lookup other next.services ≡ (
            if ok
            then handler_in ((root_service, 1) ∷ later_services) other (lookup other r.services)
            else lookup other r.services))
          ⊎ ((ok ≡ false)
              × (any (λ n. str_eq n other) unregistered_names ≡ true)
              × (lookup other next.services ≡ none)))
register_core_all name_max thread r other q = go (register_core-Outcomes name_max thread r q)
  where
    go :
        Outcomes thread ((root_service, 1) ∷ later_services) r r (register_core name_max thread r)
        → (ok : Bool) × (next : Registry) × (register_core name_max thread r ≡ some (ok, next))
          × IsQuiet thread next
          × ((lookup other next.services ≡ (
                if ok
                then handler_in ((root_service, 1) ∷ later_services) other (lookup other r.services)
                else lookup other r.services))
              ⊎ ((ok ≡ false)
                  × (any (λ n. str_eq n other) unregistered_names ≡ true)
                  × (lookup other next.services ≡ none)))
    go (true, next, runs, quiet, good, bad) = (true, next, runs, quiet, inl (good refl other))
    go (false, next, runs, quiet, good, bad) = (
      false,
      next,
      runs,
      quiet,
      elim (bad refl other) [ inl kept ↦ inl kept | inr (named, gone) ↦ inr (refl, named, gone) ],
    )
