-- ===== src/Core/Unregistering.antt =====
-- src/core_services.c: the table of services after Core's own were taken out.
use digit.Base.{
  ℕ, ◌-◌, set, ◌≡◌, refl, sym, ap, subst, ◌∙◌, Bool, true, false, none, some, List, [], ◌∷◌, any,
  Text, str_eq, str_eq_refl, str_eq→eq, if◌then◌else◌, ◌==◌, arith, Bool-cases, Option-cases, inl,
  inr, ◌⊎◌,
}
use digit.Service.{
  Registry, Outcome, returned, unregister, unregister_slot, find_owned, lookup, excluded, Slot,
  empty_slot, owner,
}
use digit.Service.Table.{IsWellFormed}
use digit.Service.Removal.{unregister_removes}
use digit.Core.{unregistered_next, unregister_names}

-- A well-formed table in which no handler runs and no other thread replaces a library.
pub record IsQuiet (thread : ℕ) (r : Registry) : Type 0 where
  pub well : IsWellFormed r
  pub idle : r.active_calls ≡ 0
  pub mine : excluded thread r ≡ false

-- Every name leads where it led, or it is one of these names and leads nowhere.
abbrev pub Releases : List Text → Registry → Registry → Type 0
Releases names r next =
    (other : Text)
    → (lookup other next.services ≡ lookup other r.services)
      ⊎ ((any (λ n. str_eq n other) names ≡ true) × (lookup other next.services ≡ none))

-- Without active calls an unregistration does not wait.
unregister_ends :
    (thread : ℕ) (name : Text) (r : Registry)
    → IsQuiet thread r
    → ((unregister thread name 0 r ≡ (returned false, r)) × (find_owned name 0 r.services ≡ none))
      ⊎ ((slots : List Slot) × (n : ℕ) × (unregister thread name 0 r
            ≡ (returned true, record r { services = slots; count = n })))
unfolding unregister unregister_slot
unregister_ends thread name r q =
    let idle = q.idle in
    let mine = q.mine in
    elim (Option-cases (find_owned name 0 r.services)) [
      | inl missing ↦ inl (ground (arith, missing, mine), missing)
      | inr (i, found) ↦ inr (
        set r.services i empty_slot,
        if r.count == 0 then 0 else r.count - 1,
        ground (arith, found, mine, idle),
      )
    ]

owned_found :
    (name : Text) (handler : ℕ) (slots : List Slot)
    → find_owned name 0 slots ≡ none
    → lookup name slots ≡ some (handler, 0)
    → ⊥
unfolding find_owned lookup
owned_found name handler [] e l = cc
owned_found name handler (s ∷ slots) e l = elim (Option-cases (find_owned name 0 slots)) [
  | inr (i, found) ↦ ground (arith, e, found, l)
  | inl missing ↦ ground (arith, e, l, owned_found name handler slots missing)
]

-- One call of the unregistration, in a quiet table.
pub record Unregistered (thread : ℕ) (name : Text) (r : Registry) : Type 0 where
  pub done : Bool
  pub after : Registry
  pub goes : unregister thread name 0 r ≡ (returned done, after)
  pub quiet : IsQuiet thread after
  pub others :
      (other : Text)
      → (lookup other after.services ≡ lookup other r.services)
        ⊎ ((str_eq name other ≡ true) × (lookup other after.services ≡ none))
  pub own :
      (handler : ℕ) → lookup name r.services ≡ some (handler, 0) → lookup name after.services ≡ none

pub unregister_quiet :
    (thread : ℕ) (name : Text) (r : Registry) → IsQuiet thread r → Unregistered thread name r
unfolding owner
unregister_quiet thread name r q = elim (unregister_ends thread name r q) [
  | inl (stays, missing) ↦ record {
    done = false;
    after = r;
    goes = stays;
    quiet = q;
    others = λ other. inl refl;
    own = λ handler l. absurd (owned_found name handler r.services missing l);
  }
  | inr (slots, n, goes) ↦
      let after = record r { services = slots; count = n } in
      let done : (unregister thread name 0 r).0 ≡ returned true =
        ap (λ (x : Outcome × Registry). x.0) goes in
      let same : (unregister thread name 0 r).1 ≡ after =
        ap (λ (x : Outcome × Registry). x.1) goes in
      let gives : (other : Text)
          → lookup other slots ≡ (if str_eq name other then none else lookup other r.services) =
        λ other.
          ap (λ (x : Registry). lookup other x.services) (sym same)
          ∙ (unregister_removes thread name 0 r other q.well done).1 in
      record {
        done = true;
        after = after;
        goes = goes;
        quiet = record {
          well = subst IsWellFormed same (unregister_removes thread name 0 r name q.well done).0;
          idle = q.idle;
          mine = q.mine;
        };
        others = λ other. elim (Bool-cases (str_eq name other)) [
          | inl mine ↦ inr (mine, gives other ∙ rw mine refl)
          | inr apart ↦ inl (gives other ∙ rw apart refl)
        ];
        own = λ handler l. gives name ∙ rw (str_eq_refl name) refl;
      }
]

-- These names do not lead to handlers with a null context any more.
abbrev pub Released : List Text → Registry → Registry → Type 0
Released names r next =
    (other : Text) (handler : ℕ)
    → any (λ n. str_eq n other) names ≡ true
    → lookup other r.services ≡ some (handler, 0)
    → lookup other next.services ≡ none

releases_more :
    (name : Text) (names : List Text) (r mid next : Registry) (other : Text)
    → (lookup other mid.services ≡ lookup other r.services)
      ⊎ ((str_eq name other ≡ true) × (lookup other mid.services ≡ none))
    → (lookup other next.services ≡ lookup other mid.services)
      ⊎ ((any (λ n. str_eq n other) names ≡ true) × (lookup other next.services ≡ none))
    → (lookup other next.services ≡ lookup other r.services)
      ⊎ ((any (λ n. str_eq n other) (name ∷ names) ≡ true) × (lookup other next.services ≡ none))
releases_more name names r mid next other (inl same) (inl rest) = inl (rest ∙ same)
releases_more name names r mid next other (inr (mine, gone)) (inl rest) =
    inr (ground (arith, mine), rest ∙ gone)
releases_more name names r mid next other first (inr (mine, gone)) =
    inr (ground (arith, mine), gone)

stays_gone :
    (names : List Text) (r next : Registry) (other : Text)
    → (lookup other next.services ≡ lookup other r.services)
      ⊎ ((any (λ n. str_eq n other) names ≡ true) × (lookup other next.services ≡ none))
    → lookup other r.services ≡ none
    → lookup other next.services ≡ none
stays_gone names r next other (inl same) gone = same ∙ gone
stays_gone names r next other (inr (mine, now)) gone = now

pub unregister_names-IsQuiet :
    (thread : ℕ) (names : List Text) (r : Registry)
    → IsQuiet thread r
    → (next : Registry) × (unregister_names thread names r ≡ some next)
      × IsQuiet thread next
      × Releases names r next
      × Released names r next
unfolding unregister_names
unregister_names-IsQuiet thread [] r q =
    (r, refl, q, (λ other. inl refl), (λ other handler a l. cc))
unregister_names-IsQuiet thread (name ∷ names) r q =
    let u = unregister_quiet thread name r q in
    let (next, runs, quiet, releases, released) =
      unregister_names-IsQuiet thread names u.after u.quiet in
    (
      next,
      ap (λ (x : Outcome × Registry). unregistered_next x (unregister_names thread names)) u.goes
          ∙ runs,
      quiet,
      (λ other. releases_more name names r u.after next other (u.others other) (releases other)),
      (λ other handler a l. elim (Bool-cases (str_eq name other)) [
        | inl mine ↦
            let gone =
              subst
                (λ (n : Text).
                  lookup n r.services ≡ some (handler, 0) → lookup n u.after.services ≡ none)
                (str_eq→eq name other mine) (u.own handler) l in
            stays_gone names u.after next other (releases other) gone
        | inr apart ↦ elim (u.others other) [
          | inl same ↦ released other handler (ground (arith, a, apart)) (same ∙ l)
          | inr (named, gone) ↦ stays_gone names u.after next other (releases other) gone
        ]
      ]),
    )
