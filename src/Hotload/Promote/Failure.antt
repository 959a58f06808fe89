-- ===== src/Hotload/Promote/Failure.antt =====
-- src/hotload.c: a failed promotion, from the first test of the candidate to the last gate.
use digit.Base.{
  ◌≡◌, refl, ◌⊎◌, inl, inr, Bool, true, false, Option, none, some, Text, arith, Bool-cases,
  if◌then◌else◌,
}
use digit.Abi.{Descriptor, ModuleRecord}
use digit.Qualification.{contains}
use digit.Hotload.{File, Candidate, Loaded, Host, Env, audit, find}
use digit.Hotload.Promote.{
  Plan, preloaded_candidate, with_library, with_descriptor, plan_of, same_version, identity,
  report_green, report_red, valid_candidate, inspected, promote, no_loader_entry,
}
use digit.Hotload.Promote.Rollback.{SameLoader, IsLost, FailsBack, transition-FailsBack}

module _ (env : Env) where
  preloaded-FailsBack :
      (p : Plan) (h : Host)
      → p.before ≡ h.registry
      → FailsBack env p.incumbent p.old_loaded h (preloaded_candidate env p h)
  unfolding preloaded_candidate
  preloaded-FailsBack p h b = elim (Bool-cases (no_loader_entry env p)) [
    | inl gone ↦ rw gone (λ e. ((refl, refl), inl refl))
    | inr there ↦ rw there (transition-FailsBack env p h b)
  ]

  with_descriptor-FailsBack :
      (id : Text) (c : Candidate) (incumbent : Option ModuleRecord) (already : Bool) (h : Host)
      (l : Loaded) (d : Option Descriptor)
      → FailsBack env incumbent
          (env.loader_find h.loader id)
          h
          (with_descriptor env id c incumbent already h l d)
  unfolding audit
  with_descriptor-FailsBack id c incumbent already h l none = λ e. ((refl, refl), inl refl)
  with_descriptor-FailsBack id c incumbent already h l (some d) =
      preloaded-FailsBack (plan_of env id c incumbent already h l d) (record h { preloaded = true })
        refl

  with_library-FailsBack :
      (id : Text) (c : Candidate) (incumbent : Option ModuleRecord) (already : Bool) (h : Host)
      (l : Option Loaded)
      → FailsBack env incumbent
          (env.loader_find h.loader id)
          h
          (with_library env id c incumbent already h l)
  unfolding audit
  with_library-FailsBack id c incumbent already h none = λ e. ((refl, refl), inl refl)
  with_library-FailsBack id c incumbent already h (some l) =
      with_descriptor-FailsBack id c incumbent already h l l.descriptor

  -- The failure of a promotion of the module `id` at the host `h`.
  abbrev pub IsRolledBack : Text → Host → Bool × Host → Type 0
  IsRolledBack id h = FailsBack env (find env h.registry id) (env.loader_find h.loader id) h

  valid-IsRolledBack :
      (file : File) (c : Candidate) (h : Host)
      → IsRolledBack file.module_id h (valid_candidate env file c h)
  unfolding valid_candidate
  valid-IsRolledBack file c h =
      let already = contains (some h.qualifications) (some (identity c)) in
      let incumbent = find env h.registry file.module_id in
      elim (Bool-cases (same_version incumbent c)) [
        | inl same ↦ rw same (λ e. cc)
        | inr changed ↦ rw changed (green file.module_id c incumbent already (env.load file))
      ]
    where
      green :
          (id : Text) (c : Candidate) (incumbent : Option ModuleRecord) (already : Bool)
          (l : Option Loaded)
          → FailsBack env incumbent
              (env.loader_find h.loader id)
              h
              (with_library env id c incumbent already (report_green env id already h) l)
      green id c incumbent true l =
          with_library-FailsBack id c incumbent true (report_green env id true h) l
      green id c incumbent false l =
          with_library-FailsBack id c incumbent false (report_green env id false h) l

  pick :
      (file : File) (h : Host) (b : Bool) (x y : Bool × Host)
      → IsRolledBack file.module_id h x
      → IsRolledBack file.module_id h y
      → IsRolledBack file.module_id h (if b then x else y)
  pick file h true x y kx ky = kx
  pick file h false x y kx ky = ky

  report_red-same :
      (c : Candidate) (h : Host)
      → SameLoader h (report_red env c h) × ((report_red env c h).registry ≡ h.registry)
  unfolding report_red
  report_red-same c h = ground arith

  inspected-IsRolledBack :
      (file : File) (h : Host) (c : Option Candidate)
      → IsRolledBack file.module_id h (inspected env file h c)
  unfolding audit
  inspected-IsRolledBack file h none = λ e. ((refl, refl), inl refl)
  inspected-IsRolledBack file h (some c) =
      pick file h c.valid _ _ (valid-IsRolledBack file c h)
        (λ e. ((report_red-same c h).0, inl (report_red-same c h).1))

-- A promotion that fails leaves the installed libraries as they were, open ones and closed ones, and
-- the registry too, unless the incumbent had run, and its start function is missing or fails when it
-- is to run again.
pub promote_rolls_back :
    (env : Env) (file : File) (h : Host)
    → (promote env file h).0 ≡ false
    → SameLoader h (promote env file h).1
      × (((promote env file h).1.registry ≡ h.registry)
          ⊎ IsLost env
              (find env h.registry file.module_id)
              (env.loader_find h.loader file.module_id))
unfolding promote
promote_rolls_back env file h = elim (Bool-cases (env.copy file)) [
  | inl copied ↦ rw copied (
      inspected-IsRolledBack env file
        (record h { staged = true; preloaded = false; start_attempted = false }) (env.inspect file))
  | inr failed ↦ rw failed (λ e. ((refl, refl), inl refl))
]
