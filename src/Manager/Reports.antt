-- ===== src/Manager/Reports.antt =====
-- src/module_manager.c: the rejections that a round of the loop reports.
use digit.Base.{ℕ, ◌+◌, ◌≡◌, false, Option, none, some, List, [], ◌∷◌, if◌then◌else◌}
use digit.Abi.{Descriptor}
use digit.Authority.{requires_qualification}
use digit.Manager.{
  Env, Event, rejection, start_failure, activated, Manager, Step, pure, ◌>>=◌, is_ok, record_at,
  reject, persist, stage_persistence,
}

-- How many rejections operators have seen.
abbrev pub rejections : List Event → ℕ
rejections [] = 0
rejections (rejection d stage ∷ events) = rejections events + 1
rejections (start_failure id ∷ events) = rejections events
rejections (activated id ∷ events) = rejections events

-- One more rejection if the step ends the round, and none if it goes on.
abbrev IsCounted : {A : Type 0} → ℕ → Option A × Manager → Type 0
IsCounted before (none, next) = rejections next.events ≡ before + 1
IsCounted before (some a, next) = rejections next.events ≡ before

abbrev Reports : {A : Type 0} → Step A → Type 0
Reports s = (m : Manager) → IsCounted (rejections m.events) (s m)

module _ (env : Env) where
  -- The end of the qualification of a new version.
  save_or_reject : ℕ → Descriptor → Step (Unit {0})
  save_or_reject index d =
      persist env d >>= λ saved. if saved then pure tt else reject env index stage_persistence

  -- The registry does not verify the module in the slot, whose version has qualified before.
  abbrev pub IsSilent : ℕ → Manager → Option (Unit {0}) × Manager → Type 0
  IsSilent index m r =
      (requires_qualification (some m.qualifications)
          (some (record_at env index m.registry).descriptor)
        ≡ false)
      × (is_ok (env.verify m.registry (record_at env index m.registry).descriptor.id).0 ≡ false)
      × (r.0 ≡ none)
      × (r.1.events ≡ m.events)
