-- ===== src/Core.antt =====
-- src/core_services.c: the services that Core itself offers. A handler is the number of its service
-- in the list, counted from 1, and every context is the null pointer, 0.
pub mod Unregistering
pub mod Outcomes
pub mod Registering
pub mod Handlers
pub mod Facts
mod Examples
use digit.Base.{
  ℕ, ◌+◌, Bool, true, false, not, ◌&&◌, ◌||◌, Option, none, some, List, [], ◌∷◌, any, Text, text,
  str_eq, if◌then◌else◌,
}
use digit.Service.{Registry, Outcome, returned, waiting, register, unregister}

-- The registrations behind the first one, in their order
abbrev pub later_services : List (Text × ℕ)
later_services =
    (text "channel.create", 2)
    ∷ (text "channel.list", 3)
    ∷ (text "channel.get", 4)
    ∷ (text "channel.message.append", 5)
    ∷ (text "channel.message.list", 6)
    ∷ (text "alert.raise", 7)
    ∷ (text "alert.list", 8)
    ∷ (text "alert.get", 9)
    ∷ (text "alert.acknowledge", 10)
    ∷ (text "admin.sa.authorize", 11)
    ∷ []

abbrev pub root_service : Text
root_service = text "root.facts.list"

-- The names in the order of digit_core_services_unregister
abbrev pub unregistered_names : List Text
unregistered_names =
    root_service
    ∷ text "admin.sa.authorize"
    ∷ text "alert.acknowledge"
    ∷ text "alert.get"
    ∷ text "alert.list"
    ∷ text "alert.raise"
    ∷ text "channel.message.list"
    ∷ text "channel.message.append"
    ∷ text "channel.get"
    ∷ text "channel.list"
    ∷ text "channel.create"
    ∷ []

abbrev pub unregistered_next : Outcome × Registry → (Registry → Option Registry) → Option Registry
unregistered_next (returned done, r) onward = onward r
unregistered_next (waiting slot, r) onward = none

-- The calls of digit_core_services_unregister; `none` is that one of them waits for active calls.
unfoldable pub unregister_names : ℕ → List Text → Registry → Option Registry
unregister_names thread [] r = some r
unregister_names thread (name ∷ names) r =
    unregistered_next (unregister thread name 0 r) (unregister_names thread names)

-- digit_core_services_unregister
unfoldable pub unregister_core : ℕ → Registry → Option Registry
unfolding unregister_names
unregister_core thread r = unregister_names thread unregistered_names r

abbrev pub failed_with : Option Registry → Option (Bool × Registry)
failed_with none = none
failed_with (some r) = some (false, r)

abbrev pub registered_next :
    Bool × Registry
    → (Registry → Option (Bool × Registry))
    → (Registry → Option (Bool × Registry))
    → Option (Bool × Registry)
registered_next (true, r) onward fail = onward r
registered_next (false, r) onward fail = fail r

-- The registrations that go to `fail`.
unfoldable pub register_later : ℕ → ℕ → List (Text × ℕ) → Registry → Option (Bool × Registry)
unfolding unregister_core
register_later name_max thread [] r = some (true, r)
register_later name_max thread ((name, handler) ∷ services) r =
    registered_next (register name_max thread (some name) (some handler) 0 r)
      (register_later name_max thread services) (λ next. failed_with (unregister_core thread next))

-- digit_core_services_register; `none` is that its cleanup waits for active calls.
unfoldable pub register_core : ℕ → ℕ → Registry → Option (Bool × Registry)
unfolding register_later
register_core name_max thread r =
    registered_next (register name_max thread (some root_service) (some 1) 0 r)
      (register_later name_max thread later_services) (λ next. some (false, next))
