-- ===== src/Service/Examples.antt =====
-- src/service_registry.c with one service, and with a transition that one thread owns.
use digit.Base.{
  ℕ, ◌≡◌, ◌⊎◌, refl, true, false, zero, suc, none, some, [], ◌∷◌, replicate, Text, text, str_eq,
  if◌then◌else◌,
}
use digit.Service.{
  Registry, returned, init, empty_slot, service_record, lookup, register_named, unregister, depth,
  owner, is_taken, is_named, put_free, find_owned, unregister_slot, transition_begin,
  transition_wait,
}
use digit.Service.Table.{DistinctNames, IsWellFormed, register-IsWellFormed, lookup-register}
use digit.Service.Removal.{unregister_removes}
use digit.Service.Barrier.{Reachable, start, next, begins, drains, sum, transition_excludes_calls}

-- A table with the service `time` of the context 8.
abbrev one_service : Registry
one_service = record {
  services = service_record (text "time") 7 8 ∷ replicate 63 empty_slot;
  count = 1;
  active_calls = 0;
  depths = 0 ∷ 0 ∷ [];
  transitioning = false;
  transition_owner = 0;
  drained = false;
}

free-DistinctNames : (n : ℕ) → DistinctNames (replicate n empty_slot)
free-DistinctNames zero = tt
free-DistinctNames (suc n) = ((λ e. cc), free-DistinctNames n)

free-is_taken : (n : ℕ) (name : Text) → is_taken name (replicate n empty_slot) ≡ false
unfolding is_taken is_named
free-is_taken zero name = refl
free-is_taken (suc n) name = free-is_taken n name

one_service-IsWellFormed : IsWellFormed one_service
one_service-IsWellFormed = record {
  sized = refl;
  counted = refl;
  distinct = ((λ _. free-is_taken 63 (text "time")), free-DistinctNames 63);
}

register-IsWellFormed_example : IsWellFormed (register_named 64 0 (text "echo") 3 4 one_service).1
register-IsWellFormed_example =
    register-IsWellFormed 64 0 (text "echo") 3 4 one_service one_service-IsWellFormed

registers_echo : (register_named 64 0 (text "echo") 3 4 one_service).0 ≡ true
unfolding register_named owner is_taken is_named put_free str_eq
registers_echo = refl

lookup-register_example :
    lookup (text "echo") (register_named 64 0 (text "echo") 3 4 one_service).1.services ≡ (
      if str_eq (text "echo") (text "echo")
      then some (3, 4)
      else lookup (text "echo") one_service.services)
lookup-register_example =
    lookup-register 64 0 (text "echo") 3 4 one_service (text "echo") registers_echo

unregisters_time : (unregister 0 (text "time") 8 one_service).0 ≡ returned true
unfolding unregister owner find_owned is_named unregister_slot str_eq
unregisters_time = refl

unregister_removes_example :
    IsWellFormed (unregister 0 (text "time") 8 one_service).1
    × (lookup (text "time") (unregister 0 (text "time") 8 one_service).1.services ≡ (
        if str_eq (text "time") (text "time")
        then none
        else lookup (text "time") one_service.services))
unregister_removes_example =
    unregister_removes 0 (text "time") 8 one_service (text "time") one_service-IsWellFormed
      unregisters_time

-- Thread 1 owns a transition that no call delays.
abbrev owned : Registry
owned = record (init 2) { transitioning = true; transition_owner = 1; drained = true }

begun : Reachable 64 2 (transition_begin 1 (init 2)).1
begun = next (init 2) _ start (begins 1 (init 2))

drained_at_once : transition_wait 1 (transition_begin 1 (init 2)).1 ≡ some owned
unfolding transition_wait transition_begin owner init
drained_at_once = refl

transition_excludes_calls_example :
    (owned.active_calls ≡ sum owned.depths)
    × ((owned.drained ≡ false)
        ⊎ ((0 ≡ owned.transition_owner) ⊎ ((owned.transitioning ≡ true) × (depth 0 owned ≡ 0))))
transition_excludes_calls_example = transition_excludes_calls 64 2 owned 0 (
    next (transition_begin 1 (init 2)).1 owned begun
      (drains 1 (transition_begin 1 (init 2)).1 owned drained_at_once))
