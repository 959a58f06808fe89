-- ===== src/Core/Examples.antt =====
-- src/core_services.c with the empty table and with the root of Digit.
use digit.Base.{
  ℕ, zero, suc, ◌≡◌, refl, Bool, true, false, none, some, ◌∷◌, any, replicate, Text, text, str_eq,
  if◌then◌else◌, ◌⊎◌,
}
use digit.Service.{Registry, init, empty_slot, lookup, owner}
use digit.Service.Table.{DistinctNames}
use digit.AgentRoot.{digit_root}
use digit.AgentRoot.Validity.{digit_root_valid}
use digit.Core.{later_services, root_service, unregistered_names, register_core}
use digit.Core.Unregistering.{IsQuiet}
use digit.Core.Outcomes.{handler_in}
use digit.Core.Registering.{register_core_all}
use digit.Core.Handlers.{Call, answered}
use digit.Core.Facts.{root_facts_service}
use digit.Core.Facts.Complete.{all_facts, root_facts_complete}

free-DistinctNames : (n : ℕ) → DistinctNames (replicate n empty_slot)
free-DistinctNames zero = tt
free-DistinctNames (suc n) = ((λ e. cc), free-DistinctNames n)

init-IsQuiet : IsQuiet 0 (init 1)
unfolding init owner
init-IsQuiet = record {
  well = record { sized = refl; counted = refl; distinct = free-DistinctNames 64 };
  idle = refl;
  mine = refl;
}

register_core_all_example :
    (ok : Bool) × (next : Registry) × (register_core 64 0 (init 1) ≡ some (ok, next))
    × IsQuiet 0 next
    × ((lookup (text "alert.get") next.services ≡ (
          if ok
          then handler_in
              ((root_service, 1) ∷ later_services)
              (text "alert.get")
              (lookup (text "alert.get") (init 1).services)
          else lookup (text "alert.get") (init 1).services))
        ⊎ ((ok ≡ false)
            × (any (λ n. str_eq n (text "alert.get")) unregistered_names ≡ true)
            × (lookup (text "alert.get") next.services ≡ none)))
register_core_all_example = register_core_all 64 0 (init 1) (text "alert.get") init-IsQuiet

abbrev asks : Call
asks = record {
  request = false;
  request_size = 0;
  response = true;
  response_size = 8000;
  response_used = true;
}

root_facts_complete_example :
    (id : Text) × (name : Text) × (lineage : Text) × (digit_root.agent_id ≡ some id)
    × (digit_root.agent_name ≡ some name)
    × (digit_root.lineage ≡ some lineage)
    × (root_facts_service 6148 asks (some digit_root)
        ≡ answered (all_facts id name lineage digit_root.relation digit_root.related_agent_id))
root_facts_complete_example = root_facts_complete 6148 asks digit_root digit_root_valid refl
