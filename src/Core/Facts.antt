-- ===== src/Core/Facts.antt =====
-- src/core_services.c: the facts about the root, as a service.
pub mod Complete
use digit.Base.{
  ℕ, All, ◌≤◌, length-append, append_assoc, append-nil, ◌+◌, ◌<◌, ◌≡◌, refl, sym, ap, ◌∙◌, Bool,
  true, false, not, ◌&&◌, ◌||◌, Option, none, some, List, [], ◌∷◌, ◌++◌, length, take, take_all,
  map, Text, text, str_eq, leb, if◌then◌else◌, arith, Bool-cases, inl, inr,
}
use digit.AgentRoot.{
  Root, Relation, no_relation, older_sister, younger_sister, other_relation, bounded, identifier,
  validate, traits_ok, relation_ok, required_traits,
}
use digit.AgentRoot.Validity.{validate_required}
use digit.Core.Handlers.{Call, Reply, invalid_argument, start_failed, answered, takes_nothing}

-- digit_root_fact_t
pub record Fact : Type 0 where
  pub subject : Text
  pub predicate : Text
  pub object : Text

abbrev pub fact : Text → Text → Text → Fact
fact subject predicate object = record { subject = subject; predicate = predicate; object = object }

-- root_fact_add, with DIGIT_ROOT_FACTS_MAX and DIGIT_ROOT_FACT_TEXT_MAX; `none` is a null pointer.
unfoldable pub root_fact_add : Option Text → Text → Option Text → List Fact → List Fact
root_fact_add (some subject) predicate (some object) facts =
    if leb 16 (length facts)
    then facts
    else facts ++ fact (take 127 subject) (take 127 predicate) (take 127 object) ∷ []
root_fact_add _ predicate _ facts = facts

-- The branches on the relation
unfoldable pub add_relation : Root → List Fact → List Fact
unfolding root_fact_add
add_relation r facts = elim r.relation [
  | older_sister ↦ root_fact_add r.agent_id (text "older_sister_of") r.related_agent_id facts
  | younger_sister ↦ root_fact_add r.agent_id (text "younger_sister_of") r.related_agent_id facts
  | no_relation ↦ facts
  | other_relation ↦ facts
]

-- The loop over the traits
unfoldable pub add_traits : Option Text → List (Option Text) → List Fact → List Fact
unfolding root_fact_add
add_traits id [] facts = facts
add_traits id (trait ∷ traits) facts =
    add_traits id traits (root_fact_add id (text "character_trait") trait facts)

unfoldable pub root_facts : Root → List Fact
unfolding root_fact_add add_relation add_traits
root_facts r = add_traits r.agent_id r.traits (
    add_relation r (
      root_fact_add r.agent_id (text "lineage") r.lineage (
        root_fact_add r.agent_id (text "organization") r.organization_id
          (root_fact_add r.agent_id (text "name") r.agent_name []))))

-- root_facts_service for this root; `none` is a null pointer.
unfoldable pub root_facts_service : ℕ → Call → Option Root → Reply (List Fact)
unfolding root_facts
root_facts_service response_size call none =
    if takes_nothing response_size call then start_failed else invalid_argument
root_facts_service response_size call (some r) =
    if takes_nothing response_size call
    then if validate (some r) then answered (root_facts r) else start_failed
    else invalid_argument
