-- ===== src/Core/Facts/Complete.antt =====
-- src/core_services.c: the facts that the service gives for a valid root.
use digit.Base.{
  ℕ, All, ◌≤◌, length-append, append_assoc, append-nil, ◌+◌, ◌<◌, ◌≡◌, refl, sym, ap, ◌∙◌, true,
  false, Option, none, some, List, [], ◌∷◌, ◌++◌, length, take_all, map, Text, text, leb, arith,
}
use digit.AgentRoot.{
  Root, Relation, no_relation, older_sister, younger_sister, other_relation, bounded, identifier,
  validate, relation_ok, required_traits,
}
use digit.AgentRoot.Validity.{validate_required}
use digit.Core.Handlers.{Call, answered, takes_nothing}
use digit.Core.Facts.{
  Fact, fact, root_fact_add, add_relation, add_traits, root_facts, root_facts_service,
}

bounded_some : (o : Option Text) → bounded o ≡ true → (s : Text) × (o ≡ some s) × (length s < 128)
unfolding bounded
bounded_some none e = cc
bounded_some (some s) e = (s, refl, ground (arith, e))

-- A fact that fits is added as it is.
fact_add-fits :
    (subject predicate object : Text) (facts : List Fact)
    → length subject < 128
    → length predicate < 128
    → length object < 128
    → leb 16 (length facts) ≡ false
    → root_fact_add (some subject) predicate (some object) facts
      ≡ facts ++ fact subject predicate object ∷ []
unfolding root_fact_add
fact_add-fits subject predicate object facts s p o room =
    rw
      (
        room,
        take_all 127 subject (omega (arith, s)),
        take_all 127 predicate (omega (arith, p)),
        take_all 127 object (omega (arith, o)),
      )
      refl

abbrev pub relation_facts : Text → Relation → Option Text → List Fact
relation_facts id older_sister (some other) = fact id (text "older_sister_of") other ∷ []
relation_facts id younger_sister (some other) = fact id (text "younger_sister_of") other ∷ []
relation_facts id _ _ = []

-- The facts of a root, in full
abbrev pub all_facts : Text → Text → Text → Relation → Option Text → List Fact
all_facts id name lineage relation related =
    fact id (text "name") name
    ∷ fact id (text "organization") (text "STN-LABZ")
    ∷ fact id (text "lineage") lineage
    ∷ (relation_facts id relation related ++ map (fact id (text "character_trait")) required_traits)

add_traits-map :
    (id : Text) (traits : List Text) (facts : List Fact)
    → length id < 128
    → All (λ (t : Text). length t < 128) traits
    → length facts + length traits ≤ 16
    → add_traits (some id) (map some traits) facts
      ≡ facts ++ map (fact id (text "character_trait")) traits
unfolding add_traits
add_traits-map id [] facts short all_short room = sym (append-nil facts)
add_traits-map id (t ∷ traits) facts short (s, ss) room =
    ap (add_traits (some id) (map some traits)) (
      fact_add-fits id (text "character_trait") t facts short (omega arith) s
        (ground (arith, room)))
    ∙ add_traits-map id traits (facts ++ fact id (text "character_trait") t ∷ []) short ss
        (omega (arith, room, length-append facts (fact id (text "character_trait") t ∷ [])))
    ∙ append_assoc facts (fact id (text "character_trait") t ∷ [])
        (map (fact id (text "character_trait")) traits)

related_short :
    (r : Root)
    → identifier r.related_agent_id ≡ true
    → (o : Text) × (r.related_agent_id ≡ some o) × (length o < 128)
unfolding identifier
related_short r e = bounded_some r.related_agent_id (ground (arith, e))

add_relation-some :
    (r : Root) (id other : Text) (facts : List Fact) (relation : Relation)
    → r.relation ≡ relation
    → r.agent_id ≡ some id
    → r.related_agent_id ≡ some other
    → length id < 128
    → length other < 128
    → leb 16 (length facts) ≡ false
    → add_relation r facts ≡ facts ++ relation_facts id relation r.related_agent_id
unfolding add_relation
add_relation-some r id other facts no_relation e named there short fits room =
    rw e (sym (append-nil facts))
add_relation-some r id other facts other_relation e named there short fits room =
    rw e (sym (append-nil facts))
add_relation-some r id other facts older_sister e named there short fits room =
    rw (e, there, named)
      (fact_add-fits id (text "older_sister_of") other facts short (omega arith) fits room)
add_relation-some r id other facts younger_sister e named there short fits room =
    rw (e, there, named)
      (fact_add-fits id (text "younger_sister_of") other facts short (omega arith) fits room)

add_relation-facts :
    (r : Root) (id : Text) (facts : List Fact) (relation : Relation)
    → r.relation ≡ relation
    → r.agent_id ≡ some id
    → length id < 128
    → leb 16 (length facts) ≡ false
    → relation_ok r ≡ true
    → add_relation r facts ≡ facts ++ relation_facts id relation r.related_agent_id
unfolding add_relation relation_ok
add_relation-facts r id facts no_relation e named short room v = rw e (sym (append-nil facts))
add_relation-facts r id facts other_relation e named short room v = rw e (sym (append-nil facts))
add_relation-facts r id facts older_sister e named short room v =
    let (o, there, fits) = related_short r (ground (arith, e, v)) in
    add_relation-some r id o facts older_sister e named there short fits room
add_relation-facts r id facts younger_sister e named short room v =
    let (o, there, fits) = related_short r (ground (arith, e, v)) in
    add_relation-some r id o facts younger_sister e named there short fits room

validated :
    (r : Root)
    → validate (some r) ≡ true
    → (identifier r.agent_id ≡ true)
      × (bounded r.agent_name ≡ true)
      × (bounded r.lineage ≡ true)
      × (relation_ok r ≡ true)
unfolding validate
validated r e = ground (arith, e)

identifier-some :
    (o : Option Text) → identifier o ≡ true → (s : Text) × (o ≡ some s) × (length s < 128)
unfolding identifier
identifier-some o e = bounded_some o (ground (arith, e))

traits_short : All (λ (t : Text). length t < 128) required_traits
traits_short = (
  omega arith,
  (omega arith, (omega arith, (omega arith, (omega arith, (omega arith, (omega arith, tt)))))),
)

root_facts_eq :
    (r : Root) (id name lineage : Text)
    → r.agent_id ≡ some id
    → r.agent_name ≡ some name
    → r.lineage ≡ some lineage
    → r.organization_id ≡ some (text "STN-LABZ")
    → r.traits ≡ map some required_traits
    → length id < 128
    → length name < 128
    → length lineage < 128
    → relation_ok r ≡ true
    → root_facts r ≡ all_facts id name lineage r.relation r.related_agent_id
unfolding root_facts
root_facts_eq r id name lineage id_is name_is lineage_is organization traits id_fits name_fits
      lineage_fits related =
    let first = fact id (text "name") name ∷ [] in
    let second =
      fact id (text "name") name ∷ fact id (text "organization") (text "STN-LABZ") ∷ [] in
    let three =
      fact id (text "name") name
      ∷ fact id (text "organization") (text "STN-LABZ")
      ∷ fact id (text "lineage") lineage
      ∷ [] in
    ap (λ (fs : List Fact). add_traits r.agent_id r.traits (add_relation r fs))
      (rw (id_is, name_is, lineage_is, organization)
        (ap
            (λ (fs : List Fact).
              root_fact_add (some id) (text "lineage") (some lineage)
                (root_fact_add (some id) (text "organization") (some (text "STN-LABZ")) fs))
            (fact_add-fits id (text "name") name [] id_fits (omega arith) name_fits refl)
          ∙ ap (root_fact_add (some id) (text "lineage") (some lineage)) (
              fact_add-fits id (text "organization") (text "STN-LABZ") first id_fits (omega arith)
                (omega arith) refl)
          ∙ fact_add-fits id (text "lineage") lineage second id_fits (omega arith) lineage_fits
              refl))
    ∙ ap (add_traits r.agent_id r.traits)
        (add_relation-facts r id three r.relation refl id_is id_fits refl related)
    ∙ rw (id_is, traits)
        (add_traits-map id required_traits
          (three ++ relation_facts id r.relation r.related_agent_id) id_fits traits_short
          (room r.relation r.related_agent_id))
    ∙ append_assoc three (relation_facts id r.relation r.related_agent_id)
        (map (fact id (text "character_trait")) required_traits)
  where
    room :
        (relation : Relation) (o : Option Text)
        → length (
              fact id (text "name") name
              ∷ fact id (text "organization") (text "STN-LABZ")
              ∷ fact id (text "lineage") lineage
              ∷ relation_facts id relation o)
            + 7
          ≤ 16
    room no_relation o = omega arith
    room other_relation o = omega arith
    room older_sister none = omega arith
    room older_sister (some x) = omega arith
    room younger_sister none = omega arith
    room younger_sister (some x) = omega arith

-- For a valid root the service answers with the name, the organization, the lineage, the relation
-- and every required trait, each as a fact about the agent; none is shortened or left out.
pub root_facts_complete :
    (response_size : ℕ) (call : Call) (r : Root)
    → validate (some r) ≡ true
    → takes_nothing response_size call ≡ true
    → (id : Text) × (name : Text) × (lineage : Text) × (r.agent_id ≡ some id)
      × (r.agent_name ≡ some name)
      × (r.lineage ≡ some lineage)
      × (root_facts_service response_size call (some r)
          ≡ answered (all_facts id name lineage r.relation r.related_agent_id))
unfolding root_facts_service
root_facts_complete response_size call r v t =
    let (named, called, lines, related) = validated r v in
    let (id, id_is, id_fits) = identifier-some r.agent_id named in
    let (name, name_is, name_fits) = bounded_some r.agent_name called in
    let (lineage, lineage_is, lineage_fits) = bounded_some r.lineage lines in
    let (orders, traits, organization) = validate_required r v in
    (
      id,
      name,
      lineage,
      id_is,
      name_is,
      lineage_is,
      rw (t, v)
          (ap answered (
            root_facts_eq r id name lineage id_is name_is lineage_is organization traits id_fits
              name_fits lineage_fits related)),
    )
