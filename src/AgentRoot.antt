-- ===== src/AgentRoot.antt =====
-- src/agent_root.c and src/identity_digit.c: the root that an agent's identity must have.
pub mod Validity
mod Examples
use digit.Base.{
  ℕ, Bool, true, false, not, ◌&&◌, ◌||◌, Option, none, some, List, [], ◌∷◌, length, all, any, Text,
  text, str_eq, leb, ◌==◌, if◌then◌else◌,
}

-- stnlabz_root_relation_t; a value that the enumeration does not name is `other_relation`.
pub data Relation : Type 0 where
  no_relation older_sister younger_sister other_relation : Relation

-- stnlabz_agent_root_t; `none` is a null pointer, and a pointer leads to a string.
pub record Root : Type 0 where
  pub schema_major : ℕ
  pub schema_minor : ℕ
  pub revision : ℕ
  pub agent_id : Option Text
  pub agent_name : Option Text
  pub organization_id : Option Text
  pub lineage : Option Text
  pub relation : Relation
  pub related_agent_id : Option Text
  pub orders : List (Option Text)
  pub traits : List (Option Text)

abbrev pub required_orders : List Text
required_orders =
    text "Remain at your assigned mission."
    ∷ text "Follow established policies and authorized instructions."
    ∷ text "Report anything outside your authority to the appropriate next level of authority."
    ∷ []

abbrev pub required_traits : List Text
required_traits =
    text "stoic"
    ∷ text "loyal"
    ∷ text "curious"
    ∷ text "truthful"
    ∷ text "respectful"
    ∷ text "accountable"
    ∷ text "humorous"
    ∷ []

-- bounded, with STNLABZ_ROOT_TEXT_MAX
unfoldable pub bounded : Option Text → Bool
bounded none = false
bounded (some s) = not (length s == 0) && not (leb 128 (length s))

abbrev is_identifier_char : ℕ → Bool
is_identifier_char c =
    (leb b'a' c && leb c b'z') || (leb b'0' c && leb c b'9') || (c == b'-') || (c == b'_')

-- identifier, in the C locale
abbrev chars_ok : Option Text → Bool
chars_ok none = false
chars_ok (some s) = all is_identifier_char s

unfoldable pub identifier : Option Text → Bool
unfolding bounded
identifier s = bounded s && chars_ok s

-- strcmp (s, t) == 0
unfoldable pub same : Option Text → Text → Bool
same none t = false
same (some s) t = str_eq s t

abbrev same_texts : Option Text → Option Text → Bool
same_texts none t = false
same_texts (some s) none = false
same_texts (some s) (some t) = str_eq s t

abbrev is_blank : Option Text → Bool
is_blank none = true
is_blank (some s) = length s == 0

-- The branch on the relation.
unfoldable pub relation_ok : Root → Bool
unfolding identifier
relation_ok r = elim r.relation [
  | no_relation ↦ is_blank r.related_agent_id
  | older_sister ↦ identifier r.related_agent_id && not (same_texts r.related_agent_id r.agent_id)
  | younger_sister ↦ identifier r.related_agent_id && not (same_texts r.related_agent_id r.agent_id)
  | other_relation ↦ false
]

-- The loop over the orders; both arrays have STNLABZ_ROOT_ORDER_COUNT elements.
unfoldable pub orders_ok : List (Option Text) → List Text → Bool
unfolding bounded same
orders_ok [] [] = true
orders_ok (order ∷ orders) (required ∷ more) =
    bounded order && same order required && orders_ok orders more
orders_ok _ _ = false

-- The loop over the traits, with the inner one that compares a trait with the later ones.
unfoldable pub traits_ok : List (Option Text) → List Text → Bool
unfolding bounded same
traits_ok [] [] = true
traits_ok (trait ∷ traits) (required ∷ more) =
    bounded trait
    && not (any (same_texts trait) traits)
    && same trait required
    && traits_ok traits more
traits_ok _ _ = false

-- stnlabz_agent_root_validate
unfoldable pub validate : Option Root → Bool
unfolding identifier relation_ok orders_ok traits_ok
validate none = false
validate (some r) =
    (r.schema_major == 1)
    && (r.schema_minor == 0)
    && not (r.revision == 0)
    && identifier r.agent_id
    && bounded r.agent_name
    && bounded r.organization_id
    && bounded r.lineage
    && same r.organization_id (text "STN-LABZ")
    && relation_ok r
    && orders_ok r.orders required_orders
    && traits_ok r.traits required_traits

-- digit_root
unfoldable pub digit_root : Root
digit_root = record {
  schema_major = 1;
  schema_minor = 0;
  revision = 1;
  agent_id = some (text "digit");
  agent_name = some (text "Digit");
  organization_id = some (text "STN-LABZ");
  lineage = some (text "foundational autonomous agent");
  relation = older_sister;
  related_agent_id = some (text "ezra");
  orders =
      some (text "Remain at your assigned mission.")
      ∷ some (text "Follow established policies and authorized instructions.")
      ∷ some (
          text "Report anything outside your authority to the appropriate next level of authority.")
      ∷ [];
  traits =
      some (text "stoic")
      ∷ some (text "loyal")
      ∷ some (text "curious")
      ∷ some (text "truthful")
      ∷ some (text "respectful")
      ∷ some (text "accountable")
      ∷ some (text "humorous")
      ∷ [];
}
