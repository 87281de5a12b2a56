-- ===== src/Contracts/Scopes.antt =====
-- Scopes and the domains of state (contracts/scope.py, contracts/state.py).
use mind_runtime.Base.{
  ◌≡◌, ◌↔◌, Bool, true, false, not, ◌&&◌, ◌||◌, Option, none, some, String, Eq, string_eq,
  option_eq, option_eqb_iff, and_true, true_and, beq_self, ◌==◌, Result, ok, raise, value_error,
  raise_if, ◌>>◌, is_blank, partition, arith,
}

pub data ScopeDomain : Type 0 where
  user agent relationship interaction world : ScopeDomain

abbrev pub domain_eqb : ScopeDomain → ScopeDomain → Bool
domain_eqb user user = true
domain_eqb agent agent = true
domain_eqb relationship relationship = true
domain_eqb interaction interaction = true
domain_eqb world world = true
domain_eqb _ _ = false

pub domain_eqb_iff : (a b : ScopeDomain) → (domain_eqb a b ≡ true) ↔ (a ≡ b)
domain_eqb_iff a b = ground arith

instance abbrev pub domain_eq : Eq ScopeDomain
domain_eq = record { beq = domain_eqb; beq_iff = domain_eqb_iff }

-- `domain.value`
abbrev pub domain_value : ScopeDomain → String
domain_value user = "user"
domain_value agent = "agent"
domain_value relationship = "relationship"
domain_value interaction = "interaction"
domain_value world = "world"

pub record Scope : Type 0 where
  pub domain : ScopeDomain
  pub user_id : Option String
  pub agent_id : Option String
  pub persona_id : Option String
  pub relationship_id : Option String
  pub world_id : Option String
  pub interaction_id : Option String

unfoldable pub scope_eqb : Scope → Scope → Bool
scope_eqb a b =
    a.domain == b.domain
    && a.user_id == b.user_id
    && a.agent_id == b.agent_id
    && a.persona_id == b.persona_id
    && a.relationship_id == b.relationship_id
    && a.world_id == b.world_id
    && a.interaction_id == b.interaction_id

scope_eqb-eq : (a b : Scope) → scope_eqb a b ≡ true → a ≡ b
unfolding scope_eqb
scope_eqb-eq a b h =
    let (h₁, i) = and_true h in
    let (h₂, u) = and_true h₁ in
    let (h₃, v) = and_true h₂ in
    let (h₄, w) = and_true h₃ in
    let (h₅, x) = and_true h₄ in
    let (d, y) = and_true h₅ in
    let p = (domain_eqb_iff a.domain b.domain).0 d in
    let q = (option_eqb_iff a.user_id b.user_id).0 y in
    let r = (option_eqb_iff a.agent_id b.agent_id).0 x in
    let s = (option_eqb_iff a.persona_id b.persona_id).0 w in
    let t = (option_eqb_iff a.relationship_id b.relationship_id).0 v in
    let k = (option_eqb_iff a.world_id b.world_id).0 u in
    let l = (option_eqb_iff a.interaction_id b.interaction_id).0 i in
    λ j. record {
      domain = p j;
      user_id = q j;
      agent_id = r j;
      persona_id = s j;
      relationship_id = t j;
      world_id = k j;
      interaction_id = l j;
    }

scope_eqb_self : (a : Scope) → scope_eqb a a ≡ true
unfolding scope_eqb
scope_eqb_self a =
    true_and
      (true_and
        (true_and
          (true_and
            (true_and (true_and (beq_self a.domain) (beq_self a.user_id)) (beq_self a.agent_id))
            (beq_self a.persona_id))
          (beq_self a.relationship_id))
        (beq_self a.world_id))
      (beq_self a.interaction_id)

pub scope_eqb_iff : (a b : Scope) → (scope_eqb a b ≡ true) ↔ (a ≡ b)
scope_eqb_iff a b = (scope_eqb-eq a b, λ e. rw (← e) (scope_eqb_self a))

instance abbrev pub scope_eq : Eq Scope
scope_eq = record { beq = scope_eqb; beq_iff = scope_eqb_iff }

-- `_is_non_empty`
abbrev pub is_non_empty : Option String → Bool
is_non_empty none = false
is_non_empty (some s) = not (is_blank s)

-- One round of the loop in `Scope.__post_init__`: the field is required, or it is forbidden.
abbrev pub check_identity : Bool → Option String → Result (Unit {0})
check_identity true value = raise_if (not (is_non_empty value)) value_error
check_identity false none = ok tt
check_identity false (some _) = raise value_error

-- The fields that `_REQUIRED_SCOPE_FIELDS` names for a domain, in the order of
-- `_SCOPE_IDENTITY_FIELDS`: user, agent, persona, relationship, world, interaction.
pub record RequiredFields : Type 0 where
  pub user_id : Bool
  pub agent_id : Bool
  pub persona_id : Bool
  pub relationship_id : Bool
  pub world_id : Bool
  pub interaction_id : Bool

abbrev nothing_required : RequiredFields
nothing_required = record {
  user_id = false;
  agent_id = false;
  persona_id = false;
  relationship_id = false;
  world_id = false;
  interaction_id = false;
}

abbrev pub required_scope_fields : ScopeDomain → RequiredFields
required_scope_fields user = record nothing_required { user_id = true }
required_scope_fields agent = record nothing_required { agent_id = true; persona_id = true }
required_scope_fields relationship = record nothing_required {
  relationship_id = true;
  persona_id = true;
}
required_scope_fields interaction = record nothing_required { interaction_id = true }
required_scope_fields world = record nothing_required { world_id = true }

-- `Scope.__post_init__`: the scope itself, or the exception.
unfoldable pub make_scope : Scope → Result Scope
make_scope s =
    let required = required_scope_fields s.domain in
    do
      check_identity required.user_id s.user_id
      check_identity required.agent_id s.agent_id
      check_identity required.persona_id s.persona_id
      check_identity required.relationship_id s.relationship_id
      check_identity required.world_id s.world_id
      check_identity required.interaction_id s.interaction_id
      ok s

pub data StateDomain : Type 0 where
  user agent relationship interaction : StateDomain

abbrev pub state_domain_value : StateDomain → String
state_domain_value StateDomain.user = "user"
state_domain_value StateDomain.agent = "agent"
state_domain_value StateDomain.relationship = "relationship"
state_domain_value StateDomain.interaction = "interaction"

-- The world has no state domain.
abbrev pub state_domain_for_scope : Scope → Result StateDomain
state_domain_for_scope s = elim s.domain [
  | user ↦ ok StateDomain.user
  | agent ↦ ok StateDomain.agent
  | relationship ↦ ok StateDomain.relationship
  | interaction ↦ ok StateDomain.interaction
  | world ↦ raise value_error
]

abbrev pub require_non_empty : String → Result (Unit {0})
require_non_empty value = raise_if (is_blank value) value_error

-- `<domain>.<name>` for the given domain.
unfoldable pub require_domain_key : String → StateDomain → Result (Unit {0})
require_domain_key value domain = do
  require_non_empty value
  let parts = partition b'.' value
  raise_if (not (parts.0 == state_domain_value domain) || not parts.1 || is_blank parts.2)
      value_error
