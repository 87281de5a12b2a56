-- ===== src/Intents/Permissions.antt =====
-- The contracts of the action policy: its verdicts and permissions (contracts/action.py), its inputs
-- (contracts/behavior.py, contracts/situation.py) and its configuration (intents/policy.py).
use mind_runtime.Base.{
  ◌>>◌, pair_eq, ℕ, String, Bool, true, false, not, Option, none, some, List, [], ◌∷◌, ltb,
  if◌then◌else◌, ◌==◌, nat_eq, string_eq, option_eq, list_eq, value_error, Result, ok, raise,
  raise_if, Dict, contains, insert,
}
use mind_runtime.Contracts.{Scope, scope_eq, require_non_empty, freeze_refs}
use mind_runtime.Intents.Records.{Intent}

pub data ActionDecision : Type 0 where
  allow deny defer : ActionDecision

abbrev pub is_allow : ActionDecision → Bool
is_allow allow = true
is_allow _ = false

pub record ActionPermission : Type 0 where
  pub permission_id : String
  pub scope : Scope
  pub origin_runtime_id : String
  pub action_type : String
  pub is_allowed : Bool
  pub reasons : List String
  pub constraints : List String

unfoldable pub make_permission : ActionPermission → Result ActionPermission
make_permission p = do
  require_non_empty p.permission_id
  require_non_empty p.origin_runtime_id
  require_non_empty p.action_type
  freeze_refs p.reasons
  freeze_refs p.constraints
  ok p

pub record ActionPolicyResult : Type 0 where
  pub policy_id : String
  pub scope : Scope
  pub origin_runtime_id : String
  pub intent_id : String
  pub decision : ActionDecision
  pub permission : Option ActionPermission
  pub reason_codes : List String

abbrev check_permission : ActionPolicyResult → Option ActionPermission → Result (Unit {0})
check_permission r none = raise value_error
check_permission r (some p) = do
  raise_if (not (p.scope == r.scope)) value_error
  raise_if (not (p.origin_runtime_id == r.origin_runtime_id)) value_error
  raise_if (if is_allow r.decision then not p.is_allowed else p.is_allowed) value_error

-- Every decision requires a permission, which agrees with it.
unfoldable pub make_policy_result : ActionPolicyResult → Result ActionPolicyResult
make_policy_result r = do
  require_non_empty r.policy_id
  require_non_empty r.origin_runtime_id
  require_non_empty r.intent_id
  freeze_refs r.reason_codes
  check_permission r r.permission
  ok r

pub record IntentPolicyRule : Type 0 where
  pub intent_kind : String
  pub action_type : String
  pub proactive : Bool
  pub interrupts_active_conversation : Bool
  pub media_counter_fact : Option String
  pub media_limit : Option ℕ
  pub required_resource : Option String

abbrev check_optional : Option String → Result (Unit {0})
check_optional none = ok tt
check_optional (some text) = require_non_empty text

abbrev check_media : Option String → Option ℕ → Result (Unit {0})
check_media none none = ok tt
check_media (some fact) (some limit) = require_non_empty fact >> raise_if (ltb limit 1) value_error
check_media _ _ = raise value_error

unfoldable pub make_rule : IntentPolicyRule → Result IntentPolicyRule
make_rule r = do
  require_non_empty r.intent_kind
  require_non_empty r.action_type
  check_media r.media_counter_fact r.media_limit
  check_optional r.required_resource
  ok r

pub record ActionPolicyConfig : Type 0 where
  pub rules : List IntentPolicyRule
  pub proactive_cooldown : ℕ

-- No kind of intent has two rules.
unfoldable pub check_kinds : List String → List IntentPolicyRule → Result (Unit {0})
check_kinds seen [] = ok tt
check_kinds seen (rule ∷ rules) =
    raise_if (contains rule.intent_kind seen) value_error
    >> check_kinds (rule.intent_kind ∷ seen) rules

unfoldable pub make_config : ActionPolicyConfig → Result ActionPolicyConfig
make_config c = check_kinds [] c.rules >> ok c

-- `{rule.intent_kind: rule for rule in config.rules}`
abbrev pub rules_from :
    Dict String IntentPolicyRule → List IntentPolicyRule → Dict String IntentPolicyRule
rules_from d [] = d
rules_from d (rule ∷ rules) = rules_from (insert rule.intent_kind rule d) rules

-- What a policy input holds of a situation: `H` is the type of its historical context.
pub record Situation (H : Type 0) : Type 0 where
  pub situation_id : String
  pub scope : Scope
  pub origin_runtime_id : String
  pub derived_facts : List (String × String)
  pub effective_state_ref : String
  pub observed_at : ℕ
  pub historical_context : Option H
  pub persona_id : Option String
  pub relationship_ids : List String
  pub evidence_refs : List String

pub record ActionPolicyInput (F H : Type 0) : Type 0 where
  pub intent : Intent F
  pub context : Situation H
  pub scope : Scope
  pub clock : ℕ
  pub available_actions : List String

unfoldable pub make_policy_input :
    {F H : Type 0} → ActionPolicyInput F H → Result (ActionPolicyInput F H)
make_policy_input i = do
  raise_if (not (i.intent.scope == i.scope)) value_error
  raise_if (not (i.context.scope == i.scope)) value_error
  ok i
