-- ===== src/State/Tests.antt =====
-- The theorems of the state modules at a user's mood that lapses.
use mind_runtime.Base.{
  ℕ, ◌≤◌, lookup, arith, String, ◌≡◌, refl, ◌≢◌, Bool, true, false, none, some, [], ◌∷◌, ◌++◌, map,
  ◌==◌, nat_eq, string_eq, option_eq, list_eq, assertion_error, ok, raise, Ensures, All, keys,
  Distinct, decimal, codes, pair_eqb, option_eqb, is_blank, partition, rpartition, decimal_from,
  digit_text, after_prefix, take_digits, strip, digit_value, number_from, pair_eq,
}
use mind_runtime.Contracts.{
  Scope, ScopeDomain, StateDomain, RuntimeState, scope_eqb, scope_eq, make_state, check_state,
  require_domain_key, freeze_refs, validate_sync_fields, make_transition, check_transition,
}
use mind_runtime.State.Lifecycle.{coerce, canonical_state_id}
use mind_runtime.State.Definitions.{
  StateDefinition, StateValueType, ValidityPolicy, ValidityKind, Registry, registry_from, require,
  validity_policy, parse_validity_policy, parse_duration, duration_of, make_policy,
}
use mind_runtime.State.Definitions.Policies.{valid_until_by-validity_policy, registry_from-require}
use mind_runtime.State.Validity.{
  ValidityOutcome, expired_record, evaluate_validity, expired_successor,
}
use mind_runtime.State.Validity.Expiry.{evaluate_validity_once}
use mind_runtime.State.Resolver.{EffectiveStateView, resolve, for_dimension, state_key, load}
use mind_runtime.State.Resolver.Views.{for_dimension-resolve}
use mind_runtime.State.Interpretation.{
  StateIntent, Observation, interpret_observation, suffix_lifecycle,
}
use mind_runtime.State.Interpretation.Keys.{interpret_observation_lem}
use mind_runtime.State.Records.{
  fresh_record, fresh_state, valid_until_by, transition_record, transition, state_sync,
}
use mind_runtime.State.Steps.{create, reconcile}
use mind_runtime.State.Steps.Moves.{Reaches, Chain, reconcile-Reaches}
use mind_runtime.State.Reconciler.{
  Pass, start_pass, ReconcileResult, apply, effective_for, effective_in, validity_pass, expire_one,
  apply_intents, apply_intent, states_in_order,
}
use mind_runtime.State.Reconciler.Deferral.{apply_intents-deferred}
use mind_runtime.State.Reconciler.Lineage.{for_key}
use mind_runtime.State.Reconciler.Apply.{apply-Chain, apply-Distinct, version-le_of_apply}

abbrev bob : Scope
bob = record {
  domain = ScopeDomain.user;
  user_id = some "bob";
  agent_id = none;
  persona_id = none;
  relationship_id = none;
  world_id = none;
  interaction_id = none;
}

abbrev mood_definition : StateDefinition ℕ
mood_definition = record {
  key = "user.mood";
  domain = StateDomain.user;
  value_type = StateValueType.categorical;
  dynamics_policy = "decay";
  default_validity_policy = some "ttl:2h";
  bounds = none;
}

abbrev definitions : Registry ℕ
definitions = ("user.mood", mood_definition) ∷ []

abbrev mood : RuntimeState String
mood = record {
  state_id = "user.mood:1";
  scope = bob;
  dimension = "user.mood";
  value = "low";
  status = "active";
  valid_from = 10;
  valid_until = some 50;
  relevant_until = none;
  last_observed_at = 10;
  evidence_refs = "event-1" ∷ [];
  transition_refs = [];
  updated_at = 10;
  origin_runtime_id = "runtime";
  version = 1;
  sync = state_sync bob "runtime" "user.mood:1" 1;
}

abbrev intent : ℕ → StateIntent String
intent observed_at = record {
  dimension = "user.mood";
  value = "high";
  observed_at = observed_at;
  scope = bob;
  origin_runtime_id = "runtime";
  evidence_refs = "event-2" ∷ [];
  lifecycle = none;
}

abbrev same_value : String → String → Bool
same_value a b = a == b

-- At 100 the mood lapses, and an intent that was observed before it is deferred.
abbrev lapsed : ReconcileResult String
lapsed = record {
  canonical = expired_record mood 100 ∷ [];
  transitions = transition_record mood (expired_record mood 100) 100 ∷ [];
  effective = expired_record mood 100 ∷ [];
  deferred = intent 5 ∷ [];
}

apply-lapsed : apply same_value definitions 100 (mood ∷ []) (intent 5 ∷ []) ≡ ok lapsed
unfolding apply validity_pass load pair_eqb scope_eqb option_eqb evaluate_validity coerce
    expired_successor make_state check_state is_blank require_domain_key partition freeze_refs
    validate_sync_fields expired_record expire_one transition make_transition check_transition
    transition_record apply_intents apply_intent states_in_order canonical_state_id decimal
    decimal_from digit_text
apply-lapsed = refl

apply-Chain_example :
    (s : RuntimeState String) × (effective_for lapsed "user.mood" bob ≡ some s)
    × Chain (intent 5 ∷ []) mood (for_key (bob, "user.mood") lapsed.transitions) s
unfolding pair_eqb scope_eqb option_eqb
apply-Chain_example =
    apply-Chain same_value definitions 100 (mood ∷ []) (intent 5 ∷ []) lapsed bob "user.mood" mood
      apply-lapsed refl

apply-Distinct_example : Distinct (map state_key lapsed.effective)
apply-Distinct_example =
    apply-Distinct same_value definitions 100 (mood ∷ []) (intent 5 ∷ []) lapsed apply-lapsed

version-le_of_apply_example : 1 ≤ (expired_record mood 100).version
unfolding pair_eqb scope_eqb option_eqb effective_for effective_in expired_record
version-le_of_apply_example =
    version-le_of_apply same_value definitions 100 (mood ∷ []) (intent 5 ∷ []) lapsed bob
      "user.mood" mood (expired_record mood 100) apply-lapsed refl refl

reconcile-Reaches_example :
    Ensures (Reaches (intent 20 ∷ []) mood) (reconcile same_value definitions mood (intent 20) 40)
reconcile-Reaches_example = reconcile-Reaches same_value definitions mood (intent 20) 40 refl

abbrev lapse : ValidityOutcome String
lapse = record { state = expired_record mood 100; changed = true; reason = "expired_by_ttl" }

lapse_eq : evaluate_validity mood 100 ≡ ok lapse
unfolding evaluate_validity coerce expired_successor make_state check_state is_blank
    require_domain_key partition freeze_refs validate_sync_fields expired_record scope_eqb
    option_eqb canonical_state_id decimal decimal_from digit_text
lapse_eq = refl

evaluate_validity_once_example :
    evaluate_validity (expired_record mood 100) 200
    ≡ ok (record { state = expired_record mood 100; changed = false; reason = "opaque_status" })
evaluate_validity_once_example = evaluate_validity_once mood 100 200 lapse lapse_eq refl

abbrev view : EffectiveStateView String
view = record { states = mood ∷ []; resolved_at = 20 }

for_dimension-resolve_example : for_dimension view "user.mood" bob ≡ some mood
unfolding resolve pair_eqb scope_eqb option_eqb coerce
for_dimension-resolve_example = for_dimension-resolve (mood ∷ []) [] 20 view bob "user.mood" refl

abbrev two_hours : ValidityPolicy
two_hours = record { kind = ValidityKind.ttl; ttl = some 7200000000; refresh_on_reaffirm = true }

valid_until_by-validity_policy_example : valid_until_by two_hours none 100 ≢ raise assertion_error
unfolding validity_policy parse_validity_policy after_prefix parse_duration take_digits strip
    digit_value number_from make_policy
valid_until_by-validity_policy_example =
    valid_until_by-validity_policy definitions "user.mood" two_hours none 100 refl

registry_from-require_example :
    Distinct (keys definitions) × All (λ d. require d.key definitions ≡ ok d) (mood_definition ∷ [])
unfolding registry_from
registry_from-require_example = registry_from-require (mood_definition ∷ []) definitions refl

abbrev observation : Observation String
observation = record {
  key = "user.mood.observed";
  value = "high";
  observed_at = 20;
  scope = bob;
  origin_runtime_id = "runtime";
  evidence_refs = "event-2" ∷ [];
}

interpret_observation_lem_example :
    (suffix : String) × (codes "user.mood.observed" ≡ codes "user.mood" ++ (b'.' ∷ codes suffix))
    × (suffix_lifecycle suffix ≡ some none)
    × ((intent 20).value ≡ observation.value)
    × ((intent 20).observed_at ≡ observation.observed_at)
    × ((intent 20).scope ≡ observation.scope)
    × ((intent 20).origin_runtime_id ≡ observation.origin_runtime_id)
    × ((intent 20).evidence_refs ≡ observation.evidence_refs)
unfolding interpret_observation rpartition partition suffix_lifecycle
interpret_observation_lem_example = interpret_observation_lem observation (intent 20) refl

abbrev raised : RuntimeState String
raised = fresh_record bob (intent 20) 100 1 100 (some 7200000100)

abbrev deferring : Pass String
deferring = record {
  currents = ((bob, "user.mood"), raised) ∷ [];
  order = (bob, "user.mood") ∷ [];
  transitions = [];
  deferred = intent 30 ∷ [];
}

apply_intents-deferred_example :
    (deferring.deferred ≡ [] ++ (intent 30 ∷ []))
    × (s : RuntimeState String) × (lookup (bob, "user.mood") deferring.currents ≡ some s)
    × (s.value ≡ "high")
    × (s.last_observed_at ≡ 100)
unfolding apply_intents apply_intent create fresh_state fresh_record validity_policy
    parse_validity_policy after_prefix parse_duration duration_of take_digits strip digit_value
    number_from make_policy make_state check_state is_blank require_domain_key partition freeze_refs
    validate_sync_fields scope_eqb option_eqb pair_eqb canonical_state_id decimal decimal_from
    digit_text load
apply_intents-deferred_example =
    apply_intents-deferred same_value definitions (intent 20) (intent 30) 100 (start_pass [])
      deferring refl refl refl (omega arith) refl
