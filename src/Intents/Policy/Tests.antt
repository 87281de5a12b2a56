-- ===== src/Intents/Policy/Tests.antt =====
-- The policy of an intent that is in its window, with facts on the conversation, the last
-- action and the photos that were sent.
use mind_runtime.Base.{
  ◌==◌, if◌then◌else◌, overflow_error, Dict, pair_eq, ℕ, String, ◌≡◌, refl, ◌↔◌, true, false, none,
  some, [], ◌∷◌, nat_eq, string_eq, option_eq, list_eq, value_error, ok, raise,
}
use mind_runtime.Contracts.{Scope, ScopeDomain}
use mind_runtime.Intents.Records.{candidate, on_due}
use mind_runtime.Intents.Permissions.{
  allow, IntentPolicyRule, ActionPolicyConfig, ActionPolicyInput,
}
use mind_runtime.Intents.Policy.{Parsing, ParsedTime, in_utc, cooldown_reason, verdict}
use mind_runtime.Intents.Policy.Overflow.{PastEnd, cooldown_reason-overflow}
use mind_runtime.Intents.Policy.Verdicts.{Permitted, verdict_allows}

abbrev alice : Scope
alice = record {
  domain = ScopeDomain.user;
  user_id = some "alice";
  agent_id = none;
  persona_id = none;
  relationship_id = none;
  world_id = none;
  interaction_id = none;
}

-- A parser that knows one time and one number.
abbrev small_parsing : Parsing
small_parsing = record {
  fromisoformat = λ text. if text == "noon" then some (in_utc 5) else none;
  isdigit = λ text. text == "2";
  to_int = λ text. if text == "2" then ok 2 else raise value_error;
}

abbrev greeting : IntentPolicyRule
greeting = record {
  intent_kind = "greet";
  action_type = "message";
  proactive = true;
  interrupts_active_conversation = true;
  media_counter_fact = some "counter.photos";
  media_limit = some 3;
  required_resource = some "network";
}

abbrev config : ActionPolicyConfig
config = record { rules = greeting ∷ []; proactive_cooldown = 10 }

abbrev quiet : ActionPolicyInput ℕ String
quiet = record {
  intent = record {
    intent_id = "greet";
    scope = alice;
    origin_runtime_id = "runtime";
    kind = "greet";
    strength = 40;
    earliest_at = some 10;
    due_at = none;
    expires_at = some 30;
    reconsideration_policy = on_due;
    cause_refs = [];
    state_refs = [];
    status = candidate;
    sync = record {
      scope = alice;
      origin_runtime_id = "runtime";
      object_id = "greet";
      version = 1;
      idempotency_key = "admit";
    };
    surface_use = none;
  };
  context = record {
    situation_id = "situation";
    scope = alice;
    origin_runtime_id = "runtime";
    derived_facts =
        ("conversation.active", "false")
        ∷ ("counter.last_proactive_at", "noon")
        ∷ ("counter.photos", "2")
        ∷ [];
    effective_state_ref = "state";
    observed_at = 20;
    historical_context = none;
    persona_id = none;
    relationship_ids = [];
    evidence_refs = [];
  };
  scope = alice;
  clock = 20;
  available_actions = "message" ∷ "network" ∷ [];
}

abbrev allowed : String
allowed = "allowed"

verdict_allows_example :
    (verdict small_parsing config "runtime" quiet ≡ ok (allow, "message", allowed)) ↔ (
      (rule : IntentPolicyRule) × Permitted small_parsing config "runtime" quiet rule
      × ("message" ≡ rule.action_type)
      × (allowed ≡ "allowed"))
verdict_allows_example = verdict_allows small_parsing config "runtime" quiet "message" allowed

-- The policy does allow the greeting.
quiet-allowed : verdict small_parsing config "runtime" quiet ≡ ok (allow, "message", "allowed")
unfolding verdict mind_runtime.Intents.Policy.rule_verdict mind_runtime.Intents.Policy.facts
    mind_runtime.Intents.Policy.fact_verdict mind_runtime.Intents.Policy.interruption_reason
    mind_runtime.Intents.Policy.boolean_fact mind_runtime.Intents.Policy.cooldown_reason
    mind_runtime.Intents.Policy.media_reason mind_runtime.Intents.Policy.after_last
    mind_runtime.Intents.Policy.timestamp_fact
quiet-allowed = refl

-- A parser that reads every text as the last time of the year 9999.
abbrev end_of_time : Parsing
end_of_time = record {
  fromisoformat = λ text. some (in_utc 315537897599999999);
  isdigit = λ text. false;
  to_int = λ text. raise value_error;
}

abbrev last_seen : Dict String String
last_seen = ("counter.last_proactive_at", "9999-12-31T23:59:59.999999+00:00") ∷ []

cooldown_reason-overflow_example :
    (cooldown_reason end_of_time 100 greeting last_seen 20 ≡ raise overflow_error)
    ↔ PastEnd end_of_time 100 20 greeting last_seen
cooldown_reason-overflow_example = cooldown_reason-overflow end_of_time 100 20 greeting last_seen

-- The gate does raise.
greeting-raises : cooldown_reason end_of_time 100 greeting last_seen 20 ≡ raise overflow_error
unfolding cooldown_reason mind_runtime.Intents.Policy.after_last
    mind_runtime.Intents.Policy.timestamp_fact
greeting-raises = refl
