-- ===== src/Intents/Policy.antt =====
-- The action policy (intents/policy.py): gates in a fixed order, of which the first that closes gives
-- the verdict. A time and a timedelta are numbers of microseconds. Python's parsing of texts is a
-- parameter (`Parsing`).
mod Tests
pub mod Facts
pub mod Gates
pub mod OpenGates
pub mod Verdicts
pub mod Overflow
use mind_runtime.Base.{
  max_time, lookup-append_new, keys-append, contains-append, insert_new, erase-append, erase-absent,
  contains-erase, erase, contains-append_one, append_assoc, append-nil, and_true, true_and, Member,
  Member-sort_by, Member-lookup, length-append, Distinct-append_one, find, last, last-append_one,
  find-append_one, find-All, find-All-false, find-eq-none, some_inj, All-append, ◌>>=◌, ◌>>◌, codes,
  eq_by, ◌⊗◌, pair_eq, key_error, index_error, stop_iteration, overflow_error, integrity_error,
  length, ℕ, zero, suc, ◌+◌, ◌-◌, ◌*◌, ◌≤◌, ◌<◌, String, ◌<>◌, ◌≡◌, refl, sym, ap, subst, ◌∙◌, ◌≢◌,
  ◌↔◌, ◌⊎◌, inl, inr, Bool, true, false, not, ◌&&◌, ◌||◌, Option, none, some, List, [], ◌∷◌, ◌++◌,
  map, arith, eq_iff, ltb, leb, if◌then◌else◌, Bool-cases, Option-cases, Eq, ◌==◌, nat_eq,
  string_eq, option_eq, list_eq, beq_self, Eq-cases, beq_ne, Exc, value_error, assertion_error,
  Result, ok, raise, raise_if, >>=-eq-ok, raise_if-ok, >>-eq-ok, Result-cases, Ensures, Ensures-ok,
  Ensures-raise, Ensures-if, Ensures-bind, Ensures-map, All, All-map, Dict, keys, values, contains,
  lookup, insert, lookup-insert, lookup-insert_self, lookup-insert_ne, keys-insert_old,
  keys-insert_new, contains_of_some, not-contains_of_none, lookup-contains, Distinct, sort_by,
  All-sort_by, Distinct-sort_by, contains-sort_by, text_before, decimal,
}
use mind_runtime.Contracts.{Scope, scope_eq, require_non_empty}
use mind_runtime.Intents.Records.{Intent}
use mind_runtime.Intents.Scheduler.{reached}
use mind_runtime.Intents.Permissions.{
  ActionDecision, allow, deny, defer, is_allow, ActionPermission, make_permission,
  ActionPolicyResult, make_policy_result, IntentPolicyRule, ActionPolicyConfig, rules_from,
  Situation, ActionPolicyInput,
}

-- `datetime.fromisoformat`, which raises or gives a time, aware and in UTC or another one, and
-- `str.isdigit` and `int`.
pub data ParsedTime : Type 0 where
  in_utc : ℕ → ParsedTime
  elsewhere : ParsedTime

pub record Parsing : Type 0 where
  pub fromisoformat : String → Option ParsedTime
  pub isdigit : String → Bool
  pub to_int : String → Result ℕ

-- The facts up to the first key that occurs again, and that key.
unfoldable pub facts :
    Dict String String → List (String × String) → Dict String String × Option String
facts result [] = (result, none)
facts result ((key, value) ∷ entries) =
    let rest = facts (insert key value result) entries in
    if contains key (keys result) then (result, some key) else rest

unfoldable pub boolean_fact : String → Option Bool
boolean_fact value =
    if value == "true" then some true else if value == "false" then some false else none

abbrev pub as_reason : Option String → Option String
as_reason none = none
as_reason (some key) = some "duplicate_context_fact"

abbrev pub missing : Option String → List String → Bool
missing none available = false
missing (some resource) available = not (contains resource available)

-- The time is given and `clock` is before it.
abbrev pub not_yet : Option ℕ → ℕ → Bool
not_yet none clock = false
not_yet (some at) clock = ltb clock at

module _ (parsing : Parsing) where
  unfoldable pub timestamp_fact : String → Option ℕ
  timestamp_fact value = elim (parsing.fromisoformat value) [
    | some (in_utc at) ↦ some at
    | some elsewhere ↦ none
    | none ↦ none
  ]

  -- The reason that a Boolean fact gives, if it is set or malformed.
  abbrev pub set_reason : Option String → String → String → Option String
  set_reason none malformed reason = none
  set_reason (some value) malformed reason = elim (boolean_fact value) [
    | none ↦ some malformed
    | some true ↦ some reason
    | some false ↦ none
  ]

  unfoldable pub interruption_reason : IntentPolicyRule → Dict String String → Option String
  interruption_reason rule d =
      let active =
        if rule.interrupts_active_conversation
        then set_reason (lookup "conversation.active" d) "malformed_conversation_active"
            "active_conversation"
        else none in
      let pending =
        if rule.proactive
        then set_reason (lookup "conversation.pending_reply" d) "malformed_pending_reply"
            "pending_reply"
        else none in
      elim active [ none ↦ pending | some reason ↦ some reason ]

  -- `clock < last + cooldown`, where the sum may pass `datetime.max`.
  unfoldable pub after_last : ℕ → ℕ → Option ℕ → Result (Option String)
  after_last cooldown clock none = ok (some "malformed_last_proactive_at")
  after_last cooldown clock (some last_at) =
      raise_if (ltb max_time (last_at + cooldown)) overflow_error
      >> ok (if ltb clock (last_at + cooldown) then some "proactive_cooldown" else none)

  unfoldable pub cooldown_reason :
      ℕ → IntentPolicyRule → Dict String String → ℕ → Result (Option String)
  cooldown_reason cooldown rule d clock = elim (lookup "counter.last_proactive_at" d) [
    | none ↦ ok none
    | some value ↦
        if rule.proactive then after_last cooldown clock (timestamp_fact value) else ok none
  ]

  abbrev pub budget : ℕ → Option String → Result (Option String)
  budget limit none = ok (some "missing_media_counter")
  budget limit (some raw_count) =
      if parsing.isdigit raw_count
      then (parsing.to_int raw_count >>= λ count.
          ok (if leb limit count then some "media_budget_exhausted" else none))
      else ok (some "malformed_media_counter")

  unfoldable pub media_reason : IntentPolicyRule → Dict String String → Result (Option String)
  media_reason rule d = elim rule.media_counter_fact [
    | none ↦ ok none
    | some counter ↦ elim rule.media_limit [
      | none ↦ ok none
      | some limit ↦ budget limit (lookup counter d)
    ]
  ]

  -- A decision, the action that it is about, and its reason.
  abbrev pub Verdict : Type 0
  Verdict = ActionDecision × String × String

  -- A gate that closes with a reason defers the action; else `next` decides.
  abbrev pub defer_if : Option String → String → Result Verdict → Result Verdict
  defer_if none action next = next
  defer_if (some reason) action next = ok (defer, action, reason)

  module _ {F H : Type 0} (config : ActionPolicyConfig) (runtime_id : String) where
    -- The gates that read the facts.
    unfoldable pub fact_verdict :
        ActionPolicyInput F H → IntentPolicyRule → Dict String String → Result Verdict
    fact_verdict i rule d = defer_if (interruption_reason rule d) rule.action_type (
        cooldown_reason config.proactive_cooldown rule d i.clock >>= λ cooldown.
        defer_if cooldown rule.action_type (
          media_reason rule d >>= λ media.
          defer_if media rule.action_type (ok (allow, rule.action_type, "allowed"))))

    -- The gates of a rule.
    unfoldable pub rule_verdict : ActionPolicyInput F H → IntentPolicyRule → Result Verdict
    rule_verdict i rule =
        if not (contains rule.action_type i.available_actions)
        then ok (defer, rule.action_type, "action_unavailable")
        else if missing rule.required_resource i.available_actions
        then ok (defer, rule.action_type, "required_resource_unavailable")
        else (let (d, duplicate) = facts [] i.context.derived_facts in
            defer_if (as_reason duplicate) rule.action_type (fact_verdict i rule d))

    -- All gates.
    unfoldable pub verdict : ActionPolicyInput F H → Result Verdict
    verdict i =
        if not (i.intent.origin_runtime_id == runtime_id)
          || not (i.context.origin_runtime_id == runtime_id)
        then ok (deny, i.intent.kind, "origin_mismatch")
        else if not_yet i.intent.earliest_at i.clock
        then ok (defer, i.intent.kind, "not_yet_earliest")
        else if reached i.intent.expires_at i.clock
        then ok (deny, i.intent.kind, "intent_expired")
        else elim (lookup i.intent.kind (rules_from [] config.rules)) [
          | none ↦ ok (deny, i.intent.kind, "unsupported_intent_kind")
          | some rule ↦ rule_verdict i rule
        ]

    -- `_result`
    unfoldable pub result : ActionPolicyInput F H → Verdict → Result ActionPolicyResult
    result i (decision, action_type, reason) = do
      let suffix = i.intent.intent_id <> "-v" <> decimal i.intent.sync.version
      permission ← make_permission (record {
        permission_id = "permission-" <> suffix;
        scope = i.scope;
        origin_runtime_id = runtime_id;
        action_type = action_type;
        is_allowed = is_allow decision;
        reasons = reason ∷ [];
        constraints = if is_allow decision then [] else reason ∷ [];
      })
      make_policy_result (record {
        policy_id = "policy-" <> suffix;
        scope = i.scope;
        origin_runtime_id = runtime_id;
        intent_id = i.intent.intent_id;
        decision = decision;
        permission = some permission;
        reason_codes = reason ∷ [];
      })

    unfoldable pub policy : ActionPolicyInput F H → Result ActionPolicyResult
    policy i = verdict i >>= result i
