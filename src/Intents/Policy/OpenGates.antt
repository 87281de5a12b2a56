-- ===== src/Intents/Policy/OpenGates.antt =====
-- The verdict of the action policy and its gates.
use mind_runtime.Base.{
  not-eq-false, some_inj, pair_eq, ℕ, ◌≤◌, ◌<◌, String, ◌≡◌, refl, ap, subst, ◌∙◌, inl, inr, Bool,
  true, false, not, ◌||◌, Option, none, some, List, [], arith, Option-cases, ◌==◌, nat_eq,
  string_eq, option_eq, list_eq, Result, ok, Ensures, Ensures-ok, Ensures-if, Ensures-bind,
  contains, lookup,
}
use mind_runtime.Contracts.{scope_eq}
use mind_runtime.Intents.Scheduler.{reached}
use mind_runtime.Intents.Permissions.{
  ActionDecision, allow, deny, defer, IntentPolicyRule, ActionPolicyConfig, rules_from,
  ActionPolicyInput,
}
use mind_runtime.Intents.Policy.{
  Parsing, facts, as_reason, missing, not_yet, interruption_reason, cooldown_reason, media_reason,
  defer_if, fact_verdict, rule_verdict, verdict,
}

abbrev not_allow : ActionDecision → Bool
not_allow allow = false
not_allow _ = true

begun_by :
    (at : Option ℕ) (clock : ℕ) → not_yet at clock ≡ false → (t : ℕ) → at ≡ some t → t ≤ clock
begun_by none clock h t e = cc
begun_by (some u) clock h t e = subst (λ v. v ≤ clock) (some_inj e) (ground arith)

unexpired_by :
    (at : Option ℕ) (clock : ℕ) → reached at clock ≡ false → (t : ℕ) → at ≡ some t → clock < t
unexpired_by none clock h t e = cc
unexpired_by (some u) clock h t e = subst (λ v. clock < v) (some_inj e) (ground arith)

there_by :
    (resource : Option String) (available : List String)
    → missing resource available ≡ false
    → (r : String) → resource ≡ some r
    → contains r available ≡ true
there_by none available h r e = cc
there_by (some u) available h r e =
    subst (λ v. contains v available ≡ true) (some_inj e) (not-eq-false (contains u available) h)

no_key : (key : Option String) → as_reason key ≡ none → key ≡ none
no_key none e = refl
no_key (some k) e = cc

both_equal : (a b : Bool) → not a || not b ≡ false → (a ≡ true) × (b ≡ true)
both_equal a b h = ground arith

not_yet_by :
    (at : Option ℕ) (clock : ℕ) → ((t : ℕ) → at ≡ some t → t ≤ clock) → not_yet at clock ≡ false
not_yet_by none clock h = refl
not_yet_by (some u) clock h = let le : u ≤ clock = h u refl in ground arith

not_reached_by :
    (at : Option ℕ) (clock : ℕ) → ((t : ℕ) → at ≡ some t → clock < t) → reached at clock ≡ false
not_reached_by none clock h = refl
not_reached_by (some u) clock h = let lt : clock < u = h u refl in ground arith

not_missing_by :
    (resource : Option String) (available : List String)
    → ((r : String) → resource ≡ some r → contains r available ≡ true)
    → missing resource available ≡ false
not_missing_by none available h = refl
not_missing_by (some r) available h = rw (h r refl) refl

module _ (parsing : Parsing) (config : ActionPolicyConfig) (runtime_id : String)
    {F H : Type 0} where
  -- All gates are open.
  pub record Open (i : ActionPolicyInput F H) (rule : IntentPolicyRule) : Type 0 where
    pub configured : lookup i.intent.kind (rules_from [] config.rules) ≡ some rule
    pub own_intent : i.intent.origin_runtime_id ≡ runtime_id
    pub own_context : i.context.origin_runtime_id ≡ runtime_id
    pub begun : (t : ℕ) → i.intent.earliest_at ≡ some t → t ≤ i.clock
    pub unexpired : (t : ℕ) → i.intent.expires_at ≡ some t → i.clock < t
    pub available : contains rule.action_type i.available_actions ≡ true
    pub resourced :
        (r : String) → rule.required_resource ≡ some r → contains r i.available_actions ≡ true
    pub no_repeat : (facts [] i.context.derived_facts).1 ≡ none
    pub uninterrupted : interruption_reason parsing rule (facts [] i.context.derived_facts).0 ≡ none
    pub cooled :
        cooldown_reason parsing config.proactive_cooldown rule
          (facts [] i.context.derived_facts).0
          i.clock
        ≡ ok none
    pub in_budget : media_reason parsing rule (facts [] i.context.derived_facts).0 ≡ ok none

  unfoldable pub Allows : ActionPolicyInput F H → ActionDecision × String × String → Type 0
  Allows i v =
      v.0 ≡ allow
      → (rule : IntentPolicyRule) × Open i rule × (v ≡ (allow, rule.action_type, "allowed"))

  refuses :
      (i : ActionPolicyInput F H) (d : ActionDecision) (a r : String)
      → not_allow d ≡ true
      → Allows i (d, a, r)
  unfolding Allows
  refuses i d a r h e = let no : ⊥ = cc in elim no [ ]

  after_gate :
      (i : ActionPolicyInput F H) (reason : Option String) (a : String)
      (next : Result (ActionDecision × String × String))
      → (reason ≡ none → Ensures (Allows i) next)
      → Ensures (Allows i) (defer_if parsing reason a next)
  after_gate i none a next h = h refl
  after_gate i (some r) a next h = Ensures-ok (defer, a, r) (refuses i defer a r refl)

  module _ (i : ActionPolicyInput F H) (rule : IntentPolicyRule) where
    fact-Allows :
        (interruption_reason parsing rule (facts [] i.context.derived_facts).0 ≡ none
          → cooldown_reason parsing config.proactive_cooldown rule
              (facts [] i.context.derived_facts).0
              i.clock
            ≡ ok none
          → media_reason parsing rule (facts [] i.context.derived_facts).0 ≡ ok none
          → Open i rule)
        → Ensures
            (Allows i)
            (fact_verdict parsing config runtime_id i rule (facts [] i.context.derived_facts).0)
    unfolding fact_verdict Allows
    fact-Allows build =
        after_gate i (interruption_reason parsing rule (facts [] i.context.derived_facts).0)
          rule.action_type _
          (λ quiet.
            Ensures-bind
              (cooldown_reason parsing config.proactive_cooldown rule
                (facts [] i.context.derived_facts).0 i.clock)
              _
              (λ cooldown e0. after_gate i cooldown rule.action_type _ (λ cool.
                Ensures-bind (media_reason parsing rule (facts [] i.context.derived_facts).0) _
                  (λ media e1. after_gate i media rule.action_type _ (λ spare.
                    Ensures-ok (allow, rule.action_type, "allowed")
                      (λ e. (rule, build quiet (e0 ∙ ap ok cool) (e1 ∙ ap ok spare), refl)))))))

    rule-Allows :
        (contains rule.action_type i.available_actions ≡ true
          → missing rule.required_resource i.available_actions ≡ false
          → (facts [] i.context.derived_facts).1 ≡ none
          → interruption_reason parsing rule (facts [] i.context.derived_facts).0 ≡ none
          → cooldown_reason parsing config.proactive_cooldown rule
              (facts [] i.context.derived_facts).0
              i.clock
            ≡ ok none
          → media_reason parsing rule (facts [] i.context.derived_facts).0 ≡ ok none
          → Open i rule)
        → Ensures (Allows i) (rule_verdict parsing config runtime_id i rule)
    unfolding rule_verdict
    rule-Allows build =
        Ensures-if (not (contains rule.action_type i.available_actions))
          (ok (defer, rule.action_type, "action_unavailable")) _
          (λ e.
            Ensures-ok (defer, rule.action_type, "action_unavailable")
              (refuses i defer rule.action_type "action_unavailable" refl))
          (λ here.
            Ensures-if (missing rule.required_resource i.available_actions)
              (ok (defer, rule.action_type, "required_resource_unavailable")) _
              (λ e.
                Ensures-ok (defer, rule.action_type, "required_resource_unavailable")
                  (refuses i defer rule.action_type "required_resource_unavailable" refl))
              (λ resourced.
                after_gate i (as_reason (facts [] i.context.derived_facts).1) rule.action_type _
                  (λ once. fact-Allows (
                    build (not-eq-false (contains rule.action_type i.available_actions) here)
                      resourced (no_key (facts [] i.context.derived_facts).1 once)))))

  pub verdict-Allows :
      (i : ActionPolicyInput F H) → Ensures (Allows i) (verdict parsing config runtime_id i)
  unfolding verdict
  verdict-Allows i =
      Ensures-if
        (not (i.intent.origin_runtime_id == runtime_id)
          || not (i.context.origin_runtime_id == runtime_id))
        (ok (deny, i.intent.kind, "origin_mismatch")) _
        (λ e.
          Ensures-ok (deny, i.intent.kind, "origin_mismatch")
            (refuses i deny i.intent.kind "origin_mismatch" refl))
        (λ own.
          Ensures-if (not_yet i.intent.earliest_at i.clock)
            (ok (defer, i.intent.kind, "not_yet_earliest")) _
            (λ e.
              Ensures-ok (defer, i.intent.kind, "not_yet_earliest")
                (refuses i defer i.intent.kind "not_yet_earliest" refl))
            (λ begun.
              Ensures-if (reached i.intent.expires_at i.clock)
                (ok (deny, i.intent.kind, "intent_expired")) _
                (λ e.
                  Ensures-ok (deny, i.intent.kind, "intent_expired")
                    (refuses i deny i.intent.kind "intent_expired" refl))
                (λ unexpired.
                  elim (Option-cases (lookup i.intent.kind (rules_from [] config.rules))) [
                    | inl unknown ↦ rw (unknown) (
                        Ensures-ok (deny, i.intent.kind, "unsupported_intent_kind")
                          (refuses i deny i.intent.kind "unsupported_intent_kind" refl))
                    | inr (rule, configured) ↦ rw (configured) (
                        rule-Allows i rule (λ here resourced once quiet cool spare. record {
                          configured = configured;
                          own_intent =
                              (string_eq.beq_iff i.intent.origin_runtime_id runtime_id).0
                                (both_equal (i.intent.origin_runtime_id == runtime_id)
                                  (i.context.origin_runtime_id == runtime_id) own).0;
                          own_context =
                              (string_eq.beq_iff i.context.origin_runtime_id runtime_id).0
                                (both_equal (i.intent.origin_runtime_id == runtime_id)
                                  (i.context.origin_runtime_id == runtime_id) own).1;
                          begun = begun_by i.intent.earliest_at i.clock begun;
                          unexpired = unexpired_by i.intent.expires_at i.clock unexpired;
                          available = here;
                          resourced = there_by rule.required_resource i.available_actions resourced;
                          no_repeat = once;
                          uninterrupted = quiet;
                          cooled = cool;
                          in_budget = spare;
                        }))
                  ])))

  pub Open-verdict :
      (i : ActionPolicyInput F H) (rule : IntentPolicyRule)
      → Open i rule
      → verdict parsing config runtime_id i ≡ ok (allow, rule.action_type, "allowed")
  unfolding verdict rule_verdict fact_verdict
  Open-verdict i rule p =
      rw
        (
          (string_eq.beq_iff i.intent.origin_runtime_id runtime_id).1 p.own_intent,
          (string_eq.beq_iff i.context.origin_runtime_id runtime_id).1 p.own_context,
          not_yet_by i.intent.earliest_at i.clock p.begun,
          not_reached_by i.intent.expires_at i.clock p.unexpired,
          p.configured,
          p.available,
          not_missing_by rule.required_resource i.available_actions p.resourced,
          p.no_repeat,
          p.uninterrupted,
          p.cooled,
          p.in_budget,
        )
        refl
