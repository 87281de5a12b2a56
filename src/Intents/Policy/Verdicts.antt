-- ===== src/Intents/Policy/Verdicts.antt =====
-- When the action policy allows an action, in terms of its input alone.
use mind_runtime.Base.{
  pair_eq, ℕ, ◌≤◌, ◌<◌, String, ◌≡◌, refl, sym, ap, subst, ◌∙◌, ◌↔◌, true, none, some, [], nat_eq,
  string_eq, option_eq, list_eq, ok, keys, contains, lookup, Distinct,
}
use mind_runtime.Intents.Permissions.{
  allow, IntentPolicyRule, ActionPolicyConfig, rules_from, ActionPolicyInput,
}
use mind_runtime.Intents.Policy.{
  Parsing, interruption_reason, cooldown_reason, media_reason, verdict,
}
use mind_runtime.Intents.Policy.Facts.{facts-eq, facts-once}
use mind_runtime.Intents.Policy.Gates.{
  Quiet, Cooled, InBudget, interruption_reason-Quiet, Quiet-interruption_reason,
  cooldown_reason-Cooled, Cooled-cooldown_reason, media_reason-InBudget, InBudget-media_reason,
}
use mind_runtime.Intents.Policy.OpenGates.{Open, Allows, verdict-Allows, Open-verdict}

module _ (parsing : Parsing) (config : ActionPolicyConfig) (runtime_id : String)
    {F H : Type 0} where
  -- All that the policy asks for before it allows what the rule names.
  pub record Permitted (i : ActionPolicyInput F H) (rule : IntentPolicyRule) : Type 0 where
    pub configured : lookup i.intent.kind (rules_from [] config.rules) ≡ some rule
    pub own_intent : i.intent.origin_runtime_id ≡ runtime_id
    pub own_context : i.context.origin_runtime_id ≡ runtime_id
    pub begun : (t : ℕ) → i.intent.earliest_at ≡ some t → t ≤ i.clock
    pub unexpired : (t : ℕ) → i.intent.expires_at ≡ some t → i.clock < t
    pub available : contains rule.action_type i.available_actions ≡ true
    pub resourced :
        (r : String) → rule.required_resource ≡ some r → contains r i.available_actions ≡ true
    pub no_repeat : Distinct (keys i.context.derived_facts)
    pub uninterrupted : Quiet parsing rule i.context.derived_facts
    pub cooled : Cooled parsing config.proactive_cooldown rule i.context.derived_facts i.clock
    pub in_budget : InBudget parsing rule i.context.derived_facts

  Open-Permitted :
      (i : ActionPolicyInput F H) (rule : IntentPolicyRule)
      → Open parsing config runtime_id i rule
      → Permitted i rule
  Open-Permitted i rule o =
      let (same, once) = facts-eq i.context.derived_facts o.no_repeat in
      record {
        configured = o.configured;
        own_intent = o.own_intent;
        own_context = o.own_context;
        begun = o.begun;
        unexpired = o.unexpired;
        available = o.available;
        resourced = o.resourced;
        no_repeat = once;
        uninterrupted =
            subst (Quiet parsing rule) same
              (interruption_reason-Quiet parsing rule _ o.uninterrupted);
        cooled =
            subst (λ d. Cooled parsing config.proactive_cooldown rule d i.clock) same
              (cooldown_reason-Cooled parsing config.proactive_cooldown i.clock rule _ o.cooled);
        in_budget =
            subst (InBudget parsing rule) same (media_reason-InBudget parsing rule _ o.in_budget);
      }

  Permitted-Open :
      (i : ActionPolicyInput F H) (rule : IntentPolicyRule)
      → Permitted i rule
      → Open parsing config runtime_id i rule
  Permitted-Open i rule p =
      let once = facts-once i.context.derived_facts p.no_repeat in
      let same = sym (facts-eq i.context.derived_facts once).0 in
      record {
        configured = p.configured;
        own_intent = p.own_intent;
        own_context = p.own_context;
        begun = p.begun;
        unexpired = p.unexpired;
        available = p.available;
        resourced = p.resourced;
        no_repeat = once;
        uninterrupted =
            subst (λ d. interruption_reason parsing rule d ≡ none) same
              (Quiet-interruption_reason parsing rule _ p.uninterrupted);
        cooled =
            subst (λ d. cooldown_reason parsing config.proactive_cooldown rule d i.clock ≡ ok none)
              same
              (Cooled-cooldown_reason parsing config.proactive_cooldown i.clock rule _ p.cooled);
        in_budget =
            subst (λ d. media_reason parsing rule d ≡ ok none) same
              (InBudget-media_reason parsing rule _ p.in_budget);
      }

  -- The policy's verdict allows an action with a reason exactly if the reason is "allowed" and the
  -- rule for the intent's kind names the action and permits it: the intent and the context are of this
  -- runtime; the clock is not before the earliest time and is before the expiry; the action and what
  -- it requires are available; no fact is given twice; a conversation that the rule would interrupt,
  -- and for a proactive rule a pending reply, is not given or is "false"; for a proactive rule the
  -- last time that is given can be read, and with the cooldown is a time that is not after the clock;
  -- and a media counter with a limit is given as a number below it.
  pub verdict_allows :
      (i : ActionPolicyInput F H) (action reason : String)
      → (verdict parsing config runtime_id i ≡ ok (allow, action, reason)) ↔ (
          (rule : IntentPolicyRule) × Permitted i rule
          × (action ≡ rule.action_type)
          × (reason ≡ "allowed"))
  unfolding Allows
  verdict_allows i action reason = (
    λ e.
        let (rule, o, same) =
          (verdict-Allows parsing config runtime_id i).at (allow, action, reason) e refl in
        (rule, Open-Permitted i rule o, ap (λ v. v.1) same, ap (λ v. v.2) same),
    λ q.
        Open-verdict parsing config runtime_id i q.0 (Permitted-Open i q.0 q.1)
        ∙ rw (q.2, q.3) refl,
  )
