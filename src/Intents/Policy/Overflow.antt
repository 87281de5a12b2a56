-- ===== src/Intents/Policy/Overflow.antt =====
-- When the cooldown of the action policy leaves the range of times.
use mind_runtime.Base.{
  max_time, lt→ltb, ltb→lt, ◌>>◌, pair_eq, overflow_error, ℕ, ◌+◌, ◌<◌, String, ◌≡◌, refl, ◌↔◌, inl,
  inr, Bool, true, false, Option, none, some, ltb, if◌then◌else◌, Option-cases, nat_eq, string_eq,
  option_eq, list_eq, Exc, Result, ok, raise, raise_if, Dict, lookup,
}
use mind_runtime.Intents.Permissions.{IntentPolicyRule}
use mind_runtime.Intents.Policy.{Parsing, timestamp_fact, after_last, cooldown_reason}

not_overflow : Result (Option String) → Bool
not_overflow (raise overflow_error) = false
not_overflow _ = true

no_raise : {e : Exc} (o : Option String) → ok o ≡ raise e → ⊥
no_raise o h = cc

raised :
    (b : Bool) (next : Result (Option String))
    → not_overflow next ≡ true
    → ((raise_if b overflow_error >> next) ≡ raise overflow_error) ↔ (b ≡ true)
unfolding not_overflow
raised true next h = (λ e. refl, λ e. refl)
raised false next h = (λ e. let no : ⊥ = cc in elim no [ ], λ e. let no : ⊥ = cc in elim no [ ])

module _ (parsing : Parsing) (cooldown clock : ℕ) where
  -- The last time at which the agent acted by itself can be read, and the cooldown from then on ends
  -- after the last time that there is.
  pub record PastEnd (rule : IntentPolicyRule) (d : Dict String String) : Type 0 where
    pub value : String
    pub last_at : ℕ
    pub is_proactive : rule.proactive ≡ true
    pub given : lookup "counter.last_proactive_at" d ≡ some value
    pub readable : timestamp_fact parsing value ≡ some last_at
    pub past : max_time < last_at + cooldown

  gate :
      (rule : IntentPolicyRule) (d : Dict String String) (value : String) (at : Option ℕ)
      → lookup "counter.last_proactive_at" d ≡ some value
      → timestamp_fact parsing value ≡ at
      → (proactive : Bool) → rule.proactive ≡ proactive
      → (if proactive then after_last parsing cooldown clock at else ok none) ≡ raise overflow_error
      → PastEnd rule d
  unfolding after_last not_overflow
  gate rule d value at given readable false is_p e = let no : ⊥ = cc in elim no [ ]
  gate rule d value none given readable true is_p e = let no : ⊥ = cc in elim no [ ]
  gate rule d value (some last_at) given readable true is_p e = record {
    value = value;
    last_at = last_at;
    is_proactive = is_p;
    given = given;
    readable = readable;
    past =
        ltb→lt max_time (last_at + cooldown)
          ((raised (ltb max_time (last_at + cooldown)) _ refl).0 e);
  }

  -- The cooldown gate raises OverflowError exactly if the rule is proactive, the fact of the last
  -- proactive action is given and can be read, and its time plus the cooldown is past the last time.
  pub cooldown_reason-overflow :
      (rule : IntentPolicyRule) (d : Dict String String)
      → (cooldown_reason parsing cooldown rule d clock ≡ raise overflow_error) ↔ PastEnd rule d
  unfolding cooldown_reason after_last
  cooldown_reason-overflow rule d = (forward, backward)
    where
      forward :
          cooldown_reason parsing cooldown rule d clock ≡ raise overflow_error → PastEnd rule d
      forward e = elim (Option-cases (lookup "counter.last_proactive_at" d)) [
        | inl missing ↦
            let no : ⊥ = no_raise none (rw (missing, cooldown_reason) at e) in elim no [ ]
        | inr (value, given) ↦
            gate rule d value (timestamp_fact parsing value) given refl rule.proactive refl
              (rw (given, cooldown_reason) at e)
      ]

      backward :
          PastEnd rule d → cooldown_reason parsing cooldown rule d clock ≡ raise overflow_error
      backward p =
          rw
            (
              p.given,
              cooldown_reason,
              p.is_proactive,
              p.readable,
              lt→ltb max_time (p.last_at + cooldown) p.past,
            )
            refl
