-- ===== src/Intents/Policy/Gates.antt =====
-- When a gate of the action policy that reads the facts stands open, in terms of the facts alone.
use mind_runtime.Base.{
  max_time, last, some_inj, ◌>>=◌, pair_eq, ℕ, ◌+◌, ◌≤◌, ◌<◌, String, ◌≡◌, refl, ap, ◌⊎◌, inl, inr,
  Bool, true, false, Option, none, some, arith, eq_iff, leb, if◌then◌else◌, Option-cases, nat_eq,
  string_eq, option_eq, list_eq, Result, ok, >>=-eq-ok, Dict, lookup,
}
use mind_runtime.Intents.Permissions.{IntentPolicyRule}
use mind_runtime.Intents.Policy.{
  Parsing, ParsedTime, in_utc, elsewhere, boolean_fact, timestamp_fact, set_reason,
  interruption_reason, after_last, cooldown_reason, budget, media_reason,
}

-- The fact is not given, or is the text "false".
abbrev pub IsOff : String → Dict String String → Type 0
IsOff key d = (lookup key d ≡ none) ⊎ (lookup key d ≡ some "false")

boolean_fact-off : (v : String) → boolean_fact v ≡ some false → v ≡ "false"
unfolding boolean_fact
boolean_fact-off v h = ground (arith, eq_iff v "true", eq_iff v "false")

module _ (parsing : Parsing) where
  set_reason-off :
      (o : Option String) (malformed reason : String)
      → set_reason parsing o malformed reason ≡ none
      → (o ≡ none) ⊎ (o ≡ some "false")
  set_reason-off none malformed reason h = inl refl
  set_reason-off (some v) malformed reason h =
      inr (ap some (boolean_fact-off v (at_false (boolean_fact v) h)))
    where
      at_false :
          (b : Option Bool)
          → (elim b [ none ↦ some malformed | some true ↦ some reason | some false ↦ none ]) ≡ none
          → b ≡ some false
      at_false none h = cc
      at_false (some true) h = cc
      at_false (some false) h = refl

  off-set_reason :
      (o : Option String) (malformed reason : String)
      → (o ≡ none) ⊎ (o ≡ some "false")
      → set_reason parsing o malformed reason ≡ none
  unfolding boolean_fact
  off-set_reason o malformed reason (inl e) = rw e refl
  off-set_reason o malformed reason (inr e) = rw e refl

  -- Nothing that the rule minds is going on in the conversation.
  pub record Quiet (rule : IntentPolicyRule) (d : Dict String String) : Type 0 where
    pub no_conversation : rule.interrupts_active_conversation ≡ true → IsOff "conversation.active" d
    pub no_pending_reply : rule.proactive ≡ true → IsOff "conversation.pending_reply" d

  first_none :
      (a b : Option String)
      → (elim a [ none ↦ b | some reason ↦ some reason ]) ≡ none
      → (a ≡ none) × (b ≡ none)
  first_none none b h = (refl, h)
  first_none (some a) b h = cc

  none_first :
      (a b : Option String)
      → a ≡ none
      → b ≡ none
      → (elim a [ none ↦ b | some reason ↦ some reason ]) ≡ none
  none_first a b e h = rw e h

  if_none : (c : Bool) (o : Option String) → (if c then o else none) ≡ none → c ≡ true → o ≡ none
  if_none c o h e = ground arith

  none_if : (c : Bool) (o : Option String) → (c ≡ true → o ≡ none) → (if c then o else none) ≡ none
  none_if true o h = h refl
  none_if false o h = refl

  pub interruption_reason-Quiet :
      (rule : IntentPolicyRule) (d : Dict String String)
      → interruption_reason parsing rule d ≡ none
      → Quiet rule d
  unfolding interruption_reason
  interruption_reason-Quiet rule d h =
      let (active, pending) = first_none _ _ h in
      record {
        no_conversation = λ e.
            set_reason-off (lookup "conversation.active" d) "malformed_conversation_active"
              "active_conversation" (if_none rule.interrupts_active_conversation _ active e);
        no_pending_reply = λ e.
            set_reason-off (lookup "conversation.pending_reply" d) "malformed_pending_reply"
              "pending_reply" (if_none rule.proactive _ pending e);
      }

  pub Quiet-interruption_reason :
      (rule : IntentPolicyRule) (d : Dict String String)
      → Quiet rule d
      → interruption_reason parsing rule d ≡ none
  unfolding interruption_reason
  Quiet-interruption_reason rule d q =
      none_first _ _
        (none_if rule.interrupts_active_conversation _ (λ e.
          off-set_reason (lookup "conversation.active" d) "malformed_conversation_active"
            "active_conversation" (q.no_conversation e)))
        (none_if rule.proactive _ (λ e.
          off-set_reason (lookup "conversation.pending_reply" d) "malformed_pending_reply"
            "pending_reply" (q.no_pending_reply e)))

  -- The text says when the agent last acted by itself, and the cooldown from then on is over.
  pub record IsOver (cooldown clock : ℕ) (value : String) : Type 0 where
    pub last_at : ℕ
    pub readable : parsing.fromisoformat value ≡ some (in_utc last_at)
    pub in_range : last_at + cooldown ≤ max_time
    pub over : last_at + cooldown ≤ clock

  -- A proactive rule, if a last time is given, waits until its cooldown is over.
  abbrev pub Cooled : ℕ → IntentPolicyRule → Dict String String → ℕ → Type 0
  Cooled cooldown rule d clock =
      (value : String)
      → rule.proactive ≡ true
      → lookup "counter.last_proactive_at" d ≡ some value
      → IsOver cooldown clock value

  -- The text is a number below the limit.
  pub record IsBelow (limit : ℕ) (text : String) : Type 0 where
    pub count : ℕ
    pub is_number : parsing.isdigit text ≡ true
    pub reads : parsing.to_int text ≡ ok count
    pub below : count < limit

  -- If the rule names a counter and a limit, the counter is given and is below the limit.
  abbrev pub InBudget : IntentPolicyRule → Dict String String → Type 0
  InBudget rule d =
      (counter : String) (limit : ℕ)
      → rule.media_counter_fact ≡ some counter
      → rule.media_limit ≡ some limit
      → (text : String) × (lookup counter d ≡ some text) × IsBelow limit text

  timestamp_fact-read :
      (value : String) (t : ℕ)
      → timestamp_fact parsing value ≡ some t
      → parsing.fromisoformat value ≡ some (in_utc t)
  unfolding timestamp_fact
  timestamp_fact-read value t h = read (parsing.fromisoformat value) h
    where
      read :
          (o : Option ParsedTime)
          → (elim o [ some (in_utc at) ↦ some at | some elsewhere ↦ none | none ↦ none ]) ≡ some t
          → o ≡ some (in_utc t)
      read none e = cc
      read (some elsewhere) e = cc
      read (some (in_utc at)) e = ap (λ u. some (in_utc u)) (some_inj e)

  after_last-over :
      (cooldown clock t : ℕ)
      → after_last parsing cooldown clock (some t) ≡ ok none
      → (t + cooldown ≤ max_time) × (t + cooldown ≤ clock)
  unfolding after_last
  after_last-over cooldown clock t h = ground arith

  over-after_last :
      (cooldown clock t : ℕ)
      → t + cooldown ≤ max_time
      → t + cooldown ≤ clock
      → after_last parsing cooldown clock (some t) ≡ ok none
  unfolding after_last
  over-after_last cooldown clock t in_range over = ground arith

  after_last-IsOver :
      (cooldown clock : ℕ) (value : String) (o : Option ℕ)
      → timestamp_fact parsing value ≡ o
      → after_last parsing cooldown clock o ≡ ok none
      → IsOver cooldown clock value
  unfolding after_last
  after_last-IsOver cooldown clock value none e h = cc
  after_last-IsOver cooldown clock value (some t) e h =
      let (in_range, over) = after_last-over cooldown clock t h in
      record {
        last_at = t;
        readable = timestamp_fact-read value t e;
        in_range = in_range;
        over = over;
      }

  if_ok :
      (c : Bool) (m : Result (Option String))
      → (if c then m else ok none) ≡ ok none
      → c ≡ true
      → m ≡ ok none
  if_ok true m h e = h
  if_ok false m h e = cc

  ok_if :
      (c : Bool) (m : Result (Option String))
      → (c ≡ true → m ≡ ok none)
      → (if c then m else ok none) ≡ ok none
  ok_if true m h = h refl
  ok_if false m h = refl

  timestamp_fact-given :
      (value : String) (t : ℕ)
      → parsing.fromisoformat value ≡ some (in_utc t)
      → timestamp_fact parsing value ≡ some t
  unfolding timestamp_fact
  timestamp_fact-given value t h = rw (timestamp_fact, h) refl

  pub cooldown_reason-Cooled :
      (cooldown clock : ℕ) (rule : IntentPolicyRule) (d : Dict String String)
      → cooldown_reason parsing cooldown rule d clock ≡ ok none
      → Cooled cooldown rule d clock
  unfolding cooldown_reason
  cooldown_reason-Cooled cooldown clock rule d h value proactive given =
      after_last-IsOver cooldown clock value (timestamp_fact parsing value) refl
        (if_ok rule.proactive _ (rw (given, cooldown_reason) at h) proactive)

  pub Cooled-cooldown_reason :
      (cooldown clock : ℕ) (rule : IntentPolicyRule) (d : Dict String String)
      → Cooled cooldown rule d clock
      → cooldown_reason parsing cooldown rule d clock ≡ ok none
  unfolding cooldown_reason
  Cooled-cooldown_reason cooldown clock rule d cooled =
      elim (Option-cases (lookup "counter.last_proactive_at" d)) [
        | inl missing ↦ rw (missing, cooldown_reason) refl
        | inr (value, given) ↦
            rw (given, cooldown_reason)
              (ok_if rule.proactive _ (λ proactive.
                let w = cooled value proactive given in
                rw (timestamp_fact-given value w.last_at w.readable)
                  (over-after_last cooldown clock w.last_at w.in_range w.over)))
      ]

  if_text :
      (c : Bool) (m : Result (Option String)) (other : String)
      → (if c then m else ok (some other)) ≡ ok none
      → (c ≡ true) × (m ≡ ok none)
  if_text true m other h = (refl, h)
  if_text false m other h = cc

  abbrev within_limit : ℕ → ℕ → Result (Option String)
  within_limit limit count = ok (if leb limit count then some "media_budget_exhausted" else none)

  below_limit : (limit count : ℕ) → within_limit limit count ≡ ok none → count < limit
  below_limit limit count h = ground arith

  limit_above : (limit count : ℕ) → count < limit → within_limit limit count ≡ ok none
  limit_above limit count h = ground arith

  budget-IsBelow :
      (limit : ℕ) (o : Option String)
      → budget parsing limit o ≡ ok none
      → (text : String) × (o ≡ some text) × IsBelow limit text
  budget-IsBelow limit none h = cc
  budget-IsBelow limit (some text) h =
      let (number, rest) = if_text (parsing.isdigit text) _ "malformed_media_counter" h in
      let (count, reads, last) = >>=-eq-ok (parsing.to_int text) _ rest in
      (
        text,
        refl,
        record {
          count = count;
          is_number = number;
          reads = reads;
          below = below_limit limit count last;
        },
      )

  pub media_reason-InBudget :
      (rule : IntentPolicyRule) (d : Dict String String)
      → media_reason parsing rule d ≡ ok none
      → InBudget rule d
  unfolding media_reason
  media_reason-InBudget rule d h counter limit named limited =
      budget-IsBelow limit (lookup counter d) (rw (named, limited, media_reason) at h)

  pub InBudget-media_reason :
      (rule : IntentPolicyRule) (d : Dict String String)
      → InBudget rule d
      → media_reason parsing rule d ≡ ok none
  unfolding media_reason
  InBudget-media_reason rule d below = elim (Option-cases rule.media_counter_fact) [
    | inl unnamed ↦ rw (unnamed, media_reason) refl
    | inr (counter, named) ↦ elim (Option-cases rule.media_limit) [
      | inl unlimited ↦ rw (named, unlimited, media_reason) refl
      | inr (limit, limited) ↦
          let (text, given, w) = below counter limit named limited in
          rw (named, limited, media_reason, given, w.is_number, w.reads, ◌>>=◌)
            (limit_above limit w.count w.below)
    ]
  ]
