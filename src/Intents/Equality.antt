-- ===== src/Intents/Equality.antt =====
-- The equality that the dataclasses of contracts/intent.py derive: that of all their fields.
use mind_runtime.Base.{
  eq_by, ◌⊗◌, pair_eq, ℕ, String, ◌≡◌, refl, ◌↔◌, Bool, true, false, Option, List, arith, Eq,
  nat_eq, string_eq, option_eq, list_eq,
}
use mind_runtime.Contracts.{Scope, scope_eq, SyncFields, sync_fields_eq}
use mind_runtime.Intents.Records.{
  IntentStatus, status_eq, ReconsiderationPolicy, policy_eq, IntentScoreContribution,
  IntentScoreTrace, Intent, IntentTransition,
}

abbrev pub bool_eqb : Bool → Bool → Bool
bool_eqb true true = true
bool_eqb false false = true
bool_eqb _ _ = false

pub bool_eqb_iff : (a b : Bool) → (bool_eqb a b ≡ true) ↔ (a ≡ b)
bool_eqb_iff a b = ground arith

instance abbrev pub bool_eq : Eq Bool
bool_eq = record { beq = bool_eqb; beq_iff = bool_eqb_iff }

abbrev TraceTuple : Type 0 → Type 0
TraceTuple F =
    (String × (Scope × (String × (String × (List (IntentScoreContribution F) × F)))))
    × ((F × (Bool × (List String × (ℕ × Option String))))
        × (Option String × (Option String × (List (String × F) × (Option String × Option String)))))

abbrev IntentTuple : Type 0 → Type 0
IntentTuple F =
    (String × (Scope × (String × (String × (F × (Option ℕ × Option ℕ))))))
    × (Option ℕ
        × (ReconsiderationPolicy
            × (List String
                × (List String × (IntentStatus × (SyncFields × Option (IntentScoreTrace F)))))))

module _ {F : Type 0} ⦃float_eq : Eq F⦄ where
  abbrev contribution_tuple : IntentScoreContribution F → String × (String × F)
  contribution_tuple c = (c.source_kind, (c.source_ref, c.amount))

  abbrev contribution_of : String × (String × F) → IntentScoreContribution F
  contribution_of (a, (b, c)) = record { source_kind = a; source_ref = b; amount = c }

  instance abbrev pub contribution_eq : Eq (IntentScoreContribution F)
  contribution_eq =
      eq_by ⦃e = string_eq ⊗ string_eq ⊗ float_eq⦄ contribution_tuple contribution_of (λ c. refl)

  abbrev trace_tuple : IntentScoreTrace F → TraceTuple F
  trace_tuple t = (
    (t.trace_id, (t.scope, (t.rule_id, (t.intent_id, (t.contributions, t.unclamped_score))))),
    (
      (t.final_strength, (t.admitted, (t.reason_codes, (t.created_at, t.surface_controls_ref)))),
      (
        t.surface_dependency_digest,
        (t.overlap_validation_ref, (t.surface_weights, (t.surface_recipe_ref, t.ruleset_ref))),
      ),
    ),
  )

  abbrev trace_of : TraceTuple F → IntentScoreTrace F
  trace_of ((a, (b, (c, (d, (e, f))))), ((g, (h, (i, (j, k)))), (l, (m, (n, (o, p)))))) = record {
    trace_id = a;
    scope = b;
    rule_id = c;
    intent_id = d;
    contributions = e;
    unclamped_score = f;
    final_strength = g;
    admitted = h;
    reason_codes = i;
    created_at = j;
    surface_controls_ref = k;
    surface_dependency_digest = l;
    overlap_validation_ref = m;
    surface_weights = n;
    surface_recipe_ref = o;
    ruleset_ref = p;
  }

  instance abbrev pub trace_eq : Eq (IntentScoreTrace F)
  trace_eq =
      eq_by
        ⦃e = (string_eq
            ⊗ scope_eq
            ⊗ string_eq
            ⊗ string_eq
            ⊗ list_eq ⦃e = contribution_eq⦄
            ⊗ float_eq)
          ⊗ (float_eq ⊗ bool_eq ⊗ list_eq ⦃e = string_eq⦄ ⊗ nat_eq ⊗ option_eq ⦃e = string_eq⦄)
          ⊗ option_eq ⦃e = string_eq⦄
          ⊗ option_eq ⦃e = string_eq⦄
          ⊗ list_eq ⦃e = string_eq ⊗ float_eq⦄
          ⊗ option_eq ⦃e = string_eq⦄
          ⊗ option_eq ⦃e = string_eq⦄⦄
        trace_tuple trace_of (λ t. refl)

  abbrev intent_tuple : Intent F → IntentTuple F
  intent_tuple i = (
    (
      i.intent_id,
      (i.scope, (i.origin_runtime_id, (i.kind, (i.strength, (i.earliest_at, i.due_at))))),
    ),
    (
      i.expires_at,
      (
        i.reconsideration_policy,
        (i.cause_refs, (i.state_refs, (i.status, (i.sync, i.surface_use)))),
      ),
    ),
  )

  abbrev intent_of : IntentTuple F → Intent F
  intent_of ((a, (b, (c, (d, (e, (f, g)))))), (h, (i, (j, (k, (l, (m, n))))))) = record {
    intent_id = a;
    scope = b;
    origin_runtime_id = c;
    kind = d;
    strength = e;
    earliest_at = f;
    due_at = g;
    expires_at = h;
    reconsideration_policy = i;
    cause_refs = j;
    state_refs = k;
    status = l;
    sync = m;
    surface_use = n;
  }

  instance abbrev pub intent_eq : Eq (Intent F)
  intent_eq =
      eq_by
        ⦃e = (string_eq
            ⊗ scope_eq
            ⊗ string_eq
            ⊗ string_eq
            ⊗ float_eq
            ⊗ option_eq ⦃e = nat_eq⦄
            ⊗ option_eq ⦃e = nat_eq⦄)
          ⊗ option_eq ⦃e = nat_eq⦄
          ⊗ policy_eq
          ⊗ list_eq ⦃e = string_eq⦄
          ⊗ list_eq ⦃e = string_eq⦄
          ⊗ status_eq
          ⊗ sync_fields_eq
          ⊗ option_eq ⦃e = trace_eq⦄⦄
        intent_tuple intent_of (λ i. refl)

abbrev transition_tuple :
    IntentTransition
    → (String × (Scope × (String × (String × IntentStatus))))
      × (IntentStatus × (List String × (ℕ × (ℕ × SyncFields))))
transition_tuple t = (
  (t.transition_id, (t.scope, (t.origin_runtime_id, (t.intent_id, t.from_status)))),
  (t.to_status, (t.reason_codes, (t.occurred_at, (t.version, t.sync)))),
)

abbrev transition_of :
    (String × (Scope × (String × (String × IntentStatus))))
      × (IntentStatus × (List String × (ℕ × (ℕ × SyncFields))))
    → IntentTransition
transition_of ((a, (b, (c, (d, e)))), (f, (g, (h, (i, j))))) = record {
  transition_id = a;
  scope = b;
  origin_runtime_id = c;
  intent_id = d;
  from_status = e;
  to_status = f;
  reason_codes = g;
  occurred_at = h;
  version = i;
  sync = j;
}

instance abbrev pub transition_eq : Eq IntentTransition
transition_eq =
    eq_by
      ⦃e = (string_eq ⊗ scope_eq ⊗ string_eq ⊗ string_eq ⊗ status_eq)
        ⊗ status_eq
        ⊗ list_eq ⦃e = string_eq⦄
        ⊗ nat_eq
        ⊗ nat_eq
        ⊗ sync_fields_eq⦄
      transition_tuple transition_of (λ t. refl)
