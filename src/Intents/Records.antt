-- ===== src/Intents/Records.antt =====
-- Intents, their transitions and their wakes (contracts/intent.py). `F` is the type of Python's
-- floats other than NaN, with their equality, and `in_unit` is their test `0 <= x <= 1`. A time is a
-- number of microseconds, aware and in UTC.
use mind_runtime.Base.{
  ◌>>◌, pair_eq, ℕ, String, ◌≡◌, ◌↔◌, Bool, true, false, not, ◌&&◌, ◌||◌, Option, none, some, List,
  [], ◌∷◌, arith, ltb, leb, Eq, ◌==◌, nat_eq, string_eq, option_eq, list_eq, value_error, Result,
  ok, raise_if,
}
use mind_runtime.Contracts.{
  Scope, scope_eq, SyncFields, require_non_empty, freeze_refs, validate_sync_fields,
}

pub data IntentStatus : Type 0 where
  candidate deferred allowed blocked expired completed superseded : IntentStatus

abbrev pub status_eqb : IntentStatus → IntentStatus → Bool
status_eqb candidate candidate = true
status_eqb deferred deferred = true
status_eqb allowed allowed = true
status_eqb blocked blocked = true
status_eqb expired expired = true
status_eqb completed completed = true
status_eqb superseded superseded = true
status_eqb _ _ = false

pub status_eqb_iff : (a b : IntentStatus) → (status_eqb a b ≡ true) ↔ (a ≡ b)
status_eqb_iff a b = ground arith

instance abbrev pub status_eq : Eq IntentStatus
status_eq = record { beq = status_eqb; beq_iff = status_eqb_iff }

pub data ReconsiderationPolicy : Type 0 where
  on_due on_context_change manual never : ReconsiderationPolicy

abbrev pub policy_eqb : ReconsiderationPolicy → ReconsiderationPolicy → Bool
policy_eqb on_due on_due = true
policy_eqb on_context_change on_context_change = true
policy_eqb manual manual = true
policy_eqb never never = true
policy_eqb _ _ = false

pub policy_eqb_iff : (a b : ReconsiderationPolicy) → (policy_eqb a b ≡ true) ↔ (a ≡ b)
policy_eqb_iff a b = ground arith

instance abbrev pub policy_eq : Eq ReconsiderationPolicy
policy_eq = record { beq = policy_eqb; beq_iff = policy_eqb_iff }

pub record IntentScoreContribution (F : Type 0) : Type 0 where
  pub source_kind : String
  pub source_ref : String
  pub amount : F

pub record IntentScoreTrace (F : Type 0) : Type 0 where
  pub trace_id : String
  pub scope : Scope
  pub rule_id : String
  pub intent_id : String
  pub contributions : List (IntentScoreContribution F)
  pub unclamped_score : F
  pub final_strength : F
  pub admitted : Bool
  pub reason_codes : List String
  pub created_at : ℕ
  pub surface_controls_ref : Option String
  pub surface_dependency_digest : Option String
  pub overlap_validation_ref : Option String
  pub surface_weights : List (String × F)
  pub surface_recipe_ref : Option String
  pub ruleset_ref : Option String

pub record Intent (F : Type 0) : Type 0 where
  pub intent_id : String
  pub scope : Scope
  pub origin_runtime_id : String
  pub kind : String
  pub strength : F
  pub earliest_at : Option ℕ
  pub due_at : Option ℕ
  pub expires_at : Option ℕ
  pub reconsideration_policy : ReconsiderationPolicy
  pub cause_refs : List String
  pub state_refs : List String
  pub status : IntentStatus
  pub sync : SyncFields
  pub surface_use : Option (IntentScoreTrace F)

pub record IntentTransition : Type 0 where
  pub transition_id : String
  pub scope : Scope
  pub origin_runtime_id : String
  pub intent_id : String
  pub from_status : IntentStatus
  pub to_status : IntentStatus
  pub reason_codes : List String
  pub occurred_at : ℕ
  pub version : ℕ
  pub sync : SyncFields

pub record IntentWake : Type 0 where
  pub wake_id : String
  pub scope : Scope
  pub intent_id : String
  pub reason : String
  pub woken_at : ℕ
  pub intent_version : ℕ

-- The times that are given, in the order of the fields.
abbrev times : List (Option ℕ) → List ℕ
times [] = []
times (none ∷ ts) = times ts
times (some t ∷ ts) = t ∷ times ts

abbrev ascending : List ℕ → Bool
ascending [] = true
ascending (t ∷ []) = true
ascending (t ∷ u ∷ ts) = leb t u && ascending (u ∷ ts)

module _ {F : Type 0} where
  -- What is wrong with the evidence of surface use, if anything.
  abbrev check_surface_use : Intent F → Option (IntentScoreTrace F) → Result (Unit {0})
  check_surface_use i none = ok tt
  check_surface_use i (some trace) =
      raise_if
        (not trace.admitted
          || not (trace.intent_id == i.intent_id)
          || not (trace.scope == i.scope)
          || trace.surface_controls_ref == none)
        value_error

  -- What `Intent.__post_init__` checks.
  unfoldable pub check_intent : (F → Bool) → Intent F → Result (Unit {0})
  check_intent in_unit i = do
    require_non_empty i.intent_id
    require_non_empty i.origin_runtime_id
    require_non_empty i.kind
    raise_if (not (in_unit i.strength)) value_error
    raise_if (not (ascending (times (i.earliest_at ∷ i.due_at ∷ i.expires_at ∷ [])))) value_error
    freeze_refs i.cause_refs
    freeze_refs i.state_refs
    validate_sync_fields i.sync i.scope i.origin_runtime_id i.intent_id none
    check_surface_use i i.surface_use

  unfoldable pub make_intent : (F → Bool) → Intent F → Result (Intent F)
  make_intent in_unit i = check_intent in_unit i >> ok i

-- `IntentTransition.__post_init__`
unfoldable pub check_intent_transition : IntentTransition → Result (Unit {0})
check_intent_transition t = do
  require_non_empty t.transition_id
  require_non_empty t.origin_runtime_id
  require_non_empty t.intent_id
  raise_if (t.from_status == t.to_status) value_error
  raise_if (ltb t.version 2) value_error
  freeze_refs t.reason_codes
  validate_sync_fields t.sync t.scope t.origin_runtime_id t.transition_id none
  raise_if (not (t.sync.version == t.version)) value_error

unfoldable pub make_intent_transition : IntentTransition → Result IntentTransition
make_intent_transition t = check_intent_transition t >> ok t

-- `IntentWake.__post_init__`
unfoldable pub make_intent_wake : IntentWake → Result IntentWake
make_intent_wake w = do
  require_non_empty w.wake_id
  require_non_empty w.intent_id
  require_non_empty w.reason
  raise_if (ltb w.intent_version 1) value_error
  ok w
