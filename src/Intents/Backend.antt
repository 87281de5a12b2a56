-- ===== src/Intents/Backend.antt =====
-- What the lifecycle service requires of its backends, and what the backends share: the key of an
-- intent and the check that a transition fits its two versions (intents/persistence.py).
use mind_runtime.Base.{
  ◌>>=◌, ◌>>◌, pair_eq, ℕ, ◌+◌, String, Bool, not, ◌&&◌, ◌||◌, Option, some, List, Eq, ◌==◌, nat_eq,
  string_eq, option_eq, list_eq, value_error, Result, raise_if,
}
use mind_runtime.Contracts.{Scope, scope_eq, sync_fields_eq}
use mind_runtime.Intents.Records.{status_eq, Intent, IntentTransition, make_intent}
use mind_runtime.Intents.Equality.{intent_eq, transition_eq}

-- What the service requires of its backend.
pub record IntentBackend (F S : Type 0) : Type 0 where
  pub append_initial : Intent F → S → Result (Intent F × S)
  pub apply_transition : Intent F → Intent F → IntentTransition → S → Result (Intent F × S)
  pub current : Scope → S → Result (List (Intent F))
  pub history : Scope → String → S → Result (List (Intent F))
  pub transitions : Scope → String → S → Result (List IntentTransition)

abbrev pub IntentKey : Type 0
IntentKey = Scope × String

abbrev pub key_of : {F : Type 0} → Intent F → IntentKey
key_of i = (i.scope, i.intent_id)

abbrev pub has_key : {F : Type 0} → String → Intent F → Bool
has_key idempotency_key i = i.sync.idempotency_key == idempotency_key

abbrev pub at_version : ℕ → IntentTransition → Bool
at_version version t = t.version == version

-- `transition` says what happened between `before` and `after`.
abbrev pub describes : {F : Type 0} → Intent F → Intent F → IntentTransition → Bool
describes before after transition =
    transition.scope == before.scope
    && transition.origin_runtime_id == before.origin_runtime_id
    && transition.intent_id == before.intent_id
    && transition.from_status == before.status
    && transition.to_status == after.status
    && transition.version == after.sync.version

module _ {F : Type 0} ⦃float_eq : Eq F⦄ (in_unit : F → Bool) where
  unfoldable pub validate_transition_shape :
      Intent F → Intent F → IntentTransition → Option (Intent F) → Result (Unit {0})
  validate_transition_shape before after transition current = do
    raise_if (not (current == some before)) value_error
    raise_if (not (after.scope == before.scope) || not (after.intent_id == before.intent_id))
        value_error
    raise_if (not (after.origin_runtime_id == before.origin_runtime_id)) value_error
    raise_if (not (after.sync.version == before.sync.version + 1)) value_error
    expected ← make_intent in_unit (record before { status = after.status; sync = after.sync })
    raise_if (not (after == expected)) value_error
    raise_if (not (describes before after transition)) value_error
    raise_if (not (transition.sync.idempotency_key == after.sync.idempotency_key)) value_error
