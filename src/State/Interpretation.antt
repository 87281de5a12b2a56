-- ===== src/State/Interpretation.antt =====
-- The input contract of the reconciler: typed intents, and how an observation's key is read as one
-- (state/reconciler.py).
pub mod Keys
use mind_runtime.Base.{
  ℕ, Bool, not, ◌&&◌, ◌||◌, Option, none, some, List, String, ◌==◌, string_eq, if◌then◌else◌,
  partition, rpartition,
}
use mind_runtime.Contracts.{Scope, RuntimeState}
use mind_runtime.State.Lifecycle.{StateLifecycle, cancelled, completed, resolved, is_current_like}

pub record StateIntent (V : Type 0) : Type 0 where
  pub dimension : String
  pub value : V
  pub observed_at : ℕ
  pub scope : Scope
  pub origin_runtime_id : String
  pub evidence_refs : List String
  pub lifecycle : Option StateLifecycle

-- The fields of an observation (contracts/observation.py) that its interpretation reads.
pub record Observation (V : Type 0) : Type 0 where
  pub key : String
  pub value : V
  pub observed_at : ℕ
  pub scope : Scope
  pub origin_runtime_id : String
  pub evidence_refs : List String

-- `_TERMINAL_SUFFIXES` and `_VALUE_SUFFIX`: the lifecycle that a key's suffix stands for, `none`
-- within for a value, and `none` for any other suffix.
unfoldable pub suffix_lifecycle : String → Option (Option StateLifecycle)
suffix_lifecycle suffix =
    if suffix == "observed"
    then some none
    else if suffix == "cancelled"
    then some (some cancelled)
    else if suffix == "completed"
    then some (some completed)
    else if suffix == "resolved"
    then some (some resolved)
    else none

-- `_STATE_DOMAINS`
abbrev is_state_domain : String → Bool
is_state_domain p = p == "user" || p == "agent" || p == "relationship" || p == "interaction"

-- The second test of the key, on `<domain>.<name>`.
abbrev pub is_dimension : String → Bool
is_dimension dimension =
    let (prefix, dot, name) = partition b'.' dimension in
    dot && not (name == "") && is_state_domain prefix

unfoldable pub interpret_observation : {V : Type 0} → Observation V → Option (StateIntent V)
interpret_observation o =
    let (dimension, separator, suffix) = rpartition b'.' o.key in
    elim (suffix_lifecycle suffix) [
      | none ↦ none
      | some lifecycle ↦
          if separator && not (dimension == "") && is_dimension dimension
          then some (record {
            dimension = dimension;
            value = o.value;
            observed_at = o.observed_at;
            scope = o.scope;
            origin_runtime_id = o.origin_runtime_id;
            evidence_refs = o.evidence_refs;
            lifecycle = lifecycle;
          })
          else none
    ]

unfoldable pub has_legal_terminal_target : {V : Type 0} → RuntimeState V → String → Bool
has_legal_terminal_target s operation = is_current_like s.status || s.status == operation
