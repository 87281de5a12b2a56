-- ===== src/Contracts/Snapshots.antt =====
-- State snapshots and committed transitions (contracts/state.py, contracts/transition.py). A time
-- is a number of microseconds since the year 1; every time is aware and in UTC, so the checks of
-- time zones have nothing to reject. `V` is the type of frozen state values.
use mind_runtime.Base.{
  ℕ, not, ◌||◌, Option, some, none, List, String, ◌==◌, string_eq, ltb, Result, ok, value_error,
  raise_if, ◌>>=◌, ◌>>◌,
}
use mind_runtime.Contracts.Scopes.{
  Scope, scope_eq, require_non_empty, require_domain_key, state_domain_for_scope,
}
use mind_runtime.Contracts.Sync.{SyncFields, freeze_refs, validate_sync_fields}

pub record RuntimeState (V : Type 0) : Type 0 where
  pub state_id : String
  pub scope : Scope
  pub dimension : String
  pub value : V
  pub status : String
  pub valid_from : ℕ
  pub valid_until : Option ℕ
  pub relevant_until : Option ℕ
  pub last_observed_at : ℕ
  pub evidence_refs : List String
  pub transition_refs : List String
  pub updated_at : ℕ
  pub origin_runtime_id : String
  pub version : ℕ
  pub sync : SyncFields

pub record StateTransition (V : Type 0) : Type 0 where
  pub transition_id : String
  pub scope : Scope
  pub origin_runtime_id : String
  pub intent_id : String
  pub from_state : RuntimeState V
  pub to_state : RuntimeState V
  pub committed_at : ℕ
  pub sync : SyncFields

module _ {V : Type 0} where
  -- What `RuntimeState.__post_init__` checks.
  unfoldable pub check_state : RuntimeState V → Result (Unit {0})
  unfolding require_domain_key validate_sync_fields
  check_state s = do
    require_non_empty s.state_id
    require_non_empty s.origin_runtime_id
    require_non_empty s.status
    domain ← state_domain_for_scope s.scope
    require_domain_key s.dimension domain
    raise_if (ltb s.version 1) value_error
    freeze_refs s.evidence_refs
    freeze_refs s.transition_refs
    validate_sync_fields s.sync s.scope s.origin_runtime_id s.state_id (some s.version)

  -- The constructor: the snapshot itself, or the exception.
  unfoldable pub make_state : RuntimeState V → Result (RuntimeState V)
  make_state s = check_state s >> ok s

  -- What `StateTransition.__post_init__` checks.
  unfoldable pub check_transition : StateTransition V → Result (Unit {0})
  unfolding validate_sync_fields
  check_transition t = do
    require_non_empty t.transition_id
    require_non_empty t.origin_runtime_id
    require_non_empty t.intent_id
    raise_if (not (t.from_state.scope == t.scope) || not (t.to_state.scope == t.scope)) value_error
    raise_if (not (t.from_state.dimension == t.to_state.dimension)) value_error
    validate_sync_fields t.sync t.scope t.origin_runtime_id t.transition_id none

  unfoldable pub make_transition : StateTransition V → Result (StateTransition V)
  make_transition t = check_transition t >> ok t
