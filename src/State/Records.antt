-- ===== src/State/Records.antt =====
-- The records that the reconciler builds: fresh states, next versions and transitions
-- (state/reconciler.py). `V` is the type of frozen state values and `B` that of the bounds of a
-- definition.
use mind_runtime.Base.{
  add_time, ℕ, ◌+◌, Bool, true, false, Option, none, some, [], ◌++◌, String, ◌<>◌, Result, ok,
  raise, assertion_error, ◌>>=◌,
}
use mind_runtime.Contracts.{
  Scope, SyncFields, RuntimeState, make_state, StateTransition, make_transition,
}
use mind_runtime.State.Lifecycle.{StateLifecycle, active, lifecycle_value, canonical_state_id}
use mind_runtime.State.Definitions.{Registry, ValidityKind, ValidityPolicy, validity_policy}
use mind_runtime.State.Interpretation.{StateIntent}

-- The synchronization fields that every record of a state carries.
abbrev pub state_sync : Scope → String → String → ℕ → SyncFields
state_sync scope origin object_id version = record {
  scope = scope;
  origin_runtime_id = origin;
  object_id = object_id;
  version = version;
  idempotency_key = "idem-" <> object_id;
}

-- The new end of the envelope under a TTL policy.
abbrev pub ttl_end : Option ℕ → ℕ → Result (Option ℕ)
ttl_end none now = raise assertion_error
ttl_end (some t) now = add_time now t >>= λ until. ok (some until)

-- `valid_until` under the policy; what it is without a TTL is given.
abbrev pub valid_until_by : ValidityPolicy → Option ℕ → ℕ → Result (Option ℕ)
valid_until_by policy otherwise now = elim policy.kind [
  | ValidityKind.ttl ↦ ttl_end policy.ttl now
  | _ ↦ ok otherwise
]

abbrev pub is_event_only : ValidityPolicy → Bool
is_event_only policy = elim policy.kind [ ValidityKind.event_only ↦ true | _ ↦ false ]

module _ {V : Type 0} where
  unfoldable pub transition_record : RuntimeState V → RuntimeState V → ℕ → StateTransition V
  transition_record from_state to_state now =
      let transition_id = "transition:" <> to_state.state_id in
      record {
        transition_id = transition_id;
        scope = from_state.scope;
        origin_runtime_id = to_state.origin_runtime_id;
        intent_id = "intent:" <> to_state.state_id;
        from_state = from_state;
        to_state = to_state;
        committed_at = now;
        sync = state_sync from_state.scope to_state.origin_runtime_id transition_id 1;
      }

  -- `_transition`
  unfoldable pub transition : RuntimeState V → RuntimeState V → ℕ → Result (StateTransition V)
  transition from_state to_state now = make_transition (transition_record from_state to_state now)

  -- The record of `_fresh_state`.
  unfoldable pub fresh_record : Scope → StateIntent V → ℕ → ℕ → ℕ → Option ℕ → RuntimeState V
  fresh_record scope intent now version valid_from valid_until =
      let state_id = canonical_state_id intent.dimension version in
      record {
        state_id = state_id;
        scope = scope;
        dimension = intent.dimension;
        value = intent.value;
        status = lifecycle_value active;
        valid_from = valid_from;
        valid_until = valid_until;
        relevant_until = none;
        last_observed_at = now;
        evidence_refs = intent.evidence_refs;
        transition_refs = [];
        updated_at = now;
        origin_runtime_id = intent.origin_runtime_id;
        version = version;
        sync = state_sync scope intent.origin_runtime_id state_id version;
      }

  -- The next version of a state, as `_terminal_record` and `_refresh` write it.
  unfoldable pub next_record :
      RuntimeState V → String → Option ℕ → StateIntent V → ℕ → RuntimeState V
  next_record s status valid_until intent now =
      let version = s.version + 1 in
      let state_id = canonical_state_id s.dimension version in
      record s {
        state_id = state_id;
        status = status;
        valid_until = valid_until;
        last_observed_at = now;
        evidence_refs = s.evidence_refs ++ intent.evidence_refs;
        updated_at = now;
        version = version;
        sync = state_sync s.scope s.origin_runtime_id state_id version;
      }

  -- `_terminal_record`
  unfoldable pub terminal_record :
      RuntimeState V → StateLifecycle → StateIntent V → ℕ → Result (RuntimeState V)
  terminal_record s lifecycle intent now =
      make_state (next_record s (lifecycle_value lifecycle) s.valid_until intent now)

  -- `_refresh`
  unfoldable pub refresh :
      RuntimeState V → StateIntent V → ValidityPolicy → ℕ → Result (RuntimeState V)
  refresh s intent policy now = do
    valid_until ← valid_until_by policy s.valid_until now
    make_state (next_record s s.status valid_until intent now)

module _ {V : Type 0} {B : Type 0} (definitions : Registry B) where
  -- `_fresh_state`
  unfoldable pub fresh_state : Scope → StateIntent V → ℕ → ℕ → ℕ → Result (RuntimeState V)
  fresh_state scope intent now version valid_from = do
    policy ← validity_policy intent.dimension definitions
    valid_until ← valid_until_by policy none now
    make_state (fresh_record scope intent now version valid_from valid_until)
