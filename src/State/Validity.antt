-- ===== src/State/Validity.antt =====
-- The validity of a state at an instant (state/validity.py).
pub mod Expiry
use mind_runtime.Base.{
  ℕ, ◌+◌, Bool, true, false, Option, none, some, String, ◌<>◌, ◌==◌, string_eq, leb, if◌then◌else◌,
  Result, ok, ◌>>=◌,
}
use mind_runtime.Contracts.{RuntimeState, make_state}
use mind_runtime.State.Lifecycle.{
  lifecycle_value, expired, is_current_like, is_terminal, canonical_state_id,
}

pub record ValidityOutcome (V : Type 0) : Type 0 where
  pub state : RuntimeState V
  pub changed : Bool
  pub reason : String

-- `state.valid_until is not None and now > state.valid_until`
abbrev pub is_lapsed : Option ℕ → ℕ → Bool
is_lapsed none now = false
is_lapsed (some until) now = if leb now until then false else true

module _ {V : Type 0} where
  -- The record of `_expired_successor`, before its constructor checks it.
  unfoldable pub expired_record : RuntimeState V → ℕ → RuntimeState V
  expired_record s now =
      let next_version = s.version + 1 in
      let next_state_id = canonical_state_id s.dimension next_version in
      record s {
        state_id = next_state_id;
        status = lifecycle_value expired;
        updated_at = now;
        version = next_version;
        sync = record {
          scope = s.scope;
          origin_runtime_id = s.origin_runtime_id;
          object_id = next_state_id;
          version = next_version;
          idempotency_key = "idem-" <> next_state_id;
        };
      }

  -- `_expired_successor`
  unfoldable pub expired_successor : RuntimeState V → ℕ → Result (RuntimeState V)
  expired_successor s now = make_state (expired_record s now)

  -- `ValidityOutcome.expired`
  abbrev pub is_expired : ValidityOutcome V → Bool
  is_expired o = o.reason == "expired_by_ttl"

  unfoldable pub evaluate_validity : RuntimeState V → ℕ → Result (ValidityOutcome V)
  evaluate_validity s now =
      if is_terminal s.status
      then ok (record { state = s; changed = false; reason = "terminal_protected" })
      else if is_current_like s.status
      then if is_lapsed s.valid_until now
        then (do
          successor ← expired_successor s now
          ok (record { state = successor; changed = true; reason = "expired_by_ttl" }))
        else ok (record { state = s; changed = false; reason = "valid" })
      else ok (record { state = s; changed = false; reason = "opaque_status" })
