-- ===== src/Delivery/Lifecycle.antt =====
-- The durable lifecycle of a delivery request (delivery/state.py).
use mind_runtime.Base.{
  ◌≡◌, ◌↔◌, Bool, true, false, Eq, if◌then◌else◌, Result, ok, raise, value_error, arith,
}

pub data DeliveryLifecycleState : Type 0 where
  pending in_flight accepted rejected failed_retryable unknown : DeliveryLifecycleState

abbrev pub same_state : DeliveryLifecycleState → DeliveryLifecycleState → Bool
same_state pending pending = true
same_state in_flight in_flight = true
same_state accepted accepted = true
same_state rejected rejected = true
same_state failed_retryable failed_retryable = true
same_state unknown unknown = true
same_state _ _ = false

pub same_state_iff : (a b : DeliveryLifecycleState) → (same_state a b ≡ true) ↔ (a ≡ b)
same_state_iff a b = ground arith

instance abbrev pub delivery_state_eq : Eq DeliveryLifecycleState
delivery_state_eq = record { beq = same_state; beq_iff = same_state_iff }

-- `to_state in _ALLOWED_TRANSITIONS[from_state]`
abbrev pub allowed : DeliveryLifecycleState → DeliveryLifecycleState → Bool
allowed pending in_flight = true
allowed pending failed_retryable = true
allowed pending unknown = true
allowed in_flight accepted = true
allowed in_flight rejected = true
allowed in_flight failed_retryable = true
allowed in_flight unknown = true
allowed failed_retryable pending = true
allowed failed_retryable rejected = true
allowed unknown accepted = true
allowed unknown rejected = true
allowed unknown failed_retryable = true
allowed unknown pending = true
allowed _ _ = false

unfoldable pub validate_transition :
    DeliveryLifecycleState → DeliveryLifecycleState → Result (Unit {0})
validate_transition from_state to_state =
    if same_state from_state to_state
    then ok tt
    else if allowed from_state to_state
    then ok tt
    else raise value_error

abbrev pub is_terminal : DeliveryLifecycleState → Bool
is_terminal accepted = true
is_terminal rejected = true
is_terminal _ = false
