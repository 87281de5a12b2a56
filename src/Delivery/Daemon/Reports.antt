-- ===== src/Delivery/Daemon/Reports.antt =====
-- What an outcome of the daemon says of the store, and the facts that its proof needs of answers and
-- of the retry policy.
use mind_runtime.Base.{
  ℕ, suc, ◌+◌, ◌<◌, String, ◌<>◌, ◌≡◌, refl, sym, ap, ◌∙◌, ◌≢◌, ◌⊎◌, inl, inr, Bool, true, false,
  [], ◌∷◌, arith, nat_eq, string_eq, option_eq, list_eq, beq_ne, ok,
}
use text.Mathlib.TextPositions.{len-append}
use Prim.Native.Char.{Char}
use Prim.Native.String.{len}
use mind_runtime.Delivery.Lifecycle.{
  DeliveryLifecycleState, pending, in_flight, accepted, rejected, failed_retryable, unknown,
  validate_transition,
}
use mind_runtime.Delivery.Requests.{DeliveryReceipt}
use mind_runtime.Delivery.Retry.{can_retry, reconcile_first, compute_retry_decision}
use mind_runtime.Delivery.Store.{Db, DurableRequestRow, check_codes}
use mind_runtime.Delivery.Store.Returns.{At}
use mind_runtime.Delivery.Daemon.{DaemonOutcome, ReconciliationResult, resolved_accept, prefix}

-- An answer that names what it must: an acceptance its reference, a failure its text.
abbrev pub Named : ReconciliationResult → Type 0
Named (resolved_accept ref message_ref) = ref ≢ ""
Named _ = Unit

abbrev pub Told : DeliveryReceipt ⊎ String → Type 0
Told (inl receipt) = Unit
Told (inr error) = error ≢ ""

pub att_ne : (s : String) → "att-" <> s ≢ ""
att_ne s e = omega (arith, sym (len-append "att-" s) ∙ ap len e)

pub in_flight-unknown : validate_transition in_flight unknown ≡ ok tt
unfolding validate_transition
in_flight-unknown = refl

abbrev is_cons : String → Bool
is_cons String.[] = false
is_cons (String.◌∷◌ c s) = true

absurd_text : true ≡ false → ⊥
absurd_text h = cc

cons_ne : (c : Char) (s : String) → String.◌∷◌ c s ≢ ""
cons_ne c s e = absurd_text (ap is_cons e)

prefix_ne : (n : ℕ) (s : String) → s ≢ "" → prefix (suc n) s ≢ ""
prefix_ne n String.[] h e = h refl
prefix_ne n (String.◌∷◌ c s) h e = cons_ne c (prefix n s) e

-- The reasons of an attempt whose carrier raised are not empty.
pub codes-port_raised :
    (error : String) → error ≢ "" → check_codes ("port_raised" ∷ prefix 64 error ∷ []) ≡ ok tt
codes-port_raised error h = rw (beq_ne (prefix 64 error) "" (prefix_ne 63 error h)) refl

-- The states on which the reconciler is asked.
abbrev pub waits : DeliveryLifecycleState → Bool
waits in_flight = true
waits unknown = true
waits _ = false

pub answer_legal :
    (s : DeliveryLifecycleState)
    → waits s ≡ true
    → (validate_transition s accepted ≡ ok tt)
      × (validate_transition s rejected ≡ ok tt)
      × (validate_transition s failed_retryable ≡ ok tt)
unfolding validate_transition
answer_legal in_flight h = (refl, refl, refl)
answer_legal unknown h = (refl, refl, refl)
answer_legal pending h = cc
answer_legal accepted h = cc
answer_legal rejected h = cc
answer_legal failed_retryable h = cc

-- The states in which the carrier is called.
abbrev pub retries : DeliveryLifecycleState → Bool
retries pending = true
retries failed_retryable = true
retries _ = false

pub can_retry-under :
    (s : DeliveryLifecycleState) (n budget : ℕ)
    → (compute_retry_decision s n budget).kind ≡ can_retry
    → (retries s ≡ true) × (n < budget)
unfolding compute_retry_decision
can_retry-under pending n budget h = ground arith
can_retry-under failed_retryable n budget h = ground arith
can_retry-under in_flight n budget h = cc
can_retry-under unknown n budget h = cc
can_retry-under accepted n budget h = cc
can_retry-under rejected n budget h = cc

pub reconcile_first-waits :
    (s : DeliveryLifecycleState) (n budget : ℕ)
    → (compute_retry_decision s n budget).kind ≡ reconcile_first
    → waits s ≡ true
unfolding compute_retry_decision
reconcile_first-waits pending n budget h = ground arith
reconcile_first-waits failed_retryable n budget h = ground arith
reconcile_first-waits in_flight n budget h = refl
reconcile_first-waits unknown n budget h = refl
reconcile_first-waits accepted n budget h = cc
reconcile_first-waits rejected n budget h = cc

-- The outcome reports what the store holds after it, on a request whose row was `row` before. The
-- other requests are as they were in `base`, and an attempt is made only under the budget.
pub record Reported (budget : ℕ) (row : DurableRequestRow) (base : Db) (report : DaemonOutcome)
    (db : Db) : Type 0 where
  pub row_after : DurableRequestRow
  pub at : At base row.request.request_id row_after db
  pub same_id : report.request_id ≡ row.request.request_id
  pub same_request : row_after.request ≡ row.request
  pub same_state : row_after.lifecycle_state ≡ report.final_state
  pub same_attempt : row_after.attempt_count ≡ report.attempt
  pub within :
      (report.attempt ≡ row.attempt_count)
      ⊎ ((report.attempt ≡ row.attempt_count + 1) × (row.attempt_count < budget))
