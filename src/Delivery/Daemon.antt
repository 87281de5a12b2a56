-- ===== src/Delivery/Daemon.antt =====
-- The recovery daemon (`DaemonPass` of delivery/daemon.py) and the answers of a reconciler
-- (delivery/reconcile.py). The carrier, the reconciler and the clock are parameters: `deliver` gives
-- a receipt or the text of what it raised, and `now id k` is the k-th time that the code reads while
-- it drives the request `id`, which a pass drives once.
pub mod Safety
pub mod Sending
pub mod Reports
pub mod Reconciling
pub mod Attempts
pub mod Progress
pub mod Runs
use mind_runtime.Base.{
  ℕ, zero, suc, ◌+◌, String, ◌<>◌, decimal, Option, none, some, List, [], ◌∷◌, ◌⊎◌, inl, inr, Bool,
  true, false, value_error, assertion_error, codes,
}
use mind_runtime.Delivery.Lifecycle.{
  DeliveryLifecycleState, pending, in_flight, accepted, rejected, failed_retryable, unknown,
}
use mind_runtime.Delivery.Retry.{
  RetryDecisionKind, can_retry, do_not_retry, reconcile_first, RetryDecision,
  compute_retry_decision,
}
use mind_runtime.Delivery.Requests.{
  DeliveryRequest, DeliveryReceipt, DeliveryStatus, SurfaceHandoffProvenance,
}
use mind_runtime.Delivery.Store.{
  Db, DurableRequestRow, DurableReceiptRow, DurableAttemptRow, set_lifecycle_state,
  increment_attempt, record_reconcile, record_provider_receipt_ref, record_receipt, record_attempt,
  unfinished_requests,
}
use mind_runtime.Delivery.Actions.{Action, ◌>>=◌, ◌>>◌, pure, failure, call, attempt}

pub data ReconciliationResult : Type 0 where
  resolved_accept : String → Option String → ReconciliationResult
  resolved_retryable resolved_reject resolved_not_found resolved_unknown :
      String → ReconciliationResult

pub record DaemonOutcome : Type 0 where
  pub request_id : String
  pub decision_kind : RetryDecisionKind
  pub final_state : DeliveryLifecycleState
  pub attempt : ℕ
  pub reason_code : String
  pub provider_receipt_ref : Option String

-- The state to write, if any, with its reason and the provider's reference.
abbrev pub Verdict : Type 0 → Type 0
Verdict S = S × String × Option String

unfoldable pub apply_reconcile :
    DeliveryRequest → ReconciliationResult → Action (Verdict (Option DeliveryLifecycleState))
apply_reconcile request (resolved_accept ref message_ref) = do
  call (record_provider_receipt_ref request.request_id ref)
  pure (some accepted, "reconcile_accept", some ref)
apply_reconcile request (resolved_retryable reason) =
    pure (some failed_retryable, "reconcile_retryable", none)
apply_reconcile request (resolved_reject reason) = pure (some rejected, "reconcile_reject", none)
apply_reconcile request (resolved_not_found reason) =
    pure (some failed_retryable, "reconcile_not_found", none)
apply_reconcile request (resolved_unknown reason) = pure (none, reason, none)

-- The reference that a sent receipt is recorded under.
abbrev pub sent_ref : DeliveryReceipt → Option String
sent_ref receipt = elim receipt.delivered_at [
  | none ↦ none
  | some _ ↦ some ("sent:" <> receipt.receipt_id)
]

abbrev pub receipt_row : DeliveryRequest → DeliveryReceipt → ℕ → DurableReceiptRow
receipt_row request receipt n = record {
  receipt = receipt;
  request_id = request.request_id;
  provider_receipt_ref = sent_ref receipt;
  provider_message_ref = none;
  attempt = n;
}

unfoldable pub apply_status :
    DeliveryStatus → DeliveryRequest → DeliveryReceipt → ℕ → Action (Verdict DeliveryLifecycleState)
apply_status DeliveryStatus.sent request receipt n = do
  attempt (record_receipt (receipt_row request receipt n))
  pure (accepted, "carrier_sent", sent_ref receipt)
apply_status DeliveryStatus.unsent request receipt n = pure (rejected, "carrier_unsent", none)
apply_status DeliveryStatus.unknown request receipt n = pure (unknown, "carrier_unknown", none)

abbrev pub apply_receipt :
    DeliveryRequest → DeliveryReceipt → ℕ → Action (Verdict DeliveryLifecycleState)
apply_receipt request receipt n = apply_status receipt.delivery_status request receipt n

-- The first 64 characters of what the carrier raised.
abbrev pub prefix : ℕ → String → String
prefix zero s = ""
prefix (suc n) String.[] = ""
prefix (suc n) (String.◌∷◌ c s) = String.◌∷◌ c (prefix n s)

pub record DaemonPass : Type 0 where
  pub deliver : DeliveryRequest → DeliveryReceipt ⊎ String
  pub reconcile : DeliveryRequest → ReconciliationResult
  pub retry_budget : ℕ
  pub now : String → ℕ → ℕ

abbrev pub outcome :
    DurableRequestRow
    → RetryDecisionKind
    → DeliveryLifecycleState
    → ℕ
    → String
    → Option String
    → DaemonOutcome
outcome row kind final_state n reason ref = record {
  request_id = row.request.request_id;
  decision_kind = kind;
  final_state = final_state;
  attempt = n;
  reason_code = reason;
  provider_receipt_ref = ref;
}

-- What follows the reconciler's answer: its state is written, unless it could not tell.
abbrev pub settle :
    DurableRequestRow → Verdict (Option DeliveryLifecycleState) → Action DaemonOutcome
settle row (some state, reason, ref) = do
  call (set_lifecycle_state row.request.request_id state)
  pure (outcome row reconcile_first state row.attempt_count reason ref)
settle row (none, reason, ref) =
    pure (outcome row reconcile_first row.lifecycle_state row.attempt_count reason ref)

unfoldable pub reconcile_row : DaemonPass → DurableRequestRow → Action DaemonOutcome
reconcile_row self row = do
  let id = row.request.request_id
  call (record_reconcile id (self.now id 0))
  verdict ← apply_reconcile row.request (self.reconcile row.request)
  settle row verdict

-- The row of the `n`-th attempt.
abbrev pub attempt_row :
    String
    → ℕ
    → ℕ
    → Option ℕ
    → DeliveryLifecycleState
    → Option String
    → List String
    → DurableAttemptRow
attempt_row id n started_at ended_at state ref codes = record {
  attempt_id = "att-" <> id <> "-" <> decimal n;
  request_id = id;
  attempt = n;
  started_at = started_at;
  ended_at = ended_at;
  outcome = state;
  provider_receipt_ref = ref;
  reason_codes = codes;
}

-- What follows the carrier's answer to the `n`-th attempt, `k` readings of the clock before it.
unfoldable pub conclude :
    (String → ℕ → ℕ) → DurableRequestRow → ℕ → ℕ → DeliveryReceipt ⊎ String → Action DaemonOutcome
conclude now row n k (inr error) = do
  let id = row.request.request_id
  call (set_lifecycle_state id unknown)
  call (
      record_attempt (
        attempt_row id n (now id (k + 1)) (some (now id (k + 2))) unknown none
          ("port_raised" ∷ prefix 64 error ∷ [])))
  pure (outcome row can_retry unknown n "port_raised" row.last_provider_receipt_ref)
conclude now row n k (inl receipt) = do
  let id = row.request.request_id
  (state, reason, ref) ← apply_receipt row.request receipt n
  call (set_lifecycle_state id state)
  call (
      record_attempt
        (attempt_row id n (now id (k + 2)) (some (now id (k + 3))) state ref (reason ∷ [])))
  pure (outcome row can_retry state n reason ref)

-- One attempt, after `k` readings of the clock.
unfoldable pub send : DaemonPass → DurableRequestRow → ℕ → Action DaemonOutcome
send self row k = do
  let id = row.request.request_id
  call (set_lifecycle_state id in_flight)
  n ← call (increment_attempt id (self.now id (k + 1)))
  call (
      record_attempt
        (attempt_row id n (self.now id (k + 2)) none in_flight none ("daemon_retry" ∷ [])))
  conclude self.now row n (k + 3) (self.deliver row.request)

-- CAN_RETRY, by the state of the row. FAILED_RETRYABLE goes through PENDING first.
unfoldable pub retry_row :
    DeliveryLifecycleState → DaemonPass → DurableRequestRow → Action DaemonOutcome
retry_row failed_retryable self row =
    call (set_lifecycle_state row.request.request_id pending) >> send self row 1
retry_row pending self row = send self row 0
retry_row unknown self row = send self row 0
retry_row _ self row = failure assertion_error

-- A row of the carrier's, by the policy's decision on it.
unfoldable pub drive_decided :
    RetryDecisionKind → String → DaemonPass → DurableRequestRow → Action DaemonOutcome
drive_decided do_not_retry reason self row = pure (
    outcome row do_not_retry row.lifecycle_state row.attempt_count reason
      row.last_provider_receipt_ref)
drive_decided reconcile_first reason self row = reconcile_row self row
drive_decided can_retry reason self row = retry_row row.lifecycle_state self row

-- A surface handoff is the body's to send.
unfoldable pub drive_owned :
    Option SurfaceHandoffProvenance → DaemonPass → DurableRequestRow → Action DaemonOutcome
drive_owned (some _) self row = pure (
    outcome row do_not_retry row.lifecycle_state row.attempt_count "surface_body_handoff_owned"
      row.last_provider_receipt_ref)
drive_owned none self row =
    let decision = compute_retry_decision row.lifecycle_state row.attempt_count self.retry_budget in
    drive_decided decision.kind decision.reason_code self row

abbrev pub drive_one : DaemonPass → DurableRequestRow → Action DaemonOutcome
drive_one self row = drive_owned row.request.surface_handoff self row

unfoldable pub drive_all : DaemonPass → List DurableRequestRow → Action (List DaemonOutcome)
drive_all self [] = pure []
drive_all self (row ∷ rows) = do
  first ← drive_one self row
  rest ← drive_all self rows
  pure (first ∷ rest)

unfoldable pub run : DaemonPass → Action (List DaemonOutcome)
run self db = drive_all self (unfinished_requests db) db
