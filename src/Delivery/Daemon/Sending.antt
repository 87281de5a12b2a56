-- ===== src/Delivery/Daemon/Sending.antt =====
-- When the daemon calls the carrier.
use mind_runtime.Base.{
  ℕ, String, ◌≡◌, refl, ap, ◌⊎◌, Bool, true, false, Option, none, some, List, [], ◌∷◌, arith, ltb,
  nat_eq, string_eq, option_eq, list_eq, All,
}
use mind_runtime.Delivery.Lifecycle.{
  DeliveryLifecycleState, pending, in_flight, accepted, rejected, failed_retryable, unknown,
}
use mind_runtime.Delivery.Requests.{DeliveryRequest, DeliveryReceipt, SurfaceHandoffProvenance}
use mind_runtime.Delivery.Retry.{
  RetryDecisionKind, can_retry, do_not_retry, reconcile_first, compute_retry_decision,
}
use mind_runtime.Delivery.Store.{Db, DurableRequestRow, unfinished_requests}
use mind_runtime.Delivery.Daemon.{
  DaemonPass, reconcile_row, send, retry_row, drive_decided, drive_owned, drive_all, run,
}

-- A fresh or failed request of the carrier's with budget left.
abbrev sendable : DeliveryLifecycleState → ℕ → ℕ → Bool
sendable pending n budget = ltb n budget
sendable failed_retryable n budget = ltb n budget
sendable _ n budget = false

abbrev may_send_as : Option SurfaceHandoffProvenance → DeliveryLifecycleState → ℕ → ℕ → Bool
may_send_as none state n budget = sendable state n budget
may_send_as (some _) state n budget = false

abbrev pub may_send : ℕ → DurableRequestRow → Bool
may_send budget row =
    may_send_as row.request.surface_handoff row.lifecycle_state row.attempt_count budget

abbrev pub with_carrier : (DeliveryRequest → DeliveryReceipt ⊎ String) → DaemonPass → DaemonPass
with_carrier deliver self = record self { deliver = deliver }

module _ (self : DaemonPass) (deliver : DeliveryRequest → DeliveryReceipt ⊎ String) where
  -- The other carrier answers as this one does, where the row may be sent.
  abbrev pub Agrees : DurableRequestRow → Type 0
  Agrees row =
      may_send self.retry_budget row ≡ true → deliver row.request ≡ self.deliver row.request

  send-with_carrier :
      (row : DurableRequestRow) (k : ℕ)
      → deliver row.request ≡ self.deliver row.request
      → send (with_carrier deliver self) row k ≡ send self row k
  unfolding send
  send-with_carrier row k h = rw (h) refl

  retry_row-with_carrier :
      (state : DeliveryLifecycleState) (row : DurableRequestRow)
      → deliver row.request ≡ self.deliver row.request
      → retry_row state (with_carrier deliver self) row ≡ retry_row state self row
  unfolding retry_row
  retry_row-with_carrier failed_retryable row h = rw (send-with_carrier row 1 h) refl
  retry_row-with_carrier pending row h = send-with_carrier row 0 h
  retry_row-with_carrier unknown row h = send-with_carrier row 0 h
  retry_row-with_carrier in_flight row h = refl
  retry_row-with_carrier accepted row h = refl
  retry_row-with_carrier rejected row h = refl

  decided-with_carrier :
      (kind : RetryDecisionKind) (reason : String) (row : DurableRequestRow)
      → (kind ≡ can_retry → deliver row.request ≡ self.deliver row.request)
      → drive_decided kind reason (with_carrier deliver self) row
        ≡ drive_decided kind reason self row
  unfolding drive_decided reconcile_row
  decided-with_carrier can_retry reason row h =
      retry_row-with_carrier row.lifecycle_state row (h refl)
  decided-with_carrier do_not_retry reason row h = refl
  decided-with_carrier reconcile_first reason row h = refl

  can_retry-sendable :
      (state : DeliveryLifecycleState) (n : ℕ)
      → (compute_retry_decision state n self.retry_budget).kind ≡ can_retry
      → sendable state n self.retry_budget ≡ true
  unfolding compute_retry_decision
  can_retry-sendable pending n h = ground arith
  can_retry-sendable failed_retryable n h = ground arith
  can_retry-sendable in_flight n h = ground arith
  can_retry-sendable unknown n h = ground arith
  can_retry-sendable accepted n h = ground arith
  can_retry-sendable rejected n h = ground arith

  owned-with_carrier :
      (handoff : Option SurfaceHandoffProvenance) (row : DurableRequestRow)
      → (may_send_as handoff row.lifecycle_state row.attempt_count self.retry_budget ≡ true
          → deliver row.request ≡ self.deliver row.request)
      → drive_owned handoff (with_carrier deliver self) row ≡ drive_owned handoff self row
  unfolding drive_owned
  owned-with_carrier (some h) row agree = refl
  owned-with_carrier none row agree =
      decided-with_carrier _ _ row
        (λ e. agree (can_retry-sendable row.lifecycle_state row.attempt_count e))

  drive_all-with_carrier :
      (rows : List DurableRequestRow)
      → All Agrees rows
      → drive_all (with_carrier deliver self) rows ≡ drive_all self rows
  unfolding drive_all
  drive_all-with_carrier [] h = refl
  drive_all-with_carrier (row ∷ rows) h =
      rw (owned-with_carrier row.request.surface_handoff row h.0, drive_all-with_carrier rows h.1)
        refl

  -- A pass does the same with another carrier that answers alike on the unfinished requests that
  -- are no surface handoff, are PENDING or FAILED_RETRYABLE and have made fewer attempts than the
  -- budget: what the carrier would answer on any other request, one that is IN_FLIGHT or UNKNOWN
  -- included, has no effect, so the pass does not send it.
  pub run-with_carrier :
      (db : Db)
      → All Agrees (unfinished_requests db)
      → run (with_carrier deliver self) db ≡ run self db
  unfolding run
  run-with_carrier db h = ap (λ m. m db) (drive_all-with_carrier (unfinished_requests db) h)
