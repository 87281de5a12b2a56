-- ===== src/Delivery/Daemon/Progress.antt =====
-- That the daemon's treatment of one request returns, and what its outcome says of the store.
use mind_runtime.Base.{
  ◌<◌, String, ◌≡◌, refl, ◌≢◌, inl, true, Option, none, some, nat_eq, string_eq, option_eq, list_eq,
  lookup,
}
use mind_runtime.Delivery.Lifecycle.{
  DeliveryLifecycleState, pending, in_flight, accepted, rejected, failed_retryable, unknown,
  validate_transition,
}
use mind_runtime.Delivery.Requests.{SurfaceHandoffProvenance}
use mind_runtime.Delivery.Retry.{
  RetryDecisionKind, can_retry, do_not_retry, reconcile_first, compute_retry_decision,
}
use mind_runtime.Delivery.Store.{Db, DurableRequestRow, set_lifecycle_state}
use mind_runtime.Delivery.Store.Returns.{
  Returns, At, Returns-pure, Returns-bind, set_lifecycle_state-Returns,
}
use mind_runtime.Delivery.Actions.{pure, call}
use mind_runtime.Delivery.Daemon.{
  DaemonPass, DaemonOutcome, retry_row, drive_decided, drive_owned, drive_one, outcome,
}
use mind_runtime.Delivery.Daemon.Reports.{
  Named, Told, Reported, retries, can_retry-under, reconcile_first-waits,
}
use mind_runtime.Delivery.Daemon.Reconciling.{reconcile_row-Returns}
use mind_runtime.Delivery.Daemon.Attempts.{Sendable, send-Returns}

module _ (base : Db) (self : DaemonPass) (row : DurableRequestRow) where
  abbrev Here : DurableRequestRow → Db → Type 0
  Here r db = At base row.request.request_id r db

  -- The row with another state, or another verdict of the reconciler, has the rest.
  abbrev Final : DaemonOutcome → Db → Type 0
  Final report db = Reported self.retry_budget row base report db

  unchanged :
      (kind : RetryDecisionKind) (reason : String) (db : Db)
      → Here row db
      → Returns Final (
          pure
            (outcome row kind row.lifecycle_state row.attempt_count reason
              row.last_provider_receipt_ref)
            db)
  unchanged kind reason db at = Returns-pure _ db (record {
    row_after = row;
    at = at;
    same_id = refl;
    same_request = refl;
    same_state = refl;
    same_attempt = refl;
    within = inl refl;
  })

  retry_row-Returns :
      (state : DeliveryLifecycleState) (db : Db)
      → row.lifecycle_state ≡ state
      → retries state ≡ true
      → Sendable base self row
      → Told (self.deliver row.request)
      → row.attempt_count < self.retry_budget
      → Here row db
      → Returns Final (retry_row state self row db)
  unfolding retry_row validate_transition
  retry_row-Returns pending db same again sendable told under at =
      send-Returns base self row 0 row db sendable told refl refl under (rw (same) refl) at
  retry_row-Returns failed_retryable db same again sendable told under at =
      Returns-bind (call (set_lifecycle_state row.request.request_id pending)) _ db
        (set_lifecycle_state-Returns base row.request.request_id row db at pending (rw (same) refl))
        (λ u db_set at_set.
          send-Returns base self row 1 _ db_set sendable told refl refl under refl at_set)
  retry_row-Returns in_flight db same again sendable told under at = cc
  retry_row-Returns unknown db same again sendable told under at = cc
  retry_row-Returns accepted db same again sendable told under at = cc
  retry_row-Returns rejected db same again sendable told under at = cc

  decided-Returns :
      (kind : RetryDecisionKind) (reason : String) (db : Db)
      → (compute_retry_decision row.lifecycle_state row.attempt_count self.retry_budget).kind ≡ kind
      → Sendable base self row
      → Named (self.reconcile row.request)
      → Told (self.deliver row.request)
      → Here row db
      → Returns Final (drive_decided kind reason self row db)
  unfolding drive_decided
  decided-Returns do_not_retry reason db e sendable named told at =
      unchanged do_not_retry reason db at
  decided-Returns reconcile_first reason db e sendable named told at =
      reconcile_row-Returns base self row db named
        (reconcile_first-waits row.lifecycle_state row.attempt_count self.retry_budget e) at
  decided-Returns can_retry reason db e sendable named told at =
      let (again, under) =
        can_retry-under row.lifecycle_state row.attempt_count self.retry_budget e in
      retry_row-Returns row.lifecycle_state db refl again sendable told under at

  owned-Returns :
      (handoff : Option SurfaceHandoffProvenance) (db : Db)
      → row.request.surface_handoff ≡ handoff
      → row.request.request_id ≢ ""
      → Named (self.reconcile row.request)
      → Told (self.deliver row.request)
      → Here row db
      → Returns Final (drive_owned handoff self row db)
  unfolding drive_owned
  owned-Returns (some h) db same ne named told at =
      unchanged do_not_retry "surface_body_handoff_owned" db at
  owned-Returns none db same ne named told at =
      decided-Returns _ _ db refl (record { identified = ne; carried = same }) named told at

-- One request is driven to an outcome: if the store has `row` for it, its id is not empty, the
-- reconciler would name the reference of an acceptance and the carrier the text of a failure, then
-- the code returns, its outcome reports the state and the number of attempts that the store holds
-- then, the content and all other requests are as before, and there is at most one attempt more,
-- made only while the number of attempts is below the budget.
pub drive_one-Returns :
    (self : DaemonPass) (row : DurableRequestRow) (db : Db)
    → lookup row.request.request_id db.requests ≡ some row
    → row.request.request_id ≢ ""
    → Named (self.reconcile row.request)
    → Told (self.deliver row.request)
    → Returns (Reported self.retry_budget row db) (drive_one self row db)
drive_one-Returns self row db found ne named told =
    owned-Returns db self row row.request.surface_handoff db refl ne named told
      (record { found = found; others = λ j other. refl })
