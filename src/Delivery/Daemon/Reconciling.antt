-- ===== src/Delivery/Daemon/Reconciling.antt =====
-- That asking the reconciler about a request returns, with its answer written.
use mind_runtime.Base.{
  ◌≡◌, refl, inl, true, Option, none, some, nat_eq, string_eq, option_eq, list_eq, ok,
}
use mind_runtime.Delivery.Lifecycle.{DeliveryLifecycleState, validate_transition}
use mind_runtime.Delivery.Store.{
  Db, DurableRequestRow, set_lifecycle_state, record_reconcile, record_provider_receipt_ref,
}
use mind_runtime.Delivery.Store.Returns.{
  Returns, At, Returns-pure, Returns-bind, set_lifecycle_state-Returns, record_reconcile-Returns,
  record_provider_receipt_ref-Returns,
}
use mind_runtime.Delivery.Actions.{call}
use mind_runtime.Delivery.Daemon.{
  DaemonPass, DaemonOutcome, ReconciliationResult, resolved_accept, resolved_retryable,
  resolved_reject, resolved_not_found, resolved_unknown, Verdict, apply_reconcile, settle,
  reconcile_row,
}
use mind_runtime.Delivery.Daemon.Reports.{Named, Reported, waits, answer_legal}

module _ (base : Db) (self : DaemonPass) (row : DurableRequestRow) where
  abbrev Here : DurableRequestRow → Db → Type 0
  Here r db = At base row.request.request_id r db

  -- The row with another state, or another verdict of the reconciler, has the rest.
  abbrev Final : DaemonOutcome → Db → Type 0
  Final report db = Reported self.retry_budget row base report db

  -- A row that the reconciler speaks on: as the pass found it, but for what is not decided by it.
  pub record Asked (r : DurableRequestRow) : Type 0 where
    pub same_request : r.request ≡ row.request
    pub same_state : r.lifecycle_state ≡ row.lifecycle_state
    pub same_attempt : r.attempt_count ≡ row.attempt_count

  abbrev Legal : Option DeliveryLifecycleState → Type 0
  Legal none = Unit
  Legal (some s) = validate_transition row.lifecycle_state s ≡ ok tt

  settle-Returns :
      (v : Verdict (Option DeliveryLifecycleState)) (r : DurableRequestRow) (db : Db)
      → Asked r
      → Legal v.0
      → Here r db
      → Returns Final (settle row v db)
  settle-Returns (none, reason, ref) r db asked legal at = Returns-pure _ db (record {
    row_after = r;
    at = at;
    same_id = refl;
    same_request = asked.same_request;
    same_state = asked.same_state;
    same_attempt = asked.same_attempt;
    within = inl refl;
  })
  settle-Returns (some s, reason, ref) r db asked legal at =
      Returns-bind (call (set_lifecycle_state row.request.request_id s)) _ db
        (set_lifecycle_state-Returns base row.request.request_id r db at s
          (rw (asked.same_state) legal))
        (λ u db_after at_after. Returns-pure _ db_after (record {
          row_after = record r { lifecycle_state = s };
          at = at_after;
          same_id = refl;
          same_request = asked.same_request;
          same_state = refl;
          same_attempt = asked.same_attempt;
          within = inl refl;
        }))

  abbrev Answered : Verdict (Option DeliveryLifecycleState) → Db → Type 0
  Answered v db = (r : DurableRequestRow) × Asked r × Legal v.0 × Here r db

  apply_reconcile-Returns :
      (result : ReconciliationResult) (r : DurableRequestRow) (db : Db)
      → Named result
      → waits row.lifecycle_state ≡ true
      → Asked r
      → Here r db
      → Returns Answered (apply_reconcile row.request result db)
  unfolding apply_reconcile
  apply_reconcile-Returns (resolved_accept ref message_ref) r db named waiting asked at =
      Returns-bind (call (record_provider_receipt_ref row.request.request_id ref)) _ db
        (record_provider_receipt_ref-Returns base row.request.request_id r db at ref named)
        (λ u db_after at_after. Returns-pure _ db_after (
          record r { last_provider_receipt_ref = some ref },
          record {
            same_request = asked.same_request;
            same_state = asked.same_state;
            same_attempt = asked.same_attempt;
          },
          (answer_legal row.lifecycle_state waiting).0,
          at_after,
        ))
  apply_reconcile-Returns (resolved_retryable reason) r db named waiting asked at =
      Returns-pure _ db (r, asked, (answer_legal row.lifecycle_state waiting).2, at)
  apply_reconcile-Returns (resolved_reject reason) r db named waiting asked at =
      Returns-pure _ db (r, asked, (answer_legal row.lifecycle_state waiting).1, at)
  apply_reconcile-Returns (resolved_not_found reason) r db named waiting asked at =
      Returns-pure _ db (r, asked, (answer_legal row.lifecycle_state waiting).2, at)
  apply_reconcile-Returns (resolved_unknown reason) r db named waiting asked at =
      Returns-pure _ db (r, asked, tt, at)

  pub reconcile_row-Returns :
      (db : Db)
      → Named (self.reconcile row.request)
      → waits row.lifecycle_state ≡ true
      → Here row db
      → Returns Final (reconcile_row self row db)
  unfolding reconcile_row
  reconcile_row-Returns db named waiting at =
      Returns-bind (call (record_reconcile row.request.request_id _)) _ db
        (record_reconcile-Returns base row.request.request_id row db at _)
        (λ u db_asked at_asked.
          Returns-bind (apply_reconcile row.request (self.reconcile row.request)) _ db_asked
            (apply_reconcile-Returns (self.reconcile row.request) _ db_asked named waiting
              (record { same_request = refl; same_state = refl; same_attempt = refl }) at_asked)
            (λ v db_after (r, asked, legal, at_after).
              settle-Returns v r db_after asked legal at_after))
