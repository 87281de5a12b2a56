-- ===== src/Delivery/Daemon/Attempts.antt =====
-- That an attempt to send a request returns, with its result written.
use mind_runtime.Base.{
  ℕ, ◌+◌, ◌<◌, String, ◌≡◌, refl, sym, ap, ◌∙◌, ◌≢◌, ◌⊎◌, inl, inr, Option, none, List, [], ◌∷◌,
  arith, nat_eq, string_eq, option_eq, list_eq, ok,
}
use mind_runtime.Delivery.Lifecycle.{
  DeliveryLifecycleState, in_flight, unknown, validate_transition,
}
use mind_runtime.Delivery.Requests.{DeliveryReceipt, DeliveryStatus}
use mind_runtime.Delivery.Retry.{can_retry}
use mind_runtime.Delivery.Store.{
  Db, DurableRequestRow, set_lifecycle_state, increment_attempt, record_receipt, record_attempt,
  check_codes,
}
use mind_runtime.Delivery.Store.Returns.{
  Returns, At, Returns-pure, Returns-bind, set_lifecycle_state-Returns, increment_attempt-Returns,
  attempt-Returns, record_attempt-Returns,
}
use mind_runtime.Delivery.Actions.{pure, call, attempt}
use mind_runtime.Delivery.Daemon.{
  DaemonPass, DaemonOutcome, apply_status, apply_receipt, conclude, send, receipt_row, attempt_row,
  outcome,
}
use mind_runtime.Delivery.Daemon.Reports.{
  Told, Reported, att_ne, in_flight-unknown, codes-port_raised,
}

module _ (base : Db) (self : DaemonPass) (row : DurableRequestRow) where
  abbrev Here : DurableRequestRow → Db → Type 0
  Here r db = At base row.request.request_id r db

  -- The row with another state, or another verdict of the reconciler, has the rest.
  abbrev Final : DaemonOutcome → Db → Type 0
  Final report db = Reported self.retry_budget row base report db

  -- The row while the `n`-th attempt is under way.
  record Sent (n : ℕ) (r : DurableRequestRow) : Type 0 where
    same_request : r.request ≡ row.request
    in_flight_now : r.lifecycle_state ≡ in_flight
    counted : r.attempt_count ≡ n
    next : n ≡ row.attempt_count + 1
    under : row.attempt_count < self.retry_budget

  -- The two things that recording an attempt asks of the request.
  pub record Sendable : Type 0 where
    pub identified : row.request.request_id ≢ ""
    pub carried : row.request.surface_handoff ≡ none

  attempted :
      (n : ℕ) (r : DurableRequestRow) (db : Db) (started_at : ℕ) (ended_at : Option ℕ)
      (state : DeliveryLifecycleState) (ref : Option String) (reasons : List String)
      → Sendable
      → r.request ≡ row.request
      → n ≡ row.attempt_count + 1
      → check_codes reasons ≡ ok tt
      → Here r db
      → Returns
          (λ b db_after. Here r db_after)
          (call
            (record_attempt
              (attempt_row row.request.request_id n started_at ended_at state ref reasons))
            db)
  attempted n r db started_at ended_at state ref reasons sendable same next codes at =
      record_attempt-Returns base row.request.request_id r db at _ refl (att_ne _)
        sendable.identified (ground (arith, next)) codes
        (ap (λ q. q.surface_handoff) same ∙ sendable.carried)

  apply_status-Returns :
      (status : DeliveryStatus) (receipt : DeliveryReceipt) (n : ℕ) (r : DurableRequestRow)
      (db : Db)
      → Here r db
      → Returns
          (λ v db_after.
            (validate_transition in_flight v.0 ≡ ok tt)
            × (check_codes (v.1 ∷ []) ≡ ok tt)
            × Here r db_after)
          (apply_status status row.request receipt n db)
  unfolding apply_status validate_transition
  apply_status-Returns DeliveryStatus.sent receipt n r db at =
      Returns-bind (attempt (record_receipt (receipt_row row.request receipt n))) _ db
        (attempt-Returns base row.request.request_id r db at _)
        (λ u db_after at_after. Returns-pure _ db_after (refl, refl, at_after))
  apply_status-Returns DeliveryStatus.unsent receipt n r db at = Returns-pure _ db (refl, refl, at)
  apply_status-Returns DeliveryStatus.unknown receipt n r db at = Returns-pure _ db (refl, refl, at)

  concluded :
      (n : ℕ) (r : DurableRequestRow) (db : Db) (s : DeliveryLifecycleState) (reason : String)
      (ref : Option String)
      → Sent n r
      → Here (record r { lifecycle_state = s }) db
      → Returns Final (pure (outcome row can_retry s n reason ref) db)
  concluded n r db s reason ref sent at = Returns-pure _ db (record {
    row_after = record r { lifecycle_state = s };
    at = at;
    same_id = refl;
    same_request = sent.same_request;
    same_state = refl;
    same_attempt = sent.counted;
    within = inr (sent.next, sent.under);
  })

  conclude-Returns :
      (n k : ℕ) (answer : DeliveryReceipt ⊎ String) (r : DurableRequestRow) (db : Db)
      → Sendable
      → Told answer
      → Sent n r
      → Here r db
      → Returns Final (conclude self.now row n k answer db)
  unfolding conclude
  conclude-Returns n k (inr error) r db sendable told sent at =
      Returns-bind (call (set_lifecycle_state row.request.request_id unknown)) _ db
        (set_lifecycle_state-Returns base row.request.request_id r db at unknown
          (rw (sent.in_flight_now) in_flight-unknown))
        (λ u db_set at_set.
          Returns-bind (call (record_attempt _)) _ db_set
            (attempted n (record r { lifecycle_state = unknown }) db_set _ _ unknown none _ sendable
              sent.same_request sent.next (codes-port_raised error told) at_set)
            (λ b db_after at_after.
              concluded n r db_after unknown "port_raised" row.last_provider_receipt_ref sent
                at_after))
  conclude-Returns n k (inl receipt) r db sendable told sent at =
      Returns-bind (apply_receipt row.request receipt n) _ db
        (apply_status-Returns receipt.delivery_status receipt n r db at)
        (λ (s, reason, ref) db_applied (legal, codes, at_applied).
          Returns-bind (call (set_lifecycle_state row.request.request_id s)) _ db_applied
            (set_lifecycle_state-Returns base row.request.request_id r db_applied at_applied s
              (rw (sent.in_flight_now) legal))
            (λ u db_set at_set.
              Returns-bind (call (record_attempt _)) _ db_set
                (attempted n (record r { lifecycle_state = s }) db_set _ _ s ref _ sendable
                  sent.same_request sent.next codes at_set)
                (λ b db_after at_after. concluded n r db_after s reason ref sent at_after)))

  pub send-Returns :
      (k : ℕ) (r : DurableRequestRow) (db : Db)
      → Sendable
      → Told (self.deliver row.request)
      → r.request ≡ row.request
      → r.attempt_count ≡ row.attempt_count
      → row.attempt_count < self.retry_budget
      → validate_transition r.lifecycle_state in_flight ≡ ok tt
      → Here r db
      → Returns Final (send self row k db)
  unfolding send
  send-Returns k r db sendable told same counted under legal at =
      Returns-bind (call (set_lifecycle_state row.request.request_id in_flight)) _ db
        (set_lifecycle_state-Returns base row.request.request_id r db at in_flight legal)
        (λ u db_set at_set.
          Returns-bind (call (increment_attempt row.request.request_id _)) _ db_set
            (increment_attempt-Returns base row.request.request_id _ db_set at_set _)
            (λ n db_counted (next, at_counted).
              Returns-bind (call (record_attempt _)) _ db_counted
                (attempted n _ db_counted _ none in_flight none _ sendable same
                  (next ∙ ap (λ m. m + 1) counted) refl at_counted)
                (λ b db_sent at_sent.
                  conclude-Returns n _ (self.deliver row.request) _ db_sent sendable told
                    (record {
                      same_request = same;
                      in_flight_now = refl;
                      counted = sym next;
                      next = next ∙ ap (λ m. m + 1) counted;
                      under = under;
                    })
                    at_sent)))
