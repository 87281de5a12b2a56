-- ===== src/Delivery/Daemon/Safety.antt =====
-- What a pass of the daemon may change in the store, whether it returns or raises.
use mind_runtime.Base.{
  ℕ, String, ◌≡◌, refl, ◌⊎◌, inl, inr, true, Option, none, some, List, [], ◌∷◌, arith, nat_eq,
  string_eq, option_eq, list_eq, Result, ok, raise, Ensures, lookup,
}
use mind_runtime.Delivery.Lifecycle.{
  DeliveryLifecycleState, pending, in_flight, accepted, rejected, failed_retryable, unknown,
  allowed, is_terminal,
}
use mind_runtime.Delivery.Requests.{
  DeliveryRequest, DeliveryReceipt, DeliveryStatus, SurfaceHandoffProvenance,
}
use mind_runtime.Delivery.Retry.{RetryDecisionKind, can_retry, do_not_retry, reconcile_first}
use mind_runtime.Delivery.Store.{
  Db, DurableRequestRow, set_lifecycle_state, increment_attempt, record_reconcile,
  record_provider_receipt_ref, record_receipt, record_attempt, unfinished_requests,
}
use mind_runtime.Delivery.Store.Advances.{
  Advances, Advances-refl, Advances-trans, Evolves, stay, move,
}
use mind_runtime.Delivery.Store.Keeps.{
  Moves, set_lifecycle_state-Advances, increment_attempt-Advances, record_reconcile-Advances,
  record_provider_receipt_ref-Advances, record_receipt-Advances, record_attempt-Advances,
}
use mind_runtime.Delivery.Actions.{Action, ◌>>=◌, call, attempt, after, outcome_of, swallow}
use mind_runtime.Delivery.Daemon.{
  DaemonPass, ReconciliationResult, resolved_accept, resolved_retryable, resolved_reject,
  resolved_not_found, resolved_unknown, Verdict, apply_reconcile, apply_status, apply_receipt,
  settle, reconcile_row, conclude, send, retry_row, drive_decided, drive_owned, drive_one,
  drive_all, run,
}

-- The action advances every store, even where it raises.
abbrev Keeps {ℓ} : {A : Type ℓ} → Action A → Type 0
Keeps m = (db : Db) → Advances db (m db).1

Advances-after {ℓ κ} :
    {A : Type ℓ} {B : Type κ} (f : A → Action B)
    → ((a : A) → Keeps (f a))
    → (db : Db) (p : Result A × Db) → Advances db p.1
    → Advances db (after f p).1
Advances-after f kf db (ok a, db_after) h = Advances-trans h (kf a db_after)
Advances-after f kf db (raise e, db_after) h = h

Keeps-bind {ℓ κ} :
    {A : Type ℓ} {B : Type κ} (m : Action A) (f : A → Action B)
    → Keeps m
    → ((a : A) → Keeps (f a))
    → Keeps (m >>= f)
Keeps-bind m f km kf db = Advances-after f kf db (m db) (km db)

Advances-outcome {ℓ} :
    {A : Type ℓ} (db : Db) (r : Result (A × Db))
    → Ensures (Moves db) r
    → Advances db (outcome_of db r).1
Advances-outcome db (ok (a, db_after)) k = k.at (a, db_after) refl
Advances-outcome db (raise e) k = Advances-refl db

Keeps-call {ℓ} :
    {A : Type ℓ} (method : Db → Result (A × Db))
    → ((db : Db) → Ensures (Moves db) (method db))
    → Keeps (call method)
Keeps-call method h db = Advances-outcome db (method db) (h db)

Advances-swallow {ℓ} :
    {A : Type ℓ} (db : Db) (r : Result (A × Db))
    → Ensures (Moves db) r
    → Advances db (swallow db r).1
Advances-swallow db (ok (a, db_after)) k = k.at (a, db_after) refl
Advances-swallow db (raise e) k = Advances-refl db

Keeps-attempt {ℓ} :
    {A : Type ℓ} (method : Db → Result (A × Db))
    → ((db : Db) → Ensures (Moves db) (method db))
    → Keeps (attempt method)
Keeps-attempt method h db = Advances-swallow db (method db) (h db)

apply_reconcile-Keeps :
    (request : DeliveryRequest) (result : ReconciliationResult)
    → Keeps (apply_reconcile request result)
unfolding apply_reconcile
apply_reconcile-Keeps request (resolved_accept ref message_ref) =
    Keeps-bind (call (record_provider_receipt_ref request.request_id ref)) _
      (Keeps-call _ (record_provider_receipt_ref-Advances request.request_id ref))
      (λ u. Advances-refl)
apply_reconcile-Keeps request (resolved_retryable reason) = Advances-refl
apply_reconcile-Keeps request (resolved_reject reason) = Advances-refl
apply_reconcile-Keeps request (resolved_not_found reason) = Advances-refl
apply_reconcile-Keeps request (resolved_unknown reason) = Advances-refl

apply_status-Keeps :
    (status : DeliveryStatus) (request : DeliveryRequest) (receipt : DeliveryReceipt) (n : ℕ)
    → Keeps (apply_status status request receipt n)
unfolding apply_status
apply_status-Keeps DeliveryStatus.sent request receipt n =
    Keeps-bind (attempt (record_receipt _)) _
      (Keeps-attempt (record_receipt _) (record_receipt-Advances _)) (λ u. Advances-refl)
apply_status-Keeps DeliveryStatus.unsent request receipt n = Advances-refl
apply_status-Keeps DeliveryStatus.unknown request receipt n = Advances-refl

set-Keeps : (id : String) (s : DeliveryLifecycleState) → Keeps (call (set_lifecycle_state id s))
set-Keeps id s = Keeps-call (set_lifecycle_state id s) (set_lifecycle_state-Advances id s)

settle-Keeps :
    (row : DurableRequestRow) (v : Verdict (Option DeliveryLifecycleState)) → Keeps (settle row v)
settle-Keeps row (some state, reason, ref) =
    Keeps-bind (call (set_lifecycle_state row.request.request_id state)) _
      (set-Keeps row.request.request_id state) (λ u. Advances-refl)
settle-Keeps row (none, reason, ref) = Advances-refl

module _ (self : DaemonPass) where
  reconcile_row-Keeps : (row : DurableRequestRow) → Keeps (reconcile_row self row)
  unfolding reconcile_row
  reconcile_row-Keeps row =
      Keeps-bind (call (record_reconcile row.request.request_id _)) _
        (Keeps-call _ (record_reconcile-Advances row.request.request_id _))
        (λ u.
          Keeps-bind (apply_reconcile row.request (self.reconcile row.request)) _
            (apply_reconcile-Keeps row.request (self.reconcile row.request)) (settle-Keeps row))

  conclude-Keeps :
      (row : DurableRequestRow) (n k : ℕ) (answer : DeliveryReceipt ⊎ String)
      → Keeps (conclude self.now row n k answer)
  unfolding conclude
  conclude-Keeps row n k (inr error) =
      Keeps-bind (call (set_lifecycle_state row.request.request_id unknown)) _
        (set-Keeps row.request.request_id unknown)
        (λ u.
          Keeps-bind (call (record_attempt _)) _ (Keeps-call _ (record_attempt-Advances _))
            (λ v. Advances-refl))
  conclude-Keeps row n k (inl receipt) =
      Keeps-bind (apply_receipt row.request receipt n) _
        (apply_status-Keeps receipt.delivery_status row.request receipt n)
        (λ (state, reason, ref).
          Keeps-bind (call (set_lifecycle_state row.request.request_id state)) _
            (set-Keeps row.request.request_id state)
            (λ u.
              Keeps-bind (call (record_attempt _)) _ (Keeps-call _ (record_attempt-Advances _))
                (λ v. Advances-refl)))

  send-Keeps : (row : DurableRequestRow) (k : ℕ) → Keeps (send self row k)
  unfolding send
  send-Keeps row k =
      Keeps-bind (call (set_lifecycle_state row.request.request_id in_flight)) _
        (set-Keeps row.request.request_id in_flight)
        (λ u.
          Keeps-bind (call (increment_attempt row.request.request_id _)) _
            (Keeps-call _ (increment_attempt-Advances row.request.request_id _))
            (λ n.
              Keeps-bind (call (record_attempt _)) _ (Keeps-call _ (record_attempt-Advances _))
                (λ v. conclude-Keeps row n _ (self.deliver row.request))))

  retry_row-Keeps :
      (state : DeliveryLifecycleState) (row : DurableRequestRow) → Keeps (retry_row state self row)
  unfolding retry_row
  retry_row-Keeps failed_retryable row =
      Keeps-bind (call (set_lifecycle_state row.request.request_id pending)) _
        (set-Keeps row.request.request_id pending) (λ u. send-Keeps row 1)
  retry_row-Keeps pending row = send-Keeps row 0
  retry_row-Keeps unknown row = send-Keeps row 0
  retry_row-Keeps in_flight row = Advances-refl
  retry_row-Keeps accepted row = Advances-refl
  retry_row-Keeps rejected row = Advances-refl

  drive_decided-Keeps :
      (kind : RetryDecisionKind) (reason : String) (row : DurableRequestRow)
      → Keeps (drive_decided kind reason self row)
  unfolding drive_decided
  drive_decided-Keeps do_not_retry reason row = Advances-refl
  drive_decided-Keeps reconcile_first reason row = reconcile_row-Keeps row
  drive_decided-Keeps can_retry reason row = retry_row-Keeps row.lifecycle_state row

  drive_owned-Keeps :
      (handoff : Option SurfaceHandoffProvenance) (row : DurableRequestRow)
      → Keeps (drive_owned handoff self row)
  unfolding drive_owned
  drive_owned-Keeps (some h) row = Advances-refl
  drive_owned-Keeps none row = drive_decided-Keeps _ _ row

  drive_all-Keeps : (rows : List DurableRequestRow) → Keeps (drive_all self rows)
  unfolding drive_all
  drive_all-Keeps [] = Advances-refl
  drive_all-Keeps (row ∷ rows) =
      Keeps-bind (drive_one self row) _ (drive_owned-Keeps row.request.surface_handoff row)
        (λ first. Keeps-bind (drive_all self rows) _ (drive_all-Keeps rows) (λ rest. Advances-refl))

  -- Whether a pass returns or raises, from any store it leaves a store with the same requests, each
  -- with the content it had, at least as many attempts and a state that a chain of allowed
  -- transitions reaches from its old one, with every receipt and attempt that was there, and with
  -- the same kill switch.
  pub run-Advances : (db : Db) → Advances db (run self db).1
  unfolding run
  run-Advances db = drive_all-Keeps (unfinished_requests db) db

no_move :
    (s t : DeliveryLifecycleState) {P : Type 0} → is_terminal s ≡ true → allowed s t ≡ true → P
no_move s t h k = ground arith

Evolves-terminal : {s t : DeliveryLifecycleState} → is_terminal s ≡ true → Evolves s t → t ≡ s
Evolves-terminal h stay = refl
Evolves-terminal {s = s} h (move {t = m} legal rest) = no_move s m h legal

-- A request that is accepted or rejected is still so after a pass, whether it returns or raises.
pub run-terminal :
    (self : DaemonPass) (db : Db) (id : String) (row : DurableRequestRow)
    → lookup id db.requests ≡ some row
    → is_terminal row.lifecycle_state ≡ true
    → (row_after : DurableRequestRow) × (lookup id (run self db).1.requests ≡ some row_after)
      × (row_after.lifecycle_state ≡ row.lifecycle_state)
run-terminal self db id row found done =
    let (row_after, found_after, step) = (run-Advances self db).rows id row found in
    (row_after, found_after, Evolves-terminal done step.evolves)
