-- ===== src/Delivery/Store/Keeps.antt =====
-- Each method of the store that the daemon calls advances the store, and so does code made of them.
use mind_runtime.Base.{
  ℕ, String, ◌≡◌, refl, subst, inl, inr, false, Option, none, some, arith, ltb, Bool-cases,
  Option-cases, ◌==◌, nat_eq, string_eq, option_eq, list_eq, value_error, Result, ok, raise,
  raise_if, Ensures, Ensures-ok, Ensures-raise, Ensures-if, Ensures-bind, lookup, insert, ◌>>=◌,
}
use mind_runtime.Delivery.Lifecycle.{
  DeliveryLifecycleState, allowed, same_state, same_state_iff, validate_transition,
}
use mind_runtime.Delivery.Requests.{SurfaceHandoffProvenance}
use mind_runtime.Delivery.Store.{
  Db, DurableRequestRow, DurableReceiptRow, DurableAttemptRow, stored, update, set_lifecycle_state,
  increment_attempt, record_reconcile, record_provider_receipt_ref, record_receipt, record_attempt,
  check_codes, record_again, same_attempt_row, same_receipt_row,
}
use mind_runtime.Delivery.Store.Advances.{
  Advances, Advances-refl, Advances-update, Evolves, stay, move, stored-eq, Grows-insert,
}

-- What a method leaves behind when it returns.
abbrev pub Moves {ℓ} : {A : Type ℓ} → Db → A × Db → Type 0
Moves db (_, db_after) = Advances db db_after

module _ (from_state to_state : DeliveryLifecycleState) where
  pub validate_transition-Evolves :
      {u : Unit {0}} → validate_transition from_state to_state ≡ ok u → Evolves from_state to_state
  unfolding validate_transition
  validate_transition-Evolves h = elim (Bool-cases (same_state from_state to_state)) [
    | inl same ↦ subst (Evolves from_state) ((same_state_iff from_state to_state).0 same) stay
    | inr other ↦ elim (Bool-cases (allowed from_state to_state)) [
      | inl legal ↦ move legal stay
      | inr illegal ↦ cc
    ]
  ]

Ensures-stored :
    (id : String) (db : Db) {A : Type 0} (f : DurableRequestRow → Result (A × Db))
    → ((row : DurableRequestRow) → lookup id db.requests ≡ some row → Ensures (Moves db) (f row))
    → Ensures (Moves db) (stored id db >>= f)
Ensures-stored id db f h = Ensures-bind (stored id db) f (λ row e. h row (stored-eq id db row e))

pub set_lifecycle_state-Advances :
    (id : String) (s : DeliveryLifecycleState) (db : Db)
    → Ensures (Moves db) (set_lifecycle_state id s db)
unfolding set_lifecycle_state
set_lifecycle_state-Advances id s db = Ensures-stored id db _ (λ row found.
    Ensures-bind (validate_transition row.lifecycle_state s) _ (λ u legal.
      Ensures-ok (tt, update id (record row { lifecycle_state = s }) db)
        (Advances-update id row (record row { lifecycle_state = s }) db found
          (record {
            same_request = refl;
            more_attempts = omega arith;
            evolves = validate_transition-Evolves row.lifecycle_state s legal;
          }))))

pub increment_attempt-Advances :
    (id : String) (at : ℕ) (db : Db) → Ensures (Moves db) (increment_attempt id at db)
unfolding increment_attempt
increment_attempt-Advances id at db = Ensures-stored id db _ (λ row found. Ensures-ok _ (
    Advances-update id row _ db found
      (record { same_request = refl; more_attempts = omega arith; evolves = stay })))

pub record_reconcile-Advances :
    (id : String) (at : ℕ) (db : Db) → Ensures (Moves db) (record_reconcile id at db)
unfolding record_reconcile
record_reconcile-Advances id at db = Ensures-stored id db _ (λ row found. Ensures-ok _ (
    Advances-update id row _ db found
      (record { same_request = refl; more_attempts = omega arith; evolves = stay })))

pub record_provider_receipt_ref-Advances :
    (id ref : String) (db : Db) → Ensures (Moves db) (record_provider_receipt_ref id ref db)
unfolding record_provider_receipt_ref
record_provider_receipt_ref-Advances id ref db =
    Ensures-bind (raise_if (ref == "") value_error) _ (λ u h. Ensures-stored id db _ (λ row found.
      Ensures-ok _ (
        Advances-update id row _ db found
          (record { same_request = refl; more_attempts = omega arith; evolves = stay }))))

Advances-receipt :
    (k : String) (row : DurableReceiptRow) (db : Db)
    → lookup k db.receipts ≡ none
    → Advances db (record db { receipts = insert k row db.receipts })
Advances-receipt k row db fresh = record {
  same_ids = refl;
  rows = (Advances-refl db).rows;
  receipts_grow = Grows-insert k row db.receipts fresh;
  attempts_grow = λ j v h. h;
  same_switch = refl;
}

Advances-attempt :
    (k : String) (row : DurableAttemptRow) (db : Db)
    → lookup k db.attempts ≡ none
    → Advances db (record db { attempts = insert k row db.attempts })
Advances-attempt k row db fresh = record {
  same_ids = refl;
  rows = (Advances-refl db).rows;
  receipts_grow = λ j v h. h;
  attempts_grow = Grows-insert k row db.attempts fresh;
  same_switch = refl;
}

pub record_receipt-Advances :
    (row : DurableReceiptRow) (db : Db) → Ensures (Moves db) (record_receipt row db)
unfolding record_receipt
record_receipt-Advances row db =
    Ensures-bind (raise_if (row.request_id == "") value_error) _ (λ u h.
      Ensures-bind (raise_if (ltb row.attempt 1) value_error) _ (λ v k.
        elim (Option-cases (lookup row.receipt.receipt_id db.receipts)) [
          | inl fresh ↦
              rw (fresh) (Ensures-ok _ (Advances-receipt row.receipt.receipt_id row db fresh))
          | inr (existing, found) ↦ rw (found) (
              Ensures-if (same_receipt_row existing row) (ok (false, db)) (raise value_error)
                (λ e. Ensures-ok (false, db) (Advances-refl db)) (λ e. Ensures-raise value_error))
        ]))

record_again-Advances :
    (handoff : Option SurfaceHandoffProvenance) (existing row : DurableAttemptRow) (db : Db)
    → Ensures (Moves db) (record_again handoff existing row db)
record_again-Advances none existing row db = Ensures-ok (false, db) (Advances-refl db)
record_again-Advances (some h) existing row db =
    Ensures-if (same_attempt_row existing row) (ok (false, db)) (raise value_error)
      (λ e. Ensures-ok (false, db) (Advances-refl db)) (λ e. Ensures-raise value_error)

pub record_attempt-Advances :
    (row : DurableAttemptRow) (db : Db) → Ensures (Moves db) (record_attempt row db)
unfolding record_attempt
record_attempt-Advances row db =
    Ensures-bind (raise_if (row.attempt_id == "") value_error) _ (λ u h.
      Ensures-bind (raise_if (row.request_id == "") value_error) _ (λ v k.
        Ensures-bind (raise_if (ltb row.attempt 1) value_error) _ (λ w l.
          Ensures-bind (check_codes row.reason_codes) _ (λ x m.
            Ensures-stored row.request_id db _ (λ parent known.
              elim (Option-cases (lookup row.attempt_id db.attempts)) [
                | inl fresh ↦
                    rw (fresh) (Ensures-ok _ (Advances-attempt row.attempt_id row db fresh))
                | inr (existing, found) ↦
                    rw (found)
                      (record_again-Advances parent.request.surface_handoff existing row db)
              ])))))
