-- ===== src/Delivery/Store/Returns.antt =====
-- That the store's methods return, and what they leave in the row of the request they are about.
use mind_runtime.Base.{
  ℕ, ◌+◌, String, ◌≡◌, refl, sym, ap, ◌∙◌, ◌≢◌, inl, inr, true, false, none, some, ltb,
  Option-cases, ◌==◌, nat_eq, string_eq, option_eq, list_eq, beq_ne, value_error, Result, ok, raise,
  raise_if, Result-cases, Ensures, Ensures-ok, Ensures-raise, Ensures-if, Ensures-bind, lookup,
  insert, lookup-insert_self, lookup-insert_ne,
}
use mind_runtime.Delivery.Lifecycle.{DeliveryLifecycleState, validate_transition}
use mind_runtime.Delivery.Store.{
  Db, DurableRequestRow, DurableReceiptRow, DurableAttemptRow, stored, update, set_lifecycle_state,
  increment_attempt, record_reconcile, record_provider_receipt_ref, record_receipt, record_attempt,
  check_codes, same_receipt_row,
}
use mind_runtime.Delivery.Actions.{Action, call, pure, attempt, outcome_of, swallow}
use mind_runtime.Delivery.Actions.{◌>>=◌ as ◌>>>◌}

-- The run of an action returns, and its value and the store after it satisfy `Q`.
pub record Returns {ℓ κ} {A : Type ℓ} (Q : A → Db → Type κ) (p : Result A × Db) : Type (ℓ ⊔ κ) where
  pub value : A
  pub store : Db
  pub result : p ≡ (ok value, store)
  pub holds : Q value store

-- In `db` the request `id` has `row`, and all other requests are as in `base`.
pub record At (base : Db) (id : String) (row : DurableRequestRow) (db : Db) : Type 0 where
  pub found : lookup id db.requests ≡ some row
  pub others : (j : String) → id ≢ j → lookup j db.requests ≡ lookup j base.requests

pub Returns-pure {ℓ κ} :
    {A : Type ℓ} {Q : A → Db → Type κ} (a : A) (db : Db) → Q a db → Returns Q (pure a db)
Returns-pure a db q = record { value = a; store = db; result = refl; holds = q }

pub Returns-bind {ℓ κ ν μ} :
    {A : Type ℓ} {B : Type κ} {P : A → Db → Type ν} {Q : B → Db → Type μ} (m : Action A)
    (f : A → Action B) (db : Db)
    → Returns P (m db)
    → ((a : A) (db_after : Db) → P a db_after → Returns Q (f a db_after))
    → Returns Q ((m >>> f) db)
Returns-bind m f db r h = rw (r.result) (h r.value r.store r.holds)

Returns-call {ℓ κ} :
    {A : Type ℓ} {Q : A → Db → Type κ} (method : Db → Result (A × Db)) (db : Db) (a : A)
    (db_after : Db)
    → method db ≡ ok (a, db_after)
    → Q a db_after
    → Returns Q (call method db)
Returns-call method db a db_after e q = record {
  value = a;
  store = db_after;
  result = ap (outcome_of db) e;
  holds = q;
}

record_receipt-requests :
    (row : DurableReceiptRow) (db : Db)
    → Ensures (λ p. p.1.requests ≡ db.requests) (record_receipt row db)
unfolding record_receipt
record_receipt-requests row db =
    Ensures-bind (raise_if (row.request_id == "") value_error) _ (λ u h.
      Ensures-bind (raise_if (ltb row.attempt 1) value_error) _ (λ v k.
        elim (Option-cases (lookup row.receipt.receipt_id db.receipts)) [
          | inl fresh ↦ rw (fresh) (Ensures-ok _ refl)
          | inr (existing, found) ↦ rw (found) (
              Ensures-if (same_receipt_row existing row) (ok (false, db)) (raise value_error)
                (λ e. Ensures-ok (false, db) refl) (λ e. Ensures-raise value_error))
        ]))

module _ (base : Db) (id : String) (row : DurableRequestRow) (db : Db)
    (at : At base id row db) where
  stored-At : stored id db ≡ ok row
  unfolding stored
  stored-At = rw (at.found, stored) refl

  At-update : (new : DurableRequestRow) → At base id new (update id new db)
  At-update new = record {
    found = lookup-insert_self id new db.requests;
    others = λ j other. lookup-insert_ne id j new db.requests other ∙ at.others j other;
  }

  pub set_lifecycle_state-Returns :
      (s : DeliveryLifecycleState)
      → validate_transition row.lifecycle_state s ≡ ok tt
      → Returns
          (λ u db_after. At base id (record row { lifecycle_state = s }) db_after)
          (call (set_lifecycle_state id s) db)
  unfolding set_lifecycle_state
  set_lifecycle_state-Returns s legal =
      Returns-call (set_lifecycle_state id s) db tt
        (update id (record row { lifecycle_state = s }) db) (rw (stored-At, legal) refl)
        (At-update _)

  pub increment_attempt-Returns :
      (now : ℕ)
      → Returns
          (λ n db_after.
            (n ≡ row.attempt_count + 1)
            × At base id
                (record row { attempt_count = row.attempt_count + 1; last_attempt_at = some now })
                db_after)
          (call (increment_attempt id now) db)
  unfolding increment_attempt
  increment_attempt-Returns now =
      Returns-call (increment_attempt id now) db (row.attempt_count + 1) _ (rw (stored-At) refl)
        (refl, At-update _)

  pub record_reconcile-Returns :
      (now : ℕ)
      → Returns
          (λ u db_after. At base id (record row { last_reconcile_at = some now }) db_after)
          (call (record_reconcile id now) db)
  unfolding record_reconcile
  record_reconcile-Returns now =
      Returns-call (record_reconcile id now) db tt _ (rw (stored-At) refl) (At-update _)

  pub record_provider_receipt_ref-Returns :
      (ref : String)
      → ref ≢ ""
      → Returns
          (λ u db_after. At base id (record row { last_provider_receipt_ref = some ref }) db_after)
          (call (record_provider_receipt_ref id ref) db)
  unfolding record_provider_receipt_ref
  record_provider_receipt_ref-Returns ref h =
      Returns-call (record_provider_receipt_ref id ref) db tt _
        (rw (beq_ne ref "" h, stored-At) refl) (At-update _)

  -- The methods of the other tables leave the row alone.
  At-same : (db_after : Db) → db_after.requests ≡ db.requests → At base id row db_after
  At-same db_after e = record {
    found = ap (lookup id) e ∙ at.found;
    others = λ j other. ap (lookup j) e ∙ at.others j other;
  }

  pub attempt-Returns :
      (receipt : DurableReceiptRow)
      → Returns (λ u db_after. At base id row db_after) (attempt (record_receipt receipt) db)
  attempt-Returns receipt = elim (Result-cases (record_receipt receipt db)) [
    | inl ((b, db_after), e) ↦ record {
      value = tt;
      store = db_after;
      result = ap (swallow db) e;
      holds = At-same db_after ((record_receipt-requests receipt db).at (b, db_after) e);
    }
    | inr (x, e) ↦ record { value = tt; store = db; result = ap (swallow db) e; holds = at }
  ]

  pub record_attempt-Returns :
      (added : DurableAttemptRow)
      → added.request_id ≡ id
      → added.attempt_id ≢ ""
      → id ≢ ""
      → ltb added.attempt 1 ≡ false
      → check_codes added.reason_codes ≡ ok tt
      → row.request.surface_handoff ≡ none
      → Returns (λ u db_after. At base id row db_after) (call (record_attempt added) db)
  unfolding record_attempt
  record_attempt-Returns added same named ne positive codes plain =
      elim (Option-cases (lookup added.attempt_id db.attempts)) [
        | inl fresh ↦
            Returns-call (record_attempt added) db true
              (record db { attempts = insert added.attempt_id added db.attempts })
              (rw
                (
                  beq_ne added.attempt_id "" named,
                  beq_ne added.request_id "" (λ e. ne (sym same ∙ e)),
                  positive,
                  codes,
                  ap (λ i. stored i db) same ∙ stored-At,
                  fresh,
                )
                refl)
              (At-same _ refl)
        | inr (existing, known) ↦
            Returns-call (record_attempt added) db false db
              (rw
                (
                  beq_ne added.attempt_id "" named,
                  beq_ne added.request_id "" (λ e. ne (sym same ∙ e)),
                  positive,
                  codes,
                  ap (λ i. stored i db) same ∙ stored-At,
                  known,
                  plain,
                )
                refl)
              at
      ]
