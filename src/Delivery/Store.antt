-- ===== src/Delivery/Store.antt =====
-- The durable store (`SqliteDeliveryBackend` of delivery/persistence.py). A table is a dictionary
-- from its primary key, a row holds the objects that its columns spell, and a method that writes
-- once, after all its checks, is a function that returns the store after it or raises. The times
-- that methods take are aware by their type. How a request is recorded is in Recording; opening a
-- file, and the JSON of the other tables, are not modelled.
pub mod Advances
pub mod Keeps
pub mod Returns
use mind_runtime.Base.{
  ℕ, ◌+◌, ltb, nat_eqb, nat_eq, string_eq, option_eq, list_eq, not, Bool, true, false, ◌&&◌, Option,
  none, some, List, [], ◌∷◌, String, ◌==◌, if◌then◌else◌, Result, ok, raise, value_error, raise_if,
  ◌>>=◌, ◌>>◌, Dict, lookup, insert, values, sort_by, text_before,
}
use mind_runtime.Delivery.Lifecycle.{
  DeliveryLifecycleState, delivery_state_eq, validate_transition, is_terminal,
}
use mind_runtime.Delivery.Requests.{DeliveryRequest, DeliveryReceipt, SurfaceHandoffProvenance}
use mind_runtime.Delivery.Equality.{delivery_request_eq, delivery_receipt_eq}
use mind_runtime.Delivery.KillSwitch.{KillSwitchRow}

pub record DurableRequestRow : Type 0 where
  pub request : DeliveryRequest
  pub lifecycle_state : DeliveryLifecycleState
  pub attempt_count : ℕ
  pub last_attempt_at : Option ℕ
  pub last_reconcile_at : Option ℕ
  pub last_provider_receipt_ref : Option String

pub record DurableReceiptRow : Type 0 where
  pub receipt : DeliveryReceipt
  pub request_id : String
  pub provider_receipt_ref : Option String
  pub provider_message_ref : Option String
  pub attempt : ℕ

pub record DurableAttemptRow : Type 0 where
  pub attempt_id : String
  pub request_id : String
  pub attempt : ℕ
  pub started_at : ℕ
  pub ended_at : Option ℕ
  pub outcome : DeliveryLifecycleState
  pub provider_receipt_ref : Option String
  pub reason_codes : List String

-- The tables of the file.
pub record Db : Type 0 where
  pub requests : Dict String DurableRequestRow
  pub receipts : Dict String DurableReceiptRow
  pub attempts : Dict String DurableAttemptRow
  pub switch : KillSwitchRow

-- `SELECT ... WHERE request_id = ?`, and the error that a missing row is.
unfoldable pub stored : String → Db → Result DurableRequestRow
stored request_id db = elim (lookup request_id db.requests) [
  | none ↦ raise value_error
  | some row ↦ ok row
]

-- `UPDATE delivery_requests SET ... WHERE request_id = ?`
abbrev pub update : String → DurableRequestRow → Db → Db
update request_id row db = record db { requests = insert request_id row db.requests }

unfoldable pub set_lifecycle_state : String → DeliveryLifecycleState → Db → Result (Unit {0} × Db)
set_lifecycle_state request_id new_state db = do
  row ← stored request_id db
  validate_transition row.lifecycle_state new_state
  ok (tt, update request_id (record row { lifecycle_state = new_state }) db)

unfoldable pub increment_attempt : String → ℕ → Db → Result (ℕ × Db)
increment_attempt request_id at db = do
  row ← stored request_id db
  let new_count = row.attempt_count + 1
  ok (
    new_count,
    update request_id (record row { attempt_count = new_count; last_attempt_at = some at }) db,
  )

unfoldable pub record_reconcile : String → ℕ → Db → Result (Unit {0} × Db)
record_reconcile request_id at db = do
  row ← stored request_id db
  ok (tt, update request_id (record row { last_reconcile_at = some at }) db)

unfoldable pub record_provider_receipt_ref : String → String → Db → Result (Unit {0} × Db)
record_provider_receipt_ref request_id ref db = do
  raise_if (ref == "") value_error
  row ← stored request_id db
  ok (tt, update request_id (record row { last_provider_receipt_ref = some ref }) db)

abbrev same_receipt_row : DurableReceiptRow → DurableReceiptRow → Bool
same_receipt_row a b =
    (a.receipt == b.receipt)
    && (a.request_id == b.request_id)
    && (a.provider_receipt_ref == b.provider_receipt_ref)
    && (a.provider_message_ref == b.provider_message_ref)
    && (a.attempt == b.attempt)

unfoldable pub record_receipt : DurableReceiptRow → Db → Result (Bool × Db)
record_receipt row db = do
  raise_if (row.request_id == "") value_error
  raise_if (ltb row.attempt 1) value_error
  elim (lookup row.receipt.receipt_id db.receipts) [
    | some existing ↦ if same_receipt_row existing row then ok (false, db) else raise value_error
    | none ↦ ok (true, record db { receipts = insert row.receipt.receipt_id row db.receipts })
  ]

unfoldable pub get_durable_receipt : String → Db → Option DurableReceiptRow
get_durable_receipt receipt_id db = lookup receipt_id db.receipts

abbrev pub check_codes : List String → Result (Unit {0})
check_codes [] = ok tt
check_codes (code ∷ codes) = raise_if (code == "") value_error >> check_codes codes

abbrev same_attempt_row : DurableAttemptRow → DurableAttemptRow → Bool
same_attempt_row a b =
    (a.request_id == b.request_id)
    && (a.attempt == b.attempt)
    && (a.started_at == b.started_at)
    && (a.ended_at == b.ended_at)
    && (a.outcome == b.outcome)
    && (a.provider_receipt_ref == b.provider_receipt_ref)
    && (a.reason_codes == b.reason_codes)

-- An attempt id that is there already: a no-op for a carrier request, evidence that must not drift
-- for a surface handoff.
abbrev record_again :
    Option SurfaceHandoffProvenance
    → DurableAttemptRow
    → DurableAttemptRow
    → Db
    → Result (Bool × Db)
record_again none existing row db = ok (false, db)
record_again (some _) existing row db =
    if same_attempt_row existing row then ok (false, db) else raise value_error

unfoldable pub record_attempt : DurableAttemptRow → Db → Result (Bool × Db)
record_attempt row db = do
  raise_if (row.attempt_id == "") value_error
  raise_if (row.request_id == "") value_error
  raise_if (ltb row.attempt 1) value_error
  check_codes row.reason_codes
  parent ← stored row.request_id db
  elim (lookup row.attempt_id db.attempts) [
    | some existing ↦ record_again parent.request.surface_handoff existing row db
    | none ↦ ok (true, record db { attempts = insert row.attempt_id row db.attempts })
  ]

unfoldable pub get_attempt : String → Db → Option DurableAttemptRow
get_attempt attempt_id db = lookup attempt_id db.attempts

abbrev of_request : String → List DurableAttemptRow → List DurableAttemptRow
of_request request_id [] = []
of_request request_id (row ∷ rows) =
    let rest = of_request request_id rows in
    if row.request_id == request_id then row ∷ rest else rest

abbrev earlier_attempt : DurableAttemptRow → DurableAttemptRow → Bool
earlier_attempt a b =
    if ltb a.attempt b.attempt
    then true
    else nat_eqb a.attempt b.attempt && text_before a.attempt_id b.attempt_id

unfoldable pub attempts_for_request : String → Db → List DurableAttemptRow
attempts_for_request request_id db =
    sort_by earlier_attempt (of_request request_id (values db.attempts))

-- `WHERE lifecycle_state NOT IN (?, ?)`
abbrev pub unfinished : Dict String DurableRequestRow → Dict String DurableRequestRow
unfinished [] = []
unfinished ((id, row) ∷ rows) =
    let rest = unfinished rows in if is_terminal row.lifecycle_state then rest else (id, row) ∷ rest

abbrev pub by_id : String × DurableRequestRow → String × DurableRequestRow → Bool
by_id a b = text_before a.0 b.0

unfoldable pub unfinished_requests : Db → List DurableRequestRow
unfinished_requests db = values (sort_by by_id (unfinished db.requests))
