-- ===== src/Delivery/Recording.antt =====
-- The recording and the reading of requests (`SqliteDeliveryBackend` of delivery/persistence.py), on a
-- table that is a dictionary from its primary key. `sha256` is the digest of the standard library.
pub mod Once
use mind_runtime.Base.{
  ℕ, Bool, true, false, Option, none, some, List, String, ◌==◌, string_eq, if◌then◌else◌, Result,
  ok, raise, value_error, ◌>>=◌, Dict, lookup, insert,
}
use mind_runtime.Delivery.Lifecycle.{DeliveryLifecycleState}
use mind_runtime.Delivery.Requests.{DeliveryRequest}
use mind_runtime.Delivery.Equality.{delivery_request_eq}
use mind_runtime.Delivery.Rows.{Codec, RequestColumns, state_of, inserted, request_from_row}
use mind_runtime.Delivery.Store.{DurableRequestRow}

-- The table `delivery_requests`.
abbrev pub RequestTable : Type 0 → Type 0
RequestTable T = Dict String (RequestColumns T)

module _ {T : Type 0} (codec : Codec T) (sha256 : List ℕ → String) where
  -- `_parse_dt`
  abbrev pub parse_dt : Option T → Result (Option ℕ)
  parse_dt none = ok none
  parse_dt (some text) = codec.fromisoformat text >>= λ value. ok (some value)

  unfoldable pub record_request :
      DeliveryRequest → DeliveryLifecycleState → RequestTable T → Result (Bool × RequestTable T)
  record_request request lifecycle_state table = elim (lookup request.request_id table) [
    | some existing ↦ request_from_row codec sha256 existing >>= λ current.
        (if current == request then ok (false, table) else raise value_error)
    | none ↦ ok (true, insert request.request_id (inserted codec request lifecycle_state) table)
  ]

  -- `get_durable_request` on a row that is there.
  unfoldable pub durable_row : RequestColumns T → Result DurableRequestRow
  durable_row row = do
    request ← request_from_row codec sha256 row
    lifecycle_state ← state_of row.lifecycle_state
    last_attempt_at ← parse_dt row.last_attempt_at
    last_reconcile_at ← parse_dt row.last_reconcile_at
    ok (record {
      request = request;
      lifecycle_state = lifecycle_state;
      attempt_count = row.attempt_count;
      last_attempt_at = last_attempt_at;
      last_reconcile_at = last_reconcile_at;
      last_provider_receipt_ref = row.last_provider_receipt_ref;
    })

  unfoldable pub get_durable_request : String → RequestTable T → Result (Option DurableRequestRow)
  get_durable_request request_id table = elim (lookup request_id table) [
    | none ↦ ok none
    | some row ↦ durable_row row >>= λ found. ok (some found)
  ]
