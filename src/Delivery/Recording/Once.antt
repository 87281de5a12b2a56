-- ===== src/Delivery/Recording/Once.antt =====
-- What the store answers about a request once it is recorded.
use mind_runtime.Base.{
  ◌>>=◌, pair_eq, ℕ, String, ◌≡◌, refl, sym, ap, ◌∙◌, ◌≢◌, true, false, none, some, List,
  if◌then◌else◌, ◌==◌, nat_eq, string_eq, option_eq, list_eq, beq_self, beq_ne, value_error, ok,
  raise, lookup, insert, lookup-insert_self,
}
use mind_runtime.Delivery.Lifecycle.{DeliveryLifecycleState}
use mind_runtime.Delivery.Requests.{DeliveryRequest}
use mind_runtime.Delivery.Equality.{delivery_request_eq}
use mind_runtime.Delivery.Rows.{Codec, ReadsBack, RequestColumns, inserted, request_from_row}
use mind_runtime.Delivery.Rows.RoundTrips.{IsMade, request_from_row-inserted, state_of-state_value}
use mind_runtime.Delivery.Store.{DurableRequestRow}
use mind_runtime.Delivery.Recording.{RequestTable, record_request, durable_row, get_durable_request}

-- The state of a request that nothing has been tried for.
abbrev pub untried : DeliveryRequest → DeliveryLifecycleState → DurableRequestRow
untried request lifecycle_state = record {
  request = request;
  lifecycle_state = lifecycle_state;
  attempt_count = 0;
  last_attempt_at = none;
  last_reconcile_at = none;
  last_provider_receipt_ref = none;
}

module _ {T : Type 0} (codec : Codec T) (sha256 : List ℕ → String) where
  known :
      (request current : DeliveryRequest) (s : DeliveryLifecycleState) (row : RequestColumns T)
      (table : RequestTable T)
      → lookup request.request_id table ≡ some row
      → request_from_row codec sha256 row ≡ ok current
      → record_request codec sha256 request s table
        ≡ (if current == request then ok (false, table) else raise value_error)
  unfolding record_request
  known request current s row table found read = rw (found, record_request, read, ◌>>=◌) refl

  durable_row-inserted :
      (back : ReadsBack codec) (r : DeliveryRequest) (s : DeliveryLifecycleState)
      → IsMade sha256 r
      → durable_row codec sha256 (inserted codec r s) ≡ ok (untried r s)
  unfolding durable_row inserted
  durable_row-inserted back r s made =
      rw (request_from_row-inserted codec back sha256 r s made, ◌>>=◌, state_of-state_value s) refl

  -- Let what is written as JSON and as time be read back, and a request be one that its constructors
  -- have accepted, under an id that the table does not have. Recording it returns that it is new and
  -- a table from which it is read back whole, in the given state and without attempts. There,
  -- recording it again, in whatever state, returns that it is not new and changes nothing, and
  -- recording another request under the same id raises ValueError.
  pub record_request_once :
      (r other : DeliveryRequest) (s again : DeliveryLifecycleState) (table : RequestTable T)
      → ReadsBack codec
      → IsMade sha256 r
      → lookup r.request_id table ≡ none
      → other.request_id ≡ r.request_id
      → other ≢ r
      → (after : RequestTable T) × (record_request codec sha256 r s table ≡ ok (true, after))
        × (get_durable_request codec sha256 r.request_id after ≡ ok (some (untried r s)))
        × (record_request codec sha256 r again after ≡ ok (false, after))
        × (record_request codec sha256 other again after ≡ raise value_error)
  unfolding record_request get_durable_request
  record_request_once r other s again table back made fresh same differs =
      let row = inserted codec r s in
      let after = insert r.request_id row table in
      let held : lookup r.request_id after ≡ some row = lookup-insert_self r.request_id row table in
      let read = request_from_row-inserted codec back sha256 r s made in
      (
        after,
        rw (fresh, record_request) refl,
        rw (held, get_durable_request, durable_row-inserted back r s made, ◌>>=◌) refl,
        known r r again row after held read ∙ rw (beq_self r) refl,
        known other r again row after (ap (λ k. lookup k after) same ∙ held) read
            ∙ rw (beq_ne r other (λ e. differs (sym e))) refl,
      )
