-- ===== src/Delivery/Requests.antt =====
-- Delivery requests and receipts (delivery/__init__.py, contracts/checkpoint.py). A payload is a
-- list of bytes. `sha256` is the digest of the standard library's `hashlib`, as hexadecimal text.
use mind_runtime.Base.{
  ℕ, Bool, true, false, not, ◌&&◌, ◌||◌, Option, none, some, List, [], ◌∷◌, String, ◌==◌, string_eq,
  pair_eq, list_eqb, contains, keys, values, sort_by, text_before, if◌then◌else◌, Result, ok,
  value_error, raise, raise_if, ◌>>◌,
}
use mind_runtime.Contracts.{Scope, SyncFields, require_non_empty, validate_sync_fields}

pub record SurfaceHandoffProvenance : Type 0 where
  pub context_id : String
  pub intent_id : String
  pub action_type : String
  pub policy_id : String
  pub policy_constraints : List String
  pub controls_id : String
  pub recipe_ref : String
  pub expression_map_ref : String
  pub qualitative_guidance : List (String × String)
  pub intent_surface_use_ref : String
  pub render_id : String
  pub logical_attempt_id : String
  pub envelope_digest : String

abbrev any_empty : List String → Bool
any_empty [] = false
any_empty (s ∷ ss) = s == "" || any_empty ss

abbrev pair_before : String × String → String × String → Bool
pair_before (a, b) (c, d) = if a == c then text_before b d else text_before a c

abbrev only_keys : List (String × String) → Bool
only_keys [] = true
only_keys ((k, v) ∷ pairs) =
    (k == "directness" || k == "warmth" || k == "restraint") && only_keys pairs

-- The keys of the guidance as a set are these three.
abbrev has_exact_keys : List (String × String) → Bool
has_exact_keys guidance =
    contains "directness" (keys guidance)
    && contains "warmth" (keys guidance)
    && contains "restraint" (keys guidance)
    && only_keys guidance

abbrev all_bands : List (String × String) → Bool
all_bands [] = true
all_bands ((k, v) ∷ pairs) = (v == "low" || v == "moderate" || v == "high") && all_bands pairs

abbrev all_unique : List String → Bool
all_unique [] = true
all_unique (s ∷ ss) = not (contains s ss) && all_unique ss

-- `SurfaceHandoffProvenance.__post_init__`
unfoldable pub make_handoff : SurfaceHandoffProvenance → Result SurfaceHandoffProvenance
make_handoff h = do
  require_non_empty h.context_id
  require_non_empty h.intent_id
  require_non_empty h.action_type
  require_non_empty h.policy_id
  require_non_empty h.controls_id
  require_non_empty h.recipe_ref
  require_non_empty h.expression_map_ref
  require_non_empty h.intent_surface_use_ref
  require_non_empty h.render_id
  require_non_empty h.logical_attempt_id
  require_non_empty h.envelope_digest
  raise_if
      (any_empty h.policy_constraints
        || any_empty (keys h.qualitative_guidance)
        || any_empty (values h.qualitative_guidance))
      value_error
  raise_if
      (not (
        list_eqb ⦃e = pair_eq⦄ (sort_by pair_before h.qualitative_guidance) h.qualitative_guidance))
      value_error
  raise_if (not (has_exact_keys h.qualitative_guidance)) value_error
  raise_if (not (all_bands h.qualitative_guidance)) value_error
  raise_if (not (all_unique h.policy_constraints)) value_error
  ok h

pub record DeliveryRequest : Type 0 where
  pub request_id : String
  pub message_id : String
  pub scope : Scope
  pub origin_runtime_id : String
  pub channel : String
  pub target : String
  pub action_type : String
  pub payload_bytes : List ℕ
  pub created_at : ℕ
  pub sync : SyncFields
  pub surface_handoff : Option SurfaceHandoffProvenance

abbrev pub check_payload : List ℕ → Result (Unit {0})
check_payload [] = raise value_error
check_payload (_ ∷ _) = ok tt

abbrev check_handoff :
    (List ℕ → String) → List ℕ → String → Option SurfaceHandoffProvenance → Result (Unit {0})
check_handoff sha256 payload action_type none = ok tt
check_handoff sha256 payload action_type (some h) =
    raise_if (not (h.action_type == action_type) || not (h.envelope_digest == sha256 payload))
      value_error

-- `DeliveryRequest.__post_init__`
unfoldable pub make_request : (List ℕ → String) → DeliveryRequest → Result DeliveryRequest
make_request sha256 r = do
  require_non_empty r.request_id
  require_non_empty r.message_id
  require_non_empty r.origin_runtime_id
  require_non_empty r.channel
  require_non_empty r.target
  check_payload r.payload_bytes
  validate_sync_fields r.sync r.scope r.origin_runtime_id r.request_id none
  check_handoff sha256 r.payload_bytes r.action_type r.surface_handoff
  ok r

pub data DeliveryStatus : Type 0 where
  sent unsent unknown : DeliveryStatus

pub record DeliveryReceipt : Type 0 where
  pub receipt_id : String
  pub scope : Scope
  pub origin_runtime_id : String
  pub message_id : String
  pub delivery_status : DeliveryStatus
  pub delivered_at : Option ℕ
  pub sync : SyncFields

-- `DeliveryReceipt.__post_init__`
unfoldable pub make_receipt : DeliveryReceipt → Result DeliveryReceipt
make_receipt r = do
  require_non_empty r.receipt_id
  require_non_empty r.origin_runtime_id
  require_non_empty r.message_id
  validate_sync_fields r.sync r.scope r.origin_runtime_id r.receipt_id none
  ok r
