-- ===== src/Delivery/Equality.antt =====
-- The equality that the delivery dataclasses derive: that of all their fields.
use mind_runtime.Base.{
  Eq, eq_by, list_eq, nat_eq, string_eq, option_eq, ◌⊗◌, refl, ◌≡◌, ◌↔◌, Bool, true, false, ℕ,
  Option, List, String, arith,
}
use mind_runtime.Contracts.{Scope, scope_eq, SyncFields, sync_fields_eq}
use mind_runtime.Delivery.Requests.{
  SurfaceHandoffProvenance, DeliveryRequest, DeliveryReceipt, DeliveryStatus, sent, unsent, unknown,
}

abbrev handoff_tuple :
    SurfaceHandoffProvenance
    → ((String × (String × (String × (String × (List String × String)))))
        × (String × (String × (List (String × String) × (String × (String × (String × String)))))))
handoff_tuple h = (
  (
    h.context_id,
    (h.intent_id, (h.action_type, (h.policy_id, (h.policy_constraints, h.controls_id)))),
  ),
  (
    h.recipe_ref,
    (
      h.expression_map_ref,
      (
        h.qualitative_guidance,
        (h.intent_surface_use_ref, (h.render_id, (h.logical_attempt_id, h.envelope_digest))),
      ),
    ),
  ),
)

abbrev handoff_of :
    ((String × (String × (String × (String × (List String × String)))))
      × (String × (String × (List (String × String) × (String × (String × (String × String)))))))
    → SurfaceHandoffProvenance
handoff_of ((a, (b, (c, (d, (e, f))))), (g, (h, (i, (j, (k, (l, m))))))) = record {
  context_id = a;
  intent_id = b;
  action_type = c;
  policy_id = d;
  policy_constraints = e;
  controls_id = f;
  recipe_ref = g;
  expression_map_ref = h;
  qualitative_guidance = i;
  intent_surface_use_ref = j;
  render_id = k;
  logical_attempt_id = l;
  envelope_digest = m;
}

instance abbrev pub surface_handoff_eq : Eq SurfaceHandoffProvenance
surface_handoff_eq =
    eq_by
      ⦃e = (string_eq ⊗ string_eq ⊗ string_eq ⊗ string_eq ⊗ list_eq ⊗ string_eq)
        ⊗ string_eq
        ⊗ string_eq
        ⊗ list_eq ⦃e = string_eq ⊗ string_eq⦄
        ⊗ string_eq
        ⊗ string_eq
        ⊗ string_eq
        ⊗ string_eq⦄
      handoff_tuple handoff_of (λ h. refl)

abbrev request_tuple :
    DeliveryRequest
    → ((String × (String × (Scope × (String × (String × String)))))
        × (String × (List ℕ × (ℕ × (SyncFields × Option SurfaceHandoffProvenance)))))
request_tuple r = (
  (r.request_id, (r.message_id, (r.scope, (r.origin_runtime_id, (r.channel, r.target))))),
  (r.action_type, (r.payload_bytes, (r.created_at, (r.sync, r.surface_handoff)))),
)

abbrev request_of :
    ((String × (String × (Scope × (String × (String × String)))))
      × (String × (List ℕ × (ℕ × (SyncFields × Option SurfaceHandoffProvenance)))))
    → DeliveryRequest
request_of ((a, (b, (c, (d, (e, f))))), (g, (h, (i, (j, k))))) = record {
  request_id = a;
  message_id = b;
  scope = c;
  origin_runtime_id = d;
  channel = e;
  target = f;
  action_type = g;
  payload_bytes = h;
  created_at = i;
  sync = j;
  surface_handoff = k;
}

instance abbrev pub delivery_request_eq : Eq DeliveryRequest
delivery_request_eq =
    eq_by
      ⦃e = (string_eq ⊗ string_eq ⊗ scope_eq ⊗ string_eq ⊗ string_eq ⊗ string_eq)
        ⊗ string_eq
        ⊗ list_eq
        ⊗ nat_eq
        ⊗ sync_fields_eq
        ⊗ option_eq⦄
      request_tuple request_of (λ r. refl)

abbrev pub same_status : DeliveryStatus → DeliveryStatus → Bool
same_status sent sent = true
same_status unsent unsent = true
same_status unknown unknown = true
same_status _ _ = false

pub same_status_iff : (a b : DeliveryStatus) → (same_status a b ≡ true) ↔ (a ≡ b)
same_status_iff a b = ground arith

instance abbrev pub delivery_status_eq : Eq DeliveryStatus
delivery_status_eq = record { beq = same_status; beq_iff = same_status_iff }

abbrev receipt_tuple :
    DeliveryReceipt
    → (String × (Scope × (String × (String × (DeliveryStatus × (Option ℕ × SyncFields))))))
receipt_tuple r = (
  r.receipt_id,
  (r.scope, (r.origin_runtime_id, (r.message_id, (r.delivery_status, (r.delivered_at, r.sync))))),
)

abbrev receipt_of :
    (String × (Scope × (String × (String × (DeliveryStatus × (Option ℕ × SyncFields))))))
    → DeliveryReceipt
receipt_of (a, (b, (c, (d, (e, (f, g)))))) = record {
  receipt_id = a;
  scope = b;
  origin_runtime_id = c;
  message_id = d;
  delivery_status = e;
  delivered_at = f;
  sync = g;
}

instance abbrev pub delivery_receipt_eq : Eq DeliveryReceipt
delivery_receipt_eq =
    eq_by
      ⦃e = string_eq ⊗ scope_eq ⊗ string_eq ⊗ string_eq ⊗ delivery_status_eq ⊗ option_eq
        ⊗ sync_fields_eq⦄
      receipt_tuple receipt_of (λ r. refl)
