-- ===== src/Delivery/Rows/RoundTrips.antt =====
-- Reading the columns that are written for a request.
use mind_runtime.Base.{
  not-eq-false, is_blank, place, ◌>>=◌, ◌>>◌, pair_eq, ℕ, String, ◌≡◌, refl, ◌≢◌, Bool, true, false,
  not, Option, none, some, List, [], ◌∷◌, arith, ◌==◌, nat_eq, string_eq, option_eq, list_eq,
  beq_ne, value_error, Result, ok, raise, raise_if, raise_if-ok, Dict, lookup,
}
use mind_runtime.Contracts.{
  Scope, ScopeDomain, scope_eq, domain_value, check_identity, required_scope_fields, make_scope,
  SyncFields, require_non_empty, validate_sync_fields,
}
use mind_runtime.Delivery.Lifecycle.{DeliveryLifecycleState}
use mind_runtime.Delivery.Requests.{
  SurfaceHandoffProvenance, make_handoff, DeliveryRequest, check_payload, make_request,
}
use mind_runtime.Delivery.Rows.{
  Codec, ReadsBack, Json, or_empty, from_column, domain_of, state_value, state_of, as_words,
  as_pairs, from_words, from_pairs, handoff_object, handoff_from, sync_object, sync_from,
  handoff_to_json, handoff_from_json, scope_from_row, inserted, request_from_row,
}

domain_of-domain_value : (d : ScopeDomain) → domain_of (domain_value d) ≡ ok d
domain_of-domain_value ScopeDomain.user = refl
domain_of-domain_value ScopeDomain.agent = refl
domain_of-domain_value ScopeDomain.relationship = refl
domain_of-domain_value ScopeDomain.interaction = refl
domain_of-domain_value ScopeDomain.world = refl

pub state_of-state_value : (s : DeliveryLifecycleState) → state_of (state_value s) ≡ ok s
state_of-state_value DeliveryLifecycleState.pending = refl
state_of-state_value DeliveryLifecycleState.in_flight = refl
state_of-state_value DeliveryLifecycleState.accepted = refl
state_of-state_value DeliveryLifecycleState.rejected = refl
state_of-state_value DeliveryLifecycleState.failed_retryable = refl
state_of-state_value DeliveryLifecycleState.unknown = refl

as_words-from_words : (ws : List String) → as_words (from_words ws) ≡ ok ws
as_words-from_words [] = refl
as_words-from_words (w ∷ ws) = rw (as_words-from_words ws) refl

as_pairs-from_pairs : (ps : List (String × String)) → as_pairs (from_pairs ps) ≡ ok ps
as_pairs-from_pairs [] = refl
as_pairs-from_pairs ((a, b) ∷ ps) = rw (as_pairs-from_pairs ps) refl

not_empty : (s : String) → is_blank s ≡ false → s ≢ ""
unfolding is_blank
not_empty s h e = let no : true ≡ false = rw e at h in cc

not-not : (b : Bool) → not (not b) ≡ false → b ≡ false
not-not b h = ground arith

-- An identity that passes its check is none, or a text that is not empty.
from_column-or_empty :
    (required : Bool) (value : Option String)
    → check_identity required value ≡ ok tt
    → from_column (or_empty value) ≡ value
from_column-or_empty required none h = refl
from_column-or_empty true (some s) h =
    rw (beq_ne s "" (not_empty s (not-not (is_blank s) (raise_if-ok _ value_error h)))) refl
from_column-or_empty false (some s) h = cc

first_ok : {A : Type 0} (m : Result (Unit {0})) (n : Result A) (a : A) → (m >> n) ≡ ok a → m ≡ ok tt
first_ok (ok tt) n a h = refl
first_ok (raise e) n a h = cc

rest_ok : {A : Type 0} (m : Result (Unit {0})) (n : Result A) (a : A) → (m >> n) ≡ ok a → n ≡ ok a
rest_ok (ok tt) n a h = h
rest_ok (raise e) n a h = cc

validate_sync_fields-same :
    (sync : SyncFields) (scope : Scope) (origin object : String)
    → validate_sync_fields sync scope origin object none ≡ ok tt
    → (sync.scope ≡ scope) × (sync.origin_runtime_id ≡ origin) × (sync.object_id ≡ object)
unfolding validate_sync_fields
validate_sync_fields-same sync scope origin object h =
    let h1 = rest_ok (raise_if (not (sync.scope == scope)) value_error) _ tt h in
    let h2 = rest_ok (raise_if (not (sync.origin_runtime_id == origin)) value_error) _ tt h1 in
    (
      (scope_eq.beq_iff sync.scope scope).0
          (not-eq-false (sync.scope == scope) (raise_if-ok _ value_error (first_ok _ _ tt h))),
      (string_eq.beq_iff sync.origin_runtime_id origin).0 (
          not-eq-false (sync.origin_runtime_id == origin)
            (raise_if-ok _ value_error (first_ok _ _ tt h1))),
      (string_eq.beq_iff sync.object_id object).0 (
          not-eq-false (sync.object_id == object) (raise_if-ok _ value_error (first_ok _ _ tt h2))),
    )

-- What its constructors have accepted of a request: its scope, its handoff and itself.
pub record IsMade (sha256 : List ℕ → String) (r : DeliveryRequest) : Type 0 where
  pub scope_made : make_scope r.scope ≡ ok r.scope
  pub handoff_made :
      (h : SurfaceHandoffProvenance) → r.surface_handoff ≡ some h → make_handoff h ≡ ok h
  pub request_made : make_request sha256 r ≡ ok r

module _ {T : Type 0} (codec : Codec T) where
  scope_from_row-inserted :
      (request : DeliveryRequest) (state : DeliveryLifecycleState)
      → make_scope request.scope ≡ ok request.scope
      → scope_from_row codec (inserted codec request state) ≡ ok request.scope
  unfolding scope_from_row inserted make_scope
  scope_from_row-inserted request state h =
      let s = request.scope in
      let r = required_scope_fields s.domain in
      let h1 = rest_ok (check_identity r.user_id s.user_id) _ s h in
      let h2 = rest_ok (check_identity r.agent_id s.agent_id) _ s h1 in
      let h3 = rest_ok (check_identity r.persona_id s.persona_id) _ s h2 in
      let h4 = rest_ok (check_identity r.relationship_id s.relationship_id) _ s h3 in
      let h5 = rest_ok (check_identity r.world_id s.world_id) _ s h4 in
      rw
        (
          domain_of-domain_value s.domain,
          from_column-or_empty r.user_id s.user_id (first_ok _ _ s h),
          from_column-or_empty r.agent_id s.agent_id (first_ok _ _ s h1),
          from_column-or_empty r.persona_id s.persona_id (first_ok _ _ s h2),
          from_column-or_empty r.relationship_id s.relationship_id (first_ok _ _ s h3),
          from_column-or_empty r.world_id s.world_id (first_ok _ _ s h4),
          from_column-or_empty r.interaction_id s.interaction_id (first_ok _ _ s h5),
        )
        h

  handoff_from-handoff_object :
      (h : SurfaceHandoffProvenance) (o : Dict String Json)
      → ((key : String) → lookup key o ≡ lookup key (handoff_object h))
      → make_handoff h ≡ ok h
      → handoff_from o ≡ ok h
  unfolding handoff_from
  handoff_from-handoff_object h o same made =
      rw
        (
          same "context_id",
          same "intent_id",
          same "action_type",
          same "policy_id",
          same "policy_constraints",
          same "controls_id",
          same "recipe_ref",
          same "expression_map_ref",
          same "qualitative_guidance",
          same "intent_surface_use_ref",
          same "render_id",
          same "logical_attempt_id",
          same "envelope_digest",
          as_words-from_words h.policy_constraints,
          as_pairs-from_pairs h.qualitative_guidance,
        )
        made

  sync_from-sync_object :
      (request : DeliveryRequest) (o : Dict String Json)
      → ((key : String) → lookup key o ≡ lookup key (sync_object request))
      → request.sync.scope ≡ request.scope
      → request.sync.origin_runtime_id ≡ request.origin_runtime_id
      → request.sync.object_id ≡ request.request_id
      → sync_from request.scope o ≡ ok request.sync
  unfolding sync_from
  sync_from-sync_object request o same place origin object =
      rw
        (
          same "scope",
          same "origin_runtime_id",
          same "object_id",
          same "version",
          same "idempotency_key",
          ← place,
          ← origin,
          ← object,
        )
        refl

  handoff_from_json-handoff_to_json :
      (back : ReadsBack codec) (o : Option SurfaceHandoffProvenance)
      → ((h : SurfaceHandoffProvenance) → o ≡ some h → make_handoff h ≡ ok h)
      → handoff_from_json codec (handoff_to_json codec o) ≡ ok o
  handoff_from_json-handoff_to_json back none made = refl
  handoff_from_json-handoff_to_json back (some h) made =
      let (o, loaded, same) = back.loads_dumps (handoff_object h) in
      rw (loaded, ◌>>=◌, handoff_from-handoff_object h o same (made h refl)) refl

  make_request-sync :
      (sha256 : List ℕ → String) (r : DeliveryRequest)
      → make_request sha256 r ≡ ok r
      → (r.sync.scope ≡ r.scope)
        × (r.sync.origin_runtime_id ≡ r.origin_runtime_id)
        × (r.sync.object_id ≡ r.request_id)
  unfolding make_request
  make_request-sync sha256 r h =
      let h1 = rest_ok (require_non_empty r.request_id) _ r h in
      let h2 = rest_ok (require_non_empty r.message_id) _ r h1 in
      let h3 = rest_ok (require_non_empty r.origin_runtime_id) _ r h2 in
      let h4 = rest_ok (require_non_empty r.channel) _ r h3 in
      let h5 = rest_ok (require_non_empty r.target) _ r h4 in
      let h6 = rest_ok (check_payload r.payload_bytes) _ r h5 in
      let v =
        first_ok (validate_sync_fields r.sync r.scope r.origin_runtime_id r.request_id none) _ r
          h6 in
      validate_sync_fields-same r.sync r.scope r.origin_runtime_id r.request_id v

  pub request_from_row-inserted :
      (back : ReadsBack codec) (sha256 : List ℕ → String) (r : DeliveryRequest)
      (state : DeliveryLifecycleState)
      → IsMade sha256 r
      → request_from_row codec sha256 (inserted codec r state) ≡ ok r
  unfolding request_from_row inserted
  request_from_row-inserted back sha256 r state made =
      let (place, origin, object) = make_request-sync sha256 r made.request_made in
      let (o, loaded, same) = back.loads_dumps (sync_object r) in
      rw
        (
          scope_from_row-inserted r state made.scope_made,
          loaded,
          ◌>>=◌,
          sync_from-sync_object r o same place origin object,
          back.same_time r.created_at,
          handoff_from_json-handoff_to_json back r.surface_handoff made.handoff_made,
        )
        made.request_made
