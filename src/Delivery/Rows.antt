-- ===== src/Delivery/Rows.antt =====
-- The columns of `delivery_requests` and what is read from them (delivery/persistence.py). The texts
-- of the standard library's `json` and `datetime.isoformat` are a parameter (`Codec`). Of JSON the
-- code uses objects of texts, numbers and lists, whose items are texts or lists of texts. A value
-- that is not of the kind that is written here is refused, also where `str` or `int` would convert it.
pub mod RoundTrips
use mind_runtime.Base.{
  ℕ, ◌≡◌, Bool, true, false, Option, none, some, List, [], ◌∷◌, String, ◌==◌, string_eq,
  if◌then◌else◌, Result, ok, raise, value_error, ◌>>=◌, ◌>>◌, Dict, lookup,
}
use mind_runtime.Contracts.{
  Scope, ScopeDomain, user, agent, relationship, interaction, world, domain_value, make_scope,
  SyncFields,
}
use mind_runtime.Delivery.Lifecycle.{
  DeliveryLifecycleState, pending, in_flight, accepted, rejected, failed_retryable, unknown,
}
use mind_runtime.Delivery.Requests.{
  SurfaceHandoffProvenance, make_handoff, DeliveryRequest, make_request,
}

pub data JsonItem : Type 0 where
  word : String → JsonItem
  words : List String → JsonItem

pub data Json : Type 0 where
  text : String → Json
  number : ℕ → Json
  array : List JsonItem → Json

-- `json.dumps` and `json.loads` of an object, `isoformat` and `fromisoformat` of a time in UTC; `T` is
-- the type of what they write.
pub record Codec (T : Type 0) : Type 0 where
  pub dumps : Dict String Json → T
  pub loads : T → Result (Dict String Json)
  pub isoformat : ℕ → T
  pub fromisoformat : T → Result ℕ

-- What is written is read back: of an object, what is under each key.
pub record ReadsBack {T : Type 0} (codec : Codec T) : Type 0 where
  pub loads_dumps :
      (o : Dict String Json)
      → (p : Dict String Json) × (codec.loads (codec.dumps o) ≡ ok p)
        × ((key : String) → lookup key p ≡ lookup key o)
  pub same_time : (t : ℕ) → codec.fromisoformat (codec.isoformat t) ≡ ok t

-- A row of the table; `T` is the type of the columns that hold JSON or a time.
pub record RequestColumns (T : Type 0) : Type 0 where
  pub request_id : String
  pub message_id : String
  pub scope_domain : String
  pub scope_user_id : String
  pub scope_agent_id : String
  pub scope_persona_id : String
  pub scope_relationship_id : String
  pub scope_world_id : String
  pub scope_interaction_id : String
  pub origin_runtime_id : String
  pub channel : String
  pub target : String
  pub action_type : String
  pub payload_bytes : List ℕ
  pub surface_handoff : Option T
  pub created_at : T
  pub sync : T
  pub lifecycle_state : String
  pub attempt_count : ℕ
  pub last_attempt_at : Option T
  pub last_reconcile_at : Option T
  pub last_provider_receipt_ref : Option String
  pub sync_version : ℕ

-- `value or ""`
abbrev pub or_empty : Option String → String
or_empty none = ""
or_empty (some value) = value

-- The value of a scope's column, where the empty text stands for none.
abbrev pub from_column : String → Option String
from_column value = if value == "" then none else some value

-- `ScopeDomain(value)`
abbrev pub domain_of : String → Result ScopeDomain
domain_of value =
    if value == "user"
    then ok user
    else if value == "agent"
    then ok agent
    else if value == "relationship"
    then ok relationship
    else if value == "interaction"
    then ok interaction
    else if value == "world"
    then ok world
    else raise value_error

-- `lifecycle_state.value`
abbrev pub state_value : DeliveryLifecycleState → String
state_value pending = "pending"
state_value in_flight = "in_flight"
state_value accepted = "accepted"
state_value rejected = "rejected"
state_value failed_retryable = "failed_retryable"
state_value unknown = "unknown"

-- `DeliveryLifecycleState(value)`
abbrev pub state_of : String → Result DeliveryLifecycleState
state_of value =
    if value == "pending"
    then ok pending
    else if value == "in_flight"
    then ok in_flight
    else if value == "accepted"
    then ok accepted
    else if value == "rejected"
    then ok rejected
    else if value == "failed_retryable"
    then ok failed_retryable
    else if value == "unknown"
    then ok unknown
    else raise value_error

-- `data[key]`, read as a text, a number or a list.
abbrev pub as_text : Option Json → Result String
as_text (some (text value)) = ok value
as_text _ = raise value_error

-- The key is there, whatever is under it.
abbrev pub require_key : Option Json → Result (Unit {0})
require_key none = raise value_error
require_key (some value) = ok tt

abbrev pub as_number : Option Json → Result ℕ
as_number (some (number value)) = ok value
as_number _ = raise value_error

abbrev pub as_array : Option Json → Result (List JsonItem)
as_array (some (array items)) = ok items
as_array _ = raise value_error

-- `tuple(items)` of texts, and `tuple(tuple(pair) for pair in items)`.
abbrev pub as_words : List JsonItem → Result (List String)
as_words [] = ok []
as_words (word w ∷ items) = as_words items >>= λ ws. ok (w ∷ ws)
as_words (words ws ∷ items) = raise value_error

abbrev pub as_pairs : List JsonItem → Result (List (String × String))
as_pairs [] = ok []
as_pairs (words (a ∷ b ∷ []) ∷ items) = as_pairs items >>= λ ps. ok ((a, b) ∷ ps)
as_pairs (_ ∷ items) = raise value_error

abbrev pub from_words : List String → List JsonItem
from_words [] = []
from_words (w ∷ ws) = word w ∷ from_words ws

abbrev pub from_pairs : List (String × String) → List JsonItem
from_pairs [] = []
from_pairs ((a, b) ∷ ps) = words (a ∷ b ∷ []) ∷ from_pairs ps

-- The object that `_surface_handoff_to_json` writes.
abbrev pub handoff_object : SurfaceHandoffProvenance → Dict String Json
handoff_object value =
    ("context_id", text value.context_id)
    ∷ ("intent_id", text value.intent_id)
    ∷ ("action_type", text value.action_type)
    ∷ ("policy_id", text value.policy_id)
    ∷ ("policy_constraints", array (from_words value.policy_constraints))
    ∷ ("controls_id", text value.controls_id)
    ∷ ("recipe_ref", text value.recipe_ref)
    ∷ ("expression_map_ref", text value.expression_map_ref)
    ∷ ("qualitative_guidance", array (from_pairs value.qualitative_guidance))
    ∷ ("intent_surface_use_ref", text value.intent_surface_use_ref)
    ∷ ("render_id", text value.render_id)
    ∷ ("logical_attempt_id", text value.logical_attempt_id)
    ∷ ("envelope_digest", text value.envelope_digest)
    ∷ []

-- What `_surface_handoff_from_json` makes of an object.
unfoldable pub handoff_from : Dict String Json → Result SurfaceHandoffProvenance
handoff_from data_read = do
  context_id ← as_text (lookup "context_id" data_read)
  intent_id ← as_text (lookup "intent_id" data_read)
  action_type ← as_text (lookup "action_type" data_read)
  policy_id ← as_text (lookup "policy_id" data_read)
  constraint_items ← as_array (lookup "policy_constraints" data_read)
  policy_constraints ← as_words constraint_items
  controls_id ← as_text (lookup "controls_id" data_read)
  recipe_ref ← as_text (lookup "recipe_ref" data_read)
  expression_map_ref ← as_text (lookup "expression_map_ref" data_read)
  guidance_items ← as_array (lookup "qualitative_guidance" data_read)
  qualitative_guidance ← as_pairs guidance_items
  intent_surface_use_ref ← as_text (lookup "intent_surface_use_ref" data_read)
  render_id ← as_text (lookup "render_id" data_read)
  logical_attempt_id ← as_text (lookup "logical_attempt_id" data_read)
  envelope_digest ← as_text (lookup "envelope_digest" data_read)
  make_handoff (record {
    context_id = context_id;
    intent_id = intent_id;
    action_type = action_type;
    policy_id = policy_id;
    policy_constraints = policy_constraints;
    controls_id = controls_id;
    recipe_ref = recipe_ref;
    expression_map_ref = expression_map_ref;
    qualitative_guidance = qualitative_guidance;
    intent_surface_use_ref = intent_surface_use_ref;
    render_id = render_id;
    logical_attempt_id = logical_attempt_id;
    envelope_digest = envelope_digest;
  })

-- The object that `record_request` writes for the synchronization fields.
abbrev pub sync_object : DeliveryRequest → Dict String Json
sync_object request =
    ("scope", text (domain_value request.scope.domain))
    ∷ ("origin_runtime_id", text request.origin_runtime_id)
    ∷ ("object_id", text request.request_id)
    ∷ ("version", number request.sync.version)
    ∷ ("idempotency_key", text request.sync.idempotency_key)
    ∷ []

-- The synchronization fields that `_request_from_row` makes of an object and the row's scope.
unfoldable pub sync_from : Scope → Dict String Json → Result SyncFields
sync_from scope sync_obj = do
  require_key (lookup "scope" sync_obj)
  origin_runtime_id ← as_text (lookup "origin_runtime_id" sync_obj)
  object_id ← as_text (lookup "object_id" sync_obj)
  version ← as_number (lookup "version" sync_obj)
  idempotency_key ← as_text (lookup "idempotency_key" sync_obj)
  ok (record {
    scope = scope;
    origin_runtime_id = origin_runtime_id;
    object_id = object_id;
    version = version;
    idempotency_key = idempotency_key;
  })

module _ {T : Type 0} (codec : Codec T) where
  -- `_surface_handoff_to_json`
  abbrev pub handoff_to_json : Option SurfaceHandoffProvenance → Option T
  handoff_to_json none = none
  handoff_to_json (some value) = some (codec.dumps (handoff_object value))

  -- `_surface_handoff_from_json`
  abbrev pub handoff_from_json : Option T → Result (Option SurfaceHandoffProvenance)
  handoff_from_json none = ok none
  handoff_from_json (some raw) =
      codec.loads raw >>= λ data_read. handoff_from data_read >>= λ value. ok (some value)

  -- `_scope_from_row`
  unfoldable pub scope_from_row : RequestColumns T → Result Scope
  scope_from_row row = domain_of row.scope_domain >>= λ domain. make_scope (record {
    domain = domain;
    user_id = from_column row.scope_user_id;
    agent_id = from_column row.scope_agent_id;
    persona_id = from_column row.scope_persona_id;
    relationship_id = from_column row.scope_relationship_id;
    world_id = from_column row.scope_world_id;
    interaction_id = from_column row.scope_interaction_id;
  })

  -- The values that `record_request` inserts.
  unfoldable pub inserted : DeliveryRequest → DeliveryLifecycleState → RequestColumns T
  inserted request lifecycle_state = record {
    request_id = request.request_id;
    message_id = request.message_id;
    scope_domain = domain_value request.scope.domain;
    scope_user_id = or_empty request.scope.user_id;
    scope_agent_id = or_empty request.scope.agent_id;
    scope_persona_id = or_empty request.scope.persona_id;
    scope_relationship_id = or_empty request.scope.relationship_id;
    scope_world_id = or_empty request.scope.world_id;
    scope_interaction_id = or_empty request.scope.interaction_id;
    origin_runtime_id = request.origin_runtime_id;
    channel = request.channel;
    target = request.target;
    action_type = request.action_type;
    payload_bytes = request.payload_bytes;
    surface_handoff = handoff_to_json request.surface_handoff;
    created_at = codec.isoformat request.created_at;
    sync = codec.dumps (sync_object request);
    lifecycle_state = state_value lifecycle_state;
    attempt_count = 0;
    last_attempt_at = none;
    last_reconcile_at = none;
    last_provider_receipt_ref = none;
    sync_version = request.sync.version;
  }

  -- `_request_from_row`
  unfoldable pub request_from_row : (List ℕ → String) → RequestColumns T → Result DeliveryRequest
  request_from_row sha256 row = do
    scope ← scope_from_row row
    sync_obj ← codec.loads row.sync
    sync ← sync_from scope sync_obj
    created_at ← codec.fromisoformat row.created_at
    surface_handoff ← handoff_from_json row.surface_handoff
    make_request sha256 (record {
      request_id = row.request_id;
      message_id = row.message_id;
      scope = scope;
      origin_runtime_id = row.origin_runtime_id;
      channel = row.channel;
      target = row.target;
      action_type = row.action_type;
      payload_bytes = row.payload_bytes;
      created_at = created_at;
      sync = sync;
      surface_handoff = surface_handoff;
    })
