-- ===== src/Delivery/Tests.antt =====
-- The theorems of the delivery plane at a store with a fresh request, one of unknown outcome and one
-- that is accepted.
use mind_runtime.Base.{
  Dict, Bool, true, subst, ap, is_blank, ◌≢◌, value_error, ℕ, ◌+◌, String, ◌≡◌, refl, ◌⊎◌, inl, inr,
  false, Option, none, some, List, [], ◌∷◌, if◌then◌else◌, ◌==◌, nat_eq, string_eq, option_eq,
  list_eq, Result, ok, raise, All, lookup, text_before, decimal, list_eqb, option_eqb, pair_eqb,
}
use mind_runtime.Contracts.{Scope, ScopeDomain, make_scope, validate_sync_fields}
use mind_runtime.Delivery.Lifecycle.{
  pending, DeliveryLifecycleState, accepted, rejected, failed_retryable, unknown,
  validate_transition,
}
use mind_runtime.Delivery.KillSwitch.Sequences.{
  Change, set_channel, set_target, lift_channel, changes, decide-changes,
}
use mind_runtime.Delivery.KillSwitch.{
  set_global, block_target, without, KillSwitchRow, KillSwitchDecision, initial_row, block_channel,
  unblock_channel, decide, compute_state, off_channel,
}
use mind_runtime.Delivery.KillSwitch.Blocks.{decide-block_channel, decide-unblock_channel}
use mind_runtime.Delivery.Requests.{
  SurfaceHandoffProvenance, make_handoff, make_request, DeliveryRequest, DeliveryReceipt,
  DeliveryStatus,
}
use mind_runtime.Delivery.Retry.{compute_retry_decision}
use mind_runtime.Delivery.Rows.{Codec, ReadsBack, Json}
use mind_runtime.Delivery.Rows.RoundTrips.{IsMade}
use mind_runtime.Delivery.Recording.{RequestTable, record_request, get_durable_request}
use mind_runtime.Delivery.Recording.Once.{untried, record_request_once}
use mind_runtime.Delivery.Store.{
  Db, DurableRequestRow, unfinished_requests, stored, set_lifecycle_state, increment_attempt,
  record_attempt, record_receipt, record_reconcile,
}
use mind_runtime.Delivery.Store.Advances.{Advances}
use mind_runtime.Delivery.Store.Returns.{Returns}
use mind_runtime.Delivery.Daemon.{
  DaemonPass, DaemonOutcome, resolved_reject, run, drive_one, drive_all, drive_owned, drive_decided,
  retry_row, send, apply_reconcile, reconcile_row, apply_status, conclude,
}
use mind_runtime.Delivery.Daemon.Safety.{run-Advances, run-terminal}
use mind_runtime.Delivery.Daemon.Sending.{Agrees, with_carrier, run-with_carrier}
use mind_runtime.Delivery.Daemon.Reports.{Reported}
use mind_runtime.Delivery.Daemon.Progress.{drive_one-Returns}
use mind_runtime.Delivery.Daemon.Runs.{Ready, AllFinal, Same, WellKeyed, run-Returns}

abbrev alice : Scope
alice = record {
  domain = ScopeDomain.user;
  user_id = some "alice";
  agent_id = none;
  persona_id = none;
  relationship_id = none;
  world_id = none;
  interaction_id = none;
}

abbrev request : String → DeliveryRequest
request id = record {
  request_id = id;
  message_id = "m";
  scope = alice;
  origin_runtime_id = "runtime";
  channel = "chat";
  target = "alice";
  action_type = "message";
  payload_bytes = 104 ∷ 105 ∷ [];
  created_at = 1;
  sync = record {
    scope = alice;
    origin_runtime_id = "runtime";
    object_id = id;
    version = 1;
    idempotency_key = id;
  };
  surface_handoff = none;
}

abbrev row : String → DeliveryLifecycleState → ℕ → DurableRequestRow
row id state n = record {
  request = request id;
  lifecycle_state = state;
  attempt_count = n;
  last_attempt_at = none;
  last_reconcile_at = none;
  last_provider_receipt_ref = none;
}

abbrev backlog : Db
backlog = record {
  requests =
      ("r3", row "r3" accepted 1)
      ∷ ("r2", row "r2" unknown 1)
      ∷ ("r1", row "r1" failed_retryable 2)
      ∷ [];
  receipts = [];
  attempts = [];
  switch = initial_row 0;
}

abbrev receipt : DeliveryReceipt
receipt = record {
  receipt_id = "receipt";
  scope = alice;
  origin_runtime_id = "runtime";
  message_id = "m";
  delivery_status = DeliveryStatus.sent;
  delivered_at = some 7;
  sync = record {
    scope = alice;
    origin_runtime_id = "runtime";
    object_id = "receipt";
    version = 1;
    idempotency_key = "receipt";
  };
}

abbrev daemon : DaemonPass
daemon = record {
  deliver = λ r. inl receipt;
  reconcile = λ r. resolved_reject "refused";
  retry_budget = 3;
  now = λ id k. 100 + k;
}

-- A carrier that answers like the daemon's on the request that it may send, and raises on others.
abbrev careful : DeliveryRequest → DeliveryReceipt ⊎ String
careful r = if r.request_id == "r1" then inl receipt else inr "down"

is_ok : {A : Type 0} → Result A × Db → Option A
is_ok (ok a, db) = some a
is_ok (raise e, db) = none

states : List DaemonOutcome → List DeliveryLifecycleState
states [] = []
states (o ∷ os) = o.final_state ∷ states os

states_of : Option (List DaemonOutcome) → List DeliveryLifecycleState
states_of none = []
states_of (some os) = states os

run-backlog : states_of (is_ok (run daemon backlog)) ≡ accepted ∷ rejected ∷ []
unfolding states_of is_ok run states drive_all unfinished_requests text_before drive_owned
    drive_decided compute_retry_decision retry_row set_lifecycle_state stored validate_transition
    send increment_attempt record_attempt decimal list_eqb option_eqb pair_eqb apply_reconcile
    reconcile_row record_receipt record_reconcile apply_status conclude
run-backlog = refl

backlog-WellKeyed : WellKeyed backlog.requests
backlog-WellKeyed = record {
  keyed = (refl, (refl, (refl, tt)));
  distinct = (refl, (refl, (refl, tt)));
}

backlog-Ready : All (Ready daemon) (unfinished_requests backlog)
unfolding unfinished_requests text_before
backlog-Ready = (
  record { identified = λ e. cc; named = tt; told = tt },
  (record { identified = λ e. cc; named = tt; told = tt }, tt),
)

run-Returns_example :
    Returns
      (λ reports db.
        AllFinal 3 (unfinished_requests backlog) reports db
        × Same (unfinished_requests backlog) backlog db)
      (run daemon backlog)
run-Returns_example = run-Returns daemon backlog backlog-WellKeyed backlog-Ready

run-Advances_example : Advances backlog (run daemon backlog).1
run-Advances_example = run-Advances daemon backlog

backlog-Agrees : All (Agrees daemon careful) (unfinished_requests backlog)
unfolding unfinished_requests text_before
backlog-Agrees = (λ may. refl, (λ may. cc, tt))

run-with_carrier_example : run (with_carrier careful daemon) backlog ≡ run daemon backlog
run-with_carrier_example = run-with_carrier daemon careful backlog backlog-Agrees

drive_one-Returns_example :
    Returns
      (Reported 3 (row "r1" failed_retryable 2) backlog)
      (drive_one daemon (row "r1" failed_retryable 2) backlog)
drive_one-Returns_example =
    drive_one-Returns daemon (row "r1" failed_retryable 2) backlog refl (λ e. cc) tt tt

run-terminal_example :
    (row_after : DurableRequestRow) × (lookup "r3" (run daemon backlog).1.requests ≡ some row_after)
    × (row_after.lifecycle_state ≡ accepted)
run-terminal_example = run-terminal daemon backlog "r3" (row "r3" accepted 1) refl refl

abbrev blocked_row : KillSwitchRow
blocked_row = record {
  state = off_channel;
  channel_blocks = ("chat", "maintenance") ∷ [];
  target_blocks = [];
  updated_at = 5;
}

abbrev refused : KillSwitchDecision
refused = record { allowed = false; reason_code = "channel_off:chat" }

decide-block_channel_example : refused.allowed ≡ false
unfolding block_channel compute_state decide
decide-block_channel_example =
    decide-block_channel "chat" "alice" "maintenance" 5 (initial_row 0) blocked_row refl refused
      refl

decide-unblock_channel_example :
    decide "chat" "alice" (unblock_channel "chat" 6 blocked_row)
    ≡ decide "chat" "alice" (initial_row 0)
unfolding block_channel compute_state
decide-unblock_channel_example =
    decide-unblock_channel "chat" "maintenance" 5 6 (initial_row 0) blocked_row refl refl "chat"
      "alice"

abbrev loads : Dict String Json ⊎ ℕ → Result (Dict String Json)
loads (inl o) = ok o
loads (inr t) = raise value_error

abbrev fromisoformat : Dict String Json ⊎ ℕ → Result ℕ
fromisoformat (inl o) = raise value_error
fromisoformat (inr t) = ok t

-- The codec that keeps objects and times as they are.
abbrev kept_codec : Codec (Dict String Json ⊎ ℕ)
kept_codec = record {
  dumps = λ o. inl o;
  loads = loads;
  isoformat = λ t. inr t;
  fromisoformat = fromisoformat;
}

kept_codec-ReadsBack : ReadsBack kept_codec
kept_codec-ReadsBack = record { loads_dumps = λ o. (o, refl, λ key. refl); same_time = λ t. refl }

abbrev digest : List ℕ → String
digest payload = "digest"

abbrev handed : DeliveryRequest
handed = record (request "r9") {
  surface_handoff = some (record {
    context_id = "context";
    intent_id = "intent";
    action_type = "message";
    policy_id = "policy";
    policy_constraints = "brief" ∷ "kind" ∷ [];
    controls_id = "controls";
    recipe_ref = "recipe";
    expression_map_ref = "map";
    qualitative_guidance =
        ("directness", "low") ∷ ("restraint", "high") ∷ ("warmth", "moderate") ∷ [];
    intent_surface_use_ref = "use";
    render_id = "render";
    logical_attempt_id = "attempt";
    envelope_digest = "digest";
  });
}

abbrev has_handoff : DeliveryRequest → Bool
has_handoff r = elim r.surface_handoff [ none ↦ false | some h ↦ true ]

bare-handed : request "r9" ≢ handed
bare-handed e = let no : false ≡ true = ap has_handoff e in cc

abbrev HandoffOk : Option SurfaceHandoffProvenance → Type 0
HandoffOk none = ⊥
HandoffOk (some h) = make_handoff h ≡ ok h

handed-HandoffOk : HandoffOk handed.surface_handoff
unfolding make_handoff is_blank list_eqb text_before pair_eqb
handed-HandoffOk = refl

handed-IsMade : IsMade digest handed
unfolding make_scope is_blank make_request validate_sync_fields mind_runtime.Contracts.scope_eqb
    option_eqb
handed-IsMade = record {
  scope_made = refl;
  handoff_made = λ h e. subst HandoffOk e handed-HandoffOk;
  request_made = refl;
}

record_request_once_example :
    (after : RequestTable (Dict String Json ⊎ ℕ)) × (record_request kept_codec digest handed pending
        []
      ≡ ok (true, after))
    × (get_durable_request kept_codec digest "r9" after ≡ ok (some (untried handed pending)))
    × (record_request kept_codec digest handed unknown after ≡ ok (false, after))
    × (record_request kept_codec digest (request "r9") unknown after ≡ raise value_error)
record_request_once_example =
    record_request_once kept_codec digest handed (request "r9") pending unknown []
      kept_codec-ReadsBack handed-IsMade refl refl bare-handed

abbrev off_row : KillSwitchRow
off_row = set_global false 3 (initial_row 0)

abbrev off_blocked : KillSwitchRow
off_blocked = record off_row { target_blocks = ("alice", "quiet") ∷ []; updated_at = 6 }

abbrev global_off : KillSwitchDecision
global_off = record { allowed = false; reason_code = "global_off" }

abbrev block_and_lift : List Change
block_and_lift =
    set_channel "chat" "maintenance" 4 ∷ set_target "alice" "quiet" 5 ∷ lift_channel "chat" 6 ∷ []

decide-changes_example : global_off.allowed ≡ false
unfolding set_global changes block_channel block_target unblock_channel without compute_state decide
decide-changes_example =
    decide-changes block_and_lift off_row off_blocked "chat" "alice" global_off refl refl refl
