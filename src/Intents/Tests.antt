-- ===== src/Intents/Tests.antt =====
-- The theorems of the intents at one that is admitted, deferred and then over. The floats are
-- natural numbers, and those up to 100 count as in range.
use mind_runtime.Base.{
  is_blank, option_eqb, list_eqb, pair_eqb, place, lookup-append_new, keys-append, contains-append,
  insert_new, erase-append, erase-absent, contains-erase, erase, contains-append_one, append_assoc,
  append-nil, and_true, true_and, Member, Member-sort_by, Member-lookup, length-append,
  Distinct-append_one, find, last, last-append_one, find-append_one, find-All, find-All-false,
  find-eq-none, some_inj, All-append, ◌>>=◌, ◌>>◌, codes, eq_by, ◌⊗◌, pair_eq, key_error,
  index_error, stop_iteration, overflow_error, integrity_error, length, ℕ, zero, suc, ◌+◌, ◌-◌, ◌*◌,
  ◌≤◌, ◌<◌, String, ◌<>◌, ◌≡◌, refl, sym, ap, subst, ◌∙◌, ◌≢◌, ◌↔◌, ◌⊎◌, inl, inr, Bool, true,
  false, not, ◌&&◌, ◌||◌, Option, none, some, List, [], ◌∷◌, ◌++◌, map, arith, eq_iff, ltb, leb,
  if◌then◌else◌, Bool-cases, Option-cases, Eq, ◌==◌, nat_eq, string_eq, option_eq, list_eq,
  beq_self, Eq-cases, beq_ne, Exc, value_error, assertion_error, Result, ok, raise, raise_if,
  >>=-eq-ok, raise_if-ok, >>-eq-ok, Result-cases, Ensures, Ensures-ok, Ensures-raise, Ensures-if,
  Ensures-bind, Ensures-map, All, All-map, Dict, keys, values, contains, lookup, insert,
  lookup-insert, lookup-insert_self, lookup-insert_ne, keys-insert_old, keys-insert_new,
  contains_of_some, not-contains_of_none, lookup-contains, Distinct, sort_by, All-sort_by,
  Distinct-sort_by, contains-sort_by, text_before, decimal,
}
use mind_runtime.Contracts.{
  Scope, ScopeDomain, scope_eq, SyncFields, require_non_empty, freeze_refs, validate_sync_fields,
}
use mind_runtime.Intents.Records.{
  IntentWake, candidate, deferred, expired, status_eq, on_due, Intent, check_intent, make_intent,
  check_intent_transition, make_intent_transition,
}
use mind_runtime.Intents.Equality.{intent_eq, transition_eq}
use mind_runtime.Intents.Backend.{key_of, validate_transition_shape}
use mind_runtime.Intents.Memory.{
  MemorySnapshot, append_initial, apply_transition, replay_of, history, empty_snapshot,
}
use mind_runtime.Intents.Memory.Invariant.{stored_at}
use mind_runtime.Intents.Lifecycle.{
  Request, legal, next_of, recorded_of, admit, replay, advance, transition,
}
use mind_runtime.Intents.Scheduler.{tick}
use mind_runtime.Intents.Runs.{ReachableBy, ticked, started, admitted_one, transitioned}
use mind_runtime.Intents.Service.{memory_backend, Reachable, Recorded, history-Recorded}
use mind_runtime.Intents.Replays.{transition_again}
use mind_runtime.Intents.Successes.{transition-returns}
use mind_runtime.Intents.Ticks.{tick-unexpired}
use mind_runtime.Intents.Finals.{Unchanged, final-Unchanged}
use mind_runtime.Intents.Durable.{sqlite_backend, empty_tables, Stored, history-Stored}
use mind_runtime.Intents.Sqlite.{IntentTables}

abbrev alice : Scope
alice = record {
  domain = ScopeDomain.user;
  user_id = some "alice";
  agent_id = none;
  persona_id = none;
  relationship_id = none;
  world_id = none;
  interaction_id = none;
}

abbrev percent : ℕ → Bool
percent n = leb n 100

abbrev call : Intent ℕ
call = record {
  intent_id = "call";
  scope = alice;
  origin_runtime_id = "runtime";
  kind = "check_in";
  strength = 40;
  earliest_at = some 10;
  due_at = some 20;
  expires_at = some 30;
  reconsideration_policy = on_due;
  cause_refs = [];
  state_refs = [];
  status = candidate;
  sync = record {
    scope = alice;
    origin_runtime_id = "runtime";
    object_id = "call";
    version = 1;
    idempotency_key = "admit";
  };
  surface_use = none;
}

abbrev later : Request
later = record {
  scope = alice;
  intent_id = "call";
  to_status = deferred;
  reason_codes = "busy" ∷ [];
  occurred_at = 5;
  idempotency_key = "later";
}

abbrev one_call : MemorySnapshot ℕ
one_call = stored_at (key_of call) call (call ∷ []) [] empty_snapshot

abbrev put_off : MemorySnapshot ℕ
put_off =
    stored_at (key_of call) (next_of later call) (call ∷ next_of later call ∷ [])
      (recorded_of later call ∷ []) one_call

one_call-eq : admit percent (memory_backend percent) call empty_snapshot ≡ ok (call, one_call)
unfolding admit append_initial
one_call-eq = refl

one_call-Reachable : Reachable percent one_call
one_call-Reachable = admitted_one call call empty_snapshot one_call started one_call-eq

later-checked : check_intent percent (next_of later call) ≡ ok tt
unfolding check_intent is_blank freeze_refs validate_sync_fields mind_runtime.Contracts.scope_eqb
    option_eqb
later-checked = refl

later-recorded : check_intent_transition (recorded_of later call) ≡ ok tt
unfolding check_intent_transition is_blank decimal freeze_refs validate_sync_fields
    mind_runtime.Contracts.scope_eqb option_eqb
later-recorded = refl

put_off-eq :
    transition percent (memory_backend percent) later one_call ≡ ok (next_of later call, put_off)
unfolding transition advance is_blank history pair_eqb mind_runtime.Contracts.scope_eqb option_eqb
    legal make_intent check_intent freeze_refs validate_sync_fields make_intent_transition
    check_intent_transition decimal apply_transition validate_transition_shape list_eqb
put_off-eq = refl

put_off-Reachable : Reachable percent put_off
put_off-Reachable =
    transitioned later (next_of later call) one_call put_off one_call-Reachable put_off-eq

history-Recorded_example : Recorded percent alice "call" (call ∷ next_of later call ∷ []) put_off
unfolding history pair_eqb mind_runtime.Contracts.scope_eqb option_eqb
history-Recorded_example =
    history-Recorded percent alice "call" put_off (call ∷ next_of later call ∷ []) put_off-Reachable
      refl

transition_again_example :
    transition percent (memory_backend percent) later put_off ≡ ok (next_of later call, put_off)
transition_again_example =
    transition_again percent later one_call put_off (next_of later call) one_call-Reachable
      put_off-eq

transition-returns_example :
    (t : MemorySnapshot ℕ) × (transition percent (memory_backend percent) later one_call
      ≡ ok (next_of later call, t))
    × (history alice "call" t ≡ ok (call ∷ next_of later call ∷ []))
unfolding history pair_eqb mind_runtime.Contracts.scope_eqb option_eqb is_blank legal
transition-returns_example =
    transition-returns percent later one_call (call ∷ []) call one_call-Reachable refl refl refl
      (record {
        wellformed = record { has_id = refl; has_key_text = refl };
        legal_move = refl;
        next_ok = later-checked;
        recorded_ok = later-recorded;
      })

abbrev one_row : IntentTables ℕ
one_row = record { intents = call ∷ []; intent_transitions = [] }

abbrev two_rows : IntentTables ℕ
two_rows = record {
  intents = call ∷ next_of later call ∷ [];
  intent_transitions = recorded_of later call ∷ [];
}

one_row-eq : admit percent (sqlite_backend percent) call empty_tables ≡ ok (call, one_row)
unfolding admit mind_runtime.Intents.Sqlite.append_initial
    mind_runtime.Intents.Sqlite.history_or_empty mind_runtime.Intents.Sqlite.insert_intent
one_row-eq = refl

two_rows-eq :
    transition percent (sqlite_backend percent) later one_row ≡ ok (next_of later call, two_rows)
unfolding transition advance is_blank mind_runtime.Intents.Sqlite.history
    mind_runtime.Intents.Sqlite.history_or_empty mind_runtime.Contracts.scope_eqb option_eqb legal
    make_intent check_intent freeze_refs validate_sync_fields make_intent_transition
    check_intent_transition decimal mind_runtime.Intents.Sqlite.apply_transition
    validate_transition_shape pair_eqb list_eqb mind_runtime.Base.decimal_from
    mind_runtime.Base.digit_text replay replay_of mind_runtime.Intents.Sqlite.insert_intent
    mind_runtime.Intents.Sqlite.insert_transition mind_runtime.Intents.Sqlite.store_move
two_rows-eq = refl

two_rows-Reachable : ReachableBy percent (sqlite_backend percent) empty_tables two_rows
two_rows-Reachable =
    transitioned later (next_of later call) one_row two_rows
      (admitted_one call call empty_tables one_row started one_row-eq) two_rows-eq

history-Stored_example : Stored percent alice "call" (call ∷ next_of later call ∷ []) two_rows
unfolding mind_runtime.Intents.Sqlite.history mind_runtime.Intents.Sqlite.history_or_empty
    mind_runtime.Contracts.scope_eqb option_eqb
history-Stored_example =
    history-Stored percent alice "call" two_rows (call ∷ next_of later call ∷ []) two_rows-Reachable
      refl

abbrev over : Request
over = record {
  scope = alice;
  intent_id = "call";
  to_status = expired;
  reason_codes = "scheduler_expired" ∷ [];
  occurred_at = 30;
  idempotency_key = "scheduler-expire-call-v2";
}

abbrev past : MemorySnapshot ℕ
past =
    stored_at (key_of call) (next_of over (next_of later call))
      (call ∷ next_of later call ∷ next_of over (next_of later call) ∷ [])
      (recorded_of later call ∷ recorded_of over (next_of later call) ∷ []) put_off

-- The tick of the scheduler at the end of the intent's time expires it.
past-eq : tick percent (memory_backend percent) alice 30 put_off ≡ ok ([], past)
unfolding tick mind_runtime.Intents.Memory.current mind_runtime.Intents.Scheduler.expire_all
    pair_eqb mind_runtime.Contracts.scope_eqb option_eqb mind_runtime.Intents.Scheduler.is_stale
    transition is_blank mind_runtime.Intents.Scheduler.expiry decimal history advance legal
    make_intent check_intent freeze_refs validate_sync_fields list_eqb text_before
    mind_runtime.Base.decimal_from mind_runtime.Base.digit_text replay check_intent_transition
    make_intent_transition mind_runtime.Intents.Records.make_intent_wake
    mind_runtime.Intents.Scheduler.before_by_due mind_runtime.Intents.Scheduler.is_due
    mind_runtime.Intents.Scheduler.reconsideration mind_runtime.Intents.Scheduler.wake_all
    mind_runtime.Intents.Scheduler.wake_of mind_runtime.Intents.Memory.apply_transition
    validate_transition_shape
past-eq = refl

past-Reachable : Reachable percent past
past-Reachable = ticked alice 30 [] put_off past put_off-Reachable past-eq

-- A tick at an even later time, from there.
past-later : tick percent (memory_backend percent) alice 40 past ≡ ok ([], past)
unfolding tick mind_runtime.Intents.Memory.current mind_runtime.Intents.Scheduler.expire_all
    pair_eqb mind_runtime.Contracts.scope_eqb option_eqb mind_runtime.Intents.Scheduler.is_stale
    transition is_blank mind_runtime.Intents.Scheduler.expiry decimal history advance legal
    make_intent check_intent freeze_refs validate_sync_fields list_eqb text_before
    mind_runtime.Base.decimal_from mind_runtime.Base.digit_text replay check_intent_transition
    make_intent_transition mind_runtime.Intents.Records.make_intent_wake
    mind_runtime.Intents.Scheduler.before_by_due mind_runtime.Intents.Scheduler.is_due
    mind_runtime.Intents.Scheduler.reconsideration mind_runtime.Intents.Scheduler.wake_all
    mind_runtime.Intents.Scheduler.wake_of mind_runtime.Intents.Memory.apply_transition
    validate_transition_shape
past-later = refl

final-Unchanged_example : Unchanged (alice, "call") past past
unfolding pair_eqb mind_runtime.Contracts.scope_eqb option_eqb
final-Unchanged_example =
    final-Unchanged percent alice "call" (next_of over (next_of later call)) past past
      past-Reachable refl refl (ticked alice 40 [] past past started past-later)

abbrev again : Request
again = record {
  scope = alice;
  intent_id = "call";
  to_status = candidate;
  reason_codes = "scheduler_due" ∷ [];
  occurred_at = 20;
  idempotency_key = "scheduler-due-call-v2";
}

abbrev due : MemorySnapshot ℕ
due =
    stored_at (key_of call) (next_of again (next_of later call))
      (call ∷ next_of later call ∷ next_of again (next_of later call) ∷ [])
      (recorded_of later call ∷ recorded_of again (next_of later call) ∷ []) put_off

abbrev wake : IntentWake
wake = record {
  wake_id = "wake-call-v3";
  scope = alice;
  intent_id = "call";
  reason = "due_reconsideration";
  woken_at = 20;
  intent_version = 3;
}

-- The tick at the intent's due time wakes it.
due-eq : tick percent (memory_backend percent) alice 20 put_off ≡ ok (wake ∷ [], due)
unfolding tick mind_runtime.Intents.Memory.current mind_runtime.Intents.Scheduler.expire_all
    pair_eqb mind_runtime.Contracts.scope_eqb option_eqb mind_runtime.Intents.Scheduler.is_stale
    transition is_blank mind_runtime.Intents.Scheduler.expiry decimal history advance legal
    make_intent check_intent freeze_refs validate_sync_fields list_eqb text_before
    mind_runtime.Base.decimal_from mind_runtime.Base.digit_text replay check_intent_transition
    make_intent_transition mind_runtime.Intents.Records.make_intent_wake
    mind_runtime.Intents.Scheduler.before_by_due mind_runtime.Intents.Scheduler.is_due
    mind_runtime.Intents.Scheduler.reconsideration mind_runtime.Intents.Scheduler.wake_all
    mind_runtime.Intents.Scheduler.wake_of mind_runtime.Intents.Memory.apply_transition
    validate_transition_shape
due-eq = refl

tick-unexpired_example : 20 < 30
unfolding pair_eqb mind_runtime.Contracts.scope_eqb option_eqb
tick-unexpired_example =
    tick-unexpired percent alice 20 put_off (wake ∷ [], due) "call"
      (next_of again (next_of later call)) 30 put_off-Reachable due-eq refl (inl refl) refl
