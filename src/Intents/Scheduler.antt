-- ===== src/Intents/Scheduler.antt =====
-- The scheduler (intents/scheduler.py): a tick expires the intents whose time is over, then wakes
-- the deferred ones that are due.
pub mod Keeps
use mind_runtime.Base.{
  max_time, length-append, Distinct-append_one, find, last, last-append_one, find-append_one,
  find-All, find-All-false, find-eq-none, some_inj, All-append, ◌>>=◌, ◌>>◌, codes, eq_by, ◌⊗◌,
  pair_eq, key_error, index_error, stop_iteration, overflow_error, integrity_error, length, ℕ, zero,
  suc, ◌+◌, ◌-◌, ◌*◌, ◌≤◌, ◌<◌, String, ◌<>◌, ◌≡◌, refl, sym, ap, subst, ◌∙◌, ◌≢◌, ◌↔◌, ◌⊎◌, inl,
  inr, Bool, true, false, not, ◌&&◌, ◌||◌, Option, none, some, List, [], ◌∷◌, ◌++◌, map, arith,
  eq_iff, ltb, leb, if◌then◌else◌, Bool-cases, Option-cases, Eq, ◌==◌, nat_eq, string_eq, option_eq,
  list_eq, beq_self, Eq-cases, beq_ne, Exc, value_error, assertion_error, Result, ok, raise,
  raise_if, >>=-eq-ok, raise_if-ok, >>-eq-ok, Result-cases, Ensures, Ensures-ok, Ensures-raise,
  Ensures-if, Ensures-bind, Ensures-map, All, All-map, Dict, keys, values, contains, lookup, insert,
  lookup-insert, lookup-insert_self, lookup-insert_ne, keys-insert_old, keys-insert_new,
  contains_of_some, not-contains_of_none, lookup-contains, Distinct, sort_by, All-sort_by,
  Distinct-sort_by, contains-sort_by, text_before, decimal,
}
use mind_runtime.Contracts.{Scope, scope_eq}
use mind_runtime.Intents.Records.{
  IntentStatus, candidate, deferred, expired, status_eq, on_due, policy_eq, Intent,
  IntentTransition, IntentWake, make_intent_wake,
}
use mind_runtime.Intents.Backend.{IntentBackend}
use mind_runtime.Intents.Lifecycle.{Request, transition}

abbrev due_or_max : Option ℕ → ℕ
due_or_max none = max_time
due_or_max (some due) = due

-- The order of `_sort_key`: by the time that is due, then by the id.
unfoldable pub before_by_due : {F : Type 0} → Intent F → Intent F → Bool
before_by_due a b =
    ltb (due_or_max a.due_at) (due_or_max b.due_at)
    || due_or_max a.due_at == due_or_max b.due_at && text_before a.intent_id b.intent_id

-- The time is given and not after `now`.
abbrev pub reached : Option ℕ → ℕ → Bool
reached none now = false
reached (some at) now = leb at now

unfoldable pub is_stale : {F : Type 0} → ℕ → Intent F → Bool
is_stale now intent =
    (intent.status == candidate || intent.status == deferred) && reached intent.expires_at now

unfoldable pub is_due : {F : Type 0} → ℕ → Intent F → Bool
is_due now intent =
    intent.status == deferred
    && intent.reconsideration_policy == on_due
    && reached intent.due_at now

abbrev versioned : {F : Type 0} → String → Intent F → String
versioned prefix intent = prefix <> intent.intent_id <> "-v" <> decimal intent.sync.version

unfoldable pub expiry : {F : Type 0} → Scope → ℕ → Intent F → Request
expiry scope now intent = record {
  scope = scope;
  intent_id = intent.intent_id;
  to_status = expired;
  reason_codes = "scheduler_expired" ∷ [];
  occurred_at = now;
  idempotency_key = versioned "scheduler-expire-" intent;
}

unfoldable pub reconsideration : {F : Type 0} → Scope → ℕ → Intent F → Request
reconsideration scope now intent = record {
  scope = scope;
  intent_id = intent.intent_id;
  to_status = candidate;
  reason_codes = "scheduler_due" ∷ [];
  occurred_at = now;
  idempotency_key = versioned "scheduler-due-" intent;
}

unfoldable pub wake_of : {F : Type 0} → Scope → ℕ → Intent F → Intent F → IntentWake
wake_of scope now intent reconsidered = record {
  wake_id = "wake-" <> intent.intent_id <> "-v" <> decimal reconsidered.sync.version;
  scope = scope;
  intent_id = intent.intent_id;
  reason = "due_reconsideration";
  woken_at = now;
  intent_version = reconsidered.sync.version;
}

module _ {F S : Type 0} (in_unit : F → Bool) (backend : IntentBackend F S) (scope : Scope)
    (now : ℕ) where
  -- The first loop: the ids of the intents that it has expired.
  unfoldable pub expire_all : List (Intent F) → S → Result (List String × S)
  expire_all [] s = ok ([], s)
  expire_all (intent ∷ rest) s =
      if is_stale now intent
      then (transition in_unit backend (expiry scope now intent) s >>= λ p.
          expire_all rest p.1 >>= λ q. ok (intent.intent_id ∷ q.0, q.1))
      else expire_all rest s

  -- The second loop: the wakes of the intents that are due and have not expired.
  unfoldable pub wake_all : List String → List (Intent F) → S → Result (List IntentWake × S)
  wake_all expired_ids [] s = ok ([], s)
  wake_all expired_ids (intent ∷ rest) s =
      if contains intent.intent_id expired_ids || not (is_due now intent)
      then wake_all expired_ids rest s
      else (transition in_unit backend (reconsideration scope now intent) s >>= λ p.
          make_intent_wake (wake_of scope now intent p.0) >>= λ wake.
          wake_all expired_ids rest p.1 >>= λ q. ok (wake ∷ q.0, q.1))

  unfoldable pub tick : S → Result (List IntentWake × S)
  tick s = backend.current scope s >>= λ unsorted.
      let intents = sort_by before_by_due unsorted in
      expire_all intents s >>= λ p. wake_all p.0 intents p.1
