-- ===== src/Intents/Lifecycle.antt =====
-- The lifecycle service (intents/lifecycle.py): which moves are legal, and a transition that
-- prepares the next version of an intent and leaves the storing to a backend. `S` is the state of
-- the backend.
pub mod Keeps
pub mod Refusals
use mind_runtime.Base.{
  find, last, last-append_one, find-append_one, find-All, find-All-false, find-eq-none, some_inj,
  All-append, ◌>>=◌, ◌>>◌, codes, eq_by, ◌⊗◌, pair_eq, key_error, index_error, stop_iteration,
  overflow_error, integrity_error, length, ℕ, zero, suc, ◌+◌, ◌-◌, ◌*◌, ◌≤◌, ◌<◌, String, ◌<>◌, ◌≡◌,
  refl, sym, ap, subst, ◌∙◌, ◌≢◌, ◌↔◌, ◌⊎◌, inl, inr, Bool, true, false, not, ◌&&◌, ◌||◌, Option,
  none, some, List, [], ◌∷◌, ◌++◌, map, arith, eq_iff, ltb, leb, if◌then◌else◌, Bool-cases,
  Option-cases, Eq, ◌==◌, nat_eq, string_eq, option_eq, list_eq, beq_self, Eq-cases, beq_ne, Exc,
  value_error, assertion_error, Result, ok, raise, raise_if, >>=-eq-ok, raise_if-ok, >>-eq-ok,
  Result-cases, Ensures, Ensures-ok, Ensures-raise, Ensures-if, Ensures-bind, Ensures-map, All,
  All-map, Dict, keys, values, contains, lookup, insert, lookup-insert, lookup-insert_self,
  lookup-insert_ne, keys-insert_old, keys-insert_new, contains_of_some, not-contains_of_none,
  lookup-contains, Distinct, sort_by, All-sort_by, Distinct-sort_by, contains-sort_by, text_before,
  decimal,
}
use mind_runtime.Contracts.{Scope, scope_eq, SyncFields, sync_fields_eq, require_non_empty}
use mind_runtime.Intents.Records.{
  IntentStatus, candidate, deferred, allowed, blocked, expired, completed, superseded, status_eq,
  Intent, IntentTransition, make_intent, make_intent_transition,
}
use mind_runtime.Intents.Backend.{has_key, at_version, IntentBackend}
use mind_runtime.Intents.Equality.{intent_eq, transition_eq}

-- `to_status in _LEGAL_TRANSITIONS.get(before, frozenset())`
unfoldable pub legal : IntentStatus → IntentStatus → Bool
legal candidate allowed = true
legal candidate deferred = true
legal candidate blocked = true
legal candidate expired = true
legal candidate superseded = true
legal deferred candidate = true
legal deferred expired = true
legal deferred superseded = true
legal allowed completed = true
legal allowed superseded = true
legal _ _ = false

-- The arguments of a transition.
pub record Request : Type 0 where
  pub scope : Scope
  pub intent_id : String
  pub to_status : IntentStatus
  pub reason_codes : List String
  pub occurred_at : ℕ
  pub idempotency_key : String

unfoldable pub is_initial_candidate : {F : Type 0} → Intent F → Bool
is_initial_candidate intent = intent.status == candidate && intent.sync.version == 1

abbrev pub transition_id : String → ℕ → String
transition_id intent_id version = "intent-transition-" <> intent_id <> "-v" <> decimal version

-- The version of the intent that a transition makes, before its checks.
abbrev pub next_of : {F : Type 0} → Request → Intent F → Intent F
next_of r before = record before {
  status = r.to_status;
  sync = record {
    scope = r.scope;
    origin_runtime_id = before.origin_runtime_id;
    object_id = r.intent_id;
    version = before.sync.version + 1;
    idempotency_key = r.idempotency_key;
  };
}

abbrev pub recorded_of : {F : Type 0} → Request → Intent F → IntentTransition
recorded_of r before = record {
  transition_id = transition_id r.intent_id (before.sync.version + 1);
  scope = r.scope;
  origin_runtime_id = before.origin_runtime_id;
  intent_id = r.intent_id;
  from_status = before.status;
  to_status = r.to_status;
  reason_codes = r.reason_codes;
  occurred_at = r.occurred_at;
  version = before.sync.version + 1;
  sync = record {
    scope = r.scope;
    origin_runtime_id = before.origin_runtime_id;
    object_id = transition_id r.intent_id (before.sync.version + 1);
    version = before.sync.version + 1;
    idempotency_key = r.idempotency_key;
  };
}

-- `history[1:]` and `history[-1]`
abbrev pub after_first : {A : Type 0} → List A → List A
after_first [] = []
after_first (x ∷ xs) = xs

abbrev pub last_entry : {A : Type 0} → List A → Result A
last_entry xs = elim (last xs) [ none ↦ raise index_error | some x ↦ ok x ]

-- `next(item for item in ...)`: without an item it raises.
abbrev pub next_at : ℕ → List IntentTransition → Result IntentTransition
next_at version items = elim (find (at_version version) items) [
  | none ↦ raise stop_iteration
  | some item ↦ ok item
]

-- A recorded transition answers a request if it has its target and its reasons.
abbrev pub answers : Request → IntentTransition → Bool
answers r t = t.to_status == r.to_status && t.reason_codes == r.reason_codes

module _ {F S : Type 0} (in_unit : F → Bool) (backend : IntentBackend F S) where
  unfoldable pub admit : Intent F → S → Result (Intent F × S)
  admit intent s =
      raise_if (not (intent.status == candidate) || not (intent.sync.version == 1)) value_error
      >> backend.append_initial intent s

  -- The history has a version with the key of the request.
  unfoldable pub replay : Request → Intent F → S → Result (Intent F × S)
  replay r existing s = do
    items ← backend.transitions r.scope r.intent_id s
    existing_transition ← next_at existing.sync.version items
    raise_if (not (answers r existing_transition)) value_error
    ok (existing, s)

  unfoldable pub advance : Request → Intent F → S → Result (Intent F × S)
  advance r before s = do
    raise_if (not (legal before.status r.to_status)) value_error
    after ← make_intent in_unit (next_of r before)
    recorded ← make_intent_transition (recorded_of r before)
    backend.apply_transition before after recorded s

  unfoldable pub transition : Request → S → Result (Intent F × S)
  transition r s = do
    require_non_empty r.intent_id
    require_non_empty r.idempotency_key
    history ← backend.history r.scope r.intent_id s
    elim (find (has_key r.idempotency_key) (after_first history)) [
      | some existing ↦ replay r existing s
      | none ↦ last_entry history >>= λ before. advance r before s
    ]
