-- ===== src/Intents/Sqlite.antt =====
-- The durable backend (`SqliteIntentBackend` of intents/persistence.py). A row holds the object that
-- its columns spell; a scope that has passed its checks has no empty text, so its columns tell it
-- apart. A transaction that fails leaves the tables. Opening the file is not modelled.
pub mod Rows
pub mod Invariant
use mind_runtime.Base.{
  lookup-append_new, keys-append, contains-append, insert_new, erase-append, erase-absent,
  contains-erase, erase, contains-append_one, append_assoc, append-nil, and_true, true_and, Member,
  Member-sort_by, Member-lookup, length-append, Distinct-append_one, find, last, last-append_one,
  find-append_one, find-All, find-All-false, find-eq-none, some_inj, All-append, ◌>>=◌, ◌>>◌, codes,
  eq_by, ◌⊗◌, pair_eq, key_error, index_error, stop_iteration, overflow_error, integrity_error,
  length, ℕ, zero, suc, ◌+◌, ◌-◌, ◌*◌, ◌≤◌, ◌<◌, String, ◌<>◌, ◌≡◌, refl, sym, ap, subst, ◌∙◌, ◌≢◌,
  ◌↔◌, ◌⊎◌, inl, inr, Bool, true, false, not, ◌&&◌, ◌||◌, Option, none, some, List, [], ◌∷◌, ◌++◌,
  map, arith, eq_iff, ltb, leb, if◌then◌else◌, Bool-cases, Option-cases, Eq, ◌==◌, nat_eq,
  string_eq, option_eq, list_eq, beq_self, Eq-cases, beq_ne, Exc, value_error, assertion_error,
  Result, ok, raise, raise_if, >>=-eq-ok, raise_if-ok, >>-eq-ok, Result-cases, Ensures, Ensures-ok,
  Ensures-raise, Ensures-if, Ensures-bind, Ensures-map, All, All-map, Dict, keys, values, contains,
  lookup, insert, lookup-insert, lookup-insert_self, lookup-insert_ne, keys-insert_old,
  keys-insert_new, contains_of_some, not-contains_of_none, lookup-contains, Distinct, sort_by,
  All-sort_by, Distinct-sort_by, contains-sort_by, text_before, decimal,
}
use mind_runtime.Contracts.{Scope, scope_eq, SyncFields, sync_fields_eq}
use mind_runtime.Intents.Records.{IntentStatus, candidate, status_eq, Intent, IntentTransition}
use mind_runtime.Intents.Backend.{IntentKey, key_of, has_key, at_version, validate_transition_shape}
use mind_runtime.Intents.Memory.{admit_again, replay_of}

-- The tables, their rows in the order of insertion.
pub record IntentTables (F : Type 0) : Type 0 where
  pub intents : List (Intent F)
  pub intent_transitions : List IntentTransition

-- The rows that `WHERE` takes.
abbrev pub select : {A : Type 0} → (A → Bool) → List A → List A
select test [] = []
select test (x ∷ xs) = let rest = select test xs in if test x then x ∷ rest else rest

abbrev pub exists : {A : Type 0} → (A → Bool) → List A → Bool
exists test [] = false
exists test (x ∷ xs) = test x || exists test xs

abbrev pub is_of : {F : Type 0} → IntentKey → Intent F → Bool
is_of (scope, intent_id) i = i.scope == scope && i.intent_id == intent_id

abbrev pub moves_of : IntentKey → IntentTransition → Bool
moves_of (scope, intent_id) t = t.scope == scope && t.intent_id == intent_id

-- `ORDER BY version`
abbrev pub by_version : {F : Type 0} → Intent F → Intent F → Bool
by_version a b = leb a.sync.version b.sync.version

abbrev pub by_transition_version : IntentTransition → IntentTransition → Bool
by_transition_version a b = leb a.version b.version

unfoldable pub history_or_empty : {F : Type 0} → IntentKey → IntentTables F → List (Intent F)
history_or_empty k t = sort_by by_version (select (is_of k) t.intents)

unfoldable pub transition_rows : {F : Type 0} → IntentKey → IntentTables F → List IntentTransition
transition_rows k t = sort_by by_transition_version (select (moves_of k) t.intent_transitions)

-- `_insert_intent`, with the primary key and the unique key of the table.
unfoldable pub insert_intent : {F : Type 0} → Intent F → IntentTables F → Result (IntentTables F)
insert_intent i t = do
  raise_if (exists (λ j. is_of (key_of i) j && j.sync.version == i.sync.version) t.intents)
      integrity_error
  raise_if (exists (λ j. is_of (key_of i) j && has_key i.sync.idempotency_key j) t.intents)
      integrity_error
  ok (record t { intents = t.intents ++ (i ∷ []) })

-- `_insert_transition`, with its primary key, its unique key and its foreign key.
unfoldable pub insert_transition :
    {F : Type 0} → IntentTransition → IntentTables F → Result (IntentTables F)
insert_transition m t = do
  raise_if
      (exists (λ n. n.scope == m.scope && n.transition_id == m.transition_id) t.intent_transitions)
      integrity_error
  raise_if
      (exists (λ n. moves_of (m.scope, m.intent_id) n && n.version == m.version)
        t.intent_transitions)
      integrity_error
  raise_if
      (not (exists (λ i. is_of (m.scope, m.intent_id) i && i.sync.version == m.version) t.intents))
      integrity_error
  ok (record t { intent_transitions = t.intent_transitions ++ (m ∷ []) })

-- The rows in the order of the query: a later version of an intent takes the place of an earlier one.
abbrev latest_of : {F : Type 0} → Dict String (Intent F) → List (Intent F) → Dict String (Intent F)
latest_of d [] = d
latest_of d (i ∷ rest) = latest_of (insert i.intent_id i d) rest

abbrev by_id_version : {F : Type 0} → Intent F → Intent F → Bool
by_id_version a b =
    if a.intent_id == b.intent_id then by_version a b else text_before a.intent_id b.intent_id

abbrev by_name : {F : Type 0} → String × Intent F → String × Intent F → Bool
by_name (a, i) (b, j) = text_before a b

unfoldable pub current : {F : Type 0} → Scope → IntentTables F → Result (List (Intent F))
current scope t = ok (
    values (
      sort_by by_name
        (latest_of [] (sort_by by_id_version (select (λ i. i.scope == scope) t.intents)))))

abbrev pub non_empty : {A : Type 0} → List A → Result (List A)
non_empty [] = raise key_error
non_empty (x ∷ xs) = ok (x ∷ xs)

unfoldable pub history : {F : Type 0} → Scope → String → IntentTables F → Result (List (Intent F))
history scope intent_id t = non_empty (history_or_empty (scope, intent_id) t)

unfoldable pub transitions :
    {F : Type 0} → Scope → String → IntentTables F → Result (List IntentTransition)
transitions scope intent_id t = elim (transition_rows (scope, intent_id) t) [
  | [] ↦ non_empty (history_or_empty (scope, intent_id) t) >> ok []
  | m ∷ ms ↦ ok (m ∷ ms)
]

-- The transaction that stores a new version and its transition.
unfoldable pub store_move :
    {F : Type 0} → Intent F → IntentTransition → IntentTables F → Result (Intent F × IntentTables F)
store_move after transition t = do
  with_version ← insert_intent after t
  with_move ← insert_transition transition with_version
  ok (after, with_move)

module _ {F : Type 0} ⦃float_eq : Eq F⦄ where
  unfoldable pub append_initial : Intent F → IntentTables F → Result (Intent F × IntentTables F)
  append_initial intent t = do
    raise_if (not (intent.status == candidate) || not (intent.sync.version == 1)) value_error
    elim (history_or_empty (key_of intent) t) [
      | [] ↦ insert_intent intent t >>= λ stored. ok (intent, stored)
      | first ∷ rest ↦ admit_again intent (first ∷ rest) >>= λ existing. ok (existing, t)
    ]

  unfoldable pub apply_transition :
      (F → Bool)
      → Intent F
      → Intent F
      → IntentTransition
      → IntentTables F
      → Result (Intent F × IntentTables F)
  apply_transition in_unit before after transition t =
      elim (find (λ i. is_of (key_of after) i && has_key after.sync.idempotency_key i) t.intents) [
        | some replay ↦
            replay_of after transition replay
              (select (moves_of (key_of replay)) t.intent_transitions)
            >>= λ returned. ok (returned, t)
        | none ↦
            validate_transition_shape in_unit before after transition
              (last (history_or_empty (key_of before) t))
            >>= λ shaped. store_move after transition t
      ]
