-- ===== src/Intents/Memory.antt =====
-- The backend in memory (`InMemoryIntentBackend` of intents/persistence.py). A method returns its value with the snapshot after it, or
-- raises; the one assignment of `_commit` is the snapshot that is returned.
pub mod Invariant
use mind_runtime.Base.{
  find, last, last-append_one, find-append_one, find-All, find-All-false, find-eq-none, some_inj,
  All-append, ◌>>=◌, ◌>>◌, codes, eq_by, ◌⊗◌, pair_eq, key_error, index_error, stop_iteration,
  overflow_error, integrity_error, length, ℕ, zero, suc, ◌+◌, ◌-◌, ◌*◌, ◌≤◌, ◌<◌, String, ◌<>◌, ◌≡◌,
  refl, sym, ap, subst, ◌∙◌, ◌≢◌, ◌↔◌, ◌⊎◌, inl, inr, Bool, true, false, not, ◌&&◌, ◌||◌, Option,
  none, some, List, [], ◌∷◌, ◌++◌, map, arith, eq_iff, ltb, leb, if◌then◌else◌, Bool-cases,
  Option-cases, Eq, ◌==◌, nat_eq, string_eq, option_eq, list_eq, beq_self, Eq-cases, beq_ne, Exc,
  value_error, assertion_error, Result, ok, raise, raise_if, >>=-eq-ok, raise_if-ok, >>-eq-ok,
  Result-cases, Ensures, Ensures-ok, Ensures-raise, Ensures-if, Ensures-bind, Ensures-map, All,
  All-map, Dict, keys, values, contains, lookup, insert, lookup-insert, lookup-insert_self,
  lookup-insert_ne, keys-insert_old, keys-insert_new, contains_of_some, not-contains_of_none,
  lookup-contains, Distinct, sort_by, All-sort_by, Distinct-sort_by, contains-sort_by, text_before,
  decimal,
}
use mind_runtime.Contracts.{Scope, scope_eq, SyncFields, sync_fields_eq}
use mind_runtime.Intents.Records.{
  IntentStatus, candidate, status_eq, Intent, IntentTransition, make_intent,
}
use mind_runtime.Intents.Backend.{
  IntentKey, key_of, has_key, at_version, describes, validate_transition_shape,
}
use mind_runtime.Intents.Equality.{intent_eq, transition_eq}

pub record MemorySnapshot (F : Type 0) : Type 0 where
  pub current : Dict IntentKey (Intent F)
  pub history : Dict IntentKey (List (Intent F))
  pub transitions : Dict IntentKey (List IntentTransition)

module _ {F : Type 0} ⦃float_eq : Eq F⦄ where
  -- An intent that is admitted again: it has to be the one that was admitted.
  unfoldable pub admit_again : Intent F → List (Intent F) → Result (Intent F)
  admit_again intent [] = raise index_error
  admit_again intent (existing ∷ rest) =
      raise_if (not (has_key intent.sync.idempotency_key existing)) value_error
      >> raise_if (not (existing == intent)) value_error
      >> ok existing

  unfoldable pub append_initial : Intent F → MemorySnapshot F → Result (Intent F × MemorySnapshot F)
  append_initial intent s = do
    raise_if (not (intent.status == candidate) || not (intent.sync.version == 1)) value_error
    elim (lookup (key_of intent) s.history) [
      | some existing_history ↦ admit_again intent existing_history >>= λ existing. ok (existing, s)
      | none ↦ ok (
        intent,
        record {
          current = insert (key_of intent) intent s.current;
          history = insert (key_of intent) (intent ∷ []) s.history;
          transitions = insert (key_of intent) [] s.transitions;
        },
      )
    ]

  -- A transition whose key is in the history: it has to be the one that is recorded.
  unfoldable pub replay_of :
      Intent F → IntentTransition → Intent F → List IntentTransition → Result (Intent F)
  replay_of after transition replay existing_transitions =
      raise_if
        (not (
          replay == after
          && find (at_version replay.sync.version) existing_transitions == some transition))
        value_error
      >> ok replay

  unfoldable pub apply_transition :
      (F → Bool)
      → Intent F
      → Intent F
      → IntentTransition
      → MemorySnapshot F
      → Result (Intent F × MemorySnapshot F)
  apply_transition in_unit before after transition s = elim (lookup (key_of before) s.history) [
    | none ↦ raise key_error
    | some history ↦ elim (lookup (key_of before) s.transitions) [
      | none ↦ raise key_error
      | some existing_transitions ↦ elim (find (has_key after.sync.idempotency_key) history) [
        | some replay ↦
            replay_of after transition replay existing_transitions >>= λ returned. ok (returned, s)
        | none ↦
            validate_transition_shape in_unit before after transition
              (lookup (key_of before) s.current)
            >> ok (
              after,
              record {
                current = insert (key_of before) after s.current;
                history = insert (key_of before) (history ++ (after ∷ [])) s.history;
                transitions =
                    insert (key_of before) (existing_transitions ++ (transition ∷ []))
                      s.transitions;
              },
            )
      ]
    ]
  ]

-- `sorted(self._snapshot.current.items(), key=...)` goes by the intent's id alone.
abbrev pub before_by_id : {F : Type 0} → IntentKey × Intent F → IntentKey × Intent F → Bool
before_by_id ((s, i), x) ((t, j), y) = text_before i j

abbrev pub in_scope : {F : Type 0} → Scope → Dict IntentKey (Intent F) → List (Intent F)
in_scope scope [] = []
in_scope scope (((s, i), intent) ∷ rest) =
    let others = in_scope scope rest in if s == scope then intent ∷ others else others

unfoldable pub current : {F : Type 0} → Scope → MemorySnapshot F → Result (List (Intent F))
current scope s = ok (in_scope scope (sort_by before_by_id s.current))

abbrev pub or_key_error : {A : Type 0} → Option A → Result A
or_key_error none = raise key_error
or_key_error (some a) = ok a

unfoldable pub history : {F : Type 0} → Scope → String → MemorySnapshot F → Result (List (Intent F))
history scope intent_id s = or_key_error (lookup (scope, intent_id) s.history)

unfoldable pub transitions :
    {F : Type 0} → Scope → String → MemorySnapshot F → Result (List IntentTransition)
transitions scope intent_id s = or_key_error (lookup (scope, intent_id) s.transitions)

abbrev pub empty_snapshot : {F : Type 0} → MemorySnapshot F
empty_snapshot = record { current = []; history = []; transitions = [] }
