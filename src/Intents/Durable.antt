-- ===== src/Intents/Durable.antt =====
-- The lifecycle service and the scheduler on the durable backend.
use mind_runtime.Base.{
  find, last, ◌>>◌, pair_eq, String, ◌≡◌, refl, sym, ap, subst, ◌∙◌, ◌⊎◌, inl, inr, Bool, true, not,
  ◌&&◌, ◌||◌, some, List, [], ◌∷◌, ◌++◌, Option-cases, Eq, ◌==◌, nat_eq, string_eq, option_eq,
  list_eq, value_error, Result, ok, raise_if, raise_if-ok, Ensures, Ensures-ok, Ensures-bind,
  Ensures-map, All, Distinct,
}
use mind_runtime.Contracts.{Scope, scope_eq}
use mind_runtime.Intents.Records.{IntentStatus, candidate, status_eq, Intent, IntentTransition}
use mind_runtime.Intents.Backend.{IntentBackend, key_of, has_key, validate_transition_shape}
use mind_runtime.Intents.Histories.{
  History, SameFacts, numbered_from, key_list, History-last, History-numbered, History-keys,
  History-facts,
}
use mind_runtime.Intents.Fits.{validate_transition_shape-Fits}
use mind_runtime.Intents.Memory.{admit_again, replay_of}
use mind_runtime.Intents.Memory.Invariant.{replay_of-after, is_initial}
use mind_runtime.Intents.Lifecycle.Keeps.{Legal, KeepsMoves}
use mind_runtime.Intents.Runs.{ReachableBy, ReachableBy-Kept}
use mind_runtime.Intents.Sqlite.{
  IntentTables, select, is_of, moves_of, history_or_empty, transition_rows, insert_intent,
  insert_transition, current, history, transitions, non_empty, append_initial, store_move,
  apply_transition,
}
use mind_runtime.Intents.Sqlite.Rows.{insert_intent-eq, insert_transition-eq}
use mind_runtime.Intents.Sqlite.Invariant.{SoundTables, admitted-SoundTables, moved-SoundTables}

List-cases : {A : Type 0} (xs : List A) → (xs ≡ []) ⊎ ((x : A) × (ys : List A) × (xs ≡ x ∷ ys))
List-cases [] = inl refl
List-cases (x ∷ ys) = inr (x, ys, refl)

non_empty-eq : {A : Type 0} (xs ys : List A) → non_empty xs ≡ ok ys → xs ≡ ys
non_empty-eq [] ys e = cc
non_empty-eq (x ∷ xs) ys e = cc

nothing_held : {A : Type 0} (xs ys : List A) → xs ≡ [] → non_empty xs ≡ ok ys → ⊥
nothing_held [] ys e h = cc
nothing_held (x ∷ xs) ys e h = cc

store_move-eq :
    {F : Type 0} (after : Intent F) (m : IntentTransition) (t : IntentTables F)
    → Ensures
        (λ p.
          (p.0 ≡ after)
          × (p.1 ≡ record {
            intents = t.intents ++ (after ∷ []);
            intent_transitions = t.intent_transitions ++ (m ∷ []);
          }))
        (store_move after m t)
unfolding store_move
store_move-eq after m t = Ensures-bind (insert_intent after t) _ (λ u e0.
    Ensures-bind (insert_transition m u) _ (λ v e1.
      Ensures-ok (after, v)
        (
          refl,
          (insert_transition-eq m u).at v e1
              ∙ ap {A = IntentTables _}
                  (λ w. record w { intent_transitions = w.intent_transitions ++ (m ∷ []) })
                  ((insert_intent-eq after t).at u e0),
        )))

moves_ok :
    {F : Type 0} (rows : List IntentTransition) (held h : List (Intent F))
    → non_empty held ≡ ok h
    → (elim rows as (λ r. Result (List IntentTransition)) [
      | [] ↦ non_empty held >> ok []
      | m ∷ ms ↦ ok (m ∷ ms)
    ])
      ≡ ok rows
moves_ok [] held h e = rw (e) refl
moves_ok (m ∷ ms) held h e = refl

module _ {F : Type 0} ⦃float_eq : Eq F⦄ {Move : IntentStatus → IntentStatus → Type 0} where
  pub append_initial-SoundTables :
      (i : Intent F) (t : IntentTables F)
      → SoundTables Move t
      → Ensures (λ p. SoundTables Move p.1) (append_initial i t)
  unfolding append_initial
  append_initial-SoundTables i t sound =
      Ensures-bind (raise_if (not (i.status == candidate) || not (i.sync.version == 1)) value_error)
        _
        (λ u e. elim (List-cases (history_or_empty (key_of i) t)) [
          | inl new ↦
              rw (new, append_initial)
                (Ensures-bind (insert_intent i t) _ (λ stored e1.
                  Ensures-ok (i, stored)
                    (subst (SoundTables Move) (sym ((insert_intent-eq i t).at stored e1)) (
                      admitted-SoundTables i t sound (is_initial i (raise_if-ok _ value_error e)).0
                        (is_initial i (raise_if-ok _ value_error e)).1 new))))
          | inr (first, rest, old) ↦
              rw (old, append_initial)
                (Ensures-bind (admit_again i (first ∷ rest)) _
                  (λ existing again. Ensures-ok (existing, t) sound))
        ])

  pub apply_transition-SoundTables :
      (in_unit : F → Bool) (before after : Intent F) (m : IntentTransition) (t : IntentTables F)
      → Move before.status after.status
      → SoundTables Move t
      → Ensures
          (λ p. (p.0 ≡ after) × SoundTables Move p.1)
          (apply_transition in_unit before after m t)
  unfolding apply_transition
  apply_transition-SoundTables in_unit before after m t move sound =
      elim (Option-cases
        (find (λ i. is_of (key_of after) i && has_key after.sync.idempotency_key i) t.intents)) [
          | inl fresh ↦
              rw (fresh, apply_transition)
                (Ensures-bind
                  (validate_transition_shape in_unit before after m
                    (last (history_or_empty (key_of before) t)))
                  _
                  (λ u shape.
                    let fits =
                      (validate_transition_shape-Fits in_unit before after m
                          (last (history_or_empty (key_of before) t))).at
                        u shape in
                    Ensures-map (store_move after m t) (store_move-eq after m t) (λ p q. (
                      q.0,
                      subst (SoundTables Move) (sym q.1)
                          (moved-SoundTables before after m t sound fits.0 fits.1 move fresh),
                    ))))
          | inr (replay, found) ↦
              rw (found, apply_transition)
                (Ensures-bind
                  (replay_of after m replay
                    (select (moves_of (key_of replay)) t.intent_transitions))
                  _
                  (λ r again.
                    let q =
                      (replay_of-after after replay m
                          (select (moves_of (key_of replay)) t.intent_transitions)).at
                        r again in
                    Ensures-ok (r, t) (q.0 ∙ q.1, sound)))
        ]

abbrev pub empty_tables : {F : Type 0} → IntentTables F
empty_tables = record { intents = []; intent_transitions = [] }

module _ {F : Type 0} ⦃float_eq : Eq F⦄ (in_unit : F → Bool) where
  -- `SqliteIntentBackend` as the service's backend.
  abbrev pub sqlite_backend : IntentBackend F (IntentTables F)
  sqlite_backend = record {
    append_initial = append_initial;
    apply_transition = apply_transition in_unit;
    current = current;
    history = history;
    transitions = transitions;
  }

  abbrev pub sqlite_keeps : KeepsMoves Legal sqlite_backend
  sqlite_keeps = record {
    Kept = SoundTables Legal;
    keeps_initial = append_initial-SoundTables;
    keeps_move = apply_transition-SoundTables in_unit;
  }

  empty_tables-SoundTables : SoundTables {F = F} Legal empty_tables
  unfolding history_or_empty transition_rows
  empty_tables-SoundTables = record {
    at = λ k. inl (record { no_versions = refl; no_moves = refl });
  }

  -- What the backend holds of one intent.
  pub record Stored (scope : Scope) (intent_id : String) (h : List (Intent F)) (t : IntentTables F)
      : Type 0 where
    pub moves : List IntentTransition
    pub newest : Intent F
    pub legal_history : History Legal (scope, intent_id) h moves newest
    pub all_moves : transitions scope intent_id t ≡ ok moves
    pub newest_last : last h ≡ some newest
    pub counted : numbered_from 1 h ≡ true
    pub distinct_keys : Distinct (key_list h)
    pub same_facts : All (SameFacts newest) h

  -- In tables that calls of the service and ticks of the scheduler lead to from empty ones, a history
  -- that is returned is one of legal moves: its versions count from one and differ from the newest in
  -- status and synchronization alone, no idempotency key occurs twice, and the transitions that are
  -- returned are those moves.
  pub history-Stored :
      (scope : Scope) (intent_id : String) (t : IntentTables F) (h : List (Intent F))
      → ReachableBy in_unit sqlite_backend empty_tables t
      → history scope intent_id t ≡ ok h
      → Stored scope intent_id h t
  unfolding history transitions
  history-Stored scope intent_id t h reached e =
      elim ((ReachableBy-Kept in_unit sqlite_backend empty_tables sqlite_keeps
          empty_tables-SoundTables t reached).at
        (scope, intent_id)) [
          | inl a ↦ elim (nothing_held _ h a.no_versions e) [ ]
          | inr p ↦
              let same = non_empty-eq _ h e in
              let hist : History Legal (scope, intent_id) h (transition_rows (scope, intent_id) t)
                  p.newest =
                subst
                  (λ g.
                    History Legal (scope, intent_id) g (transition_rows (scope, intent_id) t)
                      p.newest)
                  same p.is_history in
              record {
                moves = transition_rows (scope, intent_id) t;
                newest = p.newest;
                legal_history = hist;
                all_moves =
                    moves_ok (transition_rows (scope, intent_id) t)
                      (history_or_empty (scope, intent_id) t) h e;
                newest_last = History-last h _ p.newest hist;
                counted = History-numbered h _ p.newest hist;
                distinct_keys = History-keys h _ p.newest hist;
                same_facts = History-facts h _ p.newest hist;
              }
        ]
