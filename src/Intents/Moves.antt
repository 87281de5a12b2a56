-- ===== src/Intents/Moves.antt =====
-- What a transition on the backend in memory does: it answers from the history, or it makes a move.
use mind_runtime.Base.{
  not-eq-false, find, find-All, ◌>>=◌, pair_eq, key_error, ℕ, ◌+◌, ◌≤◌, ◌≡◌, refl, sym, ap, subst,
  ◌∙◌, ◌≢◌, ◌⊎◌, inl, inr, Bool, true, false, not, none, some, List, [], ◌∷◌, ◌++◌, arith,
  Option-cases, Eq, nat_eq, string_eq, option_eq, list_eq, Exc, value_error, ok, raise, raise_if,
  raise_if-ok, >>-eq-ok, Ensures, Ensures-ok, Ensures-raise, Ensures-bind, Ensures-map, Dict,
  lookup, insert, lookup-insert_self, lookup-insert_ne,
}
use mind_runtime.Contracts.{scope_eq, require_non_empty}
use mind_runtime.Intents.Records.{
  status_eq, Intent, IntentTransition, check_intent, make_intent, check_intent_transition,
  make_intent_transition,
}
use mind_runtime.Intents.Equality.{intent_eq, transition_eq}
use mind_runtime.Intents.Backend.{IntentKey, key_of, has_key, at_version, validate_transition_shape}
use mind_runtime.Intents.Histories.{History-last, History-key, History-bound}
use mind_runtime.Intents.Memory.{
  MemorySnapshot, or_key_error, replay_of, apply_transition, history, transitions,
}
use mind_runtime.Intents.Memory.Invariant.{Present, Sound, stored_at, replay_of-after}
use mind_runtime.Intents.Lifecycle.{
  Request, legal, next_of, recorded_of, after_first, last_entry, next_at, answers, replay, advance,
  transition,
}
use mind_runtime.Intents.Lifecycle.Keeps.{Legal}
use mind_runtime.Intents.Service.{memory_backend}

abbrev pub key_of_request : Request → IntentKey
key_of_request q = (q.scope, q.intent_id)

-- The transition `q` was new: it has led from `s` to `p.1`, and returned `p.0`.
pub record Moved {F : Type 0} (q : Request) (s : MemorySnapshot F) (p : Intent F × MemorySnapshot F)
    : Type 0 where
  pub source : Present Legal (key_of_request q) s
  pub fresh : find (has_key q.idempotency_key) source.versions ≡ none
  pub is_legal : legal source.newest.status q.to_status ≡ true
  pub result : p.0 ≡ next_of q source.newest
  pub stored :
      p.1
      ≡ stored_at
          (key_of source.newest)
          (next_of q source.newest)
          (source.versions ++ (next_of q source.newest ∷ []))
          (source.moves ++ (recorded_of q source.newest ∷ []))
          s

-- The history of `s` has answered the transition `q`: a recorded move has its target.
pub record Replayed {F : Type 0} (q : Request) (s : MemorySnapshot F)
    (p : Intent F × MemorySnapshot F) : Type 0 where
  pub unchanged : p.1 ≡ s
  pub source : Present Legal (key_of_request q) s
  pub item : IntentTransition
  pub found : find (at_version p.0.sync.version) source.moves ≡ some item
  pub same_target : item.to_status ≡ q.to_status

absurd_next : {A : Type 0} {a : A} {e : Exc} → raise e ≡ ok a → ⊥
absurd_next h = cc

same_item : {A : Type 0} {a b : A} → ok a ≡ ok b → a ≡ b
same_item h = cc

next_at-eq :
    (version : ℕ) (ts : List IntentTransition) (item : IntentTransition)
    → next_at version ts ≡ ok item
    → find (at_version version) ts ≡ some item
next_at-eq version ts item e = elim (Option-cases (find (at_version version) ts)) [
  | inl missing ↦ let no : ⊥ = absurd_next (rw (missing, next_at) at e) in elim no [ ]
  | inr (t, found) ↦ found ∙ ap some (same_item (rw (found, next_at) at e))
]

target_of :
    (q : Request) (item : IntentTransition)
    → not (answers q item) ≡ false
    → item.to_status ≡ q.to_status
target_of q item h = ground (arith, status_eq.beq_iff item.to_status q.to_status)

newer : (n m : ℕ) → n ≡ m + 1 → n ≤ m → ⊥
newer n m e le = omega arith

module _ {F : Type 0} ⦃float_eq : Eq F⦄ (in_unit : F → Bool) where
  pub same_key :
      (q : Request) (s : MemorySnapshot F) (p : Present Legal (key_of_request q) s)
      → key_of_request q ≡ key_of p.newest
  same_key q s p = sym (History-key p.versions p.moves p.newest p.is_history)

  pub versions_there :
      (q : Request) (s : MemorySnapshot F) (p : Present Legal (key_of_request q) s)
      → lookup (key_of p.newest) s.history ≡ some p.versions
  versions_there q s p =
      subst (λ k. lookup k s.history ≡ some p.versions) (same_key q s p) p.has_history

  pub moves_there :
      (q : Request) (s : MemorySnapshot F) (p : Present Legal (key_of_request q) s)
      → lookup (key_of p.newest) s.transitions ≡ some p.moves
  moves_there q s p =
      subst (λ k. lookup k s.transitions ≡ some p.moves) (same_key q s p) p.has_transitions

  -- What the backend does with a new transition from the newest version.
  apply-Moved :
      (q : Request) (s : MemorySnapshot F) (p : Present Legal (key_of_request q) s)
      → legal p.newest.status q.to_status ≡ true
      → Ensures
          (Moved q s)
          (apply_transition in_unit p.newest (next_of q p.newest) (recorded_of q p.newest) s)
  unfolding apply_transition
  apply-Moved q s p is_legal =
      rw (versions_there q s p, moves_there q s p, apply_transition)
        (elim (Option-cases (find (has_key q.idempotency_key) p.versions)) [
          | inl fresh ↦ rw (fresh) (
              Ensures-bind
                (validate_transition_shape in_unit p.newest (next_of q p.newest)
                  (recorded_of q p.newest) (lookup (key_of p.newest) s.current))
                _
                (λ u shape. Ensures-ok _ (record {
                  source = p;
                  fresh = fresh;
                  is_legal = is_legal;
                  result = refl;
                  stored = refl;
                })))
          | inr (old, found) ↦ rw (found) (
              Ensures-bind (replay_of (next_of q p.newest) (recorded_of q p.newest) old p.moves) _
                (λ r again.
                  let same : old ≡ next_of q p.newest =
                    ((replay_of-after (next_of q p.newest) old (recorded_of q p.newest) p.moves).at
                      r again).1 in
                  elim (newer old.sync.version p.newest.sync.version (ap (λ i. i.sync.version) same)
                    (find-All (λ i. i.sync.version ≤ p.newest.sync.version)
                      (has_key q.idempotency_key) p.versions old found
                      (History-bound p.versions p.moves p.newest p.is_history))) [ ]))
        ])

  advance-Moved :
      (q : Request) (s : MemorySnapshot F) (p : Present Legal (key_of_request q) s)
      → Ensures (Moved q s) (advance in_unit (memory_backend in_unit) q p.newest s)
  unfolding advance make_intent make_intent_transition
  advance-Moved q s p =
      Ensures-bind (raise_if (not (legal p.newest.status q.to_status)) value_error) _ (λ u e0.
        Ensures-bind (make_intent in_unit (next_of q p.newest)) _ (λ after e1.
          Ensures-bind (make_intent_transition (recorded_of q p.newest)) _ (λ t e2.
            rw
              (
                >>-eq-ok (check_intent in_unit (next_of q p.newest)) (next_of q p.newest) e1,
                >>-eq-ok (check_intent_transition (recorded_of q p.newest)) (recorded_of q p.newest)
                    e2,
              )
              (apply-Moved q s p (
                not-eq-false (legal p.newest.status q.to_status) (raise_if-ok _ value_error e0))))))

  replay-Replayed :
      (q : Request) (existing : Intent F) (s : MemorySnapshot F)
      (p : Present Legal (key_of_request q) s)
      → Ensures (Replayed q s) (replay in_unit (memory_backend in_unit) q existing s)
  unfolding replay transitions
  replay-Replayed q existing s p =
      rw (p.has_transitions, or_key_error, ◌>>=◌)
        (Ensures-bind (next_at existing.sync.version p.moves) _ (λ item e1.
          Ensures-bind (raise_if (not (answers q item)) value_error) _ (λ u e2.
            Ensures-ok (existing, s)
              (record {
                unchanged = refl;
                source = p;
                item = item;
                found = next_at-eq existing.sync.version p.moves item e1;
                same_target = target_of q item (raise_if-ok _ value_error e2);
              }))))

  pub last-newest :
      (q : Request) (s : MemorySnapshot F) (p : Present Legal (key_of_request q) s)
      → last_entry p.versions ≡ ok p.newest
  last-newest q s p = rw (History-last p.versions p.moves p.newest p.is_history, last_entry) refl

  -- A transition answers from the history and leaves the snapshot, or it is new.
  pub transition-Moved :
      (q : Request) (s : MemorySnapshot F)
      → Sound Legal s
      → Ensures
          (λ p. Replayed q s p ⊎ Moved q s p)
          (transition in_unit (memory_backend in_unit) q s)
  unfolding transition history
  transition-Moved q s sound = Ensures-bind (require_non_empty q.intent_id) _ (λ u e0.
      Ensures-bind (require_non_empty q.idempotency_key) _ (λ v e1.
        elim (sound.at (key_of_request q)) [
          | inl a ↦ rw (a.no_history) (Ensures-raise key_error)
          | inr p ↦
              rw (p.has_history, or_key_error, ◌>>=◌)
                (elim (Option-cases (find (has_key q.idempotency_key) (after_first p.versions))) [
                  | inl fresh ↦
                      rw (fresh, last-newest q s p)
                        (Ensures-map _ (advance-Moved q s p) (λ r m. inr m))
                  | inr (existing, found) ↦
                      rw (found) (Ensures-map _ (replay-Replayed q existing s p) (λ r m. inl m))
                ])
        ]))

  pub later_key :
      (q : Request) (s : MemorySnapshot F) (p : Present Legal (key_of_request q) s) {V : Type 0}
      (v : V) (d : Dict IntentKey V)
      → lookup (key_of_request q) (insert (key_of p.newest) v d) ≡ some v
  later_key q s p v d =
      subst (λ k. lookup k (insert (key_of p.newest) v d) ≡ some v) (sym (same_key q s p))
        (lookup-insert_self (key_of p.newest) v d)

  pub Moved-newest :
      (q : Request) (s : MemorySnapshot F) (p : Intent F × MemorySnapshot F) (m : Moved q s p)
      → lookup (q.scope, q.intent_id) p.1.current ≡ some (next_of q m.source.newest)
  Moved-newest q s p m =
      rw (m.stored) (later_key q s m.source (next_of q m.source.newest) s.current)

  pub Moved-others :
      (q : Request) (s : MemorySnapshot F) (p : Intent F × MemorySnapshot F) (k : IntentKey)
      → Moved q s p
      → (q.scope, q.intent_id) ≢ k
      → lookup k p.1.current ≡ lookup k s.current
  Moved-others q s p k m other = rw (m.stored) (
      lookup-insert_ne (key_of m.source.newest) k (next_of q m.source.newest) s.current
        (λ e. other (same_key q s m.source ∙ e)))
