-- ===== src/Intents/Replays.antt =====
-- A transition that is asked for again, on the backend in memory.
use mind_runtime.Base.{
  find, find-append_one, find-All-false, find-eq-none, ◌>>=◌, pair_eq, ℕ, ◌+◌, ◌≤◌, ◌≡◌, refl, sym,
  subst, ◌∙◌, inl, inr, Bool, none, some, List, [], ◌∷◌, ◌++◌, arith, Eq, nat_eq, string_eq,
  option_eq, list_eq, beq_self, ok, >>=-eq-ok, All, All-map, lookup,
}
use mind_runtime.Contracts.{scope_eq, require_non_empty}
use mind_runtime.Intents.Records.{status_eq, Intent, IntentTransition}
use mind_runtime.Intents.Equality.{intent_eq, transition_eq}
use mind_runtime.Intents.Backend.{IntentKey, has_key, at_version}
use mind_runtime.Intents.Histories.{History, History-last, History-transitions}
use mind_runtime.Intents.Memory.{MemorySnapshot, or_key_error, history, transitions}
use mind_runtime.Intents.Lifecycle.{
  Request, next_of, recorded_of, after_first, next_at, replay, transition,
}
use mind_runtime.Intents.Lifecycle.Keeps.{Legal}
use mind_runtime.Intents.Service.{memory_backend, Reachable, Reachable-Sound, none-some}
use mind_runtime.Intents.Moves.{key_of_request, Moved, transition-Moved, later_key}

module _ {F : Type 0} ⦃float_eq : Eq F⦄ (in_unit : F → Bool) where
  after_first-append :
      (h : List (Intent F)) (ts : List IntentTransition) (newest i : Intent F) {k : IntentKey}
      → History Legal k h ts newest
      → after_first (h ++ (i ∷ [])) ≡ after_first h ++ (i ∷ [])
  after_first-append [] ts newest i hist =
      elim (none-some refl (History-last [] ts newest hist)) [ ]
  after_first-append (j ∷ h) ts newest i hist = refl

  pub after_first-fresh :
      (test : Intent F → Bool) (h : List (Intent F))
      → find test h ≡ none
      → find test (after_first h) ≡ none
  after_first-fresh test [] e = refl
  after_first-fresh test (i ∷ h) e = find-All-false test h (find-eq-none test (i ∷ h) e).1

  past-newest :
      (n : ℕ) (ts : List IntentTransition)
      → All (λ t. t.version ≤ n) ts
      → find (at_version (n + 1)) ts ≡ none
  past-newest n ts le =
      find-All-false (at_version (n + 1)) ts
        (All-map _ _ ts (λ t h. ground (arith, nat_eq.beq_iff t.version (n + 1))) le)

  module _ (q : Request) (s : MemorySnapshot F) (p : Intent F × MemorySnapshot F)
      (m : Moved q s p) where
    pub versions_now :
        lookup (key_of_request q) p.1.history
        ≡ some (m.source.versions ++ (next_of q m.source.newest ∷ []))
    versions_now = rw (m.stored) (
        later_key in_unit q s m.source (m.source.versions ++ (next_of q m.source.newest ∷ []))
          s.history)

    moves_now :
        lookup (key_of_request q) p.1.transitions
        ≡ some (m.source.moves ++ (recorded_of q m.source.newest ∷ []))
    moves_now = rw (m.stored) (
        later_key in_unit q s m.source (m.source.moves ++ (recorded_of q m.source.newest ∷ []))
          s.transitions)

    found_now :
        find
          (has_key q.idempotency_key)
          (after_first (m.source.versions ++ (next_of q m.source.newest ∷ [])))
        ≡ some (next_of q m.source.newest)
    found_now =
        rw
          (after_first-append m.source.versions m.source.moves m.source.newest
            (next_of q m.source.newest) m.source.is_history)
          (find-append_one (has_key q.idempotency_key) (after_first m.source.versions)
              (next_of q m.source.newest)
              (after_first-fresh (has_key q.idempotency_key) m.source.versions m.fresh)
            ∙ rw (beq_self q.idempotency_key) refl)

    next_at-now :
        next_at
          (m.source.newest.sync.version + 1)
          (m.source.moves ++ (recorded_of q m.source.newest ∷ []))
        ≡ ok (recorded_of q m.source.newest)
    next_at-now =
        rw
          (
            find-append_one (at_version (m.source.newest.sync.version + 1)) m.source.moves
                (recorded_of q m.source.newest)
                (past-newest m.source.newest.sync.version m.source.moves (
                  History-transitions m.source.versions m.source.moves m.source.newest
                    m.source.is_history)),
            beq_self (m.source.newest.sync.version + 1),
            next_at,
          )
          refl

  -- A new transition is in the history, and its record answers it.
  pub transition-Moved_again :
      (q : Request) (s : MemorySnapshot F) (p : Intent F × MemorySnapshot F)
      → Moved q s p
      → {u v : Unit {0}} → require_non_empty q.intent_id ≡ ok u
      → require_non_empty q.idempotency_key ≡ ok v
      → transition in_unit (memory_backend in_unit) q p.1 ≡ ok (p.0, p.1)
  unfolding transition history transitions replay
  transition-Moved_again q s p m e0 e1 =
      rw
        (
          e0,
          e1,
          versions_now q s p m,
          or_key_error,
          ◌>>=◌,
          found_now q s p m,
          moves_now q s p m,
          or_key_error,
          ◌>>=◌,
          next_at-now q s p m,
          beq_self q.to_status,
          beq_self q.reason_codes,
          sym m.result,
        )
        refl

  -- A transition that has returned, asked for again with the same arguments on the snapshot that it
  -- left, returns the same version and leaves that snapshot.
  pub transition_again :
      (q : Request) (s t : MemorySnapshot F) (i : Intent F)
      → Reachable in_unit s
      → transition in_unit (memory_backend in_unit) q s ≡ ok (i, t)
      → transition in_unit (memory_backend in_unit) q t ≡ ok (i, t)
  unfolding transition
  transition_again q s t i reached e =
      elim ((transition-Moved in_unit q s (Reachable-Sound in_unit s reached)).at (i, t) e) [
        | inl same ↦
            subst (λ x. transition in_unit (memory_backend in_unit) q x ≡ ok (i, t))
              (sym same.unchanged) e
        | inr m ↦
            let (u, id_ok, e1) = >>=-eq-ok (require_non_empty q.intent_id) _ e in
            let (v, key_ok, e2) = >>=-eq-ok (require_non_empty q.idempotency_key) _ e1 in
            transition-Moved_again q s (i, t) m id_ok key_ok
      ]
