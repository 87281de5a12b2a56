-- ===== src/Intents/Finals.antt =====
-- Intents that have come to their end, on the backend in memory.
use mind_runtime.Base.{
  find, some_inj, pair_eq, key_error, String, ◌≡◌, refl, sym, ap, subst, ◌∙◌, ◌≢◌, inl, inr, Bool,
  true, false, not, ◌||◌, some, List, [], ◌∷◌, ◌++◌, Option-cases, Eq, ◌==◌, nat_eq, string_eq,
  option_eq, list_eq, value_error, raise_if, Ensures, Ensures-ok, Ensures-raise, Ensures-bind,
  lookup, lookup-insert_ne,
}
use mind_runtime.Contracts.{Scope, scope_eq}
use mind_runtime.Intents.Records.{candidate, status_eq, Intent, IntentTransition}
use mind_runtime.Intents.Backend.{IntentKey, key_of, has_key, validate_transition_shape}
use mind_runtime.Intents.Fits.{validate_transition_shape-Fits}
use mind_runtime.Intents.Memory.{
  MemorySnapshot, admit_again, append_initial, replay_of, apply_transition,
}
use mind_runtime.Intents.Memory.Invariant.{Present, stored_at, replay_of-after}
use mind_runtime.Intents.Lifecycle.Keeps.{Legal, KeepsMoves}
use mind_runtime.Intents.Lifecycle.Refusals.{is_final, final-legal}
use mind_runtime.Intents.Runs.{ReachableBy, ReachableBy-Kept}
use mind_runtime.Intents.Service.{memory_backend, Reachable, Reachable-Sound, none-some}

false-true : false ≡ true → ⊥
false-true h = cc

module _ {F : Type 0} ⦃float_eq : Eq F⦄ where
  -- A snapshot holds the same of an intent as another.
  pub record Unchanged (k : IntentKey) (s t : MemorySnapshot F) : Type 0 where
    pub same_current : lookup k t.current ≡ lookup k s.current
    pub same_history : lookup k t.history ≡ lookup k s.history
    pub same_transitions : lookup k t.transitions ≡ lookup k s.transitions

  stored_at-Unchanged :
      (k j : IntentKey) (newest : Intent F) (h : List (Intent F)) (ts : List IntentTransition)
      (s t : MemorySnapshot F)
      → j ≢ k
      → Unchanged k s t
      → Unchanged k s (stored_at j newest h ts t)
  stored_at-Unchanged k j newest h ts s t other u = record {
    same_current = lookup-insert_ne j k newest t.current other ∙ u.same_current;
    same_history = lookup-insert_ne j k h t.history other ∙ u.same_history;
    same_transitions = lookup-insert_ne j k ts t.transitions other ∙ u.same_transitions;
  }

  module _ (in_unit : F → Bool) (k : IntentKey) (s : MemorySnapshot F) (p : Present Legal k s)
      (final : is_final p.newest.status ≡ true) where
    append_initial-Unchanged :
        (i : Intent F) (t : MemorySnapshot F)
        → Unchanged k s t
        → Ensures (λ q. Unchanged k s q.1) (append_initial i t)
    unfolding append_initial
    append_initial-Unchanged i t u =
        Ensures-bind
          (raise_if (not (i.status == candidate) || not (i.sync.version == 1)) value_error) _
          (λ v e. elim (Option-cases (lookup (key_of i) t.history)) [
            | inl new ↦
                rw (new, append_initial)
                  (Ensures-ok _ (
                    stored_at-Unchanged k (key_of i) i (i ∷ []) [] s t
                      (λ same.
                        none-some (ap (λ j. lookup j t.history) (sym same) ∙ new)
                          (u.same_history ∙ p.has_history))
                      u))
            | inr (h, old) ↦
                rw (old, append_initial)
                  (Ensures-bind (admit_again i h) _ (λ existing again. Ensures-ok (existing, t) u))
          ])

    apply_transition-Unchanged :
        (before after : Intent F) (m : IntentTransition) (t : MemorySnapshot F)
        → Legal before.status after.status
        → Unchanged k s t
        → Ensures
            (λ q. (q.0 ≡ after) × Unchanged k s q.1)
            (apply_transition in_unit before after m t)
    unfolding apply_transition
    apply_transition-Unchanged before after m t move u =
        elim (Option-cases (lookup (key_of before) t.history)) [
          | inl missing ↦ rw (missing, apply_transition) (Ensures-raise key_error)
          | inr (h, held) ↦ elim (Option-cases (lookup (key_of before) t.transitions)) [
            | inl missing ↦ rw (held, missing, apply_transition) (Ensures-raise key_error)
            | inr (ts, listed) ↦
                rw (held, listed, apply_transition)
                  (elim (Option-cases (find (has_key after.sync.idempotency_key) h)) [
                    | inl fresh ↦ rw (fresh) (
                        Ensures-bind
                          (validate_transition_shape in_unit before after m
                            (lookup (key_of before) t.current))
                          _
                          (λ v shape. Ensures-ok _ (
                            refl,
                            stored_at-Unchanged k (key_of before) after (h ++ (after ∷ []))
                                (ts ++ (m ∷ [])) s t
                                (λ same. ended before after move (
                                  some_inj (
                                    sym p.has_current
                                    ∙ sym u.same_current
                                    ∙ ap (λ j. lookup j t.current) (sym same)
                                    ∙ ((validate_transition_shape-Fits in_unit before after m
                                          (lookup (key_of before) t.current)).at
                                        v shape).0)))
                                u,
                          )))
                    | inr (old, found) ↦ rw (found) (
                        Ensures-bind (replay_of after m old ts) _ (λ r again.
                          Ensures-ok (r, t)
                            (
                              ((replay_of-after after old m ts).at r again).0
                                  ∙ ((replay_of-after after old m ts).at r again).1,
                              u,
                            )))
                  ])
          ]
        ]
      where
        ended : (before after : Intent F) → Legal before.status after.status → p.newest ≡ before → ⊥
        ended before after l same = false-true (
            sym (
              final-legal before.status after.status
                (subst (λ i. is_final i.status ≡ true) same final))
            ∙ l)

    abbrev finals : KeepsMoves Legal (memory_backend in_unit)
    finals = record {
      Kept = Unchanged k s;
      keeps_initial = append_initial-Unchanged;
      keeps_move = apply_transition-Unchanged;
    }

  -- Once the current version of an intent is BLOCKED, EXPIRED, COMPLETED or SUPERSEDED, its current
  -- version, its history and its transitions are the same in every snapshot that calls of the service
  -- and ticks of the scheduler lead to from there.
  pub final-Unchanged :
      (in_unit : F → Bool) (scope : Scope) (intent_id : String) (i : Intent F)
      (s t : MemorySnapshot F)
      → Reachable in_unit s
      → lookup (scope, intent_id) s.current ≡ some i
      → is_final i.status ≡ true
      → ReachableBy in_unit (memory_backend in_unit) s t
      → Unchanged (scope, intent_id) s t
  final-Unchanged in_unit scope intent_id i s t reached held final later =
      elim ((Reachable-Sound in_unit s reached).at (scope, intent_id)) [
        | inl a ↦ elim (none-some a.no_current held) [ ]
        | inr p ↦
            ReachableBy-Kept in_unit (memory_backend in_unit) s
              (finals in_unit (scope, intent_id) s p
                (subst (λ j. is_final j.status ≡ true) (some_inj (sym held ∙ p.has_current)) final))
              (record { same_current = refl; same_history = refl; same_transitions = refl }) t later
      ]
