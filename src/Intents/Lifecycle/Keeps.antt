-- ===== src/Intents/Lifecycle/Keeps.antt =====
-- What the service keeps of its backend's state, for every backend that keeps it on legal moves.
use mind_runtime.Base.{
  not-eq-false, find, pair_eq, ◌≡◌, sym, subst, ◌∙◌, inl, inr, Bool, true, not, ◌||◌, Option-cases,
  ◌==◌, nat_eq, string_eq, option_eq, list_eq, value_error, raise_if, raise_if-ok, >>-eq-ok,
  Ensures, Ensures-ok, Ensures-bind, Ensures-map,
}
use mind_runtime.Contracts.{scope_eq, require_non_empty}
use mind_runtime.Intents.Records.{
  IntentStatus, candidate, status_eq, Intent, IntentTransition, check_intent, make_intent,
  make_intent_transition,
}
use mind_runtime.Intents.Backend.{has_key, IntentBackend}
use mind_runtime.Intents.Lifecycle.{
  legal, Request, next_of, recorded_of, after_first, last_entry, next_at, answers, admit, replay,
  advance, transition,
}

abbrev pub Legal : IntentStatus → IntentStatus → Type 0
Legal a b = legal a b ≡ true

-- A property of a backend's state that its operations keep, given that moves are in `Move`.
pub record KeepsMoves {F S : Type 0} (Move : IntentStatus → IntentStatus → Type 0)
    (backend : IntentBackend F S) : Type 1 where
  pub Kept : S → Type 0
  pub keeps_initial :
      (i : Intent F) (s : S) → Kept s → Ensures (λ p. Kept p.1) (backend.append_initial i s)
  pub keeps_move :
      (before after : Intent F) (t : IntentTransition) (s : S)
      → Move before.status after.status
      → Kept s
      → Ensures (λ p. (p.0 ≡ after) × Kept p.1) (backend.apply_transition before after t s)

module _ {F S : Type 0} (in_unit : F → Bool) (backend : IntentBackend F S)
    (keeps : KeepsMoves Legal backend) where
  pub admit-Kept :
      (i : Intent F) (s : S)
      → keeps.Kept s
      → Ensures (λ p. keeps.Kept p.1) (admit in_unit backend i s)
  unfolding admit
  admit-Kept i s k =
      Ensures-bind (raise_if (not (i.status == candidate) || not (i.sync.version == 1)) value_error)
        _ (λ u e. keeps.keeps_initial i s k)

  replay-Kept :
      (r : Request) (existing : Intent F) (s : S)
      → keeps.Kept s
      → Ensures (λ p. keeps.Kept p.1) (replay in_unit backend r existing s)
  unfolding replay
  replay-Kept r existing s k =
      Ensures-bind (backend.transitions r.scope r.intent_id s) _ (λ items e0.
        Ensures-bind (next_at existing.sync.version items) _ (λ item e1.
          Ensures-bind (raise_if (not (answers r item)) value_error) _
            (λ u e2. Ensures-ok (existing, s) k)))

  advance-Kept :
      (r : Request) (before : Intent F) (s : S)
      → keeps.Kept s
      → Ensures
          (λ p. (p.0 ≡ next_of r before) × keeps.Kept p.1)
          (advance in_unit backend r before s)
  unfolding advance make_intent
  advance-Kept r before s k =
      Ensures-bind (raise_if (not (legal before.status r.to_status)) value_error) _ (λ u e0.
        Ensures-bind (make_intent in_unit (next_of r before)) _ (λ after e1.
          Ensures-bind (make_intent_transition (recorded_of r before)) _ (λ t e2.
            let same : after ≡ next_of r before =
              >>-eq-ok (check_intent in_unit (next_of r before)) (next_of r before) e1 in
            Ensures-map _
              (keeps.keeps_move before after t s
                (subst (λ a. Legal before.status a.status) (sym same)
                  (not-eq-false (legal before.status r.to_status) (raise_if-ok _ value_error e0)))
                k)
              (λ p q. (q.0 ∙ same, q.1)))))

  -- A transition keeps what the backend keeps on legal moves.
  pub transition-Kept :
      (r : Request) (s : S)
      → keeps.Kept s
      → Ensures (λ p. keeps.Kept p.1) (transition in_unit backend r s)
  unfolding transition
  transition-Kept r s k = Ensures-bind (require_non_empty r.intent_id) _ (λ u e0.
      Ensures-bind (require_non_empty r.idempotency_key) _ (λ v e1.
        Ensures-bind (backend.history r.scope r.intent_id s) _ (λ h e2.
          elim (Option-cases (find (has_key r.idempotency_key) (after_first h))) [
            | inl fresh ↦ rw (fresh) (
                Ensures-bind (last_entry h) _
                  (λ before e3. Ensures-map _ (advance-Kept r before s k) (λ p q. q.1)))
            | inr (existing, found) ↦ rw (found) (replay-Kept r existing s k)
          ])))
