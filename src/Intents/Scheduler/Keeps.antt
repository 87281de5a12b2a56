-- ===== src/Intents/Scheduler/Keeps.antt =====
-- What a tick keeps of the backend's state.
use mind_runtime.Base.{
  pair_eq, ℕ, String, Bool, not, ◌||◌, List, [], ◌∷◌, nat_eq, string_eq, option_eq, list_eq,
  Ensures, Ensures-ok, Ensures-if, Ensures-bind, contains, sort_by,
}
use mind_runtime.Contracts.{Scope, scope_eq}
use mind_runtime.Intents.Records.{Intent, make_intent_wake}
use mind_runtime.Intents.Backend.{IntentBackend}
use mind_runtime.Intents.Lifecycle.{transition}
use mind_runtime.Intents.Lifecycle.Keeps.{Legal, KeepsMoves, transition-Kept}
use mind_runtime.Intents.Scheduler.{
  before_by_due, is_stale, is_due, expiry, reconsideration, wake_of, expire_all, wake_all, tick,
}

module _ {F S : Type 0} (in_unit : F → Bool) (backend : IntentBackend F S)
    (keeps : KeepsMoves Legal backend) (scope : Scope) (now : ℕ) where
  expire_all-Kept :
      (intents : List (Intent F)) (s : S)
      → keeps.Kept s
      → Ensures (λ p. keeps.Kept p.1) (expire_all in_unit backend scope now intents s)
  unfolding expire_all
  expire_all-Kept [] s k = Ensures-ok ([], s) k
  expire_all-Kept (i ∷ rest) s k =
      Ensures-if (is_stale now i) _ (expire_all in_unit backend scope now rest s)
        (λ stale. Ensures-bind (transition in_unit backend (expiry scope now i) s) _ (λ p e0.
          Ensures-bind (expire_all in_unit backend scope now rest p.1) _ (λ q e1.
            Ensures-ok (i.intent_id ∷ q.0, q.1)
              ((expire_all-Kept rest p.1
                  ((transition-Kept in_unit backend keeps (expiry scope now i) s k).at p e0)).at
                q e1))))
        (λ fresh. expire_all-Kept rest s k)

  wake_all-Kept :
      (ids : List String) (intents : List (Intent F)) (s : S)
      → keeps.Kept s
      → Ensures (λ p. keeps.Kept p.1) (wake_all in_unit backend scope now ids intents s)
  unfolding wake_all
  wake_all-Kept ids [] s k = Ensures-ok ([], s) k
  wake_all-Kept ids (i ∷ rest) s k =
      Ensures-if (contains i.intent_id ids || not (is_due now i))
        (wake_all in_unit backend scope now ids rest s) _ (λ skipped. wake_all-Kept ids rest s k)
        (λ due. Ensures-bind (transition in_unit backend (reconsideration scope now i) s) _ (λ p e0.
          Ensures-bind (make_intent_wake (wake_of scope now i p.0)) _ (λ wake e1.
            Ensures-bind (wake_all in_unit backend scope now ids rest p.1) _ (λ q e2.
              Ensures-ok (wake ∷ q.0, q.1)
                ((wake_all-Kept ids rest p.1 (
                    (transition-Kept in_unit backend keeps (reconsideration scope now i) s k).at p
                      e0)).at
                  q e2)))))

  -- A tick keeps what the backend keeps on legal moves.
  pub tick-Kept :
      (s : S) → keeps.Kept s → Ensures (λ p. keeps.Kept p.1) (tick in_unit backend scope now s)
  unfolding tick
  tick-Kept s k = Ensures-bind (backend.current scope s) _ (λ unsorted e0.
      Ensures-bind (expire_all in_unit backend scope now (sort_by before_by_due unsorted) s) _
        (λ p e1.
          wake_all-Kept p.0 (sort_by before_by_due unsorted) p.1
            ((expire_all-Kept (sort_by before_by_due unsorted) s k).at p e1)))
