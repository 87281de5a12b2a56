-- ===== src/Intents/Ticks.antt =====
-- What a tick of the scheduler leaves in the backend in memory.
use mind_runtime.Base.{
  ◌⊎◌, ◌<◌, some, true, leb, arith, ◌==◌, Member-sort_by, Member-lookup, some_inj, pair_eq, ℕ,
  String, ◌≡◌, refl, sym, ap, subst, ◌∙◌, inl, inr, Bool, false, not, ◌||◌, List, [], ◌∷◌, Eq,
  nat_eq, string_eq, option_eq, list_eq, Eq-cases, ok, Ensures, Ensures-ok, Ensures-if,
  Ensures-bind, contains, lookup, sort_by,
}
use mind_runtime.Contracts.{Scope, scope_eq}
use mind_runtime.Intents.Records.{
  IntentWake, candidate, deferred, status_eq, policy_eq, Intent, make_intent_wake,
}
use mind_runtime.Intents.Memory.{MemorySnapshot, before_by_id, in_scope, current}
use mind_runtime.Intents.Memory.Invariant.{Sound}
use mind_runtime.Intents.Lifecycle.{next_of, transition}
use mind_runtime.Intents.Lifecycle.Keeps.{Legal, transition-Kept}
use mind_runtime.Intents.Scheduler.{
  before_by_due, reached, is_stale, is_due, reconsideration, wake_of, expire_all, wake_all, tick,
}
use mind_runtime.Intents.Service.{memory_backend, memory_keeps, Reachable, Reachable-Sound}
use mind_runtime.Intents.Moves.{Moved-newest, Moved-others, transition-Moved}
use mind_runtime.Intents.Expiries.{
  NoneStale, Covered, Member-in_scope, fresh_again, expire_all-NoneStale,
}

module _ {F : Type 0} ⦃float_eq : Eq F⦄ where
  module _ (in_unit : F → Bool) (scope : Scope) (now : ℕ) where
    NoneStale-reconsideration :
        (x : Intent F) (s : MemorySnapshot F) (p : Intent F × MemorySnapshot F)
        → Sound Legal s
        → NoneStale scope now s
        → transition in_unit (memory_backend in_unit) (reconsideration scope now x) s ≡ ok p
        → NoneStale scope now p.1
    unfolding reconsideration NoneStale
    NoneStale-reconsideration x s p sound none_stale e id i held =
        elim ((transition-Moved in_unit (reconsideration scope now x) s sound).at p e) [
          | inl r ↦
              none_stale id i (ap (λ t. lookup (scope, id) t.current) (sym r.unchanged) ∙ held)
          | inr m ↦ elim (Eq-cases x.intent_id id) [
            | inl same ↦
                let is_next : next_of (reconsideration scope now x) m.source.newest ≡ i = some_inj (
                  sym (Moved-newest in_unit (reconsideration scope now x) s p m)
                  ∙ ap (λ j. lookup (scope, j) p.1.current) same
                  ∙ held) in
                subst (λ j. is_stale now j ≡ false) is_next
                  (fresh_again now m.source.newest
                    (next_of (reconsideration scope now x) m.source.newest) m.is_legal
                    (none_stale x.intent_id m.source.newest m.source.has_current) refl)
            | inr other ↦ none_stale id i (
                sym (
                  Moved-others in_unit (reconsideration scope now x) s p (scope, id) m
                    (λ k. other (ap (λ j. j.1) k)))
                ∙ held)
          ]
        ]

    wake_all-NoneStale :
        (ids : List String) (xs : List (Intent F)) (s : MemorySnapshot F)
        → Sound Legal s
        → NoneStale scope now s
        → Ensures
            (λ p. NoneStale scope now p.1)
            (wake_all in_unit (memory_backend in_unit) scope now ids xs s)
    unfolding wake_all
    wake_all-NoneStale ids [] s sound fresh = Ensures-ok ([], s) fresh
    wake_all-NoneStale ids (x ∷ xs) s sound fresh =
        Ensures-if (contains x.intent_id ids || not (is_due now x))
          (wake_all in_unit (memory_backend in_unit) scope now ids xs s) _
          (λ skipped. wake_all-NoneStale ids xs s sound fresh)
          (λ due.
            Ensures-bind
              (transition in_unit (memory_backend in_unit) (reconsideration scope now x) s) _
              (λ p e. Ensures-bind (make_intent_wake (wake_of scope now x p.0)) _ (λ wake e1.
                Ensures-bind (wake_all in_unit (memory_backend in_unit) scope now ids xs p.1) _
                  (λ q rest.
                    Ensures-ok (wake ∷ q.0, q.1)
                      ((wake_all-NoneStale ids xs p.1
                          ((transition-Kept in_unit (memory_backend in_unit) (memory_keeps in_unit)
                              (reconsideration scope now x) s sound).at
                            p e)
                          (NoneStale-reconsideration x s p sound fresh e)).at
                        q rest)))))

    -- All that is stored for the scope is in the list that a tick goes through.
    Covered-current :
        (s : MemorySnapshot F)
        → Covered scope now
            (sort_by before_by_due (in_scope scope (sort_by before_by_id s.current)))
            s
    unfolding Covered
    Covered-current s id i held stale =
        Member-sort_by before_by_due i (in_scope scope (sort_by before_by_id s.current)) (
          Member-in_scope scope id i (sort_by before_by_id s.current) (
            Member-sort_by before_by_id ((scope, id), i) s.current
              (Member-lookup (scope, id) i s.current held)))

    tick-NoneStale :
        (s : MemorySnapshot F)
        → Reachable in_unit s
        → Ensures (λ p. NoneStale scope now p.1) (tick in_unit (memory_backend in_unit) scope now s)
    unfolding tick current
    tick-NoneStale s reached =
        Ensures-bind
          (expire_all in_unit (memory_backend in_unit) scope now
            (sort_by before_by_due (in_scope scope (sort_by before_by_id s.current))) s)
          _
          (λ p e.
            let after =
              (expire_all-NoneStale in_unit scope now
                  (sort_by before_by_due (in_scope scope (sort_by before_by_id s.current))) s
                  (Reachable-Sound in_unit s reached) (Covered-current s)).at
                p e in
            wake_all-NoneStale p.0
              (sort_by before_by_due (in_scope scope (sort_by before_by_id s.current))) p.1 after.1
              after.0)

    fresh_before :
        (i : Intent F) (expires_at : ℕ)
        → is_stale now i ≡ false
        → (i.status ≡ candidate) ⊎ (i.status ≡ deferred)
        → i.expires_at ≡ some expires_at
        → now < expires_at
    unfolding is_stale
    fresh_before i expires_at fresh waiting given =
        let is_waiting : (i.status == candidate || i.status == deferred) ≡ true = elim waiting [
          | inl e ↦ rw e refl
          | inr e ↦ rw e refl
        ] in
        let not_yet : leb expires_at now ≡ false = rw (is_waiting, given) at fresh in ground arith

    -- After a tick of the scheduler that returns, every candidate or deferred intent that is stored for
    -- the scope with an expiry has one that is strictly after the time of the tick.
    pub tick-unexpired :
        (s : MemorySnapshot F) (p : List IntentWake × MemorySnapshot F) (intent_id : String)
        (i : Intent F) (expires_at : ℕ)
        → Reachable in_unit s
        → tick in_unit (memory_backend in_unit) scope now s ≡ ok p
        → lookup (scope, intent_id) p.1.current ≡ some i
        → (i.status ≡ candidate) ⊎ (i.status ≡ deferred)
        → i.expires_at ≡ some expires_at
        → now < expires_at
    unfolding NoneStale
    tick-unexpired s p intent_id i expires_at reached e held waiting given =
        fresh_before i expires_at ((tick-NoneStale s reached).at p e intent_id i held) waiting given
