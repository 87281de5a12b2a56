-- ===== src/Intents/Expiries.antt =====
-- What the first loop of a tick leaves in the backend in memory.
use mind_runtime.Base.{
  Member, find-All, some_inj, All-append, pair_eq, ℕ, String, ◌≡◌, refl, sym, ap, subst, ◌∙◌, ◌≢◌,
  inl, inr, Bool, true, false, ◌&&◌, ◌||◌, some, List, [], ◌∷◌, arith, Bool-cases, Eq, ◌==◌, nat_eq,
  string_eq, option_eq, list_eq, beq_self, Eq-cases, beq_ne, ok, Ensures, Ensures-ok, Ensures-if,
  Ensures-bind, All, All-map, Dict, lookup,
}
use mind_runtime.Contracts.{Scope, scope_eq}
use mind_runtime.Intents.Records.{
  IntentStatus, candidate, deferred, expired, status_eq, policy_eq, Intent, IntentTransition,
}
use mind_runtime.Intents.Backend.{IntentKey, at_version}
use mind_runtime.Intents.Histories.{History, admitted, moved, History-key}
use mind_runtime.Intents.Fits.{Fits-to_status}
use mind_runtime.Intents.Memory.{MemorySnapshot, in_scope}
use mind_runtime.Intents.Memory.Invariant.{Sound}
use mind_runtime.Intents.Lifecycle.{Request, legal, transition}
use mind_runtime.Intents.Lifecycle.Keeps.{Legal, transition-Kept}
use mind_runtime.Intents.Scheduler.{reached, is_stale, expiry, expire_all}
use mind_runtime.Intents.Service.{memory_backend, memory_keeps, none-some}
use mind_runtime.Intents.Moves.{Moved-newest, Moved-others, transition-Moved}

false_ne : false ≡ true → ⊥
false_ne h = cc

no_way_out : (a b : IntentStatus) → a ≡ expired → legal a b ≡ true → ⊥
unfolding legal
no_way_out a b e h =
    let none_there : legal expired b ≡ true = subst (λ c. legal c b ≡ true) e h in cc

pub deferred_only : (a : IntentStatus) → legal a candidate ≡ true → a ≡ deferred
unfolding legal
deferred_only a h = ground arith

and_false : (a : Bool) → (a && false) ≡ false
and_false a = ground arith

not_reached :
    (a : IntentStatus) (b : Bool)
    → a ≡ deferred
    → ((a == candidate || a == deferred) && b) ≡ false
    → b ≡ false
not_reached a b e h = ground arith

module _ {F : Type 0} ⦃float_eq : Eq F⦄ where
  pub Member-in_scope :
      (scope : Scope) (id : String) (i : Intent F) (d : Dict IntentKey (Intent F))
      → Member ((scope, id), i) d
      → Member i (in_scope scope d)
  Member-in_scope scope id i [] m = m
  Member-in_scope scope id i (((s, j), x) ∷ d) m = elim (Eq-cases s scope) [
    | inl same ↦
        rw (same, beq_self scope)
          (elim m [
            | inl head ↦ inl (ap (λ p. p.1) head)
            | inr later ↦ inr (Member-in_scope scope id i d later)
          ])
    | inr other ↦ rw (beq_ne s scope other) (elim m [
      | inl head ↦ elim (other (ap (λ p. p.0.0) head)) [ ]
      | inr later ↦ Member-in_scope scope id i d later
    ])
  ]

  -- Nothing leads on from an expired version.
  expired-last :
      {k : IntentKey} (h : List (Intent F)) (ts : List IntentTransition) (newest : Intent F)
      → History Legal k h ts newest
      → All (λ t. t.to_status ≡ expired → newest.status ≡ expired) ts
  expired-last h ts newest (admitted i c v e) = tt
  expired-last h ts newest (moved g us before after t hist f m fresh) =
      All-append _ us (t ∷ []) (λ e. sym (Fits-to_status before after t f) ∙ e, tt)
        (All-map _ _ us (λ u q e. elim (no_way_out before.status after.status (q e) m) [ ])
          (expired-last g us before hist))

  -- No intent of the scope that is stored is stale.
  unfoldable pub NoneStale : Scope → ℕ → MemorySnapshot F → Type 0
  NoneStale scope now s =
      (id : String) (i : Intent F) → lookup (scope, id) s.current ≡ some i → is_stale now i ≡ false

  pub id_at :
      (s : MemorySnapshot F)
      → Sound Legal s
      → (scope : Scope) (id : String) (i : Intent F) → lookup (scope, id) s.current ≡ some i
      → i.intent_id ≡ id
  id_at s sound scope id i held = elim (sound.at (scope, id)) [
    | inl a ↦ elim (none-some a.no_current held) [ ]
    | inr p ↦
        ap (λ j. j.intent_id) (some_inj (sym held ∙ p.has_current))
        ∙ ap (λ k. k.1) (History-key p.versions p.moves p.newest p.is_history)
  ]

  -- Every intent of the scope that is stale is one of these.
  unfoldable pub Covered : Scope → ℕ → List (Intent F) → MemorySnapshot F → Type 0
  Covered scope now xs s =
      (id : String) (i : Intent F)
      → lookup (scope, id) s.current ≡ some i
      → is_stale now i ≡ true
      → Member i xs

  final_fresh : (now : ℕ) (i : Intent F) → i.status ≡ expired → is_stale now i ≡ false
  unfolding is_stale
  final_fresh now i e = rw (e) refl

  pub fresh_again :
      (now : ℕ) (i j : Intent F)
      → legal i.status candidate ≡ true
      → is_stale now i ≡ false
      → i.expires_at ≡ j.expires_at
      → is_stale now j ≡ false
  unfolding is_stale
  fresh_again now i j h fresh e =
      let waiting : reached i.expires_at now ≡ false =
        not_reached i.status (reached i.expires_at now) (deferred_only i.status h) fresh in
      rw (← e, waiting) (and_false (j.status == candidate || j.status == deferred))

  module _ (in_unit : F → Bool) (scope : Scope) (now : ℕ) where
    -- Once the expiry of an intent has been asked for, its newest version is expired.
    expired_now :
        (x : Intent F) (s : MemorySnapshot F) (p : Intent F × MemorySnapshot F)
        → Sound Legal s
        → transition in_unit (memory_backend in_unit) (expiry scope now x) s ≡ ok p
        → (i : Intent F) → lookup (scope, x.intent_id) p.1.current ≡ some i
        → i.status ≡ expired
    unfolding expiry
    expired_now x s p sound e i held =
        elim ((transition-Moved in_unit (expiry scope now x) s sound).at p e) [
          | inl r ↦
              let newest_is : r.source.newest ≡ i = some_inj (
                sym r.source.has_current
                ∙ ap (λ t. lookup (scope, x.intent_id) t.current) (sym r.unchanged)
                ∙ held) in
              ap (λ j. j.status) (sym newest_is)
              ∙ find-All (λ t. t.to_status ≡ expired → r.source.newest.status ≡ expired)
                  (at_version p.0.sync.version) r.source.moves r.item r.found
                  (expired-last r.source.versions r.source.moves r.source.newest
                    r.source.is_history)
                  r.same_target
          | inr m ↦
              ap (λ j. j.status)
                (some_inj (sym held ∙ Moved-newest in_unit (expiry scope now x) s p m))
        ]

    others_kept :
        (q : Request) (s : MemorySnapshot F) (p : Intent F × MemorySnapshot F) (k : IntentKey)
        → Sound Legal s
        → transition in_unit (memory_backend in_unit) q s ≡ ok p
        → (q.scope, q.intent_id) ≢ k
        → lookup k p.1.current ≡ lookup k s.current
    others_kept q s p k sound e other = elim ((transition-Moved in_unit q s sound).at p e) [
      | inl r ↦ ap (λ t. lookup k t.current) r.unchanged
      | inr m ↦ Moved-others in_unit q s p k m other
    ]

    -- After the expiry of `x`, what is still stale is in the rest.
    Covered-expiry :
        (x : Intent F) (xs : List (Intent F)) (s : MemorySnapshot F)
        (p : Intent F × MemorySnapshot F)
        → Sound Legal s
        → Covered scope now (x ∷ xs) s
        → transition in_unit (memory_backend in_unit) (expiry scope now x) s ≡ ok p
        → Covered scope now xs p.1
    unfolding expiry Covered
    Covered-expiry x xs s p sound covered e id i held stale = elim (Eq-cases x.intent_id id) [
      | inl same ↦
          let over : i.status ≡ expired =
            expired_now x s p sound e i (ap (λ j. lookup (scope, j) p.1.current) same ∙ held) in
          elim (false_ne (sym (final_fresh now i over) ∙ stale)) [ ]
      | inr other ↦
          let before : lookup (scope, id) s.current ≡ some i =
            sym (
              others_kept (expiry scope now x) s p (scope, id) sound e
                (λ k. other (ap (λ j. j.1) k)))
            ∙ held in
          elim (covered id i before stale) [
            | inl head ↦
                elim (other (ap (λ j. j.intent_id) head ∙ id_at s sound scope id i before)) [ ]
            | inr later ↦ later
          ]
    ]

    pub expire_all-NoneStale :
        (xs : List (Intent F)) (s : MemorySnapshot F)
        → Sound Legal s
        → Covered scope now xs s
        → Ensures
            (λ p. NoneStale scope now p.1 × Sound Legal p.1)
            (expire_all in_unit (memory_backend in_unit) scope now xs s)
    unfolding expire_all NoneStale Covered
    expire_all-NoneStale [] s sound covered =
        Ensures-ok ([], s) (λ id i held. none_stale id i held, sound)
      where
        none_stale : NoneStale scope now s
        none_stale id i held = elim (Bool-cases (is_stale now i)) [
          | inl stale ↦ elim (covered id i held stale) [ ]
          | inr fresh ↦ fresh
        ]
    expire_all-NoneStale (x ∷ xs) s sound covered =
        Ensures-if (is_stale now x) _ (expire_all in_unit (memory_backend in_unit) scope now xs s)
          (λ stale.
            Ensures-bind (transition in_unit (memory_backend in_unit) (expiry scope now x) s) _
              (λ p e.
                Ensures-bind (expire_all in_unit (memory_backend in_unit) scope now xs p.1) _
                  (λ q rest.
                    Ensures-ok (x.intent_id ∷ q.0, q.1)
                      ((expire_all-NoneStale xs p.1
                          ((transition-Kept in_unit (memory_backend in_unit) (memory_keeps in_unit)
                              (expiry scope now x) s sound).at
                            p e)
                          (Covered-expiry x xs s p sound covered e)).at
                        q rest))))
          (λ fresh. expire_all-NoneStale xs s sound (λ id i held stale.
            elim (covered id i held stale) [
              | inl head ↦ elim (false_ne (sym fresh ∙ ap (is_stale now) head ∙ stale)) [ ]
              | inr later ↦ later
            ]))
