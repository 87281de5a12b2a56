-- ===== src/Intents/Successes.antt =====
-- When a transition on the backend in memory returns, and what it leaves.
use mind_runtime.Base.{
  find, last, some_inj, ◌>>=◌, ◌>>◌, pair_eq, ◌+◌, ◌≡◌, refl, sym, ap, subst, ◌∙◌, inl, inr, Bool,
  true, not, ◌&&◌, ◌||◌, none, some, List, [], ◌∷◌, ◌++◌, Eq, ◌==◌, nat_eq, string_eq, option_eq,
  list_eq, beq_self, value_error, Result, ok, raise, raise_if, lookup,
}
use mind_runtime.Contracts.{scope_eq}
use mind_runtime.Intents.Records.{
  status_eq, Intent, check_intent, make_intent, check_intent_transition, make_intent_transition,
}
use mind_runtime.Intents.Equality.{intent_eq, transition_eq}
use mind_runtime.Intents.Backend.{key_of, has_key, describes, validate_transition_shape}
use mind_runtime.Intents.Histories.{History-last, History-key}
use mind_runtime.Intents.Memory.{MemorySnapshot, or_key_error, apply_transition, history}
use mind_runtime.Intents.Memory.Invariant.{Present, stored_at}
use mind_runtime.Intents.Lifecycle.{Request, legal, next_of, recorded_of, advance, transition}
use mind_runtime.Intents.Lifecycle.Keeps.{Legal}
use mind_runtime.Intents.Lifecycle.Refusals.{Wellformed}
use mind_runtime.Intents.Service.{
  memory_backend, Reachable, Reachable-Sound, or_key_error-eq, none-some,
}
use mind_runtime.Intents.Replays.{after_first-fresh}
use mind_runtime.Intents.Moves.{key_of_request, versions_there, moves_there, last-newest, later_key}

some_ok : {A : Type 0} {a b : A} → ok b ≡ ok a → b ≡ a
some_ok e = cc

step :
    {A B : Type 0} (m : Result A) (f : A → Result B) {a : A} {r : Result B}
    → m ≡ ok a
    → f a ≡ r
    → (m >>= f) ≡ r
step (ok b) f e h = rw (some_ok e) h
step (raise x) f e h = cc

checked : (b : Bool) → b ≡ true → raise_if (not b) value_error ≡ ok tt
checked b e = rw (e) refl

both_checked : (a b : Bool) → a ≡ true → b ≡ true → raise_if (not a || not b) value_error ≡ ok tt
both_checked a b p q = rw (p, q) refl

all_six :
    (a b c d e f : Bool)
    → a ≡ true
    → b ≡ true
    → c ≡ true
    → d ≡ true
    → e ≡ true
    → f ≡ true
    → (a && b && c && d && e && f) ≡ true
all_six a b c d e f p q r s t u = rw (p, q, r, s, t, u) refl

module _ {F : Type 0} ⦃float_eq : Eq F⦄ (in_unit : F → Bool) where
  -- A move that passes the checks of its two records.
  pub record Admissible (q : Request) (newest : Intent F) : Type 0 where
    pub wellformed : Wellformed q
    pub legal_move : legal newest.status q.to_status ≡ true
    pub next_ok : check_intent in_unit (next_of q newest) ≡ ok tt
    pub recorded_ok : check_intent_transition (recorded_of q newest) ≡ ok tt

  shape_ok :
      (q : Request) (newest : Intent F)
      → Admissible q newest
      → newest.scope ≡ q.scope
      → newest.intent_id ≡ q.intent_id
      → validate_transition_shape in_unit newest
          (next_of q newest)
          (recorded_of q newest)
          (some newest)
        ≡ ok tt
  unfolding validate_transition_shape make_intent
  shape_ok q newest a same_scope same_id =
      step (raise_if (not (some newest == some newest)) value_error) _
        (checked (some newest == some newest) (beq_self (some newest)))
        (step
          (raise_if
            (not (newest.scope == newest.scope) || not (newest.intent_id == newest.intent_id))
            value_error)
          _
          (both_checked (newest.scope == newest.scope) (newest.intent_id == newest.intent_id)
            (beq_self newest.scope) (beq_self newest.intent_id))
          (step (raise_if (not (newest.origin_runtime_id == newest.origin_runtime_id)) value_error)
            _
            (checked (newest.origin_runtime_id == newest.origin_runtime_id)
              (beq_self newest.origin_runtime_id))
            (step (raise_if (not (newest.sync.version + 1 == newest.sync.version + 1)) value_error)
              _
              (checked (newest.sync.version + 1 == newest.sync.version + 1)
                (beq_self (newest.sync.version + 1)))
              (step (make_intent in_unit (next_of q newest)) _
                (ap (λ m. m >> ok (next_of q newest)) a.next_ok)
                (step (raise_if (not (next_of q newest == next_of q newest)) value_error) _
                  (checked (next_of q newest == next_of q newest) (beq_self (next_of q newest)))
                  (step
                    (raise_if (not (describes newest (next_of q newest) (recorded_of q newest)))
                      value_error)
                    _
                    (checked (describes newest (next_of q newest) (recorded_of q newest)) described)
                    (checked (q.idempotency_key == q.idempotency_key)
                      (beq_self q.idempotency_key))))))))
    where
      described : describes newest (next_of q newest) (recorded_of q newest) ≡ true
      described =
          all_six _ _ _ _ _ _ ((scope_eq.beq_iff q.scope newest.scope).1 (sym same_scope))
            (beq_self newest.origin_runtime_id)
            ((string_eq.beq_iff q.intent_id newest.intent_id).1 (sym same_id))
            (beq_self newest.status) (beq_self q.to_status) (beq_self (newest.sync.version + 1))

  apply_ok :
      (q : Request) (s : MemorySnapshot F) (p : Present Legal (key_of_request q) s)
      → Admissible q p.newest
      → find (has_key q.idempotency_key) p.versions ≡ none
      → apply_transition in_unit p.newest (next_of q p.newest) (recorded_of q p.newest) s
        ≡ ok (
          next_of q p.newest,
          stored_at
              (key_of p.newest)
              (next_of q p.newest)
              (p.versions ++ (next_of q p.newest ∷ []))
              (p.moves ++ (recorded_of q p.newest ∷ []))
              s,
        )
  unfolding apply_transition
  apply_ok q s p a fresh =
      rw
        (
          versions_there in_unit q s p,
          moves_there in_unit q s p,
          fresh,
          newest_there,
          apply_transition,
          shape_ok q p.newest a (ap (λ k. k.0) key_eq) (ap (λ k. k.1) key_eq),
        )
        refl
    where
      key_eq : key_of p.newest ≡ key_of_request q
      key_eq = History-key p.versions p.moves p.newest p.is_history

      newest_there : lookup (key_of p.newest) s.current ≡ some p.newest
      newest_there = subst (λ k. lookup k s.current ≡ some p.newest) (sym key_eq) p.has_current

  returns_at :
      (q : Request) (s : MemorySnapshot F) (p : Present Legal (key_of_request q) s)
      → find (has_key q.idempotency_key) p.versions ≡ none
      → Admissible q p.newest
      → (t : MemorySnapshot F) × (transition in_unit (memory_backend in_unit) q s
          ≡ ok (next_of q p.newest, t))
        × (history q.scope q.intent_id t ≡ ok (p.versions ++ (next_of q p.newest ∷ [])))
  unfolding transition advance history make_intent make_intent_transition
  returns_at q s p fresh a = (
    stored_at (key_of p.newest) (next_of q p.newest) (p.versions ++ (next_of q p.newest ∷ []))
        (p.moves ++ (recorded_of q p.newest ∷ [])) s,
    rw
        (
          a.wellformed.has_id,
          a.wellformed.has_key_text,
          p.has_history,
          or_key_error,
          ◌>>=◌,
          after_first-fresh in_unit (has_key q.idempotency_key) p.versions fresh,
          last-newest in_unit q s p,
          a.legal_move,
          a.next_ok,
          a.recorded_ok,
          apply_ok q s p a fresh,
        )
        refl,
    rw (later_key in_unit q s p (p.versions ++ (next_of q p.newest ∷ [])) s.history) refl,
  )

  -- A legal move of the newest version under a key that the history does not have, whose records pass
  -- their checks, returns the next version, which then ends the history.
  pub transition-returns :
      (q : Request) (s : MemorySnapshot F) (h : List (Intent F)) (newest : Intent F)
      → Reachable in_unit s
      → history q.scope q.intent_id s ≡ ok h
      → last h ≡ some newest
      → find (has_key q.idempotency_key) h ≡ none
      → Admissible q newest
      → (t : MemorySnapshot F) × (transition in_unit (memory_backend in_unit) q s
          ≡ ok (next_of q newest, t))
        × (history q.scope q.intent_id t ≡ ok (h ++ (next_of q newest ∷ [])))
  unfolding history
  transition-returns q s h newest reached there is_last fresh a =
      elim ((Reachable-Sound in_unit s reached).at (key_of_request q)) [
        | inl absent ↦ elim (none-some absent.no_history (or_key_error-eq _ h there)) [ ]
        | inr p ↦
            let same_h : p.versions ≡ h =
              some_inj (sym p.has_history ∙ or_key_error-eq _ h there) in
            let same_newest : newest ≡ p.newest = some_inj (
              sym is_last
              ∙ ap last (sym same_h)
              ∙ History-last p.versions p.moves p.newest p.is_history) in
            rw (← same_h, same_newest)
              (returns_at q s p
                (subst (λ g. find (has_key q.idempotency_key) g ≡ none) (sym same_h) fresh)
                (subst (Admissible q) same_newest a))
      ]
