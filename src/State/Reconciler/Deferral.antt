-- ===== src/State/Reconciler/Deferral.antt =====
-- When an intent is deferred.
use mind_runtime.Base.{
  ℕ, ◌<◌, ◌≡◌, refl, sym, ap, ◌∙◌, Bool, none, some, [], ◌∷◌, ◌++◌, nat_eq, string_eq, option_eq,
  list_eq, ok, >>=-eq-ok, Ensures, Ensures-ok, Ensures-bind, lookup, lookup-insert_self, pair_eq,
  lt→ltb,
}
use mind_runtime.Contracts.{scope_eq, RuntimeState, make_state, check_state}
use mind_runtime.State.Definitions.{Registry, validity_policy}
use mind_runtime.State.Interpretation.{StateIntent}
use mind_runtime.State.Records.{fresh_record, fresh_state, valid_until_by}
use mind_runtime.State.Steps.{create}
use mind_runtime.State.Reconciler.{Pass, apply_intent, apply_intents}

ok_eq {ℓ} : {A : Type ℓ} (a b : A) → ok a ≡ ok b → a ≡ b
ok_eq a b h = cc

module _ {V : Type 0} {B : Type 0} (value_eq : V → V → Bool) (definitions : Registry B) where
  created_observed :
      (i : StateIntent V) (now : ℕ)
      → Ensures (λ s. (s.last_observed_at ≡ now) × (s.value ≡ i.value)) (create definitions i now)
  unfolding create fresh_state make_state fresh_record
  created_observed i now = Ensures-bind (validity_policy i.dimension definitions) _ (λ policy e.
      Ensures-bind (valid_until_by policy none now) _
        (λ until e'. Ensures-bind (check_state _) _ (λ u e''. Ensures-ok _ (refl, refl))))

  apply_intent-fresh :
      (i : StateIntent V) (now : ℕ) (p : Pass V)
      → lookup (i.scope, i.dimension) p.currents ≡ none
      → Ensures
          (λ q.
            (s : RuntimeState V) × (lookup (i.scope, i.dimension) q.currents ≡ some s)
            × (s.last_observed_at ≡ now)
            × (s.value ≡ i.value)
            × (q.deferred ≡ p.deferred))
          (apply_intent value_eq definitions now i p)
  unfolding apply_intent
  apply_intent-fresh i now p fresh =
      rw (fresh, apply_intent)
        (Ensures-bind (create definitions i now) _ (λ s e.
          let (observed, value) = (created_observed i now).at s e in
          Ensures-ok _
            (s, lookup-insert_self (i.scope, i.dimension) s p.currents, observed, value, refl)))

  apply_intent-early :
      (i : StateIntent V) (now : ℕ) (p : Pass V) (s : RuntimeState V)
      → lookup (i.scope, i.dimension) p.currents ≡ some s
      → i.observed_at < s.last_observed_at
      → apply_intent value_eq definitions now i p
        ≡ ok (record p { deferred = p.deferred ++ (i ∷ []) })
  unfolding apply_intent
  apply_intent-early i now p s held early =
      rw (held, apply_intent, lt→ltb i.observed_at s.last_observed_at early) refl

  -- Of two intents for a dimension without a state in one call, the second is deferred if it was
  -- observed before the call, even if it was observed after the first: the state that the first
  -- creates keeps its value, and counts as observed at the time of the call.
  pub apply_intents-deferred :
      (first second : StateIntent V) (now : ℕ) (p q : Pass V)
      → lookup (first.scope, first.dimension) p.currents ≡ none
      → second.scope ≡ first.scope
      → second.dimension ≡ first.dimension
      → second.observed_at < now
      → apply_intents value_eq definitions now (first ∷ second ∷ []) p ≡ ok q
      → (q.deferred ≡ p.deferred ++ (second ∷ []))
        × (s : RuntimeState V) × (lookup (first.scope, first.dimension) q.currents ≡ some s)
        × (s.value ≡ first.value)
        × (s.last_observed_at ≡ now)
  unfolding apply_intents
  apply_intents-deferred first second now p q fresh same_scope same_dimension early h =
      let (p_first, e, rest) = >>=-eq-ok (apply_intent value_eq definitions now first p) _ h in
      let (s, held, observed, value, same) = (apply_intent-fresh first now p fresh).at p_first e in
      let late =
        apply_intent-early second now p_first s
          (ap (λ k. lookup k p_first.currents) (λ j. (same_scope j, same_dimension j)) ∙ held)
          (rw (observed) early) in
      let last : record p_first { deferred = p_first.deferred ++ (second ∷ []) } ≡ q =
        ok_eq _ q (rw (late) at rest) in
      (
        ap (λ r. r.deferred) (sym last) ∙ ap (λ d. d ++ (second ∷ [])) same,
        s,
        ap (λ r. lookup (first.scope, first.dimension) r.currents) (sym last) ∙ held,
        value,
        observed,
      )
