-- ===== src/State/Reconciler/Apply.antt =====
-- `FactualReconciler.apply` as a whole: one effective record to a dimension, and a complete chain of
-- transitions behind it.
use mind_runtime.Base.{
  ℕ, ◌≤◌, ◌≡◌, refl, sym, ap, ◌∙◌, inl, inr, Bool, true, some, List, [], ◌∷◌, Eq-cases, map, String,
  pair_eq, string_eq, ok, Dict, lookup, Distinct, contains, Ensures, Ensures-ok, Ensures-bind,
  contains_of_some,
}
use mind_runtime.Contracts.{Scope, scope_eq, RuntimeState}
use mind_runtime.State.Definitions.{Registry}
use mind_runtime.State.Resolver.{StateKey, state_key, current_at, no_currents}
use mind_runtime.State.Resolver.Loading.{
  UnderKey, latest, lookup-load, or_else-some, load-IsLoaded, no_currents-IsLoaded, test_true,
  test_false, contains_tail,
}
use mind_runtime.State.Interpretation.{StateIntent}
use mind_runtime.State.Steps.Moves.{Chain}
use mind_runtime.State.Reconciler.{
  Pass, ReconcileResult, validity_pass, apply_intents, states_in_order, apply, start_pass,
  effective_in, effective_for,
}
use mind_runtime.State.Reconciler.Lineage.{for_key, version-le_of_Chain}
use mind_runtime.State.Reconciler.Keeps.{IsKeyed, Keeps}
use mind_runtime.State.Reconciler.Rounds.{
  validity_pass-Keeps, apply_intents-Keeps, Keeps-trans, current_at_eq,
}

module _ {V : Type 0} where
  -- The states of a pass, in order.
  states_in_order-keys :
      (d : Dict StateKey (RuntimeState V)) (order : List StateKey)
      → UnderKey d
      → Ensures (λ ss. map state_key ss ≡ order) (states_in_order d order)
  unfolding states_in_order
  states_in_order-keys d [] u = Ensures-ok [] refl
  states_in_order-keys d (key ∷ order) u = Ensures-bind (current_at key d) _ λ s e.
      Ensures-bind (states_in_order d order) _ λ ss e'.
        Ensures-ok (s ∷ ss)
          (rw (u key s (current_at_eq key d s e), (states_in_order-keys d order u).at ss e'))

  -- What the result says of a dimension is what the last pass holds under its key.
  effective_in-states_in_order :
      (scope : Scope) (dimension : String) (d : Dict StateKey (RuntimeState V))
      (order : List StateKey)
      → UnderKey d
      → contains (scope, dimension) order ≡ true
      → Ensures
          (λ ss. effective_in dimension scope ss ≡ lookup (scope, dimension) d)
          (states_in_order d order)
  unfolding states_in_order effective_in
  effective_in-states_in_order scope dimension d [] u h = cc
  effective_in-states_in_order scope dimension d (key ∷ order) u h =
      Ensures-bind (current_at key d) _ λ s e. Ensures-bind (states_in_order d order) _ λ ss e'.
        let here = current_at_eq key d s e in
        Ensures-ok (s ∷ ss) (elim (Eq-cases key (scope, dimension)) [
          | inl same ↦
              rw (test_true s scope dimension (u key s here ∙ same))
                (sym here ∙ ap (λ k. lookup k d) same)
          | inr other ↦ rw (test_false s scope dimension (λ e. other (sym (u key s here) ∙ e))) (
              (effective_in-states_in_order scope dimension d order u
                  (contains_tail key (scope, dimension) order other h)).at
                ss e')
        ])

  start_pass-IsKeyed : (canonical : List (RuntimeState V)) → IsKeyed (start_pass canonical)
  start_pass-IsKeyed canonical =
      let (u, o, once) = load-IsLoaded canonical no_currents no_currents-IsLoaded in
      record { under_key = u; in_order = o; once = once }

module _ {V : Type 0} {B : Type 0} (value_eq : V → V → Bool) (definitions : Registry B) where
  -- The pass that a successful call ends with.
  apply_pass :
      (now : ℕ) (canonical : List (RuntimeState V)) (intents : List (StateIntent V))
      → Ensures
          (λ r.
            (q : Pass V) × Keeps intents (start_pass canonical) q
            × (states_in_order q.currents q.order ≡ ok r.effective)
            × (r.transitions ≡ q.transitions))
          (apply value_eq definitions now canonical intents)
  unfolding apply
  apply_pass now canonical intents =
      let p = start_pass canonical in
      Ensures-bind (validity_pass now p.order p) _ λ p' e.
        Ensures-bind (apply_intents value_eq definitions now intents p') _ λ q e'.
          Ensures-bind (states_in_order q.currents q.order) _ λ ss e''.
            let k =
              (validity_pass-Keeps intents now p.order p (start_pass-IsKeyed canonical)).at p' e in
            let k' =
              (apply_intents-Keeps value_eq definitions intents now intents p' (λ i m. m) k.0).at q
                e' in
            Ensures-ok _ (q, Keeps-trans intents p p' q k k', e'', refl)

  -- A successful call returns at most one effective record for each scope and dimension.
  pub apply-Distinct :
      (now : ℕ) (canonical : List (RuntimeState V)) (intents : List (StateIntent V))
      (r : ReconcileResult V)
      → apply value_eq definitions now canonical intents ≡ ok r
      → Distinct (map state_key r.effective)
  apply-Distinct now canonical intents r h =
      let (q, keeps, states, same) = (apply_pass now canonical intents).at r h in
      let names =
        (states_in_order-keys q.currents q.order keeps.0.under_key).at r.effective states in
      rw names (keeps.0.once)

  -- For every scope and dimension of the canonical snapshot, a successful call returns an
  -- effective record, and the transitions that it returns for that dimension lead from the
  -- snapshot's last record to the effective one: each starts where the one before ended and
  -- raises the version by one. It expires a current-like record whose envelope is over, reaffirms or
  -- supersedes one for a value intent, or gives one that is not terminal the lifecycle that an intent
  -- asks for, and the value stays; or it makes an active record, with the value of a value intent,
  -- after one that is not current-like. The intents are among the call's, and of that dimension.
  pub apply-Chain :
      (now : ℕ) (canonical : List (RuntimeState V)) (intents : List (StateIntent V))
      (r : ReconcileResult V) (scope : Scope) (dimension : String) (s : RuntimeState V)
      → apply value_eq definitions now canonical intents ≡ ok r
      → latest (scope, dimension) canonical ≡ some s
      → (s' : RuntimeState V) × (effective_for r dimension scope ≡ some s')
        × Chain intents s (for_key (scope, dimension) r.transitions) s'
  unfolding effective_for
  apply-Chain now canonical intents r scope dimension s h last =
      let (q, keeps, states, same) = (apply_pass now canonical intents).at r h in
      let loaded : lookup (scope, dimension) (start_pass canonical).currents ≡ some s =
        lookup-load (scope, dimension) canonical no_currents ∙ or_else-some last in
      let (s', held, chain) = keeps.1.leads (scope, dimension) s loaded in
      let listed : contains (scope, dimension) q.order ≡ true =
        rw keeps.0.in_order (contains_of_some (scope, dimension) s' q.currents held) in
      (
        s',
        (effective_in-states_in_order scope dimension q.currents q.order keeps.0.under_key
                listed).at
              r.effective states
            ∙ held,
        rw (same, keeps.1.appended) chain,
      )

  -- So a successful call never lowers the version of a dimension's effective record.
  pub version-le_of_apply :
      (now : ℕ) (canonical : List (RuntimeState V)) (intents : List (StateIntent V))
      (r : ReconcileResult V) (scope : Scope) (dimension : String) (s s' : RuntimeState V)
      → apply value_eq definitions now canonical intents ≡ ok r
      → latest (scope, dimension) canonical ≡ some s
      → effective_for r dimension scope ≡ some s'
      → s.version ≤ s'.version
  version-le_of_apply now canonical intents r scope dimension s s' h last found =
      let (t, here, chain) = apply-Chain now canonical intents r scope dimension s h last in
      let it : t ≡ s' = cc in
      rw (← it) (version-le_of_Chain intents s t (for_key (scope, dimension) r.transitions) chain)
