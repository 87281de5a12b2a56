-- ===== src/State/Reconciler/Rounds.antt =====
-- The loops of `FactualReconciler.apply` keep one record to a key, and a chain of transitions from
-- every record to the one that replaces it.
use mind_runtime.Base.{
  ◌<◌, subst, Member, ℕ, ◌≡◌, refl, sym, ap, ◌∙◌, inl, inr, Bool, true, some, List, [], ◌∷◌, ◌++◌,
  pair_eq, string_eq, ok, Dict, lookup, Option-cases, Ensures, Ensures-ok, Ensures-if, Ensures-bind,
  ltb, Ensures-map, arith,
}
use mind_runtime.Contracts.{scope_eq, RuntimeState}
use mind_runtime.State.Definitions.{Registry}
use mind_runtime.State.Validity.{ValidityOutcome, evaluate_validity}
use mind_runtime.State.Resolver.{StateKey, state_key, current_at}
use mind_runtime.State.Interpretation.{StateIntent}
use mind_runtime.State.Validity.Expiry.{
  evaluate_validity_lem, IsLive-is_current_like, false_ne_true,
}
use mind_runtime.State.Lifecycle.{canonical_state_id}
use mind_runtime.State.Records.{transition, fresh_record}
use mind_runtime.State.Steps.{create, reconcile}
use mind_runtime.State.Steps.Moves.{
  Follows, expire, Chain-cons, reconcile-Reaches_from, fresh_state_eq,
}
use mind_runtime.State.Reconciler.{Pass, expire_one, validity_pass, apply_intent, apply_intents}
use mind_runtime.State.Reconciler.Keeps.{
  IsKeyed, Extends-refl, Extends-trans, Keeps, Keeps-replace, Keeps-add, Keeps-defer,
}

module _ {V : Type 0} where
  -- `currents[key]` returns what is under the key.
  pub current_at_eq :
      (key : StateKey) (d : Dict StateKey (RuntimeState V)) (s : RuntimeState V)
      → current_at key d ≡ ok s
      → lookup key d ≡ some s
  current_at_eq key d s h = ground arith

module _ {V : Type 0} (intents : List (StateIntent V)) where
  -- A verdict that changes the record moves it to the next version.
  evaluate_validity-Follows :
      (s : RuntimeState V) (now : ℕ) (o : ValidityOutcome V)
      → evaluate_validity s now ≡ ok o
      → o.changed ≡ true
      → Follows intents s o.state
  evaluate_validity-Follows s now o h c = elim (evaluate_validity_lem s now o h) [
    | inl (changed, due, gone) ↦ record {
      same_scope = gone.same_scope;
      same_dimension = gone.same_dimension;
      next_version = gone.next_version;
      named =
          gone.named
          ∙ rw (gone.same_dimension, gone.next_version) (unfold canonical_state_id in refl);
      moves =
          expire due.until (IsLive-is_current_like s.status due.live) due.given
            (subst (λ t. due.until < t) (sym gone.updated) due.over) gone.over gone.same_value;
    }
    | inr (same, early, kept) ↦ elim (false_ne_true (sym same ∙ c)) [ ]
  ]

  pub Keeps-trans : (p q r : Pass V) → Keeps intents p q → Keeps intents q r → Keeps intents p r
  Keeps-trans p q r h k = (k.0, Extends-trans intents p q r h.1 k.1)

  expire_one-Keeps :
      (key : StateKey) (cur : RuntimeState V) (o : ValidityOutcome V) (now : ℕ) (p : Pass V)
      → IsKeyed p
      → lookup key p.currents ≡ some cur
      → (o.changed ≡ true → Follows intents cur o.state)
      → Ensures (Keeps intents p) (expire_one key cur o now p)
  unfolding expire_one
  expire_one-Keeps key cur o now p k here f =
      Ensures-if o.changed _ _
        (λ changed. Ensures-bind (transition cur o.state now) _ λ t e. Ensures-ok _ (
          Keeps-replace intents p key cur o.state (t ∷ []) k here
            (Chain-cons intents cur o.state now [] o.state e (f changed) refl)))
        (λ same. Ensures-ok p (k, Extends-refl intents p))

  pub validity_pass-Keeps :
      (now : ℕ) (order : List StateKey) (p : Pass V)
      → IsKeyed p
      → Ensures (Keeps intents p) (validity_pass now order p)
  unfolding validity_pass
  validity_pass-Keeps now [] p k = Ensures-ok p (k, Extends-refl intents p)
  validity_pass-Keeps now (key ∷ order) p k = Ensures-bind (current_at key p.currents) _ λ cur e.
      Ensures-bind (evaluate_validity cur now) _ λ o e'.
        Ensures-bind (expire_one key cur o now p) _ λ p' e''.
          let after =
            (expire_one-Keeps key cur o now p k (current_at_eq key p.currents cur e)
                (evaluate_validity-Follows cur now o e')).at
              p' e'' in
          Ensures-map (validity_pass now order p') (validity_pass-Keeps now order p' after.0)
            (λ q later. Keeps-trans p p' q after later)

module _ {V : Type 0} {B : Type 0} (value_eq : V → V → Bool) (definitions : Registry B)
    (all : List (StateIntent V)) where
  create-state_key :
      (i : StateIntent V) (now : ℕ) (fresh : RuntimeState V)
      → create definitions i now ≡ ok fresh
      → state_key fresh ≡ (i.scope, i.dimension)
  unfolding create fresh_record
  create-state_key i now fresh h =
      let (until, e) = fresh_state_eq definitions i.scope i now 1 now h in rw e

  apply_intent-Keeps :
      (now : ℕ) (i : StateIntent V) (p : Pass V)
      → Member i all
      → IsKeyed p
      → Ensures (Keeps all p) (apply_intent value_eq definitions now i p)
  unfolding apply_intent
  apply_intent-Keeps now i p member k =
      elim (Option-cases (lookup (i.scope, i.dimension) p.currents)) [
        | inl absent ↦
            rw (absent, apply_intent)
              (Ensures-bind (create definitions i now) _ λ fresh e. Ensures-ok _ (
                Keeps-add all p (i.scope, i.dimension) fresh k absent
                  (create-state_key i now fresh e)))
        | inr (cur, here) ↦
            rw (here, apply_intent)
              (Ensures-if (ltb i.observed_at cur.last_observed_at) _ _
                (λ older. Ensures-ok _ (Keeps-defer all p (p.deferred ++ (i ∷ [])) k))
                (λ current. Ensures-bind (reconcile value_eq definitions cur i now) _ λ r e.
                  Ensures-ok _ (
                    Keeps-replace all p (i.scope, i.dimension) cur r.0 r.1 k here
                      ((reconcile-Reaches_from all definitions value_eq cur i now member (
                          ap (λ (key : StateKey). key.1)
                            (sym (k.under_key (i.scope, i.dimension) cur here)))).at
                        r e))))
      ]

  pub apply_intents-Keeps :
      (now : ℕ) (intents : List (StateIntent V)) (p : Pass V)
      → ((i : StateIntent V) → Member i intents → Member i all)
      → IsKeyed p
      → Ensures (Keeps all p) (apply_intents value_eq definitions now intents p)
  unfolding apply_intents
  apply_intents-Keeps now [] p within k = Ensures-ok p (k, Extends-refl all p)
  apply_intents-Keeps now (i ∷ intents) p within k =
      Ensures-bind (apply_intent value_eq definitions now i p) _ λ p' e.
        let after = (apply_intent-Keeps now i p (within i (inl refl)) k).at p' e in
        Ensures-map (apply_intents value_eq definitions now intents p')
          (apply_intents-Keeps now intents p' (λ j m. within j (inr m)) after.0)
          (λ q later. Keeps-trans all p p' q after later)
