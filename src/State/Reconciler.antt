-- ===== src/State/Reconciler.antt =====
-- `FactualReconciler.apply` (state/reconciler.py): the validity pass, then each intent in turn.
-- `V` is the type of frozen state values and `value_eq` their Python `==`.
pub mod Lineage
pub mod Keeps
pub mod Rounds
pub mod Apply
pub mod Deferral
use mind_runtime.Base.{
  ℕ, Bool, ◌&&◌, Option, none, some, List, [], ◌∷◌, ◌++◌, String, ◌==◌, string_eq, pair_eq, ltb,
  if◌then◌else◌, Result, ok, ◌>>=◌, Dict, lookup, insert,
}
use mind_runtime.Contracts.{Scope, scope_eq, RuntimeState, StateTransition}
use mind_runtime.State.Definitions.{Registry}
use mind_runtime.State.Validity.{ValidityOutcome, evaluate_validity}
use mind_runtime.State.Resolver.{StateKey, load, no_currents, current_at}
use mind_runtime.State.Interpretation.{StateIntent}
use mind_runtime.State.Records.{transition}
use mind_runtime.State.Steps.{create, reconcile}

pub record ReconcileResult (V : Type 0) : Type 0 where
  pub canonical : List (RuntimeState V)
  pub transitions : List (StateTransition V)
  pub effective : List (RuntimeState V)
  pub deferred : List (StateIntent V)

module _ {V : Type 0} where
  unfoldable pub effective_in : String → Scope → List (RuntimeState V) → Option (RuntimeState V)
  effective_in dimension scope [] = none
  effective_in dimension scope (s ∷ ss) =
      if s.dimension == dimension && s.scope == scope
      then some s
      else effective_in dimension scope ss

  -- `ReconcileResult.effective_for`
  unfoldable pub effective_for : ReconcileResult V → String → Scope → Option (RuntimeState V)
  unfolding effective_in
  effective_for r dimension scope = effective_in dimension scope r.effective

-- What the loops of `apply` carry.
pub record Pass (V : Type 0) : Type 0 where
  pub currents : Dict StateKey (RuntimeState V)
  pub order : List StateKey
  pub transitions : List (StateTransition V)
  pub deferred : List (StateIntent V)

module _ {V : Type 0} where
  -- What the validity pass does with one state's verdict.
  unfoldable pub expire_one :
      StateKey → RuntimeState V → ValidityOutcome V → ℕ → Pass V → Result (Pass V)
  expire_one key current outcome now p =
      if outcome.changed
      then (do
        t ← transition current outcome.state now
        ok (record p {
          currents = insert key outcome.state p.currents;
          transitions = p.transitions ++ (t ∷ []);
        }))
      else ok p

  -- The validity pass, over `order`.
  unfoldable pub validity_pass : ℕ → List StateKey → Pass V → Result (Pass V)
  validity_pass now [] p = ok p
  validity_pass now (key ∷ keys) p = do
    current ← current_at key p.currents
    outcome ← evaluate_validity current now
    p' ← expire_one key current outcome now p
    validity_pass now keys p'

  -- The last step of a round of the intent loop.
  abbrev pub update_with : StateKey → RuntimeState V × List (StateTransition V) → Pass V → Pass V
  update_with key (new_state, new_transitions) p = record p {
    currents = insert key new_state p.currents;
    transitions = p.transitions ++ new_transitions;
  }

  -- `tuple(currents[key] for key in order)`
  unfoldable pub states_in_order :
      Dict StateKey (RuntimeState V) → List StateKey → Result (List (RuntimeState V))
  states_in_order d [] = ok []
  states_in_order d (key ∷ keys) = do s ← current_at key d; ss ← states_in_order d keys; ok (s ∷ ss)

  abbrev pub start_pass : List (RuntimeState V) → Pass V
  start_pass canonical =
      let c = load canonical no_currents in
      record { currents = c.currents; order = c.order; transitions = []; deferred = [] }

module _ {V : Type 0} {B : Type 0} (value_eq : V → V → Bool) (definitions : Registry B) where
  -- One round of the intent loop.
  unfoldable pub apply_intent : ℕ → StateIntent V → Pass V → Result (Pass V)
  apply_intent now intent p =
      let key : StateKey = (intent.scope, intent.dimension) in
      elim (lookup key p.currents) [
        | none ↦ do
          fresh ← create definitions intent now
          ok (record p { currents = insert key fresh p.currents; order = p.order ++ (key ∷ []) })
        | some current ↦
            if ltb intent.observed_at current.last_observed_at
            then ok (record p { deferred = p.deferred ++ (intent ∷ []) })
            else (reconcile value_eq definitions current intent now >>= λ r.
                ok (update_with key r p))
      ]

  unfoldable pub apply_intents : ℕ → List (StateIntent V) → Pass V → Result (Pass V)
  apply_intents now [] p = ok p
  apply_intents now (intent ∷ intents) p = apply_intent now intent p >>= apply_intents now intents

  -- `apply`, at the clock's time.
  unfoldable pub apply :
      ℕ → List (RuntimeState V) → List (StateIntent V) → Result (ReconcileResult V)
  apply now canonical intents = do
    let p = start_pass canonical
    p' ← validity_pass now p.order p
    q ← apply_intents now intents p'
    effective ← states_in_order q.currents q.order
    ok (record {
      canonical = effective;
      transitions = q.transitions;
      effective = effective;
      deferred = q.deferred;
    })
