-- ===== src/State/Resolver.antt =====
-- `EffectiveStateResolver`, the read gate of canonical state (state/resolver.py).
pub mod Loading
pub mod Views
use mind_runtime.Base.{
  ℕ, Bool, true, false, ◌&&◌, Option, none, some, List, [], ◌∷◌, ◌++◌, String, ◌==◌, string_eq,
  pair_eq, if◌then◌else◌, Result, ok, raise, key_error, value_error, ◌>>=◌, Dict, lookup, insert,
}
use mind_runtime.Contracts.{Scope, scope_eq, RuntimeState}
use mind_runtime.State.Lifecycle.{is_current_like, is_known_lifecycle, is_terminal}
use mind_runtime.State.Validity.{is_lapsed}

-- The keys `(state.scope, state.dimension)` of the snapshot.
abbrev pub StateKey : Type 0
StateKey = Scope × String

abbrev pub state_key : {V : Type 0} → RuntimeState V → StateKey
state_key s = (s.scope, s.dimension)

-- The local `currents` and `order` of `resolve` and of the reconciler's `apply`.
pub record Currents (V : Type 0) : Type 0 where
  pub currents : Dict StateKey (RuntimeState V)
  pub order : List StateKey

pub record EffectiveStateView (V : Type 0) : Type 0 where
  pub states : List (RuntimeState V)
  pub resolved_at : ℕ

module _ {V : Type 0} where
  -- `currents[key]`
  abbrev pub current_at : StateKey → Dict StateKey (RuntimeState V) → Result (RuntimeState V)
  current_at key d = elim (lookup key d) [ none ↦ raise key_error | some s ↦ ok s ]

  -- The key is appended to the order if it is not in `currents` yet.
  abbrev pub order_with : StateKey → Currents V → List StateKey
  order_with key c = elim (lookup key c.currents) [
    | none ↦ c.order ++ (key ∷ [])
    | some _ ↦ c.order
  ]

  -- One round of the loops that read a snapshot: a later record replaces an earlier one.
  abbrev pub load_one : RuntimeState V → Currents V → Currents V
  load_one s c = record {
    currents = insert (state_key s) s c.currents;
    order = order_with (state_key s) c;
  }

  unfoldable pub load : List (RuntimeState V) → Currents V → Currents V
  load [] c = c
  load (s ∷ ss) c = load ss (load_one s c)

  abbrev pub no_currents : Currents V
  no_currents = record { currents = []; order = [] }

  -- Whether a known record is in effect: a terminal one is, a current-like one until its
  -- `valid_until` has passed, an expired one is not.
  abbrev pub is_effective : RuntimeState V → ℕ → Bool
  is_effective s now =
      if is_terminal s.status
      then true
      else if is_current_like s.status
      then if is_lapsed s.valid_until now then false else true
      else false

  -- The loop over `order`.
  unfoldable pub resolve_order :
      ℕ → Dict StateKey (RuntimeState V) → List StateKey → Result (List (RuntimeState V))
  resolve_order now d [] = ok []
  resolve_order now d (key ∷ keys) =
      let rest = resolve_order now d keys in
      current_at key d >>= λ s.
      if is_known_lifecycle s.status
      then (rest >>= λ ss. ok (if is_effective s now then s ∷ ss else ss))
      else raise value_error

  unfoldable pub resolve :
      List (RuntimeState V) → ℕ → List (RuntimeState V) → Result (EffectiveStateView V)
  unfolding load resolve_order
  resolve canonical now overlay =
      let c = load overlay (load canonical no_currents) in
      resolve_order now c.currents c.order >>= λ ss. ok (record { states = ss; resolved_at = now })

  unfoldable pub find_dimension : String → Scope → List (RuntimeState V) → Option (RuntimeState V)
  find_dimension dimension scope [] = none
  find_dimension dimension scope (s ∷ ss) =
      if s.dimension == dimension && s.scope == scope
      then some s
      else find_dimension dimension scope ss

  unfoldable pub for_dimension : EffectiveStateView V → String → Scope → Option (RuntimeState V)
  unfolding find_dimension
  for_dimension view dimension scope = find_dimension dimension scope view.states

  states_of : Scope → List (RuntimeState V) → List (RuntimeState V)
  states_of scope [] = []
  states_of scope (s ∷ ss) =
      let rest = states_of scope ss in if s.scope == scope then s ∷ rest else rest

  unfoldable pub for_scope : EffectiveStateView V → Scope → List (RuntimeState V)
  unfolding states_of
  for_scope view scope = states_of scope view.states
