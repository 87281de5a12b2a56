-- ===== src/State/Steps.antt =====
-- What one intent does to the current state of its dimension (state/reconciler.py).
pub mod Moves
use mind_runtime.Base.{
  ℕ, ◌+◌, Bool, List, [], ◌∷◌, none, some, ◌==◌, string_eq, if◌then◌else◌, Result, ok, raise,
  value_error, ◌>>=◌,
}
use mind_runtime.Contracts.{RuntimeState, StateTransition}
use mind_runtime.State.Lifecycle.{
  StateLifecycle, superseded, lifecycle_value, is_current_like, is_known_lifecycle, is_terminal,
}
use mind_runtime.State.Definitions.{Registry, validity_policy}
use mind_runtime.State.Interpretation.{StateIntent}
use mind_runtime.State.Records.{is_event_only, transition, terminal_record, refresh, fresh_state}

module _ {V : Type 0} where
  -- `_apply_terminal`
  unfoldable pub apply_terminal :
      RuntimeState V
      → StateLifecycle
      → StateIntent V
      → ℕ
      → Result (RuntimeState V × List (StateTransition V))
  apply_terminal current lifecycle intent now =
      if is_terminal current.status
      then if current.status == lifecycle_value lifecycle
        then ok (current, [])
        else raise value_error
      else (do
        terminal ← terminal_record current lifecycle intent now
        t ← transition current terminal now
        ok (terminal, t ∷ []))

module _ {V : Type 0} {B : Type 0} (definitions : Registry B) where
  -- `_create`
  unfoldable pub create : StateIntent V → ℕ → Result (RuntimeState V)
  create intent now = fresh_state definitions intent.scope intent now 1 now

  -- `_fresh_after`
  unfoldable pub fresh_after :
      RuntimeState V → StateIntent V → ℕ → Result (RuntimeState V × List (StateTransition V))
  fresh_after current intent now = do
    fresh ← fresh_state definitions current.scope intent now (current.version + 1) now
    t ← transition current fresh now
    ok (fresh, t ∷ [])

  -- `_supersede`
  unfoldable pub supersede :
      RuntimeState V → StateIntent V → ℕ → Result (RuntimeState V × List (StateTransition V))
  supersede current intent now = do
    ended ← terminal_record current superseded intent now
    fresh ← fresh_state definitions current.scope intent now (ended.version + 1) now
    t ← transition current ended now
    u ← transition ended fresh now
    ok (fresh, t ∷ u ∷ [])

module _ {V : Type 0} {B : Type 0} (value_eq : V → V → Bool) (definitions : Registry B) where
  -- The end of `_reconcile`: the same value reaffirms, another one supersedes.
  unfoldable pub reaffirm_or_supersede :
      RuntimeState V → StateIntent V → ℕ → Result (RuntimeState V × List (StateTransition V))
  reaffirm_or_supersede current intent now =
      if value_eq intent.value current.value
      then (do
        policy ← validity_policy current.dimension definitions
        if is_event_only policy then ok (current, []) else (do
          refreshed ← refresh current intent policy now
          t ← transition current refreshed now
          ok (refreshed, t ∷ [])))
      else supersede definitions current intent now

  unfoldable pub reconcile_value :
      RuntimeState V → StateIntent V → ℕ → Result (RuntimeState V × List (StateTransition V))
  reconcile_value current intent now =
      if is_terminal current.status
      then fresh_after definitions current intent now
      else if is_current_like current.status
      then reaffirm_or_supersede current intent now
      else if is_known_lifecycle current.status
      then fresh_after definitions current intent now
      else raise value_error

  -- `_reconcile`
  unfoldable pub reconcile :
      RuntimeState V → StateIntent V → ℕ → Result (RuntimeState V × List (StateTransition V))
  reconcile current intent now = elim intent.lifecycle [
    | none ↦ reconcile_value current intent now
    | some lifecycle ↦ apply_terminal current lifecycle intent now
  ]
