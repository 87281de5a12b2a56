-- ===== src/State/Relevance.antt =====
-- The relevance of a state at an instant, apart from its validity (state/relevance.py).
use mind_runtime.Base.{ℕ, Bool, true, false, ◌&&◌, String, ◌==◌, string_eq, if◌then◌else◌}
use mind_runtime.Contracts.{Scope, RuntimeState}
use mind_runtime.State.Lifecycle.{lifecycle_value, cancelled, is_terminal}
use mind_runtime.State.Validity.{is_lapsed}

pub record RelevanceOutcome : Type 0 where
  pub dimension : String
  pub scope : Scope
  pub recently_cancelled : Bool
  pub reason : String

module _ {V : Type 0} where
  verdict : RuntimeState V → Bool → String → RelevanceOutcome
  verdict s recent reason = record {
    dimension = s.dimension;
    scope = s.scope;
    recently_cancelled = recent;
    reason = reason;
  }

  unfoldable pub evaluate_relevance : RuntimeState V → ℕ → RelevanceOutcome
  unfolding verdict
  evaluate_relevance s now =
      if is_terminal s.status && s.status == lifecycle_value cancelled
      then if is_lapsed s.relevant_until now
        then verdict s false "cancelled_window_lapsed"
        else verdict s true "cancelled_within_window"
      else verdict s false "not_cancelled"
