-- ===== src/Delivery/Retry.antt =====
-- The retry policy (delivery/retry.py). The counts are naturals, so the checks that they are not
-- negative have nothing to reject.
use mind_runtime.Base.{ℕ, String, leb, if◌then◌else◌}
use mind_runtime.Delivery.Lifecycle.{
  DeliveryLifecycleState, pending, in_flight, accepted, rejected, failed_retryable, unknown,
}

pub data RetryDecisionKind : Type 0 where
  can_retry do_not_retry reconcile_first : RetryDecisionKind

pub record RetryDecision : Type 0 where
  pub kind : RetryDecisionKind
  pub reason_code : String

-- A state that may be tried again while the budget lasts.
abbrev pub within_budget : ℕ → ℕ → String → RetryDecision
within_budget attempt_count retry_budget reason =
    if leb retry_budget attempt_count
    then record { kind = do_not_retry; reason_code = "budget_exhausted" }
    else record { kind = can_retry; reason_code = reason }

unfoldable pub compute_retry_decision : DeliveryLifecycleState → ℕ → ℕ → RetryDecision
compute_retry_decision accepted n budget = record {
  kind = do_not_retry;
  reason_code = "accepted_terminal";
}
compute_retry_decision rejected n budget = record {
  kind = do_not_retry;
  reason_code = "rejected_terminal";
}
compute_retry_decision pending n budget = within_budget n budget "fresh_request"
compute_retry_decision failed_retryable n budget = within_budget n budget "transient_failure"
compute_retry_decision in_flight n budget = record {
  kind = reconcile_first;
  reason_code = "in_flight_owner_is_live";
}
compute_retry_decision unknown n budget = record {
  kind = reconcile_first;
  reason_code = "outcome_unknown";
}
