-- ===== src/Intents/Lifecycle/Refusals.antt =====
-- The statuses that nothing leads on from, and what the service asks of a request.
use mind_runtime.Base.{
  pair_eq, ◌≡◌, Bool, true, false, arith, nat_eq, string_eq, option_eq, list_eq, ok,
}
use mind_runtime.Contracts.{require_non_empty}
use mind_runtime.Intents.Records.{IntentStatus, blocked, expired, completed, superseded}
use mind_runtime.Intents.Lifecycle.{legal, Request}

-- No move leads from these.
abbrev pub is_final : IntentStatus → Bool
is_final blocked = true
is_final expired = true
is_final completed = true
is_final superseded = true
is_final _ = false

pub final-legal : (a b : IntentStatus) → is_final a ≡ true → legal a b ≡ false
unfolding legal
final-legal a b h = ground arith

-- What the service asks of its arguments.
pub record Wellformed (r : Request) : Type 0 where
  pub has_id : require_non_empty r.intent_id ≡ ok tt
  pub has_key_text : require_non_empty r.idempotency_key ≡ ok tt
