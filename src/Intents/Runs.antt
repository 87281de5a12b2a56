-- ===== src/Intents/Runs.antt =====
-- The states of a backend that calls of the lifecycle service and of the scheduler lead to.
use mind_runtime.Base.{pair_eq, ℕ, ◌≡◌, Bool, List, nat_eq, string_eq, option_eq, list_eq, ok}
use mind_runtime.Contracts.{Scope}
use mind_runtime.Intents.Records.{Intent, IntentWake}
use mind_runtime.Intents.Backend.{IntentBackend}
use mind_runtime.Intents.Lifecycle.{Request, admit, transition}
use mind_runtime.Intents.Lifecycle.Keeps.{Legal, KeepsMoves, admit-Kept, transition-Kept}
use mind_runtime.Intents.Scheduler.{tick}
use mind_runtime.Intents.Scheduler.Keeps.{tick-Kept}

module _ {F S : Type 0} (in_unit : F → Bool) (backend : IntentBackend F S) (start : S) where
  -- A call that raises leaves the state, but for a tick: it leaves what its transitions made, which is
  -- what the third rule leads to.
  pub data ReachableBy : S → Type 0 where
    started : ReachableBy start
    admitted_one :
        (i r : Intent F) (s t : S)
        → ReachableBy s
        → admit in_unit backend i s ≡ ok (r, t)
        → ReachableBy t
    transitioned :
        (q : Request) (r : Intent F) (s t : S)
        → ReachableBy s
        → transition in_unit backend q s ≡ ok (r, t)
        → ReachableBy t
    ticked :
        (scope : Scope) (now : ℕ) (wakes : List IntentWake) (s t : S)
        → ReachableBy s
        → tick in_unit backend scope now s ≡ ok (wakes, t)
        → ReachableBy t

  -- What a backend keeps on legal moves holds of all of them, if it holds of the first.
  pub ReachableBy-Kept :
      (keeps : KeepsMoves Legal backend) → keeps.Kept start → (s : S) → ReachableBy s → keeps.Kept s
  ReachableBy-Kept keeps k s started = k
  ReachableBy-Kept keeps k s (admitted_one i r s0 t w e) =
      (admit-Kept in_unit backend keeps i s0 (ReachableBy-Kept keeps k s0 w)).at (r, t) e
  ReachableBy-Kept keeps k s (transitioned q r s0 t w e) =
      (transition-Kept in_unit backend keeps q s0 (ReachableBy-Kept keeps k s0 w)).at (r, t) e
  ReachableBy-Kept keeps k s (ticked scope now wakes s0 t w e) =
      (tick-Kept in_unit backend keeps scope now s0 (ReachableBy-Kept keeps k s0 w)).at (wakes, t) e
