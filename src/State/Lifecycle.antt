-- ===== src/State/Lifecycle.antt =====
-- The lifecycle vocabulary of canonical state (state/lifecycle.py) and the identifiers of its
-- records (state/ids.py).
use mind_runtime.Base.{
  ℕ, ◌≡◌, refl, Bool, true, false, Option, none, some, String, ◌<>◌, ◌==◌, string_eq, eq_iff,
  if◌then◌else◌, decimal, arith,
}

pub data StateLifecycle : Type 0 where
  active improving expired resolved completed cancelled superseded : StateLifecycle

-- `lifecycle.value`
abbrev pub lifecycle_value : StateLifecycle → String
lifecycle_value active = "active"
lifecycle_value improving = "improving"
lifecycle_value expired = "expired"
lifecycle_value resolved = "resolved"
lifecycle_value completed = "completed"
lifecycle_value cancelled = "cancelled"
lifecycle_value superseded = "superseded"

-- `_coerce` of a text: `StateLifecycle(status)`, if that does not raise.
unfoldable pub coerce : String → Option StateLifecycle
coerce status =
    if status == "active"
    then some active
    else if status == "improving"
    then some improving
    else if status == "expired"
    then some expired
    else if status == "resolved"
    then some resolved
    else if status == "completed"
    then some completed
    else if status == "cancelled"
    then some cancelled
    else if status == "superseded"
    then some superseded
    else none

abbrev pub in_current_like : StateLifecycle → Bool
in_current_like active = true
in_current_like improving = true
in_current_like _ = false

abbrev pub in_terminal : StateLifecycle → Bool
in_terminal resolved = true
in_terminal completed = true
in_terminal cancelled = true
in_terminal superseded = true
in_terminal _ = false

abbrev pub is_known_lifecycle : String → Bool
is_known_lifecycle status = elim (coerce status) [ none ↦ false | some _ ↦ true ]

abbrev pub is_current_like : String → Bool
is_current_like status = elim (coerce status) [ none ↦ false | some l ↦ in_current_like l ]

abbrev pub is_terminal : String → Bool
is_terminal status = elim (coerce status) [ none ↦ false | some l ↦ in_terminal l ]

-- `canonical_state_id`
unfoldable pub canonical_state_id : String → ℕ → String
canonical_state_id dimension version = dimension <> (":" <> decimal version)

pub coerce-lifecycle_value : (l : StateLifecycle) → coerce (lifecycle_value l) ≡ some l
unfolding coerce
coerce-lifecycle_value active = refl
coerce-lifecycle_value improving = refl
coerce-lifecycle_value expired = refl
coerce-lifecycle_value resolved = refl
coerce-lifecycle_value completed = refl
coerce-lifecycle_value cancelled = refl
coerce-lifecycle_value superseded = refl

pub coerce-some :
    (status : String) (l : StateLifecycle) → coerce status ≡ some l → status ≡ lifecycle_value l
unfolding coerce
coerce-some status l h = ground (
  arith,
  eq_iff status "active",
  eq_iff status "improving",
  eq_iff status "expired",
  eq_iff status "resolved",
  eq_iff status "completed",
  eq_iff status "cancelled",
  eq_iff status "superseded",
)
