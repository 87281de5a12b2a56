-- ===== src/State/Definitions.antt =====
-- State definitions and validity policies (state/definitions.py, contracts/state.py). A duration
-- is a number of microseconds.
pub mod Policies
use mind_runtime.Base.{
  max_time, add_time, ℕ, ◌+◌, ◌*◌, Bool, true, false, Option, none, some, List, [], ◌∷◌, String,
  ◌==◌, string_eq, ltb, leb, nat_eqb, if◌then◌else◌, length, Result, ok, raise, value_error,
  overflow_error, raise_if, ◌>>=◌, ◌>>◌, Dict, lookup, insert, values, codes, strip, after_prefix,
  take_digits, number_from,
}
use mind_runtime.Contracts.{StateDomain, require_domain_key, require_non_empty}

pub data StateValueType : Type 0 where
  categorical boolean scalar structured : StateValueType

-- `B` is the type of bounds, frozen values that nothing here reads.
pub record StateDefinition (B : Type 0) : Type 0 where
  pub key : String
  pub domain : StateDomain
  pub value_type : StateValueType
  pub dynamics_policy : String
  pub default_validity_policy : Option String
  pub bounds : Option B

abbrev require_non_empty? : Option String → Result (Unit {0})
require_non_empty? none = ok tt
require_non_empty? (some s) = require_non_empty s

-- `StateDefinition.__post_init__`
unfoldable pub make_definition : {B : Type 0} → StateDefinition B → Result (StateDefinition B)
make_definition d = do
  require_domain_key d.key d.domain
  require_non_empty d.dynamics_policy
  require_non_empty? d.default_validity_policy
  ok d

pub data ValidityKind : Type 0 where
  indefinite ttl event_only : ValidityKind

pub record ValidityPolicy : Type 0 where
  pub kind : ValidityKind
  pub ttl : Option ℕ
  pub refresh_on_reaffirm : Bool

abbrev pub check_policy : ValidityKind → Option ℕ → Result (Unit {0})
check_policy ttl none = raise value_error
check_policy ttl (some t) = raise_if (leb t 0) value_error
check_policy indefinite none = ok tt
check_policy event_only none = ok tt
check_policy _ (some t) = raise value_error

-- `ValidityPolicy.__post_init__`
unfoldable pub make_policy : ValidityPolicy → Result ValidityPolicy
make_policy p = check_policy p.kind p.ttl >> ok p

-- The microseconds of `_DURATION_UNITS`.
abbrev unit_micros : ℕ → Option ℕ
unit_micros c =
    if nat_eqb c b's'
    then some 1000000
    else if nat_eqb c b'm'
    then some 60000000
    else if nat_eqb c b'h'
    then some 3600000000
    else if nat_eqb c b'd'
    then some 86400000000
    else none

-- `timedelta(**{unit: amount})`: at most 999999999 days and the rest of a day.
abbrev timedelta : ℕ → Result ℕ
timedelta micros = raise_if (leb 86400000000000000000 micros) overflow_error >> ok micros

-- What follows the digits must be one unit. `int` reads at most 4300 digits.
unfoldable pub duration_of : List ℕ → List ℕ → Result ℕ
duration_of [] rest = raise value_error
duration_of (d ∷ ds) (u ∷ []) = elim (unit_micros u) [
  | none ↦ raise value_error
  | some micros ↦ do
    raise_if (ltb 4300 (length (d ∷ ds))) value_error
    let amount = number_from 0 (d ∷ ds)
    raise_if (nat_eqb amount 0) value_error
    timedelta (amount * micros)
]
duration_of (d ∷ ds) _ = raise value_error

-- `_parse_duration`
unfoldable pub parse_duration : List ℕ → Result ℕ
unfolding duration_of
parse_duration text = let (digits, rest) = take_digits (strip text) in duration_of digits rest

abbrev pub ttl_policy : ℕ → Result ValidityPolicy
ttl_policy t = make_policy (record { kind = ttl; ttl = some t; refresh_on_reaffirm = true })

unfoldable pub parse_ttl : String → Result ValidityPolicy
parse_ttl text = elim (after_prefix (codes "ttl:") (codes text)) [
  | none ↦ raise value_error
  | some rest ↦ parse_duration rest >>= ttl_policy
]

unfoldable pub parse_validity_policy : Option String → Result ValidityPolicy
unfolding parse_ttl
parse_validity_policy none =
    make_policy (record { kind = indefinite; ttl = none; refresh_on_reaffirm = true })
parse_validity_policy (some text) =
    if text == "indefinite"
    then make_policy (record { kind = indefinite; ttl = none; refresh_on_reaffirm = true })
    else if text == "event_only"
    then make_policy (record { kind = event_only; ttl = none; refresh_on_reaffirm = false })
    else parse_ttl text

-- `StateDefinitionRegistry`: the definitions by their keys.
abbrev pub Registry : Type 0 → Type 0
Registry B = Dict String (StateDefinition B)

module _ {B : Type 0} where
  unfoldable pub register : StateDefinition B → Registry B → Result (Registry B)
  register definition r = elim (lookup definition.key r) [
    | some _ ↦ raise value_error
    | none ↦ ok (insert definition.key definition r)
  ]

  -- The constructor: the definitions are registered in order.
  unfoldable pub registry_from : List (StateDefinition B) → Registry B → Result (Registry B)
  unfolding register
  registry_from [] r = ok r
  registry_from (d ∷ ds) r = register d r >>= registry_from ds

  abbrev pub require : String → Registry B → Result (StateDefinition B)
  require key r = elim (lookup key r) [ none ↦ raise value_error | some d ↦ ok d ]

  unfoldable pub validity_policy : String → Registry B → Result ValidityPolicy
  validity_policy key r = elim (lookup key r) [
    | none ↦ make_policy (record { kind = indefinite; ttl = none; refresh_on_reaffirm = true })
    | some d ↦ parse_validity_policy d.default_validity_policy
  ]

  -- `registry.all()`
  abbrev pub all : Registry B → List (StateDefinition B)
  all = values
