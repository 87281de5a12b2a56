-- ===== src/Base/Raising.antt =====
-- Python's exceptions as values, by class: what a message says is not modelled.
use mathlib.Core.Path.{◌≡◌, refl}
use mathlib.Core.Logic.{◌⊎◌, inl, inr}
use mathlib.Core.Bool.{Bool, true, false}

pub data Exc : Type 0 where
  value_error key_error index_error stop_iteration assertion_error overflow_error integrity_error :
      Exc

pub data Result {ℓ} (A : Type ℓ) : Type ℓ where
  ok : A → Result A
  raise : Exc → Result A

-- `if c: raise e`
abbrev pub raise_if : Bool → Exc → Result (Unit {0})
raise_if true e = raise e
raise_if false e = ok tt

-- A raised exception skips what follows it.
infixl 5 ◌>>=◌ ◌>>◌
abbrev pub ◌>>=◌ {ℓ κ} : {X : Type ℓ} {Y : Type κ} → Result X → (X → Result Y) → Result Y
raise e >>= next = raise e
ok x >>= next = next x

abbrev pub ◌>>◌ {ℓ κ} : {X : Type ℓ} {Y : Type κ} → Result X → Result Y → Result Y
first >> second = first >>= λ x. second

pub >>=-eq-ok {ℓ κ} :
    {X : Type ℓ} {Y : Type κ} (first : Result X) (next : X → Result Y) {y : Y}
    → (first >>= next) ≡ ok y
    → (x : X) × (first ≡ ok x) × (next x ≡ ok y)
>>=-eq-ok (raise e) next h = cc
>>=-eq-ok (ok x) next h = (x, refl, h)

pub raise_if-ok : (b : Bool) (e : Exc) {u : Unit {0}} → raise_if b e ≡ ok u → b ≡ false
raise_if-ok true e h = cc
raise_if-ok false e h = refl

pub >>-eq-ok {ℓ κ} :
    {A : Type ℓ} {B : Type κ} (m : Result A) (b : B) {c : B} → (m >> ok b) ≡ ok c → c ≡ b
>>-eq-ok (ok a) b h = cc
>>-eq-ok (raise e) b h = cc

pub Result-cases {ℓ} :
    {A : Type ℓ} (m : Result A) → ((a : A) × (m ≡ ok a)) ⊎ ((e : Exc) × (m ≡ raise e))
Result-cases (ok a) = inl (a, refl)
Result-cases (raise e) = inr (e, refl)
