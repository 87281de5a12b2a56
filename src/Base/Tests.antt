-- ===== src/Base/Tests.antt =====
-- Boolean tests on the native numbers, the conditional, and an interface for Python's `==`.
use Prim.Native.Nat.{ℕ, ◌<◌, compare, Ordering}
use Prim.Native.String.{String}
use mathlib.Core.Path.{◌≡◌, refl, sym, ◌∙◌}
use mathlib.Core.Logic.{◌≢◌, ◌↔◌, ◌⊎◌, inl, inr}
use mathlib.Core.Bool.{Bool, true, false, not, ◌&&◌}
use mathlib.Core.Option.{Option, none, some}
use native.Mathlib.Omega.{arith}
use text.Mathlib.Text.{◌==◌ as text_eq}
use text.Mathlib.TextEquality.{eq_iff}

abbrev pub ltb : ℕ → ℕ → Bool
ltb a b = elim (compare a b) [ Ordering.lt ↦ true | _ ↦ false ]

abbrev pub leb : ℕ → ℕ → Bool
leb a b = elim (compare a b) [ Ordering.gt ↦ false | _ ↦ true ]

abbrev pub nat_eqb : ℕ → ℕ → Bool
nat_eqb a b = elim (compare a b) [ Ordering.eq ↦ true | _ ↦ false ]

infix 1 if◌then◌else◌
abbrev pub if◌then◌else◌ {ℓ} : {A : Type ℓ} → Bool → A → A → A
if true then x else y = x
if false then x else y = y

pub ltb→lt : (a b : ℕ) → ltb a b ≡ true → a < b
ltb→lt a b h = ground arith

pub lt→ltb : (a b : ℕ) → a < b → ltb a b ≡ true
lt→ltb a b h = ground arith

pub Bool-cases : (b : Bool) → (b ≡ true) ⊎ (b ≡ false)
Bool-cases true = inl refl
Bool-cases false = inr refl

pub not-eq-false : (b : Bool) → not b ≡ false → b ≡ true
not-eq-false b h = ground arith

pub and_true : {a b : Bool} → (a && b) ≡ true → (a ≡ true) × (b ≡ true)
and_true {a} {b} h = ground arith

pub true_and : {a b : Bool} → a ≡ true → b ≡ true → (a && b) ≡ true
true_and {a} {b} p q = ground arith

pub Option-cases {ℓ} : {A : Type ℓ} (o : Option A) → (o ≡ none) ⊎ ((a : A) × (o ≡ some a))
Option-cases none = inl refl
Option-cases (some a) = inr (a, refl)

-- A type whose Python `==` is the equality of its values.
pub record Eq {ℓ} (T : Type ℓ) : Type ℓ where
  pub beq : T → T → Bool
  pub beq_iff : (x y : T) → (beq x y ≡ true) ↔ (x ≡ y)

infix 50 ◌==◌
abbrev pub ◌==◌ {ℓ} : {T : Type ℓ} ⦃e : Eq T⦄ → T → T → Bool
◌==◌ ⦃e⦄ = e.beq

pub nat_eqb_iff : (a b : ℕ) → (nat_eqb a b ≡ true) ↔ (a ≡ b)
nat_eqb_iff a b = ground arith

instance abbrev pub string_eq : Eq String
string_eq = record { beq_iff = eq_iff; beq = text_eq }

instance abbrev pub nat_eq : Eq ℕ
nat_eq = record { beq_iff = nat_eqb_iff; beq = nat_eqb }

absurd_bool : false ≡ true → ⊥
absurd_bool h = cc

module _ {ℓ} {A : Type ℓ} ⦃e : Eq A⦄ where
  unfoldable pub option_eqb : Option A → Option A → Bool
  option_eqb none none = true
  option_eqb (some a) (some b) = e.beq a b
  option_eqb _ _ = false

  pub option_eqb_iff : (a b : Option A) → (option_eqb a b ≡ true) ↔ (a ≡ b)
  unfolding option_eqb
  option_eqb_iff none none = ground arith
  option_eqb_iff none (some b) = ground arith
  option_eqb_iff (some a) none = ground arith
  option_eqb_iff (some a) (some b) = ground (arith, e.beq_iff a b)

  instance abbrev pub option_eq : Eq (Option A)
  option_eq = record { beq = option_eqb; beq_iff = option_eqb_iff }

  pub beq_self : (a : A) → e.beq a a ≡ true
  beq_self a = (e.beq_iff a a).1 refl

  pub Eq-cases : (a b : A) → (a ≡ b) ⊎ (a ≢ b)
  Eq-cases a b = elim (Bool-cases (e.beq a b)) [
    | inl same ↦ inl ((e.beq_iff a b).0 same)
    | inr other ↦ inr (λ p. absurd_bool (sym other ∙ (e.beq_iff a b).1 p))
  ]

  pub beq_ne : (a b : A) → a ≢ b → e.beq a b ≡ false
  beq_ne a b h = ground (arith, e.beq_iff a b)

module _ {ℓ κ} {A : Type ℓ} {B : Type κ} ⦃e : Eq A⦄ ⦃f : Eq B⦄ where
  unfoldable pub pair_eqb : A × B → A × B → Bool
  pair_eqb (a, b) (c, d) = e.beq a c && f.beq b d

  pub pair_eqb_iff : (p q : A × B) → (pair_eqb p q ≡ true) ↔ (p ≡ q)
  unfolding pair_eqb
  pair_eqb_iff (a, b) (c, d) = ground (arith, e.beq_iff a c, f.beq_iff b d)

  instance abbrev pub pair_eq : Eq (A × B)
  pair_eq = record { beq = pair_eqb; beq_iff = pair_eqb_iff }

-- The test of a decidable equality.
abbrev pub test_of {ℓ} : {P : Type ℓ} → Dec P → Bool
test_of (yes p) = true
test_of (no n) = false
