-- ===== src/Base/Lists.antt =====
-- Lists measured by native numbers, and predicates on their entries.
use Prim.Native.Nat.{ℕ, suc, ◌+◌}
use mathlib.Core.Path.{◌≡◌, refl, subst}
use mathlib.Core.Logic.{inl, inr}
use mathlib.Core.Bool.{Bool, false}
use mathlib.Core.Option.{Option, none, some}
use mind_runtime.Base.Tests.{if◌then◌else◌, Bool-cases}
use mathlib.Core.List.{List, [], ◌∷◌, ◌++◌}
use native.Mathlib.Omega.{arith}

pub some_inj {ℓ} : {A : Type ℓ} {a b : A} → some a ≡ some b → a ≡ b
some_inj h = cc

module _ {ℓ} {A : Type ℓ} where
  abbrev pub length : List A → ℕ
  length [] = 0
  length (x ∷ xs) = suc (length xs)

  pub length-append : (xs ys : List A) → length (xs ++ ys) ≡ length xs + length ys
  length-append [] ys = omega arith
  length-append (x ∷ xs) ys = omega (arith, length-append xs ys)

  abbrev pub All {κ} : (A → Type κ) → List A → Type κ
  All P [] = Unit
  All P (x ∷ xs) = P x × All P xs

  pub All-append {κ} : (P : A → Type κ) (xs ys : List A) → All P ys → All P xs → All P (xs ++ ys)
  All-append P [] ys hy hx = hy
  All-append P (x ∷ xs) ys hy (p, hx) = (p, All-append P xs ys hy hx)

  pub All-map {κ ν} :
      (P : A → Type κ) (Q : A → Type ν) (xs : List A) → ((x : A) → P x → Q x) → All P xs → All Q xs
  All-map P Q [] f h = tt
  All-map P Q (x ∷ xs) f h = (f x h.0, All-map P Q xs f h.1)

  -- `next((x for x in xs if test(x)), None)`
  abbrev pub find : (A → Bool) → List A → Option A
  find test [] = none
  find test (x ∷ xs) = let rest = find test xs in if test x then some x else rest

  -- `xs[-1]`, if there is one.
  abbrev pub last : List A → Option A
  last [] = none
  last (x ∷ []) = some x
  last (x ∷ y ∷ xs) = last (y ∷ xs)

  pub last-append_one : (xs : List A) (y : A) → last (xs ++ (y ∷ [])) ≡ some y
  last-append_one [] y = refl
  last-append_one (x ∷ []) y = refl
  last-append_one (x ∷ z ∷ xs) y = last-append_one (z ∷ xs) y

  pub find-append_one :
      (test : A → Bool) (xs : List A) (y : A)
      → find test xs ≡ none
      → find test (xs ++ (y ∷ [])) ≡ (if test y then some y else none)
  find-append_one test [] y h = refl
  find-append_one test (x ∷ xs) y h = ground (arith, find-append_one test xs y)

  pub find-All {κ} :
      (P : A → Type κ) (test : A → Bool) (xs : List A) (y : A)
      → find test xs ≡ some y
      → All P xs
      → P y
  find-All P test [] y h p = cc
  find-All P test (x ∷ xs) y h p = elim (Bool-cases (test x)) [
    | inl yes_x ↦ subst P (some_inj (rw (yes_x) at h)) p.0
    | inr no_x ↦ find-All P test xs y (rw (no_x) at h) p.1
  ]

  pub find-All-false :
      (test : A → Bool) (xs : List A) → All (λ x. test x ≡ false) xs → find test xs ≡ none
  find-All-false test [] h = refl
  find-All-false test (x ∷ xs) h = rw (h.0) (find-All-false test xs h.1)

  pub find-eq-none :
      (test : A → Bool) (xs : List A) → find test xs ≡ none → All (λ x. test x ≡ false) xs
  find-eq-none test [] h = tt
  find-eq-none test (x ∷ xs) h = elim (Bool-cases (test x)) [
    | inl yes_x ↦ let no : ⊥ = cc in elim no [ ]
    | inr no_x ↦ (no_x, find-eq-none test xs (rw (no_x) at h))
  ]
