-- ===== src/Base/Outcomes.antt =====
-- What holds of a result whenever code returns one: a rule for each way in which code is built.
use mathlib.Core.Path.{◌≡◌, refl, subst}
use mathlib.Core.Bool.{Bool, true, false}
use mind_runtime.Base.Tests.{if◌then◌else◌}
use mind_runtime.Base.Raising.{Exc, Result, ok, raise, ◌>>=◌}

pub record Ensures {ℓ κ} {A : Type ℓ} (Q : A → Type κ) (m : Result A) : Type (ℓ ⊔ κ) where
  pub at : (a : A) → m ≡ ok a → Q a

abbrev Holds {ℓ κ} : {A : Type ℓ} → (A → Type κ) → Result A → Type κ
Holds Q (ok a) = Q a
Holds Q (raise e) = Unit

module _ {ℓ κ} {A : Type ℓ} {Q : A → Type κ} where
  pub Ensures-ok : (a : A) → Q a → Ensures Q (ok a)
  Ensures-ok a q = record { at = λ b e. subst (Holds Q) e q }

  pub Ensures-raise : (e : Exc) → Ensures Q (raise e)
  Ensures-raise e = record { at = λ b h. cc }

  pub Ensures-if :
      (b : Bool) (m n : Result A)
      → (b ≡ true → Ensures Q m)
      → (b ≡ false → Ensures Q n)
      → Ensures Q (if b then m else n)
  Ensures-if true m n p q = p refl
  Ensures-if false m n p q = q refl

  pub Ensures-bind {ν} :
      {C : Type ν} (m : Result C) (f : C → Result A)
      → ((c : C) → m ≡ ok c → Ensures Q (f c))
      → Ensures Q (m >>= f)
  Ensures-bind (ok c) f h = h c refl
  Ensures-bind (raise e) f h = Ensures-raise e

pub Ensures-map {ℓ κ ν} :
    {A : Type ℓ} {P : A → Type κ} {Q : A → Type ν} (m : Result A)
    → Ensures P m
    → ((a : A) → P a → Q a)
    → Ensures Q m
Ensures-map m h f = record { at = λ a e. f a (h.at a e) }
