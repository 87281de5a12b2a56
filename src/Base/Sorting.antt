-- ===== src/Base/Sorting.antt =====
-- Equality by an encoding, and a stable sort, as `ORDER BY` and `sorted` do it.
use mathlib.Core.Path.{◌≡◌, refl, sym, ap, ◌∙◌}
use mathlib.Core.Logic.{◌↔◌}
use mathlib.Core.Bool.{Bool, true, false, ◌&&◌}
use mathlib.Core.List.{List, [], ◌∷◌}
use native.Mathlib.Omega.{arith}
use Prim.Native.Nat.{ℕ}
use Prim.Native.String.{String}
use mind_runtime.Base.Tests.{Eq, pair_eq, if◌then◌else◌, ltb, nat_eqb}
use mind_runtime.Base.Lists.{All}
use mind_runtime.Base.Text.{codes}
use mind_runtime.Base.Dicts.{Dict, keys, contains, Distinct}

-- Values that an encoding tells apart.
abbrev pub eq_by {ℓ κ} :
    {A : Type ℓ} {B : Type κ} ⦃e : Eq B⦄ (f : A → B) (g : B → A) → ((a : A) → g (f a) ≡ a) → Eq A
eq_by ⦃e⦄ f g h = record {
  beq = λ a b. e.beq (f a) (f b);
  beq_iff = λ a b. (
    λ same. sym (h a) ∙ ap g ((e.beq_iff (f a) (f b)).0 same) ∙ h b,
    λ p. (e.beq_iff (f a) (f b)).1 (ap f p),
  );
}

-- The equality of pairs, of those of their parts.
infixr 4 ◌⊗◌
abbrev pub ◌⊗◌ {ℓ κ} : {A : Type ℓ} {B : Type κ} → Eq A → Eq B → Eq (A × B)
e ⊗ f = pair_eq ⦃e = e⦄ ⦃f = f⦄

module _ {ℓ} {A : Type ℓ} ⦃e : Eq A⦄ where
  unfoldable pub list_eqb : List A → List A → Bool
  list_eqb [] [] = true
  list_eqb (x ∷ xs) (y ∷ ys) = e.beq x y && list_eqb xs ys
  list_eqb _ _ = false

  pub list_eqb_iff : (xs ys : List A) → (list_eqb xs ys ≡ true) ↔ (xs ≡ ys)
  unfolding list_eqb
  list_eqb_iff [] [] = ground arith
  list_eqb_iff [] (y ∷ ys) = ground arith
  list_eqb_iff (x ∷ xs) [] = ground arith
  list_eqb_iff (x ∷ xs) (y ∷ ys) = ground (arith, e.beq_iff x y, list_eqb_iff xs ys)

  instance abbrev pub list_eq : Eq (List A)
  list_eq = record { beq = list_eqb; beq_iff = list_eqb_iff }

-- The order of texts by their characters, which is also that of their bytes in UTF-8.
abbrev codes_before : List ℕ → List ℕ → Bool
codes_before [] _ = true
codes_before (_ ∷ _) [] = false
codes_before (a ∷ rest_a) (b ∷ rest_b) =
    let rest = codes_before rest_a rest_b in
    if ltb a b then true else if nat_eqb a b then rest else false

unfoldable pub text_before : String → String → Bool
text_before a b = codes_before (codes a) (codes b)

module _ {ℓ} {A : Type ℓ} where
  -- `x` goes before the first entry that does not have to stand before it.
  abbrev pub place : (A → A → Bool) → A → List A → List A
  place before x [] = x ∷ []
  place before x (y ∷ ys) =
      let rest = place before x ys in if before x y then x ∷ y ∷ ys else y ∷ rest

  abbrev pub sort_by : (A → A → Bool) → List A → List A
  sort_by before [] = []
  sort_by before (x ∷ xs) = place before x (sort_by before xs)

  pub All-place {κ} :
      (P : A → Type κ) (before : A → A → Bool) (x : A) (xs : List A)
      → P x
      → All P xs
      → All P (place before x xs)
  All-place P before x [] p h = (p, tt)
  All-place P before x (y ∷ ys) p h =
      elim (before x y) as (λ b. All P (if b then x ∷ y ∷ ys else y ∷ place before x ys)) [
        | true ↦ (p, h)
        | false ↦ (h.0, All-place P before x ys p h.1)
      ]

  pub All-sort_by {κ} :
      (P : A → Type κ) (before : A → A → Bool) (xs : List A) → All P xs → All P (sort_by before xs)
  All-sort_by P before [] h = tt
  All-sort_by P before (x ∷ xs) h =
      All-place P before x (sort_by before xs) h.0 (All-sort_by P before xs h.1)

module _ {ℓ κ} {K : Type ℓ} {V : Type κ} ⦃e : Eq K⦄ where
  pub contains-place :
      (before : K × V → K × V → Bool) (x : K × V) (xs : Dict K V) (k : K)
      → contains k (keys (place before x xs)) ≡ (if e.beq x.0 k then true else contains k (keys xs))
  contains-place before (i, v) [] k = refl
  contains-place before (i, v) ((j, w) ∷ ys) k = ground (arith, contains-place before (i, v) ys k)

  pub Distinct-place :
      (before : K × V → K × V → Bool) (x : K × V) (xs : Dict K V)
      → contains x.0 (keys xs) ≡ false
      → Distinct (keys xs)
      → Distinct (keys (place before x xs))
  Distinct-place before (i, v) [] h d = (refl, tt)
  Distinct-place before (i, v) ((j, w) ∷ ys) h d = ground (
    arith,
    contains-place before (i, v) ys j,
    e.beq_iff i j,
    e.beq_iff j i,
    Distinct-place before (i, v) ys,
  )

  pub contains-sort_by :
      (before : K × V → K × V → Bool) (xs : Dict K V) (k : K)
      → contains k (keys (sort_by before xs)) ≡ contains k (keys xs)
  contains-sort_by before [] k = refl
  contains-sort_by before ((i, v) ∷ xs) k =
      ground
        (arith, contains-place before (i, v) (sort_by before xs) k, contains-sort_by before xs k)

  pub Distinct-sort_by :
      (before : K × V → K × V → Bool) (xs : Dict K V)
      → Distinct (keys xs)
      → Distinct (keys (sort_by before xs))
  Distinct-sort_by before [] d = tt
  Distinct-sort_by before ((i, v) ∷ xs) d =
      Distinct-place before (i, v) (sort_by before xs) (contains-sort_by before xs i ∙ d.0)
        (Distinct-sort_by before xs d.1)
