-- ===== src/Base/Members.antt =====
-- Membership in a list, kept by a sort.
use mathlib.Core.Path.{◌≡◌, refl, ap, subst, ◌∙◌}
use mathlib.Core.Logic.{◌⊎◌, inl, inr}
use mathlib.Core.Bool.{Bool, true, false}
use mathlib.Core.Option.{some}
use mathlib.Core.List.{List, [], ◌∷◌}
use mind_runtime.Base.Tests.{Eq, if◌then◌else◌, Bool-cases}
use mind_runtime.Base.Lists.{some_inj}
use mind_runtime.Base.Dicts.{Dict, lookup}
use mind_runtime.Base.Sorting.{place, sort_by}

module _ {A : Type 0} where
  abbrev pub Member : A → List A → Type 0
  Member x [] = ⊥
  Member x (y ∷ ys) = (y ≡ x) ⊎ Member x ys

  Member-place_new : (before : A → A → Bool) (x : A) (ys : List A) → Member x (place before x ys)
  Member-place_new before x [] = inl refl
  Member-place_new before x (y ∷ ys) =
      elim (before x y) as (λ b. Member x (if b then x ∷ y ∷ ys else y ∷ place before x ys)) [
        | true ↦ inl refl
        | false ↦ inr (Member-place_new before x ys)
      ]

  Member-place_old :
      (before : A → A → Bool) (x z : A) (ys : List A) → Member z ys → Member z (place before x ys)
  Member-place_old before x z [] m = elim m [ ]
  Member-place_old before x z (y ∷ ys) m =
      elim (before x y) as (λ b. Member z (if b then x ∷ y ∷ ys else y ∷ place before x ys)) [
        | true ↦ inr m
        | false ↦ elim m [
          | inl same ↦ inl same
          | inr later ↦ inr (Member-place_old before x z ys later)
        ]
      ]

  pub Member-sort_by :
      (before : A → A → Bool) (z : A) (xs : List A) → Member z xs → Member z (sort_by before xs)
  Member-sort_by before z [] m = m
  Member-sort_by before z (x ∷ xs) (inl same) =
      subst (λ w. Member w (place before x (sort_by before xs))) same
        (Member-place_new before x (sort_by before xs))
  Member-sort_by before z (x ∷ xs) (inr m) =
      Member-place_old before x z (sort_by before xs) (Member-sort_by before z xs m)

pub Member-lookup :
    {K V : Type 0} ⦃e : Eq K⦄ (k : K) (v : V) (d : Dict K V) → lookup k d ≡ some v → Member (k, v) d
Member-lookup ⦃e⦄ k v [] h = cc
Member-lookup ⦃e⦄ k v ((j, w) ∷ d) h = elim (Bool-cases (e.beq j k)) [
  | inl same ↦
      let value : w ≡ v = some_inj (rw (same) at h) in
      inl (ap (λ x. (x, w)) ((e.beq_iff j k).0 same) ∙ ap (λ y. (k, y)) value)
  | inr other ↦ inr (Member-lookup k v d (rw (other) at h))
]
