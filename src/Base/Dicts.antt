-- ===== src/Base/Dicts.antt =====
-- A Python dict, in insertion order, over keys with an equality.
use mathlib.Core.Path.{◌≡◌, refl}
use mathlib.Core.Logic.{◌≢◌}
use mathlib.Core.Bool.{Bool, true, false}
use mathlib.Core.Option.{Option, none, some}
use mathlib.Core.List.{List, [], ◌∷◌, ◌++◌}
use native.Mathlib.Omega.{arith}
use mind_runtime.Base.Tests.{Eq, if◌then◌else◌}

abbrev pub Dict {ℓ κ} : Type ℓ → Type κ → Type (ℓ ⊔ κ)
Dict K V = List (K × V)

abbrev pub keys {ℓ κ} : {K : Type ℓ} {V : Type κ} → Dict K V → List K
keys [] = []
keys ((k, v) ∷ d) = k ∷ keys d

abbrev pub values {ℓ κ} : {K : Type ℓ} {V : Type κ} → Dict K V → List V
values [] = []
values ((k, v) ∷ d) = v ∷ values d

abbrev pub contains {ℓ} : {K : Type ℓ} ⦃e : Eq K⦄ → K → List K → Bool
contains ⦃e⦄ k [] = false
contains ⦃e⦄ k (j ∷ l) = if e.beq j k then true else contains k l

module _ {ℓ κ} {K : Type ℓ} {V : Type κ} ⦃e : Eq K⦄ where
  -- `d.get(k)`
  abbrev pub lookup : K → Dict K V → Option V
  lookup k [] = none
  lookup k ((j, v) ∷ d) = if e.beq j k then some v else lookup k d

  -- `d[k] = v`: an old key keeps its place, a new one comes last.
  abbrev pub insert : K → V → Dict K V → Dict K V
  insert k v [] = (k, v) ∷ []
  insert k v ((j, w) ∷ d) = if e.beq j k then (j, v) ∷ d else (j, w) ∷ insert k v d

  -- `del d[k]`
  abbrev pub erase : K → Dict K V → Dict K V
  erase k [] = []
  erase k ((j, w) ∷ d) = if e.beq j k then d else (j, w) ∷ erase k d

  pub lookup-insert :
      (k j : K) (v : V) (d : Dict K V)
      → lookup j (insert k v d) ≡ (if e.beq k j then some v else lookup j d)
  lookup-insert k j v [] = refl
  lookup-insert k j v ((i, w) ∷ d) =
      ground (arith, e.beq_iff k j, e.beq_iff i k, e.beq_iff i j, lookup-insert k j v d)

  pub keys-insert :
      (k : K) (v : V) (d : Dict K V)
      → keys (insert k v d) ≡ (if contains k (keys d) then keys d else keys d ++ (k ∷ []))
  keys-insert k v [] = refl
  keys-insert k v ((i, w) ∷ d) = ground (arith, keys-insert k v d)

  pub lookup-contains :
      (k : K) (d : Dict K V)
      → contains k (keys d) ≡ elim (lookup k d) [ none ↦ false | some _ ↦ true ]
  lookup-contains k [] = refl
  lookup-contains k ((i, w) ∷ d) = ground (arith, lookup-contains k d)

  pub lookup-erase_ne : (k j : K) (d : Dict K V) → k ≢ j → lookup j (erase k d) ≡ lookup j d
  lookup-erase_ne k j [] h = refl
  lookup-erase_ne k j ((i, w) ∷ d) h =
      ground (arith, e.beq_iff i k, e.beq_iff i j, lookup-erase_ne k j d h)

  pub keys-insert_old :
      (k : K) (v w : V) (d : Dict K V) → lookup k d ≡ some w → keys (insert k v d) ≡ keys d
  keys-insert_old k v w d h = ground (arith, keys-insert k v d, lookup-contains k d)

  pub keys-insert_new :
      (k : K) (v : V) (d : Dict K V) → lookup k d ≡ none → keys (insert k v d) ≡ keys d ++ (k ∷ [])
  keys-insert_new k v d h = ground (arith, keys-insert k v d, lookup-contains k d)

  pub not-contains_of_none :
      (k : K) (d : Dict K V) → lookup k d ≡ none → contains k (keys d) ≡ false
  not-contains_of_none k d h = ground (arith, lookup-contains k d)

  pub contains_of_some :
      (k : K) (w : V) (d : Dict K V) → lookup k d ≡ some w → contains k (keys d) ≡ true
  contains_of_some k w d h = ground (arith, lookup-contains k d)

  pub lookup-insert_self : (k : K) (v : V) (d : Dict K V) → lookup k (insert k v d) ≡ some v
  lookup-insert_self k v d = ground (arith, lookup-insert k k v d, e.beq_iff k k)

  pub lookup-insert_ne :
      (k j : K) (v : V) (d : Dict K V) → k ≢ j → lookup j (insert k v d) ≡ lookup j d
  lookup-insert_ne k j v d h = ground (arith, lookup-insert k j v d, e.beq_iff k j)

-- No entry occurs twice.
abbrev pub Distinct {ℓ} : {K : Type ℓ} ⦃e : Eq K⦄ → List K → Type 0
Distinct ⦃e⦄ [] = Unit
Distinct ⦃e⦄ (k ∷ l) = (contains k l ≡ false) × Distinct l

module _ {ℓ} {K : Type ℓ} ⦃e : Eq K⦄ where
  pub contains-append_one :
      (k j : K) (l : List K)
      → contains j (l ++ (k ∷ [])) ≡ (if contains j l then true else e.beq k j)
  contains-append_one k j [] = ground arith
  contains-append_one k j (i ∷ l) = ground (arith, contains-append_one k j l)

  pub Distinct-append_one :
      (k : K) (l : List K) → Distinct l → contains k l ≡ false → Distinct (l ++ (k ∷ []))
  Distinct-append_one k [] d h = (refl, tt)
  Distinct-append_one k (i ∷ l) d h =
      ground (
        arith,
        contains-append_one k i l,
        e.beq_iff k i,
        e.beq_iff i k,
        Distinct-append_one k l d.1,
      )
