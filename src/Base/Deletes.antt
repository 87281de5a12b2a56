-- ===== src/Base/Deletes.antt =====
-- Entries that are new to a dictionary, and entries that are deleted from it.
use mathlib.Core.Path.{◌≡◌, refl, ap}
use mathlib.Core.Bool.{true, false}
use mathlib.Core.List.{List, [], ◌∷◌, ◌++◌}
use native.Mathlib.Omega.{arith}
use mind_runtime.Base.Tests.{Eq, if◌then◌else◌}
use mind_runtime.Base.Dicts.{Dict, keys, contains, lookup, insert, erase}
use mathlib.Core.Option.{some}

module _ {ℓ κ} {K : Type ℓ} {V : Type κ} where
  pub keys-append : (c d : Dict K V) → keys (c ++ d) ≡ keys c ++ keys d
  keys-append [] d = refl
  keys-append ((k, v) ∷ c) d = ap (λ l. k ∷ l) (keys-append c d)

module _ {ℓ} {K : Type ℓ} ⦃e : Eq K⦄ where
  pub contains-append :
      (k : K) (l m : List K) → contains k (l ++ m) ≡ (if contains k l then true else contains k m)
  contains-append k [] m = refl
  contains-append k (j ∷ l) m = ground (arith, contains-append k l m)

  pub insert_new {κ} :
      {V : Type κ} (k : K) (v : V) (d : Dict K V)
      → contains k (keys d) ≡ false
      → insert k v d ≡ d ++ ((k, v) ∷ [])
  insert_new k v [] h = refl
  insert_new k v ((j, w) ∷ d) h = ground (arith, insert_new k v d)

  pub erase-append {κ} :
      {V : Type κ} (k : K) (v : V) (c d : Dict K V)
      → contains k (keys c) ≡ false
      → erase k (c ++ ((k, v) ∷ d)) ≡ c ++ d
  erase-append k v [] d h = ground (arith, e.beq_iff k k)
  erase-append k v ((j, w) ∷ c) d h = ground (arith, erase-append k v c d)

  pub erase-absent {κ} :
      {V : Type κ} (k : K) (d : Dict K V) → contains k (keys d) ≡ false → erase k d ≡ d
  erase-absent k [] h = refl
  erase-absent k ((j, w) ∷ d) h = ground (arith, erase-absent k d)

  pub contains-erase {κ} :
      {V : Type κ} (k j : K) (d : Dict K V)
      → contains j (keys d) ≡ false
      → contains j (keys (erase k d)) ≡ false
  contains-erase k j [] h = refl
  contains-erase k j ((i, w) ∷ d) h = ground (arith, contains-erase k j d)

  pub lookup-append_new {κ} :
      {V : Type κ} (k : K) (v : V) (c d : Dict K V)
      → contains k (keys c) ≡ false
      → lookup k (c ++ ((k, v) ∷ d)) ≡ some v
  lookup-append_new k v [] d h = ground (arith, e.beq_iff k k)
  lookup-append_new k v ((j, w) ∷ c) d h = ground (arith, lookup-append_new k v c d)
