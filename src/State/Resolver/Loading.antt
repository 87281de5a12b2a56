-- ===== src/State/Resolver/Loading.antt =====
-- Reading a snapshot: the last record of each scope and dimension, in the order of the first.
use mind_runtime.Base.{
  ◌≡◌, ◌≢◌, refl, sym, ap, ◌∙◌, inl, inr, true, false, Option, none, some, List, [], ◌∷◌, String,
  ◌==◌, ◌&&◌, pair_eq, pair_eqb, string_eq, Dict, keys, lookup, insert, Distinct, contains,
  Option-cases, Bool-cases, Eq-cases, eq_iff, and_true, true_and, beq_ne, if◌then◌else◌, arith,
  lookup-insert, lookup-insert_self, lookup-insert_ne, keys-insert_old, keys-insert_new,
  not-contains_of_none, Distinct-append_one,
}
use mind_runtime.Contracts.{Scope, scope_eq, scope_eqb_iff, RuntimeState}
use mind_runtime.State.Resolver.{
  StateKey, state_key, Currents, order_with, load, load_one, no_currents,
}

pub contains_tail :
    (key k : StateKey) (order : List StateKey)
    → key ≢ k
    → contains k (key ∷ order) ≡ true
    → contains k order ≡ true
contains_tail key k order ne h = ground (arith, beq_ne key k ne)

module _ {V : Type 0} where
  abbrev pub UnderKey : Dict StateKey (RuntimeState V) → Type 0
  UnderKey d = (key : StateKey) (s : RuntimeState V) → lookup key d ≡ some s → state_key s ≡ key

  pub UnderKey-insert :
      (d : Dict StateKey (RuntimeState V)) (key : StateKey) (new : RuntimeState V)
      → UnderKey d
      → state_key new ≡ key
      → UnderKey (insert key new d)
  UnderKey-insert d key new u keyed key' s found = elim (Eq-cases key key') [
    | inl same ↦
        let e : lookup key (insert key new d) ≡ some s =
          ap (λ k. lookup k (insert key new d)) same ∙ found in
        let it : new ≡ s = cc (lookup-insert_self key new d) in ap state_key (sym it) ∙ keyed ∙ same
    | inr other ↦ u key' s (sym (lookup-insert_ne key key' new d other) ∙ found)
  ]

  -- The record that a snapshot holds for a key: the last one.
  abbrev pub latest : StateKey → List (RuntimeState V) → Option (RuntimeState V)
  latest key [] = none
  latest key (s ∷ ss) = elim (latest key ss) [
    | some t ↦ some t
    | none ↦ if pair_eqb (state_key s) key then some s else none
  ]

  abbrev pub or_else : Option (RuntimeState V) → Option (RuntimeState V) → Option (RuntimeState V)
  or_else none o = o
  or_else (some s) o = some s

  pub lookup-load :
      (key : StateKey) (ss : List (RuntimeState V)) (c : Currents V)
      → lookup key (load ss c).currents ≡ or_else (latest key ss) (lookup key c.currents)
  unfolding load
  lookup-load key [] c = refl
  lookup-load key (s ∷ ss) c =
      ground
        (arith, lookup-load key ss (load_one s c), lookup-insert (state_key s) key s c.currents)

  -- Reading a snapshot keeps one record to a key, in the order of first occurrence.
  abbrev pub IsLoaded : Currents V → Type 0
  IsLoaded c = UnderKey c.currents × (c.order ≡ keys c.currents) × Distinct c.order

  load_one-IsLoaded : (s : RuntimeState V) (c : Currents V) → IsLoaded c → IsLoaded (load_one s c)
  load_one-IsLoaded s c h =
      let u = UnderKey-insert c.currents (state_key s) s h.0 refl in
      elim (Option-cases (lookup (state_key s) c.currents)) [
        | inl absent ↦
            rw (absent, order_with)
              (
                u,
                rw h.1 (sym (keys-insert_new (state_key s) s c.currents absent)),
                Distinct-append_one (state_key s) c.order h.2
                    (rw h.1 (not-contains_of_none (state_key s) c.currents absent)),
              )
        | inr (old, here) ↦
            rw (here, order_with)
              (u, h.1 ∙ sym (keys-insert_old (state_key s) s old c.currents here), h.2)
      ]

  pub or_else-some :
      {o : Option (RuntimeState V)} {s : RuntimeState V} → o ≡ some s → or_else o none ≡ some s
  or_else-some h = rw h refl

  pub load-IsLoaded :
      (ss : List (RuntimeState V)) (c : Currents V) → IsLoaded c → IsLoaded (load ss c)
  unfolding load
  load-IsLoaded [] c h = h
  load-IsLoaded (s ∷ ss) c h = load-IsLoaded ss (load_one s c) (load_one-IsLoaded s c h)

  pub no_currents-IsLoaded : IsLoaded no_currents
  no_currents-IsLoaded = ((λ key s h. cc), refl, tt)

  pub test_true :
      (s : RuntimeState V) (scope : Scope) (dimension : String)
      → state_key s ≡ (scope, dimension)
      → (s.dimension == dimension && s.scope == scope) ≡ true
  test_true s scope dimension e =
      true_and ((eq_iff s.dimension dimension).1 (ap (λ (k : StateKey). k.1) e))
        ((scope_eqb_iff s.scope scope).1 (ap (λ (k : StateKey). k.0) e))

  pub test_false :
      (s : RuntimeState V) (scope : Scope) (dimension : String)
      → state_key s ≢ (scope, dimension)
      → (s.dimension == dimension && s.scope == scope) ≡ false
  test_false s scope dimension ne =
      elim (Bool-cases (s.dimension == dimension && s.scope == scope)) [
        | inl both ↦
            let (d, k) = and_true both in
            absurd (
              ne (λ j. ((scope_eqb_iff s.scope scope).0 k j, (eq_iff s.dimension dimension).0 d j)))
        | inr not_both ↦ not_both
      ]
