-- ===== src/State/Resolver/Views.antt =====
-- What a resolved view holds: for each scope and dimension the last record, if it is in effect.
use mind_runtime.Base.{
  ℕ, ◌≡◌, refl, sym, ap, ◌∙◌, inl, inr, true, false, Option, none, some, List, [], ◌∷◌, String,
  pair_eq, pair_eqb, string_eq, Dict, keys, lookup, contains, Option-cases, Bool-cases, Eq-cases,
  beq_ne, beq_self, if◌then◌else◌, arith, ok, value_error, not-contains_of_none, contains_of_some,
  Ensures, Ensures-ok, Ensures-raise, Ensures-if, Ensures-bind, Bool,
}
use mind_runtime.Contracts.{Scope, scope_eq, RuntimeState}
use mind_runtime.State.Lifecycle.{is_known_lifecycle}
use mind_runtime.State.Resolver.{
  StateKey, current_at, load, no_currents, is_effective, resolve_order, resolve, EffectiveStateView,
  find_dimension, for_dimension,
}
use mind_runtime.State.Resolver.Loading.{
  UnderKey, latest, or_else, lookup-load, load-IsLoaded, no_currents-IsLoaded, test_true,
  test_false,
}

module _ {V : Type 0} where
  -- A record that is in effect at an instant.
  abbrev pub in_effect : ℕ → Option (RuntimeState V) → Option (RuntimeState V)
  in_effect now none = none
  in_effect now (some s) = if is_effective s now then some s else none

  current_at_eq :
      (key : StateKey) (d : Dict StateKey (RuntimeState V)) (s : RuntimeState V)
      → current_at key d ≡ ok s
      → lookup key d ≡ some s
  current_at_eq key d s h = ground arith

  not_in_effect :
      (listed live : Bool) (s : RuntimeState V)
      → live ≡ false
      → (if listed then if live then some s else none else none) ≡ none
  not_in_effect true live s h = rw h
  not_in_effect false live s h = refl

  -- One round: the record of the first key comes in front if it is in effect.
  found_cons :
      (now : ℕ) (scope : Scope) (dimension : String) (d : Dict StateKey (RuntimeState V))
      (key : StateKey) (order : List StateKey) (s : RuntimeState V) (ss : List (RuntimeState V))
      → UnderKey d
      → lookup key d ≡ some s
      → find_dimension dimension scope ss ≡ (
          if contains (scope, dimension) order
          then in_effect now (lookup (scope, dimension) d)
          else none)
      → find_dimension dimension scope (if is_effective s now then s ∷ ss else ss) ≡ (
          if contains (scope, dimension) (key ∷ order)
          then in_effect now (lookup (scope, dimension) d)
          else none)
  unfolding find_dimension
  found_cons now scope dimension d key order s ss u here ih =
      elim (Eq-cases key (scope, dimension)) [
        | inl same ↦
            let at_key : lookup (scope, dimension) d ≡ some s = rw (← same) here in
            let test = test_true s scope dimension (u key s here ∙ same) in
            let listed : pair_eqb key (scope, dimension) ≡ true =
              rw same (beq_self {A = StateKey} (scope, dimension)) in
            rw (listed, at_key)
              (elim (Bool-cases (is_effective s now)) [
                | inl live ↦ rw live (rw test)
                | inr gone ↦ rw gone ((rw at_key at ih) ∙ not_in_effect _ _ s gone)
              ])
        | inr other ↦
            let test = test_false s scope dimension (λ e. other (sym (u key s here) ∙ e)) in
            rw (beq_ne key (scope, dimension) other) (elim (Bool-cases (is_effective s now)) [
              | inl live ↦ rw live (rw test ih)
              | inr gone ↦ rw gone ih
            ])
      ]

  find-resolve_order :
      (now : ℕ) (scope : Scope) (dimension : String) (d : Dict StateKey (RuntimeState V))
      (order : List StateKey)
      → UnderKey d
      → Ensures
          (λ ss. find_dimension dimension scope ss ≡ (
            if contains (scope, dimension) order
            then in_effect now (lookup (scope, dimension) d)
            else none))
          (resolve_order now d order)
  unfolding resolve_order find_dimension
  find-resolve_order now scope dimension d [] u = Ensures-ok [] refl
  find-resolve_order now scope dimension d (key ∷ order) u =
      Ensures-bind (current_at key d) _ λ s e.
        Ensures-if (is_known_lifecycle s.status) _ _
          (λ known. Ensures-bind (resolve_order now d order) _ λ ss e'.
            let ih = (find-resolve_order now scope dimension d order u).at ss e' in
            Ensures-ok _
              (found_cons now scope dimension d key order s ss u (current_at_eq key d s e) ih))
          (λ opaque. Ensures-raise value_error)

  in_effect_listed :
      (now : ℕ) (key : StateKey) (d : Dict StateKey (RuntimeState V)) (order : List StateKey)
      → order ≡ keys d
      → (if contains key order then in_effect now (lookup key d) else none)
        ≡ in_effect now (lookup key d)
  in_effect_listed now key d order o = elim (Option-cases (lookup key d)) [
    | inl absent ↦ rw (o, not-contains_of_none key d absent, absent)
    | inr (s, here) ↦ rw (o, contains_of_some key s d here)
  ]

  or_else-none : (o : Option (RuntimeState V)) → or_else o none ≡ o
  or_else-none none = refl
  or_else-none (some s) = refl

  -- A resolved view answers, for every scope and dimension, with the last record that the snapshot
  -- and then the overlay hold for it, if that is in effect at the instant, and with nothing if not.
  pub for_dimension-resolve :
      (canonical overlay : List (RuntimeState V)) (now : ℕ) (view : EffectiveStateView V)
      (scope : Scope) (dimension : String)
      → resolve canonical now overlay ≡ ok view
      → for_dimension view dimension scope
        ≡ in_effect now
            (or_else (latest (scope, dimension) overlay) (latest (scope, dimension) canonical))
  unfolding resolve for_dimension
  for_dimension-resolve canonical overlay now view scope dimension h =
      let c = load overlay (load canonical no_currents) in
      let key : StateKey = (scope, dimension) in
      let (u, o, once) =
        load-IsLoaded overlay _ (load-IsLoaded canonical no_currents no_currents-IsLoaded) in
      let found =
        (Ensures-bind
            {Q = λ v.
              find_dimension dimension scope v.states ≡ in_effect now (lookup key c.currents)}
            (resolve_order now c.currents c.order)
            (λ ss. ok (record { states = ss; resolved_at = now }))
            λ ss e.
              Ensures-ok (record { states = ss; resolved_at = now })
                ((find-resolve_order now scope dimension c.currents c.order u).at ss e
                  ∙ in_effect_listed now key c.currents c.order o)).at
          view h in
      found
      ∙ ap (in_effect now) (
          lookup-load key overlay (load canonical no_currents)
          ∙ ap (or_else (latest key overlay))
              (lookup-load key canonical no_currents ∙ or_else-none (latest key canonical)))
