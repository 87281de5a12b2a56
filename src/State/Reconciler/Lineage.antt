-- ===== src/State/Reconciler/Lineage.antt =====
-- Chains of transitions, and what they say of one dimension.
use mind_runtime.Base.{
  ◌≤◌, ◌≡◌, refl, sym, ap, ◌∙◌, ◌≢◌, List, [], ◌∷◌, ◌++◌, arith, if◌then◌else◌, pair_eq, pair_eqb,
  pair_eqb_iff, string_eq, beq_ne,
}
use mind_runtime.Contracts.{scope_eq, RuntimeState, StateTransition}
use mind_runtime.State.Resolver.{StateKey, state_key}
use mind_runtime.State.Interpretation.{StateIntent}
use mind_runtime.State.Steps.Moves.{Follows, Chain}

module _ {V : Type 0} where
  -- The transitions of one dimension of one scope.
  abbrev pub for_key : StateKey → List (StateTransition V) → List (StateTransition V)
  for_key key [] = []
  for_key key (t ∷ ts) =
      if pair_eqb (state_key t.from_state) key then t ∷ for_key key ts else for_key key ts

  pub for_key-append :
      (key : StateKey) (ts us : List (StateTransition V))
      → for_key key (ts ++ us) ≡ for_key key ts ++ for_key key us
  for_key-append key [] us = refl
  for_key-append key (t ∷ ts) us = ground (arith, for_key-append key ts us)

module _ {V : Type 0} (intents : List (StateIntent V)) where
  pub Follows-state_key : (a b : RuntimeState V) → Follows intents a b → state_key b ≡ state_key a
  Follows-state_key a b f = λ j. (f.same_scope j, f.same_dimension j)

  pub Chain-state_key :
      (a b : RuntimeState V) (ts : List (StateTransition V))
      → Chain intents a ts b
      → state_key b ≡ state_key a
  Chain-state_key a b [] h = rw h
  Chain-state_key a b (t ∷ ts) h =
      Chain-state_key t.to_state b ts h.2
      ∙ Follows-state_key t.from_state t.to_state h.1
      ∙ rw h.0 refl

  pub Chain-append :
      (a b c : RuntimeState V) (ts us : List (StateTransition V))
      → Chain intents a ts b
      → Chain intents b us c
      → Chain intents a (ts ++ us) c
  Chain-append a b c [] us h k = rw (← h) k
  Chain-append a b c (t ∷ ts) us h k = (h.0, h.1, Chain-append t.to_state b c ts us h.2 k)

  pub for_key-Chain_self :
      (key : StateKey) (a b : RuntimeState V) (ts : List (StateTransition V))
      → Chain intents a ts b
      → state_key a ≡ key
      → for_key key ts ≡ ts
  for_key-Chain_self key a b [] h e = refl
  for_key-Chain_self key a b (t ∷ ts) h e =
      let from : state_key t.from_state ≡ key = rw h.0 e in
      rw ((pair_eqb_iff _ _).1 from) (
        ap (◌∷◌ t) (
          for_key-Chain_self key t.to_state b ts h.2
            (Follows-state_key t.from_state t.to_state h.1 ∙ from)))

  pub for_key-Chain_ne :
      (key : StateKey) (a b : RuntimeState V) (ts : List (StateTransition V))
      → Chain intents a ts b
      → state_key a ≢ key
      → for_key key ts ≡ []
  for_key-Chain_ne key a b [] h ne = refl
  for_key-Chain_ne key a b (t ∷ ts) h ne =
      let from : state_key t.from_state ≢ key = λ e. ne (ap state_key (sym h.0) ∙ e) in
      rw (beq_ne (state_key t.from_state) key from) (
        for_key-Chain_ne key t.to_state b ts h.2
          (λ e. from (sym (Follows-state_key t.from_state t.to_state h.1) ∙ e)))

  -- A chain never lowers the version.
  pub version-le_of_Chain :
      (a b : RuntimeState V) (ts : List (StateTransition V))
      → Chain intents a ts b
      → a.version ≤ b.version
  version-le_of_Chain a b [] h = omega (arith, ap (λ s. s.version) h)
  version-le_of_Chain a b (t ∷ ts) h =
      omega
        (arith, version-le_of_Chain t.to_state b ts h.2, h.1.next_version, ap (λ s. s.version) h.0)
