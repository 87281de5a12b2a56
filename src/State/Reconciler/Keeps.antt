-- ===== src/State/Reconciler/Keeps.antt =====
-- What each loop of the reconciler keeps: one record to a key, and a chain of transitions from
-- every record to the one that replaces it.
use mind_runtime.Base.{
  ◌≡◌, refl, sym, ap, ◌∙◌, inl, inr, none, some, List, [], ◌∷◌, ◌++◌, pair_eq, string_eq, Dict,
  keys, lookup, insert, Distinct, lookup-insert_self, lookup-insert_ne, keys-insert_old,
  keys-insert_new, not-contains_of_none, Distinct-append_one, Eq-cases, append-nil, append_assoc,
  subst,
}
use mind_runtime.Contracts.{scope_eq, RuntimeState, StateTransition}
use mind_runtime.State.Resolver.{StateKey, state_key}
use mind_runtime.State.Resolver.Loading.{UnderKey-insert}
use mind_runtime.State.Interpretation.{StateIntent}
use mind_runtime.State.Steps.Moves.{Chain}
use mind_runtime.State.Reconciler.{Pass}
use mind_runtime.State.Reconciler.Lineage.{
  for_key, for_key-append, for_key-Chain_self, for_key-Chain_ne, Chain-append, Chain-state_key,
}

none_not_some : {A : Type 0} {a : A} → none ≡ some a → ⊥
none_not_some h = cc

module _ {V : Type 0} where
  -- The invariant of the loops.
  pub record IsKeyed (p : Pass V) : Type 0 where
    pub under_key :
        (key : StateKey) (s : RuntimeState V) → lookup key p.currents ≡ some s → state_key s ≡ key
    pub in_order : p.order ≡ keys p.currents
    pub once : Distinct p.order

module _ {V : Type 0} (intents : List (StateIntent V)) where
  -- The new transitions `ts` lead from each record of a pass to the record that the later pass
  -- holds under the same key.
  abbrev pub Leads :
      Dict StateKey (RuntimeState V)
      → List (StateTransition V)
      → Dict StateKey (RuntimeState V)
      → Type 0
  Leads d ts e =
      (key : StateKey) (s : RuntimeState V)
      → lookup key d ≡ some s
      → (s' : RuntimeState V) × (lookup key e ≡ some s') × Chain intents s (for_key key ts) s'

  pub record Extends (p q : Pass V) : Type 0 where
    pub added : List (StateTransition V)
    pub appended : q.transitions ≡ p.transitions ++ added
    pub leads : Leads p.currents added q.currents

  pub Leads-refl : (d : Dict StateKey (RuntimeState V)) → Leads d [] d
  Leads-refl d key s h = (s, h, refl)

  pub Leads-trans :
      (d e f : Dict StateKey (RuntimeState V)) (ts us : List (StateTransition V))
      → Leads d ts e
      → Leads e us f
      → Leads d (ts ++ us) f
  Leads-trans d e f ts us h k key s found =
      let (s', here, c) = h key s found in
      let (s'', there, c') = k key s' here in
      (
        s'',
        there,
        rw (for_key-append key ts us)
            (Chain-append intents s s' s'' (for_key key ts) (for_key key us) c c'),
      )

  -- Replacing a record by the end of a chain from it.
  pub Leads-insert :
      (d : Dict StateKey (RuntimeState V)) (key : StateKey) (cur new : RuntimeState V)
      (ts : List (StateTransition V))
      → lookup key d ≡ some cur
      → state_key cur ≡ key
      → Chain intents cur ts new
      → Leads d ts (insert key new d)
  Leads-insert d key cur new ts here keyed c key' s found = elim (Eq-cases key key') [
    | inl same ↦
        let at_key : cur ≡ s = cc in
        (
          new,
          rw (← same) (lookup-insert_self key new d),
          rw (← same, for_key-Chain_self intents key cur new ts c keyed)
              (subst (λ x. Chain intents x ts new) at_key c),
        )
    | inr other ↦ (
      s,
      lookup-insert_ne key key' new d other ∙ found,
      rw (for_key-Chain_ne intents key' cur new ts c (λ e. other (sym keyed ∙ e))),
    )
  ]

  pub Leads-insert_new :
      (d : Dict StateKey (RuntimeState V)) (key : StateKey) (new : RuntimeState V)
      → lookup key d ≡ none
      → Leads d [] (insert key new d)
  Leads-insert_new d key new absent key' s found = elim (Eq-cases key key') [
    | inl same ↦ absurd (none_not_some (sym absent ∙ ap (λ k. lookup k d) same ∙ found))
    | inr other ↦ (s, lookup-insert_ne key key' new d other ∙ found, refl)
  ]

  pub Extends-refl : (p : Pass V) → Extends p p
  Extends-refl p = record {
    added = [];
    appended = sym (append-nil p.transitions);
    leads = Leads-refl p.currents;
  }

  pub Extends-trans : (p q r : Pass V) → Extends p q → Extends q r → Extends p r
  Extends-trans p q r h k = record {
    added = h.added ++ k.added;
    appended = k.appended ∙ rw h.appended (append_assoc p.transitions h.added k.added);
    leads = Leads-trans p.currents q.currents r.currents h.added k.added h.leads k.leads;
  }

  -- What a loop, or one round of it, ensures.
  abbrev pub Keeps : Pass V → Pass V → Type 0
  Keeps p q = IsKeyed q × Extends p q

  -- A round that replaces the record of a key by the end of a chain.
  pub Keeps-replace :
      (p : Pass V) (key : StateKey) (cur new : RuntimeState V) (ts : List (StateTransition V))
      → IsKeyed p
      → lookup key p.currents ≡ some cur
      → Chain intents cur ts new
      → Keeps p
          (record p { currents = insert key new p.currents; transitions = p.transitions ++ ts })
  Keeps-replace p key cur new ts k here c = (
    record {
      under_key =
          UnderKey-insert p.currents key new k.under_key
            (Chain-state_key intents cur new ts c ∙ k.under_key key cur here);
      in_order = k.in_order ∙ sym (keys-insert_old key new cur p.currents here);
      once = k.once;
    },
    record {
      added = ts;
      appended = refl;
      leads = Leads-insert p.currents key cur new ts here (k.under_key key cur here) c;
    },
  )

  -- A round that adds a key.
  pub Keeps-add :
      (p : Pass V) (key : StateKey) (new : RuntimeState V)
      → IsKeyed p
      → lookup key p.currents ≡ none
      → state_key new ≡ key
      → Keeps p (record p { currents = insert key new p.currents; order = p.order ++ (key ∷ []) })
  Keeps-add p key new k absent keyed = (
    record {
      under_key = UnderKey-insert p.currents key new k.under_key keyed;
      in_order = rw k.in_order (sym (keys-insert_new key new p.currents absent));
      once =
          Distinct-append_one key p.order k.once
            (rw k.in_order (not-contains_of_none key p.currents absent));
    },
    record {
      added = [];
      appended = sym (append-nil p.transitions);
      leads = Leads-insert_new p.currents key new absent;
    },
  )

  -- A round that only defers an intent.
  pub Keeps-defer :
      (p : Pass V) (deferred : List (StateIntent V))
      → IsKeyed p
      → Keeps p (record p { deferred = deferred })
  Keeps-defer p deferred k = (
    record { under_key = k.under_key; in_order = k.in_order; once = k.once },
    record { added = []; appended = sym (append-nil p.transitions); leads = Leads-refl p.currents },
  )
