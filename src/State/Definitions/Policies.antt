-- ===== src/State/Definitions/Policies.antt =====
-- What a definition's validity policy can be, and what a registry holds.
use mind_runtime.Base.{
  add_time, max_time, ℕ, ◌+◌, String, ◌≡◌, refl, ◌≢◌, inl, inr, Bool, Option, none, some, List, [],
  ◌∷◌, arith, eq_iff, leb, Bool-cases, Option-cases, ◌==◌, nat_eq, string_eq, option_eq, list_eq,
  value_error, assertion_error, ok, raise, Ensures, Ensures-ok, Ensures-raise, Ensures-if,
  Ensures-bind, Ensures-map, All, keys, lookup, lookup-insert, lookup-insert_self, keys-insert_new,
  not-contains_of_none, Distinct, ◌>>=◌, Distinct-append_one, after_prefix, codes,
}
use mind_runtime.State.Definitions.{
  StateDefinition, ValidityPolicy, ValidityKind, indefinite, ttl, event_only, make_policy,
  check_policy, parse_validity_policy, parse_ttl, parse_duration, ttl_policy, Registry, register,
  registry_from, require, validity_policy,
}
use mind_runtime.State.Records.{valid_until_by}

-- A policy whose envelope is what its kind asks for.
abbrev Coherent : ValidityPolicy → Type 0
Coherent p = check_policy p.kind p.ttl ≡ ok tt

make_policy-Coherent : (p : ValidityPolicy) → Ensures Coherent (make_policy p)
unfolding make_policy
make_policy-Coherent p = Ensures-bind (check_policy p.kind p.ttl) _ (λ u e. Ensures-ok p e)

ttl_or_raise :
    (rest : Option (List ℕ))
    → Ensures Coherent
        (elim rest [ none ↦ raise value_error | some r ↦ parse_duration r >>= ttl_policy ])
ttl_or_raise none = Ensures-raise value_error
ttl_or_raise (some r) = Ensures-bind (parse_duration r) ttl_policy (λ t e. make_policy-Coherent _)

parse_ttl-Coherent : (text : String) → Ensures Coherent (parse_ttl text)
unfolding parse_ttl
parse_ttl-Coherent text = ttl_or_raise (after_prefix (codes "ttl:") (codes text))

parse-Coherent : (text : Option String) → Ensures Coherent (parse_validity_policy text)
unfolding parse_validity_policy
parse-Coherent none = make_policy-Coherent _
parse-Coherent (some text) =
    Ensures-if (text == "indefinite") _ _ (λ e. make_policy-Coherent _)
      (λ e.
        Ensures-if (text == "event_only") _ _ (λ e'. make_policy-Coherent _)
          (λ e'. parse_ttl-Coherent text))

add_time-no_assertion :
    (now t : ℕ) → (add_time now t >>= λ until. ok (some until)) ≢ raise assertion_error
add_time-no_assertion now t e = elim (Bool-cases (leb (now + t) max_time)) [
  | inl fits ↦ cc
  | inr past ↦ cc
]

envelope-no_assertion :
    (kind : ValidityKind) (t : Option ℕ) (refresh : Bool) (otherwise : Option ℕ) (now : ℕ)
    → check_policy kind t ≡ ok tt
    → valid_until_by (record { kind = kind; ttl = t; refresh_on_reaffirm = refresh }) otherwise now
      ≢ raise assertion_error
envelope-no_assertion ttl none refresh otherwise now h e = cc
envelope-no_assertion ttl (some t) refresh otherwise now h e = add_time-no_assertion now t e
envelope-no_assertion indefinite t refresh otherwise now h e = cc
envelope-no_assertion event_only t refresh otherwise now h e = cc

validity_policy-Coherent :
    {B : Type 0} (definitions : Registry B) (dimension : String)
    → Ensures Coherent (validity_policy dimension definitions)
unfolding validity_policy
validity_policy-Coherent definitions dimension =
    elim (Option-cases (lookup dimension definitions)) [
      | inl missing ↦ rw (missing, validity_policy) (make_policy-Coherent _)
      | inr (d, found) ↦ rw (found, validity_policy) (parse-Coherent d.default_validity_policy)
    ]

-- No policy that the registry gives for a dimension meets the assertion that a TTL policy has a
-- duration: under it the end of the envelope of a fresh or refreshed state is found, or lies
-- past the last representable time.
pub valid_until_by-validity_policy :
    {B : Type 0} (definitions : Registry B) (dimension : String) (policy : ValidityPolicy)
    (otherwise : Option ℕ) (now : ℕ)
    → validity_policy dimension definitions ≡ ok policy
    → valid_until_by policy otherwise now ≢ raise assertion_error
valid_until_by-validity_policy definitions dimension policy otherwise now h =
    envelope-no_assertion policy.kind policy.ttl policy.refresh_on_reaffirm otherwise now
      ((validity_policy-Coherent definitions dimension).at policy h)

module _ {B : Type 0} where
  -- The definitions that a registry built from `ds` answers for.
  abbrev Answers : Registry B → List (StateDefinition B) → Type 0
  Answers r ds = All (λ d. require d.key r ≡ ok d) ds

  register-Extends :
      (d : StateDefinition B) (r : Registry B)
      → Distinct (keys r)
      → Ensures
          (λ s.
            Distinct (keys s)
            × (require d.key s ≡ ok d)
            × ((k : String) (x : StateDefinition B) → require k r ≡ ok x → require k s ≡ ok x))
          (register d r)
  unfolding register
  register-Extends d r distinct = elim (Option-cases (lookup d.key r)) [
    | inl fresh ↦
        rw (fresh, register)
          (Ensures-ok _ (
            rw (keys-insert_new d.key d r fresh)
                (Distinct-append_one d.key (keys r) distinct (not-contains_of_none d.key r fresh)),
            rw (lookup-insert_self d.key d r, require) refl,
            λ k x h. ground (arith, lookup-insert d.key k d r, eq_iff d.key k),
          ))
    | inr (old, found) ↦ rw (found, register) (Ensures-raise value_error)
  ]

  registry_from-Extends :
      (ds : List (StateDefinition B)) (r : Registry B)
      → Distinct (keys r)
      → Ensures
          (λ s.
            Distinct (keys s)
            × Answers s ds
            × ((k : String) (x : StateDefinition B) → require k r ≡ ok x → require k s ≡ ok x))
          (registry_from ds r)
  unfolding registry_from
  registry_from-Extends [] r distinct = Ensures-ok r (distinct, tt, λ k x h. h)
  registry_from-Extends (d ∷ ds) r distinct = Ensures-bind (register d r) _ (λ s e.
      let (once, here, old) = (register-Extends d r distinct).at s e in
      Ensures-map (registry_from ds s) (registry_from-Extends ds s once)
        (λ t (last, all, kept). (last, (kept d.key d here, all), λ k x h. kept k x (old k x h))))

  -- A registry that is built from a list of definitions has no key twice and answers for the key of
  -- each definition of the list with that definition.
  pub registry_from-require :
      (ds : List (StateDefinition B)) (r : Registry B)
      → registry_from ds [] ≡ ok r
      → Distinct (keys r) × All (λ d. require d.key r ≡ ok d) ds
  registry_from-require ds r h =
      let (once, all, kept) = (registry_from-Extends ds [] tt).at r h in (once, all)
