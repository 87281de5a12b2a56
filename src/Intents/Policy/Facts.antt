-- ===== src/Intents/Policy/Facts.antt =====
-- The facts of a context without a key that occurs twice.
use mind_runtime.Base.{
  keys-append, contains-append, insert_new, append_assoc, append-nil, Distinct-append_one, pair_eq,
  String, ◌≡◌, refl, sym, ap, subst, ◌∙◌, inl, inr, true, false, none, some, List, [], ◌∷◌, ◌++◌,
  arith, eq_iff, Bool-cases, nat_eq, string_eq, option_eq, list_eq, Dict, keys, contains, Distinct,
}
use mind_runtime.Intents.Policy.{facts}

some-none : {A : Type 0} {a : A} → some a ≡ none → ⊥
some-none h = cc

not_before : (k : String) (c d : List String) → Distinct (c ++ (k ∷ d)) → contains k c ≡ false
not_before k [] d h = refl
not_before k (j ∷ c) d h =
    ground (arith, contains-append j c (k ∷ d), eq_iff k j, eq_iff j k, not_before k c d h.1)

facts_new :
    (acc : Dict String String) (k v : String) (l : List (String × String))
    → contains k (keys acc) ≡ false
    → facts acc ((k, v) ∷ l) ≡ facts (acc ++ ((k, v) ∷ [])) l
unfolding facts
facts_new acc k v l h = rw (h, insert_new k v acc h) refl

facts_old :
    (acc : Dict String String) (k v : String) (l : List (String × String))
    → contains k (keys acc) ≡ true
    → (facts acc ((k, v) ∷ l)).1 ≡ some k
unfolding facts
facts_old acc k v l h = rw h refl

next_Distinct :
    (acc : Dict String String) (k v : String)
    → Distinct (keys acc)
    → contains k (keys acc) ≡ false
    → Distinct (keys (acc ++ ((k, v) ∷ [])))
next_Distinct acc k v h fresh =
    rw (keys-append acc ((k, v) ∷ [])) (Distinct-append_one k (keys acc) h fresh)

facts-none :
    (acc : Dict String String) (l : List (String × String))
    → Distinct (keys acc)
    → (facts acc l).1 ≡ none
    → ((facts acc l).0 ≡ acc ++ l) × Distinct (keys (acc ++ l))
unfolding facts
facts-none acc [] h e = (sym (append-nil acc), rw (append-nil acc) h)
facts-none acc ((k, v) ∷ l) h e = elim (Bool-cases (contains k (keys acc))) [
  | inl old ↦ elim (some-none (sym (facts_old acc k v l old) ∙ e)) [ ]
  | inr fresh ↦
      let rest =
        facts-none (acc ++ ((k, v) ∷ [])) l (next_Distinct acc k v h fresh)
          (ap (λ r. r.1) (sym (facts_new acc k v l fresh)) ∙ e) in
      (
        ap (λ r. r.0) (facts_new acc k v l fresh) ∙ rest.0 ∙ append_assoc acc ((k, v) ∷ []) l,
        subst (λ d. Distinct (keys d)) (append_assoc acc ((k, v) ∷ []) l) rest.1,
      )
]

facts-Distinct :
    (acc : Dict String String) (l : List (String × String))
    → Distinct (keys (acc ++ l))
    → (facts acc l).1 ≡ none
unfolding facts
facts-Distinct acc [] h = refl
facts-Distinct acc ((k, v) ∷ l) h =
    let fresh : contains k (keys acc) ≡ false =
      not_before k (keys acc) (keys l) (rw (keys-append acc ((k, v) ∷ l)) at h) in
    ap (λ r. r.1) (facts_new acc k v l fresh)
    ∙ facts-Distinct (acc ++ ((k, v) ∷ [])) l
        (subst (λ d. Distinct (keys d)) (sym (append_assoc acc ((k, v) ∷ []) l)) h)

-- Facts without a key that occurs twice are read as they are.
pub facts-eq :
    (l : List (String × String)) → (facts [] l).1 ≡ none → ((facts [] l).0 ≡ l) × Distinct (keys l)
facts-eq l e = facts-none [] l tt e

pub facts-once : (l : List (String × String)) → Distinct (keys l) → (facts [] l).1 ≡ none
facts-once l h = facts-Distinct [] l h
