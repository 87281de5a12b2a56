-- ===== src/Intents/Sqlite/Rows.antt =====
-- What a query of the durable backend gives once a row is added.
use mind_runtime.Base.{
  pair_eqb, place, find, last, find-All-false, find-eq-none, pair_eq, integrity_error, ℕ, ◌≤◌,
  String, ◌≡◌, refl, ap, ◌∙◌, ◌≢◌, inl, inr, Bool, true, false, not, ◌&&◌, none, some, List, [],
  ◌∷◌, ◌++◌, arith, leb, if◌then◌else◌, Bool-cases, ◌==◌, nat_eq, string_eq, option_eq, list_eq,
  beq_ne, raise_if, Ensures, Ensures-ok, Ensures-bind, All, All-map, sort_by, All-sort_by,
}
use mind_runtime.Contracts.{scope_eq}
use mind_runtime.Intents.Records.{status_eq, Intent, IntentTransition}
use mind_runtime.Intents.Backend.{IntentKey, key_of, has_key}
use mind_runtime.Intents.Sqlite.{
  IntentTables, select, exists, is_of, moves_of, by_version, by_transition_version,
  history_or_empty, transition_rows, insert_intent, insert_transition,
}

at_most : (n m : ℕ) → n ≤ m → leb n m ≡ true
at_most n m h = ground arith

second_false : (a b : Bool) → a ≡ true → (a && b) ≡ false → b ≡ false
second_false a b p q = ground arith

module _ {A : Type 0} where
  select-append :
      (test : A → Bool) (xs : List A) (y : A)
      → select test (xs ++ (y ∷ []))
        ≡ (if test y then select test xs ++ (y ∷ []) else select test xs)
  select-append test [] y = refl
  select-append test (x ∷ xs) y = ground (arith, select-append test xs y)

  select-append_in :
      (test : A → Bool) (xs : List A) (y : A)
      → test y ≡ true
      → select test (xs ++ (y ∷ [])) ≡ select test xs ++ (y ∷ [])
  select-append_in test xs y h = ground (arith, select-append test xs y)

  select-append_out :
      (test : A → Bool) (xs : List A) (y : A)
      → test y ≡ false
      → select test (xs ++ (y ∷ [])) ≡ select test xs
  select-append_out test xs y h = ground (arith, select-append test xs y)

  All-unplace :
      (P : A → Type 0) (before : A → A → Bool) (x : A) (ys : List A)
      → All P (place before x ys)
      → P x × All P ys
  All-unplace P before x [] = λ a. (a.0, tt)
  All-unplace P before x (y ∷ ys) =
      elim (before x y)
        as (λ b. All P (if b then x ∷ y ∷ ys else y ∷ place before x ys) → P x × All P (y ∷ ys)) [
          | true ↦ λ a. (a.0, a.1)
          | false ↦ λ a. let q = All-unplace P before x ys a.1 in (q.0, (a.0, q.1))
        ]

  -- What holds of all entries of a sorted list holds of all entries of the list.
  All-unsort :
      (P : A → Type 0) (before : A → A → Bool) (xs : List A) → All P (sort_by before xs) → All P xs
  All-unsort P before [] a = tt
  All-unsort P before (x ∷ xs) a =
      let q = All-unplace P before x (sort_by before xs) a in (q.0, All-unsort P before xs q.1)

  place-append :
      (before : A → A → Bool) (x y : A) (zs : List A)
      → before x y ≡ true
      → place before x (zs ++ (y ∷ [])) ≡ place before x zs ++ (y ∷ [])
  place-append before x y [] h = rw (h) refl
  place-append before x y (z ∷ zs) h = ground (arith, place-append before x y zs h)

  -- An entry that stands after all others comes last.
  sort_by-append :
      (before : A → A → Bool) (xs : List A) (y : A)
      → All (λ x. before x y ≡ true) xs
      → sort_by before (xs ++ (y ∷ [])) ≡ sort_by before xs ++ (y ∷ [])
  sort_by-append before [] y a = refl
  sort_by-append before (x ∷ xs) y a =
      ap (place before x) (sort_by-append before xs y a.1)
      ∙ place-append before x y (sort_by before xs) a.0

module _ {F : Type 0} where
  pub history-other :
      (k : IntentKey) (i : Intent F) (t : IntentTables F)
      → is_of k i ≡ false
      → history_or_empty k (record t { intents = t.intents ++ (i ∷ []) }) ≡ history_or_empty k t
  unfolding history_or_empty
  history-other k i t other =
      ap (sort_by by_version) (select-append_out (is_of k) t.intents i other)

  pub history-own :
      (k : IntentKey) (i : Intent F) (t : IntentTables F)
      → is_of k i ≡ true
      → All (λ j. j.sync.version ≤ i.sync.version) (history_or_empty k t)
      → history_or_empty k (record t { intents = t.intents ++ (i ∷ []) })
        ≡ history_or_empty k t ++ (i ∷ [])
  unfolding history_or_empty
  history-own k i t own le =
      ap (sort_by by_version) (select-append_in (is_of k) t.intents i own)
      ∙ sort_by-append by_version (select (is_of k) t.intents) i (
          All-map _ _ (select (is_of k) t.intents) (λ j h. at_most j.sync.version i.sync.version h)
            (All-unsort _ by_version (select (is_of k) t.intents) le))

  pub moves-other :
      (k : IntentKey) (m : IntentTransition) (t : IntentTables F)
      → moves_of k m ≡ false
      → transition_rows k (record t { intent_transitions = t.intent_transitions ++ (m ∷ []) })
        ≡ transition_rows k t
  unfolding transition_rows
  moves-other k m t other =
      ap (sort_by by_transition_version)
        (select-append_out (moves_of k) t.intent_transitions m other)

  pub moves-own :
      (k : IntentKey) (m : IntentTransition) (t : IntentTables F)
      → moves_of k m ≡ true
      → All (λ n. n.version ≤ m.version) (transition_rows k t)
      → transition_rows k (record t { intent_transitions = t.intent_transitions ++ (m ∷ []) })
        ≡ transition_rows k t ++ (m ∷ [])
  unfolding transition_rows
  moves-own k m t own le =
      ap (sort_by by_transition_version) (select-append_in (moves_of k) t.intent_transitions m own)
      ∙ sort_by-append by_transition_version (select (moves_of k) t.intent_transitions) m (
          All-map _ _ (select (moves_of k) t.intent_transitions)
            (λ n h. at_most n.version m.version h)
            (All-unsort _ by_transition_version (select (moves_of k) t.intent_transitions) le))

pub other_key : {F : Type 0} (k : IntentKey) (i : Intent F) → key_of i ≢ k → is_of k i ≡ false
unfolding pair_eqb
other_key (scope, id) i h = beq_ne (key_of i) (scope, id) h

pub own_key : {F : Type 0} (k : IntentKey) (i : Intent F) → key_of i ≡ k → is_of k i ≡ true
unfolding pair_eqb
own_key (scope, id) i h = (pair_eq.beq_iff (key_of i) (scope, id)).1 h

pub other_move :
    (k : IntentKey) (m : IntentTransition) → (m.scope, m.intent_id) ≢ k → moves_of k m ≡ false
unfolding pair_eqb
other_move (scope, id) m h = beq_ne (m.scope, m.intent_id) (scope, id) h

pub own_move :
    (k : IntentKey) (m : IntentTransition) → (m.scope, m.intent_id) ≡ k → moves_of k m ≡ true
unfolding pair_eqb
own_move (scope, id) m h = (pair_eq.beq_iff (m.scope, m.intent_id) (scope, id)).1 h

pub absurd_last : {A : Type 0} (xs : List A) (x : A) → xs ≡ [] → last xs ≡ some x → ⊥
absurd_last [] x e h = cc
absurd_last (y ∷ ys) x e h = cc

module _ {F : Type 0} where
  select-fresh :
      (k : IntentKey) (key : String) (xs : List (Intent F))
      → All (λ i. (is_of k i && has_key key i) ≡ false) xs
      → All (λ i. has_key key i ≡ false) (select (is_of k) xs)
  select-fresh k key [] a = tt
  select-fresh k key (i ∷ xs) a = elim (Bool-cases (is_of k i)) [
    | inl own ↦
        rw (own) (second_false (is_of k i) (has_key key i) own a.0, select-fresh k key xs a.1)
    | inr other ↦ rw (other) (select-fresh k key xs a.1)
  ]

  pub find-history :
      (k : IntentKey) (key : String) (t : IntentTables F)
      → find (λ i. is_of k i && has_key key i) t.intents ≡ none
      → find (has_key key) (history_or_empty k t) ≡ none
  unfolding history_or_empty
  find-history k key t e =
      find-All-false (has_key key) (sort_by by_version (select (is_of k) t.intents)) (
        All-sort_by _ by_version (select (is_of k) t.intents) (
          select-fresh k key t.intents
            (find-eq-none (λ i. is_of k i && has_key key i) t.intents e)))

  pub insert_intent-eq :
      (i : Intent F) (t : IntentTables F)
      → Ensures (λ u. u ≡ record t { intents = t.intents ++ (i ∷ []) }) (insert_intent i t)
  unfolding insert_intent
  insert_intent-eq i t =
      Ensures-bind
        (raise_if (exists (λ j. is_of (key_of i) j && j.sync.version == i.sync.version) t.intents)
          integrity_error)
        _
        (λ u e0.
          Ensures-bind
            (raise_if
              (exists (λ j. is_of (key_of i) j && has_key i.sync.idempotency_key j) t.intents)
              integrity_error)
            _ (λ v e1. Ensures-ok (record t { intents = t.intents ++ (i ∷ []) }) refl))

  pub insert_transition-eq :
      (m : IntentTransition) (t : IntentTables F)
      → Ensures
          (λ u. u ≡ record t { intent_transitions = t.intent_transitions ++ (m ∷ []) })
          (insert_transition m t)
  unfolding insert_transition
  insert_transition-eq m t =
      Ensures-bind
        (raise_if
          (exists (λ n. n.scope == m.scope && n.transition_id == m.transition_id)
            t.intent_transitions)
          integrity_error)
        _
        (λ u e0.
          Ensures-bind
            (raise_if
              (exists (λ n. moves_of (m.scope, m.intent_id) n && n.version == m.version)
                t.intent_transitions)
              integrity_error)
            _
            (λ v e1.
              Ensures-bind
                (raise_if
                  (not (
                    exists (λ i. is_of (m.scope, m.intent_id) i && i.sync.version == m.version)
                      t.intents))
                  integrity_error)
                _
                (λ w e2.
                  Ensures-ok (record t { intent_transitions = t.intent_transitions ++ (m ∷ []) })
                    refl)))
