-- ===== src/Delivery/Store/Advances.antt =====
-- How the daemon's calls may change the store: requests keep what they ask for and move along the
-- table of transitions, and receipts and attempts are only added.
use mind_runtime.Base.{
  ◌≤◌, String, ◌≡◌, refl, subst, ◌∙◌, inl, inr, true, none, some, arith, eq_iff, Option-cases,
  nat_eq, string_eq, option_eq, list_eq, Eq-cases, ok, Dict, keys, lookup, insert, lookup-insert,
  lookup-insert_self, lookup-insert_ne, keys-insert_old,
}
use mind_runtime.Delivery.Lifecycle.{DeliveryLifecycleState, allowed}
use mind_runtime.Delivery.Store.{Db, DurableRequestRow, stored, update}

-- A chain of allowed transitions.
pub data Evolves : DeliveryLifecycleState → DeliveryLifecycleState → Type 0 where
  stay : {s : DeliveryLifecycleState} → Evolves s s
  move : {s t u : DeliveryLifecycleState} → allowed s t ≡ true → Evolves t u → Evolves s u

pub record RowAdvances (a b : DurableRequestRow) : Type 0 where
  pub same_request : b.request ≡ a.request
  pub more_attempts : a.attempt_count ≤ b.attempt_count
  pub evolves : Evolves a.lifecycle_state b.lifecycle_state

abbrev pub Grows {ℓ} : {V : Type ℓ} → Dict String V → Dict String V → Type ℓ
Grows {V} d e = (k : String) (v : V) → lookup k d ≡ some v → lookup k e ≡ some v

pub record Advances (before after : Db) : Type 0 where
  pub same_ids : keys after.requests ≡ keys before.requests
  pub rows :
      (id : String) (row : DurableRequestRow)
      → lookup id before.requests ≡ some row
      → (row_after : DurableRequestRow) × (lookup id after.requests ≡ some row_after)
        × RowAdvances row row_after
  pub receipts_grow : Grows before.receipts after.receipts
  pub attempts_grow : Grows before.attempts after.attempts
  pub same_switch : after.switch ≡ before.switch

pub Evolves-trans : {s t u : DeliveryLifecycleState} → Evolves s t → Evolves t u → Evolves s u
Evolves-trans stay q = q
Evolves-trans (move a p) q = move a (Evolves-trans p q)

RowAdvances-refl : (a : DurableRequestRow) → RowAdvances a a
RowAdvances-refl a = record { same_request = refl; more_attempts = omega arith; evolves = stay }

RowAdvances-trans :
    {a b c : DurableRequestRow} → RowAdvances a b → RowAdvances b c → RowAdvances a c
RowAdvances-trans p q = record {
  same_request = q.same_request ∙ p.same_request;
  more_attempts = omega (arith, p.more_attempts, q.more_attempts);
  evolves = Evolves-trans p.evolves q.evolves;
}

pub Advances-refl : (db : Db) → Advances db db
Advances-refl db = record {
  same_ids = refl;
  rows = λ id row h. (row, h, RowAdvances-refl row);
  receipts_grow = λ k v h. h;
  attempts_grow = λ k v h. h;
  same_switch = refl;
}

pub Advances-trans : {a b c : Db} → Advances a b → Advances b c → Advances a c
Advances-trans p q = record {
  same_ids = q.same_ids ∙ p.same_ids;
  rows = λ id row h.
      let (row_b, found_b, row_p) = p.rows id row h in
      let (row_c, found_c, row_q) = q.rows id row_b found_b in
      (row_c, found_c, RowAdvances-trans row_p row_q);
  receipts_grow = λ k v h. q.receipts_grow k v (p.receipts_grow k v h);
  attempts_grow = λ k v h. q.attempts_grow k v (p.attempts_grow k v h);
  same_switch = q.same_switch ∙ p.same_switch;
}

pub Grows-insert {ℓ} :
    {V : Type ℓ} (k : String) (v : V) (d : Dict String V)
    → lookup k d ≡ none
    → Grows d (insert k v d)
Grows-insert k v d fresh j w h = ground (arith, lookup-insert k j v d, eq_iff k j)

pub stored-eq :
    (id : String) (db : Db) (row : DurableRequestRow)
    → stored id db ≡ ok row
    → lookup id db.requests ≡ some row
unfolding stored
stored-eq id db row h = elim (Option-cases (lookup id db.requests)) [
  | inl missing ↦ cc
  | inr (other, found) ↦ cc
]

-- Writing back a row that advances the stored one.
pub Advances-update :
    (id : String) (old new : DurableRequestRow) (db : Db)
    → lookup id db.requests ≡ some old
    → RowAdvances old new
    → Advances db (update id new db)
Advances-update id old new db found step = record {
  same_ids = keys-insert_old id new old db.requests found;
  rows = λ j row h. elim (Eq-cases id j) [
    | inl same ↦ (
      new,
      rw (← same) (lookup-insert_self id new db.requests),
      subst (λ r. RowAdvances r new) (cc) step,
    )
    | inr other ↦ (row, lookup-insert_ne id j new db.requests other ∙ h, RowAdvances-refl row)
  ];
  receipts_grow = λ k v h. h;
  attempts_grow = λ k v h. h;
  same_switch = refl;
}
