-- ===== src/Delivery/Daemon/Runs.antt =====
-- That a whole pass of the daemon returns, with an outcome for each unfinished request.
use mind_runtime.Base.{
  ℕ, ◌+◌, ◌<◌, String, ◌≡◌, refl, sym, ap, ◌∙◌, ◌≢◌, ◌⊎◌, true, false, some, List, [], ◌∷◌, arith,
  eq_iff, if◌then◌else◌, nat_eq, string_eq, option_eq, list_eq, beq_self, All, All-map, Dict, keys,
  values, contains, lookup, contains_of_some, Distinct, sort_by, All-sort_by, Distinct-sort_by,
}
use mind_runtime.Delivery.Lifecycle.{is_terminal}
use mind_runtime.Delivery.Store.{Db, DurableRequestRow, unfinished, by_id, unfinished_requests}
use mind_runtime.Delivery.Store.Returns.{Returns, Returns-pure, Returns-bind}
use mind_runtime.Delivery.Daemon.{DaemonPass, DaemonOutcome, drive_one, drive_all, run}
use mind_runtime.Delivery.Daemon.Reports.{Named, Told}
use mind_runtime.Delivery.Daemon.Progress.{drive_one-Returns}

-- What the request of a row needs for the pass to drive it to an outcome.
pub record Ready (self : DaemonPass) (row : DurableRequestRow) : Type 0 where
  pub identified : row.request.request_id ≢ ""
  pub named : Named (self.reconcile row.request)
  pub told : Told (self.deliver row.request)

-- The outcome reports what the store holds on the request whose row was `row` before the pass.
pub record Final (budget : ℕ) (row : DurableRequestRow) (report : DaemonOutcome) (db : Db)
    : Type 0 where
  pub row_after : DurableRequestRow
  pub found : lookup row.request.request_id db.requests ≡ some row_after
  pub same_id : report.request_id ≡ row.request.request_id
  pub same_request : row_after.request ≡ row.request
  pub same_state : row_after.lifecycle_state ≡ report.final_state
  pub same_attempt : row_after.attempt_count ≡ report.attempt
  pub within :
      (report.attempt ≡ row.attempt_count)
      ⊎ ((report.attempt ≡ row.attempt_count + 1) × (row.attempt_count < budget))

-- The outcomes report on the rows, one by one and in order.
abbrev pub AllFinal : ℕ → List DurableRequestRow → List DaemonOutcome → Db → Type 0
AllFinal budget [] [] db = Unit
AllFinal budget (row ∷ rows) (report ∷ reports) db =
    Final budget row report db × AllFinal budget rows reports db
AllFinal budget _ _ db = ⊥

abbrev ids : List DurableRequestRow → List String
ids [] = []
ids (row ∷ rows) = row.request.request_id ∷ ids rows

abbrev pub Same : List DurableRequestRow → Db → Db → Type 0
Same rows base db =
    (j : String) → contains j (ids rows) ≡ false → lookup j db.requests ≡ lookup j base.requests

outside :
    (j id : String) (l : List String)
    → contains j (id ∷ l) ≡ false
    → (j ≢ id) × (contains j l ≡ false)
outside j id l h = ground (arith, eq_iff id j)

abbrev Stored : Db → DurableRequestRow → Type 0
Stored db row = lookup row.request.request_id db.requests ≡ some row

Stored-kept :
    (id : String) (rows : List DurableRequestRow) (base db : Db)
    → contains id (ids rows) ≡ false
    → ((j : String) → id ≢ j → lookup j db.requests ≡ lookup j base.requests)
    → All (Stored base) rows
    → All (Stored db) rows
Stored-kept id [] base db fresh others h = tt
Stored-kept id (row ∷ rows) base db fresh others h =
    let (other, rest) = outside id row.request.request_id (ids rows) fresh in
    (others row.request.request_id other ∙ h.0, Stored-kept id rows base db rest others h.1)

module _ (self : DaemonPass) where
  drive_all-Returns :
      (rows : List DurableRequestRow) (base : Db)
      → All (Stored base) rows
      → All (Ready self) rows
      → Distinct (ids rows)
      → Returns
          (λ reports db. AllFinal self.retry_budget rows reports db × Same rows base db)
          (drive_all self rows base)
  unfolding drive_all
  drive_all-Returns [] base stored ready distinct = Returns-pure [] base (tt, λ j h. refl)
  drive_all-Returns (row ∷ rows) base stored ready distinct =
      Returns-bind (drive_one self row) _ base
        (drive_one-Returns self row base stored.0 ready.0.identified ready.0.named ready.0.told)
        (λ report db_first first.
          Returns-bind (drive_all self rows) _ db_first
            (drive_all-Returns rows db_first
              (Stored-kept row.request.request_id rows base db_first distinct.0 first.at.others
                stored.1)
              ready.1 distinct.1)
            (λ reports db (finals, same). Returns-pure _ db (
              (
                record {
                  row_after = first.row_after;
                  found = same row.request.request_id distinct.0 ∙ first.at.found;
                  same_id = first.same_id;
                  same_request = first.same_request;
                  same_state = first.same_state;
                  same_attempt = first.same_attempt;
                  within = first.within;
                },
                finals,
              ),
              λ j h.
                  let (other, rest) = outside j row.request.request_id (ids rows) h in
                  same j rest ∙ first.at.others j (λ e. other (sym e)),
            )))

-- A table of requests whose keys are the ids of their rows, without a key twice.
pub record WellKeyed (d : Dict String DurableRequestRow) : Type 0 where
  pub keyed : All (λ p. p.0 ≡ p.1.request.request_id) d
  pub distinct : Distinct (keys d)

All-both {ℓ κ ν} :
    {A : Type ℓ} (P : A → Type κ) (Q : A → Type ν) (xs : List A)
    → All P xs
    → All Q xs
    → All (λ x. P x × Q x) xs
All-both P Q [] p q = tt
All-both P Q (x ∷ xs) p q = ((p.0, q.0), All-both P Q xs p.1 q.1)

All-lookup :
    (d : Dict String DurableRequestRow) → Distinct (keys d) → All (λ p. lookup p.0 d ≡ some p.1) d
All-lookup [] h = tt
All-lookup ((k, v) ∷ d) h = (
  rw (beq_self k) refl,
  All-map _ _ d (λ p e. ground (arith, eq_iff k p.0, contains_of_some p.0 p.1 d e))
      (All-lookup d h.1),
)

All-unfinished {κ} :
    (P : String × DurableRequestRow → Type κ) (d : Dict String DurableRequestRow)
    → All P d
    → All P (unfinished d)
All-unfinished P [] h = tt
All-unfinished P ((k, v) ∷ d) h =
    elim (is_terminal v.lifecycle_state)
      as (λ b. All P (if b then unfinished d else (k, v) ∷ unfinished d)) [
        | true ↦ All-unfinished P d h.1
        | false ↦ (h.0, All-unfinished P d h.1)
      ]

contains-unfinished :
    (k : String) (d : Dict String DurableRequestRow)
    → contains k (keys d) ≡ false
    → contains k (keys (unfinished d)) ≡ false
contains-unfinished k [] h = refl
contains-unfinished k ((j, v) ∷ d) h = ground (arith, contains-unfinished k d)

Distinct-unfinished :
    (d : Dict String DurableRequestRow) → Distinct (keys d) → Distinct (keys (unfinished d))
Distinct-unfinished [] h = tt
Distinct-unfinished ((j, v) ∷ d) h =
    elim (is_terminal v.lifecycle_state)
      as (λ b. Distinct (keys (if b then unfinished d else (j, v) ∷ unfinished d))) [
        | true ↦ Distinct-unfinished d h.1
        | false ↦ (contains-unfinished j d h.0, Distinct-unfinished d h.1)
      ]

All-values {κ ν} :
    (P : String × DurableRequestRow → Type κ) (Q : DurableRequestRow → Type ν)
    (d : Dict String DurableRequestRow)
    → ((p : String × DurableRequestRow) → P p → Q p.1)
    → All P d
    → All Q (values d)
All-values P Q [] f h = tt
All-values P Q ((k, v) ∷ d) f h = (f (k, v) h.0, All-values P Q d f h.1)

ids-values :
    (d : Dict String DurableRequestRow)
    → All (λ p. p.0 ≡ p.1.request.request_id) d
    → ids (values d) ≡ keys d
ids-values [] h = refl
ids-values ((k, v) ∷ d) h = cc (h.0, ids-values d h.1)

unfinished_requests-Stored :
    (db : Db) → WellKeyed db.requests → All (Stored db) (unfinished_requests db)
unfolding unfinished_requests
unfinished_requests-Stored db w =
    All-values _ (Stored db) (sort_by by_id (unfinished db.requests))
      (λ p (same, found). ap (λ k. lookup k db.requests) (sym same) ∙ found)
      (All-sort_by _ by_id (unfinished db.requests) (
        All-unfinished _ db.requests
          (All-both _ _ db.requests w.keyed (All-lookup db.requests w.distinct))))

unfinished_requests-Distinct :
    (db : Db) → WellKeyed db.requests → Distinct (ids (unfinished_requests db))
unfolding unfinished_requests
unfinished_requests-Distinct db w =
    rw
      (ids-values (sort_by by_id (unfinished db.requests))
        (All-sort_by _ by_id (unfinished db.requests) (All-unfinished _ db.requests w.keyed)))
      (Distinct-sort_by by_id (unfinished db.requests) (Distinct-unfinished db.requests w.distinct))

-- A pass returns, with one outcome for each unfinished request in the order of their ids, if the
-- table has no key twice and each row under its request's id, and if for each unfinished request
-- the id is not empty, the reconciler would name the reference of an acceptance and the carrier the
-- text of a failure. Each outcome reports the state and the number of attempts that the store holds
-- after the pass, which is at most one attempt more, made only below the budget; and each finished
-- request is as before.
pub run-Returns :
    (self : DaemonPass) (db : Db)
    → WellKeyed db.requests
    → All (Ready self) (unfinished_requests db)
    → Returns
        (λ reports db_after.
          AllFinal self.retry_budget (unfinished_requests db) reports db_after
          × Same (unfinished_requests db) db db_after)
        (run self db)
unfolding run
run-Returns self db keyed ready =
    drive_all-Returns self (unfinished_requests db) db (unfinished_requests-Stored db keyed) ready
      (unfinished_requests-Distinct db keyed)
