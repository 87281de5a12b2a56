-- ===== src/Memory/Pending/Keeps.antt =====
-- What every method of the overlay keeps: each item waits, and is held once, under its own id.
use mind_runtime.Base.{
  not-eq-false, keys-append, insert_new, contains-erase, erase, Distinct-append_one, All-append,
  pair_eq, key_error, length, ℕ, String, ◌≡◌, refl, sym, subst, inl, inr, Bool, true, false, not,
  Option, none, some, List, [], ◌∷◌, ◌++◌, if◌then◌else◌, Option-cases, ◌==◌, nat_eq, string_eq,
  option_eq, list_eq, value_error, ok, raise, raise_if, raise_if-ok, Ensures, Ensures-ok,
  Ensures-raise, Ensures-if, Ensures-bind, Ensures-map, All, keys, values, contains, lookup, insert,
  Distinct,
}
use mind_runtime.Contracts.{scope_eq}
use mind_runtime.Memory.Pending.{
  PendingStatus, pending, accepted, rejected, pending_status_eq, PendingWorkingEvidence, delete,
  delete_all, Items, with_status, add, waiting, in_scope, get_pending, conclude_item, conclude,
  accept, reject, to_drop, clear_on_turn_abort, clear_on_restart,
}

module _ {F : Type 0} where
  -- An item under the id `k` waits, and its id is `k`.
  abbrev pub Waits : String × PendingWorkingEvidence F → Type 0
  Waits (k, e) = (e.pending_id ≡ k) × (e.status ≡ pending)

  pub record Kept (items : Items F) : Type 0 where
    pub all_wait : All Waits items
    pub once : Distinct (keys items)

  pub Kept-empty : Kept []
  Kept-empty = record { all_wait = tt; once = tt }

  Kept-added :
      (p : PendingWorkingEvidence F) (items : Items F)
      → Kept items
      → p.status ≡ pending
      → contains p.pending_id (keys items) ≡ false
      → Kept (items ++ ((p.pending_id, p) ∷ []))
  Kept-added p items k waits new = record {
    all_wait = All-append Waits items ((p.pending_id, p) ∷ []) ((refl, waits), tt) k.all_wait;
    once =
        rw (keys-append items ((p.pending_id, p) ∷ []))
          (Distinct-append_one p.pending_id (keys items) k.once new);
  }

  All-erase : (k : String) (items : Items F) → All Waits items → All Waits (erase k items)
  All-erase k [] a = tt
  All-erase k ((j, e) ∷ items) a =
      elim (j == k) as (λ b. All Waits (if b then items else (j, e) ∷ erase k items)) [
        | true ↦ a.1
        | false ↦ (a.0, All-erase k items a.1)
      ]

  Distinct-erase :
      (k : String) (items : Items F) → Distinct (keys items) → Distinct (keys (erase k items))
  Distinct-erase k [] d = tt
  Distinct-erase k ((j, e) ∷ items) d =
      elim (j == k) as (λ b. Distinct (keys (if b then items else (j, e) ∷ erase k items))) [
        | true ↦ d.1
        | false ↦ (contains-erase k j items d.0, Distinct-erase k items d.1)
      ]

  Kept-erase : (k : String) (items : Items F) → Kept items → Kept (erase k items)
  Kept-erase k items kept = record {
    all_wait = All-erase k items kept.all_wait;
    once = Distinct-erase k items kept.once;
  }

  waits_of :
      (p : PendingWorkingEvidence F) {u : Unit {0}}
      → raise_if (not (p.status == pending)) value_error ≡ ok u
      → p.status ≡ pending
  waits_of p e =
      (pending_status_eq.beq_iff p.status pending).0
        (not-eq-false (p.status == pending) (raise_if-ok _ value_error e))

  -- What `add` returns, when it does.
  pub add-eq :
      (p : PendingWorkingEvidence F) (items : Items F)
      → Ensures
          (λ after.
            (after ≡ items ++ ((p.pending_id, p) ∷ []))
            × (p.status ≡ pending)
            × (contains p.pending_id (keys items) ≡ false))
          (add p items)
  unfolding add
  add-eq p items = Ensures-bind (raise_if (not (p.status == pending)) value_error) _ (λ u e0.
      Ensures-bind (raise_if (contains p.pending_id (keys items)) value_error) _ (λ v e1.
        Ensures-ok (insert p.pending_id p items) (
          insert_new p.pending_id p items (raise_if-ok _ value_error e1),
          waits_of p e0,
          raise_if-ok _ value_error e1,
        )))

  pub add-Kept :
      (p : PendingWorkingEvidence F) (items : Items F) → Kept items → Ensures Kept (add p items)
  add-Kept p items kept =
      Ensures-map (add p items) (add-eq p items)
        (λ after q. subst Kept (sym q.0) (Kept-added p items kept q.1 q.2))

  delete-Kept : (k : String) (items : Items F) → Kept items → Ensures Kept (delete k items)
  unfolding delete
  delete-Kept k items kept =
      Ensures-if (contains k (keys items)) (ok (erase k items)) (raise key_error)
        (λ e. Ensures-ok (erase k items) (Kept-erase k items kept)) (λ e. Ensures-raise key_error)

  delete_all-Kept :
      (ids : List String) (items : Items F) → Kept items → Ensures Kept (delete_all ids items)
  unfolding delete_all
  delete_all-Kept [] items kept = Ensures-ok items kept
  delete_all-Kept (k ∷ ids) items kept =
      Ensures-bind (delete k items) _
        (λ left e. delete_all-Kept ids left ((delete-Kept k items kept).at left e))

  pub conclude-Kept :
      (in_unit : F → Bool) (s : PendingStatus) (k : String) (items : Items F)
      → Kept items
      → Ensures (λ p. Kept p.1) (conclude in_unit s k items)
  unfolding conclude conclude_item
  conclude-Kept in_unit s k items kept = elim (Option-cases (lookup k items)) [
    | inl missing ↦ rw (missing, conclude) (Ensures-ok (none, items) kept)
    | inr (item, found) ↦
        rw (found, conclude)
          (Ensures-bind (raise_if (not (item.status == pending)) value_error) _ (λ u e0.
            Ensures-bind (with_status in_unit s item) _ (λ concluded e1.
              Ensures-bind (delete k items) _ (λ left e2.
                Ensures-ok (some concluded, left) ((delete-Kept k items kept).at left e2)))))
  ]

  pub clear_on_turn_abort-Kept :
      (turn_id : String) (items : Items F)
      → Kept items
      → Ensures (λ p. Kept p.1) (clear_on_turn_abort turn_id items)
  unfolding clear_on_turn_abort
  clear_on_turn_abort-Kept turn_id items kept =
      Ensures-bind (delete_all (to_drop turn_id items) items) _ (λ left e.
        Ensures-ok (length (to_drop turn_id items), left)
          ((delete_all-Kept (to_drop turn_id items) items kept).at left e))

  -- The overlays that the calls which return lead to, from the empty one.
  pub data Reached (in_unit : F → Bool) : Items F → Type 0 where
    started : Reached in_unit []
    added :
        (p : PendingWorkingEvidence F) (items after : Items F)
        → Reached in_unit items
        → add p items ≡ ok after
        → Reached in_unit after
    was_accepted :
        (k : String) (r : Option (PendingWorkingEvidence F)) (items after : Items F)
        → Reached in_unit items
        → accept in_unit k items ≡ ok (r, after)
        → Reached in_unit after
    was_rejected :
        (k : String) (r : Option (PendingWorkingEvidence F)) (items after : Items F)
        → Reached in_unit items
        → reject in_unit k items ≡ ok (r, after)
        → Reached in_unit after
    aborted :
        (turn_id : String) (n : ℕ) (items after : Items F)
        → Reached in_unit items
        → clear_on_turn_abort turn_id items ≡ ok (n, after)
        → Reached in_unit after
    restarted :
        (items : Items F) → Reached in_unit items → Reached in_unit (clear_on_restart items).1

  pub Reached-Kept : (in_unit : F → Bool) (items : Items F) → Reached in_unit items → Kept items
  unfolding accept reject clear_on_restart
  Reached-Kept in_unit items started = Kept-empty
  Reached-Kept in_unit items (restarted before r) = Kept-empty
  Reached-Kept in_unit items (added p before after r e) =
      (add-Kept p before (Reached-Kept in_unit before r)).at items e
  Reached-Kept in_unit items (was_accepted k o before after r e) =
      (conclude-Kept in_unit accepted k before (Reached-Kept in_unit before r)).at (o, items) e
  Reached-Kept in_unit items (was_rejected k o before after r e) =
      (conclude-Kept in_unit rejected k before (Reached-Kept in_unit before r)).at (o, items) e
  Reached-Kept in_unit items (aborted turn_id n before after r e) =
      (clear_on_turn_abort-Kept turn_id before (Reached-Kept in_unit before r)).at (n, items) e

  waiting-everything :
      (items : Items F) → All Waits items → waiting (in_scope none) items ≡ values items
  unfolding waiting
  waiting-everything [] a = refl
  waiting-everything ((k, e) ∷ items) a = rw (a.0.1, waiting-everything items a.1) refl

  -- Each item that a reachable overlay holds is returned by `get_pending` without a scope, and is
  -- held once, under its own id.
  pub Reached-get_pending :
      (in_unit : F → Bool) (items : Items F)
      → Reached in_unit items
      → (get_pending none items ≡ values items) × All Waits items × Distinct (keys items)
  unfolding get_pending
  Reached-get_pending in_unit items r =
      let kept = Reached-Kept in_unit items r in
      (waiting-everything items kept.all_wait, kept.all_wait, kept.once)
