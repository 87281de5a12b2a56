-- ===== src/Memory/Pending/Aborts.antt =====
-- What an aborted turn takes from the overlay, and what accepting or rejecting an item undoes.
use mind_runtime.Base.{
  lookup-append_new, keys-append, contains-append, erase-append, contains-append_one, append-nil,
  ◌>>◌, pair_eq, length, String, ◌≡◌, refl, sym, ap, ◌∙◌, ◌≢◌, inl, inr, Bool, true, false, some,
  List, [], ◌∷◌, ◌++◌, arith, if◌then◌else◌, Bool-cases, ◌==◌, nat_eq, string_eq, option_eq,
  list_eq, beq_self, beq_ne, ok, All, Dict, keys, contains, lookup, Distinct,
}
use mind_runtime.Memory.Pending.{
  PendingStatus, pending, pending_status_eq, PendingWorkingEvidence, delete, delete_all, Items,
  check_evidence, make_evidence, with_status, add, waiting, of_turn, get_pending_by_turn,
  get_by_pending_id, conclude_item, conclude, to_drop, clear_on_turn_abort,
}
use mind_runtime.Memory.Pending.Keeps.{Waits, add-eq, Reached, Reached-Kept}

apart_key :
    (k j : String) (done items : List String)
    → contains j done ≡ false
    → contains k (j ∷ items) ≡ false
    → contains j (done ++ (k ∷ [])) ≡ false
apart_key k j done items a new =
    ground (arith, contains-append_one k j done, string_eq.beq_iff j k, string_eq.beq_iff k j)

apart_rest :
    (k j : String) (items : List String) → contains k (j ∷ items) ≡ false → contains k items ≡ false
apart_rest k j items new = ground arith

is_pending : (s : PendingStatus) → s ≡ pending → (s == pending) ≡ true
is_pending s e = (pending_status_eq.beq_iff s pending).1 e

push : {A : Type 0} (xs : List A) (y : A) (ys : List A) → xs ++ (y ∷ ys) ≡ (xs ++ (y ∷ [])) ++ ys
push [] y ys = refl
push (x ∷ xs) y ys = ap (λ l. x ∷ l) (push xs y ys)

delete_step :
    {V : Type 0} (k : String) (v : V) (done items : Dict String V)
    → contains k (keys done) ≡ false
    → delete k (done ++ ((k, v) ∷ items)) ≡ ok (done ++ items)
unfolding delete
delete_step k v done items a = rw (there, erase-append k v done items a) refl
  where
    there : contains k (keys (done ++ ((k, v) ∷ items))) ≡ true
    there =
        rw
          (
            keys-append done ((k, v) ∷ items),
            contains-append k (keys done) (k ∷ keys items),
            a,
            beq_self k,
          )
          refl

module _ {F : Type 0} where
  -- The items of other turns.
  abbrev pub of_other_turns : String → Items F → Items F
  of_other_turns turn_id [] = []
  of_other_turns turn_id ((k, e) ∷ items) =
      let rest = of_other_turns turn_id items in
      if e.source_turn_id == turn_id then rest else (k, e) ∷ rest

  -- None of the keys is in `done`.
  Apart : Items F → Items F → Type 0
  Apart done items = All (λ k. contains k (keys done) ≡ false) (keys items)

  Apart-more :
      (k : String) (e : PendingWorkingEvidence F) (done items : Items F)
      → Apart done items
      → contains k (keys items) ≡ false
      → Apart (done ++ ((k, e) ∷ [])) items
  unfolding Apart
  Apart-more k e done [] a new = tt
  Apart-more k e done ((j, x) ∷ items) a new = (
    rw (keys-append done ((k, e) ∷ [])) (apart_key k j (keys done) (keys items) a.0 new),
    Apart-more k e done items a.1 (apart_rest k j (keys items) new),
  )

  delete_all-to_drop :
      (turn_id : String) (done items : Items F)
      → All Waits items
      → Distinct (keys items)
      → Apart done items
      → delete_all (to_drop turn_id items) (done ++ items)
        ≡ ok (done ++ of_other_turns turn_id items)
  unfolding delete_all to_drop delete Apart
  delete_all-to_drop turn_id done [] w d a = refl
  delete_all-to_drop turn_id done ((k, e) ∷ items) w d a =
      elim (Bool-cases (e.source_turn_id == turn_id)) [
        | inl same ↦
            rw (same, w.0.1, delete_step k (record e { status = pending }) done items a.0)
              (delete_all-to_drop turn_id done items w.1 d.1 a.1)
        | inr other ↦ rw (other) (
            ap (λ x. delete_all (to_drop turn_id items) x) (push done (k, e) items)
            ∙ delete_all-to_drop turn_id (done ++ ((k, e) ∷ [])) items w.1 d.1
                (Apart-more k e done items a.1 d.0)
            ∙ ap ok (sym (push done (k, e) (of_other_turns turn_id items))))
      ]

  length-to_drop :
      (turn_id : String) (items : Items F)
      → length (to_drop turn_id items) ≡ length (get_pending_by_turn turn_id items)
  unfolding to_drop get_pending_by_turn waiting
  length-to_drop turn_id [] = refl
  length-to_drop turn_id ((k, e) ∷ items) = ground (arith, length-to_drop turn_id items)

  waiting_left :
      (turn_id other : String) (items : Items F)
      → waiting (of_turn other) (of_other_turns turn_id items)
        ≡ (if turn_id == other then [] else waiting (of_turn other) items)
  unfolding waiting
  waiting_left turn_id other [] = ground arith
  waiting_left turn_id other ((k, e) ∷ items) = ground (
    arith,
    waiting_left turn_id other items,
    string_eq.beq_iff e.source_turn_id turn_id,
    string_eq.beq_iff e.source_turn_id other,
    string_eq.beq_iff turn_id other,
  )

  Apart-nothing : (items : Items F) → Apart [] items
  unfolding Apart
  Apart-nothing [] = tt
  Apart-nothing ((k, e) ∷ items) = (refl, Apart-nothing items)

  -- An abort of a turn on a reachable overlay returns the number of items that `get_pending_by_turn`
  -- gives for the turn; it leaves none of that turn, and all of the other turns as they were.
  pub clear_on_turn_abort-exact :
      (in_unit : F → Bool) (turn_id : String) (items : Items F)
      → Reached in_unit items
      → (left : Items F) × (clear_on_turn_abort turn_id items
          ≡ ok (length (get_pending_by_turn turn_id items), left))
        × (get_pending_by_turn turn_id left ≡ [])
        × ((other : String)
            → turn_id ≢ other
            → get_pending_by_turn other left ≡ get_pending_by_turn other items)
  unfolding clear_on_turn_abort get_pending_by_turn
  clear_on_turn_abort-exact in_unit turn_id items r =
      let kept = Reached-Kept in_unit items r in
      (
        of_other_turns turn_id items,
        rw
            (
              delete_all-to_drop turn_id [] items kept.all_wait kept.once (Apart-nothing items),
              length-to_drop turn_id items,
            )
            refl,
        waiting_left turn_id turn_id items ∙ rw (beq_self turn_id) refl,
        λ other differs. waiting_left turn_id other items ∙ rw (beq_ne turn_id other differs) refl,
      )

  with_status_ok :
      (in_unit : F → Bool) (p : PendingWorkingEvidence F) (s : PendingStatus)
      → check_evidence in_unit p ≡ ok tt
      → with_status in_unit s p ≡ ok (record p { status = s })
  unfolding with_status make_evidence check_evidence
  with_status_ok in_unit p s made = ap (λ m. m >> ok (record p { status = s })) made

  -- An item that passes its checks and has been added is found under its id; accepting
  -- it, or rejecting it, returns it with the new status, and leaves the overlay as it was.
  pub add-conclude :
      (in_unit : F → Bool) (p : PendingWorkingEvidence F) (s : PendingStatus)
      (items after : Items F)
      → check_evidence in_unit p ≡ ok tt
      → add p items ≡ ok after
      → (get_by_pending_id p.pending_id after ≡ some p)
        × (conclude in_unit s p.pending_id after ≡ ok (some (record p { status = s }), items))
  unfolding get_by_pending_id conclude conclude_item
  add-conclude in_unit p s items after made e =
      let q = (add-eq p items).at after e in
      let found : lookup p.pending_id (items ++ ((p.pending_id, p) ∷ [])) ≡ some p =
        lookup-append_new p.pending_id p items [] q.2 in
      rw (q.0) (
        found,
        rw
            (
              found,
              conclude,
              is_pending p.status q.1,
              with_status_ok in_unit p s made,
              delete_step p.pending_id p items [] q.2,
              append-nil items,
            )
            refl,
      )
