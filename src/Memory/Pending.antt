-- ===== src/Memory/Pending.antt =====
-- The pending overlay (memory/pending.py): evidence that waits for its admission, by id. `F` is the
-- type of Python's floats other than NaN and `in_unit` their test `0.0 <= x <= 1.0`. A method
-- returns its value with the items after it, or raises.
pub mod Keeps
pub mod Aborts
use mind_runtime.Base.{
  keys-append, contains-append, insert_new, erase-append, erase-absent, contains-erase, erase,
  contains-append_one, append_assoc, append-nil, and_true, true_and, Member, Member-sort_by,
  Member-lookup, length-append, Distinct-append_one, find, last, last-append_one, find-append_one,
  find-All, find-All-false, find-eq-none, some_inj, All-append, ◌>>=◌, ◌>>◌, codes, eq_by, ◌⊗◌,
  pair_eq, key_error, index_error, stop_iteration, overflow_error, integrity_error, length, ℕ, zero,
  suc, ◌+◌, ◌-◌, ◌*◌, ◌≤◌, ◌<◌, String, ◌<>◌, ◌≡◌, refl, sym, ap, subst, ◌∙◌, ◌≢◌, ◌↔◌, ◌⊎◌, inl,
  inr, Bool, true, false, not, ◌&&◌, ◌||◌, Option, none, some, List, [], ◌∷◌, ◌++◌, map, arith,
  eq_iff, ltb, leb, if◌then◌else◌, Bool-cases, Option-cases, Eq, ◌==◌, nat_eq, string_eq, option_eq,
  list_eq, beq_self, Eq-cases, beq_ne, Exc, value_error, assertion_error, Result, ok, raise,
  raise_if, >>=-eq-ok, raise_if-ok, >>-eq-ok, Result-cases, Ensures, Ensures-ok, Ensures-raise,
  Ensures-if, Ensures-bind, Ensures-map, All, All-map, Dict, keys, values, contains, lookup, insert,
  lookup-insert, lookup-insert_self, lookup-insert_ne, keys-insert_old, keys-insert_new,
  contains_of_some, not-contains_of_none, lookup-contains, Distinct, sort_by, All-sort_by,
  Distinct-sort_by, contains-sort_by, text_before, decimal,
}
use mind_runtime.Contracts.{Scope, scope_eq, require_non_empty}

pub data PendingStatus : Type 0 where
  pending accepted rejected : PendingStatus

abbrev pub pending_status_eqb : PendingStatus → PendingStatus → Bool
pending_status_eqb pending pending = true
pending_status_eqb accepted accepted = true
pending_status_eqb rejected rejected = true
pending_status_eqb _ _ = false

pub pending_status_eqb_iff : (a b : PendingStatus) → (pending_status_eqb a b ≡ true) ↔ (a ≡ b)
pending_status_eqb_iff a b = ground arith

instance abbrev pub pending_status_eq : Eq PendingStatus
pending_status_eq = record { beq = pending_status_eqb; beq_iff = pending_status_eqb_iff }

pub record PendingWorkingEvidence (F : Type 0) : Type 0 where
  pub pending_id : String
  pub evidence_ref : String
  pub source_turn_id : String
  pub scope : Scope
  pub semantic_payload : List (String × String)
  pub confidence : F
  pub status : PendingStatus
  pub origin_runtime_id : String
  pub source_text : String
  pub created_at : ℕ

abbrev pub check_payload : List (String × String) → Result (Unit {0})
check_payload [] = ok tt
check_payload ((key, value) ∷ rest) =
    require_non_empty key >> require_non_empty value >> check_payload rest

abbrev pub is_empty : {A : Type 0} → List A → Bool
is_empty [] = true
is_empty (x ∷ xs) = false

-- `del items[key]`
unfoldable pub delete : {V : Type 0} → String → Dict String V → Result (Dict String V)
delete key d = if contains key (keys d) then ok (erase key d) else raise key_error

unfoldable pub delete_all : {V : Type 0} → List String → Dict String V → Result (Dict String V)
delete_all [] d = ok d
delete_all (key ∷ rest) d = delete key d >>= λ left. delete_all rest left

abbrev pub Items : Type 0 → Type 0
Items F = Dict String (PendingWorkingEvidence F)

module _ {F : Type 0} where
  unfoldable pub check_evidence : (F → Bool) → PendingWorkingEvidence F → Result (Unit {0})
  check_evidence in_unit e = do
    require_non_empty e.pending_id
    require_non_empty e.evidence_ref
    require_non_empty e.source_turn_id
    require_non_empty e.origin_runtime_id
    raise_if (not (in_unit e.confidence)) value_error
    raise_if (is_empty e.semantic_payload) value_error
    check_payload e.semantic_payload

  unfoldable pub make_evidence :
      (F → Bool) → PendingWorkingEvidence F → Result (PendingWorkingEvidence F)
  make_evidence in_unit e = check_evidence in_unit e >> ok e

  unfoldable pub with_status :
      (F → Bool) → PendingStatus → PendingWorkingEvidence F → Result (PendingWorkingEvidence F)
  with_status in_unit new_status e = make_evidence in_unit (record e { status = new_status })

  unfoldable pub add : PendingWorkingEvidence F → Items F → Result (Items F)
  add p items = do
    raise_if (not (p.status == pending)) value_error
    raise_if (contains p.pending_id (keys items)) value_error
    ok (insert p.pending_id p items)

  -- The items that wait, and that `wanted` takes.
  unfoldable pub waiting :
      (PendingWorkingEvidence F → Bool) → Items F → List (PendingWorkingEvidence F)
  waiting wanted [] = []
  waiting wanted ((key, e) ∷ items) =
      let rest = waiting wanted items in if e.status == pending && wanted e then e ∷ rest else rest

  abbrev pub in_scope : Option Scope → PendingWorkingEvidence F → Bool
  in_scope none e = true
  in_scope (some scope) e = e.scope == scope

  abbrev pub of_turn : String → PendingWorkingEvidence F → Bool
  of_turn turn_id e = e.source_turn_id == turn_id

  unfoldable pub get_pending : Option Scope → Items F → List (PendingWorkingEvidence F)
  get_pending scope items = waiting (in_scope scope) items

  unfoldable pub get_pending_by_turn : String → Items F → List (PendingWorkingEvidence F)
  get_pending_by_turn turn_id items = waiting (of_turn turn_id) items

  unfoldable pub get_by_pending_id : String → Items F → Option (PendingWorkingEvidence F)
  get_by_pending_id pending_id items = lookup pending_id items

  -- What `accept` and `reject` share: they differ in the status that they give.
  unfoldable pub conclude_item :
      (F → Bool)
      → PendingStatus
      → String
      → PendingWorkingEvidence F
      → Items F
      → Result (Option (PendingWorkingEvidence F) × Items F)
  conclude_item in_unit new_status pending_id item items = do
    raise_if (not (item.status == pending)) value_error
    concluded ← with_status in_unit new_status item
    left ← delete pending_id items
    ok (some concluded, left)

  unfoldable pub conclude :
      (F → Bool)
      → PendingStatus
      → String
      → Items F
      → Result (Option (PendingWorkingEvidence F) × Items F)
  conclude in_unit new_status pending_id items = elim (lookup pending_id items) [
    | none ↦ ok (none, items)
    | some item ↦ conclude_item in_unit new_status pending_id item items
  ]

  unfoldable pub accept :
      (F → Bool) → String → Items F → Result (Option (PendingWorkingEvidence F) × Items F)
  accept in_unit = conclude in_unit accepted

  unfoldable pub reject :
      (F → Bool) → String → Items F → Result (Option (PendingWorkingEvidence F) × Items F)
  reject in_unit = conclude in_unit rejected

  -- The ids of the turn's items that wait.
  unfoldable pub to_drop : String → Items F → List String
  to_drop turn_id [] = []
  to_drop turn_id ((key, e) ∷ items) =
      let rest = to_drop turn_id items in
      if e.source_turn_id == turn_id && e.status == pending then key ∷ rest else rest

  unfoldable pub clear_on_turn_abort : String → Items F → Result (ℕ × Items F)
  clear_on_turn_abort turn_id items =
      delete_all (to_drop turn_id items) items >>= λ left. ok (length (to_drop turn_id items), left)

  unfoldable pub clear_on_restart : Items F → ℕ × Items F
  clear_on_restart items = (length items, [])
