-- ===== src/Intents/Fits.antt =====
-- What the check of a transition against its two versions ensures.
use mind_runtime.Base.{
  not-eq-false, pair_eq, ◌+◌, ◌≡◌, refl, ap, ◌∙◌, Bool, true, false, not, ◌&&◌, ◌||◌, Option, some,
  arith, Eq, ◌==◌, nat_eq, string_eq, option_eq, list_eq, value_error, ok, raise_if, raise_if-ok,
  >>-eq-ok, Ensures, Ensures-bind,
}
use mind_runtime.Contracts.{scope_eq, sync_fields_eq}
use mind_runtime.Intents.Records.{status_eq, Intent, IntentTransition, check_intent, make_intent}
use mind_runtime.Intents.Equality.{intent_eq, transition_eq}
use mind_runtime.Intents.Backend.{key_of, describes, validate_transition_shape}

-- `after` is the next version of `before`: only its status and its synchronization differ, and `t`
-- records the change.
pub record Fits {F : Type 0} (before after : Intent F) (t : IntentTransition) : Type 0 where
  pub next_version : after.sync.version ≡ before.sync.version + 1
  pub same_facts : after ≡ record before { status = after.status; sync = after.sync }
  pub described : describes before after t ≡ true
  pub same_key : t.sync.idempotency_key ≡ after.sync.idempotency_key

module _ {F : Type 0} ⦃float_eq : Eq F⦄ (in_unit : F → Bool) where
  eq_of : {A : Type 0} ⦃e : Eq A⦄ (a b : A) → not (a == b) ≡ false → a ≡ b
  eq_of ⦃e⦄ a b h = (e.beq_iff a b).0 (not-eq-false (a == b) h)

  make_intent-eq : (i made : Intent F) → make_intent in_unit i ≡ ok made → made ≡ i
  unfolding make_intent
  make_intent-eq i made h = >>-eq-ok (check_intent in_unit i) i h

  pub validate_transition_shape-Fits :
      (before after : Intent F) (t : IntentTransition) (current : Option (Intent F))
      → Ensures
          (λ u. (current ≡ some before) × Fits before after t)
          (validate_transition_shape in_unit before after t current)
  unfolding validate_transition_shape
  validate_transition_shape-Fits before after t current =
      Ensures-bind (raise_if (not (current == some before)) value_error) _ (λ u0 h0.
        Ensures-bind
          (raise_if (not (after.scope == before.scope) || not (after.intent_id == before.intent_id))
            value_error)
          _
          (λ u1 h1.
            Ensures-bind
              (raise_if (not (after.origin_runtime_id == before.origin_runtime_id)) value_error) _
              (λ u2 h2.
                Ensures-bind
                  (raise_if (not (after.sync.version == before.sync.version + 1)) value_error) _
                  (λ u3 h3.
                    Ensures-bind
                      (make_intent in_unit
                        (record before { status = after.status; sync = after.sync }))
                      _
                      (λ expected made.
                        Ensures-bind (raise_if (not (after == expected)) value_error) _ (λ u4 h4.
                          Ensures-bind (raise_if (not (describes before after t)) value_error) _
                            (λ u5 h5. record {
                              at = λ u6 h6. (
                                eq_of _ _ (raise_if-ok _ value_error h0),
                                record {
                                  next_version = eq_of _ _ (raise_if-ok _ value_error h3);
                                  same_facts =
                                      eq_of after expected (raise_if-ok _ value_error h4)
                                      ∙ make_intent-eq _ expected made;
                                  described =
                                      not-eq-false (describes before after t)
                                        (raise_if-ok _ value_error h5);
                                  same_key = eq_of _ _ (raise_if-ok _ value_error h6);
                                },
                              );
                            })))))))

pub Fits-key :
    {F : Type 0} (before after : Intent F) (t : IntentTransition)
    → Fits before after t
    → key_of after ≡ key_of before
Fits-key before after t f = ap key_of f.same_facts

and_last : (a b c d e f : Bool) → (a && b && c && d && e && f) ≡ true → f ≡ true
and_last a b c d e f h = ground arith

pub Fits-version :
    {F : Type 0} (before after : Intent F) (t : IntentTransition)
    → Fits before after t
    → t.version ≡ after.sync.version
Fits-version before after t f = (nat_eq.beq_iff t.version after.sync.version).0 (
    and_last (t.scope == before.scope) (t.origin_runtime_id == before.origin_runtime_id)
      (t.intent_id == before.intent_id) (t.from_status == before.status)
      (t.to_status == after.status) (t.version == after.sync.version) f.described)

and_fifth : (a b c d e f : Bool) → (a && b && c && d && e && f) ≡ true → e ≡ true
and_fifth a b c d e f h = ground arith

pub Fits-to_status :
    {F : Type 0} (before after : Intent F) (t : IntentTransition)
    → Fits before after t
    → t.to_status ≡ after.status
Fits-to_status before after t f = (status_eq.beq_iff t.to_status after.status).0 (
    and_fifth (t.scope == before.scope) (t.origin_runtime_id == before.origin_runtime_id)
      (t.intent_id == before.intent_id) (t.from_status == before.status)
      (t.to_status == after.status) (t.version == after.sync.version) f.described)

and_keys : (a b c d e f : Bool) → (a && b && c && d && e && f) ≡ true → (a ≡ true) × (c ≡ true)
and_keys a b c d e f h = ground arith

pub Fits-move_key :
    {F : Type 0} (before after : Intent F) (t : IntentTransition)
    → Fits before after t
    → (t.scope, t.intent_id) ≡ key_of before
Fits-move_key before after t f =
    let (s, i) =
      and_keys (t.scope == before.scope) (t.origin_runtime_id == before.origin_runtime_id)
        (t.intent_id == before.intent_id) (t.from_status == before.status)
        (t.to_status == after.status) (t.version == after.sync.version) f.described in
    rw
      (
        (scope_eq.beq_iff t.scope before.scope).0 s,
        (string_eq.beq_iff t.intent_id before.intent_id).0 i,
      )
      refl
