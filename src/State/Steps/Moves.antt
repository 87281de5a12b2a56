-- ===== src/State/Steps/Moves.antt =====
-- Which records a reconcile step can produce, and what its transitions may do.
use mind_runtime.Base.{
  ◌<◌, ℕ, ◌+◌, ◌≡◌, refl, sym, ◌∙◌, inl, inr, Bool, true, false, Option, none, Option-cases, raise,
  Member, some, value_error, ◌==◌, string_eq, List, [], ◌∷◌, String, arith, ok, >>-eq-ok, >>=-eq-ok,
  ◌>>=◌, Ensures, Ensures-ok, Ensures-raise, Ensures-if, Ensures-bind,
}
use mind_runtime.Contracts.{Scope, RuntimeState, StateTransition, make_state, make_transition}
use mind_runtime.State.Lifecycle.{
  StateLifecycle, active, expired, superseded, lifecycle_value, is_current_like, is_known_lifecycle,
  is_terminal, canonical_state_id, coerce-lifecycle_value,
}
use mind_runtime.State.Definitions.{Registry, ValidityPolicy, validity_policy}
use mind_runtime.State.Interpretation.{StateIntent}
use mind_runtime.State.Records.{
  transition_record, transition, fresh_record, next_record, terminal_record, refresh, fresh_state,
  valid_until_by, is_event_only,
}
use mind_runtime.State.Steps.{
  apply_terminal, fresh_after, supersede, reaffirm_or_supersede, reconcile_value, reconcile,
}

-- No status is both terminal and current-like.
terminal_not_current :
    (status : String) → is_terminal status ≡ true → is_current_like status ≡ false
terminal_not_current status h = ground arith

module _ {V : Type 0} where
  -- One of the intents is about the dimension, and asks for the lifecycle, or for none.
  pub record Asks (intents : List (StateIntent V)) (i : StateIntent V) (dimension : String)
      (l : Option StateLifecycle) : Type 0 where
    pub member : Member i intents
    pub on : i.dimension ≡ dimension
    pub says : i.lifecycle ≡ l

  -- How a record may be replaced: a current-like one expires, with its value, once its envelope is
  -- over; a value intent keeps the value and the status of a current-like one, or supersedes it,
  -- which keeps the value; an intent that asks for a lifecycle gives it to one that is not
  -- terminal, and keeps the value; a value intent makes an active record with its value after one
  -- that is not current-like.
  pub data Move (intents : List (StateIntent V)) (a b : RuntimeState V) : Type 0 where
    expire :
        (until : ℕ)
        → is_current_like a.status ≡ true
        → a.valid_until ≡ some until
        → until < b.updated_at
        → b.status ≡ lifecycle_value expired
        → b.value ≡ a.value
        → Move intents a b
    reaffirm :
        (i : StateIntent V)
        → Asks intents i a.dimension none
        → is_current_like a.status ≡ true
        → b.status ≡ a.status
        → b.value ≡ a.value
        → Move intents a b
    replace :
        (i : StateIntent V)
        → Asks intents i a.dimension none
        → is_current_like a.status ≡ true
        → b.status ≡ lifecycle_value superseded
        → b.value ≡ a.value
        → Move intents a b
    end :
        (i : StateIntent V) (l : StateLifecycle)
        → Asks intents i a.dimension (some l)
        → is_terminal a.status ≡ false
        → b.status ≡ lifecycle_value l
        → b.value ≡ a.value
        → Move intents a b
    restart :
        (i : StateIntent V)
        → Asks intents i a.dimension none
        → is_current_like a.status ≡ false
        → b.status ≡ lifecycle_value active
        → b.value ≡ i.value
        → Move intents a b

  -- A record is the next version of another, of the same dimension, by one of these moves.
  pub record Follows (intents : List (StateIntent V)) (a b : RuntimeState V) : Type 0 where
    pub same_scope : b.scope ≡ a.scope
    pub same_dimension : b.dimension ≡ a.dimension
    pub next_version : b.version ≡ a.version + 1
    pub named : b.state_id ≡ canonical_state_id b.dimension b.version
    pub moves : Move intents a b

  -- The transitions lead from one record to another, each from where the one before it ended.
  abbrev pub Chain :
      List (StateIntent V) → RuntimeState V → List (StateTransition V) → RuntimeState V → Type 0
  Chain intents a [] b = b ≡ a
  Chain intents a (t ∷ ts) b =
      (t.from_state ≡ a) × Follows intents t.from_state t.to_state × Chain intents t.to_state ts b

  pub make_state_eq : (s : RuntimeState V) {t : RuntimeState V} → make_state s ≡ ok t → t ≡ s
  unfolding make_state
  make_state_eq s h = >>-eq-ok _ s h

  pub transition_eq :
      (a b : RuntimeState V) (now : ℕ) {t : StateTransition V}
      → transition a b now ≡ ok t
      → t ≡ transition_record a b now
  unfolding transition make_transition
  transition_eq a b now h = >>-eq-ok _ (transition_record a b now) h

  pub terminal_record_eq :
      (s : RuntimeState V) (l : StateLifecycle) (i : StateIntent V) (now : ℕ) {t : RuntimeState V}
      → terminal_record s l i now ≡ ok t
      → t ≡ next_record s (lifecycle_value l) s.valid_until i now
  unfolding terminal_record
  terminal_record_eq s l i now h = make_state_eq _ h

  pub refresh_eq :
      (s : RuntimeState V) (i : StateIntent V) (p : ValidityPolicy) (now : ℕ) {t : RuntimeState V}
      → refresh s i p now ≡ ok t
      → (until : Option ℕ) × (t ≡ next_record s s.status until i now)
  unfolding refresh
  refresh_eq s i p now h =
      let (until, e, made) = >>=-eq-ok (valid_until_by p s.valid_until now) _ h in
      (until, make_state_eq _ made)

  pub fresh_state_eq :
      {B : Type 0} (r : Registry B) (scope : Scope) (i : StateIntent V) (now version from : ℕ)
      {t : RuntimeState V}
      → fresh_state r scope i now version from ≡ ok t
      → (until : Option ℕ) × (t ≡ fresh_record scope i now version from until)
  unfolding fresh_state
  fresh_state_eq r scope i now version from h =
      let (policy, e, h') =
        >>=-eq-ok (validity_policy i.dimension r)
          (λ p.
            valid_until_by p none now >>= λ u. make_state (fresh_record scope i now version from u))
          h in
      let (until, e', made) = >>=-eq-ok (valid_until_by policy none now) _ h' in
      (until, make_state_eq (fresh_record scope i now version from until) made)

module _ {V : Type 0} (intents : List (StateIntent V)) where
  -- A committed transition puts its move in front of a chain.
  pub Chain-cons :
      (a b : RuntimeState V) (now : ℕ) (ts : List (StateTransition V)) (c : RuntimeState V)
      {t : StateTransition V}
      → transition a b now ≡ ok t
      → Follows intents a b
      → Chain intents b ts c
      → Chain intents a (t ∷ ts) c
  unfolding transition_record
  Chain-cons a b now ts c h f rest = rw (transition_eq a b now h) (refl, f, rest)

  Follows-next_record :
      (s : RuntimeState V) (status : String) (until : Option ℕ) (i : StateIntent V) (now : ℕ)
      → Move intents s (next_record s status until i now)
      → Follows intents s (next_record s status until i now)
  unfolding next_record
  Follows-next_record s status until i now m = record {
    same_scope = refl;
    same_dimension = refl;
    next_version = refl;
    named = refl;
    moves = m;
  }

  -- The fresh record of an intent on the dimension of a state.
  Follows-fresh_record :
      (s : RuntimeState V) (i : StateIntent V) (now from : ℕ) (until : Option ℕ)
      → Asks intents i s.dimension none
      → is_current_like s.status ≡ false
      → Follows intents s (fresh_record s.scope i now (s.version + 1) from until)
  unfolding fresh_record
  Follows-fresh_record s i now from until asks old = record {
    same_scope = refl;
    same_dimension = asks.on;
    next_version = refl;
    named = refl;
    moves = restart i asks old refl refl;
  }

  Follows-superseded :
      (s : RuntimeState V) (i : StateIntent V) (now : ℕ) (t : RuntimeState V)
      → terminal_record s superseded i now ≡ ok t
      → Asks intents i s.dimension none
      → is_current_like s.status ≡ true
      → Follows intents s t
  Follows-superseded s i now t h asks live = rw (terminal_record_eq s superseded i now h) (
      Follows-next_record s _ s.valid_until i now
        (replace i asks live (unfold next_record in refl) (unfold next_record in refl)))

  Follows-terminal_record :
      (s : RuntimeState V) (l : StateLifecycle) (i : StateIntent V) (now : ℕ) (t : RuntimeState V)
      → terminal_record s l i now ≡ ok t
      → Asks intents i s.dimension (some l)
      → is_terminal s.status ≡ false
      → Follows intents s t
  Follows-terminal_record s l i now t h asks live = rw (terminal_record_eq s l i now h) (
      Follows-next_record s _ s.valid_until i now
        (end i l asks live (unfold next_record in refl) (unfold next_record in refl)))

  Follows-fresh_state :
      {B : Type 0} (r : Registry B) (scope : Scope) (s : RuntimeState V) (i : StateIntent V)
      (now from : ℕ) (t : RuntimeState V)
      → fresh_state r scope i now (s.version + 1) from ≡ ok t
      → scope ≡ s.scope
      → Asks intents i s.dimension none
      → is_current_like s.status ≡ false
      → Follows intents s t
  Follows-fresh_state r scope s i now from t h place asks old =
      let (until, e) = fresh_state_eq r scope i now (s.version + 1) from h in
      rw e (rw place (Follows-fresh_record s i now from until asks old))

  Follows-refresh :
      (s : RuntimeState V) (i : StateIntent V) (p : ValidityPolicy) (now : ℕ) (t : RuntimeState V)
      → refresh s i p now ≡ ok t
      → Asks intents i s.dimension none
      → is_current_like s.status ≡ true
      → Follows intents s t
  Follows-refresh s i p now t h asks live =
      let (until, same) = refresh_eq s i p now h in
      rw same
        (Follows-next_record s _ until i now (unfold next_record in reaffirm i asks live refl refl))

  superseded_not_current :
      (s : RuntimeState V) (i : StateIntent V) (now : ℕ) (t : RuntimeState V)
      → terminal_record s superseded i now ≡ ok t
      → is_current_like t.status ≡ false
  superseded_not_current s i now t h =
      rw (terminal_record_eq s superseded i now h)
        (unfold next_record in rw (coerce-lifecycle_value superseded, is_current_like))

  Asks-Follows :
      (a b : RuntimeState V) (i : StateIntent V) (l : Option StateLifecycle)
      → Follows intents a b
      → Asks intents i a.dimension l
      → Asks intents i b.dimension l
  Asks-Follows a b i l f asks = record {
    member = asks.member;
    on = asks.on ∙ sym f.same_dimension;
    says = asks.says;
  }

  -- What every step ensures of the new state and its transitions.
  abbrev pub Reaches : RuntimeState V → RuntimeState V × List (StateTransition V) → Type 0
  Reaches current r = Chain intents current r.1 r.0

  -- A step that commits one transition.
  one_move :
      (a b : RuntimeState V) (now : ℕ)
      → Follows intents a b
      → Ensures (Reaches a) (transition a b now >>= λ t. ok (b, t ∷ []))
  one_move a b now f =
      Ensures-bind (transition a b now) _
        λ t e. Ensures-ok (b, t ∷ []) (Chain-cons a b now [] b e f refl)

  apply_terminal-Reaches :
      (current : RuntimeState V) (l : StateLifecycle) (i : StateIntent V) (now : ℕ)
      → Asks intents i current.dimension (some l)
      → Ensures (Reaches current) (apply_terminal current l i now)
  unfolding apply_terminal
  apply_terminal-Reaches current l i now asks =
      Ensures-if (is_terminal current.status) _ _
        (λ ended.
          Ensures-if (current.status == lifecycle_value l) (ok (current, [])) (raise value_error)
            (λ same. Ensures-ok (current, []) refl) (λ other. Ensures-raise value_error))
        λ live.
          Ensures-bind (terminal_record current l i now) _
            λ t e. one_move current t now (Follows-terminal_record current l i now t e asks live)

  module _ {B : Type 0} (definitions : Registry B) where
    fresh_after-Reaches :
        (current : RuntimeState V) (i : StateIntent V) (now : ℕ)
        → Asks intents i current.dimension none
        → is_current_like current.status ≡ false
        → Ensures (Reaches current) (fresh_after definitions current i now)
    unfolding fresh_after
    fresh_after-Reaches current i now asks old =
        Ensures-bind (fresh_state definitions current.scope i now (current.version + 1) now) _
          λ t e.
            one_move current t now
              (Follows-fresh_state definitions current.scope current i now now t e refl asks old)

    supersede-Reaches :
        (current : RuntimeState V) (i : StateIntent V) (now : ℕ)
        → Asks intents i current.dimension none
        → is_current_like current.status ≡ true
        → Ensures (Reaches current) (supersede definitions current i now)
    unfolding supersede
    supersede-Reaches current i now asks live =
        Ensures-bind (terminal_record current superseded i now) _ λ ended e.
          let f = Follows-superseded current i now ended e asks live in
          let old : is_current_like ended.status ≡ false =
            superseded_not_current current i now ended e in
          Ensures-bind (fresh_state definitions current.scope i now (ended.version + 1) now) _
            λ fresh e'.
              let g =
                Follows-fresh_state definitions current.scope ended i now now fresh e'
                  (sym f.same_scope) (Asks-Follows current ended i none f asks) old in
              Ensures-bind (transition current ended now) _ λ t d.
                Ensures-bind (transition ended fresh now) _ λ u d'.
                  Ensures-ok (fresh, t ∷ u ∷ [])
                    (Chain-cons current ended now (u ∷ []) fresh d f
                      (Chain-cons ended fresh now [] fresh d' g refl))

    module _ (value_eq : V → V → Bool) where
      reaffirm-Reaches :
          (current : RuntimeState V) (i : StateIntent V) (now : ℕ)
          → Asks intents i current.dimension none
          → is_current_like current.status ≡ true
          → Ensures (Reaches current) (reaffirm_or_supersede value_eq definitions current i now)
      unfolding reaffirm_or_supersede
      reaffirm-Reaches current i now asks live =
          Ensures-if (value_eq i.value current.value) _ _
            (λ equal. Ensures-bind (validity_policy current.dimension definitions) _ λ policy e.
              Ensures-if (is_event_only policy) _ _ (λ fixed. Ensures-ok (current, []) refl)
                λ timed. Ensures-bind (refresh current i policy now) _ λ t e'.
                  one_move current t now (Follows-refresh current i policy now t e' asks live))
            λ changed. supersede-Reaches current i now asks live

      pub reconcile-Reaches_from :
          (current : RuntimeState V) (i : StateIntent V) (now : ℕ)
          → Member i intents
          → i.dimension ≡ current.dimension
          → Ensures (Reaches current) (reconcile value_eq definitions current i now)
      unfolding reconcile reconcile_value
      reconcile-Reaches_from current i now member same = elim (Option-cases i.lifecycle) [
        | inl value ↦
            let asks : Asks intents i current.dimension none = record {
              member = member;
              on = same;
              says = value;
            } in
            rw (value, reconcile)
              (Ensures-if (is_terminal current.status) _ _
                (λ ended.
                  fresh_after-Reaches current i now asks
                    (terminal_not_current current.status ended))
                λ live.
                  Ensures-if (is_current_like current.status) _ _
                    (reaffirm-Reaches current i now asks)
                    λ old.
                      Ensures-if (is_known_lifecycle current.status) _ _
                        (λ known. fresh_after-Reaches current i now asks old)
                        (λ opaque. Ensures-raise value_error))
        | inr (l, explicit) ↦
            rw (explicit, reconcile)
              (apply_terminal-Reaches current l i now
                (record { member = member; on = same; says = explicit }))
      ]

module _ {V : Type 0} {B : Type 0} (value_eq : V → V → Bool) (definitions : Registry B) where
  -- Whatever an intent does to the current state of its dimension, the transitions that it commits
  -- lead from that state to the new one, one version at a time. Each expires, reaffirms or supersedes
  -- a current-like record and keeps its value, gives one that is not terminal the lifecycle that the
  -- intent asks for and keeps its value, or makes an active record with the intent's value after one
  -- that is not current-like.
  pub reconcile-Reaches :
      (current : RuntimeState V) (i : StateIntent V) (now : ℕ)
      → i.dimension ≡ current.dimension
      → Ensures (Reaches (i ∷ []) current) (reconcile value_eq definitions current i now)
  reconcile-Reaches current i now same =
      reconcile-Reaches_from (i ∷ []) definitions value_eq current i now (inl refl) same
