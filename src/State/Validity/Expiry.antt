-- ===== src/State/Validity/Expiry.antt =====
-- Expiry by time: when it happens, what it makes of the record, and that it happens once.
use mind_runtime.Base.{
  ℕ, ◌+◌, ◌<◌, ◌⊎◌, inl, inr, ◌≡◌, refl, sym, ◌∙◌, Bool, true, false, Option, none, some, String,
  ◌<>◌, string_eq, decimal, arith, ok, >>-eq-ok, if◌then◌else◌, Bool-cases, Option-cases,
}
use mind_runtime.Contracts.{RuntimeState, make_state}
use mind_runtime.State.Lifecycle.{
  StateLifecycle, active, improving, resolved, completed, cancelled, superseded, lifecycle_value,
  expired, in_current_like, coerce, is_current_like, is_terminal, canonical_state_id,
  coerce-lifecycle_value, coerce-some,
}
use mind_runtime.State.Validity.{
  ValidityOutcome, expired_record, expired_successor, is_lapsed, evaluate_validity,
}

-- The texts that count as current.
abbrev pub IsLive : String → Type 0
IsLive status = (status ≡ "active") ⊎ (status ≡ "improving")

in_current_like-IsLive :
    (l : StateLifecycle) → in_current_like l ≡ true → IsLive (lifecycle_value l)
in_current_like-IsLive active h = inl refl
in_current_like-IsLive improving h = inr refl
in_current_like-IsLive expired h = cc
in_current_like-IsLive resolved h = cc
in_current_like-IsLive completed h = cc
in_current_like-IsLive cancelled h = cc
in_current_like-IsLive superseded h = cc

pub false_ne_true : false ≡ true → ⊥
false_ne_true h = cc

pub is_current_like-IsLive : (status : String) → is_current_like status ≡ true → IsLive status
is_current_like-IsLive status h = elim (Option-cases (coerce status)) [
  | inl unknown ↦
      let no : false ≡ true = rw (unknown, is_current_like) at h in elim (false_ne_true no) [ ]
  | inr (l, known) ↦
      rw (coerce-some status l known) (in_current_like-IsLive l (rw (known, is_current_like) at h))
]

pub IsLive-is_current_like : (status : String) → IsLive status → is_current_like status ≡ true
unfolding coerce
IsLive-is_current_like status (inl e) = rw e refl
IsLive-is_current_like status (inr e) = rw e refl

is_lapsed-over :
    (until : Option ℕ) (now : ℕ)
    → is_lapsed until now ≡ true
    → (u : ℕ) × (until ≡ some u) × (u < now)
is_lapsed-over none now h = cc
is_lapsed-over (some u) now h = (u, refl, ground arith)

module _ {V : Type 0} where
  -- A record that is still current, with an envelope that ended before `now`.
  pub record Overdue (s : RuntimeState V) (now : ℕ) : Type 0 where
    pub until : ℕ
    pub live : IsLive s.status
    pub given : s.valid_until ≡ some until
    pub over : until < now

  -- The next version of a record, expired at `now`, with all else kept.
  pub record ExpiredAt (s : RuntimeState V) (now : ℕ) (t : RuntimeState V) : Type 0 where
    pub same_scope : t.scope ≡ s.scope
    pub same_dimension : t.dimension ≡ s.dimension
    pub same_value : t.value ≡ s.value
    pub same_from : t.valid_from ≡ s.valid_from
    pub same_until : t.valid_until ≡ s.valid_until
    pub same_observed : t.last_observed_at ≡ s.last_observed_at
    pub same_evidence : t.evidence_refs ≡ s.evidence_refs
    pub same_origin : t.origin_runtime_id ≡ s.origin_runtime_id
    pub over : t.status ≡ "expired"
    pub next_version : t.version ≡ s.version + 1
    pub named : t.state_id ≡ s.dimension <> ":" <> decimal (s.version + 1)
    pub updated : t.updated_at ≡ now

  expired_successor_eq :
      (s : RuntimeState V) (now : ℕ) (t : RuntimeState V)
      → expired_successor s now ≡ ok t
      → t ≡ expired_record s now
  unfolding expired_successor make_state
  expired_successor_eq s now t h = >>-eq-ok _ (expired_record s now) h

  expires : RuntimeState V → ℕ → Bool
  expires s now = if is_current_like s.status then is_lapsed s.valid_until now else false

  verdict :
      (s : RuntimeState V) (now : ℕ) (o : ValidityOutcome V)
      → evaluate_validity s now ≡ ok o
      → (o.changed ≡ expires s now)
        × (o.state ≡ (if expires s now then expired_record s now else s))
  unfolding evaluate_validity expires
  verdict s now o h = ground (arith, expired_successor_eq s now o.state)

  expires-Overdue : (s : RuntimeState V) (now : ℕ) → expires s now ≡ true → Overdue s now
  unfolding expires
  expires-Overdue s now h =
      let live : is_current_like s.status ≡ true = ground arith in
      let (u, given, over) = is_lapsed-over s.valid_until now (rw live at h) in
      record { until = u; live = is_current_like-IsLive s.status live; given = given; over = over }

  Overdue-expires : (s : RuntimeState V) (now : ℕ) → Overdue s now → expires s now ≡ true
  unfolding expires
  Overdue-expires s now d =
      let over : d.until < now = d.over in
      let lapsed : is_lapsed (some d.until) now ≡ true = ground arith in
      rw (IsLive-is_current_like s.status d.live, d.given) lapsed

  expired_record-ExpiredAt : (s : RuntimeState V) (now : ℕ) → ExpiredAt s now (expired_record s now)
  unfolding expired_record canonical_state_id
  expired_record-ExpiredAt s now = record {
    same_scope = refl;
    same_dimension = refl;
    same_value = refl;
    same_from = refl;
    same_until = refl;
    same_observed = refl;
    same_evidence = refl;
    same_origin = refl;
    over = refl;
    next_version = refl;
    named = refl;
    updated = refl;
  }

  pub evaluate_validity_lem :
      (s : RuntimeState V) (now : ℕ) (o : ValidityOutcome V)
      → evaluate_validity s now ≡ ok o
      → ((o.changed ≡ true) × Overdue s now × ExpiredAt s now o.state)
        ⊎ ((o.changed ≡ false) × (Overdue s now → ⊥) × (o.state ≡ s))
  evaluate_validity_lem s now o h =
      let (test, after) = verdict s now o h in
      elim (Bool-cases (expires s now)) [
        | inl due ↦ inl (
          test ∙ due,
          expires-Overdue s now due,
          rw (rw due at after) (expired_record-ExpiredAt s now),
        )
        | inr not_due ↦ inr (
          test ∙ not_due,
          λ d.
              let clash : true ≡ false = sym (Overdue-expires s now d) ∙ not_due in
              elim (false_ne_true (sym clash)) [ ],
          rw not_due at after,
        )
      ]

  -- A terminal record is never touched by time, whatever its envelope says.
  pub evaluate_validity-terminal :
      (s : RuntimeState V) (now : ℕ)
      → is_terminal s.status ≡ true
      → evaluate_validity s now
        ≡ ok (record { state = s; changed = false; reason = "terminal_protected" })
  unfolding evaluate_validity
  evaluate_validity-terminal s now h = rw h

  expired_stays :
      (s : RuntimeState V) (later : ℕ)
      → s.status ≡ "expired"
      → evaluate_validity s later
        ≡ ok (record { state = s; changed = false; reason = "opaque_status" })
  unfolding evaluate_validity
  expired_stays s later e =
      rw (e, coerce-lifecycle_value expired, is_terminal, is_current_like) refl

  -- What time has expired it leaves alone: evaluated again, at any time, the record is given back
  -- unchanged, as one of an opaque status.
  pub evaluate_validity_once :
      (s : RuntimeState V) (now later : ℕ) (o : ValidityOutcome V)
      → evaluate_validity s now ≡ ok o
      → o.changed ≡ true
      → evaluate_validity o.state later
        ≡ ok (record { state = o.state; changed = false; reason = "opaque_status" })
  evaluate_validity_once s now later o h c = elim (evaluate_validity_lem s now o h) [
    | inl (changed, due, gone) ↦ expired_stays o.state later gone.over
    | inr (same, early, kept) ↦ elim (false_ne_true (sym same ∙ c)) [ ]
  ]
