-- ===== src/Intents/Memory/Invariant.antt =====
-- The invariant of the backend in memory: its three dictionaries hold the same intents, each with a
-- history of moves.
use mind_runtime.Base.{
  find, some_inj, pair_eq, key_error, ◌≡◌, refl, subst, ◌∙◌, ◌⊎◌, inl, inr, Bool, true, false, not,
  ◌&&◌, ◌||◌, none, some, List, [], ◌∷◌, ◌++◌, arith, Option-cases, Eq, ◌==◌, nat_eq, string_eq,
  option_eq, list_eq, Eq-cases, value_error, raise_if, raise_if-ok, Ensures, Ensures-ok,
  Ensures-raise, Ensures-bind, lookup, insert, lookup-insert_self, lookup-insert_ne,
}
use mind_runtime.Contracts.{scope_eq, sync_fields_eq}
use mind_runtime.Intents.Records.{IntentStatus, candidate, status_eq, Intent, IntentTransition}
use mind_runtime.Intents.Equality.{intent_eq, transition_eq}
use mind_runtime.Intents.Backend.{IntentKey, key_of, has_key, at_version, validate_transition_shape}
use mind_runtime.Intents.Histories.{History, admitted, moved}
use mind_runtime.Intents.Fits.{Fits, validate_transition_shape-Fits}
use mind_runtime.Intents.Memory.{
  MemorySnapshot, admit_again, append_initial, replay_of, apply_transition,
}

module _ {F : Type 0} (Move : IntentStatus → IntentStatus → Type 0) where
  pub record Absent (k : IntentKey) (s : MemorySnapshot F) : Type 0 where
    pub no_current : lookup k s.current ≡ none
    pub no_history : lookup k s.history ≡ none
    pub no_transitions : lookup k s.transitions ≡ none

  pub record Present (k : IntentKey) (s : MemorySnapshot F) : Type 0 where
    pub versions : List (Intent F)
    pub moves : List IntentTransition
    pub newest : Intent F
    pub is_history : History Move k versions moves newest
    pub has_current : lookup k s.current ≡ some newest
    pub has_history : lookup k s.history ≡ some versions
    pub has_transitions : lookup k s.transitions ≡ some moves

  pub record Sound (s : MemorySnapshot F) : Type 0 where
    pub at : (k : IntentKey) → Absent k s ⊎ Present k s

abbrev pub stored_at :
    {F : Type 0}
    → IntentKey
    → Intent F
    → List (Intent F)
    → List IntentTransition
    → MemorySnapshot F
    → MemorySnapshot F
stored_at k newest h ts s = record {
  current = insert k newest s.current;
  history = insert k h s.history;
  transitions = insert k ts s.transitions;
}

both : (a b : Bool) → not a || not b ≡ false → (a ≡ true) × (b ≡ true)
both a b h = ground arith

both_and : (a b : Bool) → not (a && b) ≡ false → (a ≡ true) × (b ≡ true)
both_and a b h = ground arith

pub is_initial :
    {F : Type 0} (i : Intent F)
    → not (i.status == candidate) || not (i.sync.version == 1) ≡ false
    → (i.status ≡ candidate) × (i.sync.version ≡ 1)
is_initial i h =
    let (c, v) = both (i.status == candidate) (i.sync.version == 1) h in
    ((status_eq.beq_iff i.status candidate).0 c, (nat_eq.beq_iff i.sync.version 1).0 v)

pub replay_of-after :
    {F : Type 0} ⦃float_eq : Eq F⦄ (after replay : Intent F) (t : IntentTransition)
    (ts : List IntentTransition)
    → Ensures (λ r. (r ≡ replay) × (replay ≡ after)) (replay_of after t replay ts)
unfolding replay_of
replay_of-after after replay t ts =
    Ensures-bind
      (raise_if (not (replay == after && find (at_version replay.sync.version) ts == some t))
        value_error)
      _
      (λ u e. Ensures-ok replay (
        refl,
        (intent_eq.beq_iff replay after).0
            (both_and (replay == after) (find (at_version replay.sync.version) ts == some t)
              (raise_if-ok _ value_error e)).0,
      ))

module _ {F : Type 0} ⦃float_eq : Eq F⦄ {Move : IntentStatus → IntentStatus → Type 0} where
  pub stored_at-Sound :
      (k : IntentKey) (h : List (Intent F)) (ts : List IntentTransition) (newest : Intent F)
      (s : MemorySnapshot F)
      → Sound Move s
      → History Move k h ts newest
      → Sound Move (stored_at k newest h ts s)
  stored_at-Sound k h ts newest s sound hist = record {
    at = λ j. elim (Eq-cases k j) [
      | inl same ↦
          subst
            (λ i.
              Absent Move i (stored_at k newest h ts s)
              ⊎ Present Move i (stored_at k newest h ts s))
            same
            (inr (record {
              versions = h;
              moves = ts;
              newest = newest;
              is_history = hist;
              has_current = lookup-insert_self k newest s.current;
              has_history = lookup-insert_self k h s.history;
              has_transitions = lookup-insert_self k ts s.transitions;
            }))
      | inr other ↦ elim (sound.at j) [
        | inl a ↦ inl (record {
          no_current = lookup-insert_ne k j newest s.current other ∙ a.no_current;
          no_history = lookup-insert_ne k j h s.history other ∙ a.no_history;
          no_transitions = lookup-insert_ne k j ts s.transitions other ∙ a.no_transitions;
        })
        | inr p ↦ inr (record {
          versions = p.versions;
          moves = p.moves;
          newest = p.newest;
          is_history = p.is_history;
          has_current = lookup-insert_ne k j newest s.current other ∙ p.has_current;
          has_history = lookup-insert_ne k j h s.history other ∙ p.has_history;
          has_transitions = lookup-insert_ne k j ts s.transitions other ∙ p.has_transitions;
        })
      ]
    ];
  }

  pub append_initial-Sound :
      (i : Intent F) (s : MemorySnapshot F)
      → Sound Move s
      → Ensures (λ p. Sound Move p.1) (append_initial i s)
  unfolding append_initial
  append_initial-Sound i s sound =
      Ensures-bind (raise_if (not (i.status == candidate) || not (i.sync.version == 1)) value_error)
        _
        (λ u e. elim (Option-cases (lookup (key_of i) s.history)) [
          | inl new ↦
              rw (new, append_initial)
                (Ensures-ok _ (
                  stored_at-Sound (key_of i) (i ∷ []) [] i s sound (
                    admitted i (is_initial i (raise_if-ok _ value_error e)).0
                      (is_initial i (raise_if-ok _ value_error e)).1 refl)))
          | inr (h, old) ↦
              rw (old, append_initial)
                (Ensures-bind (admit_again i h) _
                  (λ existing again. Ensures-ok (existing, s) sound))
        ])

  advanced :
      (before after : Intent F) (t : IntentTransition) (s : MemorySnapshot F)
      (p : Present Move (key_of before) s)
      → Sound Move s
      → (some p.newest ≡ some before) × Fits before after t
      → Move before.status after.status
      → find (has_key after.sync.idempotency_key) p.versions ≡ none
      → Sound Move
          (stored_at (key_of before) after (p.versions ++ (after ∷ [])) (p.moves ++ (t ∷ [])) s)
  advanced before after t s p sound shape move fresh =
      stored_at-Sound (key_of before) (p.versions ++ (after ∷ [])) (p.moves ++ (t ∷ [])) after s
        sound
        (moved p.versions p.moves before after t
          (subst (λ b. History Move (key_of before) p.versions p.moves b) (some_inj shape.0)
            p.is_history)
          shape.1 move fresh)

  pub apply_transition-Sound :
      (in_unit : F → Bool) (before after : Intent F) (t : IntentTransition) (s : MemorySnapshot F)
      → Move before.status after.status
      → Sound Move s
      → Ensures (λ p. (p.0 ≡ after) × Sound Move p.1) (apply_transition in_unit before after t s)
  unfolding apply_transition
  apply_transition-Sound in_unit before after t s move sound = elim (sound.at (key_of before)) [
    | inl a ↦ rw (a.no_history, apply_transition) (Ensures-raise key_error)
    | inr p ↦
        rw (p.has_history, p.has_transitions, apply_transition)
          (elim (Option-cases (find (has_key after.sync.idempotency_key) p.versions)) [
            | inl fresh ↦
                rw (fresh, p.has_current)
                  (Ensures-bind (validate_transition_shape in_unit before after t (some p.newest)) _
                    (λ u shape. Ensures-ok _ (
                      refl,
                      advanced before after t s p sound
                          ((validate_transition_shape-Fits in_unit before after t
                              (some p.newest)).at
                            u shape)
                          move fresh,
                    )))
            | inr (replay, found) ↦ rw (found) (
                Ensures-bind (replay_of after t replay p.moves) _ (λ r again.
                  Ensures-ok (r, s)
                    (
                      ((replay_of-after after replay t p.moves).at r again).0
                          ∙ ((replay_of-after after replay t p.moves).at r again).1,
                      sound,
                    )))
          ])
  ]
