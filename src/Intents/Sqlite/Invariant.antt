-- ===== src/Intents/Sqlite/Invariant.antt =====
-- The invariant of the durable backend: the rows of an intent are a history of moves.
use mind_runtime.Base.{
  find, last, some_inj, pair_eq, ◌≤◌, ◌≡◌, refl, sym, subst, ◌∙◌, ◌⊎◌, inl, inr, ◌&&◌, none, some,
  [], ◌∷◌, ◌++◌, arith, nat_eq, string_eq, option_eq, list_eq, Eq-cases, All, All-map,
}
use mind_runtime.Contracts.{scope_eq}
use mind_runtime.Intents.Records.{IntentStatus, candidate, status_eq, Intent, IntentTransition}
use mind_runtime.Intents.Backend.{IntentKey, key_of, has_key}
use mind_runtime.Intents.Histories.{
  History, admitted, moved, History-last, History-bound, History-transitions,
}
use mind_runtime.Intents.Fits.{Fits, Fits-key, Fits-version, Fits-move_key}
use mind_runtime.Intents.Sqlite.{IntentTables, is_of, history_or_empty, transition_rows}
use mind_runtime.Intents.Sqlite.Rows.{
  history-other, history-own, moves-other, moves-own, other_key, own_key, other_move, own_move,
  absurd_last, find-history,
}

module _ {F : Type 0} (Move : IntentStatus → IntentStatus → Type 0) where
  pub record RowsAbsent (k : IntentKey) (t : IntentTables F) : Type 0 where
    pub no_versions : history_or_empty k t ≡ []
    pub no_moves : transition_rows k t ≡ []

  pub record RowsPresent (k : IntentKey) (t : IntentTables F) : Type 0 where
    pub newest : Intent F
    pub is_history : History Move k (history_or_empty k t) (transition_rows k t) newest

  pub record SoundTables (t : IntentTables F) : Type 0 where
    pub at : (k : IntentKey) → RowsAbsent k t ⊎ RowsPresent k t

module _ {F : Type 0} {Move : IntentStatus → IntentStatus → Type 0} where
  kept_rows :
      (k : IntentKey) (t u : IntentTables F)
      → history_or_empty k u ≡ history_or_empty k t
      → transition_rows k u ≡ transition_rows k t
      → RowsAbsent Move k t ⊎ RowsPresent Move k t
      → RowsAbsent Move k u ⊎ RowsPresent Move k u
  kept_rows k t u e f (inl a) =
      inl (record { no_versions = e ∙ a.no_versions; no_moves = f ∙ a.no_moves })
  kept_rows k t u e f (inr p) =
      inr (record { newest = p.newest; is_history = rw (e, f) p.is_history })

  -- An intent that has no rows is admitted.
  pub admitted-SoundTables :
      (i : Intent F) (t : IntentTables F)
      → SoundTables Move t
      → i.status ≡ candidate
      → i.sync.version ≡ 1
      → history_or_empty (key_of i) t ≡ []
      → SoundTables Move (record t { intents = t.intents ++ (i ∷ []) })
  unfolding transition_rows
  admitted-SoundTables i t sound c v new = record {
    at = λ k. elim (Eq-cases (key_of i) k) [
      | inl same ↦ elim (sound.at (key_of i)) [
        | inl a ↦ inr (record {
          newest = i;
          is_history =
              rw
                (
                  history-own k i t (own_key k i same) (
                      subst (λ l. All (λ j. j.sync.version ≤ i.sync.version) (history_or_empty l t))
                        same (rw (new) tt)),
                  ← same,
                  new,
                  a.no_moves,
                )
                (admitted i c v refl);
        })
        | inr p ↦ elim (absurd_last _ p.newest new (History-last _ _ p.newest p.is_history)) [ ]
      ]
      | inr other ↦ kept_rows k t _ (history-other k i t (other_key k i other)) refl (sound.at k)
    ];
  }

  module _ (before after : Intent F) (m : IntentTransition) (t : IntentTables F)
      (p : RowsPresent Move (key_of before) t) (fits : Fits before after m) where
    abbrev with_move : IntentTables F
    with_move = record {
      intents = t.intents ++ (after ∷ []);
      intent_transitions = t.intent_transitions ++ (m ∷ []);
    }

    present_moved :
        before ≡ p.newest
        → Move before.status after.status
        → find (λ i. is_of (key_of after) i && has_key after.sync.idempotency_key i) t.intents
          ≡ none
        → RowsPresent Move (key_of before) with_move
    unfolding history_or_empty transition_rows
    present_moved is_newest move fresh =
        let hist : History Move (key_of before) (history_or_empty (key_of before) t)
            (transition_rows (key_of before) t) before =
          subst
            (λ b.
              History Move (key_of before) (history_or_empty (key_of before) t)
                (transition_rows (key_of before) t) b)
            (sym is_newest) p.is_history in
        record {
          newest = after;
          is_history =
              rw
                (
                  history-own (key_of before) after
                      (record t { intent_transitions = t.intent_transitions ++ (m ∷ []) })
                      (own_key (key_of before) after (Fits-key before after m fits))
                      (All-map _ _ (history_or_empty (key_of before) t)
                        (λ j h. omega (arith, fits.next_version)) (History-bound _ _ before hist)),
                  moves-own (key_of before) m (record t { intents = t.intents ++ (after ∷ []) })
                      (own_move (key_of before) m (Fits-move_key before after m fits))
                      (All-map _ _ (transition_rows (key_of before) t)
                        (λ j h. omega (arith, fits.next_version, Fits-version before after m fits))
                        (History-transitions _ _ before hist)),
                )
                (moved (history_or_empty (key_of before) t) (transition_rows (key_of before) t)
                  before after m hist fits move
                  (subst
                    (λ k. find (has_key after.sync.idempotency_key) (history_or_empty k t) ≡ none)
                    (Fits-key before after m fits)
                    (find-history (key_of after) after.sync.idempotency_key t fresh)));
        }

  -- The newest version of an intent is followed by another.
  pub moved-SoundTables :
      (before after : Intent F) (m : IntentTransition) (t : IntentTables F)
      → SoundTables Move t
      → last (history_or_empty (key_of before) t) ≡ some before
      → Fits before after m
      → Move before.status after.status
      → find (λ i. is_of (key_of after) i && has_key after.sync.idempotency_key i) t.intents ≡ none
      → SoundTables Move (record {
        intents = t.intents ++ (after ∷ []);
        intent_transitions = t.intent_transitions ++ (m ∷ []);
      })
  unfolding history_or_empty transition_rows
  moved-SoundTables before after m t sound is_last fits move fresh = record {
    at = λ k. elim (Eq-cases (key_of before) k) [
      | inl same ↦ elim (sound.at (key_of before)) [
        | inl a ↦ elim (absurd_last _ before a.no_versions is_last) [ ]
        | inr p ↦
            subst
              (λ l.
                RowsAbsent Move l (with_move before after m t p fits)
                ⊎ RowsPresent Move l (with_move before after m t p fits))
              same
              (inr (
                present_moved before after m t p fits
                  (some_inj (sym is_last ∙ History-last _ _ p.newest p.is_history)) move fresh))
      ]
      | inr other ↦
          kept_rows k t _
            (history-other k after
              (record t { intent_transitions = t.intent_transitions ++ (m ∷ []) })
              (other_key k after (λ e. other (sym (Fits-key before after m fits) ∙ e))))
            (moves-other k m (record t { intents = t.intents ++ (after ∷ []) })
              (other_move k m (λ e. other (sym (Fits-move_key before after m fits) ∙ e))))
            (sound.at k)
    ];
  }
