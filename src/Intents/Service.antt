-- ===== src/Intents/Service.antt =====
-- The lifecycle service and the scheduler on the backend in memory: the snapshots that their calls
-- lead to.
use mind_runtime.Base.{
  last, some_inj, pair_eq, String, ◌≡◌, refl, sym, subst, ◌∙◌, inl, inr, Bool, true, Option, none,
  some, List, Eq, nat_eq, string_eq, option_eq, list_eq, ok, All, lookup, Distinct,
}
use mind_runtime.Contracts.{Scope, scope_eq}
use mind_runtime.Intents.Records.{Intent, IntentTransition}
use mind_runtime.Intents.Backend.{IntentBackend}
use mind_runtime.Intents.Histories.{
  History, SameFacts, numbered_from, key_list, History-last, History-numbered, History-keys,
  History-facts,
}
use mind_runtime.Intents.Memory.{
  MemorySnapshot, append_initial, apply_transition, current, history, transitions, or_key_error,
  empty_snapshot,
}
use mind_runtime.Intents.Memory.Invariant.{Sound, append_initial-Sound, apply_transition-Sound}
use mind_runtime.Intents.Runs.{ReachableBy, ReachableBy-Kept}
use mind_runtime.Intents.Lifecycle.Keeps.{Legal, KeepsMoves}

pub or_key_error-eq : {A : Type 0} (o : Option A) (a : A) → or_key_error o ≡ ok a → o ≡ some a
or_key_error-eq none a e = cc
or_key_error-eq (some b) a e = cc

pub none-some : {A : Type 0} {o : Option A} {a : A} → o ≡ none → o ≡ some a → ⊥
none-some p q = cc

module _ {F : Type 0} ⦃float_eq : Eq F⦄ (in_unit : F → Bool) where
  -- `InMemoryIntentBackend` as the service's backend.
  abbrev pub memory_backend : IntentBackend F (MemorySnapshot F)
  memory_backend = record {
    append_initial = append_initial;
    apply_transition = apply_transition in_unit;
    current = current;
    history = history;
    transitions = transitions;
  }

  abbrev pub memory_keeps : KeepsMoves Legal memory_backend
  memory_keeps = record {
    Kept = Sound Legal;
    keeps_initial = append_initial-Sound;
    keeps_move = apply_transition-Sound in_unit;
  }

  -- The snapshots that calls lead to, from the empty one.
  abbrev pub Reachable : MemorySnapshot F → Type 0
  Reachable = ReachableBy in_unit memory_backend empty_snapshot

  empty_snapshot-Sound : Sound {F = F} Legal empty_snapshot
  empty_snapshot-Sound = record {
    at = λ k. inl (record { no_current = refl; no_history = refl; no_transitions = refl });
  }

  pub Reachable-Sound : (s : MemorySnapshot F) → Reachable s → Sound Legal s
  Reachable-Sound =
      ReachableBy-Kept in_unit memory_backend empty_snapshot memory_keeps empty_snapshot-Sound

  -- What the backend holds of one intent.
  pub record Recorded (scope : Scope) (intent_id : String) (h : List (Intent F))
      (s : MemorySnapshot F) : Type 0 where
    pub moves : List IntentTransition
    pub newest : Intent F
    pub legal_history : History Legal (scope, intent_id) h moves newest
    pub all_moves : transitions scope intent_id s ≡ ok moves
    pub newest_last : last h ≡ some newest
    pub is_current : lookup (scope, intent_id) s.current ≡ some newest
    pub counted : numbered_from 1 h ≡ true
    pub distinct_keys : Distinct (key_list h)
    pub same_facts : All (SameFacts newest) h

  -- In every snapshot that calls of the service and ticks of the scheduler lead to from the empty one,
  -- a history that is returned is one of legal moves that starts with a candidate: its versions count
  -- from one and differ from the newest in status and synchronization alone, no idempotency key
  -- occurs twice, the newest version is the one stored as current, and the transitions that are
  -- returned are those moves.
  pub history-Recorded :
      (scope : Scope) (intent_id : String) (s : MemorySnapshot F) (h : List (Intent F))
      → Reachable s
      → history scope intent_id s ≡ ok h
      → Recorded scope intent_id h s
  unfolding history transitions
  history-Recorded scope intent_id s h reached e =
      elim ((Reachable-Sound s reached).at (scope, intent_id)) [
        | inl a ↦ elim (none-some a.no_history (or_key_error-eq _ h e)) [ ]
        | inr p ↦
            let hist : History Legal (scope, intent_id) h p.moves p.newest =
              subst (λ g. History Legal (scope, intent_id) g p.moves p.newest)
                (some_inj (sym p.has_history ∙ or_key_error-eq _ h e)) p.is_history in
            record {
              moves = p.moves;
              newest = p.newest;
              legal_history = hist;
              all_moves = rw (p.has_transitions) refl;
              newest_last = History-last h p.moves p.newest hist;
              is_current = p.has_current;
              counted = History-numbered h p.moves p.newest hist;
              distinct_keys = History-keys h p.moves p.newest hist;
              same_facts = History-facts h p.moves p.newest hist;
            }
      ]
