-- ===== src/Intents/Histories.antt =====
-- The history of an intent: its versions, each with the transition that led to it.
use mind_runtime.Base.{
  length-append, Distinct-append_one, find, last, last-append_one, All-append, pair_eq, length, ℕ,
  suc, ◌+◌, ◌≤◌, String, ◌≡◌, refl, ap, ◌∙◌, Bool, true, false, ◌&&◌, none, some, List, [], ◌∷◌,
  ◌++◌, arith, ◌==◌, nat_eq, string_eq, option_eq, list_eq, All, All-map, contains, Distinct,
}
use mind_runtime.Contracts.{scope_eq, sync_fields_eq}
use mind_runtime.Intents.Records.{IntentStatus, candidate, status_eq, Intent, IntentTransition}
use mind_runtime.Intents.Equality.{intent_eq, transition_eq}
use mind_runtime.Intents.Backend.{IntentKey, key_of, has_key}
use mind_runtime.Intents.Fits.{Fits, Fits-key, Fits-version}

-- The versions of the intent `k`, oldest first, and its transitions, each a move in `Move`; the last
-- index is the newest version.
pub data History {F : Type 0} (Move : IntentStatus → IntentStatus → Type 0) (k : IntentKey)
    : List (Intent F) → List IntentTransition → Intent F → Type 0 where
  admitted :
      (i : Intent F)
      → i.status ≡ candidate
      → i.sync.version ≡ 1
      → key_of i ≡ k
      → History Move k (i ∷ []) [] i
  moved :
      (h : List (Intent F)) (ts : List IntentTransition) (before after : Intent F)
      (t : IntentTransition)
      → History Move k h ts before
      → Fits before after t
      → Move before.status after.status
      → find (has_key after.sync.idempotency_key) h ≡ none
      → History Move k (h ++ (after ∷ [])) (ts ++ (t ∷ [])) after

-- The versions count from one.
abbrev pub numbered_from : {F : Type 0} → ℕ → List (Intent F) → Bool
numbered_from n [] = true
numbered_from n (i ∷ h) = i.sync.version == n && numbered_from (suc n) h

numbered_from-append_one :
    {F : Type 0} (n : ℕ) (h : List (Intent F)) (i : Intent F)
    → numbered_from n h ≡ true
    → i.sync.version ≡ n + length h
    → numbered_from n (h ++ (i ∷ [])) ≡ true
numbered_from-append_one n [] i p e = ground (arith, nat_eq.beq_iff i.sync.version n)
numbered_from-append_one n (j ∷ h) i p e = ground (arith, numbered_from-append_one (suc n) h i)

abbrev pub key_list : {F : Type 0} → List (Intent F) → List String
key_list [] = []
key_list (i ∷ h) = i.sync.idempotency_key ∷ key_list h

key_list-append :
    {F : Type 0} (g h : List (Intent F)) → key_list (g ++ h) ≡ key_list g ++ key_list h
key_list-append [] h = refl
key_list-append (i ∷ g) h = ap (λ l. i.sync.idempotency_key ∷ l) (key_list-append g h)

contains-key_list :
    {F : Type 0} (key : String) (h : List (Intent F))
    → find (has_key key) h ≡ none
    → contains key (key_list h) ≡ false
contains-key_list key [] e = refl
contains-key_list key (i ∷ h) e = ground (arith, contains-key_list key h)

-- All versions have the facts of the first: they differ in status and synchronization alone.
abbrev pub SameFacts : {F : Type 0} → Intent F → Intent F → Type 0
SameFacts a b = a ≡ record b { status = a.status; sync = a.sync }

module _ {F : Type 0} {Move : IntentStatus → IntentStatus → Type 0} {k : IntentKey} where
  pub History-last :
      (h : List (Intent F)) (ts : List IntentTransition) (newest : Intent F)
      → History Move k h ts newest
      → last h ≡ some newest
  History-last h ts newest (admitted i c v e) = refl
  History-last h ts newest (moved g us before after t hist f m fresh) = last-append_one g after

  pub History-key :
      (h : List (Intent F)) (ts : List IntentTransition) (newest : Intent F)
      → History Move k h ts newest
      → key_of newest ≡ k
  History-key h ts newest (admitted i c v e) = e
  History-key h ts newest (moved g us before after t hist f m fresh) =
      Fits-key before after t f ∙ History-key g us before hist

  -- No version is newer than the newest.
  pub History-bound :
      (h : List (Intent F)) (ts : List IntentTransition) (newest : Intent F)
      → History Move k h ts newest
      → All (λ i. i.sync.version ≤ newest.sync.version) h
  History-bound h ts newest (admitted i c v e) = (omega arith, tt)
  History-bound h ts newest (moved g us before after t hist f m fresh) =
      All-append _ g (after ∷ []) (omega arith, tt)
        (All-map _ _ g (λ i le. omega (arith, f.next_version)) (History-bound g us before hist))

  pub History-newest_version :
      (h : List (Intent F)) (ts : List IntentTransition) (newest : Intent F)
      → History Move k h ts newest
      → newest.sync.version ≡ length h
  History-newest_version h ts newest (admitted i c v e) = v
  History-newest_version h ts newest (moved g us before after t hist f m fresh) =
      omega (
        arith,
        f.next_version,
        History-newest_version g us before hist,
        length-append g (after ∷ []),
      )

  pub History-numbered :
      (h : List (Intent F)) (ts : List IntentTransition) (newest : Intent F)
      → History Move k h ts newest
      → numbered_from 1 h ≡ true
  History-numbered h ts newest (admitted i c v e) = ground (arith, nat_eq.beq_iff i.sync.version 1)
  History-numbered h ts newest (moved g us before after t hist f m fresh) =
      numbered_from-append_one 1 g after (History-numbered g us before hist)
        (omega (arith, f.next_version, History-newest_version g us before hist))

  pub History-keys :
      (h : List (Intent F)) (ts : List IntentTransition) (newest : Intent F)
      → History Move k h ts newest
      → Distinct (key_list h)
  History-keys h ts newest (admitted i c v e) = (refl, tt)
  History-keys h ts newest (moved g us before after t hist f m fresh) =
      rw (key_list-append g (after ∷ [])) (
        Distinct-append_one _ (key_list g) (History-keys g us before hist)
          (contains-key_list _ g fresh))

  pub History-facts :
      (h : List (Intent F)) (ts : List IntentTransition) (newest : Intent F)
      → History Move k h ts newest
      → All (SameFacts newest) h
  History-facts h ts newest (admitted i c v e) = (refl, tt)
  History-facts h ts newest (moved g us before after t hist f m fresh) =
      All-append _ g (after ∷ []) (refl, tt)
        (All-map _ _ g
          (λ i e.
            f.same_facts
            ∙ ap {A = Intent F} (λ b. record b { status = after.status; sync = after.sync }) e)
          (History-facts g us before hist))

  -- No transition has a version past the newest one's.
  pub History-transitions :
      (h : List (Intent F)) (ts : List IntentTransition) (newest : Intent F)
      → History Move k h ts newest
      → All (λ t. t.version ≤ newest.sync.version) ts
  History-transitions h ts newest (admitted i c v e) = tt
  History-transitions h ts newest (moved g us before after t hist f m fresh) =
      All-append _ us (t ∷ []) (omega (arith, Fits-version before after t f), tt)
        (All-map _ _ us (λ i le. omega (arith, f.next_version))
          (History-transitions g us before hist))
