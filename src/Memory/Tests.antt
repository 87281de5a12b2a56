-- ===== src/Memory/Tests.antt =====
-- The overlay with one item for each of two turns.
use mind_runtime.Base.{
  is_blank, pair_eq, length, ℕ, String, ◌≡◌, refl, ◌≢◌, Bool, none, some, [], ◌∷◌, leb, nat_eq,
  string_eq, option_eq, list_eq, ok, All, keys, values, Distinct,
}
use mind_runtime.Contracts.{ScopeDomain}
use mind_runtime.Memory.Pending.{
  PendingWorkingEvidence, pending, rejected, Items, check_evidence, add, get_pending,
  get_pending_by_turn, get_by_pending_id, conclude, clear_on_turn_abort,
}
use mind_runtime.Memory.Pending.Keeps.{Waits, Reached, started, added, Reached-get_pending}
use mind_runtime.Memory.Pending.Aborts.{clear_on_turn_abort-exact, add-conclude}

abbrev percent : ℕ → Bool
percent n = leb n 100

abbrev evidence : String → String → PendingWorkingEvidence ℕ
evidence id turn = record {
  pending_id = id;
  evidence_ref = "message";
  source_turn_id = turn;
  scope = record {
    domain = ScopeDomain.user;
    user_id = some "alice";
    agent_id = none;
    persona_id = none;
    relationship_id = none;
    world_id = none;
    interaction_id = none;
  };
  semantic_payload = ("likes", "tea") ∷ [];
  confidence = 80;
  status = pending;
  origin_runtime_id = "runtime";
  source_text = "I like tea";
  created_at = 7;
}

abbrev one_item : Items ℕ
one_item = ("a", evidence "a" "first") ∷ []

abbrev two_items : Items ℕ
two_items = ("a", evidence "a" "first") ∷ ("b", evidence "b" "second") ∷ []

added_first : add (evidence "a" "first") [] ≡ ok one_item
unfolding add
added_first = refl

added_second : add (evidence "b" "second") one_item ≡ ok two_items
unfolding add
added_second = refl

two_items-Reached : Reached percent two_items
two_items-Reached =
    added (evidence "b" "second") one_item two_items
      (added (evidence "a" "first") [] one_item started added_first) added_second

Reached-get_pending_example :
    (get_pending none two_items ≡ values two_items)
    × All Waits two_items
    × Distinct (keys two_items)
Reached-get_pending_example = Reached-get_pending percent two_items two_items-Reached

clear_on_turn_abort-exact_example :
    (left : Items ℕ) × (clear_on_turn_abort "first" two_items
      ≡ ok (length (get_pending_by_turn "first" two_items), left))
    × (get_pending_by_turn "first" left ≡ [])
    × ((other : String)
        → "first" ≢ other
        → get_pending_by_turn other left ≡ get_pending_by_turn other two_items)
clear_on_turn_abort-exact_example =
    clear_on_turn_abort-exact percent "first" two_items two_items-Reached

add-conclude_example :
    (get_by_pending_id "b" two_items ≡ some (evidence "b" "second"))
    × (conclude percent rejected "b" two_items
        ≡ ok (some (record (evidence "b" "second") { status = rejected }), one_item))
unfolding check_evidence is_blank
add-conclude_example =
    add-conclude percent (evidence "b" "second") rejected one_item two_items checked added_second
  where
    checked : check_evidence percent (evidence "b" "second") ≡ ok tt
    checked = refl
