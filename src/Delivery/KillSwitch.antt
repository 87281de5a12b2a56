-- ===== src/Delivery/KillSwitch.antt =====
-- The kill switch (delivery/kill_switch.py): the single row of its table, with the block maps that
-- the row holds as JSON. The labels are written by this code alone, so the checks of what is read
-- back have nothing to reject.
pub mod Blocks
pub mod Sequences
use mind_runtime.Base.{
  ℕ, Bool, true, false, Option, none, some, List, [], ◌∷◌, String, ◌<>◌, ◌==◌, string_eq,
  if◌then◌else◌, Result, ok, raise, value_error, raise_if, ◌>>=◌, ◌>>◌, Dict, lookup, insert, not,
}

-- `KillSwitchLevel`
pub data KillSwitchLevel : Type 0 where
  on off off_channel off_target : KillSwitchLevel

pub record KillSwitchRow : Type 0 where
  pub state : KillSwitchLevel
  pub channel_blocks : Dict String String
  pub target_blocks : Dict String String
  pub updated_at : ℕ

pub record KillSwitchDecision : Type 0 where
  pub allowed : Bool
  pub reason_code : String

-- The row that `_ensure_kill_switch_schema` inserts into an empty table.
abbrev pub initial_row : ℕ → KillSwitchRow
initial_row now = record { state = on; channel_blocks = []; target_blocks = []; updated_at = now }

abbrev pub block_level : Dict String String → Dict String String → KillSwitchLevel
block_level channel_blocks (_ ∷ _) = off_target
block_level (_ ∷ _) [] = off_channel
block_level [] [] = on

unfoldable pub compute_state :
    KillSwitchLevel → Dict String String → Dict String String → KillSwitchLevel
compute_state current channel_blocks target_blocks = elim current [
  | off ↦ off
  | _ ↦ block_level channel_blocks target_blocks
]

unfoldable pub set_global : Bool → ℕ → KillSwitchRow → KillSwitchRow
set_global turn_on updated_at row = record row {
  state = if turn_on then on else off;
  updated_at = updated_at;
}

-- `{k: v for k, v in blocks.items() if k != key}`
unfoldable pub without : String → Dict String String → Dict String String
without key [] = []
without key ((k, v) ∷ blocks) =
    let rest = without key blocks in if k == key then rest else (k, v) ∷ rest

-- `_set_block` and `_unset_block`, once the column's new map is known.
abbrev pub with_channel_blocks : Dict String String → ℕ → KillSwitchRow → KillSwitchRow
with_channel_blocks blocks updated_at row = record {
  state = compute_state row.state blocks row.target_blocks;
  channel_blocks = blocks;
  target_blocks = row.target_blocks;
  updated_at = updated_at;
}

abbrev pub with_target_blocks : Dict String String → ℕ → KillSwitchRow → KillSwitchRow
with_target_blocks blocks updated_at row = record {
  state = compute_state row.state row.channel_blocks blocks;
  channel_blocks = row.channel_blocks;
  target_blocks = blocks;
  updated_at = updated_at;
}

unfoldable pub block_channel : String → String → ℕ → KillSwitchRow → Result KillSwitchRow
block_channel channel reason updated_at row = do
  raise_if (channel == "") value_error
  raise_if (reason == "") value_error
  ok (with_channel_blocks (insert channel reason row.channel_blocks) updated_at row)

unfoldable pub unblock_channel : String → ℕ → KillSwitchRow → KillSwitchRow
unblock_channel channel updated_at row =
    with_channel_blocks (without channel row.channel_blocks) updated_at row

unfoldable pub block_target : String → String → ℕ → KillSwitchRow → Result KillSwitchRow
block_target target reason updated_at row = do
  raise_if (target == "") value_error
  raise_if (reason == "") value_error
  ok (with_target_blocks (insert target reason row.target_blocks) updated_at row)

unfoldable pub unblock_target : String → ℕ → KillSwitchRow → KillSwitchRow
unblock_target target updated_at row =
    with_target_blocks (without target row.target_blocks) updated_at row

abbrev pub is_off : KillSwitchLevel → Bool
is_off off = true
is_off _ = false

abbrev pub is_blocked : String → Dict String String → Bool
is_blocked key blocks = elim (lookup key blocks) [ none ↦ false | some _ ↦ true ]

abbrev pub verdict : String → String → KillSwitchRow → KillSwitchDecision
verdict channel target row =
    if is_off row.state
    then record { allowed = false; reason_code = "global_off" }
    else if is_blocked channel row.channel_blocks
    then record { allowed = false; reason_code = "channel_off:" <> channel }
    else if is_blocked target row.target_blocks
    then record { allowed = false; reason_code = "target_off:" <> target }
    else record { allowed = true; reason_code = "on" }

unfoldable pub decide : String → String → KillSwitchRow → Result KillSwitchDecision
decide channel target row = do
  raise_if (channel == "") value_error
  raise_if (target == "") value_error
  ok (verdict channel target row)
