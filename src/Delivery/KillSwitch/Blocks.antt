-- ===== src/Delivery/KillSwitch/Blocks.antt =====
-- What a block of the kill switch does to its decisions, and what lifting it gives back.
use mind_runtime.Base.{
  ℕ, String, ◌≡◌, refl, inl, inr, true, false, none, [], ◌∷◌, arith, Bool-cases, ◌==◌, nat_eq,
  string_eq, option_eq, list_eq, beq_self, value_error, ok, raise_if, >>=-eq-ok, Dict, keys,
  contains, lookup, insert, lookup-insert_self,
}
use mind_runtime.Delivery.KillSwitch.{
  KillSwitchLevel, on, off, off_channel, off_target, KillSwitchRow, KillSwitchDecision,
  compute_state, block_level, without, block_channel, unblock_channel, decide, verdict, is_off,
  is_blocked, with_channel_blocks,
}

without-fresh :
    (key : String) (d : Dict String String) → contains key (keys d) ≡ false → without key d ≡ d
unfolding without
without-fresh key [] h = refl
without-fresh key ((k, v) ∷ d) h = ground (arith, without-fresh key d)

without-insert :
    (key reason : String) (d : Dict String String)
    → lookup key d ≡ none
    → without key (insert key reason d) ≡ d
unfolding without
without-insert key reason [] h = ground (arith, beq_self key)
without-insert key reason ((k, v) ∷ d) h = ground (arith, without-insert key reason d)

block_channel-eq :
    (channel reason : String) (at : ℕ) (row row_after : KillSwitchRow)
    → block_channel channel reason at row ≡ ok row_after
    → with_channel_blocks (insert channel reason row.channel_blocks) at row ≡ row_after
unfolding block_channel
block_channel-eq channel reason at row row_after h =
    let (u, e, k) = >>=-eq-ok (raise_if (channel == "") value_error) _ h in
    let (v, f, l) = >>=-eq-ok (raise_if (reason == "") value_error) _ k in cc (l)

is_off-block_level : (c t : Dict String String) → is_off (block_level c t) ≡ false
is_off-block_level [] [] = refl
is_off-block_level (x ∷ c) [] = refl
is_off-block_level [] (y ∷ t) = refl
is_off-block_level (x ∷ c) (y ∷ t) = refl

pub is_off-compute_state :
    (s : KillSwitchLevel) (c t : Dict String String) → is_off (compute_state s c t) ≡ is_off s
unfolding compute_state
is_off-compute_state off c t = refl
is_off-compute_state on c t = is_off-block_level c t
is_off-compute_state off_channel c t = is_off-block_level c t
is_off-compute_state off_target c t = is_off-block_level c t

verdict-blocked :
    (channel target : String) (row : KillSwitchRow)
    → is_blocked channel row.channel_blocks ≡ true
    → (verdict channel target row).allowed ≡ false
verdict-blocked channel target row h = elim (Bool-cases (is_off row.state)) [
  | inl e ↦ rw (e) refl
  | inr e ↦ rw (e, h) refl
]

pub ap-allowed :
    (d decision : KillSwitchDecision)
    → ok d ≡ ok decision
    → d.allowed ≡ false
    → decision.allowed ≡ false
ap-allowed d decision h k = cc

-- Once a channel is blocked, no delivery to any target is allowed on it, whatever the switch and
-- the other blocks are.
pub decide-block_channel :
    (channel target reason : String) (at : ℕ) (row row_after : KillSwitchRow)
    → block_channel channel reason at row ≡ ok row_after
    → (decision : KillSwitchDecision) → decide channel target row_after ≡ ok decision
    → decision.allowed ≡ false
unfolding decide
decide-block_channel channel target reason at row row_after h decision d =
    let (u, e, k) = >>=-eq-ok (raise_if (channel == "") value_error) _ d in
    let (v, f, l) = >>=-eq-ok (raise_if (target == "") value_error) _ k in
    let same = block_channel-eq channel reason at row row_after h in
    ap-allowed (verdict channel target row_after) decision l (
      verdict-blocked channel target row_after
        (rw (← same, lookup-insert_self channel reason row.channel_blocks, is_blocked) refl))

-- Lifting a block that was set on a channel without one gives every decision back: the switch
-- decides on each channel and target as it did before the block.
pub decide-unblock_channel :
    (blocked reason : String) (at later : ℕ) (row row_after : KillSwitchRow)
    → lookup blocked row.channel_blocks ≡ none
    → block_channel blocked reason at row ≡ ok row_after
    → (channel target : String)
    → decide channel target (unblock_channel blocked later row_after) ≡ decide channel target row
unfolding decide unblock_channel
decide-unblock_channel blocked reason at later row row_after fresh h channel target =
    rw
      (
        ← block_channel-eq blocked reason at row row_after h,
        without-insert blocked reason row.channel_blocks fresh,
        is_off-compute_state
            (compute_state row.state (insert blocked reason row.channel_blocks) row.target_blocks)
            row.channel_blocks row.target_blocks,
        is_off-compute_state row.state (insert blocked reason row.channel_blocks) row.target_blocks,
      )
      refl
