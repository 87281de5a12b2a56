-- ===== src/Delivery/KillSwitch/Sequences.antt =====
-- Sequences of changes of the kill switch's blocks.
use mind_runtime.Base.{
  ℕ, String, ◌≡◌, refl, ◌∙◌, true, false, List, [], ◌∷◌, ◌==◌, nat_eq, string_eq, option_eq,
  list_eq, value_error, Result, ok, raise_if, >>=-eq-ok, Ensures, Ensures-ok, Ensures-bind, ◌>>=◌,
}
use mind_runtime.Delivery.KillSwitch.{
  KillSwitchRow, KillSwitchDecision, block_channel, unblock_channel, block_target, unblock_target,
  decide, is_off, verdict,
}
use mind_runtime.Delivery.KillSwitch.Blocks.{is_off-compute_state, ap-allowed}

-- A call that sets or lifts a block, with its arguments.
pub data Change : Type 0 where
  set_channel set_target : String → String → ℕ → Change
  lift_channel lift_target : String → ℕ → Change

abbrev pub change : Change → KillSwitchRow → Result KillSwitchRow
change (set_channel channel reason at) row = block_channel channel reason at row
change (set_target target reason at) row = block_target target reason at row
change (lift_channel channel at) row = ok (unblock_channel channel at row)
change (lift_target target at) row = ok (unblock_target target at row)

unfoldable pub changes : List Change → KillSwitchRow → Result KillSwitchRow
changes [] row = ok row
changes (c ∷ cs) row = change c row >>= changes cs

change-Off :
    (c : Change) (row : KillSwitchRow)
    → is_off row.state ≡ true
    → Ensures (λ r. is_off r.state ≡ true) (change c row)
unfolding block_channel block_target unblock_channel unblock_target
change-Off (set_channel channel reason at) row h =
    Ensures-bind (raise_if (channel == "") value_error) _ (λ u e.
      Ensures-bind (raise_if (reason == "") value_error) _
        (λ v e'. Ensures-ok _ (is_off-compute_state row.state _ _ ∙ h)))
change-Off (set_target target reason at) row h =
    Ensures-bind (raise_if (target == "") value_error) _ (λ u e.
      Ensures-bind (raise_if (reason == "") value_error) _
        (λ v e'. Ensures-ok _ (is_off-compute_state row.state _ _ ∙ h)))
change-Off (lift_channel channel at) row h = Ensures-ok _ (is_off-compute_state row.state _ _ ∙ h)
change-Off (lift_target target at) row h = Ensures-ok _ (is_off-compute_state row.state _ _ ∙ h)

changes-Off :
    (cs : List Change) (row : KillSwitchRow)
    → is_off row.state ≡ true
    → Ensures (λ r. is_off r.state ≡ true) (changes cs row)
unfolding changes
changes-Off [] row h = Ensures-ok row h
changes-Off (c ∷ cs) row h =
    Ensures-bind (change c row) _ (λ r e. changes-Off cs r ((change-Off c row h).at r e))

-- While the switch is off, no sequence of setting and lifting blocks makes a delivery possible: every
-- decision after it refuses.
pub decide-changes :
    (cs : List Change) (row row_after : KillSwitchRow) (channel target : String)
    (decision : KillSwitchDecision)
    → is_off row.state ≡ true
    → changes cs row ≡ ok row_after
    → decide channel target row_after ≡ ok decision
    → decision.allowed ≡ false
unfolding decide
decide-changes cs row row_after channel target decision h e d =
    let gone = (changes-Off cs row h).at row_after e in
    let (u, f, k) = >>=-eq-ok (raise_if (channel == "") value_error) _ d in
    let (v, g, l) = >>=-eq-ok (raise_if (target == "") value_error) _ k in
    ap-allowed (verdict channel target row_after) decision l (rw (gone) refl)
