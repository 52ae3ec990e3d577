-- ===== src/Room/Policy.antt =====
-- companion/src/room.rs: the setters of the policy of the room, which close when a race begins.
use beatblock_online.Base.{ℕ, Bool, not, ◌&&◌}
use beatblock_online.Float.{Float}
use beatblock_online.Model.{RoomModifiers, before_race}
use beatblock_online.Room.State.{
  Exec, ◌>>=◌, ◌>>◌, bail_if, gets, modify, touch, validity_locked, build_locked, modifiers_locked,
  bad_rate, rate_step, auto_request_locked, transfers_disabled,
}

module _ {F : Type 0} where
  unfoldable pub set_validity_checks : ℕ → Bool → Exec F Unit
  set_validity_checks now enabled = do
    lifecycle ← gets (λ r. r.lifecycle)
    bail_if (not (before_race lifecycle)) validity_locked
    modify (λ r. record r { snapshot = record r.snapshot { validity_checks_enabled = enabled } })
    modify (touch now)

  unfoldable pub set_same_game_build_required : ℕ → Bool → Exec F Unit
  set_same_game_build_required now required = do
    lifecycle ← gets (λ r. r.lifecycle)
    bail_if (not (before_race lifecycle)) build_locked
    modify (λ r. record r { snapshot = record r.snapshot { require_same_game_build = required } })
    modify (touch now)

  unfoldable pub set_auto_request_chart_transfers : ℕ → Bool → Exec F Unit
  set_auto_request_chart_transfers now enabled = do
    lifecycle ← gets (λ r. r.lifecycle)
    bail_if (not (before_race lifecycle)) auto_request_locked
    allowed ← gets (λ r. r.allow_chart_transfers)
    bail_if (enabled && not allowed) transfers_disabled
    modify
        (λ r. record r { snapshot = record r.snapshot { auto_request_chart_transfers = enabled } })
    modify (touch now)

module _ {F : Type 0} ⦃fl : Float F⦄ where
  -- `RoomModifiers::validate`
  unfoldable pub validate_modifiers : RoomModifiers F → Exec F Unit
  validate_modifiers m = do
    bail_if (not (fl.rate_in_range m.rate)) bad_rate
    bail_if (fl.rate_off_step m.rate) rate_step

  unfoldable pub set_modifiers : ℕ → RoomModifiers F → Exec F Unit
  unfolding validate_modifiers
  set_modifiers now modifiers = do
    lifecycle ← gets (λ r. r.lifecycle)
    bail_if (not (before_race lifecycle)) modifiers_locked
    validate_modifiers modifiers
    modify (λ r. record r { snapshot = record r.snapshot { modifiers = modifiers } })
    modify (touch now)
