-- ===== src/Host/Opening.antt =====
-- companion/src/app_state.rs: `validated_room_name` and `initial_host_room`.
use beatblock_online.Base.{
  ℕ, Bool, false, not, ◌||◌, Option, none, some, is_empty, ltb, length, trim, Text, if◌then◌else◌,
}
use beatblock_online.Float.{Float}
use beatblock_online.Model.{AdmissionMode, RoomModifiers}
use beatblock_online.Room.State
use beatblock_online.Room.State.{Room, Exec, ◌>>◌, branch, pure}
use beatblock_online.Room.Create.{host_room}
use beatblock_online.Room.Policy
use beatblock_online.Room.Roster

-- What the room takes of it; the password and the port are for the network.
pub record HostRoomOptions (F : Type 0) : Type 0 where
  pub room_name : Text
  pub admission_mode : AdmissionMode
  pub host_participating : Bool
  pub validity_checks_enabled : Bool
  pub require_same_game_build : Bool
  pub modifiers : RoomModifiers F

-- `validated_room_name`
unfoldable pub validated_room_name : Text → Option Text
unfolding trim
validated_room_name name =
    if is_empty (trim name) || ltb 80 (length (trim name)) then none else some (trim name)

module _ {F : Type 0} ⦃fl : Float F⦄ where
  unfoldable pub initial_policies : ℕ → HostRoomOptions F → Exec F Unit
  unfolding Roster.set_host_participating Policy.set_validity_checks
      Policy.set_same_game_build_required Policy.set_modifiers
  initial_policies now o = do
    branch (not o.host_participating) (Roster.set_host_participating now false) (pure tt)
    Policy.set_validity_checks now o.validity_checks_enabled
    Policy.set_same_game_build_required now o.require_same_game_build
    Policy.set_modifiers now o.modifiers

  -- `initial_host_room`, with the ids that `RoomEngine::host` draws
  unfoldable pub initial_host_room :
      ℕ → (room_id host_id name host_name : Text) → HostRoomOptions F → Room F × State.Result Unit
  unfolding host_room initial_policies
  initial_host_room now room_id host_id name host_name o =
      initial_policies now o (host_room now room_id host_id name host_name o.admission_mode)
