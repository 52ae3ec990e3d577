-- ===== src/Room/Create.antt =====
-- companion/src/room.rs: `offline` and `host`, the rooms that the engine starts from. `room_id` and
-- `host_id` are the UUIDs that `host` draws, `now` is what `unix_ms()` returns.
use beatblock_online.Base.{ℕ, true, false, none, [], ◌∷◌, Text, text}
use beatblock_online.Float.{Float}
use beatblock_online.Model.{
  AdmissionMode, host_approval, host, forming, full, RoomModifiers, TapModifier, SideModifier,
  BarelyModifier, RestartModifier,
}
use beatblock_online.Room.State.{Room}
use beatblock_online.Room.Presence.{new_participant}

module _ {F : Type 0} ⦃fl : Float F⦄ where
  -- `RoomModifiers::default()`
  unfoldable pub default_modifiers : RoomModifiers F
  default_modifiers = record {
    rate = fl.of_u64 1;
    vfx = full;
    taps = TapModifier.default;
    sides = SideModifier.default;
    barelies = BarelyModifier.default;
    restart_on = RestartModifier.none;
  }

  unfoldable pub offline : ℕ → Room F
  unfolding default_modifiers
  offline now = record {
    snapshot = record {
      id = text "offline";
      name = text "Offline practice";
      host_session_id = text "local";
      lifecycle = forming;
      admission_mode = host_approval;
      allow_chart_transfers = true;
      auto_request_chart_transfers = false;
      validity_checks_enabled = true;
      require_same_game_build = true;
      modifiers = default_modifiers;
      participants = [];
      chart = none;
      setlist = [];
      current_setlist_index = none;
      scheduled_start_time_ms = none;
      force_start = false;
      created_at_ms = now;
      updated_at_ms = now;
    };
    finalized_runs = [];
    started_runs = [];
    active_run_ids = [];
    retired_run_ids = [];
    disconnect_deadlines = [];
  }

  -- `RoomEngine::host`
  unfoldable pub host_room : ℕ → Text → Text → Text → Text → AdmissionMode → Room F
  unfolding offline
  host_room now room_id host_id name host_name mode =
      let room = offline now in
      record room {
        snapshot = record room.snapshot {
          id = room_id;
          name = name;
          host_session_id = host_id;
          admission_mode = mode;
          participants = new_participant host_id host_name host true ∷ [];
        };
      }
