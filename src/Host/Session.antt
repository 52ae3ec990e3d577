-- ===== src/Host/Session.antt =====
-- companion/src/app_state.rs: how a runtime begins to host a room, and how it ends: host_room,
-- close_room, leave_room, and histories of rooms. Port mapping, exports and the state of a client are
-- left out.
use beatblock_online.Base.{
  ℕ, ◌*◌, ◌-◌, Bool, false, not, ◌&&◌, Option, none, some, List, [], ◌∷◌, ◌++◌, Text, if◌then◌else◌,
}
use beatblock_online.Float.{Float}
use beatblock_online.Room.Create.{offline}
use beatblock_online.Room.Presence
use beatblock_online.Renderer.State.{Single, new_manager}
use beatblock_online.Renderer.Stop
use beatblock_online.Storage.{Storage, prune_raw_events}
use beatblock_online.Broadcast.{empty_plan}
use beatblock_online.Host.State
use beatblock_online.Host.State.{
  Host, World, Double, Effect, Act, Answer, of_result, ◌>>=◌, ◌>>◌, or_bail, bail_if, modify, emit,
  render, on_room,
}
use beatblock_online.Host.Publish.{sync_room_state, broadcast_room}
use beatblock_online.Host.History.{HostEvent, after_events}
use beatblock_online.Host.Opening.{HostRoomOptions, validated_room_name, initial_host_room}

-- What the configuration, the network and the file system answer when a room is opened or left: the
-- profile's name, the fresh ids, whether the build of the game is known, whether the network starts,
-- whether the state is published, and what the reset of a frame ring returns.
pub record Setup : Type 0 where
  pub display_name : Text
  pub room_id : Text
  pub host_id : Text
  pub build_known : Bool
  pub started : Bool
  pub published : Bool
  pub ring : Option Text

abbrev pub first_failure : Answer Unit → Bool → Answer Unit
first_failure (State.bailed e) published = State.bailed e
first_failure (State.returned u) published =
    if published then State.returned tt else State.bailed State.not_published

module _ {F : Type 0} ⦃fl : Float F⦄ where
  -- `AppState::new`, with the storage that it opens
  unfoldable pub new_runtime : ℕ → Storage → Host F
  unfolding offline new_manager empty_plan prune_raw_events
  new_runtime now stored = record {
    room = offline now;
    renderer = new_manager;
    storage = prune_raw_events (now - 30 * 86400000) stored;
    broadcast_plan = empty_plan;
    broadcast_revision = 0;
    commentator_subscribers = [];
    commentator_statuses = [];
    pending_transfer_offers = [];
    active_transfer_builds = [];
    selected_chart_path = none;
    chart_paths = [];
    local_session_id = none;
    room_dirty = false;
    sent = [];
  }

  -- What close_room, leave_room and reset_offline_state forget.
  unfoldable pub forget_room : Option Text → Host F → Host F
  unfolding Stop.stop_all empty_plan
  forget_room ring h = record h {
    renderer = Stop.stop_all ring h.renderer;
    commentator_subscribers = [];
    commentator_statuses = [];
    broadcast_plan = empty_plan;
    pending_transfer_offers = [];
    active_transfer_builds = [];
    selected_chart_path = none;
    chart_paths = [];
    local_session_id = none;
  }

  -- `reset_offline_state`
  unfoldable pub reset_offline_state : ℕ → Option Text → Host F → Host F
  unfolding forget_room offline
  reset_offline_state now ring h = record (forget_room ring h) { room = offline now }

  -- The state offline again if there is an error.
  abbrev pub reset_unless_done :
      World F → Setup → List Effect → Host F × Answer Unit → Host F × Answer Unit
  reset_unless_done w s effects (h, State.returned u) = (h, State.returned u)
  reset_unless_done w s effects (h, State.bailed e) =
      (reset_offline_state w.now s.ring (record h { sent = effects ++ h.sent }), State.bailed e)

  abbrev pub or_reset : World F → Setup → List Effect → Act F Unit → Act F Unit
  or_reset w s effects m h = reset_unless_done w s effects (m h)

  -- `host_room`
  unfoldable pub host_room : World F → Setup → HostRoomOptions F → Act F Unit
  unfolding validated_room_name initial_host_room reset_offline_state sync_room_state
  host_room w s o = do
    name ← or_bail (validated_room_name o.room_name) State.bad_room_name
    (λ h. (h, of_result (initial_host_room w.now s.room_id s.host_id name s.display_name o).1))
    bail_if (o.require_same_game_build && not s.build_known) State.unknown_build
    or_reset w s [] (bail_if (not s.started) State.not_started)
    emit Effect.host_started
    modify (λ h. record h {
      room = (initial_host_room w.now s.room_id s.host_id name s.display_name o).0;
      local_session_id = some s.host_id;
    })
    or_reset w s (Effect.host_stopped ∷ []) (sync_room_state w)
    or_reset w s (Effect.host_stopped ∷ []) (bail_if (not s.published) State.not_published)

  abbrev pub closed : Setup → Host F × Answer Unit → Host F × Answer Unit
  closed s (h, answer) =
      ((emit Effect.host_stopped (forget_room s.ring h)).0, first_failure answer s.published)

  -- `close_room`
  unfoldable pub close_room : World F → Setup → Act F Unit
  unfolding Presence.close broadcast_room forget_room
  close_room w s h = closed s ((on_room (Presence.close w.now) >> broadcast_room w) h)

  -- `leave_room`, of a host
  unfoldable pub leave_room : World F → Setup → Act F Unit
  unfolding reset_offline_state sync_room_state
  leave_room w s = do
    emit Effect.host_stopped
    modify (reset_offline_state w.now s.ring)
    sync_room_state w
    bail_if (not s.published) State.not_published

-- A room from its opening to its end: what happens to it, and how it ends.
pub record HostedRoom (F : Type 0) : Type 0 where
  pub opening : World F
  pub setup : Setup
  pub options : HostRoomOptions F
  pub events : List (World F × HostEvent F)
  pub is_closed : Bool
  pub ending : World F
  pub final : Setup

module _ {F : Type 0} ⦃fl : Float F⦄ ⦃sg : Single⦄ ⦃db : Double F⦄ where
  unfoldable pub end_room : HostedRoom F → Host F → Host F
  unfolding close_room leave_room
  end_room s h =
      if s.is_closed then (close_room s.ending s.final h).0 else (leave_room s.ending s.final h).0

  -- A room that cannot be opened has no events and no end.
  abbrev pub after_opening : HostedRoom F → Host F × Answer Unit → Host F
  after_opening s (h, State.bailed e) = h
  after_opening s (h, State.returned u) = end_room s (after_events s.events h)

  unfoldable pub after_sessions : List (HostedRoom F) → Host F → Host F
  unfolding host_room end_room after_events
  after_sessions [] h = h
  after_sessions (s ∷ ss) h =
      after_sessions ss (after_opening s (host_room s.opening s.setup s.options h))
