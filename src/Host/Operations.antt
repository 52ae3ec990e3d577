-- ===== src/Host/Operations.antt =====
-- companion/src/app_state.rs: what the host changes in its room and its renderers, in a runtime that
-- hosts. The renderer processes that are started again for another chart are not modelled.
use beatblock_online.Base.{
  ℕ, Bool, false, not, ◌&&◌, Option, none, some, any, is_none, is_some, lookup, put,
  eq_ignore_ascii_case, Text, text, if◌then◌else◌,
}
use beatblock_online.Float.{Float}
use beatblock_online.Model.{ChartLock, RoomModifiers}
use beatblock_online.Room.Policy
use beatblock_online.Room.Race
use beatblock_online.Room.Roster
use beatblock_online.Room.Setlist
use beatblock_online.Renderer.State.{Manager, Table}
use beatblock_online.Renderer.Slots.{option_text_eq}
use beatblock_online.Renderer.Stop
use beatblock_online.Host.State
use beatblock_online.Host.State.{
  Host, World, Effect, Act, ◌>>=◌, ◌>>◌, gets, modify, when, bail_if, or_bail, pure, emit, render,
  in_room,
}
use beatblock_online.Host.Publish.{
  broadcast_room, stop_participant_renderer, refresh_broadcast_plan, is_playing_featured,
}

abbrev pub hash_of : Option ChartLock → Option Text
hash_of none = none
hash_of (some c) = some c.hash

-- `chart_paths.get(hash).cloned()`, of a chart if there is one
abbrev pub path_of : Option Text → Table Text → Option Text
path_of none paths = none
path_of (some hash) paths = lookup hash paths

-- `selected_chart_path.clone()`, as the path of the chart with the hash
abbrev pub with_path : Text → Option Text → Table Text → Table Text
with_path hash none paths = paths
with_path hash (some path) paths = put hash path paths

-- The message of `disable_autoplay_with_error` when the featured slot is stopped.
abbrev pub renderer_stopped : Text
renderer_stopped = text "Autoplay Mix was disabled because the featured renderer stopped"

module _ {F : Type 0} ⦃fl : Float F⦄ where
  -- `set_host_participating`
  unfoldable pub set_host_participating : World F → Option Text → Bool → Act F Unit
  unfolding Roster.set_host_participating stop_participant_renderer broadcast_room
  set_host_participating w ring participating = do
    room ← gets (λ h. h.room)
    in_room (Roster.set_host_participating w.now participating)
    when (not participating) (stop_participant_renderer w ring room.snapshot.host_session_id)
    broadcast_room w

  -- `set_validity_checks`
  unfoldable pub set_validity_checks : World F → Bool → Act F Unit
  unfolding Policy.set_validity_checks broadcast_room
  set_validity_checks w enabled = do
    in_room (Policy.set_validity_checks w.now enabled)
    broadcast_room w

  -- `set_same_game_build_required`
  unfoldable pub set_same_game_build_required : World F → Bool → Act F Unit
  unfolding Policy.set_same_game_build_required broadcast_room
  set_same_game_build_required w required = do
    bail_if required State.build_locked
    in_room (Policy.set_same_game_build_required w.now false)
    emit Effect.policy_relaxed
    broadcast_room w

  -- `set_room_modifiers`
  unfoldable pub set_room_modifiers : World F → RoomModifiers F → Act F Unit
  unfolding Policy.set_modifiers broadcast_room
  set_room_modifiers w modifiers = do
    in_room (Policy.set_modifiers w.now modifiers)
    broadcast_room w

  -- `set_auto_request_chart_transfers`
  unfoldable pub set_auto_request_chart_transfers : World F → Bool → Act F Unit
  unfolding Policy.set_auto_request_chart_transfers broadcast_room
  set_auto_request_chart_transfers w enabled = do
    in_room (Policy.set_auto_request_chart_transfers w.now enabled)
    broadcast_room w

  abbrev pub select_path : Act F Unit
  select_path =
      modify (λ h. record h { selected_chart_path = path_of (hash_of h.room.chart) h.chart_paths })

  -- `lock_chart`
  unfoldable pub lock_chart : World F → Text → ChartLock → Bool → Act F Unit
  unfolding Setlist.lock_chart broadcast_room
  lock_chart w entry_id chart append_to_setlist = do
    room ← gets (λ h. h.room)
    modify
        (λ h. record h { chart_paths = with_path chart.hash h.selected_chart_path h.chart_paths })
    in_room (Setlist.lock_chart w.now entry_id chart append_to_setlist)
    select_path
    active ← gets (λ h. hash_of h.room.chart)
    broadcast_room w
    when (not (option_text_eq active (hash_of room.chart))) (emit Effect.renderers_relaunched)

  -- `advance_setlist`
  unfoldable pub advance_setlist : World F → Act F Unit
  unfolding Setlist.advance_setlist broadcast_room
  advance_setlist w = do
    in_room (Setlist.advance_setlist w.now)
    active ← gets (λ h. hash_of h.room.chart)
    when (is_some active) select_path
    broadcast_room w
    emit Effect.renderers_relaunched

  -- `set_local_verified`
  unfoldable pub set_local_verified : World F → Bool → Option Text → Act F Unit
  unfolding Race.set_verified broadcast_room
  set_local_verified w verified reason = do
    local ← gets (λ h. h.local_session_id)
    session ← or_bail local State.no_session
    in_room (Race.set_verified w.now session verified reason)
    broadcast_room w

  -- `set_local_ready`
  unfoldable pub set_local_ready : World F → Bool → Act F Unit
  unfolding Race.set_ready broadcast_room
  set_local_ready w ready = do
    local ← gets (λ h. h.local_session_id)
    session ← or_bail local State.no_session
    in_room (Race.set_ready w.now session ready)
    broadcast_room w

  -- `remove_setlist`
  unfoldable pub remove_setlist : World F → Option Text → ℕ → Act F Unit
  unfolding Setlist.remove_setlist broadcast_room Stop.stop_all
  remove_setlist w ring index = do
    room ← gets (λ h. h.room)
    in_room (Setlist.remove_setlist w.now index)
    select_path
    active ← gets (λ h. hash_of h.room.chart)
    broadcast_room w
    when (not (option_text_eq active (hash_of room.chart)) && is_some active)
        (emit Effect.renderers_relaunched)
    when (not (option_text_eq active (hash_of room.chart)) && is_none active)
        (render (Stop.stop_all ring))

  -- `start_room`
  unfoldable pub start_room : World F → Bool → Act F ℕ
  unfolding Race.schedule_start Stop.begin_run broadcast_room
  start_room w force = do
    start ← in_room (Race.schedule_start w.now force 5000)
    render Stop.begin_run
    emit Effect.start_sent
    broadcast_room w
    pure start

  -- The renderers without what a slot shows, and without the automatic mix if its clock went with it.
  unfoldable pub without_slot : Option Text → Text → Manager F → Manager F
  unfolding Stop.stop_slot Stop.stop_autoplay
  without_slot ring id m =
      let m' = Stop.stop_slot ring id m in
      if m'.autoplay.enabled && not (any is_playing_featured m'.slots)
      then Stop.stop_autoplay (some renderer_stopped) m'
      else m'

  -- `stop_renderer_slot`
  unfoldable pub stop_renderer_slot : World F → Option Text → Text → Act F Unit
  unfolding without_slot refresh_broadcast_plan
  stop_renderer_slot w ring id = do
    slots ← gets (λ h. h.renderer.slots)
    bail_if (not (any (λ s. eq_ignore_ascii_case s.id id) slots)) State.unknown_slot
    render (without_slot ring id)
    refresh_broadcast_plan w

-- The operations above, and the choice of the path of a chart (companion/src/game_commands.rs).
pub data HostAction (F : Type 0) : Type 0 where
  participating_set : (ring : Option Text) → Bool → HostAction F
  checks_set build_required auto_request_set ready_set room_started : Bool → HostAction F
  modifiers_set : RoomModifiers F → HostAction F
  path_selected : Option Text → HostAction F
  chart_locked : (entry_id : Text) → ChartLock → (append_to_setlist : Bool) → HostAction F
  setlist_advanced : HostAction F
  setlist_removed : (ring : Option Text) → ℕ → HostAction F
  verified_set : Bool → (reason : Option Text) → HostAction F
  slot_stopped : (ring : Option Text) → Text → HostAction F

module _ {F : Type 0} ⦃fl : Float F⦄ where
  abbrev pub after_action : World F → HostAction F → Host F → Host F
  after_action w (participating_set ring b) h = (set_host_participating w ring b h).0
  after_action w (checks_set b) h = (set_validity_checks w b h).0
  after_action w (build_required b) h = (set_same_game_build_required w b h).0
  after_action w (auto_request_set b) h = (set_auto_request_chart_transfers w b h).0
  after_action w (ready_set b) h = (set_local_ready w b h).0
  after_action w (room_started force) h = (start_room w force h).0
  after_action w (modifiers_set modifiers) h = (set_room_modifiers w modifiers h).0
  after_action w (path_selected path) h = record h { selected_chart_path = path }
  after_action w (chart_locked entry_id chart append) h = (lock_chart w entry_id chart append h).0
  after_action w setlist_advanced h = (advance_setlist w h).0
  after_action w (setlist_removed ring index) h = (remove_setlist w ring index h).0
  after_action w (verified_set b reason) h = (set_local_verified w b reason h).0
  after_action w (slot_stopped ring id) h = (stop_renderer_slot w ring id h).0
