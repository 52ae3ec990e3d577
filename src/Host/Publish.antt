-- ===== src/Host/Publish.antt =====
-- companion/src/app_state.rs: the publication of the room and of the broadcast plan, and what goes when
-- a participant leaves the renderers. A save that times out counts as one that fails.
use beatblock_online.Base.{
  reverse, ◌+◌, ◌%◌, ◌^◌, Bool, true, false, not, ◌&&◌, Option, some, List, ◌∷◌, ◌++◌, map, retain,
  any, Text, text, delete, remove, if◌then◌else◌,
}
use beatblock_online.Float.{Float}
use beatblock_online.Model.{Participant, RoomSnapshot, RoomLifecycle, is_spectator}
use beatblock_online.Room.State.{Room}
use beatblock_online.Storage.{Match, save_room}
use beatblock_online.Broadcast.{RendererSlot, from_slots}
use beatblock_online.Renderer.State.{Manager}
use beatblock_online.Renderer.Stop
use beatblock_online.Host.State
use beatblock_online.Host.State.{
  Host, World, Effect, Act, ◌>>=◌, ◌>>◌, gets, modify, when, emit, bail_if, pure, render,
  storage_failed, room_published, room_sent, plan_sent, plan_published, event_published,
}

-- `format!("{:?}", lifecycle).to_lowercase()`
abbrev pub lifecycle_text : RoomLifecycle → Text
lifecycle_text RoomLifecycle.forming = text "forming"
lifecycle_text RoomLifecycle.chart_locked = text "chartlocked"
lifecycle_text RoomLifecycle.ready = text "ready"
lifecycle_text RoomLifecycle.countdown = text "countdown"
lifecycle_text RoomLifecycle.playing = text "playing"
lifecycle_text RoomLifecycle.results = text "results"
lifecycle_text RoomLifecycle.set_complete = text "setcomplete"
lifecycle_text RoomLifecycle.closed = text "closed"

-- The message of `disable_autoplay_with_error` when the featured player goes.
abbrev pub player_left : Text
player_left = text "Autoplay Mix was disabled because the featured player left the renderer plan"

module _ {F : Type 0} where
  abbrev pub match_of : (RoomSnapshot F → Text) → RoomSnapshot F → Match
  match_of json s = record {
    room_id = s.id;
    room_name = s.name;
    lifecycle = lifecycle_text s.lifecycle;
    snapshot_json = json s;
    updated_at_ms = s.updated_at_ms;
  }

  -- `sync_room_state`
  unfoldable pub sync_room_state : World F → Act F Unit
  unfolding save_room
  sync_room_state w = do
    modify (λ h. record h {
      storage = (save_room w.saved (match_of w.room_json h.room.snapshot) 120000 h.storage).0;
    })
    bail_if (not w.saved) storage_failed
    emit room_published

  -- `broadcast_room`
  unfoldable pub broadcast_room : World F → Act F Unit
  unfolding sync_room_state
  broadcast_room w = do sync_room_state w; emit room_sent

  -- `mark_room_dirty`
  unfoldable pub mark_room_dirty : Act F Unit
  mark_room_dirty = modify (λ h. record h { room_dirty = true })

  -- A failed publication leaves the room dirty.
  abbrev pub dirty_unless_sent : Host F × State.Answer Unit → Host F × State.Answer Bool
  dirty_unless_sent (h, State.returned u) = (h, State.returned true)
  dirty_unless_sent (h, State.bailed e) = (record h { room_dirty = true }, State.bailed e)

  unfoldable pub flush_if : World F → Bool → Act F Bool
  unfolding broadcast_room
  flush_if w true h = dirty_unless_sent (broadcast_room w (record h { room_dirty = false }))
  flush_if w false h = (h, State.returned false)

  -- `flush_room_updates`
  unfoldable pub flush_room_updates : World F → Act F Bool
  unfolding flush_if
  flush_room_updates w h = flush_if w h.room_dirty h

  abbrev pub is_commentator : Participant F → Bool
  is_commentator p = p.admitted && is_spectator p.role && p.commentator_access

  abbrev pub plan_recipients : Room F → List Text
  plan_recipients r =
      map (λ p. p.session_id) (retain (λ p. p.connected && is_commentator p) r.participants)

  abbrev pub is_playing_featured : RendererSlot F → Bool
  is_playing_featured s = s.active && s.featured

  -- `refresh_broadcast_plan`
  unfoldable pub refresh_broadcast_plan : World F → Act F Unit
  unfolding from_slots
  refresh_broadcast_plan w = do
    modify (λ h.
        let revision = (h.broadcast_revision + 1) % 2 ^ 64 in
        record h {
          broadcast_revision = revision;
          broadcast_plan =
              from_slots w.sha256 revision w.now_planned h.renderer.slots
                h.renderer.autoplay.enabled;
          sent = plan_published ∷ (map plan_sent (reverse (plan_recipients h.room)) ++ h.sent);
        })

module _ {F : Type 0} ⦃fl : Float F⦄ where
  -- The renderers without a participant, and without the automatic mix if its clock went with them.
  unfoldable pub without_participant : Option Text → Text → Manager F → Manager F
  unfolding Stop.stop_participant Stop.stop_autoplay
  without_participant ring id m =
      let m' = Stop.stop_participant ring id m in
      if m'.autoplay.enabled && not (any is_playing_featured m'.slots)
      then Stop.stop_autoplay (some player_left) m'
      else m'

  -- `stop_participant_renderer`
  unfoldable pub stop_participant_renderer : World F → Option Text → Text → Act F Unit
  unfolding without_participant refresh_broadcast_plan
  stop_participant_renderer w ring id = do
    render (without_participant ring id)
    refresh_broadcast_plan w

  abbrev pub forget_commentator : Text → Act F Unit
  forget_commentator id = modify (λ h. record h {
    commentator_subscribers = remove id h.commentator_subscribers;
    commentator_statuses = delete id h.commentator_statuses;
  })
