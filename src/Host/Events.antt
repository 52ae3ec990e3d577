-- ===== src/Host/Events.antt =====
-- companion/src/app_state.rs: `handle_network_event` in a runtime that hosts, the host's operations on
-- its participants, and histories of both. The host's own connection and the restart of parts after an
-- error are not modelled; `ring` is what the reset of a frame ring returns.
use beatblock_online.Base.{
  reverse, ℕ, ◌*◌, Bool, true, false, not, ◌&&◌, ◌||◌, Option, none, some, List, [], ◌∷◌, ◌++◌, map,
  is_empty, lookup, delete, Text, text_eq,
}
use beatblock_online.Float.{Float}
use beatblock_online.Model.{ParticipantRole, is_spectator}
use beatblock_online.Room.Presence
use beatblock_online.Room.Race
use beatblock_online.Room.Roster
use beatblock_online.Render.{RenderSample}
use beatblock_online.Renderer.State.{Single}
use beatblock_online.Renderer.Buffers
use beatblock_online.Storage.{queue_event}
use beatblock_online.Network.Transfer.{ChartTransferHeader}
use beatblock_online.Host.Message.{
  Envelope, Kind, kind_of, PeerMessageClass, run, state, telemetry, is_message,
  classify_peer_message,
}
use beatblock_online.Host.State
use beatblock_online.Host.State.{
  Host, World, Effect, Double, Act, Answer, ◌>>=◌, ◌>>◌, gets, modify, when, bail, bail_if, or_bail,
  pure, emit, render, in_room, on_room,
}
use beatblock_online.Host.Chart.{require_admitted_peer}
use beatblock_online.Host.Publish.{
  broadcast_room, mark_room_dirty, stop_participant_renderer, forget_commentator,
}
use beatblock_online.Host.Telemetry.{ingest_render_event, relay_sample}
use beatblock_online.Host.Runs.{apply_run_to_room, sync_renderer_player}
use beatblock_online.Host.Control.{handle_state}

-- `matches!(kind, "input.tap" | "render.anchor" | "render.keyframe")`
abbrev pub is_render_kind : Kind → Bool
is_render_kind Kind.input_tap = true
is_render_kind Kind.render_anchor = true
is_render_kind Kind.render_keyframe = true
is_render_kind _ = false

abbrev pub offered_file : Option (Text × ChartTransferHeader) → List Effect
offered_file none = []
offered_file (some (path, h)) = Effect.file_removed path ∷ []

module _ {F : Type 0} where
  -- `storage.queue_event(..)?`
  unfoldable pub queue_run_event : World F → Envelope F → Act F Unit
  unfolding queue_event
  queue_run_event w e = do
    queued ← gets (λ h.
        queue_event w.event_size w.now h.room.snapshot.id e.run_id e.sequence w.envelope_json
          h.storage.pending)
    modify (λ h. record h { storage = record h.storage { pending = queued.0 } })
    bail_if (not queued.1) State.backlog_full

  abbrev pub reject_peer : Text → Act F Unit
  reject_peer id = do emit (Effect.peer_disconnected id false); bail State.forbidden_message

module _ {F : Type 0} ⦃fl : Float F⦄ ⦃sg : Single⦄ ⦃db : Double F⦄ where
  unfoldable pub handle_class : World F → Text → Envelope F → PeerMessageClass → Act F Unit
  unfolding ingest_render_event queue_run_event apply_run_to_room sync_renderer_player
      mark_room_dirty handle_state broadcast_room kind_of
  handle_class w id e telemetry =
      when (is_render_kind (kind_of e.kind)) (ingest_render_event id e true)
  handle_class w id e run = do
    queue_run_event w e
    apply_run_to_room w id e
    sync_renderer_player w id
    emit (Effect.event_published e.kind)
    mark_room_dirty
  handle_class w id e state = do
    changed ← handle_state w id e (kind_of e.kind)
    emit (Effect.event_published e.kind)
    when changed (broadcast_room w)

  unfoldable pub handle_classified :
      World F → Text → Envelope F → Option PeerMessageClass → Act F Unit
  unfolding handle_class require_admitted_peer
  handle_classified w id e none = reject_peer id
  handle_classified w id e (some class) = do require_admitted_peer id; handle_class w id e class

  -- `NetworkEvent::Envelope`
  unfoldable pub handle_envelope : World F → Text → Envelope F → Act F Unit
  unfolding handle_classified is_message classify_peer_message
  handle_envelope w id e = do
    bail_if (not (is_message e)) State.bad_message
    handle_classified w id e (classify_peer_message e)

  -- `NetworkEvent::RenderSample`
  unfoldable pub handle_sample : World F → Text → RenderSample → Act F Unit
  unfolding require_admitted_peer Buffers.push_sample_at relay_sample
  handle_sample w id sample = do
    require_admitted_peer id
    render (Buffers.push_sample_at id sample (w.now * 1000))
    relay_sample id

module _ {F : Type 0} ⦃fl : Float F⦄ where
  abbrev pub reject_join : Text → Host F × Answer Text → Host F × Answer Unit
  reject_join id (h, State.returned name) = (h, State.returned tt)
  reject_join id (h, State.bailed e) =
      ((emit (Effect.peer_disconnected id false) h).0, State.bailed e)

  -- `NetworkEvent::Authenticated`
  unfoldable pub handle_authenticated : World F → Text → Text → ParticipantRole → Act F Unit
  unfolding Presence.request_join_with_id broadcast_room
  handle_authenticated w id name role = do
    (λ h. reject_join id (in_room (Presence.request_join_with_id w.now id name role) h))
    broadcast_room w

  -- `NetworkEvent::Disconnected`
  unfoldable pub handle_disconnected : World F → Option Text → Text → Act F Unit
  unfolding Presence.disconnect stop_participant_renderer broadcast_room
  handle_disconnected w ring id = do
    on_room (Presence.disconnect w.now id)
    stop_participant_renderer w ring id
    modify (λ h. record h {
      pending_transfer_offers = delete id h.pending_transfer_offers;
      sent = offered_file (lookup id h.pending_transfer_offers) ++ h.sent;
    })
    forget_commentator id
    broadcast_room w

  -- `kick`, and the rejection of a participant by `admit`
  unfoldable pub remove_participant : World F → Option Text → Text → Act F Unit
  unfolding Roster.kick stop_participant_renderer broadcast_room
  remove_participant w ring id = do
    emit (Effect.removal_sent id)
    in_room (Roster.kick w.now id)
    stop_participant_renderer w ring id
    forget_commentator id
    emit (Effect.peer_disconnected id false)
    broadcast_room w

  -- `admit` that accepts
  unfoldable pub admit_participant : World F → Option Text → Text → ParticipantRole → Act F Unit
  unfolding Roster.admit stop_participant_renderer broadcast_room
  admit_participant w ring id role = do
    in_room (Roster.admit w.now id true role)
    when (is_spectator role) (stop_participant_renderer w ring id)
    broadcast_room w

  -- `set_participant_role`
  unfoldable pub set_participant_role : World F → Option Text → Text → ParticipantRole → Act F Unit
  unfolding Roster.set_role stop_participant_renderer broadcast_room
  set_participant_role w ring id role = do
    room ← gets (λ h. h.room)
    bail_if (text_eq id room.snapshot.host_session_id) State.host_role
    in_room (Roster.set_role w.now id role)
    when (is_spectator role) (stop_participant_renderer w ring id)
    when (not (is_spectator role)) (do forget_commentator id; emit (Effect.revocation_sent id))
    broadcast_room w

  -- `set_commentator_access`, up to the publication to the process itself
  unfoldable pub set_commentator_access : World F → Text → Bool → Act F Unit
  unfolding Roster.set_commentator_access broadcast_room
  set_commentator_access w id enabled = do
    in_room (Roster.set_commentator_access w.now id enabled)
    when (not enabled) (do forget_commentator id; emit (Effect.revocation_sent id))
    broadcast_room w
    when enabled (emit (Effect.plan_sent id))
    bail_if (enabled && not w.delivered) State.not_delivered

  -- `expire_due_disconnects`
  unfoldable pub expire_due_disconnects : World F → ℕ → Act F Unit
  unfolding Presence.expire_due_disconnects Race.expire_due_unstarted_runs broadcast_room
  expire_due_disconnects w now_ms = do
    expired ← gets (λ h. (Presence.expire_due_disconnects w.now now_ms h.room).1)
    on_room (λ r. (Presence.expire_due_disconnects w.now now_ms r).0)
    unstarted ← gets (λ h. (Race.expire_due_unstarted_runs w.now now_ms h.room).1)
    on_room (λ r. (Race.expire_due_unstarted_runs w.now now_ms r).0)
    modify (λ h. record h {
      sent = map (λ id. Effect.peer_disconnected id false) (reverse expired) ++ h.sent;
    })
    when (not (is_empty expired) || unstarted) (broadcast_room w)
