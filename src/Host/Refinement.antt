-- ===== src/Host/Refinement.antt =====
-- Every event of a hosting runtime is a history of the room and of the renderers.
pub mod Actions
pub mod Operations
use beatblock_online.Base.{
  ℕ, refl, Bool, true, Option, none, some, List, [], ◌∷◌, any, remove, arith, length, ◌≤◌, Text,
}
use beatblock_online.Float.{Float}
use beatblock_online.Model.{ParticipantRole, ChartLock}
use beatblock_online.Room.Commands.{Command}
use beatblock_online.Room.Presence
use beatblock_online.Room.Race
use beatblock_online.Room.Roster
use beatblock_online.Render.{RenderSample}
use beatblock_online.Renderer.State.{Single, RenderTap, RenderScoreState}
use beatblock_online.Renderer.Calls
use beatblock_online.Renderer.Calls.{after}
use beatblock_online.Renderer.Buffers
use beatblock_online.Host.Message.{Envelope, Kind, PeerMessageClass}
use beatblock_online.Host.Message
use beatblock_online.Host.State
use beatblock_online.Host.State.{
  Host, World, Double, Answer, returned, bailed, in_room, on_room, render,
}
use beatblock_online.Host.Telemetry.{
  Relay, ingest_tap, ingest_anchor, ingest_keyframe, ingest_kind, ingest_render_event, relay_event,
  relay_sample,
}
use beatblock_online.Host.Control
use beatblock_online.Host.Control.{Package}
use beatblock_online.Host.Events
use beatblock_online.Host.History.{HostEvent, after_event, after_events}
use beatblock_online.Host.Refines.{
  IsReached, IsReached-same, IsReached-then, Refines, Refines-pure, Refines-bail, Refines-modify,
  Refines-in_room, Refines-on_room, Refines-render, Refines-then, refines_rules,
}
use beatblock_online.Host.Refinement.Actions.{
  broadcast-Refines, dirty-Refines, flush-Refines, forget-Refines, stop-Refines, chart-Refines,
  admitted-Refines, sync_player-Refines, apply_run-Refines, state-Refines,
}
use beatblock_online.Host.Refinement.Operations.{action-IsReached}

length-remove : (k : Text) (s : List Text) → length (remove k s) ≤ length s
unfolding remove
length-remove k [] = omega arith
length-remove k (j ∷ s) = ground (arith, length-remove k s)

module _ {F : Type 0} ⦃fl : Float F⦄ ⦃sg : Single⦄ ⦃db : Double F⦄ where
  pushed_tap : (id : Text) (t : RenderTap) → Refines {F = F} (render (Buffers.push_tap id t))
  pushed_tap id t = Refines-render (Calls.push_tap id t) _ (λ m. refl)

  pushed_anchor :
      (id : Text) (beat offset : ℕ)
      → Refines {F = F} (render (Buffers.push_render_anchor id beat offset))
  pushed_anchor id beat offset =
      Refines-render (Calls.push_render_anchor id beat offset) _ (λ m. refl)

  pushed_score :
      (id : Text) (s : RenderScoreState) → Refines {F = F} (render (Buffers.push_score_state id s))
  pushed_score id s = Refines-render (Calls.push_score_state id s) _ (λ m. refl)

  tap-Refines : (id : Text) (e : Envelope F) → Refines (ingest_tap id e)
  unfolding ingest_tap
  tap-Refines id e = search (refines_rules, pushed_tap) depth 10

  anchor-Refines : (id : Text) (e : Envelope F) → Refines (ingest_anchor id e)
  unfolding ingest_anchor
  anchor-Refines id e = search (refines_rules, pushed_anchor) depth 10

  keyframe-Refines : (id : Text) (e : Envelope F) → Refines (ingest_keyframe id e)
  unfolding ingest_keyframe
  keyframe-Refines id e = search (refines_rules, pushed_score) depth 14

  kind-Refines : (id : Text) (e : Envelope F) (k : Kind) → Refines (ingest_kind id e k)
  unfolding ingest_kind
  kind-Refines id e Kind.input_tap = tap-Refines id e
  kind-Refines id e Kind.render_tap = tap-Refines id e
  kind-Refines id e Kind.render_anchor = anchor-Refines id e
  kind-Refines id e Kind.render_keyframe = keyframe-Refines id e
  kind-Refines id e Kind.run_started = Refines-pure none
  kind-Refines id e Kind.run_score_delta = Refines-pure none
  kind-Refines id e Kind.score_mutation = Refines-pure none
  kind-Refines id e Kind.run_invalid = Refines-pure none
  kind-Refines id e Kind.run_finished = Refines-pure none
  kind-Refines id e Kind.client_ready = Refines-pure none
  kind-Refines id e Kind.chart_status = Refines-pure none
  kind-Refines id e Kind.transfer_request = Refines-pure none
  kind-Refines id e Kind.transfer_decision = Refines-pure none
  kind-Refines id e Kind.subscribe = Refines-pure none
  kind-Refines id e Kind.mirror_status = Refines-pure none
  kind-Refines id e Kind.client_hello = Refines-pure none
  kind-Refines id e Kind.unknown = Refines-pure none

  relay-Refines : (id : Text) (r : Option Relay) → Refines {F = F} (relay_event id r)
  unfolding relay_event
  relay-Refines id none = Refines-pure tt
  relay-Refines id (some r) =
      Refines-modify _ (λ h. ground arith) (λ h. ground arith) (λ h. ground arith)

  ingest-Refines : (id : Text) (e : Envelope F) (b : Bool) → Refines (ingest_render_event id e b)
  unfolding ingest_render_event
  ingest-Refines id e b = search (refines_rules, kind-Refines, relay-Refines) depth 8

  queue-Refines : (w : World F) (e : Envelope F) → Refines (Events.queue_run_event w e)
  unfolding Events.queue_run_event
  queue-Refines w e = search refines_rules depth 10

  class-Refines :
      (w : World F) (id : Text) (e : Envelope F) (c : PeerMessageClass)
      → Refines (Events.handle_class w id e c)
  unfolding Events.handle_class
  class-Refines w id e Message.telemetry = search (refines_rules, ingest-Refines) depth 6
  class-Refines w id e Message.run =
      search (refines_rules, queue-Refines, apply_run-Refines, sync_player-Refines, dirty-Refines)
        depth 14
  class-Refines w id e Message.state =
      search (refines_rules, state-Refines, broadcast-Refines) depth 10

  classified-Refines :
      (w : World F) (id : Text) (e : Envelope F) (c : Option PeerMessageClass)
      → Refines (Events.handle_classified w id e c)
  unfolding Events.handle_classified
  classified-Refines w id e none = search refines_rules depth 6
  classified-Refines w id e (some c) =
      search (refines_rules, admitted-Refines, class-Refines) depth 6

  envelope-Refines :
      (w : World F) (id : Text) (e : Envelope F) → Refines (Events.handle_envelope w id e)
  unfolding Events.handle_envelope
  envelope-Refines w id e = search (refines_rules, classified-Refines) depth 6

  pushed_sample :
      (id : Text) (s : RenderSample) (t : ℕ)
      → Refines {F = F} (render (Buffers.push_sample_at id s t))
  pushed_sample id s t = Refines-render (Calls.push_sample id s t) _ (λ m. refl)

  relay_sample-Refines : (id : Text) → Refines {F = F} (relay_sample id)
  unfolding relay_sample
  relay_sample-Refines id =
      Refines-modify _ (λ h. ground arith) (λ h. ground arith) (λ h. ground arith)

  sample-Refines :
      (w : World F) (id : Text) (s : RenderSample) → Refines (Events.handle_sample w id s)
  unfolding Events.handle_sample
  sample-Refines w id s =
      search (refines_rules, admitted-Refines, pushed_sample, relay_sample-Refines) depth 8

  left_room : (now : ℕ) (id : Text) → Refines {F = F} (on_room (Presence.disconnect now id))
  left_room now id = Refines-on_room now (Command.disconnect id) _ (λ r. refl)

  kicked : (now : ℕ) (id : Text) → Refines {F = F} (in_room (Roster.kick now id))
  kicked now id = Refines-in_room now (Command.kick id) _ (λ r. refl)

  accepted :
      (now : ℕ) (id : Text) (role : ParticipantRole)
      → Refines {F = F} (in_room (Roster.admit now id true role))
  accepted now id role = Refines-in_room now (Command.admit id true role) _ (λ r. refl)

  role_given :
      (now : ℕ) (id : Text) (role : ParticipantRole)
      → Refines {F = F} (in_room (Roster.set_role now id role))
  role_given now id role = Refines-in_room now (Command.set_role id role) _ (λ r. refl)

  granted :
      (now : ℕ) (id : Text) (b : Bool)
      → Refines {F = F} (in_room (Roster.set_commentator_access now id b))
  granted now id b = Refines-in_room now (Command.set_commentator_access id b) _ (λ r. refl)

  participants_expired :
      (now now_ms : ℕ)
      → Refines {F = F} (on_room (λ r. (Presence.expire_due_disconnects now now_ms r).0))
  participants_expired now now_ms =
      Refines-on_room now (Command.expire_due_disconnects now_ms) _ (λ r. refl)

  attempts_expired :
      (now now_ms : ℕ)
      → Refines {F = F} (on_room (λ r. (Race.expire_due_unstarted_runs now now_ms r).0))
  attempts_expired now now_ms =
      Refines-on_room now (Command.expire_due_unstarted_runs now_ms) _ (λ r. refl)

  joined-Refines :
      (w : World F) (id name : Text) (role : ParticipantRole)
      → Refines {F = F} (λ h.
        Events.reject_join id (in_room (Presence.request_join_with_id w.now id name role) h))
  joined-Refines w id name role = record {
    at = λ h. rejected h _ (
        (Refines-in_room w.now (Command.request_join id name role)
            (Presence.request_join_with_id w.now id name role) (λ r. refl)).at
          h);
  }
    where
      rejected :
          (h : Host F) (r : Host F × Answer Text)
          → IsReached h r.0
          → IsReached h (Events.reject_join id r).0
      rejected h (k, returned n) v = v
      rejected h (k, bailed e) v = record {
        commands = v.commands;
        calls = v.calls;
        room = v.room;
        renderer = v.renderer;
        builds = v.builds;
      }

  authenticated-Refines :
      (w : World F) (id name : Text) (role : ParticipantRole)
      → Refines (Events.handle_authenticated w id name role)
  unfolding Events.handle_authenticated
  authenticated-Refines w id name role =
      Refines-then _ _ (joined-Refines w id name role) (broadcast-Refines w)

  disconnected-Refines :
      (w : World F) (ring : Option Text) (id : Text)
      → Refines (Events.handle_disconnected w ring id)
  unfolding Events.handle_disconnected
  disconnected-Refines w ring id =
      search (refines_rules, left_room, stop-Refines, forget-Refines, broadcast-Refines) depth 12

  removed-Refines :
      (w : World F) (ring : Option Text) (id : Text) → Refines (Events.remove_participant w ring id)
  unfolding Events.remove_participant
  removed-Refines w ring id =
      search (refines_rules, kicked, stop-Refines, forget-Refines, broadcast-Refines) depth 14

  admitted_as-Refines :
      (w : World F) (ring : Option Text) (id : Text) (role : ParticipantRole)
      → Refines (Events.admit_participant w ring id role)
  unfolding Events.admit_participant
  admitted_as-Refines w ring id role =
      search (refines_rules, accepted, stop-Refines, broadcast-Refines) depth 10

  role-Refines :
      (w : World F) (ring : Option Text) (id : Text) (role : ParticipantRole)
      → Refines (Events.set_participant_role w ring id role)
  unfolding Events.set_participant_role
  role-Refines w ring id role =
      search (refines_rules, role_given, stop-Refines, forget-Refines, broadcast-Refines) depth 14

  access-Refines :
      (w : World F) (id : Text) (enabled : Bool)
      → Refines (Events.set_commentator_access w id enabled)
  unfolding Events.set_commentator_access
  access-Refines w id enabled =
      search (refines_rules, granted, forget-Refines, broadcast-Refines) depth 14

  expired-Refines : (w : World F) (now_ms : ℕ) → Refines (Events.expire_due_disconnects w now_ms)
  unfolding Events.expire_due_disconnects
  expired-Refines w now_ms =
      search (refines_rules, participants_expired, attempts_expired, broadcast-Refines) depth 14

  bail_with-Refines : (o : Option State.HostError) → Refines {F = F} (Control.bail_with o)
  bail_with-Refines none = Refines-pure tt
  bail_with-Refines (some e) = Refines-bail e

  offer-Refines :
      (w : World F) (id : Text) (chart : ChartLock) (packed : Option Package)
      → Refines (Control.offer_package w id chart packed)
  unfolding Control.offer_package
  offer-Refines w id chart packed =
      search (refines_rules, chart-Refines, bail_with-Refines) depth 16

  built-Refines :
      (w : World F) (id : Text) (chart : ChartLock) (packed : Option Package)
      → Refines (Control.finish_build w id chart packed)
  unfolding Control.finish_build
  built-Refines w id chart packed = record {
    at = λ h.
        let v = (offer-Refines w id chart packed).at h in
        record {
          commands = v.commands;
          calls = v.calls;
          room = v.room;
          renderer = v.renderer;
          builds = omega (
            arith,
            v.builds,
            length-remove id (Control.offer_package w id chart packed h).0.active_transfer_builds,
          );
        };
  }

  event-IsReached : (w : World F) (e : HostEvent F) (h : Host F) → IsReached h (after_event w e h)
  event-IsReached w (HostEvent.envelope id e) h = (envelope-Refines w id e).at h
  event-IsReached w (HostEvent.render_sample id s) h = (sample-Refines w id s).at h
  event-IsReached w (HostEvent.authenticated id name role) h =
      (authenticated-Refines w id name role).at h
  event-IsReached w (HostEvent.disconnected ring id) h = (disconnected-Refines w ring id).at h
  event-IsReached w (HostEvent.removed ring id) h = (removed-Refines w ring id).at h
  event-IsReached w (HostEvent.admitted ring id role) h = (admitted_as-Refines w ring id role).at h
  event-IsReached w (HostEvent.role_set ring id role) h = (role-Refines w ring id role).at h
  event-IsReached w (HostEvent.access_set id enabled) h = (access-Refines w id enabled).at h
  event-IsReached w (HostEvent.build_finished id chart packed) h =
      (built-Refines w id chart packed).at h
  event-IsReached w (HostEvent.due_expired now_ms) h = (expired-Refines w now_ms).at h
  event-IsReached w HostEvent.flushed h = (flush-Refines w).at h
  event-IsReached w (HostEvent.acted a) h = action-IsReached w a h

  -- Whatever peers send and the host does, the room is what a history of the operations of `RoomEngine`
  -- makes of the room before, and the renderers are what a history of the public methods of
  -- `RendererManager` makes of the renderers before; and no more archives are being built than before, or
  -- at most four. So what holds after any such history of the room or the renderers holds here.
  pub after_events-IsReached :
      (es : List (World F × HostEvent F)) (h : Host F) → IsReached h (after_events es h)
  unfolding after_events
  after_events-IsReached [] h = IsReached-same h h refl refl refl
  after_events-IsReached ((w, e) ∷ es) h =
      IsReached-then h (after_event w e h) (after_events es (after_event w e h))
        (event-IsReached w e h) (after_events-IsReached es (after_event w e h))
