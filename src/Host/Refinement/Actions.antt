-- ===== src/Host/Refinement/Actions.antt =====
-- The parts of the host's handlers, as histories of the room and of the renderers.
use beatblock_online.Base.{
  ℕ, ◌≡◌, refl, Bool, true, false, not, ◌&&◌, Bool-cases, inl, inr, Option, none, some, [], ◌∷◌,
  any, insert, contains, leb, length, arith, Text, text,
}
use beatblock_online.Float.{Float}
use beatblock_online.Model.{Participant, ChartLock}
use beatblock_online.Room.Commands.{Command, run}
use beatblock_online.Room.Race
use beatblock_online.Room.Score
use beatblock_online.Room.Verdict
use beatblock_online.Renderer.State.{Single}
use beatblock_online.Renderer.Calls
use beatblock_online.Renderer.Calls.{Call, after, after_all}
use beatblock_online.Renderer.Stop
use beatblock_online.Host.Message.{Envelope, Kind, kind_of}
use beatblock_online.Host.State.{Host, World, Answer, returned, bailed, in_room, render}
use beatblock_online.Host.Chart.{
  in_roster, transferable_chart_for_participant, require_admitted_peer,
}
use beatblock_online.Host.Publish
use beatblock_online.Host.Publish.{
  sync_room_state, broadcast_room, mark_room_dirty, refresh_broadcast_plan, without_participant,
  stop_participant_renderer, forget_commentator, flush_if, flush_room_updates,
}
use beatblock_online.Host.Telemetry
use beatblock_online.Host.Telemetry.{
  Relay, ingest_tap, ingest_anchor, ingest_keyframe, ingest_kind, ingest_render_event, relay_event,
  relay_sample,
}
use beatblock_online.Host.Runs
use beatblock_online.Host.Runs.{run_action, apply_run_to_room, sync_renderer_player}
use beatblock_online.Host.Control
use beatblock_online.Host.Control.{Package}
use beatblock_online.Host.Refines.{
  IsReached, IsReached-same, IsReached-then, Refines, Refines-pure, Refines-modify, Refines-in_room,
  Refines-on_room, Refines-then, refines_rules,
}

module _ {F : Type 0} ⦃fl : Float F⦄ ⦃sg : Single⦄ where
  pub sync-Refines : (w : World F) → Refines (sync_room_state w)
  unfolding sync_room_state
  sync-Refines w = search refines_rules depth 8

  pub broadcast-Refines : (w : World F) → Refines (broadcast_room w)
  unfolding broadcast_room
  broadcast-Refines w = search (refines_rules, sync-Refines) depth 6

  pub dirty-Refines : Refines {F = F} mark_room_dirty
  unfolding mark_room_dirty
  dirty-Refines = Refines-modify _ (λ h. refl) (λ h. refl) (λ h. refl)

  pub flush-Refines : (w : World F) → Refines (flush_room_updates w)
  unfolding flush_room_updates flush_if
  flush-Refines w = record { at = λ h. flushed h.room_dirty h }
    where
      unless_sent :
          (h : Host F) (r : Host F × Answer Unit)
          → IsReached h r.0
          → IsReached h (Publish.dirty_unless_sent r).0
      unless_sent h (k, returned u) v = v
      unless_sent h (k, bailed e) v = record {
        commands = v.commands;
        calls = v.calls;
        room = v.room;
        renderer = v.renderer;
        builds = v.builds;
      }

      flushed : (dirty : Bool) (h : Host F) → IsReached h (flush_if w dirty h).0
      flushed true h =
          let clean = record h { room_dirty = false } in
          unless_sent h (broadcast_room w clean) (
            IsReached-then h clean (broadcast_room w clean).0
              (IsReached-same h clean refl refl refl) ((broadcast-Refines w).at clean))
      flushed false h = IsReached-same h h refl refl refl

  pub plan-Refines : (w : World F) → Refines (refresh_broadcast_plan w)
  unfolding refresh_broadcast_plan
  plan-Refines w = Refines-modify _ (λ h. refl) (λ h. refl) (λ h. refl)

  pub forget-Refines : (id : Text) → Refines {F = F} (forget_commentator id)
  forget-Refines id = Refines-modify _ (λ h. refl) (λ h. refl) (λ h. refl)

  -- The renderers lose the participant, and then perhaps the automatic mix.
  pub left-Refines :
      (ring : Option Text) (id : Text) → Refines {F = F} (render (without_participant ring id))
  unfolding without_participant after_all run
  left-Refines ring id = record { at = left }
    where
      left : (h : Host F) → IsReached h (render (without_participant ring id) h).0
      left h =
          elim (Bool-cases (
            (Stop.stop_participant ring id h.renderer).autoplay.enabled
            && not (
                any Publish.is_playing_featured
                  (Stop.stop_participant ring id h.renderer).slots))) [
                    | inl gone ↦ record {
                      commands = [];
                      calls =
                          Calls.stop_participant ring id
                          ∷ Calls.stop_autoplay (some Publish.player_left)
                          ∷ [];
                      room = refl;
                      renderer = rw (without_participant, gone) refl;
                      builds = omega arith;
                    }
                    | inr kept ↦ record {
                      commands = [];
                      calls = Calls.stop_participant ring id ∷ [];
                      room = refl;
                      renderer = rw (without_participant, kept) refl;
                      builds = omega arith;
                    }
                  ]

  pub stop-Refines :
      (w : World F) (ring : Option Text) (id : Text) → Refines (stop_participant_renderer w ring id)
  unfolding stop_participant_renderer
  stop-Refines w ring id = Refines-then _ _ (left-Refines ring id) (plan-Refines w)

  pub chart-Refines :
      (id hash : Text) → Refines {F = F} (transferable_chart_for_participant id hash)
  unfolding transferable_chart_for_participant
  chart-Refines id hash = search refines_rules depth 20

  pub admitted-Refines : (id : Text) → Refines {F = F} (require_admitted_peer id)
  unfolding require_admitted_peer
  admitted-Refines id = search refines_rules depth 10

  pub sync_player-Refines : (w : World F) (id : Text) → Refines (sync_renderer_player w id)
  unfolding sync_renderer_player after_all run
  sync_player-Refines w id = record { at = pushed }
    where
      pushed_of :
          (h : Host F) (p : Option (Participant F))
          → IsReached h (record h { renderer = Runs.push_state_of w id h.room p h.renderer })
      pushed_of h none = IsReached-same h _ refl refl refl
      pushed_of h (some p) = record {
        commands = [];
        calls = Calls.push_player_state id (Runs.player_state w h.room p) ∷ [];
        room = refl;
        renderer = refl;
        builds = omega arith;
      }

      pushed : (h : Host F) → IsReached h (sync_renderer_player w id h).0
      pushed h = pushed_of h (in_roster id h.room)

  pub run_action-Refines :
      (w : World F) (id : Text) (e : Envelope F) (attempt : Option Text) (k : Kind)
      → Refines (run_action w id e attempt k)
  unfolding run_action
  run_action-Refines w id e attempt Kind.run_started = search (refines_rules, started) depth 10
    where
      started :
          (run_id : Text) (n : ℕ) → Refines {F = F} (in_room (Race.start_run w.now id run_id n))
      started run_id n = Refines-in_room w.now (Command.start_run id run_id n) _ (λ r. refl)
  run_action-Refines w id e attempt Kind.run_score_delta = search (refines_rules, scored) depth 10
    where
      scored :
          (run_id : Text)
          → Refines {F = F} (
              in_room (
                Score.ingest_score w.now id run_id
                  (Telemetry.unwrap_or (e.payload.nat_at (text "runSequence")) e.sequence)
                  e.payload.score))
      scored run_id =
          Refines-in_room w.now (Command.ingest_score id run_id _ e.payload.score) _ (λ r. refl)
  run_action-Refines w id e attempt Kind.score_mutation = search (refines_rules, scored) depth 10
    where
      scored :
          (run_id : Text)
          → Refines {F = F} (
              in_room (
                Score.ingest_score w.now id run_id
                  (Telemetry.unwrap_or (e.payload.nat_at (text "runSequence")) e.sequence)
                  e.payload.score))
      scored run_id =
          Refines-in_room w.now (Command.ingest_score id run_id _ e.payload.score) _ (λ r. refl)
  run_action-Refines w id e attempt Kind.run_invalid = search (refines_rules, invalidated) depth 12
    where
      invalidated :
          (run_id why : Text) (b : Bool)
          → Refines {F = F} (in_room (Verdict.invalidate w.now id run_id why b))
      invalidated run_id why b =
          Refines-in_room w.now (Command.invalidate id run_id why b) _ (λ r. refl)
  run_action-Refines w id e attempt Kind.run_finished = search (refines_rules, ended) depth 10
    where
      ended : (run_id : Text) → Refines {F = F} (in_room (Verdict.finish_run w.now id run_id))
      ended run_id = Refines-in_room w.now (Command.finish_run id run_id) _ (λ r. refl)
  run_action-Refines w id e attempt Kind.client_ready = Refines-pure tt
  run_action-Refines w id e attempt Kind.chart_status = Refines-pure tt
  run_action-Refines w id e attempt Kind.transfer_request = Refines-pure tt
  run_action-Refines w id e attempt Kind.transfer_decision = Refines-pure tt
  run_action-Refines w id e attempt Kind.subscribe = Refines-pure tt
  run_action-Refines w id e attempt Kind.mirror_status = Refines-pure tt
  run_action-Refines w id e attempt Kind.client_hello = Refines-pure tt
  run_action-Refines w id e attempt Kind.input_tap = Refines-pure tt
  run_action-Refines w id e attempt Kind.render_tap = Refines-pure tt
  run_action-Refines w id e attempt Kind.render_anchor = Refines-pure tt
  run_action-Refines w id e attempt Kind.render_keyframe = Refines-pure tt
  run_action-Refines w id e attempt Kind.unknown = Refines-pure tt

  pub apply_run-Refines :
      (w : World F) (id : Text) (e : Envelope F) → Refines (apply_run_to_room w id e)
  unfolding apply_run_to_room
  apply_run-Refines w id e = record {
    at = λ h. or_rejected-IsReached h _ ((run_action-Refines w id e _ (kind_of e.kind)).at h);
  }
    where
      or_rejected-IsReached :
          (h : Host F) (r : Host F × Answer Unit)
          → IsReached h r.0
          → IsReached h (Runs.or_rejected w id e.kind r).0
      or_rejected-IsReached h (k, returned u) v = v
      or_rejected-IsReached h (k, bailed error) v = IsReached-then h k _ v (
          (Refines-on_room w.now_rejected (Command.reject_run_event id e.kind (w.error_text error))
              _ (λ r. refl)).at
            k)

  queue-Refines :
      (id : Text) (chart : ChartLock) (path : Text)
      → Refines {F = F} (Control.queue_build id chart path)
  unfolding Control.queue_build run after_all insert
  queue-Refines id chart path = record {
    at = λ h.
        queued h (contains h.active_transfer_builds id) (leb 4 (length h.active_transfer_builds))
          refl refl;
  }
    where
      queued :
          (h : Host F) (known full : Bool)
          → contains h.active_transfer_builds id ≡ known
          → leb 4 (length h.active_transfer_builds) ≡ full
          → IsReached h (Control.queue_build id chart path h).0
      queued h true full k f = rw (Control.queue_build, k) (IsReached-same h h refl refl refl)
      queued h false true k f = rw (Control.queue_build, k, f) (IsReached-same h h refl refl refl)
      queued h false false k f =
          rw (Control.queue_build, k, f)
            (record {
              commands = [];
              calls = [];
              room = refl;
              renderer = refl;
              builds = ground (arith, k, f);
            })

  pub state-Refines :
      (w : World F) (id : Text) (e : Envelope F) (k : Kind)
      → Refines (Control.handle_state w id e k)
  unfolding Control.handle_state Control.handle_ready Control.handle_chart_status
      Control.handle_transfer_request Control.handle_transfer_decision Control.handle_subscribe
      Control.handle_mirror_status
  state-Refines w id e Kind.client_ready = search (refines_rules, readied) depth 10
    where
      readied : (b : Bool) → Refines {F = F} (in_room (Race.set_ready w.now id b))
      readied b = Refines-in_room w.now (Command.set_ready id b) _ (λ r. refl)
  state-Refines w id e Kind.chart_status = search (refines_rules, verified) depth 10
    where
      verified :
          (b : Bool) (why : Option Text)
          → Refines {F = F} (in_room (Race.set_verified w.now id b why))
      verified b why = Refines-in_room w.now (Command.set_verified id b why) _ (λ r. refl)
  state-Refines w id e Kind.transfer_request =
      search (refines_rules, chart-Refines, queue-Refines) depth 20
  state-Refines w id e Kind.transfer_decision = search refines_rules depth 20
  state-Refines w id e Kind.subscribe = search refines_rules depth 20
  state-Refines w id e Kind.mirror_status = search refines_rules depth 20
  state-Refines w id e Kind.run_started = Refines-pure false
  state-Refines w id e Kind.run_score_delta = Refines-pure false
  state-Refines w id e Kind.score_mutation = Refines-pure false
  state-Refines w id e Kind.run_invalid = Refines-pure false
  state-Refines w id e Kind.run_finished = Refines-pure false
  state-Refines w id e Kind.client_hello = Refines-pure false
  state-Refines w id e Kind.input_tap = Refines-pure false
  state-Refines w id e Kind.render_tap = Refines-pure false
  state-Refines w id e Kind.render_anchor = Refines-pure false
  state-Refines w id e Kind.render_keyframe = Refines-pure false
  state-Refines w id e Kind.unknown = Refines-pure false
