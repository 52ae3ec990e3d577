-- ===== src/Host/Runs.antt =====
-- companion/src/app_state.rs: `apply_run_to_room` and `sync_renderer_player`.
use beatblock_online.Base.{Option, none, some, Text, text}
use beatblock_online.Float.{Float}
use beatblock_online.Model.{Participant, ChartLock}
use beatblock_online.Room.State.{Room}
use beatblock_online.Room.Race
use beatblock_online.Room.Score
use beatblock_online.Room.Verdict
use beatblock_online.Renderer.State.{GameplayState, Manager}
use beatblock_online.Renderer.Buffers
use beatblock_online.Host.Message.{Envelope, Kind, kind_of}
use beatblock_online.Host.Chart.{in_roster}
use beatblock_online.Host.Publish.{lifecycle_text}
use beatblock_online.Host.Telemetry.{unwrap_or}
use beatblock_online.Host.State.{
  Host, World, Act, Answer, returned, bailed, ◌>>=◌, gets, or_bail, pure, render, in_room, on_room,
  missing_field,
}

abbrev pub song_of : Option ChartLock → Text
song_of none = text "No chart"
song_of (some c) = c.song_name

-- `a.or_else(|| b)`
abbrev pub or_else : {A : Type 0} → Option A → Option A → Option A
or_else none b = b
or_else (some a) b = some a

module _ {F : Type 0} ⦃fl : Float F⦄ where
  unfoldable pub run_action : World F → Text → Envelope F → Option Text → Kind → Act F Unit
  unfolding Race.start_run Score.ingest_score Verdict.invalidate Verdict.finish_run
  run_action w id e run Kind.run_started = do
    run_id ← or_bail run missing_field
    max_hits ← or_bail (e.payload.nat_at (text "maxHits")) missing_field
    in_room (Race.start_run w.now id run_id max_hits)
  run_action w id e run Kind.run_score_delta = do
    run_id ← or_bail run missing_field
    in_room (
        Score.ingest_score w.now id run_id
          (unwrap_or (e.payload.nat_at (text "runSequence")) e.sequence) e.payload.score)
  run_action w id e run Kind.score_mutation = do
    run_id ← or_bail run missing_field
    in_room (
        Score.ingest_score w.now id run_id
          (unwrap_or (e.payload.nat_at (text "runSequence")) e.sequence) e.payload.score)
  run_action w id e run Kind.run_invalid = do
    run_id ← or_bail run missing_field
    reason ← or_bail (e.payload.text_at (text "reason")) missing_field
    is_dnf ← or_bail (e.payload.bool_at (text "dnf")) missing_field
    in_room (Verdict.invalidate w.now id run_id reason is_dnf)
  run_action w id e run Kind.run_finished = do
    run_id ← or_bail run missing_field
    in_room (Verdict.finish_run w.now id run_id)
  run_action w id e run _ = pure tt

  -- A run event that fails is recorded in the room, and is no error.
  abbrev pub or_rejected : World F → Text → Text → Host F × Answer Unit → Host F × Answer Unit
  or_rejected w id kind (h, returned u) = (h, returned u)
  or_rejected w id kind (h, bailed e) =
      on_room (λ r. (Verdict.reject_run_event w.now_rejected id kind (w.error_text e) r).0) h

  -- `apply_run_to_room`
  unfoldable pub apply_run_to_room : World F → Text → Envelope F → Act F Unit
  unfolding run_action kind_of Verdict.reject_run_event
  apply_run_to_room w id e h =
      or_rejected w id e.kind
        (run_action w id e (or_else e.run_id (e.payload.text_at (text "runId"))) (kind_of e.kind) h)

  abbrev pub player_state : World F → Room F → Participant F → GameplayState F
  player_state w r p = record {
    state = lifecycle_text r.lifecycle;
    player_name = p.display_name;
    song_name = song_of r.chart;
    lobby_name = r.name;
    accuracy = p.accuracy;
    combo = p.totals.combo;
    misses = p.totals.misses;
    rank = unwrap_or p.rank 0;
    progress = p.progress;
    connected = p.connected;
    updated_at_ms = w.now_synced;
    beat = fl.of_u64 0;
    paddle_angle = fl.of_u64 0;
    tap_mask = 0;
    health = fl.fsub (fl.of_u64 0) (fl.of_u64 1);
  }

  abbrev pub push_state_of :
      World F → Text → Room F → Option (Participant F) → Manager F → Manager F
  push_state_of w id r none m = m
  push_state_of w id r (some p) m = Buffers.push_player_state id (player_state w r p) m

  -- `sync_renderer_player`
  unfoldable pub sync_renderer_player : World F → Text → Act F Unit
  unfolding Buffers.push_player_state
  sync_renderer_player w id = do
    room ← gets (λ h. h.room)
    render (push_state_of w id room (in_roster id room))
