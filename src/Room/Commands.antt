-- ===== src/Room/Commands.antt =====
-- companion/src/room.rs: the public operations of `RoomEngine` as commands, and histories of them.
-- Each command carries the arguments of the call; `now` is what `unix_ms()` returns in it, and the
-- UUIDs that the call draws are arguments too.
use beatblock_online.Base.{ℕ, Bool, List, [], ◌∷◌, Text, Option}
use beatblock_online.Float.{Float}
use beatblock_online.Model.{ParticipantRole, ChartLock, RoomModifiers}
use beatblock_online.Room.State.{Room}
use beatblock_online.Room.Roster
use beatblock_online.Room.Policy
use beatblock_online.Room.Presence
use beatblock_online.Room.Setlist
use beatblock_online.Room.Race
use beatblock_online.Room.Score.{ScorePayload}
use beatblock_online.Room.Score
use beatblock_online.Room.Verdict

pub data Command (F : Type 0) : Type 0 where
  request_join : (session_id name : Text) → ParticipantRole → Command F
  admit : Text → Bool → ParticipantRole → Command F
  set_role : Text → ParticipantRole → Command F
  set_host_participating set_validity_checks set_same_game_build_required : Bool → Command F
  set_auto_request_chart_transfers : Bool → Command F
  set_modifiers : RoomModifiers F → Command F
  set_commentator_access : Text → Bool → Command F
  kick disconnect : Text → Command F
  remove_setlist : ℕ → Command F
  move_setlist : (from to : ℕ) → Command F
  advance_setlist : Command F
  expire_disconnect : Text → Command F
  expire_due_disconnects expire_due_unstarted_runs : (now_ms : ℕ) → Command F
  lock_chart : (entry_id : Text) → ChartLock → Bool → Command F
  set_verified : Text → Bool → Option Text → Command F
  set_ready : Text → Bool → Command F
  schedule_start : Bool → ℕ → Command F
  start_run : (session_id run_id : Text) → ℕ → Command F
  expire_unstarted_runs mark_playing close : Command F
  ingest_score : (session_id run_id : Text) → ℕ → ScorePayload F → Command F
  invalidate : (session_id run_id reason : Text) → Bool → Command F
  reject_run_event : (session_id kind reason : Text) → Command F
  finish_run : (session_id run_id : Text) → Command F

module _ {F : Type 0} ⦃fl : Float F⦄ where
  -- The room after a command, whatever it returns.
  abbrev pub step : ℕ → Command F → Room F → Room F
  step now (request_join id name role) r = (Presence.request_join_with_id now id name role r).0
  step now (admit id accept role) r = (Roster.admit now id accept role r).0
  step now (set_role id role) r = (Roster.set_role now id role r).0
  step now (set_host_participating b) r = (Roster.set_host_participating now b r).0
  step now (set_validity_checks b) r = (Policy.set_validity_checks now b r).0
  step now (set_same_game_build_required b) r = (Policy.set_same_game_build_required now b r).0
  step now (set_auto_request_chart_transfers b) r =
      (Policy.set_auto_request_chart_transfers now b r).0
  step now (set_modifiers m) r = (Policy.set_modifiers now m r).0
  step now (set_commentator_access id b) r = (Roster.set_commentator_access now id b r).0
  step now (kick id) r = (Roster.kick now id r).0
  step now (disconnect id) r = Presence.disconnect now id r
  step now (remove_setlist i) r = (Setlist.remove_setlist now i r).0
  step now (move_setlist i j) r = (Setlist.move_setlist now i j r).0
  step now advance_setlist r = (Setlist.advance_setlist now r).0
  step now (expire_disconnect id) r = (Presence.expire_disconnect now id r).0
  step now (expire_due_disconnects t) r = (Presence.expire_due_disconnects now t r).0
  step now (expire_due_unstarted_runs t) r = (Race.expire_due_unstarted_runs now t r).0
  step now (lock_chart id chart append) r = (Setlist.lock_chart now id chart append r).0
  step now (set_verified id b reason) r = (Race.set_verified now id b reason r).0
  step now (set_ready id b) r = (Race.set_ready now id b r).0
  step now (schedule_start force delay) r = (Race.schedule_start now force delay r).0
  step now (start_run id run hits) r = (Race.start_run now id run hits r).0
  step now expire_unstarted_runs r = (Race.expire_unstarted_runs now r).0
  step now mark_playing r = Race.mark_playing now r
  step now close r = Presence.close now r
  step now (ingest_score id run seq payload) r = (Score.ingest_score now id run seq payload r).0
  step now (invalidate id run reason is_dnf) r = (Verdict.invalidate now id run reason is_dnf r).0
  step now (reject_run_event id kind reason) r = (Verdict.reject_run_event now id kind reason r).0
  step now (finish_run id run) r = (Verdict.finish_run now id run r).0

  -- A history: each command with its time.
  unfoldable pub run : List (ℕ × Command F) → Room F → Room F
  run [] r = r
  run ((now, c) ∷ cs) r = run cs (step now c r)
