-- ===== src/Room/Membership/Invariant.antt =====
-- Every operation keeps the roster valid, so every history of a hosted room does.
use beatblock_online.Base.{ℕ, List, [], ◌∷◌, refl, Text, arith}
use beatblock_online.Float.{Float}
use beatblock_online.Model.{AdmissionMode}
use beatblock_online.Room.State.{Room}
use beatblock_online.Room.Presence
use beatblock_online.Room.Create.{host_room}
use beatblock_online.Room.Commands.{Command, step, run}
use beatblock_online.Room.Seats.{seats, IsRoster}
use beatblock_online.Room.Membership.Frame
use beatblock_online.Room.Membership.Changes
use beatblock_online.Room.Membership.Changes.{IsRoster-of_seats}
use beatblock_online.Room.Membership.Joining

module _ {F : Type 0} ⦃fl : Float F⦄ where
  -- Every operation, whether it succeeds or fails, keeps the session ids distinct, the names distinct
  -- up to ASCII case, and at most 16 admitted racers and 32 admitted spectators.
  pub step-IsRoster :
      (now : ℕ) (c : Command F) (r : Room F) → IsRoster (seats r) → IsRoster (seats (step now c r))
  unfolding Presence.close
  step-IsRoster now (Command.request_join id name role) r v =
      Joining.request_join-IsRoster now id name role r v
  step-IsRoster now (Command.admit id b role) r v = Changes.admit-IsRoster now id b role r v
  step-IsRoster now (Command.set_role id role) r v = Changes.set_role-IsRoster now id role r v
  step-IsRoster now (Command.set_host_participating b) r v =
      Changes.set_host_participating-IsRoster now b r v
  step-IsRoster now (Command.set_validity_checks b) r v =
      IsRoster-of_seats (Frame.seats-set_validity_checks now b r) v
  step-IsRoster now (Command.set_same_game_build_required b) r v =
      IsRoster-of_seats (Frame.seats-set_same_game_build_required now b r) v
  step-IsRoster now (Command.set_auto_request_chart_transfers b) r v =
      IsRoster-of_seats (Frame.seats-set_auto_request_chart_transfers now b r) v
  step-IsRoster now (Command.set_modifiers m) r v =
      IsRoster-of_seats (Frame.seats-set_modifiers now m r) v
  step-IsRoster now (Command.set_commentator_access id b) r v =
      IsRoster-of_seats (Frame.seats-set_commentator_access now id b r) v
  step-IsRoster now (Command.kick id) r v = Changes.kick-IsRoster now id r v
  step-IsRoster now (Command.disconnect id) r v =
      IsRoster-of_seats (Frame.seats-disconnect now id r) v
  step-IsRoster now (Command.remove_setlist i) r v =
      IsRoster-of_seats (Frame.seats-remove_setlist now i r) v
  step-IsRoster now (Command.move_setlist i j) r v =
      IsRoster-of_seats (Frame.seats-move_setlist now i j r) v
  step-IsRoster now Command.advance_setlist r v =
      IsRoster-of_seats (Frame.seats-advance_setlist now r) v
  step-IsRoster now (Command.expire_disconnect id) r v =
      Joining.expire_disconnect-IsRoster now id r v
  step-IsRoster now (Command.expire_due_disconnects t) r v =
      Joining.expire_due_disconnects-IsRoster now t r v
  step-IsRoster now (Command.expire_due_unstarted_runs t) r v =
      IsRoster-of_seats (Frame.seats-expire_due_unstarted_runs now t r) v
  step-IsRoster now (Command.lock_chart id chart b) r v =
      IsRoster-of_seats (Frame.seats-lock_chart now id chart b r) v
  step-IsRoster now (Command.set_verified id b why) r v =
      IsRoster-of_seats (Frame.seats-set_verified now id b why r) v
  step-IsRoster now (Command.set_ready id b) r v =
      IsRoster-of_seats (Frame.seats-set_ready now id b r) v
  step-IsRoster now (Command.schedule_start b d) r v =
      IsRoster-of_seats (Frame.seats-schedule_start now b d r) v
  step-IsRoster now (Command.start_run id attempt n) r v =
      IsRoster-of_seats (Frame.seats-start_run now id attempt n r) v
  step-IsRoster now Command.expire_unstarted_runs r v =
      IsRoster-of_seats (Frame.seats-expire_unstarted_runs now r) v
  step-IsRoster now Command.mark_playing r v = IsRoster-of_seats (Frame.seats-mark_playing now r) v
  step-IsRoster now Command.close r v = v
  step-IsRoster now (Command.ingest_score id attempt n payload) r v =
      IsRoster-of_seats ((Frame.ingest_score-Keeps now (seats r) id attempt n payload).at r refl) v
  step-IsRoster now (Command.invalidate id attempt why b) r v =
      IsRoster-of_seats ((Frame.invalidate-Keeps now (seats r) id attempt why b).at r refl) v
  step-IsRoster now (Command.reject_run_event id kind why) r v =
      IsRoster-of_seats (Frame.seats-reject_run_event now id kind why r) v
  step-IsRoster now (Command.finish_run id attempt) r v =
      IsRoster-of_seats ((Frame.finish_run-Keeps now (seats r) id attempt).at r refl) v

  pub run-IsRoster :
      (cs : List (ℕ × Command F)) (r : Room F) → IsRoster (seats r) → IsRoster (seats (run cs r))
  unfolding run
  run-IsRoster [] r v = v
  run-IsRoster ((now, c) ∷ cs) r v = run-IsRoster cs (step now c r) (step-IsRoster now c r v)

  -- After any history of a hosted room the roster is valid.
  pub run-host_room-IsRoster :
      (now : ℕ) (room_id host_id name host_name : Text) (mode : AdmissionMode)
      (cs : List (ℕ × Command F))
      → IsRoster (seats (run cs (host_room now room_id host_id name host_name mode)))
  unfolding host_room
  run-host_room-IsRoster now room_id host_id name host_name mode cs =
      run-IsRoster cs (host_room now room_id host_id name host_name mode) (record {
        sessions = (refl, tt);
        names = (refl, tt);
        racers = omega arith;
        spectators = omega arith;
      })
