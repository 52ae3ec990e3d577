-- ===== src/Room/Outcome.antt =====
-- What the operations return, and what they leave behind when they fail.
use beatblock_online.Base.{
  ℕ, Bool, true, false, not, ◌≡◌, arith, Text, some, List, [], ◌∷◌, retain, length, find, ◌<◌,
  length-retain-le, Option-cases, inl, inr,
}
use beatblock_online.Float.{Float}
use beatblock_online.Model.{Participant}
use beatblock_online.Room.State.{Room, is_ok}
use beatblock_online.Room.Parts.{
  has_id, player_of, participant_mut, require_role_capacity, require_setlist_editable,
}
use beatblock_online.Room.Roster
use beatblock_online.Room.Policy
use beatblock_online.Room.Presence
use beatblock_online.Room.Setlist
use beatblock_online.Room.Race
use beatblock_online.Room.Score
use beatblock_online.Room.Verdict
use beatblock_online.Room.Commands
use beatblock_online.Room.Commands.{Command, step}

module _ {F : Type 0} ⦃fl : Float F⦄ where
  -- Whether a command returns an error. The operations with no `Result` do not.
  abbrev pub fails : ℕ → Command F → Room F → Bool
  fails now (Commands.request_join id name role) r =
      not (is_ok (Presence.request_join_with_id now id name role r).1)
  fails now (Commands.admit id b role) r = not (is_ok (Roster.admit now id b role r).1)
  fails now (Commands.set_role id role) r = not (is_ok (Roster.set_role now id role r).1)
  fails now (Commands.set_host_participating b) r =
      not (is_ok (Roster.set_host_participating now b r).1)
  fails now (Commands.set_validity_checks b) r = not (is_ok (Policy.set_validity_checks now b r).1)
  fails now (Commands.set_same_game_build_required b) r =
      not (is_ok (Policy.set_same_game_build_required now b r).1)
  fails now (Commands.set_auto_request_chart_transfers b) r =
      not (is_ok (Policy.set_auto_request_chart_transfers now b r).1)
  fails now (Commands.set_modifiers m) r = not (is_ok (Policy.set_modifiers now m r).1)
  fails now (Commands.set_commentator_access id b) r =
      not (is_ok (Roster.set_commentator_access now id b r).1)
  fails now (Commands.kick id) r = not (is_ok (Roster.kick now id r).1)
  fails now (Commands.remove_setlist i) r = not (is_ok (Setlist.remove_setlist now i r).1)
  fails now (Commands.move_setlist i j) r = not (is_ok (Setlist.move_setlist now i j r).1)
  fails now Commands.advance_setlist r = not (is_ok (Setlist.advance_setlist now r).1)
  fails now (Commands.lock_chart id chart b) r = not (is_ok (Setlist.lock_chart now id chart b r).1)
  fails now (Commands.set_verified id b why) r = not (is_ok (Race.set_verified now id b why r).1)
  fails now (Commands.set_ready id b) r = not (is_ok (Race.set_ready now id b r).1)
  fails now (Commands.schedule_start b d) r = not (is_ok (Race.schedule_start now b d r).1)
  fails now (Commands.start_run id run n) r = not (is_ok (Race.start_run now id run n r).1)
  fails now (Commands.ingest_score id run n payload) r =
      not (is_ok (Score.ingest_score now id run n payload r).1)
  fails now (Commands.invalidate id run why b) r =
      not (is_ok (Verdict.invalidate now id run why b r).1)
  fails now (Commands.finish_run id run) r = not (is_ok (Verdict.finish_run now id run r).1)
  fails now _ r = false

  -- The commands that write nothing before their last test: all but joining, which has forgotten
  -- the deadline, advancing, which has marked the entry, and a score, which has started the run.
  abbrev pub is_atomic : Command F → Bool
  is_atomic (Commands.request_join id name role) = false
  is_atomic Commands.advance_setlist = false
  is_atomic (Commands.ingest_score id run n payload) = false
  is_atomic _ = true

  retain_found :
      (t : Participant F → Bool) (ps : List (Participant F)) (p : Participant F)
      → find t ps ≡ some p
      → length (retain (λ q. not (t q)) ps) < length ps
  retain_found t [] p h = ground arith
  retain_found t (q ∷ ps) p h =
      ground (arith, retain_found t ps p, length-retain-le (λ q. not (t q)) ps)

  fails_kick :
      (now : ℕ) (id : Text) (r : Room F)
      → not (is_ok (Roster.kick now id r).1) ≡ true
      → (Roster.kick now id r).0 ≡ r
  unfolding Roster.kick player_of
  fails_kick now id r h = elim (Option-cases (find (has_id id) r.participants)) [
    | inl e ↦ ground arith
    | inr (p, e) ↦ ground (arith, retain_found (has_id id) r.participants p)
  ]

  -- An operation that returns an error leaves the whole room as it was, except for the three that
  -- write before their last test: joining, advancing the setlist and a score event.
  pub fails-step :
      (now : ℕ) (c : Command F) (r : Room F)
      → is_atomic c ≡ true
      → fails now c r ≡ true
      → step now c r ≡ r
  unfolding Roster.admit Roster.set_role Roster.set_host_participating Roster.set_commentator_access
      Policy.set_validity_checks Policy.set_same_game_build_required
      Policy.set_auto_request_chart_transfers Policy.set_modifiers Setlist.remove_setlist
      Setlist.move_setlist Setlist.lock_chart Race.set_verified Race.set_ready Race.schedule_start
      Race.start_run Verdict.invalidate Verdict.record_invalidation Verdict.finish_run
      Verdict.record_finish participant_mut require_role_capacity require_setlist_editable
  fails-step now (Commands.request_join id name role) r a h = cc
  fails-step now (Commands.kick id) r a h = fails_kick now id r h
  fails-step now (Commands.invalidate id run why b) r a h = ground arith
  fails-step now (Commands.finish_run id run) r a h = ground arith
  fails-step now c r a h = ground arith
