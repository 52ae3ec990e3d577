-- ===== src/Room/Membership/Frame.antt =====
-- The operations that leave every seat of the roster as it was: charts, setlist, readiness, runs,
-- scores, ranks and verdicts.
use beatblock_online.Base.{
  ℕ, suc, ◌+◌, ◌%◌, Bool, true, false, ◌≡◌, refl, ◌∙◌, List, [], ◌∷◌, map, Text, Option, none, some,
  arith, take, insert, u32_mod, lookup,
}
use beatblock_online.Float.{Float}
use beatblock_online.Model
use beatblock_online.Model.{Participant, ScoreTotals, ChartLock, RunValidity}
use beatblock_online.Room.State.{Room, RoomError, modify, touch, set_participants}
use beatblock_online.Room.Parts.{
  update_first, update_participant, refresh_ready_lifecycle, try_finish_chart, participant_mut,
  unlocked_participant, require_setlist_editable,
}
use beatblock_online.Room.Rank.{
  RankKey, with_rank, unranked, concluded, assign_ranks, rank, sort_by, rank_cmp, rank_keys,
}
use beatblock_online.Room.Policy
use beatblock_online.Room.Roster
use beatblock_online.Room.Presence
use beatblock_online.Room.Setlist
use beatblock_online.Room.Race
use beatblock_online.Room.Score
use beatblock_online.Room.Score.{ScorePayload}
use beatblock_online.Room.Verdict
use beatblock_online.Room.Keeps.{Keeps, Keeps-modify, Keeps-pure, Keeps-bail_if, keeps_rules}
use beatblock_online.Room.Seats.{Seat, seat, seats, map-update_first, map-map_same, map-modify_at}

module _ {F : Type 0} where
  pub seats-refresh_ready_lifecycle : (r : Room F) → seats (refresh_ready_lifecycle r) ≡ seats r
  unfolding refresh_ready_lifecycle
  seats-refresh_ready_lifecycle r = ground arith

  pub seats-try_finish_chart : (r : Room F) → seats (try_finish_chart r) ≡ seats r
  unfolding try_finish_chart
  seats-try_finish_chart r = ground arith

  seats-assign_ranks :
      (n : ℕ) (ks : List (RankKey F)) (ps : List (Participant F))
      → map seat (assign_ranks n ks ps) ≡ map seat ps
  unfolding assign_ranks
  seats-assign_ranks n [] ps = refl
  seats-assign_ranks n (k ∷ ks) ps =
      seats-assign_ranks (suc n) ks _
      ∙ map-modify_at seat (with_rank ((n + 1) % u32_mod)) k.index ps (λ p. refl)

  -- A write to one participant that keeps his seat.
  pub seats-update :
      (id : Text) (f : Participant F → Participant F) (ps : List (Participant F))
      → ((p : Participant F) → seat (f p) ≡ seat p)
      → map seat (update_first id f ps) ≡ map seat ps
  seats-update id f ps same = map-update_first seat id f ps same

  seats-unlocked :
      (ps : List (Participant F)) → map seat (map unlocked_participant ps) ≡ map seat ps
  unfolding unlocked_participant
  seats-unlocked ps = map-map_same seat unlocked_participant ps (λ p. refl)

  pub seats-reset_for_locked_chart :
      (r : Room F) → seats (Setlist.reset_for_locked_chart r) ≡ seats r
  unfolding Setlist.reset_for_locked_chart
  seats-reset_for_locked_chart r = seats-unlocked r.participants

module _ {F : Type 0} ⦃fl : Float F⦄ where
  pub seats-rank : (r : Room F) → seats (rank r) ≡ seats r
  unfolding rank
  seats-rank r =
      seats-assign_ranks 0 (sort_by rank_cmp (rank_keys 0 r.participants))
        (map unranked r.participants)
      ∙ map-map_same seat unranked r.participants (λ p. refl)

  pub seats-concluded : (now : ℕ) (r : Room F) → seats (concluded now r) ≡ seats r
  unfolding concluded
  seats-concluded now r = seats-try_finish_chart (rank r) ∙ seats-rank r

module _ {F : Type 0} (now : ℕ) where
  pub seats-set_validity_checks :
      (b : Bool) (r : Room F) → seats (Policy.set_validity_checks now b r).0 ≡ seats r
  unfolding Policy.set_validity_checks
  seats-set_validity_checks b r = ground arith

  pub seats-set_same_game_build_required :
      (b : Bool) (r : Room F) → seats (Policy.set_same_game_build_required now b r).0 ≡ seats r
  unfolding Policy.set_same_game_build_required
  seats-set_same_game_build_required b r = ground arith

  pub seats-set_auto_request_chart_transfers :
      (b : Bool) (r : Room F) → seats (Policy.set_auto_request_chart_transfers now b r).0 ≡ seats r
  unfolding Policy.set_auto_request_chart_transfers
  seats-set_auto_request_chart_transfers b r = ground arith

  pub seats-set_commentator_access :
      (id : Text) (b : Bool) (r : Room F)
      → seats (Roster.set_commentator_access now id b r).0 ≡ seats r
  unfolding Roster.set_commentator_access participant_mut
  seats-set_commentator_access id b r =
      ground (arith, seats-update id (Roster.commenting b) r.participants (λ p. refl))

  pub seats-disconnect : (id : Text) (r : Room F) → seats (Presence.disconnect now id r) ≡ seats r
  unfolding Presence.disconnect refresh_ready_lifecycle
  seats-disconnect id r = ground (arith, seats-update id Presence.gone r.participants (λ p. refl))

  pub seats-remove_setlist :
      (i : ℕ) (r : Room F) → seats (Setlist.remove_setlist now i r).0 ≡ seats r
  unfolding Setlist.remove_setlist require_setlist_editable
  seats-remove_setlist i r = ground (arith, seats-unlocked r.participants)

  pub seats-move_setlist :
      (i j : ℕ) (r : Room F) → seats (Setlist.move_setlist now i j r).0 ≡ seats r
  unfolding Setlist.move_setlist require_setlist_editable
  seats-move_setlist i j r = ground arith

  pub seats-advance_setlist : (r : Room F) → seats (Setlist.advance_setlist now r).0 ≡ seats r
  unfolding Setlist.advance_setlist
  seats-advance_setlist r = ground (arith, seats-unlocked r.participants)

  pub seats-lock_chart :
      (id : Text) (c : ChartLock) (append : Bool) (r : Room F)
      → seats (Setlist.lock_chart now id c append r).0 ≡ seats r
  unfolding Setlist.lock_chart
  seats-lock_chart id c append r = ground (arith, seats-unlocked r.participants)

  pub seats-set_verified :
      (id : Text) (b : Bool) (why : Option Text) (r : Room F)
      → seats (Race.set_verified now id b why r).0 ≡ seats r
  unfolding Race.set_verified participant_mut refresh_ready_lifecycle
  seats-set_verified id b why r =
      ground (arith, seats-update id (Race.verified_as b why) r.participants (λ p. refl))

  pub seats-set_ready :
      (id : Text) (b : Bool) (r : Room F) → seats (Race.set_ready now id b r).0 ≡ seats r
  unfolding Race.set_ready participant_mut refresh_ready_lifecycle
  seats-set_ready id b r =
      ground (arith, seats-update id (Race.readied b) r.participants (λ p. refl))

module _ {F : Type 0} ⦃fl : Float F⦄ (now : ℕ) where
  pub seats-set_modifiers :
      (m : Model.RoomModifiers F) (r : Room F) → seats (Policy.set_modifiers now m r).0 ≡ seats r
  unfolding Policy.set_modifiers
  seats-set_modifiers m r = ground arith

  seat-reset_for_start : (p : Participant F) → seat (Race.reset_for_start p) ≡ seat p
  unfolding Race.reset_for_start
  seat-reset_for_start p = ground arith

  pub seats-schedule_start :
      (force : Bool) (delay : ℕ) (r : Room F)
      → seats (Race.schedule_start now force delay r).0 ≡ seats r
  unfolding Race.schedule_start
  seats-schedule_start force delay r =
      ground (arith, map-map_same seat Race.reset_for_start r.participants seat-reset_for_start)

  seat-run_started :
      (checks again : Bool) (n : ℕ) (p : Participant F)
      → seat (Race.run_started checks again n p) ≡ seat p
  unfolding Race.run_started
  seat-run_started checks again n p = ground arith

  pub seats-begin_run :
      (id run : Text) (n : ℕ) (previous : Option Text) (r : Room F)
      → seats (Race.begin_run id run n previous r) ≡ seats r
  unfolding Race.begin_run
  seats-begin_run id run n previous r =
      seats-update id _ r.participants
        (seat-run_started r.validity_checks_enabled (Race.is_new_attempt previous run) n)

  pub seats-start_run :
      (id run : Text) (n : ℕ) (r : Room F) → seats (Race.start_run now id run n r).0 ≡ seats r
  unfolding Race.start_run participant_mut
  seats-start_run id run n r =
      ground (arith, seats-begin_run id run n (lookup id r.active_run_ids) r)

  seats-expire_loop :
      (started : List Text) (ps : List (Participant F)) (finalized : List Text) (changed : Bool)
      → map seat (Race.expire_loop started ps finalized changed).0 ≡ map seat ps
  unfolding Race.expire_loop
  seats-expire_loop started [] finalized changed = refl
  seats-expire_loop started (p ∷ ps) finalized changed = ground (
    arith,
    seats-expire_loop started ps finalized changed,
    seats-expire_loop started ps (insert p.session_id finalized) true,
  )

  pub seats-expire_unstarted_runs :
      (r : Room F) → seats (Race.expire_unstarted_runs now r).0 ≡ seats r
  unfolding Race.expire_unstarted_runs
  seats-expire_unstarted_runs r =
      let (ps, finalized, _) =
        Race.expire_loop r.started_runs r.participants r.finalized_runs false in
      ground (
        arith,
        seats-expire_loop r.started_runs r.participants r.finalized_runs false,
        seats-concluded now (set_participants ps (record r { finalized_runs = finalized })),
      )

  pub seats-expire_due_unstarted_runs :
      (t : ℕ) (r : Room F) → seats (Race.expire_due_unstarted_runs now t r).0 ≡ seats r
  unfolding Race.expire_due_unstarted_runs
  seats-expire_due_unstarted_runs t r = ground (arith, seats-expire_unstarted_runs r)

  pub seats-mark_playing : (r : Room F) → seats (Race.mark_playing now r) ≡ seats r
  unfolding Race.mark_playing
  seats-mark_playing r = ground arith

module _ {F : Type 0} ⦃fl : Float F⦄ (now : ℕ) (ss : List Seat) where
  abbrev pub Seated : Room F → Type 0
  Seated r = seats r ≡ ss

  seats-modify :
      (f : Room F → Room F) → ((r : Room F) → seats (f r) ≡ seats r) → Keeps Seated (modify f)
  seats-modify f same = Keeps-modify f (λ r h. same r ∙ h)

  seats-participant_mut : (id : Text) → Keeps Seated (participant_mut {F = F} id)
  unfolding participant_mut
  seats-participant_mut id = record { at = λ r h. ground arith }

  seats-update_participant :
      (id : Text) (f : Participant F → Participant F)
      → ((p : Participant F) → seat (f p) ≡ seat p)
      → Keeps Seated (modify (update_participant id f))
  seats-update_participant id f same = seats-modify _ (λ r. seats-update id f r.participants same)

  or_error-Keeps : (o : Option RoomError) → Keeps Seated (Score.or_error o)
  or_error-Keeps none = Keeps-pure tt
  or_error-Keeps (some e) = Keeps-bail_if true e

  rank-Keeps : Keeps Seated (modify rank)
  rank-Keeps = seats-modify rank seats-rank

  mark_playing-Keeps : Keeps Seated (modify (Race.mark_playing now))
  mark_playing-Keeps = seats-modify (Race.mark_playing now) (seats-mark_playing now)

  touch-Keeps : Keeps Seated (modify (touch now))
  touch-Keeps = seats-modify (touch now) (λ r. refl)

  started-Keeps :
      (id : Text)
      → Keeps Seated (modify (λ r. record r { started_runs = insert id r.started_runs }))
  started-Keeps id = seats-modify _ (λ r. refl)

  scored-Keeps :
      (id : Text) (checks : Bool) (last : Option ℕ) (sequence : ℕ) (t : ScoreTotals) (x : Option F)
      → Keeps Seated (modify (update_participant id (Score.scored checks last sequence t x)))
  unfolding Score.scored
  scored-Keeps id checks last sequence t x = seats-update_participant id _ (λ p. refl)

  ruleset seated_rules = (
    keeps_rules, seats-participant_mut, or_error-Keeps, rank-Keeps, mark_playing-Keeps, touch-Keeps,
    started-Keeps, scored-Keeps,
  )

  record_score-Keeps :
      (id : Text) (sequence expected : ℕ) (t : ScoreTotals) (x : Option F) (p : Participant F)
      → Keeps Seated (Score.record_score now id sequence expected t x p)
  unfolding Score.record_score
  record_score-Keeps id sequence expected t x p = search seated_rules depth 12

  start_run-Keeps : (id run : Text) (n : ℕ) → Keeps Seated (Race.start_run now id run n)
  start_run-Keeps id run n = record { at = λ r h. seats-start_run now id run n r ∙ h }

  pub ingest_score-Keeps :
      (id run : Text) (sequence : ℕ) (payload : ScorePayload F)
      → Keeps Seated (Score.ingest_score now id run sequence payload)
  unfolding Score.ingest_score
  ingest_score-Keeps id run sequence payload =
      search (seated_rules, start_run-Keeps, record_score-Keeps) depth 14

  verdict-Keeps :
      (id : Text) (v : RunValidity) (why : Model.Reason)
      → Keeps Seated (modify (update_participant id (Verdict.with_verdict v why)))
  unfolding Verdict.with_verdict
  verdict-Keeps id v why = seats-update_participant id _ (λ p. refl)

  record_invalidation-Keeps :
      (id run why : Text) (is_dnf : Bool)
      → Keeps Seated (Verdict.record_invalidation now id run why is_dnf)
  unfolding Verdict.record_invalidation
  record_invalidation-Keeps id run why is_dnf = search (seated_rules, verdict-Keeps) depth 12

  pub invalidate-Keeps :
      (id run why : Text) (is_dnf : Bool) → Keeps Seated (Verdict.invalidate now id run why is_dnf)
  unfolding Verdict.invalidate
  invalidate-Keeps id run why is_dnf = search (seated_rules, record_invalidation-Keeps) depth 14

  seat-finished : (p : Participant F) → seat (Verdict.finished p) ≡ seat p
  unfolding Verdict.finished
  seat-finished p = ground arith

  finished-Keeps : (id : Text) → Keeps Seated (modify (update_participant id Verdict.finished))
  finished-Keeps id = seats-update_participant id Verdict.finished seat-finished

  try_finish-Keeps : Keeps Seated (modify try_finish_chart)
  try_finish-Keeps = seats-modify try_finish_chart seats-try_finish_chart

  record_finish-Keeps : (id : Text) → Keeps Seated (Verdict.record_finish now id)
  unfolding Verdict.record_finish
  record_finish-Keeps id = search (seated_rules, finished-Keeps, try_finish-Keeps) depth 12

  pub finish_run-Keeps : (id run : Text) → Keeps Seated (Verdict.finish_run now id run)
  unfolding Verdict.finish_run
  finish_run-Keeps id run = search (seated_rules, record_finish-Keeps) depth 14

module _ {F : Type 0} ⦃fl : Float F⦄ (now : ℕ) where
  pub seats-reject_run_event :
      (id kind why : Text) (r : Room F)
      → seats (Verdict.reject_run_event now id kind why r).0 ≡ seats r
  unfolding Verdict.reject_run_event
  seats-reject_run_event id kind why r =
      let f : Participant F → Participant F =
        Verdict.with_verdict Model.invalid (Model.rejected kind (take 420 why)) in
      ground (
        arith,
        seats-rank (update_participant id f r),
        seats-update id f r.participants (λ p. refl),
      )
