-- ===== src/Room/Race.antt =====
-- companion/src/room.rs: verifying, readying and starting a race, and starting a run in it.
-- `now` is what `unix_ms()` returns during the call.
use beatblock_online.Base.{
  ℕ, suc, Bool, true, false, not, ◌&&◌, ◌||◌, Option, none, some, List, [], ◌∷◌, ◌++◌, Text, map,
  if◌then◌else◌, ltb, leb, ◌==◌, length, any, text_eq, trim, is_empty, contains, insert, lookup,
  put, is_none, saturating_add, clamp,
}
use beatblock_online.Float.{Float}
use beatblock_online.Model.{
  Participant, RoomLifecycle, chart_locked, ready, countdown, playing, pending, invalid, dnf,
  no_totals, is_spectator, in_race, before_race, new_attempt, game_did_not_start, reported,
}
use beatblock_online.Room.State.{
  Room, Exec, ◌>>=◌, ◌>>◌, pure, bail_if, or_bail, gets, modify, set_lifecycle, set_participants,
  touch, verification_locked, ready_locked, unverified_ready, cannot_start, chart_missing,
  nobody_assigned, not_all_ready, starts_closed, no_locked_chart, note_count_mismatch, bad_run_id,
  stale_attempt, not_a_competitor, chart_unverified,
}
use beatblock_online.Room.Parts.{
  participant_mut, update_participant, is_competitor, is_assigned, all_assigned_ready,
}
use beatblock_online.Room.Roster.{refreshed}
use beatblock_online.Room.Rank.{concluded}

-- `validate_run_id`, whose length is in characters
unfoldable pub is_run_id : Text → Bool
is_run_id id = not (is_empty (trim id) || ltb 128 (length id))

-- At most 32 retired ids are kept, the oldest first.
unfoldable pub retire : Text → List Text → List Text
retire id [] = id ∷ []
retire id (old ∷ ids) = if leb 32 (suc (length ids)) then ids ++ id ∷ [] else (old ∷ ids) ++ id ∷ []

abbrev pub ids_of : Option (List Text) → List Text
ids_of none = []
ids_of (some ids) = ids

-- `iter().any(|value| value == run_id)`
unfoldable pub is_retired : Text → Option (List Text) → Bool
is_retired run_id retired = any (λ id. text_eq id run_id) (ids_of retired)

abbrev pub can_start : RoomLifecycle → Bool
can_start chart_locked = true
can_start ready = true
can_start _ = false

abbrev pub is_new_attempt : Option Text → Text → Bool
is_new_attempt none run_id = false
is_new_attempt (some previous) run_id = not (text_eq previous run_id)

module _ {F : Type 0} where
  -- The writes of `set_verified`.
  abbrev pub verified_as : Bool → Option Text → Participant F → Participant F
  verified_as verified reason p = record p {
    verified = verified;
    ready = verified && p.ready;
    invalid_reason =
        if verified
        then p.invalid_reason
        else elim reason [ none ↦ none | some t ↦ some (reported t) ];
  }

  unfoldable pub set_verified : ℕ → Text → Bool → Option Text → Exec F Unit
  set_verified now id verified reason = do
    lifecycle ← gets (λ r. r.lifecycle)
    bail_if (not (before_race lifecycle)) verification_locked
    participant_mut id
    modify (update_participant id (verified_as verified reason))
    modify (refreshed now)

  -- The write of `set_ready`.
  abbrev pub readied : Bool → Participant F → Participant F
  readied is_ready p = record p { ready = is_ready }

  unfoldable pub set_ready : ℕ → Text → Bool → Exec F Unit
  set_ready now id is_ready = do
    lifecycle ← gets (λ r. r.lifecycle)
    bail_if (not (before_race lifecycle)) ready_locked
    p ← participant_mut id
    bail_if (not (is_spectator p.role) && is_ready && not p.verified) unverified_ready
    modify (update_participant id (readied is_ready))
    modify (refreshed now)

  unfoldable pub mark_playing : ℕ → Room F → Room F
  mark_playing now r = elim r.lifecycle [ countdown ↦ touch now (set_lifecycle playing r) | _ ↦ r ]

module _ {F : Type 0} ⦃fl : Float F⦄ where
  -- The fields that a new scheduled chart resets on every participant who is no spectator.
  unfoldable pub reset_for_start : Participant F → Participant F
  reset_for_start p = if is_spectator p.role then p else record p {
    validity = pending;
    invalid_reason = none;
    totals = no_totals;
    accuracy = fl.of_u64 100;
    progress = fl.of_u64 0;
    rank = none;
    last_sequence = none;
  }

  unfoldable pub begin_countdown : Bool → ℕ → Room F → Room F
  unfolding reset_for_start
  begin_countdown force start r = record r {
    snapshot = record r.snapshot {
      force_start = force;
      scheduled_start_time_ms = some start;
      lifecycle = countdown;
      participants = map reset_for_start r.participants;
    };
    finalized_runs = [];
    started_runs = [];
    active_run_ids = [];
    retired_run_ids = [];
  }

  unfoldable pub schedule_start : ℕ → Bool → ℕ → Exec F ℕ
  unfolding begin_countdown
  schedule_start now force delay_ms = do
    r ← gets (λ r. r)
    bail_if (not (can_start r.lifecycle)) cannot_start
    bail_if (is_none r.chart) chart_missing
    bail_if (not (any is_assigned r.participants)) nobody_assigned
    bail_if (not force && not (all_assigned_ready r)) not_all_ready
    let start = saturating_add now (clamp delay_ms 2000 15000)
    modify (begin_countdown force start)
    modify (touch now)
    pure start

  -- What a second attempt in one race resets.
  unfoldable pub restarted : Bool → Participant F → Participant F
  restarted checks p =
      let fresh = record p {
        totals = no_totals;
        progress = fl.of_u64 0;
        accuracy = fl.of_u64 100;
        rank = none;
        last_sequence = none;
      } in
      if checks
      then record fresh {
        validity = invalid;
        invalid_reason = some (elim p.invalid_reason [ none ↦ new_attempt | some why ↦ why ]);
      }
      else record fresh { validity = pending; invalid_reason = none }

  abbrev pub with_max_hits : ℕ → Participant F → Participant F
  with_max_hits n p = record p { totals = record p.totals { max_hits = n } }

  -- The writes of `start_run` to the participant.
  unfoldable pub run_started : Bool → Bool → ℕ → Participant F → Participant F
  unfolding restarted
  run_started checks again max_hits p =
      with_max_hits max_hits (if again then restarted checks p else p)

  unfoldable pub begin_run : Text → Text → ℕ → Option Text → Room F → Room F
  unfolding run_started retire
  begin_run id run_id max_hits previous r =
      let again = is_new_attempt previous run_id in
      let started =
        update_participant id (run_started r.validity_checks_enabled again max_hits) r in
      record started {
        retired_run_ids = elim previous [
          | none ↦ r.retired_run_ids
          | some old ↦
              if again
              then put id (retire old (ids_of (lookup id r.retired_run_ids))) r.retired_run_ids
              else r.retired_run_ids
        ];
        active_run_ids = put id run_id r.active_run_ids;
        started_runs = insert id r.started_runs;
      }

  unfoldable pub start_run : ℕ → Text → Text → ℕ → Exec F Unit
  unfolding is_run_id is_retired is_competitor begin_run
  start_run now id run_id max_hits = do
    r ← gets (λ r. r)
    bail_if (not (in_race r.lifecycle)) starts_closed
    chart ← or_bail r.chart no_locked_chart
    bail_if (not (max_hits == chart.expected_max_hits)) note_count_mismatch
    bail_if (not (is_run_id run_id)) bad_run_id
    bail_if (is_retired run_id (lookup id r.retired_run_ids)) stale_attempt
    p ← participant_mut id
    bail_if (not (is_competitor p)) not_a_competitor
    bail_if (not p.verified) chart_unverified
    modify (begin_run id run_id max_hits (lookup id r.active_run_ids))
    modify (touch now)

  abbrev pub never_started : Participant F → Participant F
  never_started p = record p {
    validity = dnf;
    accuracy = fl.of_u64 0;
    invalid_reason = some game_did_not_start;
  }

  -- The loop of `expire_unstarted_runs`: the participants, the finalized runs, `changed`.
  unfoldable pub expire_loop :
      List Text → List (Participant F) → List Text → Bool → List (Participant F) × List Text × Bool
  expire_loop started [] finalized changed = ([], finalized, changed)
  expire_loop started (p ∷ ps) finalized changed =
      let expired =
        is_competitor p
        && not (contains started p.session_id)
        && not (contains finalized p.session_id) in
      let (ps', finalized', changed') =
        expire_loop started ps (if expired then insert p.session_id finalized else finalized)
          (expired || changed) in
      ((if expired then never_started p else p) ∷ ps', finalized', changed')

  unfoldable pub expire_unstarted_runs : ℕ → Room F → Room F × Bool
  unfolding expire_loop
  expire_unstarted_runs now r =
      let (ps, finalized, changed) =
        expire_loop r.started_runs r.participants r.finalized_runs false in
      if in_race r.lifecycle && changed
      then (concluded now (set_participants ps (record r { finalized_runs = finalized })), true)
      else (r, false)

  unfoldable pub expire_due_unstarted_runs : ℕ → ℕ → Room F → Room F × Bool
  unfolding expire_unstarted_runs
  expire_due_unstarted_runs now now_ms r = elim r.scheduled_start_time_ms [
    | none ↦ (r, false)
    | some start ↦
        if ltb now_ms (saturating_add start 30000) then (r, false) else expire_unstarted_runs now r
  ]
