-- ===== src/Room/Score.antt =====
-- companion/src/room.rs: the score events of a run, its verdict and its end, with `ScoreTotals` of
-- companion/src/model.rs. `now` is what `unix_ms()` returns during the call. A score payload is JSON
-- that a library decodes: the operations take what it returns, `none` for a field that is not there
-- and for totals that do not decode.
use beatblock_online.Base.{
  ℕ, Bool, true, false, not, ◌&&◌, ◌||◌, Option, none, some, Text, if◌then◌else◌, ltb, leb, ◌==◌,
  insert, saturating_add,
}
use beatblock_online.Float.{Float}
use beatblock_online.Model.{
  Participant, RunValidity, pending, valid, invalid, ScoreTotals, in_race, sequence_gap,
}
use beatblock_online.Room.State.{
  Exec, RoomError, ◌>>=◌, ◌>>◌, pure, bail_if, branch, or_bail, gets, modify, touch,
  no_locked_chart, note_count_mismatch, not_playing, bad_payload, counter_bounds, moved_backwards,
  unknown_session,
}
use beatblock_online.Room.Parts.{player_of, participant_mut, update_participant}
use beatblock_online.Room.Rank.{rank}
use beatblock_online.Room.Race.{start_run, mark_playing}

-- The decoded payload of a score event.
pub record ScorePayload (F : Type 0) : Type 0 where
  pub totals : Option ScoreTotals
  pub progress : Option F

-- The counters of one report are consistent with one another and with the chart.
unfoldable pub out_of_bounds : ScoreTotals → Bool
out_of_bounds t =
    ltb t.max_hits t.current_max_hits
    || ltb t.max_hits t.hits
    || ltb t.hits t.barelies
    || ltb t.max_combo t.combo
    || ltb t.hits t.max_combo
    || ltb t.hits t.mine_hits
    || ltb t.max_hits t.mine_hits
    || ltb (saturating_add t.hits t.misses) t.current_max_hits

-- A cumulative counter is lower than in the last report.
unfoldable pub went_back : ScoreTotals → ScoreTotals → Bool
went_back old t =
    ltb t.current_max_hits old.current_max_hits
    || ltb t.hits old.hits
    || ltb t.misses old.misses
    || ltb t.barelies old.barelies
    || ltb t.max_combo old.max_combo
    || ltb t.mine_hits old.mine_hits

-- `validate_score_totals`: the error it bails with, if any
unfoldable pub totals_error : ScoreTotals → ScoreTotals → ℕ → Option RoomError
unfolding out_of_bounds went_back
totals_error previous next expected_max_hits =
    if not (next.max_hits == expected_max_hits)
    then some note_count_mismatch
    else if out_of_bounds next
    then some counter_bounds
    else if went_back previous next
    then some moved_backwards
    else none

-- The sequence number that follows the last one.
unfoldable pub next_sequence : Option ℕ → ℕ
next_sequence none = 0
next_sequence (some previous) = saturating_add previous 1

abbrev pub is_replay : Option ℕ → ℕ → Bool
is_replay none sequence = false
is_replay (some previous) sequence = leb sequence previous

abbrev pub is_pending : RunValidity → Bool
is_pending pending = true
is_pending _ = false

module _ {F : Type 0} ⦃fl : Float F⦄ where
  -- `ScoreTotals::accuracy`
  unfoldable pub accuracy_of : ScoreTotals → F
  accuracy_of t =
      let opportunities = fl.of_u64 t.current_max_hits in
      let numerator =
        fl.fsub (fl.fsub opportunities (fl.of_u64 t.misses))
          (fl.fdiv (fl.of_u64 t.barelies) (fl.of_u64 4)) in
      let percent =
        fl.fmul (fl.fdiv (fl.fmax numerator (fl.of_u64 0)) opportunities) (fl.of_u64 100) in
      if t.current_max_hits == 0
      then fl.of_u64 100
      else fl.fdiv (fl.floor (fl.fmul percent (fl.of_u64 100))) (fl.of_u64 100)

  progress_of : ScoreTotals → Option F → F
  progress_of t (some x) = fl.clamp_unit x
  progress_of t none = fl.clamp_unit (fl.fdiv (fl.of_u64 t.current_max_hits) (fl.of_u64 t.max_hits))

  -- The write of `ingest_score` to the participant.
  unfoldable pub scored :
      Bool → Option ℕ → ℕ → ScoreTotals → Option F → Participant F → Participant F
  unfolding accuracy_of progress_of next_sequence
  scored checks previous sequence t progress p =
      let gap = not (sequence == next_sequence previous) && checks in
      let validity : RunValidity = if gap then invalid else p.validity in
      record p {
        validity = if is_pending validity then valid else validity;
        invalid_reason =
            if gap then some (sequence_gap (next_sequence previous) sequence) else p.invalid_reason;
        last_sequence = some sequence;
        totals = t;
        accuracy = accuracy_of t;
        progress = progress_of t progress;
      }

  abbrev pub or_error : Option RoomError → Exec F Unit
  or_error none = pure tt
  or_error (some e) = bail_if true e

  -- The part of `ingest_score` behind the replay test.
  unfoldable pub record_score :
      ℕ → Text → ℕ → ℕ → ScoreTotals → Option F → Participant F → Exec F Unit
  unfolding scored totals_error
  record_score now id sequence expected t progress p = do
    or_error (totals_error p.totals t expected)
    modify (mark_playing now)
    participant_mut id
    checks ← gets (λ r. r.validity_checks_enabled)
    modify (update_participant id (scored checks p.last_sequence sequence t progress))
    modify (λ r. record r { started_runs = insert id r.started_runs })
    modify rank
    modify (touch now)

  unfoldable pub ingest_score : ℕ → Text → Text → ℕ → ScorePayload F → Exec F Unit
  unfolding record_score
  ingest_score now id run_id sequence payload = do
    r ← gets (λ r. r)
    bail_if (not (in_race r.lifecycle)) not_playing
    chart ← or_bail r.chart no_locked_chart
    t ← or_bail payload.totals bad_payload
    start_run now id run_id t.max_hits
    found ← gets (player_of id)
    p ← or_bail found unknown_session
    branch (is_replay p.last_sequence sequence) (pure tt)
        (record_score now id sequence chart.expected_max_hits t payload.progress p)
