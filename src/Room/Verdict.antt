-- ===== src/Room/Verdict.antt =====
-- companion/src/room.rs: the verdicts on a run: invalidation by the client, rejection of its events
-- and its end. `now` is what `unix_ms()` returns during the call.
use beatblock_online.Base.{
  ℕ, Bool, true, false, not, ◌&&◌, ◌||◌, Option, none, some, Text, if◌then◌else◌, ltb, ◌==◌, length,
  take, text_eq, trim, is_empty, contains, insert, lookup, put, is_none,
}
use beatblock_online.Float.{Float}
use beatblock_online.Model.{
  Participant, RunValidity, valid, invalid, dnf, ScoreTotals, Reason, in_race, ended_early,
  rejected, reported,
}
use beatblock_online.Room.State.{
  Room, Exec, ◌>>=◌, ◌>>◌, pure, bail_if, branch, or_bail, gets, modify, touch, bad_run_id,
  not_a_competitor, invalidations_closed, bad_reason, run_not_started, unknown_session,
}
use beatblock_online.Room.Parts.{
  player_of, participant_mut, update_participant, is_competitor, try_finish_chart,
}
use beatblock_online.Room.Rank.{rank}
use beatblock_online.Room.Race.{is_run_id}

abbrev pub differs : Option Text → Text → Bool
differs none run_id = false
differs (some active) run_id = not (text_eq active run_id)

abbrev pub is_complete : ScoreTotals → Bool
is_complete t = ltb 0 t.max_hits && t.current_max_hits == t.max_hits

abbrev pub is_valid : RunValidity → Bool
is_valid valid = true
is_valid _ = false

abbrev pub is_invalid : RunValidity → Bool
is_invalid invalid = true
is_invalid _ = false

module _ {F : Type 0} ⦃fl : Float F⦄ where
  unfoldable pub with_verdict : RunValidity → Reason → Participant F → Participant F
  with_verdict verdict why p = record p { validity = verdict; invalid_reason = some why }

  unfoldable pub record_invalidation : ℕ → Text → Text → Text → Bool → Exec F Unit
  unfolding with_verdict
  record_invalidation now id run_id reason is_dnf = do
    modify (λ r. record r {
      active_run_ids =
          if is_none (lookup id r.active_run_ids)
          then put id run_id r.active_run_ids
          else r.active_run_ids;
      started_runs = insert id r.started_runs;
    })
    participant_mut id
    modify
        (update_participant id (with_verdict (if is_dnf then dnf else invalid) (reported reason)))
    modify rank
    modify (touch now)

  abbrev pub is_competing : Option (Participant F) → Bool
  is_competing none = false
  is_competing (some p) = is_competitor p

  unfoldable pub invalidate : ℕ → Text → Text → Text → Bool → Exec F Unit
  unfolding record_invalidation
  invalidate now id run_id reason is_dnf = do
    r ← gets (λ r. r)
    bail_if (not (in_race r.lifecycle)) invalidations_closed
    bail_if (not (is_run_id run_id)) bad_run_id
    bail_if (is_empty (trim reason) || ltb 512 (length reason)) bad_reason
    branch (differs (lookup id r.active_run_ids) run_id) (pure tt) (do
      bail_if (not (is_competing (player_of id r))) not_a_competitor
      branch (not r.validity_checks_enabled && not is_dnf) (pure tt)
          (record_invalidation now id run_id reason is_dnf))

  unfoldable pub reject_run_event : ℕ → Text → Text → Text → Room F → Room F × Bool
  unfolding with_verdict is_competitor
  reject_run_event now id kind reason r =
      if not r.validity_checks_enabled
        || not (in_race r.lifecycle)
        || contains r.finalized_runs id
        || not (is_competing (player_of id r))
      then (r, false)
      else (
        touch now (
            rank
              (update_participant id (with_verdict invalid (rejected kind (take 420 reason))) r)),
        true,
      )

  -- `((set_total + contribution) * 100.0).floor() / 100.0`
  unfoldable pub add_to_set : F → F → F
  add_to_set total contribution =
      fl.fdiv (fl.floor (fl.fmul (fl.fadd total contribution) (fl.of_u64 100))) (fl.of_u64 100)

  -- The verdict of a run at its end, and its contribution to the set.
  unfoldable pub finished : Participant F → Participant F
  unfolding add_to_set
  finished p =
      if is_valid p.validity && is_complete p.totals
      then record p { set_total = add_to_set p.set_total p.accuracy }
      else if is_invalid p.validity
      then record p { set_total = add_to_set p.set_total (fl.of_u64 0) }
      else record p {
        validity = dnf;
        accuracy = fl.of_u64 0;
        invalid_reason = some (elim p.invalid_reason [
          | none ↦ ended_early p.totals.current_max_hits p.totals.max_hits
          | some why ↦ why
        ]);
        set_total = add_to_set p.set_total (fl.of_u64 0);
      }

  unfoldable pub record_finish : ℕ → Text → Exec F Unit
  unfolding finished
  record_finish now id = do
    participant_mut id
    modify (update_participant id finished)
    modify (λ r. record r { finalized_runs = insert id r.finalized_runs })
    modify try_finish_chart
    modify (touch now)

  unfoldable pub finish_run : ℕ → Text → Text → Exec F Unit
  unfolding record_finish is_competitor
  finish_run now id run_id = do
    r ← gets (λ r. r)
    p ← or_bail (player_of id r) unknown_session
    bail_if (not (is_competitor p)) not_a_competitor
    branch (contains r.finalized_runs id) (pure tt) (do
      bail_if (not (is_run_id run_id)) bad_run_id
      branch (differs (lookup id r.active_run_ids) run_id) (pure tt)
          (do bail_if (not (contains r.started_runs id)) run_not_started; record_finish now id))
