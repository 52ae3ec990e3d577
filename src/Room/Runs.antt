-- ===== src/Room/Runs.antt =====
-- The life of a run: its start, its end, and what becomes of an attempt that was replaced.
use beatblock_online.Base.{
  ℕ, ◌≤◌, Bool, true, false, not, ◌||◌, ◌≡◌, ◌≢◌, ◌<◌, Option, inl, inr, refl, ◌⊎◌, arith, Text,
  none, some, List, [], ◌∷◌, ◌++◌, length, length-append, any, all, find, lookup, contains,
  contains-insert, lookup-put, text_eq, text_eq_iff,
}
use beatblock_online.Float.{Float}
use beatblock_online.Model
use beatblock_online.Model.{
  Participant, countdown, pending, no_totals, is_spectator, is_racing, in_race, valid, invalid, dnf,
}
use beatblock_online.Room.State.{Room, Result, ok, err, is_ok, stale_attempt}
use beatblock_online.Room.Parts.{
  has_id, player_of, participant_mut, is_competitor, try_finish_chart, update_first,
}
use beatblock_online.Room.Race
use beatblock_online.Room.Race.{schedule_start, start_run, retire, ids_of, is_retired}
use beatblock_online.Room.Verdict
use beatblock_online.Room.Verdict.{finish_run, finished, record_finish, invalidate}
use beatblock_online.Room.Score.{ScorePayload, ingest_score}

module _ {F : Type 0} where
  -- The first participant after a write to the first participant.
  pub find-update_first :
      (id : Text) (f : Participant F → Participant F) (ps : List (Participant F))
      → ((p : Participant F) → (f p).session_id ≡ p.session_id)
      → find (has_id id) (update_first id f ps)
        ≡ elim (find (has_id id) ps) [ none ↦ none | some p ↦ some (f p) ]
  unfolding update_first
  find-update_first id f [] same = refl
  find-update_first id f (p ∷ ps) same = ground (arith, same p, find-update_first id f ps same)

-- The 32 ids kept hold the one that was retired last.
any-append_last : (run : Text) (ids : List Text) → any (λ i. text_eq i run) (ids ++ run ∷ []) ≡ true
any-append_last run [] = ground (arith, text_eq_iff run run)
any-append_last run (i ∷ ids) = ground (arith, any-append_last run ids)

is_retired-retire :
    (run : Text) (ids : List Text) → any (λ i. text_eq i run) (retire run ids) ≡ true
unfolding retire
is_retired-retire run [] = any-append_last run []
is_retired-retire run (i ∷ ids) =
    ground (arith, any-append_last run ids, any-append_last run (i ∷ ids))

pub length-retire-le :
    (run : Text) (ids : List Text) → length ids ≤ 32 → length (retire run ids) ≤ 32
unfolding retire
length-retire-le run [] h = omega arith
length-retire-le run (i ∷ ids) h =
    ground (arith, length-append ids (run ∷ []), length-append (i ∷ ids) (run ∷ []))

module _ {F : Type 0} ⦃fl : Float F⦄ where
  -- What a start leaves when it replaces another attempt.
  retired-start_run :
      (now : ℕ) (id run old : Text) (hits : ℕ) (r s : Room F)
      → lookup id r.active_run_ids ≡ some old
      → text_eq old run ≡ false
      → start_run now id run hits r ≡ (s, ok tt)
      → (is_retired old (lookup id s.retired_run_ids) ≡ true)
        × (Verdict.differs (lookup id s.active_run_ids) old ≡ true)
  unfolding start_run participant_mut is_retired
  retired-start_run now id run old hits r s active other started = ground (
    arith,
    is_retired-retire old (ids_of (lookup id r.retired_run_ids)),
    lookup-put id id (retire old (ids_of (lookup id r.retired_run_ids))) r.retired_run_ids,
    lookup-put id id run r.active_run_ids,
    text_eq_iff id id,
    text_eq_iff run old,
    text_eq_iff old run,
  )

  start_run-retired :
      (now : ℕ) (id run : Text) (hits : ℕ) (r : Room F)
      → is_retired run (lookup id r.retired_run_ids) ≡ true
      → ((start_run now id run hits r).0 ≡ r) × (is_ok (start_run now id run hits r).1 ≡ false)
  unfolding start_run
  start_run-retired now id run hits r old = ground (arith, old)

  ingest_score-retired :
      (now : ℕ) (id run : Text) (sequence : ℕ) (payload : ScorePayload F) (r : Room F)
      → is_retired run (lookup id r.retired_run_ids) ≡ true
      → (ingest_score now id run sequence payload r).0 ≡ r
  unfolding ingest_score
  ingest_score-retired now id run sequence payload r old = by_payload payload.totals refl
    where
      by_payload :
          (o : Option Model.ScoreTotals)
          → payload.totals ≡ o
          → (ingest_score now id run sequence payload r).0 ≡ r
      by_payload none e = ground (arith, e)
      by_payload (some t) e = ground (arith, e, start_run-retired now id run t.max_hits r old)

  invalidate-differs :
      (now : ℕ) (id run reason : Text) (is_dnf : Bool) (r : Room F)
      → Verdict.differs (lookup id r.active_run_ids) run ≡ true
      → (invalidate now id run reason is_dnf r).0 ≡ r
  unfolding invalidate
  invalidate-differs now id run reason is_dnf r other = ground (arith, other)

  finish_run-differs :
      (now : ℕ) (id run : Text) (r : Room F)
      → Verdict.differs (lookup id r.active_run_ids) run ≡ true
      → (finish_run now id run r).0 ≡ r
  unfolding finish_run
  finish_run-differs now id run r other = ground (arith, other)

  start_run-stale :
      (now later : ℕ) (id run old : Text) (hits : ℕ) (r s : Room F)
      → start_run now id run hits r ≡ (s, ok tt)
      → is_retired old (lookup id s.retired_run_ids) ≡ true
      → Race.is_run_id old ≡ true
      → start_run later id old hits s ≡ (s, err stale_attempt)
  unfolding start_run participant_mut
  start_run-stale now later id run old hits r s started retired named =
      ground (arith, started, retired, named)

  -- Once a start has replaced another attempt with a valid id, then in the room that the start left a
  -- start of that attempt is refused as stale, and no start, score, invalidation or end of it changes
  -- anything.
  pub start_run-replaced :
      (now later : ℕ) (id run old : Text) (hits hits' sequence : ℕ) (payload : ScorePayload F)
      (reason : Text) (is_dnf : Bool) (r s : Room F)
      → lookup id r.active_run_ids ≡ some old
      → text_eq old run ≡ false
      → start_run now id run hits r ≡ (s, ok tt)
      → Race.is_run_id old ≡ true
      → (start_run later id old hits s ≡ (s, err stale_attempt))
        × ((start_run later id old hits' s).0 ≡ s)
        × ((ingest_score later id old sequence payload s).0 ≡ s)
        × ((invalidate later id old reason is_dnf s).0 ≡ s)
        × ((finish_run later id old s).0 ≡ s)
  start_run-replaced now later id run old hits hits' sequence payload reason is_dnf r s active other
        started named =
      let v = retired-start_run now id run old hits r s active other started in
      (
        start_run-stale now later id run old hits r s started v.0 named,
        (start_run-retired later id old hits' s v.0).0,
        ingest_score-retired later id old sequence payload s v.0,
        invalidate-differs later id old reason is_dnf s v.1,
        finish_run-differs later id old s v.1,
      )

  competitor-finished : (p : Participant F) → is_competitor (finished p) ≡ is_competitor p
  unfolding finished is_competitor
  competitor-finished p = ground arith

  session-finished : (p : Participant F) → (finished p).session_id ≡ p.session_id
  unfolding finished
  session-finished p = ground arith

  finalized-try_finish : (r : Room F) → (try_finish_chart r).finalized_runs ≡ r.finalized_runs
  unfolding try_finish_chart
  finalized-try_finish r = ground arith

  participants-try_finish : (r : Room F) → (try_finish_chart r).participants ≡ r.participants
  unfolding try_finish_chart
  participants-try_finish r = ground arith

  any_of_found :
      (t u : Participant F → Bool) (ps : List (Participant F)) (p : Participant F)
      → find t ps ≡ some p
      → u p ≡ true
      → any u ps ≡ true
  any_of_found t u [] p h k = ground arith
  any_of_found t u (q ∷ ps) p h k = ground (arith, any_of_found t u ps p)

  -- The verdict at the end of a run, described without the code: a run stands as valid, and its accuracy
  -- goes to the set, exactly if it was valid and every note of a chart with notes was counted; an invalid
  -- one stays invalid, and all others did not finish. What goes to the set is cut to two digits.
  pub record IsVerdict (p q : Participant F) : Type 0 where
    pub judged :
        (p.validity ≡ valid)
          × (0 < p.totals.max_hits)
          × (p.totals.current_max_hits ≡ p.totals.max_hits)
          × (q.validity ≡ valid)
          × (q.accuracy ≡ p.accuracy)
          × (q.set_total ≡ Verdict.add_to_set p.set_total p.accuracy)
        ⊎ (p.validity ≡ invalid)
          × (q.validity ≡ invalid)
          × (q.accuracy ≡ p.accuracy)
          × (q.set_total ≡ Verdict.add_to_set p.set_total (fl.of_u64 0))
        ⊎ ((p.validity ≢ valid)
            ⊎ (p.totals.max_hits ≡ 0)
            ⊎ (p.totals.current_max_hits ≢ p.totals.max_hits))
          × (p.validity ≢ invalid)
          × (q.validity ≡ dnf)
          × (q.accuracy ≡ fl.of_u64 0)
          × (q.set_total ≡ Verdict.add_to_set p.set_total (fl.of_u64 0))
    pub explained : (q.validity ≢ dnf) ⊎ (q.invalid_reason ≢ none)
    pub kept : (q.session_id ≡ p.session_id) × (q.totals ≡ p.totals) × (q.role ≡ p.role)

  finished-IsVerdict : (p : Participant F) → IsVerdict p (finished p)
  unfolding finished
  finished-IsVerdict p = record {
    judged = by_validity p.validity refl;
    explained = ground arith;
    kept = (ground arith, ground arith, ground arith);
  }
    where
      by_validity :
          (v : Model.RunValidity)
          → p.validity ≡ v
          → (p.validity ≡ valid)
              × (0 < p.totals.max_hits)
              × (p.totals.current_max_hits ≡ p.totals.max_hits)
              × ((finished p).validity ≡ valid)
              × ((finished p).accuracy ≡ p.accuracy)
              × ((finished p).set_total ≡ Verdict.add_to_set p.set_total p.accuracy)
            ⊎ (p.validity ≡ invalid)
              × ((finished p).validity ≡ invalid)
              × ((finished p).accuracy ≡ p.accuracy)
              × ((finished p).set_total ≡ Verdict.add_to_set p.set_total (fl.of_u64 0))
            ⊎ ((p.validity ≢ valid)
                ⊎ (p.totals.max_hits ≡ 0)
                ⊎ (p.totals.current_max_hits ≢ p.totals.max_hits))
              × (p.validity ≢ invalid)
              × ((finished p).validity ≡ dnf)
              × ((finished p).accuracy ≡ fl.of_u64 0)
              × ((finished p).set_total ≡ Verdict.add_to_set p.set_total (fl.of_u64 0))
      by_validity v e = ground (arith, e)

  -- The room `s` after the end of a run of `p` has been recorded; a later end of any run of the session is
  -- accepted and changes nothing.
  pub record IsRecorded (id : Text) (p : Participant F) (r s : Room F) (later : ℕ) (again : Text)
      : Type 0 where
    pub found : player_of id r ≡ some p
    pub racing : is_competitor p ≡ true
    pub started : contains r.started_runs id ≡ true
    pub first : contains r.finalized_runs id ≡ false
    pub finalized : contains s.finalized_runs id ≡ true
    pub judged : Participant F
    pub verdict : (player_of id s ≡ some judged) × IsVerdict p judged
    pub ends :
        (all (λ q. not (is_competitor q) || contains s.finalized_runs q.session_id) s.participants
          ≡ false)
        ⊎ (s.lifecycle ≡ Model.results)
        ⊎ (s.lifecycle ≡ Model.set_complete)
    pub once : finish_run later id again s ≡ (s, ok tt)

  -- The room stays as it is: with an error, or as the session has finished before or has another attempt.
  pub record IsIgnored (id run : Text) (r : Room F) (out : Room F × Result Unit) : Type 0 where
    pub same : out.0 ≡ r
    pub why :
        (is_ok out.1 ≡ false)
        ⊎ (contains r.finalized_runs id ≡ true)
        ⊎ (Verdict.differs (lookup id r.active_run_ids) run ≡ true)

  finish_run_again :
      (now : ℕ) (id run : Text) (r : Room F) (p : Participant F)
      → player_of id r ≡ some p
      → is_competitor p ≡ true
      → contains r.finalized_runs id ≡ true
      → finish_run now id run r ≡ (r, ok tt)
  unfolding finish_run
  finish_run_again now id run r p found racing done = ground arith

  record Finished (id : Text) (p : Participant F) (out : Room F × Result Unit) : Type 0 where
    result : out.1 ≡ ok tt
    finalized : contains out.0.finalized_runs id ≡ true
    verdict : player_of id out.0 ≡ some (finished p)
    ends :
        (all
            (λ q. not (is_competitor q) || contains out.0.finalized_runs q.session_id)
            out.0.participants
          ≡ false)
        ⊎ (out.0.lifecycle ≡ Model.results)
        ⊎ (out.0.lifecycle ≡ Model.set_complete)

  record_finish-Finished :
      (now : ℕ) (id : Text) (r : Room F) (p : Participant F)
      → player_of id r ≡ some p
      → is_competitor p ≡ true
      → Finished id p (record_finish now id r)
  unfolding record_finish participant_mut try_finish_chart player_of
  record_finish-Finished now id r p found racing = record {
    result = ground arith;
    finalized = ground (arith, contains-insert id id r.finalized_runs, text_eq_iff id id);
    verdict = ground (arith, find-update_first id finished r.participants session-finished);
    ends = ground (
      arith,
      find-update_first id finished r.participants session-finished,
      any_of_found (has_id id) is_competitor (update_first id finished r.participants) (finished p),
      competitor-finished p,
    );
  }

  Finished-IsRecorded :
      (now later : ℕ) (id again : Text) (r : Room F) (p : Participant F)
      (out : Room F × Result Unit)
      → player_of id r ≡ some p
      → is_competitor p ≡ true
      → contains r.finalized_runs id ≡ false
      → contains r.started_runs id ≡ true
      → Finished id p out
      → IsRecorded id p r out.0 later again
  Finished-IsRecorded now later id again r p out found racing open' started v = record {
    found = found;
    racing = racing;
    started = started;
    first = open';
    finalized = v.finalized;
    judged = finished p;
    verdict = (v.verdict, finished-IsVerdict p);
    ends = v.ends;
    once =
        finish_run_again later id again out.0 (finished p) v.verdict
          (ground (arith, competitor-finished p, racing)) v.finalized;
  }

  -- What the end of a run does: it is ignored, or accepted and recorded.
  abbrev pub Ended : Text → Text → Room F → Room F × Result Unit → ℕ → Text → Type 0
  Ended id run r out later again =
      IsIgnored id run r out
      ⊎ (p : Participant F) × (out.1 ≡ ok tt) × IsRecorded id p r out.0 later again

  finish_run-none :
      (now : ℕ) (id run : Text) (r : Room F)
      → player_of id r ≡ none
      → IsIgnored id run r (finish_run now id run r)
  unfolding finish_run
  finish_run-none now id run r absent = record {
    same = ground (arith, absent);
    why = ground (arith, absent);
  }

  finish_run-some :
      (now later : ℕ) (id run again : Text) (r : Room F) (p : Participant F) (a b c d e : Bool)
      → player_of id r ≡ some p
      → is_competitor p ≡ a
      → contains r.finalized_runs id ≡ b
      → Race.is_run_id run ≡ c
      → Verdict.differs (lookup id r.active_run_ids) run ≡ d
      → contains r.started_runs id ≡ e
      → Ended id run r (finish_run now id run r) later again
  unfolding finish_run
  finish_run-some now later id run again r p false b c d e found h1 h2 h3 h4 h5 =
      inl (record { same = ground (arith, found, h1); why = ground (arith, found, h1) })
  finish_run-some now later id run again r p true true c d e found h1 h2 h3 h4 h5 =
      inl (record { same = ground (arith, found, h1, h2); why = inr (inl h2) })
  finish_run-some now later id run again r p true false false d e found h1 h2 h3 h4 h5 =
      inl (record {
        same = ground (arith, found, h1, h2, h3);
        why = ground (arith, found, h1, h2, h3);
      })
  finish_run-some now later id run again r p true false true true e found h1 h2 h3 h4 h5 =
      inl (record { same = ground (arith, found, h1, h2, h3, h4); why = inr (inr h4) })
  finish_run-some now later id run again r p true false true false false found h1 h2 h3 h4 h5 =
      inl (record {
        same = ground (arith, found, h1, h2, h3, h4, h5);
        why = ground (arith, found, h1, h2, h3, h4, h5);
      })
  finish_run-some now later id run again r p true false true false true found h1 h2 h3 h4 h5 =
      let v = record_finish-Finished now id r p found h1 in
      let same : finish_run now id run r ≡ record_finish now id r =
        ground (arith, found, h1, h2, h3, h4, h5) in
      inr (
        p,
        rw same v.result,
        rw same
            (Finished-IsRecorded now later id again r p (record_finish now id r) found h1 h2 h5 v),
      )

  -- The end of a run fails, or is ignored as the session has finished before or has another active attempt,
  -- and then the room is as it was; or it is accepted. Then it was a started competitor's first: the session
  -- is finalized, its first participant has the verdict, a later end of any of its runs is accepted and
  -- changes nothing, and if now every competitor is finalized the chart has its results.
  pub finish_run-Ended :
      (now later : ℕ) (id run again : Text) (r : Room F)
      → Ended id run r (finish_run now id run r) later again
  finish_run-Ended now later id run again r = by_player (player_of id r) refl
    where
      by_player :
          (o : Option (Participant F))
          → player_of id r ≡ o
          → Ended id run r (finish_run now id run r) later again
      by_player none e = inl (finish_run-none now id run r e)
      by_player (some p) e =
          finish_run-some now later id run again r p (is_competitor p)
            (contains r.finalized_runs id) (Race.is_run_id run)
            (Verdict.differs (lookup id r.active_run_ids) run) (contains r.started_runs id) e refl
            refl refl refl refl
