-- ===== src/Room/Freeze.antt =====
-- The configuration of a race, which nothing changes while the race runs.
use beatblock_online.Base.{
  ℕ, zero, suc, Bool, true, false, ◌≡◌, refl, ◌∙◌, arith, Text, Option, none, some, List, [], ◌∷◌,
  map, modify_at, insert, delete, retain, leb,
}
use beatblock_online.Float.{Float}
use beatblock_online.Model.{
  Participant, ChartLock, SetlistEntry, RoomModifiers, ScoreTotals, in_race,
}
use beatblock_online.Room.State.{Room, RoomError, modify, touch, set_participants}
use beatblock_online.Room.Keeps.{Keeps, Keeps-modify, Keeps-pure, Keeps-bail_if, keeps_rules}
use beatblock_online.Room.Parts.{
  participant_mut, require_role_capacity, require_setlist_editable, refresh_ready_lifecycle,
  try_finish_chart, completed_entry, update_participant,
}
use beatblock_online.Room.Rank.{rank, concluded}
use beatblock_online.Room.Roster
use beatblock_online.Room.Policy
use beatblock_online.Room.Presence
use beatblock_online.Room.Setlist
use beatblock_online.Room.Race
use beatblock_online.Room.Score
use beatblock_online.Room.Score.{ScorePayload}
use beatblock_online.Room.Verdict
use beatblock_online.Room.Commands
use beatblock_online.Room.Commands.{Command, step}

pub record RaceConfig (F : Type 0) : Type 0 where
  pub chart : Option ChartLock
  pub active : Option ℕ
  pub entries : List (Text × ChartLock)
  pub modifiers : RoomModifiers F
  pub validity_checks : Bool
  pub same_build : Bool

abbrev pub entry : SetlistEntry → Text × ChartLock
entry e = (e.id, e.chart)

module _ {F : Type 0} where
  abbrev pub config : Room F → RaceConfig F
  config r = record {
    chart = r.chart;
    active = r.current_setlist_index;
    entries = map entry r.setlist;
    modifiers = r.modifiers;
    validity_checks = r.validity_checks_enabled;
    same_build = r.require_same_game_build;
  }

entries-completed :
    (i : ℕ) (es : List SetlistEntry) → map entry (modify_at completed_entry i es) ≡ map entry es
entries-completed i [] = refl
entries-completed zero (e ∷ es) = refl
entries-completed (suc i) (e ∷ es) = ground (arith, entries-completed i es)

module _ {F : Type 0} where
  config-try_finish_chart : (r : Room F) → config (try_finish_chart r) ≡ config r
  unfolding try_finish_chart
  config-try_finish_chart r = config_cases r.current_setlist_index refl
    where
      config_cases :
          (o : Option ℕ) → r.current_setlist_index ≡ o → config (try_finish_chart r) ≡ config r
      config_cases none e = ground arith
      config_cases (some i) e = ground (arith, entries-completed i r.setlist)

  config-refresh : (r : Room F) → config (refresh_ready_lifecycle r) ≡ config r
  unfolding refresh_ready_lifecycle
  config-refresh r = ground arith

module _ {F : Type 0} ⦃fl : Float F⦄ (now : ℕ) where
  config-concluded : (r : Room F) → config (concluded now r) ≡ config r
  unfolding concluded rank
  config-concluded r = config-try_finish_chart (rank r)

  config-expire_disconnect :
      (id : Text) (r : Room F) → config (Presence.expire_disconnect now id r).0 ≡ config r
  unfolding Presence.expire_disconnect refresh_ready_lifecycle Presence.expire_run
  config-expire_disconnect id r =
      let r' = record r { disconnect_deadlines = delete id r.disconnect_deadlines } in
      let ended = update_participant id Presence.disconnected_racer r' in
      ground
        (arith, config-concluded (record ended { finalized_runs = insert id ended.finalized_runs }))

  config-expire_each :
      (ids : List Text) (r : Room F) → config (Presence.expire_each now ids r).0 ≡ config r
  unfolding Presence.expire_each
  config-expire_each [] r = refl
  config-expire_each (id ∷ ids) r =
      config-expire_each ids (Presence.expire_disconnect now id r).0 ∙ config-expire_disconnect id r

  config-expire_unstarted_runs :
      (r : Room F) → config (Race.expire_unstarted_runs now r).0 ≡ config r
  unfolding Race.expire_unstarted_runs
  config-expire_unstarted_runs r =
      let (ps, finalized, _) =
        Race.expire_loop r.started_runs r.participants r.finalized_runs false in
      ground
        (arith, config-concluded (set_participants ps (record r { finalized_runs = finalized })))

  config-start_run :
      (id run : Text) (n : ℕ) (r : Room F) → config (Race.start_run now id run n r).0 ≡ config r
  unfolding Race.start_run participant_mut
  config-start_run id run n r = ground arith

module _ {F : Type 0} ⦃fl : Float F⦄ (now : ℕ) (k : RaceConfig F) where
  abbrev pub Configured : Room F → Type 0
  Configured r = config r ≡ k

  config-modify :
      (f : Room F → Room F) → ((r : Room F) → config (f r) ≡ config r) → Keeps Configured (modify f)
  config-modify f same = Keeps-modify f (λ r h. same r ∙ h)

  participant_mut-Keeps : (id : Text) → Keeps Configured (participant_mut {F = F} id)
  unfolding participant_mut
  participant_mut-Keeps id = record { at = λ r h. ground arith }

  or_error-Keeps : (o : Option RoomError) → Keeps Configured (Score.or_error o)
  or_error-Keeps none = Keeps-pure tt
  or_error-Keeps (some e) = Keeps-bail_if true e

  update-Keeps :
      (id : Text) (f : Participant F → Participant F)
      → Keeps Configured (modify (update_participant id f))
  update-Keeps id f = config-modify _ (λ r. refl)

  rank-Keeps : Keeps Configured (modify rank)
  unfolding rank
  rank-Keeps = config-modify rank (λ r. refl)

  try_finish-Keeps : Keeps Configured (modify try_finish_chart)
  try_finish-Keeps = config-modify try_finish_chart config-try_finish_chart

  mark_playing-Keeps : Keeps Configured (modify (Race.mark_playing now))
  unfolding Race.mark_playing
  mark_playing-Keeps = config-modify (Race.mark_playing now) (λ r. ground arith)

  touch-Keeps : Keeps Configured (modify (touch now))
  touch-Keeps = config-modify (touch now) (λ r. refl)

  started-Keeps :
      (id : Text)
      → Keeps Configured (modify (λ r. record r { started_runs = insert id r.started_runs }))
  started-Keeps id = config-modify _ (λ r. refl)

  start_run-Keeps : (id run : Text) (n : ℕ) → Keeps Configured (Race.start_run now id run n)
  start_run-Keeps id run n = record { at = λ r h. config-start_run now id run n r ∙ h }

  ruleset configured_rules = (
    keeps_rules, participant_mut-Keeps, or_error-Keeps, update-Keeps, rank-Keeps, try_finish-Keeps,
    mark_playing-Keeps, touch-Keeps, started-Keeps, start_run-Keeps,
  )

  record_score-Keeps :
      (id : Text) (sequence expected : ℕ) (t : ScoreTotals) (x : Option F) (p : Participant F)
      → Keeps Configured (Score.record_score now id sequence expected t x p)
  unfolding Score.record_score
  record_score-Keeps id sequence expected t x p = search configured_rules depth 12

  ingest_score-Keeps :
      (id run : Text) (sequence : ℕ) (payload : ScorePayload F)
      → Keeps Configured (Score.ingest_score now id run sequence payload)
  unfolding Score.ingest_score
  ingest_score-Keeps id run sequence payload =
      search (configured_rules, record_score-Keeps) depth 14

  record_invalidation-Keeps :
      (id run why : Text) (b : Bool)
      → Keeps Configured (Verdict.record_invalidation now id run why b)
  unfolding Verdict.record_invalidation
  record_invalidation-Keeps id run why b = search configured_rules depth 12

  invalidate-Keeps :
      (id run why : Text) (b : Bool) → Keeps Configured (Verdict.invalidate now id run why b)
  unfolding Verdict.invalidate
  invalidate-Keeps id run why b = search (configured_rules, record_invalidation-Keeps) depth 14

  record_finish-Keeps : (id : Text) → Keeps Configured (Verdict.record_finish now id)
  unfolding Verdict.record_finish
  record_finish-Keeps id = search configured_rules depth 12

  finish_run-Keeps : (id run : Text) → Keeps Configured (Verdict.finish_run now id run)
  unfolding Verdict.finish_run
  finish_run-Keeps id run = search (configured_rules, record_finish-Keeps) depth 14

module _ {F : Type 0} ⦃fl : Float F⦄ where
  -- While the room counts down or plays, no operation changes the chart, the active entry, the
  -- entries and their charts, the modifiers, the integrity policy or the build policy.
  pub step-config :
      (now : ℕ) (c : Command F) (r : Room F)
      → in_race r.lifecycle ≡ true
      → config (step now c r) ≡ config r
  unfolding Presence.request_join_with_id Presence.join_new Roster.admit Roster.set_role
      Roster.set_host_participating Roster.set_commentator_access Roster.kick
      Policy.set_validity_checks Policy.set_same_game_build_required
      Policy.set_auto_request_chart_transfers Policy.set_modifiers Presence.disconnect
      Presence.close Presence.expire_due_disconnects Setlist.remove_setlist Setlist.move_setlist
      Setlist.advance_setlist Setlist.lock_chart Race.set_verified Race.set_ready
      Race.schedule_start Race.expire_due_unstarted_runs Race.mark_playing Verdict.reject_run_event
      rank participant_mut require_role_capacity require_setlist_editable refresh_ready_lifecycle
  step-config now (Commands.expire_disconnect id) r h = config-expire_disconnect now id r
  step-config now (Commands.expire_due_disconnects t) r h =
      config-expire_each now (map (λ d. d.0) (retain (λ d. leb d.1 t) r.disconnect_deadlines)) r
  step-config now (Commands.expire_due_unstarted_runs t) r h =
      ground (arith, config-expire_unstarted_runs now r)
  step-config now (Commands.expire_unstarted_runs) r h = config-expire_unstarted_runs now r
  step-config now (Commands.start_run id run n) r h = config-start_run now id run n r
  step-config now (Commands.ingest_score id run n payload) r h =
      (ingest_score-Keeps now (config r) id run n payload).at r refl
  step-config now (Commands.invalidate id run why b) r h =
      (invalidate-Keeps now (config r) id run why b).at r refl
  step-config now (Commands.finish_run id run) r h =
      (finish_run-Keeps now (config r) id run).at r refl
  step-config now _ r h = ground arith
