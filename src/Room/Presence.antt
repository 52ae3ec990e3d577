-- ===== src/Room/Presence.antt =====
-- companion/src/room.rs: joining, leaving, the grace period after a lost connection, closing.
-- `now` is what `unix_ms()` returns during the call.
use beatblock_online.Base.{
  ℕ, Bool, Option, true, false, not, ◌&&◌, ◌||◌, none, some, List, [], ◌∷◌, ◌++◌, Text, map,
  if◌then◌else◌, ltb, leb, length, any, count_if, retain, trim, is_empty, eq_ignore_ascii_case,
  insert, put, saturating_add,
}
use beatblock_online.Float.{Float}
use beatblock_online.Model.{
  Participant, ParticipantRole, AdmissionMode, password_only, host_approval, RoomLifecycle, closed,
  pending, invalid, dnf, no_totals, max_players, max_spectators, is_spectator, is_racing, in_race,
  before_race, disconnected,
}
use beatblock_online.Room.State.{
  Room, Exec, ◌>>=◌, ◌>>◌, pure, bail_if, gets, modify, set_participants, touch, room_is_closed,
  already_connected, race_in_progress, bad_display_name, username_taken, players_full,
  spectators_full,
}
use beatblock_online.Room.Parts.{player_of, update_participant, is_competitor, normalized_role}
use beatblock_online.Room.Rank.{concluded}
use beatblock_online.Room.Roster.{forget_deadline, forget_runs, drop_participant, refreshed}

abbrev pub is_password_only : AdmissionMode → Bool
is_password_only password_only = true
is_password_only host_approval = false

abbrev pub is_closed : RoomLifecycle → Bool
is_closed closed = true
is_closed _ = false

module _ {F : Type 0} where
  -- The writes of `disconnect_at`.
  abbrev pub gone : Participant F → Participant F
  gone p = record p { connected = false; ready = false }

  unfoldable pub disconnect_at : ℕ → Text → ℕ → Room F → Room F
  disconnect_at now id now_ms r = elim (player_of id r) [
    | none ↦ r
    | some p ↦
        let left = update_participant id gone r in
        refreshed now (record left {
          disconnect_deadlines = put id (saturating_add now_ms 30000) r.disconnect_deadlines;
        })
  ]

  -- `disconnect`
  unfoldable pub disconnect : ℕ → Text → Room F → Room F
  unfolding disconnect_at
  disconnect now id r = disconnect_at now id now r

  unfoldable pub close : ℕ → Room F → Room F
  close now r = touch now (record r {
    snapshot = record r.snapshot { lifecycle = closed; scheduled_start_time_ms = none };
    disconnect_deadlines = [];
  })

module _ {F : Type 0} ⦃fl : Float F⦄ where
  -- The participant that `host` and `request_join_with_id` push.
  abbrev pub new_participant : Text → Text → ParticipantRole → Bool → Participant F
  new_participant id name role admitted = record {
    session_id = id;
    display_name = name;
    role = role;
    admitted = admitted;
    connected = true;
    ready = false;
    verified = false;
    progress = fl.of_u64 0;
    accuracy = fl.of_u64 100;
    rank = none;
    set_total = fl.of_u64 0;
    totals = no_totals;
    validity = pending;
    invalid_reason = none;
    last_sequence = none;
    commentator_access = false;
  }

  -- A session that is on the roster resumes; the branch of a new one is `join_new`.
  unfoldable pub join_new : ℕ → Text → Text → ParticipantRole → Exec F Text
  join_new now id name requested = do
    lifecycle ← gets (λ r. r.lifecycle)
    bail_if (in_race lifecycle) race_in_progress
    let normalized = trim name
    bail_if (is_empty normalized || ltb 48 (length normalized)) bad_display_name
    participants ← gets (λ r. r.participants)
    bail_if (any (λ p. eq_ignore_ascii_case p.display_name normalized) participants) username_taken
    let role = normalized_role requested
    bail_if (is_racing role && leb max_players (count_if (λ p. is_racing p.role) participants))
        players_full
    bail_if
        (is_spectator role && leb max_spectators (count_if (λ p. is_spectator p.role) participants))
        spectators_full
    mode ← gets (λ r. r.admission_mode)
    modify (λ r.
        set_participants
          (r.participants ++ new_participant id normalized role (is_password_only mode) ∷ []) r)
    modify (touch now)
    pure id

  -- The writes of a resumed session.
  abbrev pub resumed : Participant F → Participant F
  resumed p = record p { connected = true; ready = false }

  resume : ℕ → Text → Participant F → Exec F Text
  resume now id p = do
    bail_if p.connected already_connected
    modify (update_participant id resumed)
    modify (touch now)
    pure id

  join_or_resume : ℕ → Text → Text → ParticipantRole → Option (Participant F) → Exec F Text
  unfolding resume
  join_or_resume now id name requested none = join_new now id name requested
  join_or_resume now id name requested (some p) = resume now id p

  unfoldable pub request_join_with_id : ℕ → Text → Text → ParticipantRole → Exec F Text
  unfolding join_or_resume
  request_join_with_id now id name requested = do
    modify (forget_deadline id)
    lifecycle ← gets (λ r. r.lifecycle)
    bail_if (is_closed lifecycle) room_is_closed
    found ← gets (player_of id)
    join_or_resume now id name requested found

  -- A run whose verdict stands keeps it; another becomes DNF.
  unfoldable pub disconnected_racer : Participant F → Participant F
  disconnected_racer p = elim p.validity [
    | invalid ↦ p
    | dnf ↦ p
    | _ ↦ record p { validity = dnf; accuracy = fl.of_u64 0; invalid_reason = some disconnected }
  ]

  unfoldable pub expire_run : ℕ → Text → Room F → Room F
  expire_run now id r =
      let ended = update_participant id disconnected_racer r in
      concluded now (record ended { finalized_runs = insert id ended.finalized_runs })

  unfoldable pub expire_disconnect : ℕ → Text → Room F → Room F × Bool
  unfolding expire_run forget_runs drop_participant
  expire_disconnect now id r0 =
      let r = forget_deadline id r0 in
      elim (player_of id r) [
        | none ↦ (r, false)
        | some p ↦
            if in_race r.lifecycle && is_competitor p && not p.connected
            then (expire_run now id r, true)
            else if before_race r.lifecycle && not p.connected
            then (refreshed now (forget_runs id (drop_participant id r)), true)
            else (r, false)
      ]

  -- The loop over the sessions that are due, in the order of the map's iteration.
  unfoldable pub expire_each : ℕ → List Text → Room F → Room F × List Text
  unfolding expire_disconnect
  expire_each now [] r = (r, [])
  expire_each now (id ∷ ids) r =
      let (r', expired) = expire_disconnect now id r in
      let (r'', rest) = expire_each now ids r' in (r'', if expired then id ∷ rest else rest)

  unfoldable pub expire_due_disconnects : ℕ → ℕ → Room F → Room F × List Text
  unfolding expire_each
  expire_due_disconnects now now_ms r =
      expire_each now (map (λ d. d.0) (retain (λ d. leb d.1 now_ms) r.disconnect_deadlines)) r
