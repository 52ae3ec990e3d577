-- ===== src/Room/Roster.antt =====
-- companion/src/room.rs: the operations of the host on the roster. `now` is what `unix_ms()` returns
-- during the call.
use beatblock_online.Base.{
  ℕ, Bool, false, not, ◌&&◌, ◌||◌, some, Text, if◌then◌else◌, ◌==◌, length, retain, text_eq, remove,
  delete,
}
use beatblock_online.Model.{
  Participant, ParticipantRole, spectator, host, is_spectator, in_race, before_race, join_rejected,
}
use beatblock_online.Room.State.{
  Room, Exec, ◌>>=◌, ◌>>◌, pure, bail_if, branch, or_bail, gets, modify, set_participants, touch,
  admission_locked, roles_locked, participation_locked, host_owns_broadcast, not_admitted_spectator,
  host_kick, not_found, racer_locked,
}
use beatblock_online.Room.Parts.{
  has_id, player_of, participant_mut, update_participant, refresh_ready_lifecycle,
  require_role_capacity, normalized_role,
}

module _ {F : Type 0} where
  abbrev pub forget_deadline : Text → Room F → Room F
  forget_deadline id r = record r { disconnect_deadlines = delete id r.disconnect_deadlines }

  -- The removals that `kick` and `expire_disconnect` make with a participant.
  unfoldable pub forget_runs : Text → Room F → Room F
  forget_runs id r = record r {
    active_run_ids = delete id r.active_run_ids;
    retired_run_ids = delete id r.retired_run_ids;
    started_runs = remove id r.started_runs;
    finalized_runs = remove id r.finalized_runs;
  }

  unfoldable pub drop_participant : Text → Room F → Room F
  drop_participant id r = set_participants (retain (λ p. not (has_id id p)) r.participants) r

  -- Every operation on the roster ends with these two calls.
  abbrev pub refreshed : ℕ → Room F → Room F
  refreshed now r = touch now (refresh_ready_lifecycle r)

  -- The writes of `admit`.
  abbrev pub judged : Bool → ParticipantRole → Participant F → Participant F
  judged accept role p = record p {
    admitted = accept;
    connected = accept;
    role = role;
    commentator_access =
        if not accept || not (is_spectator role) then false else p.commentator_access;
    invalid_reason = if accept then p.invalid_reason else some join_rejected;
  }

  unfoldable pub admit : ℕ → Text → Bool → ParticipantRole → Exec F Unit
  admit now id accept requested = do
    lifecycle ← gets (λ r. r.lifecycle)
    bail_if (accept && in_race lifecycle) admission_locked
    let role = normalized_role requested
    branch accept (require_role_capacity id role) (pure tt)
    participant_mut id
    modify (update_participant id (judged accept role))
    modify (refreshed now)

  -- The writes of `set_role`.
  abbrev pub moved_to : ParticipantRole → Participant F → Participant F
  moved_to role p = record p {
    role = role;
    ready = is_spectator role;
    verified = is_spectator role;
    commentator_access = if is_spectator role then p.commentator_access else false;
  }

  unfoldable pub set_role : ℕ → Text → ParticipantRole → Exec F Unit
  set_role now id requested = do
    lifecycle ← gets (λ r. r.lifecycle)
    bail_if (in_race lifecycle) roles_locked
    let role = normalized_role requested
    require_role_capacity id role
    participant_mut id
    modify (update_participant id (moved_to role))
    modify (refreshed now)

  -- The writes of `set_host_participating`.
  abbrev pub hosting : ParticipantRole → Bool → Participant F → Participant F
  hosting role participating p = record p {
    role = role;
    ready = not participating;
    verified = not participating;
    commentator_access = false;
  }

  unfoldable pub set_host_participating : ℕ → Bool → Exec F Unit
  set_host_participating now participating = do
    lifecycle ← gets (λ r. r.lifecycle)
    bail_if (not (before_race lifecycle)) participation_locked
    host_id ← gets (λ r. r.host_session_id)
    let role : ParticipantRole = if participating then host else spectator
    require_role_capacity host_id role
    participant_mut host_id
    modify (update_participant host_id (hosting role participating))
    modify (refreshed now)

  -- The write of `set_commentator_access`.
  abbrev pub commenting : Bool → Participant F → Participant F
  commenting enabled p = record p { commentator_access = enabled }

  unfoldable pub set_commentator_access : ℕ → Text → Bool → Exec F Unit
  set_commentator_access now id enabled = do
    host_id ← gets (λ r. r.host_session_id)
    bail_if (text_eq id host_id) host_owns_broadcast
    p ← participant_mut id
    bail_if (not p.admitted || not (is_spectator p.role)) not_admitted_spectator
    modify (update_participant id (commenting enabled))
    modify (touch now)

  unfoldable pub kick : ℕ → Text → Exec F Unit
  unfolding forget_runs drop_participant
  kick now id = do
    host_id ← gets (λ r. r.host_session_id)
    bail_if (text_eq id host_id) host_kick
    found ← gets (player_of id)
    p ← or_bail found not_found
    lifecycle ← gets (λ r. r.lifecycle)
    bail_if (p.admitted && in_race lifecycle) racer_locked
    before ← gets (λ r. length r.participants)
    modify (forget_deadline id)
    modify (forget_runs id)
    modify (drop_participant id)
    left ← gets (λ r. length r.participants)
    bail_if (before == left) not_found
    modify (refreshed now)
