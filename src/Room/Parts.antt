-- ===== src/Room/Parts.antt =====
-- companion/src/room.rs: the private methods and functions that the operations of the room share.
use beatblock_online.Base.{
  ℕ, ◌+◌, Bool, true, not, ◌&&◌, ◌||◌, Option, none, some, List, [], ◌∷◌, Text, if◌then◌else◌, leb,
  length, all, any, find, count_if, modify_at, text_eq, is_empty, contains, is_some,
}
use beatblock_online.Model.{
  Participant, ParticipantRole, player, spectator, host, chart_locked, ready, results, set_complete,
  pending, SetlistEntry, max_players, max_spectators, is_spectator, is_racing, in_race, before_race,
}
use beatblock_online.Room.State.{
  Room, Exec, RoomError, bail_if, or_bail, set_lifecycle, set_participants, players_full,
  spectators_full, unknown_session, setlist_locked,
}

abbrev pub completed_entry : SetlistEntry → SetlistEntry
completed_entry e = record e { completed = true }

abbrev pub limit_of : ParticipantRole → ℕ
limit_of spectator = max_spectators
limit_of _ = max_players

abbrev pub full_error : ParticipantRole → RoomError
full_error spectator = spectators_full
full_error _ = players_full

unfoldable pub normalized_role : ParticipantRole → ParticipantRole
normalized_role host = player
normalized_role role = role

module _ {F : Type 0} where
  abbrev pub has_id : Text → Participant F → Bool
  has_id id p = text_eq p.session_id id

  -- `player`: the first participant with the session id
  unfoldable pub player_of : Text → Room F → Option (Participant F)
  player_of id r = find (has_id id) r.participants

  -- `participant_mut`, in two parts: the participant it finds, and a write through the reference
  unfoldable pub participant_mut : Text → Exec F (Participant F)
  unfolding player_of
  participant_mut id r = or_bail (player_of id r) unknown_session r

  -- The first participant with the session id is replaced.
  unfoldable pub update_first :
      Text → (Participant F → Participant F) → List (Participant F) → List (Participant F)
  update_first id f [] = []
  update_first id f (p ∷ ps) = if has_id id p then f p ∷ ps else p ∷ update_first id f ps

  abbrev pub update_participant : Text → (Participant F → Participant F) → Room F → Room F
  update_participant id f r = set_participants (update_first id f r.participants) r

  unfoldable pub is_competitor : Participant F → Bool
  is_competitor p = p.admitted && is_racing p.role

  abbrev pub is_assigned : Participant F → Bool
  is_assigned p = p.admitted && p.connected && is_racing p.role

  -- The assigned participants are there and all of them are ready and verified.
  unfoldable pub all_assigned_ready : Room F → Bool
  all_assigned_ready r =
      any is_assigned r.participants
      && all (λ p. not (is_assigned p) || (p.ready && p.verified)) r.participants

  unfoldable pub refresh_ready_lifecycle : Room F → Room F
  refresh_ready_lifecycle r =
      if is_some r.chart && before_race r.lifecycle
      then set_lifecycle (if all_assigned_ready r then ready else chart_locked) r
      else r

  -- The lifecycle and the setlist after a chart that everybody has finished.
  finish_setlist : Option ℕ → Room F → Room F
  finish_setlist none r = set_lifecycle results r
  finish_setlist (some i) r =
      let done = record r {
        snapshot = record r.snapshot { setlist = modify_at completed_entry i r.setlist };
      } in
      if leb (length done.setlist) (i + 1) && not (is_empty done.setlist)
      then set_lifecycle set_complete done
      else set_lifecycle results done

  unfoldable pub try_finish_chart : Room F → Room F
  unfolding finish_setlist is_competitor
  try_finish_chart r =
      if any is_competitor r.participants
        && all (λ p. not (is_competitor p) || contains r.finalized_runs p.session_id) r.participants
      then finish_setlist r.current_setlist_index
          (record r { snapshot = record r.snapshot { scheduled_start_time_ms = none } })
      else r

  unfoldable pub require_setlist_editable : Exec F Unit
  require_setlist_editable r = bail_if (in_race r.lifecycle) setlist_locked r

  -- The participants other than `id` that a role is counted with.
  unfoldable pub same_side : ParticipantRole → Participant F → Bool
  same_side spectator p = is_spectator p.role
  same_side _ p = is_racing p.role

  unfoldable pub require_role_capacity : Text → ParticipantRole → Exec F Unit
  unfolding same_side
  require_role_capacity id role r =
      bail_if
        (leb (limit_of role) (count_if (λ p. not (has_id id p) && same_side role p) r.participants))
        (full_error role) r

  unfoldable pub unlocked_participant : Participant F → Participant F
  unlocked_participant p = record p {
    ready = is_spectator p.role;
    verified = is_spectator p.role;
    validity = pending;
    invalid_reason = none;
  }
