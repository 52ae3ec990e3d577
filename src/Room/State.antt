-- ===== src/Room/State.antt =====
-- companion/src/room.rs: the fields of `RoomEngine`, and its methods as actions. A method takes the
-- room, and returns the room as it leaves it with its `Result`: an error that comes after a write
-- keeps the write.
use beatblock_online.Base.{ℕ, Bool, true, false, Option, List, Text, if◌then◌else◌}
use beatblock_online.Model
use beatblock_online.Model.{RoomSnapshot}

pub record Room (F : Type 0) : Type 0 where
  pub snapshot : RoomSnapshot F
  pub open snapshot use *
  pub finalized_runs : List Text
  pub started_runs : List Text
  pub active_run_ids : List (Text × Text)
  pub retired_run_ids : List (Text × List Text)
  pub disconnect_deadlines : List (Text × ℕ)

-- One constructor for each text that the methods `bail!` with.
pub data RoomError : Type 0 where
  room_is_closed already_connected race_in_progress bad_display_name username_taken : RoomError
  players_full spectators_full admission_locked unknown_session roles_locked : RoomError
  participation_locked validity_locked build_locked modifiers_locked : RoomError
  bad_rate rate_step auto_request_locked transfers_disabled : RoomError
  host_owns_broadcast not_admitted_spectator host_kick not_found racer_locked : RoomError
  setlist_locked index_out_of_range active_completed reorder_locked : RoomError
  not_after_results setlist_inactive no_next_chart chart_locked_in_race bad_chart_hash : RoomError
  verification_locked ready_locked unverified_ready : RoomError
  cannot_start chart_missing nobody_assigned not_all_ready : RoomError
  starts_closed no_locked_chart note_count_mismatch bad_run_id stale_attempt : RoomError
  not_a_competitor chart_unverified not_playing bad_payload : RoomError
  counter_bounds moved_backwards invalidations_closed bad_reason run_not_started : RoomError

pub data Result (A : Type 0) : Type 0 where
  ok : A → Result A
  err : RoomError → Result A

abbrev pub is_ok : {A : Type 0} → Result A → Bool
is_ok (ok a) = true
is_ok (err e) = false

abbrev pub Exec : Type 0 → Type 0 → Type 0
Exec F A = Room F → Room F × Result A

module _ {F : Type 0} where
  abbrev pub continue : {A B : Type 0} → Room F × Result A → (A → Exec F B) → Room F × Result B
  continue (r, ok a) f = f a r
  continue (r, err e) f = (r, err e)

  infixl 5 ◌>>=◌ ◌>>◌
  abbrev pub ◌>>=◌ : {A B : Type 0} → Exec F A → (A → Exec F B) → Exec F B
  ◌>>=◌ m f r = continue (m r) f

  abbrev pub ◌>>◌ : {A B : Type 0} → Exec F A → Exec F B → Exec F B
  ◌>>◌ m k r = continue (m r) (λ _. k)

  abbrev pub pure : {A : Type 0} → A → Exec F A
  pure a r = (r, ok a)

  abbrev pub bail_if : Bool → RoomError → Exec F (Unit {0})
  bail_if b e r = (r, if b then err e else ok tt)

  -- `if b { m } else { k }`
  abbrev pub branch : {A : Type 0} → Bool → Exec F A → Exec F A → Exec F A
  branch b m k r = if b then m r else k r

  -- `option.context(e)?`
  abbrev pub or_bail : {A : Type 0} → Option A → RoomError → Exec F A
  or_bail Option.none e r = (r, err e)
  or_bail (Option.some a) e r = (r, ok a)

  abbrev pub gets : {A : Type 0} → (Room F → A) → Exec F A
  gets f r = (r, ok (f r))

  abbrev pub modify : (Room F → Room F) → Exec F (Unit {0})
  modify f r = (f r, ok tt)

  -- A method that cannot fail.
  abbrev pub after : {A : Type 0} → Exec F A → Room F → Room F
  after m r = (m r).0

  -- Writes to fields of the snapshot.
  abbrev pub set_lifecycle : Model.RoomLifecycle → Room F → Room F
  set_lifecycle l r = record r { snapshot = record r.snapshot { lifecycle = l } }

  abbrev pub set_participants : List (Model.Participant F) → Room F → Room F
  set_participants ps r = record r { snapshot = record r.snapshot { participants = ps } }

  -- `self.touch()`, at the time `now`
  abbrev pub touch : ℕ → Room F → Room F
  touch now r = record r { snapshot = record r.snapshot { updated_at_ms = now } }
