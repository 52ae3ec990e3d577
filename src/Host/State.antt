-- ===== src/Host/State.antt =====
-- companion/src/app_state.rs: the fields of `AppState` that the host's side changes, its actions, and
-- what the clock, the storage, the network and the serialization answer in one event.
use beatblock_online.Base.{ℕ, Bool, Option, none, some, List, ◌∷◌, Text, if◌then◌else◌}
use beatblock_online.Model.{RoomSnapshot, ChartLock}
use beatblock_online.Room.State.{Room, RoomError, Exec}
use beatblock_online.Room.State
use beatblock_online.Renderer.State.{Manager, Table}
use beatblock_online.Storage.{Storage}
use beatblock_online.Broadcast.{BroadcastPlan}
use beatblock_online.Network.Transfer.{ChartTransferHeader, TransferError}
use beatblock_online.Host.Message.{MirrorStatus}

-- `f64`, as the messages carry it.
pub record Double (F : Type 0) : Type 0 where
  pub is_finite : F → Bool
  -- `(0.0..=100.0).contains(&x)`
  pub is_percentage : F → Bool
  -- `x as f32`, by its bits
  pub narrow : F → ℕ

-- What leaves the state: the calls of the network hub and the tasks that are spawned, and the events
-- that the subscribers in the process see.
pub data Effect : Type 0 where
  peer_disconnected : (session_id : Text) → (allow_resume : Bool) → Effect
  removal_sent revocation_sent plan_sent : Text → Effect
  event_published : (kind : Text) → Effect
  room_published room_sent plan_published policy_relaxed start_sent renderers_relaunched : Effect
  host_started host_stopped : Effect
  tap_relayed anchor_relayed keyframe_relayed : (subscriber participant_id : Text) → Effect
  sample_relayed : (subscribers : List Text) → (participant_id : Text) → Effect
  build_started : (session_id : Text) → ChartLock → (path : Text) → Effect
  offer_sent : (session_id : Text) → ChartTransferHeader → Effect
  transfer_started : (session_id : Text) → ChartTransferHeader → (path : Text) → Effect
  file_removed : (path : Text) → Effect

pub record Host (F : Type 0) : Type 0 where
  pub room : Room F
  pub renderer : Manager F
  pub storage : Storage
  pub broadcast_plan : BroadcastPlan
  pub broadcast_revision : ℕ
  pub commentator_subscribers : List Text
  pub commentator_statuses : Table MirrorStatus
  pub pending_transfer_offers : Table (Text × ChartTransferHeader)
  pub active_transfer_builds : List Text
  pub selected_chart_path : Option Text
  pub chart_paths : Table Text
  pub local_session_id : Option Text
  pub room_dirty : Bool
  pub sent : List Effect

-- One constructor for each text that the handlers `bail!` with.
pub data HostError : Type 0 where
  room_error : RoomError → HostError
  transfer_error : TransferError → HostError
  bad_message forbidden_message not_in_roster awaiting_admission : HostError
  missing_field bad_keyframe storage_failed backlog_full not_delivered : HostError
  no_participant join_first no_spectator_chart already_verified no_chart : HostError
  stale_request transfers_disabled : HostError
  no_chart_path offer_active build_active queue_full : HostError
  no_offer other_offer unconfirmed not_commentator bad_status : HostError
  unknown_slot host_role build_locked not_prepared : HostError
  no_session bad_room_name unknown_build not_started not_published : HostError

pub data Answer (A : Type 0) : Type 0 where
  returned : A → Answer A
  bailed : HostError → Answer A

-- The readings of the clock, in the order in which an event takes them, whether a save of the room and a
-- delivery succeed, and the texts that are made.
pub record World (F : Type 0) : Type 0 where
  pub now : ℕ
  pub now_rejected : ℕ
  pub now_synced : ℕ
  pub now_planned : ℕ
  pub saved : Bool
  pub delivered : Bool
  pub envelope_json : Option Text
  pub room_json : RoomSnapshot F → Text
  pub error_text : HostError → Text
  pub event_size : ℕ
  pub sha256 : Text → List ℕ

abbrev pub of_result : {A : Type 0} → State.Result A → Answer A
of_result (State.ok a) = returned a
of_result (State.err e) = bailed (room_error e)

abbrev pub Act : Type 0 → Type 0 → Type 0
Act F A = Host F → Host F × Answer A

module _ {F : Type 0} where
  abbrev pub continue : {A B : Type 0} → Host F × Answer A → (A → Act F B) → Host F × Answer B
  continue (h, returned a) f = f a h
  continue (h, bailed e) f = (h, bailed e)

  infixl 5 ◌>>=◌ ◌>>◌
  abbrev pub ◌>>=◌ : {A B : Type 0} → Act F A → (A → Act F B) → Act F B
  ◌>>=◌ m f h = continue (m h) f

  abbrev pub ◌>>◌ : {A B : Type 0} → Act F A → Act F B → Act F B
  ◌>>◌ m k h = continue (m h) (λ _. k)

  abbrev pub pure : {A : Type 0} → A → Act F A
  pure a h = (h, returned a)

  abbrev pub bail : {A : Type 0} → HostError → Act F A
  bail e h = (h, bailed e)

  abbrev pub bail_if : Bool → HostError → Act F (Unit {0})
  bail_if b e h = (h, if b then bailed e else returned tt)

  -- `if b { m }`
  abbrev pub when : Bool → Act F (Unit {0}) → Act F (Unit {0})
  when b m h = if b then m h else (h, returned tt)

  -- `option.context(e)?`
  abbrev pub or_bail : {A : Type 0} → Option A → HostError → Act F A
  or_bail none e h = (h, bailed e)
  or_bail (some a) e h = (h, returned a)

  abbrev pub gets : {A : Type 0} → (Host F → A) → Act F A
  gets f h = (h, returned (f h))

  abbrev pub modify : (Host F → Host F) → Act F (Unit {0})
  modify f h = (f h, returned tt)

  abbrev pub emit : Effect → Act F (Unit {0})
  emit e = modify (λ h. record h { sent = e ∷ h.sent })

  abbrev pub render : (Manager F → Manager F) → Act F (Unit {0})
  render f = modify (λ h. record h { renderer = f h.renderer })

  -- A method of the room, with `?`.
  abbrev pub in_room : {A : Type 0} → Exec F A → Act F A
  in_room m h = (record h { room = (m h.room).0 }, of_result (m h.room).1)

  -- A method of the room that cannot fail.
  abbrev pub on_room : (Room F → Room F) → Act F (Unit {0})
  on_room f = modify (λ h. record h { room = f h.room })
