-- ===== src/Host/Control.antt =====
-- companion/src/app_state.rs: the state messages of peers in `handle_network_event`, and
-- `prepare_chart_transfer_offer` from the archive on. Packing an archive, and sending it, are tasks; the
-- removal of an archive that is not offered in the end is left out.
use beatblock_online.Base.{
  ℕ, Bool, true, false, not, ◌&&◌, Option, none, some, List, [], ◌∷◌, ◌++◌, any, take, leb, length,
  is_some, contains, insert, remove, lookup, put, delete, Text, text, text_eq, if◌then◌else◌,
}
use beatblock_online.Float.{Float}
use beatblock_online.Model.{ChartLock}
use beatblock_online.Room.Race
use beatblock_online.Network.Transfer.{ChartTransferHeader, TransferError, header_error}
use beatblock_online.Host.Message.{Envelope, Kind, MirrorStatus}
use beatblock_online.Host.State
use beatblock_online.Host.State.{
  Host, HostError, World, Effect, Act, ◌>>=◌, ◌>>◌, gets, modify, when, or_bail, bail_if, pure,
  emit, in_room,
}
use beatblock_online.Host.Chart.{transferable_chart_for_participant}
use beatblock_online.Host.Publish.{is_commentator}
use beatblock_online.Host.Telemetry.{unwrap_or}

abbrev pub max_queued_transfer_builds : ℕ
max_queued_transfer_builds = 4

abbrev pub with_error : Option Text → MirrorStatus → MirrorStatus
with_error error s = record s { error = error }

abbrev pub shortened : ℕ → Option Text → Option Text
shortened limit none = none
shortened limit (some t) = some (take limit t)

module _ {F : Type 0} ⦃fl : Float F⦄ where
  unfoldable pub handle_ready : World F → Text → Envelope F → Act F Bool
  unfolding Race.set_ready
  handle_ready w id e = do
    is_ready ← or_bail (e.payload.bool_at (text "ready")) State.missing_field
    in_room (Race.set_ready w.now id is_ready)
    pure true

  unfoldable pub handle_chart_status : World F → Text → Envelope F → Act F Bool
  unfolding Race.set_verified
  handle_chart_status w id e = do
    verified ← or_bail (e.payload.bool_at (text "verified")) State.missing_field
    in_room
        (Race.set_verified w.now id verified (shortened 512 (e.payload.text_at (text "reason"))))
    pure true

module _ {F : Type 0} where
  unfoldable pub queue_build : Text → ChartLock → Text → Act F Unit
  queue_build id chart path = do
    builds ← gets (λ h. h.active_transfer_builds)
    bail_if (contains builds id) State.build_active
    bail_if (leb max_queued_transfer_builds (length builds)) State.queue_full
    modify (λ h. record h { active_transfer_builds = insert id h.active_transfer_builds })
    emit (Effect.build_started id chart path)

  unfoldable pub handle_transfer_request : Text → Envelope F → Act F Bool
  unfolding transferable_chart_for_participant queue_build
  handle_transfer_request id e = do
    hash ← or_bail (e.payload.text_at (text "chartHash")) State.missing_field
    chart ← transferable_chart_for_participant id hash
    selected ← gets (λ h. h.selected_chart_path)
    path ← or_bail selected State.no_chart_path
    offers ← gets (λ h. h.pending_transfer_offers)
    bail_if (is_some (lookup id offers)) State.offer_active
    queue_build id chart path
    pure false

  unfoldable pub handle_transfer_decision : Text → Envelope F → Act F Bool
  handle_transfer_decision id e = do
    accept ← pure (unwrap_or (e.payload.bool_at (text "accept")) false)
    request_id ← or_bail (e.payload.text_at (text "requestId")) State.missing_field
    offers ← gets (λ h. h.pending_transfer_offers)
    offer ← or_bail (lookup id offers) State.no_offer
    bail_if (not (text_eq offer.1.request_id request_id)) State.other_offer
    bail_if
        (accept
          && offer.1.contains_executable_content
          && not (unwrap_or (e.payload.bool_at (text "executableContentConfirmed")) false))
        State.unconfirmed
    modify (λ h. record h { pending_transfer_offers = delete id h.pending_transfer_offers })
    emit
        (if accept then Effect.transfer_started id offer.1 offer.0 else Effect.file_removed offer.0)
    pure false

  unfoldable pub handle_subscribe : World F → Text → Envelope F → Act F Bool
  handle_subscribe w id e = do
    enabled ← pure (unwrap_or (e.payload.bool_at (text "enabled")) false)
    room ← gets (λ h. h.room)
    bail_if
        (enabled && not (any (λ p. text_eq p.session_id id && is_commentator p) room.participants))
        State.not_commentator
    modify (λ h. record h {
      commentator_subscribers =
          if enabled
          then insert id h.commentator_subscribers
          else remove id h.commentator_subscribers;
    })
    when enabled (emit (Effect.plan_sent id))
    bail_if (enabled && not w.delivered) State.not_delivered
    pure false

  unfoldable pub handle_mirror_status : Text → Envelope F → Act F Bool
  handle_mirror_status id e = do
    room ← gets (λ h. h.room)
    bail_if (not (any (λ p. text_eq p.session_id id && p.commentator_access) room.participants))
        State.not_commentator
    status ← or_bail e.payload.mirror_status State.bad_status
    modify (λ h. record h {
      commentator_statuses =
          put id (with_error (shortened 160 status.error) status) h.commentator_statuses;
    })
    pure false

module _ {F : Type 0} ⦃fl : Float F⦄ where
  -- The handlers of the state messages: whether the room has changed.
  unfoldable pub handle_state : World F → Text → Envelope F → Kind → Act F Bool
  unfolding handle_ready handle_chart_status handle_transfer_request handle_transfer_decision
      handle_subscribe handle_mirror_status
  handle_state w id e Kind.client_ready = handle_ready w id e
  handle_state w id e Kind.chart_status = handle_chart_status w id e
  handle_state w id e Kind.transfer_request = handle_transfer_request id e
  handle_state w id e Kind.transfer_decision = handle_transfer_decision id e
  handle_state w id e Kind.subscribe = handle_subscribe w id e
  handle_state w id e Kind.mirror_status = handle_mirror_status id e
  handle_state w id e _ = pure false

-- What the packing of an archive yields.
pub record Package : Type 0 where
  pub path : Text
  pub header : ChartTransferHeader

abbrev pub header_failure : Option TransferError → Option HostError
header_failure none = none
header_failure (some e) = some (State.transfer_error e)

-- The event that a failed task publishes.
abbrev pub failure_event : {A : Type 0} → State.Answer A → List Effect
failure_event (State.returned a) = []
failure_event (State.bailed e) = Effect.event_published (text "chart.transfer_failed") ∷ []

module _ {F : Type 0} where
  abbrev pub bail_with : Option HostError → Act F Unit
  bail_with none h = (h, State.returned tt)
  bail_with (some e) h = (h, State.bailed e)

  -- `prepare_chart_transfer_offer`, behind the packing of the archive for the chart
  unfoldable pub offer_package : World F → Text → ChartLock → Option Package → Act F Unit
  unfolding transferable_chart_for_participant header_error
  offer_package w id chart packed = do
    p ← or_bail packed State.not_prepared
    transferable_chart_for_participant id chart.hash
    bail_with (header_failure (header_error p.header))
    modify (λ h. record h {
      pending_transfer_offers = put id (p.path, p.header) h.pending_transfer_offers;
    })
    emit (Effect.offer_sent id p.header)
    when (not w.delivered)
        (modify (λ h. record h { pending_transfer_offers = delete id h.pending_transfer_offers }))
    bail_if (not w.delivered) State.not_delivered

  abbrev pub without_build : Text → Host F × State.Answer Unit → Host F × State.Answer Unit
  without_build id (h, answer) = (
    record h {
      active_transfer_builds = remove id h.active_transfer_builds;
      sent = failure_event answer ++ h.sent;
    },
    answer,
  )

  -- The end of the task that a request has spawned.
  unfoldable pub finish_build : World F → Text → ChartLock → Option Package → Act F Unit
  unfolding offer_package
  finish_build w id chart packed h = without_build id (offer_package w id chart packed h)
