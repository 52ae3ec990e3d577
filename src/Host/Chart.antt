-- ===== src/Host/Chart.antt =====
-- companion/src/app_state.rs: who may be sent the locked chart.
use beatblock_online.Base.{Bool, true, false, not, ◌||◌, Option, Text, text_eq, find}
use beatblock_online.Model.{
  Participant, ChartLock, ChartTransferMode, verify_only, host_transfer, is_spectator,
}
use beatblock_online.Room.State.{Room}
use beatblock_online.Host.State.{
  Act, ◌>>=◌, ◌>>◌, gets, or_bail, bail_if, pure, no_participant, join_first, no_spectator_chart,
  already_verified, no_chart, stale_request, transfers_disabled, not_in_roster, awaiting_admission,
}

abbrev pub is_host_transfer : ChartTransferMode → Bool
is_host_transfer verify_only = false
is_host_transfer host_transfer = true

module _ {F : Type 0} where
  abbrev pub in_roster : Text → Room F → Option (Participant F)
  in_roster session_id r = find (λ p. text_eq p.session_id session_id) r.participants

  -- `transferable_chart_for_participant`
  unfoldable pub transferable_chart_for_participant : Text → Text → Act F ChartLock
  transferable_chart_for_participant session_id requested_hash = do
    room ← gets (λ h. h.room)
    p ← or_bail (in_roster session_id room) no_participant
    bail_if (not p.admitted || not p.connected) join_first
    bail_if (is_spectator p.role) no_spectator_chart
    bail_if p.verified already_verified
    chart ← or_bail room.chart no_chart
    bail_if (not (text_eq chart.hash requested_hash)) stale_request
    bail_if
        (not room.allow_chart_transfers
          || chart.official
          || not (is_host_transfer chart.transfer_mode))
        transfers_disabled
    pure chart

  -- `require_admitted_peer`
  unfoldable pub require_admitted_peer : Text → Act F Unit
  require_admitted_peer session_id = do
    room ← gets (λ h. h.room)
    p ← or_bail (in_roster session_id room) not_in_roster
    bail_if (not p.admitted || not p.connected) awaiting_admission
