-- ===== src/Host/Telemetry.antt =====
-- companion/src/app_state.rs: `ingest_render_event` and the relay of samples.
use beatblock_online.Base.{
  ℕ, Bool, true, false, not, ◌&&◌, ◌||◌, Option, none, some, List, ◌∷◌, ◌++◌, map, any, is_empty,
  Text, text, if◌then◌else◌,
}
use beatblock_online.Float.{Float}
use beatblock_online.Room.Score.{accuracy_of}
use beatblock_online.Broadcast.{BroadcastSlotPlan}
use beatblock_online.Renderer.State.{Single}
use beatblock_online.Renderer.Slots.{option_text_eq}
use beatblock_online.Renderer.Buffers
use beatblock_online.Host.Message.{Envelope, Kind, kind_of}
use beatblock_online.Host.State.{
  Double, Effect, Act, ◌>>=◌, ◌>>◌, modify, when, or_bail, bail_if, pure, render, missing_field,
  bad_keyframe, tap_relayed, anchor_relayed, keyframe_relayed, sample_relayed,
}

-- `unwrap_or`
abbrev pub unwrap_or : {A : Type 0} → Option A → A → A
unwrap_or none a = a
unwrap_or (some b) a = b

abbrev pub narrowed : {F : Type 0} ⦃db : Double F⦄ → Option F → Option ℕ
narrowed none = none
narrowed ⦃db⦄ (some x) = some (db.narrow x)

pub data Relay : Type 0 where
  tap anchor keyframe : Relay

abbrev pub is_anchor : Relay → Bool
is_anchor anchor = true
is_anchor _ = false

abbrev pub relayed_to : Relay → Text → Text → Effect
relayed_to tap id subscriber = tap_relayed subscriber id
relayed_to anchor id subscriber = anchor_relayed subscriber id
relayed_to keyframe id subscriber = keyframe_relayed subscriber id

-- `slot.active && slot.participant_id.as_deref() == Some(id)`, for any slot
abbrev pub is_assigned : Text → List BroadcastSlotPlan → Bool
is_assigned id slots = any (λ s. s.active && option_text_eq s.participant_id (some id)) slots

module _ {F : Type 0} ⦃fl : Float F⦄ ⦃sg : Single⦄ ⦃db : Double F⦄ where
  unfoldable pub ingest_tap : Text → Envelope F → Act F (Option Relay)
  unfolding Buffers.push_tap
  ingest_tap id e = do
    beat ← or_bail (narrowed (e.payload.number_at (text "beat"))) missing_field
    render (
        Buffers.push_tap id (record {
          sequence = e.sequence;
          beat = beat;
          judgement_beat = unwrap_or (narrowed (e.payload.number_at (text "judgementBeat"))) beat;
          pressed = unwrap_or (e.payload.bool_at (text "pressed")) false;
          released = unwrap_or (e.payload.bool_at (text "released")) false;
        }))
    pure (some tap)

  unfoldable pub ingest_anchor : Text → Envelope F → Act F (Option Relay)
  unfolding Buffers.push_render_anchor
  ingest_anchor id e = do
    beat ← or_bail (narrowed (e.payload.number_at (text "firstNoteBeat"))) missing_field
    render (
        Buffers.push_render_anchor id beat
          (db.narrow (unwrap_or (e.payload.number_at (text "inputOffsetMs")) (fl.of_u64 0))))
    pure (some anchor)

  unfoldable pub ingest_keyframe : Text → Envelope F → Act F (Option Relay)
  unfolding Buffers.push_score_state accuracy_of
  ingest_keyframe id e = do
    bail_if (not e.payload.has_totals) missing_field
    totals ← or_bail e.payload.totals bad_keyframe
    accuracy ← pure (unwrap_or (e.payload.number_at (text "accuracy")) (accuracy_of totals))
    offset ← pure (unwrap_or (e.payload.number_at (text "averageOffset")) (fl.of_u64 0))
    bail_if
        (not (db.is_finite accuracy)
          || not (db.is_percentage accuracy)
          || not (db.is_finite offset))
        bad_keyframe
    render (
        Buffers.push_score_state id (record {
          sequence = e.sequence;
          run_time_us = e.run_time_us;
          accuracy = db.narrow accuracy;
          average_offset = db.narrow offset;
          totals = totals;
          results = unwrap_or (e.payload.bool_at (text "results")) false;
        }))
    pure (some keyframe)

  unfoldable pub ingest_kind : Text → Envelope F → Kind → Act F (Option Relay)
  unfolding ingest_tap ingest_anchor ingest_keyframe
  ingest_kind id e Kind.input_tap = ingest_tap id e
  ingest_kind id e Kind.render_tap = ingest_tap id e
  ingest_kind id e Kind.render_anchor = ingest_anchor id e
  ingest_kind id e Kind.render_keyframe = ingest_keyframe id e
  ingest_kind id e _ = pure none

module _ {F : Type 0} where
  unfoldable pub relay_event : Text → Option Relay → Act F Unit
  relay_event id none = pure tt
  relay_event id (some r) = modify (λ h.
      if is_assigned id h.broadcast_plan.slots || is_anchor r
      then record h { sent = map (relayed_to r id) h.commentator_subscribers ++ h.sent }
      else h)

module _ {F : Type 0} ⦃fl : Float F⦄ ⦃sg : Single⦄ ⦃db : Double F⦄ where
  -- `ingest_render_event`
  unfoldable pub ingest_render_event : Text → Envelope F → Bool → Act F Unit
  unfolding ingest_kind kind_of relay_event
  ingest_render_event id e relay = do
    relayed ← ingest_kind id e (kind_of e.kind)
    when relay (relay_event id relayed)

module _ {F : Type 0} where
  unfoldable pub relay_sample : Text → Act F Unit
  relay_sample id = modify (λ h.
      if is_assigned id h.broadcast_plan.slots && not (is_empty h.commentator_subscribers)
      then record h { sent = sample_relayed h.commentator_subscribers id ∷ h.sent }
      else h)
