-- ===== src/Host/Message.antt =====
-- companion/src/app_state.rs and model.rs: the messages of peers and their classes. A payload is JSON
-- that a library decodes: it is what the typed accessors return for a key.
use beatblock_online.Base.{
  ℕ, ◌*◌, Bool, true, false, not, ◌&&◌, Option, none, some, if◌then◌else◌, ltb, ◌==◌, is_empty,
  length, Text, text, text_eq,
}
use beatblock_online.Model.{ScoreTotals}
use beatblock_online.Room.Score.{ScorePayload}

-- `CommentatorMirrorStatus`
pub record MirrorStatus : Type 0 where
  pub enabled : Bool
  pub healthy_slots : ℕ
  pub error : Option Text
  pub updated_at_ms : ℕ

-- `payload.get(key).and_then(Value::as_..)`, the length of the serialized payload, and what the payload
-- or its `totals` decode to.
pub record Payload (F : Type 0) : Type 0 where
  pub text_at : Text → Option Text
  pub nat_at : Text → Option ℕ
  pub bool_at : Text → Option Bool
  pub number_at : Text → Option F
  pub size : ℕ
  pub has_totals : Bool
  pub totals : Option ScoreTotals
  pub score : ScorePayload F
  pub mirror_status : Option MirrorStatus

pub record Envelope (F : Type 0) : Type 0 where
  pub version : ℕ
  pub kind : Text
  pub sequence : ℕ
  pub run_time_us : ℕ
  pub run_id : Option Text
  pub payload : Payload F

-- The kinds that the host compares a message's kind with.
pub data Kind : Type 0 where
  run_started run_score_delta score_mutation run_invalid run_finished : Kind
  client_ready chart_status transfer_request transfer_decision subscribe mirror_status : Kind
  client_hello input_tap render_tap render_anchor render_keyframe unknown : Kind

unfoldable pub kind_of : Text → Kind
kind_of k =
    if text_eq k (text "run.started")
    then run_started
    else if text_eq k (text "run.score_delta")
    then run_score_delta
    else if text_eq k (text "score.mutation")
    then score_mutation
    else if text_eq k (text "run.invalid")
    then run_invalid
    else if text_eq k (text "run.finished")
    then run_finished
    else if text_eq k (text "client.ready")
    then client_ready
    else if text_eq k (text "chart.status")
    then chart_status
    else if text_eq k (text "chart.transfer_request")
    then transfer_request
    else if text_eq k (text "chart.transfer_decision")
    then transfer_decision
    else if text_eq k (text "broadcast.subscribe")
    then subscribe
    else if text_eq k (text "broadcast.mirror_status")
    then mirror_status
    else if text_eq k (text "client.hello")
    then client_hello
    else if text_eq k (text "input.tap")
    then input_tap
    else if text_eq k (text "render.tap")
    then render_tap
    else if text_eq k (text "render.anchor")
    then render_anchor
    else if text_eq k (text "render.keyframe")
    then render_keyframe
    else unknown

pub data PeerMessageClass : Type 0 where
  run state telemetry : PeerMessageClass

-- The class of a kind that peers may send, and the limit of its payload.
unfoldable pub class_of : Kind → Option (PeerMessageClass × ℕ)
class_of run_started = some (run, 16 * 1024)
class_of run_score_delta = some (run, 16 * 1024)
class_of score_mutation = some (run, 16 * 1024)
class_of run_invalid = some (run, 16 * 1024)
class_of run_finished = some (run, 16 * 1024)
class_of client_ready = some (state, 4 * 1024)
class_of chart_status = some (state, 4 * 1024)
class_of transfer_request = some (state, 4 * 1024)
class_of transfer_decision = some (state, 4 * 1024)
class_of subscribe = some (state, 4 * 1024)
class_of mirror_status = some (state, 4 * 1024)
class_of client_hello = some (telemetry, 8 * 1024)
class_of input_tap = some (telemetry, 8 * 1024)
class_of render_anchor = some (telemetry, 8 * 1024)
class_of render_keyframe = some (telemetry, 8 * 1024)
class_of render_tap = none
class_of unknown = none

abbrev pub is_run_invalid : Kind → Bool
is_run_invalid run_invalid = true
is_run_invalid _ = false

abbrev pub longer_than : ℕ → Option Text → Bool
longer_than limit none = false
longer_than limit (some t) = ltb limit (length t)

module _ {F : Type 0} where
  unfoldable pub within_limits :
      Envelope F → Option (PeerMessageClass × ℕ) → Option PeerMessageClass
  unfolding kind_of
  within_limits e none = none
  within_limits e (some (class, limit)) =
      if ltb limit e.payload.size
      then none
      else if is_run_invalid (kind_of e.kind) && longer_than 512 (e.payload.text_at (text "reason"))
      then none
      else some class

  -- `classify_peer_message`: the class, unless there is an error
  unfoldable pub classify_peer_message : Envelope F → Option PeerMessageClass
  unfolding within_limits class_of kind_of
  classify_peer_message e = within_limits e (class_of (kind_of e.kind))

  -- `validate`
  unfoldable pub is_message : Envelope F → Bool
  is_message e = e.version == 3 && not (is_empty e.kind)
