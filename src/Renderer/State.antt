-- ===== src/Renderer/State.antt =====
-- companion/src/renderer.rs: the fields of `RendererManager`. A memory map is the list of its bytes.
-- The child processes and the worker that mutes them are not part of the state.
use beatblock_online.Base.{
  ℕ, zero, suc, ◌+◌, Bool, false, Option, none, List, [], ◌∷◌, Text, text, find, reverse, ◌==◌,
}
use beatblock_online.Float.{Float}
use beatblock_online.Model.{ScoreTotals}
use beatblock_online.Render.{RenderSample}
use beatblock_online.Broadcast.{RendererSlot, AudioIsolationState, slot_defaults}

-- `f32` by its bits, with the comparisons of beats that the manager makes.
pub record Single : Type 0 where
  pub is_finite : ℕ → Bool
  pub nan : ℕ
  -- `beat + 0.0001 >= first_note_beat`
  pub reaches : ℕ → ℕ → Bool
  -- `event.beat < sample.beat - 0.05`
  pub is_past : ℕ → ℕ → Bool
  -- `event.beat > sample.beat + 0.001`
  pub is_ahead : ℕ → ℕ → Bool
  -- `event.beat + 0.05 >= sample.beat`
  pub is_current : ℕ → ℕ → Bool
  -- `(0.0..=100.0).contains(&accuracy)`
  pub is_percentage : ℕ → Bool

pub record BufferedRenderSample : Type 0 where
  pub sample : RenderSample
  pub received_at_us : ℕ

pub record RenderAnchor : Type 0 where
  pub first_note_beat : ℕ
  pub input_offset_ms : ℕ
  pub source_time_us : Option ℕ
  pub received_at_us : Option ℕ

pub record RenderTap : Type 0 where
  pub sequence : ℕ
  pub beat : ℕ
  pub judgement_beat : ℕ
  pub pressed : Bool
  pub released : Bool

pub record RenderScoreState : Type 0 where
  pub sequence : ℕ
  pub run_time_us : ℕ
  pub accuracy : ℕ
  pub average_offset : ℕ
  pub totals : ScoreTotals
  pub results : Bool

pub record SyncEpoch : Type 0 where
  pub participants : List Text
  pub release_at_us : ℕ
  pub released : Bool

pub record AutoplayAudioState : Type 0 where
  pub enabled : Bool
  pub healthy : Bool
  pub featured_slot : Option Text
  pub error : Option Text
  pub audio_isolation : Option AudioIsolationState

pub record GameplayState (F : Type 0) : Type 0 where
  pub state : Text
  pub player_name : Text
  pub song_name : Text
  pub lobby_name : Text
  pub accuracy : F
  pub combo : ℕ
  pub misses : ℕ
  pub rank : ℕ
  pub progress : F
  pub connected : Bool
  pub updated_at_ms : ℕ
  pub beat : F
  pub paddle_angle : F
  pub tap_mask : ℕ
  pub health : F

abbrev pub Table : Type 0 → Type 0
Table V = List (Text × V)

pub record Manager (F : Type 0) : Type 0 where
  pub slots : List (RendererSlot F)
  pub render_samples : Table (List BufferedRenderSample)
  pub render_anchors : Table RenderAnchor
  pub render_taps : Table (List RenderTap)
  pub render_scores : Table (List RenderScoreState)
  pub player_states : Table (List (GameplayState F))
  pub input_maps : Table (List ℕ)
  pub score_maps : Table (List ℕ)
  pub input_sequences : Table ℕ
  pub score_sequences : Table ℕ
  pub input_sources : Table Text
  pub tap_cursors : Table ℕ
  pub sample_cursors : Table ℕ
  pub score_cursors : Table ℕ
  pub awaiting_run_start : List Text
  pub sync_epoch : Option SyncEpoch
  pub frame_observations : Table (ℕ × ℕ × ℕ)
  pub autoplay : AutoplayAudioState

abbrev pub no_autoplay : Option Text → AutoplayAudioState
no_autoplay error = record {
  enabled = false;
  healthy = false;
  featured_slot = none;
  error = error;
  audio_isolation = none;
}

abbrev pub autoplay_slot : Text
autoplay_slot = text "AUTOPLAY"

-- `iter().rev().find(..)`
abbrev pub find_last : {A : Type 0} → (A → Bool) → List A → Option A
find_last p xs = find p (reverse xs)

module _ {F : Type 0} ⦃fl : Float F⦄ where
  unfoldable pub new_slots : ℕ → ℕ → List (RendererSlot F)
  unfolding slot_defaults
  new_slots index zero = []
  new_slots index (suc left) =
      slot_defaults ((65 + index) ∷ []) (index == 0) ∷ new_slots (suc index) left

  -- `RendererManager::new`
  unfoldable pub new_manager : Manager F
  unfolding new_slots
  new_manager = record {
    slots = new_slots 0 4;
    render_samples = [];
    render_anchors = [];
    render_taps = [];
    render_scores = [];
    player_states = [];
    input_maps = [];
    score_maps = [];
    input_sequences = [];
    score_sequences = [];
    input_sources = [];
    tap_cursors = [];
    sample_cursors = [];
    score_cursors = [];
    awaiting_run_start = [];
    sync_epoch = none;
    frame_observations = [];
    autoplay = no_autoplay none;
  }
