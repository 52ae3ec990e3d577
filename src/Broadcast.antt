-- ===== src/Broadcast.antt =====
-- companion/src/model.rs: `RendererSlot` and `BroadcastPlan`, the configuration of the renderers
-- that the host distributes. SHA-256 is a parameter.
pub mod Clock
use Prim.Native.Nat.{max}
use beatblock_online.Base.{
  ℕ, zero, suc, take, ◌+◌, ◌==◌, ◌&&◌, Bool, true, false, Option, none, some, List, [], ◌∷◌, map,
  find, Text, text, from_le_bytes, if◌then◌else◌,
}
use beatblock_online.Float.{Float}

pub data RendererMode : Type 0 where
  full clean : RendererMode

pub record AudioIsolationState : Type 0 where
  pub status : Text
  pub muted : Bool
  pub error : Option Text

pub record RendererSlot (F : Type 0) : Type 0 where
  pub id : Text
  pub participant_id : Option Text
  pub participant_name : Option Text
  pub mode : RendererMode
  pub participant_appearance : Bool
  pub width : ℕ
  pub height : ℕ
  pub fps : ℕ
  pub actual_fps : F
  pub delay_ms : ℕ
  pub featured : Bool
  pub active : Bool
  pub frame_sequence : ℕ
  pub dropped_frames : ℕ
  pub healthy : Bool
  pub last_frame_at_ms : Option ℕ
  pub last_error : Option Text
  pub audio_isolation : Option AudioIsolationState

pub record BroadcastSlotPlan : Type 0 where
  pub id : Text
  pub participant_id : Option Text
  pub participant_name : Option Text
  pub render_source_id : Option ℕ
  pub mode : RendererMode
  pub width : ℕ
  pub height : ℕ
  pub fps : ℕ
  pub delay_ms : ℕ
  pub featured : Bool
  pub active : Bool

pub record BroadcastPlan : Type 0 where
  pub revision : ℕ
  pub updated_at_ms : ℕ
  pub slots : List BroadcastSlotPlan
  pub autoplay_audio_enabled : Option Bool
  pub autoplay_clock_slot : Option Text

abbrev pub max_render_streams : ℕ
max_render_streams = 4

-- The slots of `BroadcastPlan::empty`, from the one at `index` on; `b'A' + index as u8` is its id.
abbrev pub empty_slot : ℕ → BroadcastSlotPlan
empty_slot index = record {
  id = (65 + index) ∷ [];
  participant_id = none;
  participant_name = none;
  render_source_id = none;
  mode = full;
  width = 1280;
  height = 720;
  fps = 60;
  delay_ms = 500;
  featured = index == 0;
  active = false;
}

unfoldable pub empty_slots : ℕ → ℕ → List BroadcastSlotPlan
empty_slots index zero = []
empty_slots index (suc left) = empty_slot index ∷ empty_slots (suc index) left

-- `BroadcastPlan::empty`
unfoldable pub empty_plan : BroadcastPlan
unfolding empty_slots
empty_plan = record {
  revision = 0;
  updated_at_ms = 0;
  slots = empty_slots 0 max_render_streams;
  autoplay_audio_enabled = none;
  autoplay_clock_slot = none;
}

module _ {F : Type 0} ⦃fl : Float F⦄ where
  -- `RendererSlot::defaults`
  unfoldable pub slot_defaults : Text → Bool → RendererSlot F
  slot_defaults id featured = record {
    id = id;
    participant_id = none;
    participant_name = none;
    mode = full;
    participant_appearance = false;
    width = 1280;
    height = 720;
    fps = 60;
    actual_fps = fl.of_u64 0;
    delay_ms = 500;
    featured = featured;
    active = false;
    frame_sequence = 0;
    dropped_frames = 0;
    healthy = false;
    last_frame_at_ms = none;
    last_error = none;
    audio_isolation = none;
  }

module _ (sha256 : Text → List ℕ) where
  -- `render_source_id`
  unfoldable pub render_source_id : Text → ℕ
  render_source_id session_id = max (from_le_bytes (take 4 (sha256 session_id))) 1

  abbrev pub source_of : Option Text → Option ℕ
  source_of none = none
  source_of (some id) = some (render_source_id id)

  module _ {F : Type 0} where
    unfoldable pub slot_plan : RendererSlot F → BroadcastSlotPlan
    unfolding render_source_id
    slot_plan slot = record {
      id = slot.id;
      participant_id = slot.participant_id;
      participant_name = slot.participant_name;
      render_source_id = source_of slot.participant_id;
      mode = slot.mode;
      width = slot.width;
      height = slot.height;
      fps = slot.fps;
      delay_ms = slot.delay_ms;
      featured = slot.featured;
      active = slot.active;
    }

    abbrev pub id_of : Option (RendererSlot F) → Option Text
    id_of none = none
    id_of (some slot) = some slot.id

    -- `BroadcastPlan::from_slots`
    unfoldable pub from_slots : ℕ → ℕ → List (RendererSlot F) → Bool → BroadcastPlan
    unfolding slot_plan
    from_slots revision updated_at_ms slots autoplay_audio_enabled = record {
      revision = revision;
      updated_at_ms = updated_at_ms;
      slots = map slot_plan slots;
      autoplay_audio_enabled = if autoplay_audio_enabled then some true else none;
      autoplay_clock_slot =
          id_of (if autoplay_audio_enabled then find (λ s. s.active && s.featured) slots else none);
    }
