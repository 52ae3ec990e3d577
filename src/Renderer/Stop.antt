-- ===== src/Renderer/Stop.antt =====
-- companion/src/renderer.rs: what errors, stops and new runs write and forget. Ending a child process
-- changes nothing here.
use beatblock_online.Base.{
  ℕ, ◌+◌, ◌*◌, Bool, false, Option, none, some, List, [], ◌∷◌, map, if◌then◌else◌, ltb, Text,
  eq_ignore_ascii_case, delete, remove, find,
}
use beatblock_online.Float.{Float}
use beatblock_online.Broadcast.{RendererSlot}
use beatblock_online.Renderer.State.{Manager, Table, autoplay_slot, no_autoplay}
use beatblock_online.Renderer.Slots.{option_text_eq}

abbrev pub zeroed : Table (List ℕ) → Table (List ℕ)
zeroed maps = map (λ e. (e.0, map (λ _. 0) e.1)) maps

module _ {F : Type 0} ⦃fl : Float F⦄ where
  unfoldable pub update_slot :
      Text → (RendererSlot F → RendererSlot F) → List (RendererSlot F) → List (RendererSlot F)
  update_slot slot_id f [] = []
  update_slot slot_id f (s ∷ ss) =
      let rest = update_slot slot_id f ss in
      if eq_ignore_ascii_case s.id slot_id then f s ∷ ss else s ∷ rest

  abbrev pub failed_with : Text → RendererSlot F → RendererSlot F
  failed_with message s = record s { healthy = false; last_error = some message }

  -- `set_error`
  unfoldable pub set_error : Text → Text → Manager F → Manager F
  unfolding update_slot
  set_error slot_id message m = record m {
    slots = update_slot slot_id (failed_with message) m.slots;
  }

  -- The load of the active slots, of which `budget_warning` warns.
  unfoldable pub pixels_per_second : List (RendererSlot F) → ℕ
  pixels_per_second [] = 0
  pixels_per_second (s ∷ ss) =
      (if s.active then s.width * s.height * s.fps else 0) + pixels_per_second ss

  unfoldable pub over_budget : Manager F → Bool
  unfolding pixels_per_second
  over_budget m = ltb (4 * 1280 * 720 * 60) (pixels_per_second m.slots)

  -- `stop_autoplay`
  unfoldable pub stop_autoplay : Option Text → Manager F → Manager F
  stop_autoplay error m = record m {
    input_maps = delete autoplay_slot m.input_maps;
    awaiting_run_start = remove autoplay_slot m.awaiting_run_start;
    input_sources = delete autoplay_slot m.input_sources;
    tap_cursors = delete autoplay_slot m.tap_cursors;
    sample_cursors = delete autoplay_slot m.sample_cursors;
    autoplay = no_autoplay error;
    sync_epoch = none;
  }

  abbrev pub stopped : RendererSlot F → RendererSlot F
  stopped s = record s {
    participant_id = none;
    participant_name = none;
    active = false;
    healthy = false;
    frame_sequence = 0;
    dropped_frames = 0;
    actual_fps = fl.of_u64 0;
    last_frame_at_ms = none;
    last_error = none;
  }

  abbrev pub forget_slot : Text → Manager F → Manager F
  forget_slot id m = record m {
    frame_observations = delete id m.frame_observations;
    input_sources = delete id m.input_sources;
    tap_cursors = delete id m.tap_cursors;
    sample_cursors = delete id m.sample_cursors;
    score_cursors = delete id m.score_cursors;
    awaiting_run_start = remove id m.awaiting_run_start;
    sync_epoch = none;
  }

  unfoldable pub report_ring : Option Text → Text → Manager F → Manager F
  unfolding set_error
  report_ring none id m = m
  report_ring (some message) id m = set_error id message m

  -- `stop_slot`. `ring_error` is the text of the error that the reset of the frame ring returns.
  unfoldable pub stop_slot : Option Text → Text → Manager F → Manager F
  unfolding update_slot report_ring
  stop_slot ring_error slot_id m = elim (find (λ s. eq_ignore_ascii_case s.id slot_id) m.slots) [
    | none ↦ m
    | some s ↦
        forget_slot s.id
          (report_ring ring_error s.id (record m { slots = update_slot slot_id stopped m.slots }))
  ]

  unfoldable pub stop_slots : Option Text → List Text → Manager F → Manager F
  unfolding stop_slot
  stop_slots ring_error [] m = m
  stop_slots ring_error (id ∷ ids) m = stop_slots ring_error ids (stop_slot ring_error id m)

  unfoldable pub slots_of : Text → List (RendererSlot F) → List Text
  unfolding option_text_eq
  slots_of id [] = []
  slots_of id (s ∷ ss) =
      let rest = slots_of id ss in
      if option_text_eq s.participant_id (some id) then s.id ∷ rest else rest

  -- `stop_participant`
  unfoldable pub stop_participant : Option Text → Text → Manager F → Manager F
  unfolding stop_slots slots_of
  stop_participant ring_error id m =
      let m' = stop_slots ring_error (slots_of id m.slots) m in
      record m' {
        render_samples = delete id m'.render_samples;
        render_anchors = delete id m'.render_anchors;
        render_taps = delete id m'.render_taps;
        render_scores = delete id m'.render_scores;
        player_states = delete id m'.player_states;
      }

  -- `begin_run`
  unfoldable pub begin_run : Manager F → Manager F
  begin_run m = record m {
    render_samples = [];
    render_anchors = [];
    render_taps = [];
    render_scores = [];
    tap_cursors = [];
    sample_cursors = [];
    score_cursors = [];
    input_sources = [];
    input_sequences = [];
    score_sequences = [];
    awaiting_run_start = [];
    input_maps = zeroed m.input_maps;
    score_maps = zeroed m.score_maps;
    sync_epoch = none;
  }

  -- `stop_all`
  unfoldable pub stop_all : Option Text → Manager F → Manager F
  unfolding stop_autoplay stop_slots
  stop_all ring_error m =
      let m' = stop_slots ring_error (map (λ s. s.id) m.slots) (stop_autoplay none m) in
      record m' {
        render_samples = [];
        render_anchors = [];
        render_taps = [];
        render_scores = [];
        player_states = [];
        input_maps = [];
        score_maps = [];
        input_sequences = [];
        score_sequences = [];
        input_sources = [];
        tap_cursors = [];
        sample_cursors = [];
        score_cursors = [];
        awaiting_run_start = [];
        sync_epoch = none;
        frame_observations = [];
      }
