-- ===== src/Renderer/Calls.antt =====
-- companion/src/renderer.rs: the public methods of `RendererManager` that change its state, as calls,
-- and histories of them. Each call carries its arguments, and what the clock and the disk answer in it.
use beatblock_online.Base.{ℕ, Option, List, [], ◌∷◌, Text}
use beatblock_online.Float.{Float}
use beatblock_online.Render.{RenderSample}
use beatblock_online.Renderer.State.{Single, Manager, RenderTap, RenderScoreState, GameplayState}
use beatblock_online.Renderer.Buffers
use beatblock_online.Renderer.Slots
use beatblock_online.Renderer.Slots.{RendererRequest, Disk}
use beatblock_online.Renderer.Stop
use beatblock_online.Renderer.Align

pub data Call (F : Type 0) : Type 0 where
  push_sample : Text → RenderSample → (received_at_us : ℕ) → Call F
  push_render_anchor : Text → (first_note_beat input_offset_ms : ℕ) → Call F
  push_tap : Text → RenderTap → Call F
  push_score_state : Text → RenderScoreState → Call F
  push_player_state : Text → GameplayState F → Call F
  configure : Disk → Text → RendererRequest → Call F
  set_error : Text → (message : Text) → Call F
  stop_autoplay : (error : Option Text) → Call F
  stop_slot stop_participant : (ring_error : Option Text) → Text → Call F
  stop_all : (ring_error : Option Text) → Call F
  begin_run : Call F
  write_aligned_inputs : (now_us : ℕ) → Call F

module _ {F : Type 0} ⦃fl : Float F⦄ ⦃sg : Single⦄ where
  abbrev pub after : Call F → Manager F → Manager F
  after (push_sample id sample now) m = Buffers.push_sample_at id sample now m
  after (push_render_anchor id beat offset) m = Buffers.push_render_anchor id beat offset m
  after (push_tap id tap) m = Buffers.push_tap id tap m
  after (push_score_state id state) m = Buffers.push_score_state id state m
  after (push_player_state id state) m = Buffers.push_player_state id state m
  after (configure disk id q) m = (Slots.configure disk id q m).0
  after (set_error id message) m = Stop.set_error id message m
  after (stop_autoplay error) m = Stop.stop_autoplay error m
  after (stop_slot ring id) m = Stop.stop_slot ring id m
  after (stop_participant ring id) m = Stop.stop_participant ring id m
  after (stop_all ring) m = Stop.stop_all ring m
  after begin_run m = Stop.begin_run m
  after (write_aligned_inputs now) m = Align.write_aligned_inputs now m

  unfoldable pub after_all : List (Call F) → Manager F → Manager F
  after_all [] m = m
  after_all (c ∷ cs) m = after_all cs (after c m)
