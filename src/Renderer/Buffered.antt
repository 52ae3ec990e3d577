-- ===== src/Renderer/Buffered.antt =====
-- Every call keeps the buffers in order and within their limits.
use beatblock_online.Base.{
  ℕ, ◌≤◌, ◌≡◌, refl, ◌∙◌, sym, ap, subst, Bool, not, ◌||◌, ◌&&◌, inl, inr, Bool-cases, Option, none,
  some, List, [], ◌∷◌, ◌++◌, length, Text, arith,
}
use beatblock_online.Float.{Float}
use beatblock_online.Broadcast.{RendererSlot}
use beatblock_online.Renderer.State.{
  Table, Manager, BufferedRenderSample, RenderTap, RenderScoreState, GameplayState, Single,
  new_manager,
}
use beatblock_online.Renderer.Buffers.{
  trim_front, push_sample_in, push_tap_in, push_score_in, push_state_in, buffer_of,
  max_render_samples, max_render_taps, max_render_scores, max_player_states,
}
use beatblock_online.Renderer.Buffers
use beatblock_online.Renderer.Slots
use beatblock_online.Renderer.Stop
use beatblock_online.Renderer.Frame.{kept-aligned}
use beatblock_online.Renderer.Calls
use beatblock_online.Renderer.Calls.{Call, after, after_all}
use beatblock_online.Renderer.Bounds.{
  IsOrdered, IsSetOf, sequence_of, AllOf, AllOf-put, AllOf-delete, AllOf-buffer_of,
  push_sample-IsOrdered, push_score-IsOrdered, push_tap-IsSetOf, length-trim_front-le,
}

pub record Buffered (F : Type 0) : Type 0 where
  pub samples : Table (List BufferedRenderSample)
  pub taps : Table (List RenderTap)
  pub scores : Table (List RenderScoreState)
  pub states : Table (List (GameplayState F))

abbrev pub buffers : {F : Type 0} → Manager F → Buffered F
buffers m = record {
  samples = m.render_samples;
  taps = m.render_taps;
  scores = m.render_scores;
  states = m.player_states;
}

abbrev pub SampleBuffer : List BufferedRenderSample → Type 0
SampleBuffer = IsOrdered max_render_samples sequence_of

abbrev pub TapBuffer : List RenderTap → Type 0
TapBuffer = IsSetOf max_render_taps (λ t. t.sequence)

abbrev pub ScoreBuffer : List RenderScoreState → Type 0
ScoreBuffer = IsOrdered max_render_scores (λ s. s.sequence)

abbrev pub StateBuffer : {F : Type 0} → List (GameplayState F) → Type 0
StateBuffer b = length b ≤ max_player_states

pub record IsBuffered {F : Type 0} (b : Buffered F) : Type 0 where
  pub samples : AllOf SampleBuffer b.samples
  pub taps : AllOf TapBuffer b.taps
  pub scores : AllOf ScoreBuffer b.scores
  pub states : AllOf StateBuffer b.states

module _ {F : Type 0} ⦃fl : Float F⦄ where
  buffers-stop_slot :
      (ring : Option Text) (id : Text) (m : Manager F)
      → buffers (Stop.stop_slot ring id m) ≡ buffers m
  unfolding Stop.stop_slot Stop.report_ring Stop.set_error
  buffers-stop_slot ring id m = ground arith

  buffers-stop_slots :
      (ring : Option Text) (ids : List Text) (m : Manager F)
      → buffers (Stop.stop_slots ring ids m) ≡ buffers m
  unfolding Stop.stop_slots
  buffers-stop_slots ring [] m = refl
  buffers-stop_slots ring (id ∷ ids) m =
      buffers-stop_slots ring ids (Stop.stop_slot ring id m) ∙ buffers-stop_slot ring id m

  buffers-reset_files :
      (disk : Slots.Disk) (changed : Bool) (id : Text) (m : Manager F)
      → buffers (Slots.reset_files disk changed id m).0 ≡ buffers m
  unfolding Slots.reset_files Slots.reset_maps Slots.forget_cursors
  buffers-reset_files disk changed id m = ground arith

  buffers-published :
      (i : ℕ) (q : Slots.RendererRequest) (s : RendererSlot F)
      (p : Manager F × Option Slots.ConfigureError)
      → buffers (Slots.published i q s p).0 ≡ buffers p.0
  unfolding Slots.published Slots.publish_slot
  buffers-published i q s (m, some e) = refl
  buffers-published i q s (m, none) = ground arith

  buffers-configure_slot :
      (disk : Slots.Disk) (q : Slots.RendererRequest) (i : ℕ) (s : RendererSlot F) (m : Manager F)
      → buffers (Slots.configure_slot disk q i s m).0 ≡ buffers m
  unfolding Slots.configure_slot
  buffers-configure_slot disk q i s m =
      buffers-published i q (Slots.configured q s) _
      ∙ buffers-reset_files disk (Slots.render_changed s (Slots.configured q s))
          (Slots.configured q s).id m

  buffers-configure_found :
      (disk : Slots.Disk) (q : Slots.RendererRequest) (o : Option (ℕ × RendererSlot F))
      (e : Option Slots.ConfigureError) (m : Manager F)
      → buffers (Slots.configure_found disk q o e m).0 ≡ buffers m
  unfolding Slots.configure_found
  buffers-configure_found disk q none e m = refl
  buffers-configure_found disk q (some (i, s)) (some e) m = refl
  buffers-configure_found disk q (some (i, s)) none m = buffers-configure_slot disk q i s m

  buffers-configure :
      (disk : Slots.Disk) (id : Text) (q : Slots.RendererRequest) (m : Manager F)
      → buffers (Slots.configure disk id q m).0 ≡ buffers m
  unfolding Slots.configure
  buffers-configure disk id q m =
      buffers-configure_found disk q (Slots.find_slot id 0 m.slots) (Slots.request_error q) m

buffers-kept : {F : Type 0} {a b : Buffered F} → b ≡ a → IsBuffered a → IsBuffered b
buffers-kept e v = subst IsBuffered (sym e) v

module _ {F : Type 0} ⦃fl : Float F⦄ ⦃sg : Single⦄ where
  stop_participant-IsBuffered :
      (ring : Option Text) (id : Text) (m : Manager F)
      → IsBuffered (buffers m)
      → IsBuffered (buffers (Stop.stop_participant ring id m))
  unfolding Stop.stop_participant
  stop_participant-IsBuffered ring id m v =
      let w = buffers-kept (buffers-stop_slots ring (Stop.slots_of id m.slots) m) v in
      record {
        samples = AllOf-delete SampleBuffer id _ w.samples;
        taps = AllOf-delete TapBuffer id _ w.taps;
        scores = AllOf-delete ScoreBuffer id _ w.scores;
        states = AllOf-delete StateBuffer id _ w.states;
      }

  after-IsBuffered :
      (c : Call F) (m : Manager F) → IsBuffered (buffers m) → IsBuffered (buffers (after c m))
  unfolding Buffers.push_sample_at Buffers.push_render_anchor Buffers.push_tap
      Buffers.push_score_state Buffers.push_player_state Stop.set_error Stop.stop_autoplay
      Stop.stop_all Stop.begin_run Buffers.push_state_in
  after-IsBuffered (Calls.push_sample id sample now) m v = record {
    samples =
        AllOf-put SampleBuffer id (push_sample_in sample now (buffer_of id m.render_samples))
          m.render_samples
          (push_sample-IsOrdered sample now (buffer_of id m.render_samples) (
            AllOf-buffer_of SampleBuffer id m.render_samples
              (record { size = omega arith; order = tt }) v.samples))
          v.samples;
    taps = v.taps;
    scores = v.scores;
    states = v.states;
  }
  after-IsBuffered (Calls.push_render_anchor id beat offset) m v = buffers-kept (ground arith) v
  after-IsBuffered (Calls.push_tap id tap) m v =
      elim (Bool-cases (
        (not tap.pressed && not tap.released)
        || not (sg.is_finite tap.beat)
        || not (sg.is_finite tap.judgement_beat))) [
          | inl refused ↦ rw refused v
          | inr taken ↦ rw taken (record {
            samples = v.samples;
            taps =
                AllOf-put TapBuffer id (push_tap_in tap (buffer_of id m.render_taps)) m.render_taps
                  (push_tap-IsSetOf tap (buffer_of id m.render_taps) (
                    AllOf-buffer_of TapBuffer id m.render_taps
                      (record { size = omega arith; keys = tt }) v.taps))
                  v.taps;
            scores = v.scores;
            states = v.states;
          })
        ]
  after-IsBuffered (Calls.push_score_state id state) m v =
      elim (Bool-cases (
        not (sg.is_finite state.accuracy)
        || not (sg.is_percentage state.accuracy)
        || not (sg.is_finite state.average_offset))) [
          | inl refused ↦ rw refused v
          | inr taken ↦ rw taken (record {
            samples = v.samples;
            taps = v.taps;
            scores =
                AllOf-put ScoreBuffer id (push_score_in state (buffer_of id m.render_scores))
                  m.render_scores
                  (push_score-IsOrdered state (buffer_of id m.render_scores) (
                    AllOf-buffer_of ScoreBuffer id m.render_scores
                      (record { size = omega arith; order = tt }) v.scores))
                  v.scores;
            states = v.states;
          })
        ]
  after-IsBuffered (Calls.push_player_state id state) m v = record {
    samples = v.samples;
    taps = v.taps;
    scores = v.scores;
    states =
        AllOf-put StateBuffer id (push_state_in state (buffer_of id m.player_states))
          m.player_states
          (length-trim_front-le max_player_states (buffer_of id m.player_states ++ state ∷ []))
          v.states;
  }
  after-IsBuffered (Calls.configure disk id q) m v = buffers-kept (buffers-configure disk id q m) v
  after-IsBuffered (Calls.set_error id message) m v = v
  after-IsBuffered (Calls.stop_autoplay error) m v = v
  after-IsBuffered (Calls.stop_slot ring id) m v = buffers-kept (buffers-stop_slot ring id m) v
  after-IsBuffered (Calls.stop_participant ring id) m v = stop_participant-IsBuffered ring id m v
  after-IsBuffered (Calls.stop_all ring) m v = record {
    samples = tt;
    taps = tt;
    scores = tt;
    states = tt;
  }
  after-IsBuffered Calls.begin_run m v = record {
    samples = tt;
    taps = tt;
    scores = tt;
    states = v.states;
  }
  after-IsBuffered (Calls.write_aligned_inputs now) m v =
      buffers-kept
        (ap
          (λ k. record { samples = k.samples; taps = k.taps; scores = k.scores; states = k.states })
          (kept-aligned now m))
        v

  pub after_all-IsBuffered :
      (cs : List (Call F)) (m : Manager F)
      → IsBuffered (buffers m)
      → IsBuffered (buffers (after_all cs m))
  unfolding after_all
  after_all-IsBuffered [] m v = v
  after_all-IsBuffered (c ∷ cs) m v = after_all-IsBuffered cs (after c m) (after-IsBuffered c m v)

  -- After any history of calls on a new manager, every participant has at most 36000 samples, 4096
  -- scores, 4096 taps and 150 states; samples and scores are in the strict order of their sequence
  -- numbers, and no two taps have one.
  pub after_all-new_manager-IsBuffered :
      (cs : List (Call F)) → IsBuffered (buffers (after_all cs new_manager))
  unfolding new_manager
  after_all-new_manager-IsBuffered cs =
      after_all-IsBuffered cs new_manager
        (record { samples = tt; taps = tt; scores = tt; states = tt })
