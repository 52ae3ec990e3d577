-- ===== src/Examples/Renderer.antt =====
-- The renderer manager, at concrete inputs. Single precision numbers are instantiated by natural
-- numbers in units of 1/10000.
use beatblock_online.Base.{
  ℕ, ◌+◌, ◌-◌, ◌*◌, ◌^◌, ◌≤◌, ◌<◌, ◌≡◌, ◌≢◌, refl, true, false, some, none, List, [], ◌∷◌, take,
  slice, replicate, text, Text, lookup, text_eq, ltb, leb, contains, put, delete, arith,
}
use beatblock_online.Model.{no_totals}
use beatblock_online.Render.{RenderSample}
use beatblock_online.Render.Codec.{IsSample}
use beatblock_online.Broadcast.{RendererSlot, slot_defaults}
use beatblock_online.Renderer.State.{Single, Manager, RenderTap, RenderScoreState, new_manager}
use beatblock_online.Renderer.Slots.{RendererRequest, Disk}
use beatblock_online.Renderer.Calls
use beatblock_online.Renderer.Calls.{Call, after_all}
use beatblock_online.Renderer.Buffered.{IsBuffered, buffers, after_all-new_manager-IsBuffered}
use beatblock_online.Renderer.Configured.{IsSlots}
use beatblock_online.Renderer.Featured.{after_all-new_manager-IsSlots}
use beatblock_online.Renderer.Taps.{IsNext, next_tap-IsNext}
use beatblock_online.Renderer.Publish.{
  apply_writes, input_writes, input_record, publish_input, score_writes, publish_score,
}
use beatblock_online.Renderer.Pages.{IsInput, publish_input-IsInput}
use beatblock_online.Renderer.Scores.{IsScore, publish_score-IsScore}
use beatblock_online.Renderer.Align.{next_tap, release, write_aligned_inputs}
use beatblock_online.Examples.{fixed}

instance abbrev pub tenths : Single
tenths = record {
  is_finite = λ n. ltb n (2 ^ 31);
  nan = 2 ^ 32 - 1;
  reaches = λ a b. leb b (a + 1);
  is_past = λ a b. ltb (a + 500) b;
  is_ahead = λ a b. ltb (b + 10) a;
  is_current = λ a b. leb b (a + 500);
  is_percentage = λ a. leb a 1000000;
}

abbrev ann : Text
ann = text "ann"

abbrev sample : ℕ → RenderSample
sample n = record {
  session_id = 7;
  sequence = n;
  run_time_us = 1000 * n;
  beat = 100 * n;
  paddle_angle = 90;
  tap_mask = 1;
  flags = 3;
}

abbrev request : RendererRequest
request = record {
  participant_id = some ann;
  participant_name = some (text "Ann");
  mode = none;
  width = some 640;
  height = none;
  fps = some 30;
  delay_ms = some 9000;
  featured = some true;
}

abbrev disk : Disk
disk = record { has_frame_file = false; frame_ring = true; input_map = true; score_map = true }

abbrev tap : ℕ → RenderTap
tap n = record {
  sequence = n;
  beat = 100 * n;
  judgement_beat = 100 * n;
  pressed = true;
  released = false;
}

abbrev score : RenderScoreState
score = record {
  sequence = 1;
  run_time_us = 1000;
  accuracy = 950000;
  average_offset = 12;
  totals = record no_totals { hits = 2 ^ 40; combo = 12 };
  results = false;
}

abbrev history : List (Call ℕ)
history =
    Calls.configure disk (text "b") request
    ∷ Calls.push_sample ann (sample 1) 5000
    ∷ Calls.push_render_anchor ann 100 0
    ∷ Calls.push_tap ann (tap 1)
    ∷ Calls.push_score_state ann score
    ∷ Calls.write_aligned_inputs 1505000
    ∷ Calls.stop_slot none (text "B")
    ∷ []

after_all-new_manager-IsBuffered_example :
    IsBuffered (buffers {F = ℕ} (after_all history new_manager))
after_all-new_manager-IsBuffered_example = after_all-new_manager-IsBuffered history

after_all-new_manager-IsSlots_example : IsSlots {F = ℕ} (after_all history new_manager).slots
after_all-new_manager-IsSlots_example = after_all-new_manager-IsSlots history

next_tap-IsNext_example : IsNext 250 1 (next_tap 250 1 (tap 1 ∷ tap 2 ∷ tap 3 ∷ []))
next_tap-IsNext_example = next_tap-IsNext 250 1 (tap 1 ∷ tap 2 ∷ tap 3 ∷ [])

sample-IsSample : IsSample (sample 4)
sample-IsSample = record {
  session_id = omega arith;
  sequence = omega arith;
  run_time_us = omega arith;
  beat = omega arith;
  paddle_angle = omega arith;
  tap_mask = omega arith;
  flags = omega arith;
}

publish_input-IsInput_example :
    let after = publish_input (some (2 ^ 32 - 1)) (sample 4) 19 400 0 (replicate 32 0) in
    IsInput (sample 4) 19 400 0 after.1 after.0
    × (1 ≤ after.1)
    × (after.1 < 2 ^ 32)
    × (after.1 ≢ 2 ^ 32 - 1)
    × (slice 8 4 (
          apply_writes
            (take 2 (input_writes after.1 (input_record (sample 4) 19 400 0)))
            (replicate 32 0))
        ≡ slice 8 4 (replicate 32 0))
publish_input-IsInput_example =
    publish_input-IsInput (some (2 ^ 32 - 1)) (sample 4) 19 400 0 (replicate 32 0) 2 (omega arith)
      sample-IsSample (omega arith) (omega arith) (omega arith) refl (omega arith)

publish_score-IsScore_example :
    let after = publish_score none score (replicate 48 0) in
    IsScore score after.1 after.0
    × (1 ≤ after.1)
    × (after.1 < 2 ^ 32)
    × (after.1 ≢ 0)
    × (slice 0 4 (apply_writes (take 11 (score_writes after.1 score)) (replicate 48 0))
        ≡ slice 0 4 (replicate 48 0))
publish_score-IsScore_example =
    publish_score-IsScore none score (replicate 48 0) 11 (omega arith) (omega arith) (omega arith)
      refl (omega arith)

abbrev slot_a : RendererSlot ℕ
slot_a = record (slot_defaults {F = ℕ} (text "A") true) { participant_id = some ann; active = true }

abbrev with_samples : Manager ℕ
with_samples = record (new_manager {F = ℕ}) {
  render_samples =
      (
        ann,
        record { sample = sample 1; received_at_us = 5000 }
            ∷ record { sample = sample 3; received_at_us = 7000 }
            ∷ [],
      )
      ∷ [];
}

-- The first note was at 1000 at the source, and received at 5000; the slot has a delay of 500 ms.
abbrev ticking : Manager ℕ
ticking = record with_samples {
  slots = slot_a ∷ [];
  render_anchors =
      (
        ann,
        record {
          first_note_beat = 100;
          source_time_us = some 1000;
          received_at_us = some 5000;
          input_offset_ms = 0;
        },
      )
      ∷ [];
  input_maps = (text "A", replicate 32 0) ∷ [];
}

shows_third : lookup (text "A") (write_aligned_inputs 507000 ticking).sample_cursors ≡ some 3
unfolding write_aligned_inputs lookup new_manager contains release text_eq put delete
shows_third = refl
