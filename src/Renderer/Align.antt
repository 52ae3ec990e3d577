-- ===== src/Renderer/Align.antt =====
-- companion/src/renderer.rs: `write_aligned_inputs` and `write_warmup_inputs`. A flag is one bit of a
-- number, so `|=` of a flag that is not set is `+`.
use beatblock_online.Base.{
  ℕ, ◌+◌, ◌-◌, ◌/◌, ◌%◌, Bool, true, false, not, ◌&&◌, ◌||◌, Option, none, some, List, [], ◌∷◌,
  if◌then◌else◌, ltb, leb, ◌==◌, is_empty, is_none, Text, text_eq, lookup, put, delete,
  saturating_add,
}
use beatblock_online.Render.{RenderSample}
use beatblock_online.Broadcast.{RendererSlot}
use beatblock_online.Renderer.State.{
  Single, Manager, Table, BufferedRenderSample, RenderAnchor, RenderTap, SyncEpoch, find_last,
}
use beatblock_online.Renderer.Buffers.{buffer_of}
use beatblock_online.Renderer.Publish.{publish_input, publish_score}
use beatblock_online.Renderer.Epoch.{
  shown_slots, common_delay_us, participants_of, resolve_anchors, next_epoch,
}

abbrev pub flag_raw_tap_pressed : ℕ → Bool
flag_raw_tap_pressed flags = flags / 4 % 2 == 1

abbrev pub flag_raw_tap_released : ℕ → Bool
flag_raw_tap_released flags = flags / 8 % 2 == 1

abbrev pub flag_capture_enabled : ℕ
flag_capture_enabled = 16

abbrev pub flag_sync_release : ℕ
flag_sync_release = 32

abbrev pub flag_tap_pressed : ℕ
flag_tap_pressed = 64

abbrev pub flag_tap_released : ℕ
flag_tap_released = 128

abbrev pub is_id : Text → Option Text → Bool
is_id id none = false
is_id id (some other) = text_eq other id

abbrev pub is_count : ℕ → Option ℕ → Bool
is_count n none = false
is_count n (some other) = other == n

module _ {F : Type 0} where
  -- The write of one page and its counter.
  abbrev pub committed : Text → List ℕ × ℕ → Manager F → Manager F
  committed id (page, commit) m = record m {
    input_maps = put id page m.input_maps;
    input_sequences = put id commit m.input_sequences;
  }

  abbrev pub committed_score : Text → ℕ → List ℕ × ℕ → Manager F → Manager F
  committed_score id cursor (page, commit) m = record m {
    score_maps = put id page m.score_maps;
    score_sequences = put id commit m.score_sequences;
    score_cursors = put id cursor m.score_cursors;
  }

abbrev pub offset_of : Option RenderAnchor → ℕ
offset_of none = 0
offset_of (some a) = a.input_offset_ms

abbrev pub cursor_or : Option ℕ → ℕ
cursor_or none = 0
cursor_or (some n) = n

abbrev pub tap_sequence : Option RenderTap → ℕ
tap_sequence none = 0
tap_sequence (some e) = e.sequence

abbrev pub is_pressed : Option RenderTap → Bool
is_pressed none = false
is_pressed (some e) = e.pressed

abbrev pub is_released : Option RenderTap → Bool
is_released none = false
is_released (some e) = e.released

-- The flags that are published with a sample.
unfoldable pub aligned_flags : Bool → Bool → Option RenderTap → ℕ → ℕ
aligned_flags release sample_is_new tap flags =
    flags % 4
    + flag_capture_enabled
    + (if release then flag_sync_release else 0)
    + (if is_pressed tap || (is_none tap && sample_is_new && flag_raw_tap_pressed flags)
        then flag_tap_pressed
        else 0)
    + (if is_released tap || (is_none tap && sample_is_new && flag_raw_tap_released flags)
        then flag_tap_released
        else 0)

abbrev pub on_first_note : Bool → Option RenderAnchor → RenderSample → RenderSample
on_first_note true (some a) sample = record sample { beat = a.first_note_beat }
on_first_note _ _ sample = sample

module _ ⦃sg : Single⦄ where
  -- The first tap behind the cursor that is due, and the cursor behind all that were passed.
  unfoldable pub next_tap : ℕ → ℕ → List RenderTap → ℕ × Option RenderTap
  next_tap beat cursor [] = (cursor, none)
  next_tap beat cursor (e ∷ es) =
      let waits = leb e.sequence cursor || sg.is_ahead e.beat beat in
      let rest = next_tap beat (if waits then cursor else e.sequence) es in
      if waits then rest else if sg.is_current e.beat beat then (e.sequence, some e) else rest

  abbrev pub judged : Option RenderTap → ℕ
  judged none = sg.nan
  judged (some e) = e.judgement_beat

module _ {F : Type 0} where
  -- The sample that a slot may show: the last one that its source made by the time it is at now.
  unfoldable pub due_sample : ℕ → Table ℕ → Text → Manager F → Option BufferedRenderSample
  due_sample elapsed anchor_times id m = elim (lookup id anchor_times) [
    | none ↦ none
    | some anchor_time ↦
        find_last (λ b. leb b.sample.run_time_us (saturating_add anchor_time elapsed))
          (buffer_of id m.render_samples)
  ]

module _ {F : Type 0} ⦃sg : Single⦄ where
  unfoldable pub warm_slot : ℕ → RendererSlot F → Manager F → Manager F
  unfolding publish_input
  warm_slot target slot m = elim slot.participant_id [
    | none ↦ m
    | some id ↦
        elim (find_last (λ b. leb b.received_at_us target) (buffer_of id m.render_samples)) [
          | none ↦ m
          | some b ↦ elim (lookup slot.id m.input_maps) [
            | none ↦ m
            | some page ↦
                committed slot.id
                  (publish_input (lookup slot.id m.input_sequences) b.sample (b.sample.flags % 4)
                    sg.nan (offset_of (lookup id m.render_anchors)) page)
                  (record m { input_sources = put slot.id id m.input_sources })
          ]
        ]
  ]

  -- `write_warmup_inputs`
  unfoldable pub write_warmup_inputs : ℕ → List (RendererSlot F) → Manager F → Manager F
  unfolding warm_slot
  write_warmup_inputs target [] m = m
  write_warmup_inputs target (s ∷ ss) m = write_warmup_inputs target ss (warm_slot target s m)

  -- What a new source of a slot resets.
  unfoldable pub rebase : Text → Text → RenderSample → Manager F → Manager F
  rebase slot_id id sample m = record m {
    input_sources = put slot_id id m.input_sources;
    sample_cursors = delete slot_id m.sample_cursors;
    score_cursors = delete slot_id m.score_cursors;
    tap_cursors =
        put slot_id
          (tap_sequence
            (find_last (λ e. sg.is_past e.beat sample.beat) (buffer_of id m.render_taps)))
          m.tap_cursors;
  }

  -- The score that goes with a sample, unless it is there already.
  unfoldable pub show_score : Text → Text → RenderSample → Manager F → Manager F
  unfolding publish_score
  show_score slot_id id sample m = elim (lookup slot_id m.score_maps) [
    | none ↦ m
    | some page ↦
        elim (find_last (λ s. leb s.run_time_us sample.run_time_us)
          (buffer_of id m.render_scores)) [
            | none ↦ m
            | some score ↦
                if is_count score.sequence (lookup slot_id m.score_cursors)
                then m
                else committed_score slot_id score.sequence
                    (publish_score (lookup slot_id m.score_sequences) score page) m
          ]
  ]

  -- The part of the loop behind the last `continue`.
  unfoldable pub show_sample :
      Bool → RendererSlot F → Text → BufferedRenderSample → List ℕ → Manager F → Manager F
  unfolding rebase next_tap aligned_flags show_score publish_input
  show_sample first_release slot id buffered page m =
      let sample = buffered.sample in
      let source_changed = not (is_id id (lookup slot.id m.input_sources)) in
      let m = if source_changed then rebase slot.id id sample m else m in
      let cursor = cursor_or (lookup slot.id m.tap_cursors) in
      let (cursor, tap) = next_tap sample.beat cursor (buffer_of id m.render_taps) in
      let sample_is_new = not (is_count sample.sequence (lookup slot.id m.sample_cursors)) in
      let anchor = lookup id m.render_anchors in
      let flags = aligned_flags (first_release || source_changed) sample_is_new tap sample.flags in
      let m = record m {
        tap_cursors = put slot.id cursor m.tap_cursors;
        sample_cursors = put slot.id sample.sequence m.sample_cursors;
      } in
      show_score slot.id id sample (
        committed slot.id
          (publish_input (lookup slot.id m.input_sequences)
            (on_first_note first_release anchor sample) flags (judged tap) (offset_of anchor) page)
          m)

  unfoldable pub show_slot : Bool → ℕ → Table ℕ → RendererSlot F → Manager F → Manager F
  unfolding show_sample due_sample
  show_slot first_release elapsed anchor_times slot m = elim slot.participant_id [
    | none ↦ m
    | some id ↦ elim (due_sample elapsed anchor_times id m) [
      | none ↦ m
      | some buffered ↦ elim (lookup slot.id m.input_maps) [
        | none ↦ m
        | some page ↦ show_sample first_release slot id buffered page m
      ]
    ]
  ]

  unfoldable pub show_slots : Bool → ℕ → Table ℕ → List (RendererSlot F) → Manager F → Manager F
  unfolding show_slot
  show_slots first_release elapsed anchor_times [] m = m
  show_slots first_release elapsed anchor_times (s ∷ ss) m =
      show_slots first_release elapsed anchor_times ss
        (show_slot first_release elapsed anchor_times s m)

  abbrev pub released_epoch : Manager F → Manager F
  released_epoch m = elim m.sync_epoch [
    | none ↦ m
    | some e ↦ record m { sync_epoch = some (record e { released = true }) }
  ]

  unfoldable pub release :
      ℕ → ℕ → List (RendererSlot F) → Table ℕ → Option SyncEpoch → Manager F → Manager F
  unfolding write_warmup_inputs show_slots
  release now_us delay slots anchor_times none m = write_warmup_inputs (now_us - delay) slots m
  release now_us delay slots anchor_times (some e) m =
      if ltb now_us e.release_at_us
      then write_warmup_inputs (now_us - delay) slots m
      else released_epoch
          (show_slots (not e.released) (now_us - e.release_at_us) anchor_times slots m)

  -- `write_aligned_inputs`
  unfoldable pub write_aligned_inputs : ℕ → Manager F → Manager F
  unfolding shown_slots common_delay_us participants_of resolve_anchors next_epoch
      write_warmup_inputs show_slots
  write_aligned_inputs now_us m =
      let slots = shown_slots m in
      let delay = common_delay_us slots in
      let participants = participants_of slots in
      let x =
        resolve_anchors m.render_samples participants
          (record { anchors = m.render_anchors; anchor_times = []; anchor_receipts = [] }) in
      let epoch = next_epoch now_us delay participants x m.sync_epoch in
      if is_empty slots
      then m
      else release now_us delay slots x.anchor_times epoch
          (record m { render_anchors = x.anchors; sync_epoch = epoch })
