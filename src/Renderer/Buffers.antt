-- ===== src/Renderer/Buffers.antt =====
-- companion/src/renderer.rs: what the network pushes into the buffers of a participant.
use beatblock_online.Base.{
  ℕ, suc, ◌-◌, ◌*◌, Bool, false, not, ◌&&◌, ◌||◌, Option, none, some, List, [], ◌∷◌, ◌++◌,
  if◌then◌else◌, ltb, leb, ◌==◌, length, any, Text, lookup, put, find,
}
use beatblock_online.Render.{RenderSample}
use beatblock_online.Broadcast.{RendererSlot}
use beatblock_online.Renderer.State.{
  Single, Manager, Table, BufferedRenderSample, RenderTap, RenderScoreState, GameplayState,
  find_last,
}

abbrev pub max_render_samples : ℕ
max_render_samples = 60 * 60 * 10

abbrev pub max_render_taps : ℕ
max_render_taps = 4096

abbrev pub max_render_scores : ℕ
max_render_scores = 4096

abbrev pub max_player_states : ℕ
max_player_states = 30 * 5

abbrev pub entries : {A : Type 0} → Option (List A) → List A
entries none = []
entries (some xs) = xs

-- `entry(id).or_default()`
abbrev pub buffer_of : {A : Type 0} → Text → Table (List A) → List A
buffer_of id t = entries (lookup id t)

-- `while buffer.len() > limit { buffer.pop_front(); }`
unfoldable pub trim_front : {A : Type 0} → ℕ → List A → List A
trim_front limit [] = []
trim_front limit (x ∷ xs) =
    let rest = trim_front limit xs in if ltb limit (suc (length xs)) then rest else x ∷ xs

unfoldable pub last_of : {A : Type 0} → List A → Option A
last_of [] = none
last_of (x ∷ []) = some x
last_of (x ∷ y ∷ xs) = last_of (y ∷ xs)

abbrev pub is_stale : ℕ → Option ℕ → Bool
is_stale sequence none = false
is_stale sequence (some current) = leb sequence current

unfoldable pub sample_sequence : Option BufferedRenderSample → Option ℕ
sample_sequence none = none
sample_sequence (some b) = some b.sample.sequence

unfoldable pub score_sequence : Option RenderScoreState → Option ℕ
score_sequence none = none
score_sequence (some s) = some s.sequence

-- The three pushes on the buffer of one participant.
unfoldable pub push_sample_in :
    RenderSample → ℕ → List BufferedRenderSample → List BufferedRenderSample
unfolding trim_front last_of sample_sequence
push_sample_in sample now buffer =
    if is_stale sample.sequence (sample_sequence (last_of buffer))
    then buffer
    else trim_front max_render_samples
        (buffer ++ record { sample = sample; received_at_us = now } ∷ [])

unfoldable pub push_tap_in : RenderTap → List RenderTap → List RenderTap
unfolding trim_front
push_tap_in tap buffer =
    if any (λ e. e.sequence == tap.sequence) buffer
    then buffer
    else trim_front max_render_taps (buffer ++ tap ∷ [])

unfoldable pub push_score_in : RenderScoreState → List RenderScoreState → List RenderScoreState
unfolding trim_front last_of score_sequence
push_score_in state buffer =
    if is_stale state.sequence (score_sequence (last_of buffer))
    then buffer
    else trim_front max_render_scores (buffer ++ state ∷ [])

unfoldable pub push_state_in :
    {F : Type 0} → GameplayState F → List (GameplayState F) → List (GameplayState F)
unfolding trim_front
push_state_in state buffer = trim_front max_player_states (buffer ++ state ∷ [])

module _ {F : Type 0} where
  unfoldable pub push_sample_at : Text → RenderSample → ℕ → Manager F → Manager F
  unfolding push_sample_in
  push_sample_at id sample received_at_us m = record m {
    render_samples =
        put id (push_sample_in sample received_at_us (buffer_of id m.render_samples))
          m.render_samples;
  }

  unfoldable pub push_player_state : Text → GameplayState F → Manager F → Manager F
  unfolding push_state_in
  push_player_state id state m = record m {
    player_states = put id (push_state_in state (buffer_of id m.player_states)) m.player_states;
  }

  -- The state of the featured participant that is old enough, behind the reads that find the slot.
  unfoldable pub aligned_state : ℕ → RendererSlot F → Manager F → Option (GameplayState F)
  aligned_state now_ms featured m = elim featured.participant_id [
    | none ↦ none
    | some id ↦
        find_last (λ s. leb s.updated_at_ms (now_ms - featured.delay_ms))
          (buffer_of id m.player_states)
  ]

  unfoldable pub aligned_featured_state : ℕ → Manager F → Option (GameplayState F)
  unfolding aligned_state
  aligned_featured_state now_ms m = elim (find (λ s. s.featured) m.slots) [
    | none ↦ none
    | some featured ↦ aligned_state now_ms featured m
  ]

module _ {F : Type 0} ⦃sg : Single⦄ where
  unfoldable pub push_render_anchor : Text → ℕ → ℕ → Manager F → Manager F
  push_render_anchor id first_note_beat input_offset_ms m =
      if not (sg.is_finite first_note_beat) || not (sg.is_finite input_offset_ms)
      then m
      else record m {
        render_anchors =
            put id
              (record {
                first_note_beat = first_note_beat;
                input_offset_ms = input_offset_ms;
                source_time_us = none;
                received_at_us = none;
              })
              m.render_anchors;
        sync_epoch = none;
      }

  unfoldable pub push_tap : Text → RenderTap → Manager F → Manager F
  unfolding push_tap_in
  push_tap id tap m =
      if (not tap.pressed && not tap.released)
        || not (sg.is_finite tap.beat)
        || not (sg.is_finite tap.judgement_beat)
      then m
      else record m {
        render_taps = put id (push_tap_in tap (buffer_of id m.render_taps)) m.render_taps;
      }

  unfoldable pub push_score_state : Text → RenderScoreState → Manager F → Manager F
  unfolding push_score_in
  push_score_state id state m =
      if not (sg.is_finite state.accuracy)
        || not (sg.is_percentage state.accuracy)
        || not (sg.is_finite state.average_offset)
      then m
      else record m {
        render_scores = put id (push_score_in state (buffer_of id m.render_scores)) m.render_scores;
      }
