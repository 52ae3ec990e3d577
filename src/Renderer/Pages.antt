-- ===== src/Renderer/Pages.antt =====
-- companion/src/renderer.rs: what the reader of a page finds, before the commit and behind it.
use beatblock_online.Base.{
  ℕ, zero, suc, ◌^◌, ◌≤◌, ◌<◌, ◌≡◌, ◌≢◌, refl, subst, Option, none, some, List, take, slice, length,
  from_le_bytes, from_le_bytes-to, arith,
}
use beatblock_online.Render.{RenderSample, encode}
use beatblock_online.Render.Codec.{IsSample, nth, tabulate, tabulate-nth}
use beatblock_online.Renderer.Align.{cursor_or}
use beatblock_online.Renderer.Publish.{
  apply_writes, next_commit, input_record, input_writes, publish_input,
}

pub next_commit-lt :
    (sequence : Option ℕ) → (1 ≤ next_commit sequence) × (next_commit sequence < 2 ^ 32)
unfolding next_commit
next_commit-lt none = (omega arith, omega arith)
next_commit-lt (some n) = (omega arith, omega arith)

pub next_commit-neq :
    (sequence : Option ℕ) → cursor_or sequence < 2 ^ 32 → next_commit sequence ≢ cursor_or sequence
unfolding next_commit
next_commit-neq none h = omega arith
next_commit-neq (some n) h = omega arith

-- The integer of `n` bytes at an offset.
abbrev pub int_at : ℕ → ℕ → List ℕ → ℕ
int_at i n page = from_le_bytes (slice i n page)

-- What a reader finds in an input page.
pub record IsInput (s : RenderSample) (flags judgement_beat input_offset_ms sequence : ℕ)
    (page : List ℕ) : Type 0 where
  pub size : length page ≡ 32
  pub session_id : int_at 4 4 page ≡ s.session_id
  pub counter : int_at 8 4 page ≡ sequence
  pub judged : int_at 12 4 page ≡ judgement_beat
  pub offset : int_at 16 4 page ≡ input_offset_ms
  pub beat : int_at 20 4 page ≡ s.beat
  pub paddle_angle : int_at 24 4 page ≡ s.paddle_angle
  pub tap_mask : int_at 28 2 page ≡ s.tap_mask
  pub bits : int_at 30 2 page ≡ flags

pub spelled : (n : ℕ) (page : List ℕ) → length page ≡ n → tabulate n (nth page) ≡ page
spelled n page long = subst (λ k. tabulate k (nth page) ≡ page) long (tabulate-nth page)

IsInput-tabulated :
    (s : RenderSample) (flags judgement_beat input_offset_ms sequence : ℕ) (f : ℕ → ℕ)
    → IsSample s
    → flags < 2 ^ 16
    → judgement_beat < 2 ^ 32
    → input_offset_ms < 2 ^ 32
    → sequence < 2 ^ 32
    → IsInput s flags judgement_beat input_offset_ms sequence (
        apply_writes
          (input_writes sequence (input_record s flags judgement_beat input_offset_ms))
          (tabulate 32 f))
unfolding apply_writes input_writes input_record encode
IsInput-tabulated s flags judgement_beat input_offset_ms sequence f v hf hj ho hs = record {
  size = refl;
  session_id = from_le_bytes-to 4 s.session_id v.session_id;
  counter = from_le_bytes-to 4 sequence hs;
  judged = from_le_bytes-to 4 judgement_beat hj;
  offset = from_le_bytes-to 4 input_offset_ms ho;
  beat = from_le_bytes-to 4 s.beat v.beat;
  paddle_angle = from_le_bytes-to 4 s.paddle_angle v.paddle_angle;
  tap_mask = from_le_bytes-to 2 s.tap_mask v.tap_mask;
  bits = from_le_bytes-to 2 flags hf;
}

-- The page after the first two writes.
uncommitted-tabulated :
    (s : RenderSample) (flags judgement_beat input_offset_ms sequence : ℕ) (f : ℕ → ℕ) (n : ℕ)
    → n < 3
    → slice 8 4 (
        apply_writes
          (take n (input_writes sequence (input_record s flags judgement_beat input_offset_ms)))
          (tabulate 32 f))
      ≡ slice 8 4 (tabulate 32 f)
unfolding apply_writes input_writes input_record encode
uncommitted-tabulated s flags judgement_beat input_offset_ms sequence f zero h = refl
uncommitted-tabulated s flags judgement_beat input_offset_ms sequence f (suc zero) h = refl
uncommitted-tabulated s flags judgement_beat input_offset_ms sequence f (suc (suc zero)) h = refl
uncommitted-tabulated s flags judgement_beat input_offset_ms sequence f (suc (suc (suc n))) h =
    ground (arith, h)

-- A page of 32 bytes that a sample is published in has the new counter, which fits 32 bits and is
-- neither 0 nor the old one, and behind it the sample, the flags, the judgement beat and the input offset;
-- the page keeps its size. Before the last of the three writes, the counter is still the old one.
pub publish_input-IsInput :
    (old : Option ℕ) (s : RenderSample) (flags judgement_beat input_offset_ms : ℕ) (page : List ℕ)
    (n : ℕ)
    → cursor_or old < 2 ^ 32
    → IsSample s
    → flags < 2 ^ 16
    → judgement_beat < 2 ^ 32
    → input_offset_ms < 2 ^ 32
    → length page ≡ 32
    → n < 3
    → let after = publish_input old s flags judgement_beat input_offset_ms page in
      IsInput s flags judgement_beat input_offset_ms after.1 after.0
      × (1 ≤ after.1)
      × (after.1 < 2 ^ 32)
      × (after.1 ≢ cursor_or old)
      × (slice 8 4 (
            apply_writes
              (take n (input_writes after.1 (input_record s flags judgement_beat input_offset_ms)))
              page)
          ≡ slice 8 4 page)
unfolding publish_input
publish_input-IsInput old s flags judgement_beat input_offset_ms page n ho v hf hj hi long before =
    let same = spelled 32 page long in
    let commit = next_commit-lt old in
    (
      subst
          (λ p. IsInput s flags judgement_beat input_offset_ms (next_commit old) (
            apply_writes
              (input_writes (next_commit old) (input_record s flags judgement_beat input_offset_ms))
              p))
          same
          (IsInput-tabulated s flags judgement_beat input_offset_ms (next_commit old) (nth page) v
            hf hj hi commit.1),
      commit.0,
      commit.1,
      next_commit-neq old ho,
      subst
          (λ p.
            slice 8 4 (
              apply_writes
                (take n (
                  input_writes (next_commit old)
                    (input_record s flags judgement_beat input_offset_ms)))
                p)
            ≡ slice 8 4 p)
          same
          (uncommitted-tabulated s flags judgement_beat input_offset_ms (next_commit old) (nth page)
            n before),
    )
