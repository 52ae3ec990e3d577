-- ===== src/Renderer/Publish.antt =====
-- companion/src/renderer.rs: `publish_input` and `publish_score`, the writes to the memory that a
-- renderer process reads. Each is a list of writes in the order in which the reader may see them; the
-- last one is the commit counter.
use Prim.Native.Nat.{max}
use beatblock_online.Base.{
  ℕ, ◌+◌, ◌-◌, ◌%◌, ◌^◌, min, Option, none, some, List, [], ◌∷◌, if◌then◌else◌, drop, take, slice,
  write_at, to_le_bytes, u32_mod,
}
use beatblock_online.Render.{RenderSample, encode}
use beatblock_online.Renderer.State.{RenderScoreState}

-- A write of some bytes at an offset.
abbrev pub Write : Type 0
Write = ℕ × List ℕ

unfoldable pub apply_writes : List Write → List ℕ → List ℕ
apply_writes [] page = page
apply_writes ((at, src) ∷ ws) page = apply_writes ws (write_at at src page)

-- `*sequence = sequence.wrapping_add(1).max(1)`
unfoldable pub next_commit : Option ℕ → ℕ
next_commit none = 1
next_commit (some sequence) = max ((sequence + 1) % u32_mod) 1

-- The record of a sample with its flags, judgement beat and input offset, before it has a sequence.
unfoldable pub input_record : RenderSample → ℕ → ℕ → ℕ → List ℕ
unfolding encode
input_record sample flags judgement_beat input_offset_ms =
    let bytes = encode sample in
    let bytes = write_at 12 (to_le_bytes 4 judgement_beat) bytes in
    let bytes = write_at 16 (to_le_bytes 4 input_offset_ms) bytes in
    write_at 30 (to_le_bytes 2 flags) bytes

unfoldable pub input_writes : ℕ → List ℕ → List Write
input_writes sequence bytes =
    let bytes = write_at 8 (to_le_bytes 4 sequence) bytes in
    (0, take 8 bytes) ∷ (12, drop 12 bytes) ∷ (8, slice 8 4 bytes) ∷ []

-- The page and the commit counter of the slot after `publish_input`.
unfoldable pub publish_input : Option ℕ → RenderSample → ℕ → ℕ → ℕ → List ℕ → List ℕ × ℕ
unfolding input_record input_writes apply_writes next_commit
publish_input sequence sample flags judgement_beat input_offset_ms page =
    let commit = next_commit sequence in
    (
      apply_writes (input_writes commit (input_record sample flags judgement_beat input_offset_ms))
          page,
      commit,
    )

-- `value.min(u32::MAX as u64) as u32`
abbrev pub count_u32 : ℕ → ℕ
count_u32 value = min value (2 ^ 32 - 1)

unfoldable pub score_writes : ℕ → RenderScoreState → List Write
score_writes sequence s =
    (4, to_le_bytes 4 (if s.results then 1 else 0))
    ∷ (8, to_le_bytes 4 s.accuracy)
    ∷ (12, to_le_bytes 4 s.average_offset)
    ∷ (16, to_le_bytes 4 (count_u32 s.totals.hits))
    ∷ (20, to_le_bytes 4 (count_u32 s.totals.misses))
    ∷ (24, to_le_bytes 4 (count_u32 s.totals.barelies))
    ∷ (28, to_le_bytes 4 (count_u32 s.totals.combo))
    ∷ (32, to_le_bytes 4 (count_u32 s.totals.max_combo))
    ∷ (36, to_le_bytes 4 (count_u32 s.totals.current_max_hits))
    ∷ (40, to_le_bytes 4 (count_u32 s.totals.max_hits))
    ∷ (44, to_le_bytes 4 (count_u32 s.totals.mine_hits))
    ∷ (0, to_le_bytes 4 sequence)
    ∷ []

-- The page and the commit counter of the slot after `publish_score`.
unfoldable pub publish_score : Option ℕ → RenderScoreState → List ℕ → List ℕ × ℕ
unfolding score_writes apply_writes next_commit
publish_score sequence state page =
    let commit = next_commit sequence in (apply_writes (score_writes commit state) page, commit)
