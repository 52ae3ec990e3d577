-- ===== src/Renderer/Scores.antt =====
-- companion/src/renderer.rs: what the reader of a score page finds, before the commit and behind it.
use beatblock_online.Base.{
  ℕ, zero, suc, ◌^◌, ◌≤◌, ◌<◌, ◌≡◌, ◌≢◌, refl, subst, Option, List, take, slice, length, ◌-◌,
  if◌then◌else◌, to_le_bytes, from_le_bytes, from_le_bytes-to, arith, min, Bool, true, false,
}
use beatblock_online.Render.Codec.{nth, tabulate}
use beatblock_online.Renderer.State.{RenderScoreState}
use beatblock_online.Renderer.Align.{cursor_or}
use beatblock_online.Renderer.Publish.{
  apply_writes, next_commit, score_writes, publish_score, count_u32,
}
use beatblock_online.Renderer.Pages.{int_at, spelled, next_commit-lt, next_commit-neq}

-- What a reader finds in a score page: a count that does not fit is the largest that does.
pub record IsScore (s : RenderScoreState) (sequence : ℕ) (page : List ℕ) : Type 0 where
  pub size : length page ≡ 48
  pub counter : int_at 0 4 page ≡ sequence
  pub results : int_at 4 4 page ≡ (if s.results then 1 else 0)
  pub accuracy : int_at 8 4 page ≡ s.accuracy
  pub average_offset : int_at 12 4 page ≡ s.average_offset
  pub hits : int_at 16 4 page ≡ min s.totals.hits (2 ^ 32 - 1)
  pub misses : int_at 20 4 page ≡ min s.totals.misses (2 ^ 32 - 1)
  pub barelies : int_at 24 4 page ≡ min s.totals.barelies (2 ^ 32 - 1)
  pub combo : int_at 28 4 page ≡ min s.totals.combo (2 ^ 32 - 1)
  pub max_combo : int_at 32 4 page ≡ min s.totals.max_combo (2 ^ 32 - 1)
  pub current_max_hits : int_at 36 4 page ≡ min s.totals.current_max_hits (2 ^ 32 - 1)
  pub max_hits : int_at 40 4 page ≡ min s.totals.max_hits (2 ^ 32 - 1)
  pub mine_hits : int_at 44 4 page ≡ min s.totals.mine_hits (2 ^ 32 - 1)

count-read : (n : ℕ) → from_le_bytes (to_le_bytes 4 (count_u32 n)) ≡ min n (2 ^ 32 - 1)
count-read n = from_le_bytes-to 4 (count_u32 n) (omega arith)

flag-lt : (b : Bool) → (if b then 1 else 0) < 256 ^ 4
flag-lt true = omega arith
flag-lt false = omega arith

IsScore-tabulated :
    (s : RenderScoreState) (sequence : ℕ) (f : ℕ → ℕ)
    → s.accuracy < 2 ^ 32
    → s.average_offset < 2 ^ 32
    → sequence < 2 ^ 32
    → IsScore s sequence (apply_writes (score_writes sequence s) (tabulate 48 f))
unfolding apply_writes score_writes
IsScore-tabulated s sequence f ha ho hs = record {
  size = refl;
  counter = from_le_bytes-to 4 sequence hs;
  results = from_le_bytes-to 4 (if s.results then 1 else 0) (flag-lt s.results);
  accuracy = from_le_bytes-to 4 s.accuracy ha;
  average_offset = from_le_bytes-to 4 s.average_offset ho;
  hits = count-read s.totals.hits;
  misses = count-read s.totals.misses;
  barelies = count-read s.totals.barelies;
  combo = count-read s.totals.combo;
  max_combo = count-read s.totals.max_combo;
  current_max_hits = count-read s.totals.current_max_hits;
  max_hits = count-read s.totals.max_hits;
  mine_hits = count-read s.totals.mine_hits;
}

-- The first twelve writes lie behind the counter.
uncommitted-tabulated :
    (s : RenderScoreState) (sequence : ℕ) (f : ℕ → ℕ) (n : ℕ)
    → n < 12
    → slice 0 4 (apply_writes (take n (score_writes sequence s)) (tabulate 48 f))
      ≡ slice 0 4 (tabulate 48 f)
unfolding apply_writes score_writes
uncommitted-tabulated s sequence f zero h = refl
uncommitted-tabulated s sequence f (suc zero) h = refl
uncommitted-tabulated s sequence f (suc (suc zero)) h = refl
uncommitted-tabulated s sequence f (suc (suc (suc zero))) h = refl
uncommitted-tabulated s sequence f (suc (suc (suc (suc zero)))) h = refl
uncommitted-tabulated s sequence f (suc (suc (suc (suc (suc zero))))) h = refl
uncommitted-tabulated s sequence f (suc (suc (suc (suc (suc (suc zero)))))) h = refl
uncommitted-tabulated s sequence f (suc (suc (suc (suc (suc (suc (suc zero))))))) h = refl
uncommitted-tabulated s sequence f (suc (suc (suc (suc (suc (suc (suc (suc zero)))))))) h = refl
uncommitted-tabulated s sequence f (suc (suc (suc (suc (suc (suc (suc (suc (suc zero))))))))) h =
    refl
uncommitted-tabulated s sequence f (suc (suc (suc (suc (suc (suc (suc (suc (suc (suc zero))))))))))
      h =
    refl
uncommitted-tabulated s sequence f
      (suc (suc (suc (suc (suc (suc (suc (suc (suc (suc (suc zero))))))))))) h =
    refl
uncommitted-tabulated s sequence f
      (suc (suc (suc (suc (suc (suc (suc (suc (suc (suc (suc (suc n)))))))))))) h =
    ground (arith, h)

-- A page of 48 bytes that a score is published in has the new counter, which fits 32 bits and is
-- neither 0 nor the old one, and behind it the score, its counts cut at 32 bits; the page keeps its
-- size. Before the last of the writes, the counter is still the old one.
pub publish_score-IsScore :
    (old : Option ℕ) (s : RenderScoreState) (page : List ℕ) (n : ℕ)
    → cursor_or old < 2 ^ 32
    → s.accuracy < 2 ^ 32
    → s.average_offset < 2 ^ 32
    → length page ≡ 48
    → n < 12
    → let after = publish_score old s page in
      IsScore s after.1 after.0
      × (1 ≤ after.1)
      × (after.1 < 2 ^ 32)
      × (after.1 ≢ cursor_or old)
      × (slice 0 4 (apply_writes (take n (score_writes after.1 s)) page) ≡ slice 0 4 page)
unfolding publish_score
publish_score-IsScore old s page n ho ha hi long before =
    let same = spelled 48 page long in
    let commit = next_commit-lt old in
    (
      subst (λ p. IsScore s (next_commit old) (apply_writes (score_writes (next_commit old) s) p))
          same (IsScore-tabulated s (next_commit old) (nth page) ha hi commit.1),
      commit.0,
      commit.1,
      next_commit-neq old ho,
      subst
          (λ p.
            slice 0 4 (apply_writes (take n (score_writes (next_commit old) s)) p) ≡ slice 0 4 p)
          same (uncommitted-tabulated s (next_commit old) (nth page) n before),
    )
