-- ===== src/Room/Reports.antt =====
-- Which score reports `validate_score_totals` accepts.
use beatblock_online.Base.{ℕ, ◌≤◌, ◌≡◌, ◌↔◌, none, arith, saturating_add}
use beatblock_online.Model.{ScoreTotals}
use beatblock_online.Room.Score.{totals_error}

-- A report is for the chart and consistent: no more notes are judged than the chart has or than were
-- hit or missed, and no combo, barely or mine counts more than was hit.
pub record IsConsistent (expected : ℕ) (t : ScoreTotals) : Type 0 where
  pub chart : t.max_hits ≡ expected
  pub judged : t.current_max_hits ≤ t.max_hits
  pub known : t.current_max_hits ≤ saturating_add t.hits t.misses
  pub hits : t.hits ≤ t.max_hits
  pub barelies : t.barelies ≤ t.hits
  pub combo : t.combo ≤ t.max_combo
  pub max_combo : t.max_combo ≤ t.hits
  pub mine_hits : t.mine_hits ≤ t.hits
  pub mines : t.mine_hits ≤ t.max_hits

-- No cumulative counter is lower than it was.
pub record IsLater (old t : ScoreTotals) : Type 0 where
  pub judged : old.current_max_hits ≤ t.current_max_hits
  pub hits : old.hits ≤ t.hits
  pub misses : old.misses ≤ t.misses
  pub barelies : old.barelies ≤ t.barelies
  pub max_combo : old.max_combo ≤ t.max_combo
  pub mine_hits : old.mine_hits ≤ t.mine_hits

accepted :
    (old t : ScoreTotals) (expected : ℕ)
    → totals_error old t expected ≡ none
    → IsConsistent expected t × IsLater old t
unfolding totals_error
accepted old t expected h = (
  record {
    chart = ground arith;
    judged = ground arith;
    known = ground arith;
    hits = ground arith;
    barelies = ground arith;
    combo = ground arith;
    max_combo = ground arith;
    mine_hits = ground arith;
    mines = ground arith;
  },
  record {
    judged = ground arith;
    hits = ground arith;
    misses = ground arith;
    barelies = ground arith;
    max_combo = ground arith;
    mine_hits = ground arith;
  },
)

accepts :
    (old t : ScoreTotals) (expected : ℕ)
    → IsConsistent expected t × IsLater old t
    → totals_error old t expected ≡ none
unfolding totals_error
accepts old t expected (c, l) = ground arith

-- A report is accepted after another exactly if it is for the chart, consistent and later.
pub totals_error_iff :
    (old t : ScoreTotals) (expected : ℕ)
    → (totals_error old t expected ≡ none) ↔ (IsConsistent expected t × IsLater old t)
totals_error_iff old t expected = (accepted old t expected, accepts old t expected)
