-- ===== src/Room/Ranking.antt =====
-- The ranks of a room.
pub mod Order
mod Sorting
pub mod Places
use Prim.Native.Nat.{Ordering, compare}
use beatblock_online.Base.{ℕ, ◌≡◌, some, get_elem?, text_cmp}
use beatblock_online.Model.{Participant}
use beatblock_online.Room.State.{Room}
use beatblock_online.Room.Ranking.Places.{deserved, get_elem?-ranked}
use beatblock_online.Float.{Float}
use beatblock_online.Room.Rank.{RankKey, rank, rank_cmp, validity_order}
use beatblock_online.Room.Ranking.Order.{
  IsOrder, IsOrder-compare, IsOrder-total_cmp, IsOrder-by, IsOrder-flip, IsOrder-then_with,
  IsOrder-text_cmp,
}

module _ {F : Type 0} ⦃fl : Float F⦄ where
  -- The comparison by which competitors are ranked is a total order up to ties: every key ties with
  -- itself, exchanging two keys reverses the outcome, keys that tie compare alike with any other, and
  -- less is transitive.
  pub IsOrder-rank_cmp : IsOrder (rank_cmp {F = F} ⦃fl = fl⦄)
  unfolding rank_cmp
  IsOrder-rank_cmp =
      let falling =
        λ (key : RankKey F → F). IsOrder-flip _ (IsOrder-by key (fl.total_cmp) IsOrder-total_cmp) in
      IsOrder-then_with _ _
        (IsOrder-flip _
          (IsOrder-by (λ (k : RankKey F). validity_order k.validity) compare IsOrder-compare))
        (IsOrder-then_with _ _ (falling (λ k. k.accuracy)) (
          IsOrder-then_with _ _ (falling (λ k. k.progress)) (
            IsOrder-then_with _ _
              (IsOrder-flip _ (IsOrder-by (λ (k : RankKey F). k.max_combo) compare IsOrder-compare))
              (IsOrder-by (λ (k : RankKey F). k.display_name) text_cmp IsOrder-text_cmp))))

  -- Ranking gives every competitor the rank one more than the number of competitors who come before
  -- them by the comparison, or tie with them and were there first, as a 32 bit number; it takes the
  -- rank from everybody else, and changes nothing else of a participant.
  pub rank-deserved :
      (r : Room F) (i : ℕ) (p : Participant F)
      → get_elem? r.participants i ≡ some p
      → get_elem? (rank r).participants i ≡ some (record p { rank = deserved r.participants i p })
  unfolding rank
  rank-deserved r i p h = get_elem?-ranked IsOrder-rank_cmp r.participants i p h
