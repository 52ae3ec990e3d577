-- ===== src/Room/Rank.antt =====
-- companion/src/room.rs: `rank` and `validity_order`. `sort_by` is the library's stable sort, here
-- an insertion sort, which moves an element only past elements that compare greater.
use Prim.Native.Nat.{Ordering, compare}
use beatblock_online.Base.{
  ℕ, suc, ◌+◌, ◌%◌, Bool, true, false, none, some, List, [], ◌∷◌, Text, map, if◌then◌else◌,
  modify_at, text_cmp, u32_mod,
}
use beatblock_online.Float.{Float}
use beatblock_online.Model.{Participant, RunValidity, pending, valid, invalid, dnf}
use beatblock_online.Room.State.{Room, set_participants, touch}
use beatblock_online.Room.Parts.{is_competitor, try_finish_chart}

unfoldable pub validity_order : RunValidity → ℕ
validity_order valid = 3
validity_order pending = 2
validity_order invalid = 1
validity_order dnf = 0

-- `Ordering::then_with`
abbrev pub then_with : Ordering → Ordering → Ordering
then_with Ordering.lt o = Ordering.lt
then_with Ordering.eq o = o
then_with Ordering.gt o = Ordering.gt

abbrev pub is_gt : Ordering → Bool
is_gt Ordering.gt = true
is_gt _ = false

-- What `rank` compares, with the index of the participant.
pub record RankKey (F : Type 0) : Type 0 where
  pub index : ℕ
  pub validity : RunValidity
  pub accuracy : F
  pub progress : F
  pub max_combo : ℕ
  pub display_name : Text

module _ {ℓ} {A : Type ℓ} (cmp : A → A → Ordering) where
  unfoldable pub insert_sorted : A → List A → List A
  insert_sorted a [] = a ∷ []
  insert_sorted a (b ∷ bs) =
      let rest = insert_sorted a bs in if is_gt (cmp a b) then b ∷ rest else a ∷ b ∷ bs

  unfoldable pub sort_by : List A → List A
  unfolding insert_sorted
  sort_by [] = []
  sort_by (a ∷ as') = insert_sorted a (sort_by as')

module _ {F : Type 0} where
  unfoldable pub rank_key : ℕ → Participant F → RankKey F
  rank_key i p = record {
    index = i;
    validity = p.validity;
    accuracy = p.accuracy;
    progress = p.progress;
    max_combo = p.totals.max_combo;
    display_name = p.display_name;
  }

  -- `iter().enumerate().filter(..).map(..)`, from the index `i` on
  unfoldable pub rank_keys : ℕ → List (Participant F) → List (RankKey F)
  unfolding rank_key is_competitor
  rank_keys i [] = []
  rank_keys i (p ∷ ps) =
      let rest = rank_keys (suc i) ps in if is_competitor p then rank_key i p ∷ rest else rest

  abbrev pub unranked : Participant F → Participant F
  unranked p = record p { rank = none }

  abbrev pub with_rank : ℕ → Participant F → Participant F
  with_rank n p = record p { rank = some n }

  -- The loop over `order.into_iter().enumerate()`, from the place `n` on; `as u32` wraps.
  unfoldable pub assign_ranks : ℕ → List (RankKey F) → List (Participant F) → List (Participant F)
  assign_ranks n [] ps = ps
  assign_ranks n (k ∷ ks) ps =
      assign_ranks (suc n) ks (modify_at (with_rank ((n + 1) % u32_mod)) k.index ps)

module _ {F : Type 0} ⦃fl : Float F⦄ where
  unfoldable pub rank_cmp : RankKey F → RankKey F → Ordering
  unfolding validity_order text_cmp
  rank_cmp a b = then_with (compare (validity_order b.validity) (validity_order a.validity)) (
      then_with (fl.total_cmp b.accuracy a.accuracy) (
        then_with (fl.total_cmp b.progress a.progress)
          (then_with (compare b.max_combo a.max_combo) (text_cmp a.display_name b.display_name))))

  unfoldable pub ranked : List (Participant F) → List (Participant F)
  unfolding rank_cmp sort_by rank_keys assign_ranks
  ranked ps = assign_ranks 0 (sort_by rank_cmp (rank_keys 0 ps)) (map unranked ps)

  unfoldable pub rank : Room F → Room F
  unfolding ranked
  rank r = set_participants (ranked r.participants) r

  -- `rank`, `try_finish_chart` and `touch`, after runs have been finalized
  unfoldable pub concluded : ℕ → Room F → Room F
  concluded now r = touch now (try_finish_chart (rank r))
