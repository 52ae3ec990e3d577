-- ===== src/Room/Ranking/Places.antt =====
-- The places that a sort gives: the ranks that `assign_ranks` writes.
use Prim.Native.Nat.{Ordering}
use beatblock_online.Base.{
  ℕ, zero, suc, ◌+◌, ◌%◌, ◌<◌, Bool, true, false, ◌≡◌, refl, subst, ap, ◌∙◌, inl, inr, Option, none,
  some, List, [], ◌∷◌, map, All, any, count_if, get_elem?, modify_at, arith, if◌then◌else◌, ◌==◌,
  Bool-cases, u32_mod,
}
use beatblock_online.Float.{Float}
use beatblock_online.Model.{Participant}
use beatblock_online.Room.Rank.{
  RankKey, rank_key, rank_keys, assign_ranks, sort_by, with_rank, unranked, ranked, rank_cmp,
}
use beatblock_online.Room.Parts.{is_competitor}
use beatblock_online.Room.Ranking.Order.{IsOrder}
use beatblock_online.Room.Ranking.Sorting.{
  Indexed, Ascending, Has, before, IsSorted, All-Has, Indexed-Ascending, any-sort_by,
  count_if-sort_by, Has-sort_by, Indexed-sort_by, before_asym, before_irrefl, sort_by-IsSorted,
}

module _ {F : Type 0} where
  -- The place of the key with an index, counted from `n`.
  place : ℕ → ℕ → List (RankKey F) → Option ℕ
  place i n [] = none
  place i n (k ∷ ks) = let rest = place i (suc n) ks in if k.index == i then some n else rest

  ranked_at : Option ℕ → Participant F → Participant F
  ranked_at none p = p
  ranked_at (some n) p = with_rank ((n + 1) % u32_mod) p

  lift : (Participant F → Participant F) → Option (Participant F) → Option (Participant F)
  lift f none = none
  lift f (some p) = some (f p)

  get_elem?-modify_at :
      (f : Participant F → Participant F) (i j : ℕ) (ps : List (Participant F))
      → get_elem? (modify_at f j ps) i
        ≡ (if j == i then lift f (get_elem? ps i) else get_elem? ps i)
  unfolding lift
  get_elem?-modify_at f i j [] = ground arith
  get_elem?-modify_at f zero zero (p ∷ ps) = refl
  get_elem?-modify_at f (suc i) zero (p ∷ ps) = ground arith
  get_elem?-modify_at f zero (suc j) (p ∷ ps) = ground arith
  get_elem?-modify_at f (suc i) (suc j) (p ∷ ps) = ground (arith, get_elem?-modify_at f i j ps)

  place_none :
      (i n : ℕ) (ks : List (RankKey F)) → any (λ l. l.index == i) ks ≡ false → place i n ks ≡ none
  unfolding place
  place_none i n [] h = refl
  place_none i n (k ∷ ks) h = ground (arith, place_none i (suc n) ks)

  get_elem?-assign_ranks :
      (i n : ℕ) (ks : List (RankKey F)) (ps : List (Participant F))
      → Indexed ks
      → get_elem? (assign_ranks n ks ps) i ≡ lift (ranked_at (place i n ks)) (get_elem? ps i)
  unfolding assign_ranks place lift ranked_at
  get_elem?-assign_ranks i n [] ps d = same (get_elem? ps i)
    where
      same : (o : Option (Participant F)) → o ≡ lift (ranked_at none) o
      same none = refl
      same (some p) = refl
  get_elem?-assign_ranks i n (k ∷ ks) ps d = ground (
    arith,
    get_elem?-assign_ranks i (suc n) ks (modify_at (with_rank ((n + 1) % u32_mod)) k.index ps) d.1,
    get_elem?-modify_at (with_rank ((n + 1) % u32_mod)) i k.index ps,
    place_none k.index (suc n) ks d.0,
  )

  any_of_Has :
      (t : RankKey F → Bool) (k : RankKey F) (ks : List (RankKey F))
      → Has k ks
      → t k ≡ true
      → any t ks ≡ true
  any_of_Has t k [] m h = absurd m
  any_of_Has t k (l ∷ ks) (inl e) h = let same : t l ≡ true = ap t e ∙ h in ground arith
  any_of_Has t k (l ∷ ks) (inr m) h = ground (arith, any_of_Has t k ks m h)

  count_if_none :
      (t : RankKey F → Bool) (ks : List (RankKey F)) → All (λ l. t l ≡ false) ks → count_if t ks ≡ 0
  count_if_none t [] h = refl
  count_if_none t (k ∷ ks) h = ground (arith, count_if_none t ks h.1)

  rank_keys-lt :
      (n i : ℕ) (ps : List (Participant F)) → n < i → All (λ k. n < k.index) (rank_keys i ps)
  unfolding rank_keys rank_key
  rank_keys-lt n i [] h = tt
  rank_keys-lt n i (p ∷ ps) h = elim (Bool-cases (is_competitor p)) [
    | inl c ↦ rw c (h, rank_keys-lt n (suc i) ps (omega arith))
    | inr c ↦ rw c (rank_keys-lt n (suc i) ps (omega arith))
  ]

  rank_keys-Ascending : (i : ℕ) (ps : List (Participant F)) → Ascending (rank_keys i ps)
  unfolding rank_keys rank_key
  rank_keys-Ascending i [] = tt
  rank_keys-Ascending i (p ∷ ps) = elim (Bool-cases (is_competitor p)) [
    | inl c ↦ rw c (rank_keys-lt i (suc i) ps (omega arith), rank_keys-Ascending (suc i) ps)
    | inr c ↦ rw c (rank_keys-Ascending (suc i) ps)
  ]

  rank_keys-Has :
      (m i j : ℕ) (ps : List (Participant F)) (p : Participant F)
      → m ≡ i + j
      → get_elem? ps j ≡ some p
      → is_competitor p ≡ true
      → Has (rank_key m p) (rank_keys i ps)
  unfolding rank_keys rank_key
  rank_keys-Has m i j [] p e h c = absurd (ground arith)
  rank_keys-Has m i zero (q ∷ ps) p e h c =
      let same : q ≡ p = ground arith in
      let here : i ≡ m = omega (arith, e) in
      let racing : is_competitor q ≡ true = ap is_competitor same ∙ c in
      rw racing (inl (ap (rank_key i) same ∙ ap (λ x. rank_key x p) here))
  rank_keys-Has m i (suc j) (q ∷ ps) p e h c =
      let rest = rank_keys-Has m (suc i) j ps p (omega (arith, e)) h c in
      elim (Bool-cases (is_competitor q)) [ inl r ↦ rw r (inr rest) | inr r ↦ rw r rest ]

  any_of_lt :
      (m : ℕ) (ks : List (RankKey F))
      → All (λ k. m < k.index) ks
      → any (λ k. k.index == m) ks ≡ false
  any_of_lt m [] h = refl
  any_of_lt m (k ∷ ks) h = ground (arith, any_of_lt m ks h.1)

  any-rank_keys :
      (m i j : ℕ) (ps : List (Participant F)) (p : Participant F)
      → m ≡ i + j
      → get_elem? ps j ≡ some p
      → is_competitor p ≡ false
      → any (λ k. k.index == m) (rank_keys i ps) ≡ false
  unfolding rank_keys rank_key
  any-rank_keys m i j [] p e h c = refl
  any-rank_keys m i zero (q ∷ ps) p e h c =
      let same : q ≡ p = ground arith in
      let resting : is_competitor q ≡ false = ap is_competitor same ∙ c in
      rw resting (any_of_lt m (rank_keys (suc i) ps) (rank_keys-lt m (suc i) ps (omega (arith, e))))
  any-rank_keys m i (suc j) (q ∷ ps) p e h c =
      ground (arith, any-rank_keys m (suc i) j ps p (omega (arith, e)) h c)

  get_elem?-map-unranked :
      (i : ℕ) (ps : List (Participant F))
      → get_elem? (map unranked ps) i ≡ lift unranked (get_elem? ps i)
  unfolding lift
  get_elem?-map-unranked i [] = refl
  get_elem?-map-unranked zero (p ∷ ps) = refl
  get_elem?-map-unranked (suc i) (p ∷ ps) = get_elem?-map-unranked i ps

module _ {F : Type 0} {cmp : RankKey F → RankKey F → Ordering} (o : IsOrder cmp) where
  All-after :
      (k : RankKey F) (ks : List (RankKey F))
      → All (λ l. before cmp k l ≡ true) ks
      → All (λ l. before cmp l k ≡ false) ks
  All-after k [] h = tt
  All-after k (l ∷ ks) h = (before_asym o k l h.0, All-after k ks h.1)

  -- In a sorted list the place of a key is the number of keys before it.
  place-count :
      (k : RankKey F) (n : ℕ) (ks : List (RankKey F))
      → IsSorted cmp ks
      → Indexed ks
      → Has k ks
      → place k.index n ks ≡ some (n + count_if (λ l. before cmp l k) ks)
  unfolding place
  place-count k n [] s d m = absurd m
  place-count k n (l ∷ ks) s d (inl e) =
      subst (λ x. place x.index n (l ∷ ks) ≡ some (n + count_if (λ y. before cmp y x) (l ∷ ks))) e
        (ground
          (arith, before_irrefl o l, count_if_none (λ y. before cmp y l) ks (All-after l ks s.0)))
  place-count k n (l ∷ ks) s d (inr m) = ground (
    arith,
    place-count k (suc n) ks s.1 d.1 m,
    All-Has (λ y. before cmp l y ≡ true) ks s.0 m,
    any_of_Has (λ y. y.index == l.index) k ks m,
  )

module _ {F : Type 0} ⦃fl : Float F⦄ where
  -- The rank that a participant deserves: none if they do not compete, else one more than the number
  -- of competitors who rank before them.
  abbrev pub deserved : List (Participant F) → ℕ → Participant F → Option ℕ
  deserved ps i p =
      if is_competitor p
      then some ((count_if (λ k. before rank_cmp k (rank_key i p)) (rank_keys 0 ps) + 1) % u32_mod)
      else none

  place-sort_by :
      IsOrder (rank_cmp {F = F} ⦃fl = fl⦄)
      → (ps : List (Participant F)) (i : ℕ) (p : Participant F) → get_elem? ps i ≡ some p
      → is_competitor p ≡ true
      → place i 0 (sort_by rank_cmp (rank_keys 0 ps))
        ≡ some (count_if (λ k. before rank_cmp k (rank_key i p)) (rank_keys 0 ps))
  unfolding rank_key
  place-sort_by o ps i p h c =
      let keys = rank_keys 0 ps in
      let ascending = rank_keys-Ascending 0 ps in
      let at =
        Has-sort_by rank_cmp (rank_key i p) keys (rank_keys-Has i 0 i ps p (omega arith) h c) in
      place-count o (rank_key i p) 0 (sort_by rank_cmp keys) (sort_by-IsSorted o keys ascending)
        (Indexed-sort_by rank_cmp keys (Indexed-Ascending keys ascending)) at
      ∙ ap some
          (omega (arith, count_if-sort_by rank_cmp (λ k. before rank_cmp k (rank_key i p)) keys))

  pub get_elem?-ranked :
      IsOrder (rank_cmp {F = F} ⦃fl = fl⦄)
      → (ps : List (Participant F)) (i : ℕ) (p : Participant F) → get_elem? ps i ≡ some p
      → get_elem? (ranked ps) i ≡ some (record p { rank = deserved ps i p })
  unfolding ranked lift ranked_at
  get_elem?-ranked o ps i p h =
      let keys = rank_keys 0 ps in
      let distinct =
        Indexed-sort_by rank_cmp keys (Indexed-Ascending keys (rank_keys-Ascending 0 ps)) in
      get_elem?-assign_ranks i 0 (sort_by rank_cmp keys) (map unranked ps) distinct
      ∙ ap (lift (ranked_at (place i 0 (sort_by rank_cmp keys))))
          (get_elem?-map-unranked i ps ∙ ap (lift unranked) h)
      ∙ elim (Bool-cases (is_competitor p)) [
        | inl c ↦ rw (c, place-sort_by o ps i p h c) refl
        | inr c ↦
            let out =
              any-sort_by rank_cmp (λ k. k.index == i) keys
              ∙ any-rank_keys i 0 i ps p (omega arith) h c in
            rw (c, place_none i 0 (sort_by rank_cmp keys) out) refl
      ]
