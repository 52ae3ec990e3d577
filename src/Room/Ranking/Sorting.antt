-- ===== src/Room/Ranking/Sorting.antt =====
-- The sort of the keys: it keeps them, and orders them by the comparison and, on a tie, by the index.
use Prim.Native.Nat.{Ordering}
use beatblock_online.Base.{
  ℕ, ◌<◌, Bool, true, false, ◌||◌, ◌≡◌, refl, subst, ◌∙◌, ◌⊎◌, inl, inr, List, [], ◌∷◌, All, any,
  count_if, arith, ltb, ◌==◌, Bool-cases,
}
use beatblock_online.Room.Rank.{RankKey, insert_sorted, sort_by, is_gt}
use beatblock_online.Room.Ranking.Order.{IsOrder}

module _ {F : Type 0} where
  -- No two keys have one index; the indexes ascend; a key is in a list.
  abbrev pub Indexed : List (RankKey F) → Type 0
  Indexed [] = Unit
  Indexed (k ∷ ks) = (any (λ l. l.index == k.index) ks ≡ false) × Indexed ks

  abbrev pub Ascending : List (RankKey F) → Type 0
  Ascending [] = Unit
  Ascending (k ∷ ks) = All (λ l. k.index < l.index) ks × Ascending ks

  abbrev pub Has : RankKey F → List (RankKey F) → Type 0
  Has k [] = ⊥
  Has k (l ∷ ks) = (l ≡ k) ⊎ Has k ks

  -- A key ranks before another: the comparison says so, or they tie and it has the lower index.
  abbrev pub before : (RankKey F → RankKey F → Ordering) → RankKey F → RankKey F → Bool
  before cmp k l = elim (cmp k l) [
    | Ordering.lt ↦ true
    | Ordering.eq ↦ ltb k.index l.index
    | Ordering.gt ↦ false
  ]

  abbrev pub IsSorted : (RankKey F → RankKey F → Ordering) → List (RankKey F) → Type 0
  IsSorted cmp [] = Unit
  IsSorted cmp (k ∷ ks) = All (λ l. before cmp k l ≡ true) ks × IsSorted cmp ks

  pub All-Has :
      (P : RankKey F → Type 0) {k : RankKey F} (ks : List (RankKey F)) → All P ks → Has k ks → P k
  All-Has P [] h m = absurd m
  All-Has P (l ∷ ks) h (inl e) = subst P e h.0
  All-Has P (l ∷ ks) h (inr m) = All-Has P ks h.1 m

  pub Indexed-Ascending : (ks : List (RankKey F)) → Ascending ks → Indexed ks
  Indexed-Ascending [] h = tt
  Indexed-Ascending (k ∷ ks) h = (apart k.index ks h.0, Indexed-Ascending ks h.1)
    where
      apart :
          (i : ℕ) (ls : List (RankKey F))
          → All (λ l. i < l.index) ls
          → any (λ l. l.index == i) ls ≡ false
      apart i [] h = refl
      apart i (l ∷ ls) h = ground (arith, apart i ls)

module _ {F : Type 0} (cmp : RankKey F → RankKey F → Ordering) where
  any-insert :
      (t : RankKey F → Bool) (a : RankKey F) (ks : List (RankKey F))
      → any t (insert_sorted cmp a ks) ≡ (t a || any t ks)
  unfolding insert_sorted
  any-insert t a [] = refl
  any-insert t a (k ∷ ks) = ground (arith, any-insert t a ks)

  pub any-sort_by :
      (t : RankKey F → Bool) (ks : List (RankKey F)) → any t (sort_by cmp ks) ≡ any t ks
  unfolding sort_by
  any-sort_by t [] = refl
  any-sort_by t (k ∷ ks) = ground (arith, any-insert t k (sort_by cmp ks), any-sort_by t ks)

  count_if-insert :
      (t : RankKey F → Bool) (a : RankKey F) (ks : List (RankKey F))
      → count_if t (insert_sorted cmp a ks) ≡ count_if t (a ∷ ks)
  unfolding insert_sorted
  count_if-insert t a [] = refl
  count_if-insert t a (k ∷ ks) = ground (arith, count_if-insert t a ks)

  pub count_if-sort_by :
      (t : RankKey F → Bool) (ks : List (RankKey F)) → count_if t (sort_by cmp ks) ≡ count_if t ks
  unfolding sort_by
  count_if-sort_by t [] = refl
  count_if-sort_by t (k ∷ ks) =
      ground (arith, count_if-insert t k (sort_by cmp ks), count_if-sort_by t ks)

  All-insert :
      (P : RankKey F → Type 0) (a : RankKey F) (ks : List (RankKey F))
      → P a
      → All P ks
      → All P (insert_sorted cmp a ks)
  unfolding insert_sorted
  All-insert P a [] p h = (p, tt)
  All-insert P a (k ∷ ks) p h = elim (Bool-cases (is_gt (cmp a k))) [
    | inl e ↦ rw e (h.0, All-insert P a ks p h.1)
    | inr e ↦ rw e (p, h)
  ]

  All-sort_by : (P : RankKey F → Type 0) (ks : List (RankKey F)) → All P ks → All P (sort_by cmp ks)
  unfolding sort_by
  All-sort_by P [] h = tt
  All-sort_by P (k ∷ ks) h = All-insert P k (sort_by cmp ks) h.0 (All-sort_by P ks h.1)

  Has-insert_self : (a : RankKey F) (ks : List (RankKey F)) → Has a (insert_sorted cmp a ks)
  unfolding insert_sorted
  Has-insert_self a [] = inl refl
  Has-insert_self a (k ∷ ks) = elim (Bool-cases (is_gt (cmp a k))) [
    | inl e ↦ rw e (inr (Has-insert_self a ks))
    | inr e ↦ rw e (inl refl)
  ]

  Has-insert : (l a : RankKey F) (ks : List (RankKey F)) → Has l ks → Has l (insert_sorted cmp a ks)
  unfolding insert_sorted
  Has-insert l a [] m = absurd m
  Has-insert l a (k ∷ ks) m = elim (Bool-cases (is_gt (cmp a k))) [
    | inl e ↦ rw e (elim m [ inl f ↦ inl f | inr n ↦ inr (Has-insert l a ks n) ])
    | inr e ↦ rw e (inr m)
  ]

  pub Has-sort_by : (l : RankKey F) (ks : List (RankKey F)) → Has l ks → Has l (sort_by cmp ks)
  unfolding sort_by
  Has-sort_by l [] m = m
  Has-sort_by l (k ∷ ks) (inl e) =
      subst (λ x. Has x (insert_sorted cmp k (sort_by cmp ks))) e
        (Has-insert_self k (sort_by cmp ks))
  Has-sort_by l (k ∷ ks) (inr m) = Has-insert l k (sort_by cmp ks) (Has-sort_by l ks m)

  Indexed-insert :
      (a : RankKey F) (ks : List (RankKey F))
      → any (λ l. l.index == a.index) ks ≡ false
      → Indexed ks
      → Indexed (insert_sorted cmp a ks)
  unfolding insert_sorted
  Indexed-insert a [] h d = (refl, tt)
  Indexed-insert a (k ∷ ks) h d = elim (Bool-cases (is_gt (cmp a k))) [
    | inl e ↦ rw e (
      ground (arith, any-insert (λ l. l.index == k.index) a ks),
      Indexed-insert a ks (ground arith) d.1,
    )
    | inr e ↦ rw e (h, d)
  ]

  pub Indexed-sort_by : (ks : List (RankKey F)) → Indexed ks → Indexed (sort_by cmp ks)
  unfolding sort_by
  Indexed-sort_by [] d = tt
  Indexed-sort_by (k ∷ ks) d =
      Indexed-insert k (sort_by cmp ks) (any-sort_by (λ l. l.index == k.index) ks ∙ d.0)
        (Indexed-sort_by ks d.1)

module _ {F : Type 0} {cmp : RankKey F → RankKey F → Ordering} (o : IsOrder cmp) where
  before_trans :
      (a b c : RankKey F) → before cmp a b ≡ true → before cmp b c ≡ true → before cmp a c ≡ true
  before_trans a b c h k = ground (
    arith,
    o.cmp-eq a b c,
    o.cmp-eq c b a,
    o.cmp-swap a b,
    o.cmp-swap b c,
    o.cmp-swap a c,
    o.cmp_trans a b c,
  )

  pub before_asym : (a b : RankKey F) → before cmp a b ≡ true → before cmp b a ≡ false
  before_asym a b h = ground (arith, o.cmp-swap a b)

  pub before_irrefl : (a : RankKey F) → before cmp a a ≡ false
  before_irrefl a = ground (arith, o.cmp-refl a)

  All-before_trans :
      (a b : RankKey F) (ks : List (RankKey F))
      → before cmp a b ≡ true
      → All (λ l. before cmp b l ≡ true) ks
      → All (λ l. before cmp a l ≡ true) ks
  All-before_trans a b [] h k = tt
  All-before_trans a b (l ∷ ks) h k = (before_trans a b l h k.0, All-before_trans a b ks h k.1)

  insert_sorted-IsSorted :
      (a : RankKey F) (ks : List (RankKey F))
      → All (λ l. a.index < l.index) ks
      → IsSorted cmp ks
      → IsSorted cmp (insert_sorted cmp a ks)
  unfolding insert_sorted
  insert_sorted-IsSorted a [] h s = (tt, tt)
  insert_sorted-IsSorted a (k ∷ ks) h s = elim (Bool-cases (is_gt (cmp a k))) [
    | inl e ↦
        let passed : before cmp k a ≡ true = ground (arith, o.cmp-swap a k) in
        rw e (
          All-insert cmp (λ l. before cmp k l ≡ true) a ks passed s.0,
          insert_sorted-IsSorted a ks h.1 s.1,
        )
    | inr e ↦
        let first : before cmp a k ≡ true = ground (arith, h.0) in
        rw e ((first, All-before_trans a k ks first s.0), s)
  ]

  -- The sort leaves each key before all that follow it.
  pub sort_by-IsSorted : (ks : List (RankKey F)) → Ascending ks → IsSorted cmp (sort_by cmp ks)
  unfolding sort_by
  sort_by-IsSorted [] h = tt
  sort_by-IsSorted (k ∷ ks) h =
      insert_sorted-IsSorted k (sort_by cmp ks) (All-sort_by cmp (λ l. k.index < l.index) ks h.0)
        (sort_by-IsSorted ks h.1)
