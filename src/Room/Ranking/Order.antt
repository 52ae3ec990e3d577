-- ===== src/Room/Ranking/Order.antt =====
-- Comparisons that are total orders up to `eq`, and those that are built from them.
use Prim.Native.Nat.{Ordering, compare}
use beatblock_online.Base.{◌≡◌, refl, Text, [], ◌∷◌, text_cmp, arith}
use beatblock_online.Float.{Float, reversed}
use beatblock_online.Room.Rank.{then_with}

pub record IsOrder {A : Type 0} (cmp : A → A → Ordering) : Type 0 where
  pub cmp-refl : (a : A) → cmp a a ≡ Ordering.eq
  pub cmp-swap : (a b : A) → cmp b a ≡ reversed (cmp a b)
  pub cmp-eq : (a b c : A) → cmp a b ≡ Ordering.eq → cmp b c ≡ cmp a c
  pub cmp_trans :
      (a b c : A) → cmp a b ≡ Ordering.lt → cmp b c ≡ Ordering.lt → cmp a c ≡ Ordering.lt

pub IsOrder-compare : IsOrder compare
IsOrder-compare = record {
  cmp-refl = λ a. ground arith;
  cmp-swap = λ a b. ground arith;
  cmp-eq = λ a b c h. ground arith;
  cmp_trans = λ a b c h k. ground arith;
}

pub IsOrder-total_cmp : {F : Type 0} ⦃fl : Float F⦄ → IsOrder (fl.total_cmp)
IsOrder-total_cmp ⦃fl⦄ = record {
  cmp-refl = fl.total_cmp-refl;
  cmp-swap = fl.total_cmp-swap;
  cmp-eq = fl.total_cmp-eq;
  cmp_trans = fl.total_cmp_trans;
}

-- Comparing keys, downwards, and by one comparison and then by another.
pub IsOrder-by :
    {A B : Type 0} (key : A → B) (cmp : B → B → Ordering)
    → IsOrder cmp
    → IsOrder (λ (a b : A). cmp (key a) (key b))
IsOrder-by key cmp o = record {
  cmp-refl = λ a. o.cmp-refl (key a);
  cmp-swap = λ a b. o.cmp-swap (key a) (key b);
  cmp-eq = λ a b c. o.cmp-eq (key a) (key b) (key c);
  cmp_trans = λ a b c. o.cmp_trans (key a) (key b) (key c);
}

pub IsOrder-flip :
    {A : Type 0} (cmp : A → A → Ordering) → IsOrder cmp → IsOrder (λ (a b : A). cmp b a)
IsOrder-flip cmp o = record {
  cmp-refl = o.cmp-refl;
  cmp-swap = λ a b. o.cmp-swap b a;
  cmp-eq =
      λ a b c h. ground (arith, o.cmp-swap b a, o.cmp-swap c b, o.cmp-swap c a, o.cmp-eq a b c);
  cmp_trans = λ a b c h k. o.cmp_trans c b a k h;
}

pub IsOrder-then_with :
    {A : Type 0} (first next : A → A → Ordering)
    → IsOrder first
    → IsOrder next
    → IsOrder (λ (a b : A). then_with (first a b) (next a b))
IsOrder-then_with first next o p = record {
  cmp-refl = λ a. ground (arith, o.cmp-refl a, p.cmp-refl a);
  cmp-swap = λ a b. ground (arith, o.cmp-swap a b, p.cmp-swap a b);
  cmp-eq = λ a b c h. ground (arith, o.cmp-eq a b c, p.cmp-eq a b c);
  cmp_trans = λ a b c h k. ground (
    arith,
    o.cmp-eq a b c,
    o.cmp-eq c b a,
    o.cmp-swap a b,
    o.cmp-swap b c,
    o.cmp-swap a c,
    o.cmp_trans a b c,
    p.cmp_trans a b c,
  );
}

text_cmp_refl : (s : Text) → text_cmp s s ≡ Ordering.eq
unfolding text_cmp
text_cmp_refl [] = refl
text_cmp_refl (c ∷ s) = ground (arith, text_cmp_refl s)

text_cmp-swap : (s t : Text) → text_cmp t s ≡ reversed (text_cmp s t)
unfolding text_cmp
text_cmp-swap [] [] = refl
text_cmp-swap [] (d ∷ t) = refl
text_cmp-swap (c ∷ s) [] = refl
text_cmp-swap (c ∷ s) (d ∷ t) = ground (arith, text_cmp-swap s t)

text_cmp-eq : (s t u : Text) → text_cmp s t ≡ Ordering.eq → text_cmp t u ≡ text_cmp s u
unfolding text_cmp
text_cmp-eq [] [] u h = refl
text_cmp-eq [] (d ∷ t) u h = ground arith
text_cmp-eq (c ∷ s) [] u h = ground arith
text_cmp-eq (c ∷ s) (d ∷ t) [] h = refl
text_cmp-eq (c ∷ s) (d ∷ t) (e ∷ u) h = ground (arith, text_cmp-eq s t u)

text_cmp_trans :
    (s t u : Text)
    → text_cmp s t ≡ Ordering.lt
    → text_cmp t u ≡ Ordering.lt
    → text_cmp s u ≡ Ordering.lt
unfolding text_cmp
text_cmp_trans [] [] u h k = ground arith
text_cmp_trans [] (d ∷ t) [] h k = ground arith
text_cmp_trans [] (d ∷ t) (e ∷ u) h k = refl
text_cmp_trans (c ∷ s) [] u h k = ground arith
text_cmp_trans (c ∷ s) (d ∷ t) [] h k = ground arith
text_cmp_trans (c ∷ s) (d ∷ t) (e ∷ u) h k = ground (arith, text_cmp_trans s t u)

pub IsOrder-text_cmp : IsOrder text_cmp
IsOrder-text_cmp = record {
  cmp-refl = text_cmp_refl;
  cmp-swap = text_cmp-swap;
  cmp-eq = text_cmp-eq;
  cmp_trans = text_cmp_trans;
}
