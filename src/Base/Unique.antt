-- ===== src/Base/Unique.antt =====
-- Lists whose elements are pairwise different under a Boolean test.
use mathlib.Core.Path.{◌≡◌, refl}
use mathlib.Core.Bool.{Bool, false}
use mathlib.Core.List.{List, [], ◌∷◌, ◌++◌}
use native.Mathlib.Omega.{arith}
use beatblock_online.Base.Lists.{any, retain}

module _ {ℓ} {A : Type ℓ} (same : A → A → Bool) where
  -- No element is the same as one that stands behind it.
  abbrev pub Distinct : List A → Type 0
  Distinct [] = Unit
  Distinct (x ∷ xs) = (any (same x) xs ≡ false) × Distinct xs

module _ {ℓ} {A : Type ℓ} where
  any-retain : (p q : A → Bool) (xs : List A) → any p xs ≡ false → any p (retain q xs) ≡ false
  any-retain p q [] h = refl
  any-retain p q (x ∷ xs) h = ground (arith, any-retain p q xs)

  any-append_last :
      (p : A → Bool) (xs : List A) (a : A)
      → any p xs ≡ false
      → p a ≡ false
      → any p (xs ++ a ∷ []) ≡ false
  any-append_last p [] a h k = ground arith
  any-append_last p (x ∷ xs) a h k = ground (arith, any-append_last p xs a)

  pub Distinct-retain :
      (same : A → A → Bool) (q : A → Bool) (xs : List A)
      → Distinct same xs
      → Distinct same (retain q xs)
  Distinct-retain same q [] d = tt
  Distinct-retain same q (x ∷ xs) d =
      ground (arith, Distinct-retain same q xs d.1, any-retain (same x) q xs d.0)

  pub Distinct-append_last :
      (same : A → A → Bool) (xs : List A) (a : A)
      → Distinct same xs
      → any (λ x. same x a) xs ≡ false
      → Distinct same (xs ++ a ∷ [])
  Distinct-append_last same [] a d h = (refl, tt)
  Distinct-append_last same (x ∷ xs) a d h = (
    any-append_last (same x) xs a d.0 (ground arith),
    Distinct-append_last same xs a d.1 (ground arith),
  )
