-- ===== src/Base/Lists.antt =====
-- Lists measured, indexed and tested by native numbers and Boolean functions, with the names of
-- the library or of the methods of `Vec` and `Iterator`.
use Prim.Native.Nat.{ℕ, zero, suc, ◌+◌, ◌≤◌, ◌<◌}
use mathlib.Core.Path.{◌≡◌, refl}
use mathlib.Core.Bool.{Bool, true, false, ◌&&◌, ◌||◌}
use mathlib.Core.List.{List, [], ◌∷◌, ◌++◌}
use mathlib.Core.Option.{Option, none, some}
use native.Mathlib.Omega.{arith}
use mathlib.Core.Logic.{inl, inr}
use beatblock_online.Base.Tests.{if◌then◌else◌, Bool-cases, Option-cases, is_some}

module _ {ℓ} {A : Type ℓ} where
  abbrev pub length : List A → ℕ
  length [] = 0
  length (x ∷ xs) = suc (length xs)

  abbrev pub is_empty : List A → Bool
  is_empty [] = true
  is_empty (x ∷ xs) = false

  abbrev pub get_elem? : List A → ℕ → Option A
  get_elem? [] i = none
  get_elem? (x ∷ xs) zero = some x
  get_elem? (x ∷ xs) (suc i) = get_elem? xs i

  abbrev pub take : ℕ → List A → List A
  take zero xs = []
  take (suc n) [] = []
  take (suc n) (x ∷ xs) = x ∷ take n xs

  -- `iter().all` and `iter().any`
  abbrev pub all : (A → Bool) → List A → Bool
  all p [] = true
  all p (x ∷ xs) = p x && all p xs

  abbrev pub any : (A → Bool) → List A → Bool
  any p [] = false
  any p (x ∷ xs) = p x || any p xs

  -- Every element satisfies the predicate.
  abbrev pub All {κ} : (A → Type κ) → List A → Type κ
  All P [] = Unit
  All P (x ∷ xs) = P x × All P xs

  -- `Vec::retain`, and `iter().filter(..).collect()`
  abbrev pub retain : (A → Bool) → List A → List A
  retain p [] = []
  retain p (x ∷ xs) = let rest = retain p xs in if p x then x ∷ rest else rest

  -- `iter().filter(..).count()`
  abbrev pub count_if : (A → Bool) → List A → ℕ
  count_if p [] = 0
  count_if p (x ∷ xs) = (if p x then 1 else 0) + count_if p xs

  -- `iter().find(..)`
  abbrev pub find : (A → Bool) → List A → Option A
  find p [] = none
  find p (x ∷ xs) = let rest = find p xs in if p x then some x else rest

  -- `iter().position(..)`
  abbrev pub position : (A → Bool) → List A → Option ℕ
  position p [] = none
  position p (x ∷ xs) =
      let rest : Option ℕ = elim (position p xs) [ none ↦ none | some i ↦ some (suc i) ] in
      if p x then some 0 else rest

  -- `Vec::remove` and `Vec::insert`, at an index in range
  abbrev pub remove_at : List A → ℕ → List A
  remove_at [] i = []
  remove_at (x ∷ xs) zero = xs
  remove_at (x ∷ xs) (suc i) = x ∷ remove_at xs i

  abbrev pub insert_at : List A → ℕ → A → List A
  insert_at xs zero a = a ∷ xs
  insert_at [] (suc i) a = a ∷ []
  insert_at (x ∷ xs) (suc i) a = x ∷ insert_at xs i a

  -- `if let Some(entry) = v.get_mut(i) { f(entry) }`
  abbrev pub modify_at : (A → A) → ℕ → List A → List A
  modify_at f i [] = []
  modify_at f zero (x ∷ xs) = f x ∷ xs
  modify_at f (suc i) (x ∷ xs) = x ∷ modify_at f i xs

  pub length-append : (xs ys : List A) → length (xs ++ ys) ≡ length xs + length ys
  length-append [] ys = omega arith
  length-append (x ∷ xs) ys = omega (arith, length-append xs ys)

  pub length-retain-le : (p : A → Bool) (xs : List A) → length (retain p xs) ≤ length xs
  length-retain-le p [] = omega arith
  length-retain-le p (x ∷ xs) = ground (arith, length-retain-le p xs)

  pub count_if-append :
      (p : A → Bool) (xs ys : List A) → count_if p (xs ++ ys) ≡ count_if p xs + count_if p ys
  count_if-append p [] ys = omega arith
  count_if-append p (x ∷ xs) ys = omega (arith, count_if-append p xs ys)

  pub count_if-retain-le : (p q : A → Bool) (xs : List A) → count_if p (retain q xs) ≤ count_if p xs
  count_if-retain-le p q [] = omega arith
  count_if-retain-le p q (x ∷ xs) = ground (arith, count_if-retain-le p q xs)

  pub count_if-le-length : (p : A → Bool) (xs : List A) → count_if p xs ≤ length xs
  count_if-le-length p [] = omega arith
  count_if-le-length p (x ∷ xs) = ground (arith, count_if-le-length p xs)

  -- `position` finds an element in range that passes the test.
  pub position-lt : (p : A → Bool) (xs : List A) {i : ℕ} → position p xs ≡ some i → i < length xs
  position-lt p [] h = ground arith
  position-lt p (x ∷ xs) {i} h = elim (Option-cases (position p xs)) [
    | inl e ↦ ground arith
    | inr (j, e) ↦ ground (arith, position-lt p xs {i = j} e)
  ]

  -- The element at the position found passes the test.
  pub position-get_elem? :
      (p : A → Bool) (xs : List A) {i : ℕ}
      → position p xs ≡ some i
      → (a : A) × (get_elem? xs i ≡ some a) × (p a ≡ true)
  position-get_elem? p [] h = ground arith
  position-get_elem? p (x ∷ xs) {i} h = elim (Bool-cases (p x)) [
    | inl e ↦ let at_front : i ≡ 0 = ground arith in rw at_front (x, refl, e)
    | inr e ↦ elim (Option-cases (position p xs)) [
      | inl f ↦ absurd (ground arith)
      | inr (j, f) ↦
          let (a, at, passes) = position-get_elem? p xs {i = j} f in
          let behind : i ≡ suc j = ground arith in rw behind (a, at, passes)
    ]
  ]

  -- A passing element is found.
  pub position_of_any :
      (p : A → Bool) (xs : List A) → any p xs ≡ true → is_some (position p xs) ≡ true
  position_of_any p [] h = ground arith
  position_of_any p (x ∷ xs) h = ground (arith, position_of_any p xs)

pub All-imp :
    {A : Type 0} {P Q : A → Type 0} (xs : List A) → ((x : A) → P x → Q x) → All P xs → All Q xs
All-imp [] f h = tt
All-imp (x ∷ xs) f h = (f x h.0, All-imp xs f h.1)
