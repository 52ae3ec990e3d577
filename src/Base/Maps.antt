-- ===== src/Base/Maps.antt =====
-- `HashMap<String, V>` as an association list and `HashSet<String>` as a list, both with the keys
-- in no particular order.
use mathlib.Core.Path.{◌≡◌, refl}
use mathlib.Core.Bool.{Bool, false, ◌||◌}
use mathlib.Core.Option.{Option, none, some}
use mathlib.Core.List.{List, [], ◌∷◌}
use native.Mathlib.Omega.{arith}
use beatblock_online.Base.Tests.{if◌then◌else◌}
use beatblock_online.Base.Chars.{Text, text_eq, text_eq_iff}

-- `HashSet::contains`, `insert` and `remove`
unfoldable pub contains : List Text → Text → Bool
contains [] k = false
contains (j ∷ s) k = text_eq j k || contains s k

unfoldable pub insert : Text → List Text → List Text
insert k s = if contains s k then s else k ∷ s

unfoldable pub remove : Text → List Text → List Text
remove k [] = []
remove k (j ∷ s) = let rest = remove k s in if text_eq j k then rest else j ∷ rest

pub contains-insert :
    (k j : Text) (s : List Text) → contains (insert k s) j ≡ (text_eq k j || contains s j)
unfolding insert contains
contains-insert k j [] = ground arith
contains-insert k j (i ∷ s) =
    ground (arith, text_eq_iff k j, text_eq_iff i k, text_eq_iff i j, contains-insert k j s)

pub contains-remove :
    (k j : Text) (s : List Text)
    → contains (remove k s) j ≡ (if text_eq k j then false else contains s j)
unfolding remove contains
contains-remove k j [] = ground arith
contains-remove k j (i ∷ s) =
    ground (arith, text_eq_iff k j, text_eq_iff i k, text_eq_iff i j, contains-remove k j s)

-- `HashMap::get`, `insert` and `remove`
module _ {ℓ} {V : Type ℓ} where
  unfoldable pub lookup : Text → List (Text × V) → Option V
  lookup k [] = none
  lookup k ((j, v) ∷ m) = if text_eq j k then some v else lookup k m

  unfoldable pub put : Text → V → List (Text × V) → List (Text × V)
  put k v [] = (k, v) ∷ []
  put k v ((j, w) ∷ m) = if text_eq j k then (k, v) ∷ m else (j, w) ∷ put k v m

  unfoldable pub delete : Text → List (Text × V) → List (Text × V)
  delete k [] = []
  delete k ((j, v) ∷ m) = let rest = delete k m in if text_eq j k then rest else (j, v) ∷ rest

  pub lookup-put :
      (k j : Text) (v : V) (m : List (Text × V))
      → lookup j (put k v m) ≡ (if text_eq k j then some v else lookup j m)
  unfolding lookup put
  lookup-put k j v [] = refl
  lookup-put k j v ((i, w) ∷ m) =
      ground (arith, text_eq_iff k j, text_eq_iff i k, text_eq_iff i j, lookup-put k j v m)

  pub lookup-delete :
      (k j : Text) (m : List (Text × V))
      → lookup j (delete k m) ≡ (if text_eq k j then none else lookup j m)
  unfolding lookup delete
  lookup-delete k j [] = ground arith
  lookup-delete k j ((i, w) ∷ m) =
      ground (arith, text_eq_iff k j, text_eq_iff i k, text_eq_iff i j, lookup-delete k j m)
