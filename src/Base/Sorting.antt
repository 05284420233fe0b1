-- ===== src/Base/Sorting.antt =====
-- Go's order on strings, and its `sort` as insertion sort: the program relies only on the result
-- being an ordered rearrangement.
use Prim.Native.Nat.{Ordering}
use Prim.Native.String.{String, compare}
use Prim.Native.String.compare as compare_clauses
use mathlib.Core.Path.{◌≡◌, refl}
use mathlib.Core.Logic.{inl, inr}
use mathlib.Core.Bool.{Bool, true, false, ◌||◌}
use mathlib.Core.List.{List, [], ◌∷◌}
use native.Mathlib.Omega.{arith}
use brent.Base.Tests.{if◌then◌else◌, Bool-cases}
use brent.Base.Lists.{any}

-- `s <= t`, which is `!(t < s)`
abbrev pub str_le : String → String → Bool
str_le s t = elim (compare s t) [ Ordering.gt ↦ false | _ ↦ true ]

pub str_le_total : (s t : String) → str_le s t ≡ false → str_le t s ≡ true
str_le_total String.[] String.[] h = ground (arith, compare_clauses.nil-nil)
str_le_total String.[] (String.◌∷◌ d t) h = ground (arith, compare_clauses.nil-cons d t)
str_le_total (String.◌∷◌ c s) String.[] h = ground (arith, compare_clauses.nil-cons c s)
str_le_total (String.◌∷◌ c s) (String.◌∷◌ d t) h =
    ground (
      arith,
      compare_clauses.cons-cons c d s t,
      compare_clauses.cons-cons d c t s,
      str_le_total s t,
    )

module _ {ℓ} {A : Type ℓ} (key : A → String) where
  -- one element into an ordered list
  abbrev pub insert_sorted : A → List A → List A
  insert_sorted x [] = x ∷ []
  insert_sorted x (y ∷ ys) =
      let rest = insert_sorted x ys in if str_le (key x) (key y) then x ∷ y ∷ ys else y ∷ rest

  -- `sort.Slice` by a string key; `sort.Strings` at the identity
  abbrev pub sort_by : List A → List A
  sort_by [] = []
  sort_by (x ∷ xs) = insert_sorted x (sort_by xs)

  abbrev pub FirstLe : String → List A → Type 0
  FirstLe s [] = Unit
  FirstLe s (y ∷ ys) = str_le s (key y) ≡ true

  abbrev pub IsSorted : List A → Type 0
  IsSorted [] = Unit
  IsSorted (x ∷ xs) = FirstLe (key x) xs × IsSorted xs

  insert_sorted-FirstLe :
      (s : String) (x : A) (ys : List A)
      → str_le s (key x) ≡ true
      → FirstLe s ys
      → FirstLe s (insert_sorted x ys)
  insert_sorted-FirstLe s x [] h k = h
  insert_sorted-FirstLe s x (y ∷ ys) h k = elim (Bool-cases (str_le (key x) (key y))) [
    | inl below ↦ rw below h
    | inr above ↦ rw above k
  ]

  insert_sorted-IsSorted : (x : A) (ys : List A) → IsSorted ys → IsSorted (insert_sorted x ys)
  insert_sorted-IsSorted x [] h = (tt, tt)
  insert_sorted-IsSorted x (y ∷ ys) h = elim (Bool-cases (str_le (key x) (key y))) [
    | inl below ↦ rw below (below, h)
    | inr above ↦ rw above (
      insert_sorted-FirstLe (key y) x ys (str_le_total (key x) (key y) above) h.0,
      insert_sorted-IsSorted x ys h.1,
    )
  ]

  pub sort_by-IsSorted : (xs : List A) → IsSorted (sort_by xs)
  sort_by-IsSorted [] = tt
  sort_by-IsSorted (x ∷ xs) = insert_sorted-IsSorted x (sort_by xs) (sort_by-IsSorted xs)

  any-insert_sorted :
      (p : A → Bool) (x : A) (ys : List A) → any p (insert_sorted x ys) ≡ (p x || any p ys)
  any-insert_sorted p x [] = refl
  any-insert_sorted p x (y ∷ ys) = ground (arith, any-insert_sorted p x ys)

  -- Sorting keeps which elements there are.
  pub any-sort_by : (p : A → Bool) (xs : List A) → any p (sort_by xs) ≡ any p xs
  any-sort_by p [] = refl
  any-sort_by p (x ∷ xs) = ground (arith, any-insert_sorted p x (sort_by xs), any-sort_by p xs)
