-- ===== src/Base/Maps.antt =====
-- Go's maps as association lists. The order of the entries stands for the order in which `range`
-- visits them, which Go leaves open: no theorem about a result depends on it.
use mathlib.Core.Path.{◌≡◌, refl, sym, ap, ◌∙◌}
use mathlib.Core.Logic.{inl, inr}
use mathlib.Core.Bool.{Bool, false, ◌||◌, ◌&&◌}
use mathlib.Core.Option.{Option, none, some}
use mathlib.Core.List.{List, [], ◌∷◌}
use native.Mathlib.Omega.{arith}
use brent.Base.Tests.{Comparable, ◌==◌, if◌then◌else◌, is_some, Bool-cases}
use brent.Base.Lists.{any, contains}

abbrev pub Dict {ℓ κ} : Type ℓ → Type κ → Type (ℓ ⊔ κ)
Dict K V = List (K × V)

abbrev pub keys {ℓ κ} : {K : Type ℓ} {V : Type κ} → Dict K V → List K
keys [] = []
keys ((k, v) ∷ m) = k ∷ keys m

abbrev pub values {ℓ κ} : {K : Type ℓ} {V : Type κ} → Dict K V → List V
values [] = []
values ((k, v) ∷ m) = v ∷ values m

abbrev pub holds_at {ℓ} : {A : Type ℓ} → (A → Bool) → Option A → Bool
holds_at q none = false
holds_at q (some a) = q a

module _ {ℓ κ} {K : Type ℓ} {V : Type κ} ⦃e : Comparable K⦄ where
  abbrev pub lookup : K → Dict K V → Option V
  lookup k [] = none
  lookup k ((j, v) ∷ m) = if j == k then some v else lookup k m

  -- m[k] = v
  abbrev pub insert : K → V → Dict K V → Dict K V
  insert k v [] = (k, v) ∷ []
  insert k v ((j, w) ∷ m) = let rest = insert k v m in if j == k then (j, v) ∷ m else (j, w) ∷ rest

  -- delete(m, k)
  abbrev pub remove : K → Dict K V → Dict K V
  remove k [] = []
  remove k ((j, w) ∷ m) = let rest = remove k m in if j == k then rest else (j, w) ∷ rest

  pub lookup-insert :
      (k j : K) (v : V) (m : Dict K V)
      → lookup j (insert k v m) ≡ (if k == j then some v else lookup j m)
  lookup-insert k j v [] = refl
  lookup-insert k j v ((i, w) ∷ m) =
      ground (arith, e.equal_iff k j, e.equal_iff i k, e.equal_iff i j, lookup-insert k j v m)

  pub lookup-remove :
      (k j : K) (m : Dict K V) → lookup j (remove k m) ≡ (if k == j then none else lookup j m)
  lookup-remove k j [] = ground arith
  lookup-remove k j ((i, w) ∷ m) =
      ground (arith, e.equal_iff k j, e.equal_iff i k, e.equal_iff i j, lookup-remove k j m)

  pub contains-keys : (k : K) (m : Dict K V) → contains (keys m) k ≡ is_some (lookup k m)
  contains-keys k [] = refl
  contains-keys k ((j, w) ∷ m) = ground (arith, contains-keys k m)

  pub any-keys-insert :
      (p : K → Bool) (k : K) (v : V) (m : Dict K V)
      → any p (keys (insert k v m)) ≡ (p k || any p (keys m))
  any-keys-insert p k v [] = refl
  any-keys-insert p k v ((j, w) ∷ m) = ground (arith, e.equal_iff j k, any-keys-insert p k v m)

  -- The keys of a Go map are distinct.
  abbrev pub DistinctKeys : Dict K V → Type κ
  DistinctKeys [] = Unit
  DistinctKeys ((j, w) ∷ m) = (lookup j m ≡ none) × DistinctKeys m

  pub insert-DistinctKeys :
      (k : K) (v : V) (m : Dict K V) → DistinctKeys m → DistinctKeys (insert k v m)
  insert-DistinctKeys k v [] h = (refl, tt)
  insert-DistinctKeys k v ((j, w) ∷ m) h = elim (Bool-cases (j == k)) [
    | inl same ↦ rw same h
    | inr other ↦ rw other (
      ground (arith, lookup-insert k j v m, e.equal_iff j k, e.equal_iff k j, other, h.0),
      insert-DistinctKeys k v m h.1,
    )
  ]

  abbrev pub has_entry : K → (V → Bool) → K × V → Bool
  has_entry k q (j, w) = j == k && q w

  pub any-no_entry :
      (k : K) (q : V → Bool) (m : Dict K V) → lookup k m ≡ none → any (has_entry k q) m ≡ false
  any-no_entry k q [] h = refl
  any-no_entry k q ((j, w) ∷ m) h = elim (Bool-cases (j == k)) [
    | inl same ↦ ground (arith, h, same)
    | inr other ↦ ground (arith, any-no_entry k q m (ground (arith, h, other)), other)
  ]

  -- With distinct keys, a test on the entries of one key is the test on the value found.
  pub any-has_entry :
      (k : K) (q : V → Bool) (m : Dict K V)
      → DistinctKeys m
      → any (has_entry k q) m ≡ holds_at q (lookup k m)
  any-has_entry k q [] h = refl
  any-has_entry k q ((j, w) ∷ m) h = elim (Bool-cases (j == k)) [
    | inl same ↦
        let absent : lookup k m ≡ none =
          ap (λ i. lookup i m) (sym ((e.equal_iff j k).0 same)) ∙ h.0 in
        ground (arith, same, any-no_entry k q m absent)
    | inr other ↦ ground (arith, other, any-has_entry k q m h.1)
  ]
