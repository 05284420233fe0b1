-- ===== src/Base/Lists.antt =====
-- Lists: tests over all elements, membership by recursion, and lengths over the native numbers.
use Prim.Native.Nat.{ℕ, suc}
use mathlib.Core.Path.{◌≡◌, refl}
use mathlib.Core.Logic.{inl, inr}
use Prim.Native.String.{String}
use mathlib.Core.Bool.{Bool, true, false, not, ◌&&◌, ◌||◌}
use mathlib.Core.List.{List, [], ◌∷◌, ◌++◌}
use native.Mathlib.Omega.{arith}
use brent.Base.Tests.{Comparable, string_eq, ◌==◌, if◌then◌else◌, Bool-cases}

module _ {ℓ} {A : Type ℓ} where
  abbrev pub length : List A → ℕ
  length [] = 0
  length (x ∷ xs) = suc (length xs)

  abbrev pub any : (A → Bool) → List A → Bool
  any p [] = false
  any p (x ∷ xs) = p x || any p xs

  abbrev pub all : (A → Bool) → List A → Bool
  all p [] = true
  all p (x ∷ xs) = p x && all p xs

  pub any-append : (p : A → Bool) (xs ys : List A) → any p (xs ++ ys) ≡ (any p xs || any p ys)
  any-append p [] ys = refl
  any-append p (x ∷ xs) ys = ground (arith, any-append p xs ys)

  pub any-or : (p q : A → Bool) (xs : List A) → any (λ x. p x || q x) xs ≡ (any p xs || any q xs)
  any-or p q [] = refl
  any-or p q (x ∷ xs) = ground (arith, any-or p q xs)

  pub any_or_congr :
      (f p q : A → Bool) (xs : List A)
      → ((x : A) → f x ≡ (p x || q x))
      → any f xs ≡ (any p xs || any q xs)
  any_or_congr f p q [] h = refl
  any_or_congr f p q (x ∷ xs) h = ground (arith, any_or_congr f p q xs h, h x)

  pub any_none : (p : A → Bool) (xs : List A) → ((x : A) → p x ≡ false) → any p xs ≡ false
  any_none p [] h = refl
  any_none p (x ∷ xs) h = ground (arith, h x, any_none p xs h)

  pub any_congr : (p q : A → Bool) (xs : List A) → ((x : A) → p x ≡ q x) → any p xs ≡ any q xs
  any_congr p q [] h = refl
  any_congr p q (x ∷ xs) h = ground (arith, h x, any_congr p q xs h)

  -- the elements that pass a test, as a `for` loop with `append` collects them
  abbrev pub keep : (A → Bool) → List A → List A
  keep p [] = []
  keep p (x ∷ xs) = let rest = keep p xs in if p x then x ∷ rest else rest

  pub any-keep : (p q : A → Bool) (xs : List A) → any p (keep q xs) ≡ any (λ x. q x && p x) xs
  any-keep p q [] = refl
  any-keep p q (x ∷ xs) = ground (arith, any-keep p q xs)

module _ {ℓ} {A : Type ℓ} ⦃e : Comparable A⦄ where
  -- `slices.Contains`
  abbrev pub contains : List A → A → Bool
  contains xs a = any (λ x. x == a) xs

  pub any_of_contains :
      (p : A → Bool) (xs : List A) (a : A) → contains xs a ≡ true → any p xs ≡ (p a || any p xs)
  any_of_contains p (x ∷ xs) a h = elim (Bool-cases (x == a)) [
    | inl same ↦ let q : x ≡ a = (e.equal_iff x a).0 same in ground (arith, q)
    | inr other ↦ ground (arith, any_of_contains p xs a (ground (arith, h, other)))
  ]
  any_of_contains p [] a h = ground arith

  -- A passing element, found.
  pub any_witness :
      (p : A → Bool) (xs : List A)
      → any p xs ≡ true
      → (a : A) × (contains xs a ≡ true) × (p a ≡ true)
  any_witness p [] h = cc
  any_witness p (x ∷ xs) h = elim (Bool-cases (p x)) [
    | inl here ↦ (x, ground (arith, (e.equal_iff x x).1 refl), here)
    | inr not_here ↦
        let (a, inside, passes) = any_witness p xs (ground (arith, h, not_here)) in
        (a, ground (arith, inside), passes)
  ]

  pub any_of_mem :
      (p : A → Bool) (xs : List A) (a : A) → contains xs a ≡ true → p a ≡ true → any p xs ≡ true
  any_of_mem p xs a inside passes = ground (arith, any_of_contains p xs a inside, passes)

-- `for _, x := range xs { s = f(x, s) }`
abbrev pub for_each {ℓ κ} : {A : Type ℓ} {S : Type κ} → List A → (A → S → S) → S → S
for_each [] f s = s
for_each (x ∷ xs) f s = for_each xs f (f x s)

-- A test that each round of a loop widens by `g x` is widened by all of them.
pub for_each-any {ℓ κ} :
    {A : Type ℓ} {S : Type κ} (test : S → Bool) (g : A → Bool) (f : A → S → S)
    → ((x : A) (s : S) → test (f x s) ≡ (g x || test s))
    → (xs : List A) (s : S) → test (for_each xs f s) ≡ (any g xs || test s)
for_each-any test g f widens [] s = refl
for_each-any test g f widens (x ∷ xs) s =
    ground (arith, for_each-any test g f widens xs (f x s), widens x s)

-- What each round of a loop keeps, the loop keeps.
pub for_each_inv {ℓ κ ι} :
    {A : Type ℓ} {S : Type κ} (P : S → Type ι) (f : A → S → S)
    → ((x : A) (s : S) → P s → P (f x s))
    → (xs : List A) (s : S) → P s
    → P (for_each xs f s)
for_each_inv P f keeps [] s h = h
for_each_inv P f keeps (x ∷ xs) s h = for_each_inv P f keeps xs (f x s) (keeps x s h)

pub any-and_left {ℓ} :
    {A : Type ℓ} (b : Bool) (p : A → Bool) (xs : List A) → any (λ x. b && p x) xs ≡ (b && any p xs)
any-and_left b p [] = ground arith
any-and_left b p (x ∷ xs) = ground (arith, any-and_left b p xs)

pub any-and_right {ℓ} :
    {A : Type ℓ} (b : Bool) (p : A → Bool) (xs : List A) → any (λ x. p x && b) xs ≡ (any p xs && b)
any-and_right b p [] = refl
any-and_right b p (x ∷ xs) = ground (arith, any-and_right b p xs)

-- no text twice
abbrev pub distinct : List String → Bool
distinct [] = true
distinct (x ∷ l) = not (contains l x) && distinct l
