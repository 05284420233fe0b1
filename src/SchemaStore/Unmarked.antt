-- ===== src/SchemaStore/Unmarked.antt =====
-- How many schemas are not marked: the depth that is left to follow.
use brent.Base.{
  ℕ, suc, ◌≤◌, String, ◌≡◌, refl, Bool, true, false, ◌&&◌, List, [], ◌∷◌, ◌++◌, string_eq, eq_iff,
  contains, all, arith, if◌then◌else◌, length,
}
use brent.SchemaStore.{Listing, mark}

abbrev pub has : Listing → String → Bool
has l id = contains l.included id

-- how many of these keys are not marked
abbrev pub unmarked : List String → Listing → ℕ
unmarked [] l = 0
unmarked (k ∷ ks) l = let rest = unmarked ks l in if has l k then rest else suc rest

abbrev pub Grows : Listing → Listing → Type 0
Grows l k = (id : String) → has l id ≡ true → has k id ≡ true

pub unmarked-Grows : (ks : List String) (l k : Listing) → Grows l k → unmarked ks k ≤ unmarked ks l
unmarked-Grows [] l k g = ground arith
unmarked-Grows (id ∷ ks) l k g = ground (arith, g id, unmarked-Grows ks l k g)

pub mark-Grows : (id : String) (l : Listing) → Grows l (mark id l)
mark-Grows id l i h = ground (arith, h)

-- marking a key leaves fewer
pub unmarked-mark :
    (ks : List String) (id : String) (l : Listing)
    → contains ks id ≡ true
    → has l id ≡ false
    → suc (unmarked ks (mark id l)) ≤ unmarked ks l
unmarked-mark [] id l h new = cc h
unmarked-mark (k ∷ ks) id l h new = ground (
  arith,
  h,
  new,
  eq_iff k id,
  eq_iff id k,
  unmarked-mark ks id l,
  unmarked-Grows ks l (mark id l) (mark-Grows id l),
)

pub unmarked-length : (ks : List String) (l : Listing) → unmarked ks l ≤ length ks
unmarked-length [] l = ground arith
unmarked-length (k ∷ ks) l = ground (arith, unmarked-length ks l)

pub all-weaken :
    {A : Type 0} (p q : A → Bool) (xs : List A)
    → ((x : A) → p x ≡ true → q x ≡ true)
    → all p xs ≡ true
    → all q xs ≡ true
all-weaken p q [] f h = refl
all-weaken p q (x ∷ xs) f h = ground (arith, h, f x, all-weaken p q xs f)

pub all-append_one :
    {A : Type 0} (p : A → Bool) (xs : List A) (x : A) → all p (xs ++ x ∷ []) ≡ (all p xs && p x)
all-append_one p [] x = ground arith
all-append_one p (y ∷ xs) x = ground (arith, all-append_one p xs x)
