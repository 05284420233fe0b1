-- ===== src/Stores/Reserved/RoundTrip.antt =====
-- The reserved fields of an object come back as they were.
use brent.Base.{
  String, distinct, ◌≡◌, refl, sym, ap, ◌∙◌, Bool, true, false, not, ◌&&◌, Option, none, some, List,
  [], ◌∷◌, Dict, lookup, remove, lookup-insert, lookup-remove, ◌==◌, string_eq, eq_iff, any,
  any_witness, any_of_mem, all, contains, arith, Bool-cases, Option-cases, inl, inr, if◌then◌else◌,
  is_some,
}
use brent.Stores.Reserved.{under, to_under, from_under, move_to_underscore, move_from_underscore}

under-injective : (a b : String) → (under a == under b) ≡ (a == b)
under-injective a b = elim (Bool-cases (a == b)) [
  | inl same ↦ ground (arith, same, eq_iff a b, eq_iff (under a) (under b))
  | inr other ↦ ground (arith, other, eq_iff a b, eq_iff (under a) (under b))
]

-- some field of the list has this name as its new one
abbrev pub hides : List String → String → Bool
hides l j = any (λ x. under x == j) l

module _ {V : Type 0} where
  lookup-to_under :
      (j k : String) (m : Dict String V)
      → (k == under k) ≡ false
      → lookup j (to_under k m) ≡ (
          if under k == j && is_some (lookup k m)
          then lookup k m
          else if k == j
          then none
          else lookup j m)
  lookup-to_under j k m apart = elim (Option-cases (lookup k m)) [
    | inl absent ↦ ground (arith, absent, eq_iff k j)
    | inr (v, held) ↦
        ground (arith, held, lookup-insert (under k) j v (remove k m), lookup-remove k j m)
  ]

  lookup-from_under :
      (j k : String) (m : Dict String V)
      → (k == under k) ≡ false
      → lookup j (from_under k m)
        ≡ (if k == j then lookup (under k) m else if under k == j then none else lookup j m)
  lookup-from_under j k m apart = elim (Option-cases (lookup (under k) m)) [
    | inl absent ↦
        ground (arith, absent, lookup-remove k j (remove (under k) m), lookup-remove (under k) j m)
    | inr (v, held) ↦ ground (
      arith,
      held,
      lookup-insert k j v (remove k (remove (under k) m)),
      lookup-remove k j (remove (under k) m),
      lookup-remove (under k) j m,
    )
  ]

  abbrev or_first : Option V → Option V → Option V
  or_first (some v) o = some v
  or_first none o = o

  or_first-none : (o : Option V) → or_first o none ≡ o
  or_first-none none = refl
  or_first-none (some v) = refl

  pub move_to_underscore-other :
      (l : List String) (j : String) (m : Dict String V)
      → all (λ x. not (x == under x)) l ≡ true
      → contains l j ≡ false
      → hides l j ≡ false
      → lookup j (move_to_underscore l m) ≡ lookup j m
  unfolding move_to_underscore
  move_to_underscore-other [] j m a c h = refl
  move_to_underscore-other (x ∷ l) j m a c h =
      move_to_underscore-other l j (to_under x m) (ground (arith, a)) (ground (arith, c))
        (ground (arith, h))
      ∙ lookup-to_under j x m (ground (arith, a))
      ∙ ground (arith, c, h)

  pub move_from_underscore-other :
      (l : List String) (j : String) (m : Dict String V)
      → all (λ x. not (x == under x)) l ≡ true
      → contains l j ≡ false
      → hides l j ≡ false
      → lookup j (move_from_underscore l m) ≡ lookup j m
  unfolding move_from_underscore
  move_from_underscore-other [] j m a c h = refl
  move_from_underscore-other (x ∷ l) j m a c h =
      move_from_underscore-other l j (from_under x m) (ground (arith, a)) (ground (arith, c))
        (ground (arith, h))
      ∙ lookup-from_under j x m (ground (arith, a))
      ∙ ground (arith, c, h)

  -- the new name of a field that is no new name itself
  move_from_underscore-under :
      (l : List String) (k : String) (m : Dict String V)
      → all (λ x. not (x == under x)) l ≡ true
      → contains l (under k) ≡ false
      → lookup (under k) (move_from_underscore l m)
        ≡ (if contains l k then none else lookup (under k) m)
  unfolding move_from_underscore
  move_from_underscore-under [] k m a c = refl
  move_from_underscore-under (x ∷ l) k m a c =
      let step = lookup-from_under (under k) x m (ground (arith, a)) in
      let rest =
        move_from_underscore-under l k (from_under x m) (ground (arith, a)) (ground (arith, c)) in
      rest ∙ ground (arith, step, c, under-injective x k)

  move_from_underscore-field :
      (l : List String) (k : String) (m : Dict String V)
      → all (λ x. not (x == under x)) l ≡ true
      → contains l (under k) ≡ false
      → hides l k ≡ false
      → distinct l ≡ true
      → lookup k (move_from_underscore l m)
        ≡ (if contains l k then lookup (under k) m else lookup k m)
  unfolding move_from_underscore
  move_from_underscore-field [] k m a c h d = refl
  move_from_underscore-field (x ∷ l) k m a c h d =
      let rest =
        move_from_underscore-field l k (from_under x m) (ground (arith, a)) (ground (arith, c))
          (ground (arith, h)) (ground (arith, d)) in
      let here = lookup-from_under k x m (ground (arith, a)) in
      let there = lookup-from_under (under k) x m (ground (arith, a)) in
      elim (Bool-cases (x == k)) [
        | inl same ↦
            rest ∙ ground (arith, same, here, there, c, h, d, eq_iff x k, under-injective x k)
        | inr other ↦ rest ∙ ground (arith, other, here, there, c, h, under-injective x k)
      ]

  move_to_underscore-under :
      (l : List String) (k : String) (m : Dict String V)
      → all (λ x. not (x == under x)) l ≡ true
      → contains l (under k) ≡ false
      → hides l k ≡ false
      → lookup (under k) (move_to_underscore l m)
        ≡ (if contains l k then or_first (lookup k m) (lookup (under k) m) else lookup (under k) m)
  unfolding move_to_underscore
  move_to_underscore-under [] k m a c h = refl
  move_to_underscore-under (x ∷ l) k m a c h =
      let rest =
        move_to_underscore-under l k (to_under x m) (ground (arith, a)) (ground (arith, c))
          (ground (arith, h)) in
      let here = lookup-to_under k x m (ground (arith, a)) in
      let there = lookup-to_under (under k) x m (ground (arith, a)) in
      elim (Bool-cases (x == k)) [
        | inl same ↦ elim (Option-cases (lookup x m)) [
          | inl absent ↦
              rest
              ∙ ground (arith, same, absent, here, there, c, h, eq_iff x k, under-injective x k)
          | inr (v, held) ↦
              rest ∙ ground (arith, same, held, here, there, c, h, eq_iff x k, under-injective x k)
        ]
        | inr other ↦ rest ∙ ground (arith, other, here, there, c, h, under-injective x k)
      ]

-- the fields differ from each other and from their new names
abbrev pub AreApart : List String → Type 0
AreApart l =
    (all (λ x. not (x == under x)) l ≡ true)
    × (all (λ x. not (contains l (under x)) && not (hides l x)) l ≡ true)
    × (distinct l ≡ true)

at_field :
    (p : String → Bool) (l : List String) (k : String)
    → all p l ≡ true
    → contains l k ≡ true
    → p k ≡ true
at_field p (x ∷ l) k passes inside = elim (Bool-cases (x == k)) [
  | inl same ↦ ap p (sym ((eq_iff x k).0 same)) ∙ ground (arith, passes)
  | inr other ↦ at_field p l k (ground (arith, passes)) (ground (arith, inside, other))
]
at_field p [] k passes inside = ground (arith, inside)

module _ {V : Type 0} where
  -- Renaming the reserved fields and putting them back, each in any order of the same fields,
  -- which differ from each other and from their new names, leaves every entry of an object that
  -- has no entry under a new name.
  pub move_from_underscore-move_to_underscore :
      (out back : List String) (m : Dict String V) (j : String)
      → AreApart out
      → AreApart back
      → ((k : String) → contains out k ≡ contains back k)
      → all (λ x. not (is_some (lookup (under x) m))) back ≡ true
      → lookup j (move_from_underscore back (move_to_underscore out m)) ≡ lookup j m
  move_from_underscore-move_to_underscore out back m j (a1, s1, d1) (a2, s2, d2) same free =
      elim (Bool-cases (contains back j)) [
        | inl field ↦
            let sep1 =
              at_field (λ x. not (contains out (under x)) && not (hides out x)) out j s1
                (same j ∙ field) in
            let sep2 =
              at_field (λ x. not (contains back (under x)) && not (hides back x)) back j s2 field in
            let empty = at_field (λ x. not (is_some (lookup (under x) m))) back j free field in
            let inward =
              move_from_underscore-field back j (move_to_underscore out m) a2 (ground (arith, sep2))
                (ground (arith, sep2)) d2 in
            let outward =
              move_to_underscore-under out j m a1 (ground (arith, sep1)) (ground (arith, sep1)) in
            elim (Option-cases (lookup (under j) m)) [
              | inl absent ↦ elim (Option-cases (lookup j m)) [
                | inl missing ↦ ground (arith, inward, outward, same j, field, absent, missing)
                | inr (v, held) ↦ ground (arith, inward, outward, same j, field, absent, held)
              ]
              | inr (v, held) ↦ ground (arith, empty, held)
            ]
        | inr other ↦ elim (Bool-cases (hides back j)) [
          | inl new ↦
              let (x, field, is_new) = any_witness (λ x. under x == j) back new in
              let sep =
                at_field (λ x. not (contains back (under x)) && not (hides back x)) back x s2
                  field in
              let empty = at_field (λ x. not (is_some (lookup (under x) m))) back x free field in
              let gone =
                move_from_underscore-under back x (move_to_underscore out m) a2
                  (ground (arith, sep)) in
              let there : under x ≡ j = (eq_iff (under x) j).0 is_new in
              ap (λ i. lookup i (move_from_underscore back (move_to_underscore out m))) (sym there)
              ∙ elim (Option-cases (lookup (under x) m)) [
                | inl absent ↦ ground (arith, gone, field, absent)
                | inr (v, held) ↦ ground (arith, empty, held)
              ]
              ∙ ap (λ i. lookup i m) there
          | inr old ↦
              let old_out : hides out j ≡ false = elim (Bool-cases (hides out j)) [
                | inl new ↦
                    let (x, field, is_new) = any_witness (λ x. under x == j) out new in
                    ground (
                      arith,
                      old,
                      any_of_mem (λ x. under x == j) back x (sym (same x) ∙ field) is_new,
                    )
                | inr n ↦ n
              ] in
              move_from_underscore-other back j (move_to_underscore out m) a2 other old
              ∙ move_to_underscore-other out j m a1 (same j ∙ other) old_out
        ]
      ]
