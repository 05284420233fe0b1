-- ===== src/Collections/Lookups.antt =====
-- What the lookups by kind and by resource find after a reset.
use brent.Base.{
  String, ◌≡◌, refl, ◌∙◌, sym, ap, Bool, true, false, not, ◌&&◌, ◌||◌, some, List, [], ◌∷◌, Dict,
  values, lookup, lookup-insert, ◌==◌, string_eq, eq_iff, any, for_each, for_each-any, holds_at,
  is_some, arith, Bool-cases, inl, inr, Option-cases,
}
use brent.Api.Types.{ApiSchema, Handler}
use brent.Api.Attributes.{Convert, GroupVersionKind, gvk}
use brent.Collections.{gvk_eq}
use brent.Collections.State.{Collection, index_gvk, reset, lookup_gvk}

or_right : (a b : Bool) → b ≡ true → (a || b) ≡ true
or_right a b h = ground (arith, h)

or_middle : (a b c : Bool) → b ≡ true → ((a || b) || c) ≡ true
or_middle a b c h = ground (arith, h)

or_around : (a b c : Bool) → (a || c) ≡ true → ((a || b) || c) ≡ true
or_around a b c h = ground (arith, h)

or_other : (a b : Bool) → (a || b) ≡ true → a ≡ false → b ≡ true
or_other a b h k = ground (arith, h, k)

or_false : (a : Bool) → (a || false) ≡ true → a ≡ true
or_false a h = ground (arith, h)

module _ ⦃conv : Convert⦄ (g : GroupVersionKind) where
  abbrev pub has_kind : ApiSchema → Bool
  has_kind s = gvk s == g && not ((gvk s).kind == "")

  abbrev pub named : String → ApiSchema → Bool
  named id s = has_kind s && s.id == id

  found-index_gvk :
      (s : ApiSchema) (m : Dict GroupVersionKind String)
      → is_some (lookup g (index_gvk s m)) ≡ (has_kind s || is_some (lookup g m))
  found-index_gvk s m = ground (arith, lookup-insert (gvk s) g s.id m)

  abbrev stands : String → Dict GroupVersionKind String → Bool
  stands id m = holds_at (λ j. j == id) (lookup g m)

  named-step :
      (s : ApiSchema) (m : Dict GroupVersionKind String) (id : String)
      → stands id (index_gvk s m) ≡ true
      → (named id s || stands id m) ≡ true
  named-step s m id h = elim (Bool-cases ((gvk s).kind == "")) [
    | inl no_kind ↦
        let at : lookup g (index_gvk s m) ≡ lookup g m = rw no_kind refl in
        or_right (named id s) (stands id m) (sym (ap (holds_at (λ j. j == id)) at) ∙ h)
    | inr a_kind ↦ elim (Bool-cases (gvk s == g)) [
      | inl same ↦
          let at : lookup g (index_gvk s m) ≡ some s.id =
            rw a_kind (lookup-insert (gvk s) g s.id m ∙ rw same refl) in
          let named_so : (s.id == id) ≡ true = sym (ap (holds_at (λ j. j == id)) at) ∙ h in
          rw (same, a_kind, named_so) refl
      | inr other ↦
          let at : lookup g (index_gvk s m) ≡ lookup g m =
            rw a_kind (lookup-insert (gvk s) g s.id m ∙ rw other refl) in
          or_right (named id s) (stands id m) (sym (ap (holds_at (λ j. j == id)) at) ∙ h)
    ]
  ]

  named-index_gvk :
      (l : List ApiSchema) (m : Dict GroupVersionKind String) (id : String)
      → stands id (for_each l index_gvk m) ≡ true
      → (any (named id) l || stands id m) ≡ true
  named-index_gvk [] m id h = h
  named-index_gvk (s ∷ l) m id h = elim (Bool-cases (any (named id) l)) [
    | inl inside ↦ or_middle (named id s) (any (named id) l) (stands id m) inside
    | inr outside ↦ or_around (named id s) (any (named id) l) (stands id m) (
        named-step s m id (
          or_other (any (named id) l) (stands id (index_gvk s m))
            (named-index_gvk l (index_gvk s m) id h) outside))
  ]

  -- After `Reset`, a kind is found exactly when some new schema has it, and what is found is the
  -- identifier of a schema of this kind.
  pub lookup_gvk-reset :
      (starts : Handler → Bool) (schemas : Dict String ApiSchema) (c : Collection)
      → (is_some (lookup g (reset starts schemas c).by_gvk) ≡ any has_kind (values schemas))
        × (any has_kind (values schemas) ≡ true
            → any (named (lookup_gvk (reset starts schemas c) g)) (values schemas) ≡ true)
  unfolding reset lookup_gvk
  lookup_gvk-reset starts schemas c =
      let found =
        for_each-any (λ m. is_some (lookup g m)) has_kind index_gvk found-index_gvk (values schemas)
          [] in
      (
        ground (arith, found),
        λ some_kind. elim (Option-cases (lookup g (for_each (values schemas) index_gvk []))) [
          | inl missing ↦ ground (arith, found, missing, some_kind)
          | inr (id, hit) ↦ rw hit (
              or_false (any (named id) (values schemas)) (
                named-index_gvk (values schemas) [] id
                  (ap (holds_at (λ j. j == id)) hit ∙ (eq_iff id id).1 refl)))
        ],
      )
