-- ===== src/AccessControl/AccessSet/Grants.antt =====
-- What `Grants` and `AccessListFor` answer, and how `Add` and `Merge` change the answer.
use brent.Base.{
  String, ◌≡◌, ◌∙◌, Bool, true, false, ◌&&◌, ◌||◌, [], ◌∷◌, arith, ◌==◌, string_eq, any,
  any_or_congr, for_each-any, keys, any-keys-insert, Dict, string_eq, any, any_or_congr,
  for_each-any, keys, any-keys-insert, Dict,
}
use brent.AccessControl.Access.{
  Access, GroupResource, access_grants, access_eq, key_eq, all_name, list_grants,
}
use brent.AccessControl.AccessSet.{
  AccessSet, accesses, mk_key, grants, access_list_for, dedup_for, dedup_insert, add, merge,
}
use brent.AccessControl.AccessSet.Laws.{any-accesses-add, any-accesses-merge, NodupKeys}

-- `*`, or the very name
abbrev pub covers_name : String → String → Bool
covers_name granted wanted = granted == all_name || granted == wanted

-- a grant under this verb, group and resource serves a request for those
abbrev pub covers : String → GroupResource → String → GroupResource → Bool
covers verb gr wanted_verb wanted =
    covers_name verb wanted_verb
    && (covers_name gr.group wanted.group && covers_name gr.resource wanted.resource)

-- One of the three loops over `*` and a wanted name, when the visited tests are widened at one name.
widen :
    (granted wanted : String) (b : Bool) (f h : String → Bool)
    → ((v : String) → f v ≡ ((granted == v && b) || h v))
    → any f (all_name ∷ wanted ∷ [])
      ≡ ((covers_name granted wanted && b) || any h (all_name ∷ wanted ∷ []))
widen granted wanted b f h e = ground (arith, e all_name, e wanted)

module _ (verb : String) (gr : GroupResource) (p : Access → Bool) where
  abbrev at_resource : AccessSet → String → String → Bool
  at_resource a v g = any (λ r. any p (accesses a (mk_key v g r))) (all_name ∷ gr.resource ∷ [])

  abbrev at_group : AccessSet → String → Bool
  at_group a v = any (at_resource a v) (all_name ∷ gr.group ∷ [])

  -- some grant that `Grants` and `AccessListFor` visit passes `p`
  abbrev reaches : AccessSet → Bool
  reaches a = any (at_group a) (all_name ∷ verb ∷ [])

  dedup-reaches : (a : AccessSet) → any p (keys (dedup_for a verb gr)) ≡ (reaches a || false)
  unfolding dedup_for
  dedup-reaches a =
      let test : Dict Access Bool → Bool = λ m. any p (keys m) in
      for_each-any test _ _
        (λ v.
          for_each-any test _ _
            (λ g.
              for_each-any test _ _
                (λ r.
                  for_each-any test p dedup_insert (λ x m. any-keys-insert p x true m)
                    (accesses a (mk_key v g r)))
                (all_name ∷ gr.resource ∷ []))
            (all_name ∷ gr.group ∷ []))
        (all_name ∷ verb ∷ []) []

  module _ (verb' : String) (gr' : GroupResource) (x : Access) (a : AccessSet) where
    at_resource-add :
        (v g : String)
        → at_resource (add verb' gr' x a) v g ≡ (
            (gr'.group == g && (verb' == v && (covers_name gr'.resource gr.resource && p x)))
            || at_resource a v g)
    at_resource-add v g =
        widen gr'.resource gr.resource (verb' == v && (gr'.group == g && p x))
          (λ r. any p (accesses (add verb' gr' x a) (mk_key v g r)))
          (λ r. any p (accesses a (mk_key v g r)))
          (λ r. ground (arith, any-accesses-add p verb' gr' x a (mk_key v g r)))
        ∙ ground arith

    at_group-add :
        (v : String)
        → at_group (add verb' gr' x a) v ≡ (
            (verb' == v
              && (covers_name gr'.group gr.group && (covers_name gr'.resource gr.resource && p x)))
            || at_group a v)
    at_group-add v =
        widen gr'.group gr.group (verb' == v && (covers_name gr'.resource gr.resource && p x))
          (at_resource (add verb' gr' x a) v) (at_resource a v) (at_resource-add v)
        ∙ ground arith

    reaches-add : reaches (add verb' gr' x a) ≡ ((covers verb' gr' verb gr && p x) || reaches a)
    reaches-add =
        widen verb' verb
          (covers_name gr'.group gr.group && (covers_name gr'.resource gr.resource && p x))
          (at_group (add verb' gr' x a)) (at_group a) at_group-add
        ∙ ground arith

  reaches-merge :
      (a right : AccessSet)
      → NodupKeys right.set
      → reaches (merge a right) ≡ (reaches right || reaches a)
  reaches-merge a right h =
      any_or_congr (at_group (merge a right)) (at_group right) (at_group a) (all_name ∷ verb ∷ [])
        (λ v.
          any_or_congr (at_resource (merge a right) v) (at_resource right v) (at_resource a v)
            (all_name ∷ gr.group ∷ [])
            (λ g.
              any_or_congr (λ r. any p (accesses (merge a right) (mk_key v g r)))
                (λ r. any p (accesses right (mk_key v g r)))
                (λ r. any p (accesses a (mk_key v g r))) (all_name ∷ gr.resource ∷ [])
                (λ r. any-accesses-merge p a right (mk_key v g r) h)))

module _ (verb : String) (gr : GroupResource) (namespace name : String) where
  -- The list for a verb and a resource grants exactly what the set grants, so a schema that
  -- carries the list answers as the set would.
  pub list_grants-access_list_for :
      (a : AccessSet)
      → list_grants (access_list_for a verb gr) namespace name ≡ grants a verb gr namespace name
  unfolding list_grants access_list_for grants
  list_grants-access_list_for a =
      dedup-reaches verb gr (λ k. access_grants k namespace name) a ∙ ground arith

  -- After `Add` a request is granted when it was before, or when the added grant serves it.
  pub grants-add :
      (verb' : String) (gr' : GroupResource) (x : Access) (a : AccessSet)
      → grants (add verb' gr' x a) verb gr namespace name ≡ (
          (covers verb' gr' verb gr && access_grants x namespace name)
          || grants a verb gr namespace name)
  unfolding grants
  grants-add verb' gr' x a = reaches-add verb gr (λ k. access_grants k namespace name) verb' gr' x a

  -- After `Merge` a request is granted exactly when one of the two sets grants it.
  pub grants-merge :
      (a right : AccessSet)
      → NodupKeys right.set
      → grants (merge a right) verb gr namespace name
        ≡ (grants right verb gr namespace name || grants a verb gr namespace name)
  unfolding grants
  grants-merge a right h = reaches-merge verb gr (λ k. access_grants k namespace name) a right h
