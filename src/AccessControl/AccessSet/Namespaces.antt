-- ===== src/AccessControl/AccessSet/Namespaces.antt =====
-- What `Namespaces` returns.
use brent.Base.{
  String, ◌≡◌, refl, ◌∙◌, inl, inr, Bool, true, false, not, ◌&&◌, ◌||◌, [], arith, eq_iff,
  Bool-cases, ◌==◌, any, any_none, contains, for_each, for_each-any, Dict, keys, any-keys-insert,
  IsSorted, sort_by-IsSorted, any-sort_by, string_eq,
}
use brent.AccessControl.Access.{Access, Key, all_name}
use brent.AccessControl.AccessSet.{
  AccessSet, ResourceAccessSet, reads, collect_access, collect_key, namespaces,
}

-- the set holds a grant to get or list in this very namespace
abbrev pub readable_in : AccessSet → String → Bool
readable_in a ns = any (λ e. reads e.0.verb && any (λ x. x.namespace == ns) (keys e.1)) a.set

module _ (ns : String) (real : (ns == all_name) ≡ false) where
  abbrev holds : Dict String Bool → Bool
  holds m = any (λ k. k == ns) (keys m)

  holds-collect_access :
      (x : Access) (m : Dict String Bool)
      → holds (collect_access x m) ≡ ((x.namespace == ns) || holds m)
  holds-collect_access x m =
      ground (arith, any-keys-insert (λ k. k == ns) x.namespace true m, eq_iff x.namespace ns, real)

  holds-collect_key :
      (e : Key × ResourceAccessSet) (m : Dict String Bool)
      → holds (collect_key e m)
        ≡ ((reads e.0.verb && any (λ x. x.namespace == ns) (keys e.1)) || holds m)
  holds-collect_key (k, l) m = ground (
    arith,
    for_each-any holds (λ x. x.namespace == ns) collect_access holds-collect_access (keys l) m,
  )

  contains-namespaces_real : (a : AccessSet) → contains (namespaces a) ns ≡ readable_in a ns
  unfolding namespaces
  contains-namespaces_real a =
      any-sort_by (λ s. s) (λ k. k == ns) (keys (for_each a.set collect_key []))
      ∙ for_each-any holds (λ e. reads e.0.verb && any (λ x. x.namespace == ns) (keys e.1))
          collect_key holds-collect_key a.set []
      ∙ ground arith

-- `*` itself is never listed
abbrev star : Dict String Bool → Bool
star m = any (λ k. k == all_name) (keys m)

star-collect_access :
    (x : Access) (m : Dict String Bool) → star (collect_access x m) ≡ (false || star m)
star-collect_access x m =
    ground
      (arith, any-keys-insert (λ k. k == all_name) x.namespace true m, eq_iff x.namespace all_name)

star-collect_key :
    (e : Key × ResourceAccessSet) (m : Dict String Bool)
    → star (collect_key e m) ≡ ((reads e.0.verb && any (λ x. false) (keys e.1)) || star m)
star-collect_key (k, l) m =
    ground (arith, for_each-any star (λ x. false) collect_access star-collect_access (keys l) m)

star_absent : (a : AccessSet) → contains (namespaces a) all_name ≡ false
unfolding namespaces
star_absent a =
    any-sort_by (λ s. s) (λ k. k == all_name) (keys (for_each a.set collect_key []))
    ∙ for_each-any star (λ e. reads e.0.verb && any (λ x. false) (keys e.1)) collect_key
        star-collect_key a.set []
    ∙ ground (
      arith,
      any_none (λ (e : Key × ResourceAccessSet). reads e.0.verb && any (λ x. false) (keys e.1))
          a.set (λ e. ground (arith, any_none (λ (x : Access). false) (keys e.1) (λ x. refl))),
    )

-- `Namespaces` returns a sorted list, and a namespace is in it exactly when it is not `*` and the
-- set holds a grant to get or list something in it.
pub namespaces_lem :
    (a : AccessSet)
    → IsSorted (λ s. s) (namespaces a)
      × ((ns : String) → contains (namespaces a) ns ≡ (not (ns == all_name) && readable_in a ns))
namespaces_lem a = (
  unfold namespaces in sort_by-IsSorted (λ s. s) (keys (for_each a.set collect_key [])),
  λ ns. elim (Bool-cases (ns == all_name)) [
    | inl same ↦ ground (arith, same, eq_iff ns all_name, star_absent a)
    | inr real ↦ ground (arith, real, contains-namespaces_real ns real a)
  ],
)
