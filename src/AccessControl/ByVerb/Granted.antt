-- ===== src/AccessControl/ByVerb/Granted.antt =====
-- Which names in which namespaces `Granted` covers.
use brent.Base.{
  String, ◌≡◌, Bool, not, ◌&&◌, ◌||◌, List, [], arith, ◌==◌, eq_iff, string_eq, any, contains,
  for_each, for_each-any, Dict, lookup, lookup-insert, any_of_contains, Bool-cases, inl, inr,
}
use brent.AccessControl.Access.{Access, all_name, name_ok}
use brent.AccessControl.ByVerb.{
  AccessListByVerb, Resources, at_verb, or_no_resources, widen_resources, set_insert, grant_access,
  grant_named, granted,
}

abbrev pub resources_allow : Resources → String → Bool
resources_allow r name = r.all || contains r.names name

-- the result of `Granted` admits the name in this very namespace
abbrev pub allows : Dict String Resources → String → String → Bool
allows m ns name = resources_allow (or_no_resources (lookup ns m)) name

contains-set_insert :
    (x y : String) (xs : List String) → contains (set_insert x xs) y ≡ ((x == y) || contains xs y)
contains-set_insert x y xs = elim (Bool-cases (contains xs x)) [
  | inl old ↦ rw old (any_of_contains (λ z. z == y) xs x old)
  | inr new ↦ rw new
]

resources_allow-widen :
    (x name : String) (r : Resources)
    → resources_allow (widen_resources x r) name
      ≡ ((x == all_name || x == name) || resources_allow r name)
resources_allow-widen x name r =
    ground (arith, contains-set_insert x name r.names, eq_iff x all_name)

module _ (ns name : String) where
  allows-grant_access :
      (x : Access) (m : Dict String Resources)
      → allows (grant_access x m) ns name
        ≡ ((x.namespace == ns && name_ok x name) || allows m ns name)
  allows-grant_access x m = ground (
    arith,
    lookup-insert x.namespace ns
        (widen_resources x.resource_name (or_no_resources (lookup x.namespace m))) m,
    resources_allow-widen x.resource_name name (or_no_resources (lookup x.namespace m)),
    eq_iff x.namespace ns,
  )

  -- a grant to get that names one object
  abbrev pub names_one : Access → Bool
  names_one x =
      x.namespace == ns
      && (not (x.resource_name == all_name || x.resource_name == "") && x.resource_name == name)

  allows-grant_named :
      (x : Access) (m : Dict String Resources)
      → allows (grant_named x m) ns name ≡ (names_one x || allows m ns name)
  allows-grant_named x m = ground (arith, allows-grant_access x m)

  -- `Granted` admits a name in a namespace exactly when a grant of the verb in that namespace is
  -- for `*` or for the name or, for `list`, when a grant to get there is for that one name.
  pub allows-granted :
      (a : AccessListByVerb) (verb : String)
      → allows (granted a verb) ns name ≡ (
          any (λ x. x.namespace == ns && name_ok x name) (at_verb a verb)
          || (verb == "list" && any names_one (at_verb a "get")))
  unfolding granted
  allows-granted a verb =
      let test : Dict String Resources → Bool = λ m. allows m ns name in
      let result = for_each (at_verb a verb) grant_access [] in
      ground (
        arith,
        for_each-any test (λ x. x.namespace == ns && name_ok x name) grant_access
            allows-grant_access (at_verb a verb) [],
        for_each-any test names_one grant_named allows-grant_named (at_verb a "get") result,
      )
