-- ===== src/Stores/Rbac/Coverage.antt =====
-- Which objects the partitions of a list cover, and their order.
use brent.Base.{
  String, ◌≡◌, refl, Bool, true, false, not, ◌&&◌, ◌||◌, Option, none, some, List, [], ◌∷◌, map,
  ◌==◌, string_eq, eq_iff, any, contains, ◌∙◌, keep, for_each, all, for_each_inv, Dict, lookup,
  DistinctKeys, insert-DistinctKeys, has_entry, holds_at, any-has_entry, any-sort_by, IsSorted,
  sort_by-IsSorted, Bool-cases, inl, inr, arith,
}
use brent.AccessControl.Access.{Access}
use brent.AccessControl.ByVerb.{
  AccessListByVerb, Resources, at_verb, or_no_resources, widen_resources, grant_access, grant_named,
  grants_all, granted,
}
use brent.AccessControl.ByVerb.Granted.{allows, resources_allow}
use brent.Api.Errors.{ok}
use brent.Api.Types.{ApiSchema}
use brent.Api.Attributes.{Convert, namespaced, get_access_list_map}
use brent.Stores.Rbac.{
  Partition, of_entry, all_in, constrain, in_order, by_scope, all_partitions, is_passthrough,
  is_passthrough_unconstrained,
}

grant_access-DistinctKeys :
    (x : Access) (m : Dict String Resources) → DistinctKeys m → DistinctKeys (grant_access x m)
grant_access-DistinctKeys x m h =
    insert-DistinctKeys x.namespace
      (widen_resources x.resource_name (or_no_resources (lookup x.namespace m))) m h

grant_named-DistinctKeys :
    (x : Access) (m : Dict String Resources) → DistinctKeys m → DistinctKeys (grant_named x m)
grant_named-DistinctKeys x m h =
    elim (Bool-cases (x.resource_name == "*" || x.resource_name == "")) [
      | inl skipped ↦ rw skipped h
      | inr one ↦ rw one (grant_access-DistinctKeys x m h)
    ]

granted-DistinctKeys : (a : AccessListByVerb) (verb : String) → DistinctKeys (granted a verb)
unfolding granted
granted-DistinctKeys a verb =
    let first =
      for_each_inv DistinctKeys grant_access grant_access-DistinctKeys (at_verb a verb) [] tt in
    elim (Bool-cases (verb == "list")) [
      | inl list ↦ rw list (
          for_each_inv DistinctKeys grant_named grant_named-DistinctKeys (at_verb a "get")
            (for_each (at_verb a verb) grant_access []) first)
      | inr other ↦ rw other first
    ]

module _ (ns name : String) where
  -- the partition's store serves the object of this name in this namespace
  abbrev pub covers : Partition → Bool
  covers p = p.passthrough || (p.namespace == ns && (p.all || contains p.names name))

  covers-of_entry :
      (m : Dict String Resources)
      → any covers (map of_entry m) ≡ any (has_entry ns (λ r. resources_allow r name)) m
  covers-of_entry [] = refl
  covers-of_entry ((k, r) ∷ m) = ground (arith, covers-of_entry m)

  holds_at-resources :
      (found : Option Resources)
      → holds_at (λ r. resources_allow r name) found ≡ resources_allow (or_no_resources found) name
  holds_at-resources none = refl
  holds_at-resources (some r) = refl

  covers-all_in : (l : List String) → any covers (map all_in l) ≡ contains l ns
  covers-all_in [] = refl
  covers-all_in (x ∷ l) = ground (arith, covers-all_in l)

  covers-in_order : (r : List Partition × Bool) → any covers (in_order r) ≡ (r.1 || any covers r.0)
  covers-in_order (partitions, true) = refl
  covers-in_order (partitions, false) = any-sort_by (λ p. p.namespace) covers partitions

  abbrev is_split : Partition → Bool
  is_split p = not p.passthrough

  abbrev pub in_constraint : Option (List String) → Bool
  in_constraint none = true
  in_constraint (some namespaces) = contains namespaces ns

  contains-same :
      (namespaces : List String) (s : String)
      → (s == ns) ≡ true
      → contains namespaces s ≡ contains namespaces ns
  contains-same namespaces s same = ground (arith, eq_iff s ns, same)

  covers-keep :
      (namespaces : List String) (l : List Partition)
      → all is_split l ≡ true
      → any covers (keep (λ p. contains namespaces p.namespace) l)
        ≡ (contains namespaces ns && any covers l)
  covers-keep namespaces [] h = ground arith
  covers-keep namespaces (p ∷ l) h = elim (Bool-cases (p.namespace == ns)) [
    | inl here ↦ ground (
      arith,
      h,
      here,
      contains-same namespaces p.namespace here,
      covers-keep namespaces l (ground (arith, h)),
    )
    | inr elsewhere ↦ ground (arith, h, elsewhere, covers-keep namespaces l (ground (arith, h)))
  ]

  covers-constrain :
      (constraint : Option (List String)) (r : List Partition × Bool)
      → all is_split r.0 ≡ true
      → any covers (in_order (constrain constraint r))
        ≡ (in_constraint constraint && any covers (in_order r))
  covers-constrain none r h = refl
  covers-constrain (some namespaces) (partitions, true) h =
      ground (arith, covers-in_order (map all_in namespaces, false), covers-all_in namespaces)
  covers-constrain (some namespaces) (partitions, false) h = ground (
    arith,
    covers-in_order (keep (λ p. contains namespaces p.namespace) partitions, false),
    covers-in_order (partitions, false),
    covers-keep namespaces partitions h,
  )

  is_split-map : (m : Dict String Resources) → all is_split (map of_entry m) ≡ true
  is_split-map [] = refl
  is_split-map ((k, r) ∷ m) = ground (arith, is_split-map m)

  is_split-by_scope :
      (everything : Bool) (request_ns : String) (m : Dict String Resources)
      → all is_split (by_scope everything request_ns true m).0 ≡ true
  is_split-by_scope true request_ns m = refl
  is_split-by_scope false request_ns m = elim (Bool-cases (request_ns == "")) [
    | inl nowhere ↦ rw nowhere (is_split-map m)
    | inr somewhere ↦ rw somewhere (elim (Bool-cases (or_no_resources (lookup request_ns m)).all) [
      | inl every ↦ rw every
      | inr named ↦ rw named
    ])
  ]

  covers-by_scope :
      (everything : Bool) (request_ns : String) (m : Dict String Resources)
      → DistinctKeys m
      → (request_ns == "" || request_ns == ns) ≡ true
      → any covers (in_order (by_scope everything request_ns true m))
        ≡ (everything || allows m ns name)
  covers-by_scope true request_ns m distinct scope = refl
  covers-by_scope false request_ns m distinct scope = elim (Bool-cases (request_ns == "")) [
    | inl nowhere ↦ rw nowhere (
        covers-in_order (map of_entry m, false)
        ∙ covers-of_entry m
        ∙ any-has_entry ns (λ r. resources_allow r name) m distinct
        ∙ holds_at-resources (lookup ns m))
    | inr somewhere ↦
        let here : request_ns ≡ ns = (eq_iff request_ns ns).0 (ground (arith, scope, somewhere)) in
        let r = or_no_resources (lookup ns m) in
        elim (Bool-cases r.all) [
          | inl every ↦ ground (arith, somewhere, here, every)
          | inr named ↦ ground (arith, somewhere, here, named, eq_iff ns ns)
        ]
  ]

  module _ ⦃conv : Convert⦄ (request_ns verb : String) (schema : Option ApiSchema) where
    abbrev found : List Partition × Bool
    found = is_passthrough_unconstrained request_ns schema verb

    is_split-found : namespaced schema ≡ true → all is_split found.0 ≡ true
    unfolding is_passthrough_unconstrained
    is_split-found h = rw h (
        is_split-by_scope (grants_all (get_access_list_map schema) verb) request_ns
          (granted (get_access_list_map schema) verb))

    covers-found :
        namespaced schema ≡ true
        → (request_ns == "" || request_ns == ns) ≡ true
        → any covers (in_order found) ≡ (
            grants_all (get_access_list_map schema) verb
            || allows (granted (get_access_list_map schema) verb) ns name)
    unfolding is_passthrough_unconstrained
    covers-found h scope = rw h (
        covers-by_scope (grants_all (get_access_list_map schema) verb) request_ns
          (granted (get_access_list_map schema) verb)
          (granted-DistinctKeys (get_access_list_map schema) verb) scope)

    in_order-IsSorted : (r : List Partition × Bool) → IsSorted (λ p. p.namespace) (in_order r)
    in_order-IsSorted (partitions, true) = (tt, tt)
    in_order-IsSorted (partitions, false) = sort_by-IsSorted (λ p. p.namespace) partitions

    -- For a list or a watch without an identifier of a namespaced type, for a request in this
    -- namespace or in none: `All` succeeds with partitions in the order of their namespaces, and they
    -- cover an object exactly when the constraint admits its namespace and the user's grants are for
    -- everything or `Granted` admits the object.
    pub covers-all_partitions :
        (constraint : Option (List String))
        → (verb == "list" || verb == "watch") ≡ true
        → namespaced schema ≡ true
        → (request_ns == "" || request_ns == ns) ≡ true
        → (partitions : List Partition) × (all_partitions constraint request_ns schema verb ""
            ≡ ok partitions)
          × IsSorted (λ p. p.namespace) partitions
          × (any covers partitions ≡ (
              in_constraint constraint
              && (grants_all (get_access_list_map schema) verb
                  || allows (granted (get_access_list_map schema) verb) ns name)))
    unfolding all_partitions is_passthrough
    covers-all_partitions constraint reads h scope = (
      in_order (constrain constraint found),
      rw reads refl,
      in_order-IsSorted (constrain constraint found),
      ground (arith, covers-constrain constraint found (is_split-found h), covers-found h scope),
    )
