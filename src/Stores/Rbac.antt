-- ===== src/Stores/Rbac.antt =====
-- pkg/stores/proxy/rbac_store.go: the partitions that a user's grants allow, and the store that
-- serves one of them.
pub mod Coverage
use Prim.Native.String
use brent.Base.{
  String, Bool, true, false, not, ◌||◌, Option, none, some, List, [], ◌∷◌, map, ◌==◌, string_eq,
  if◌then◌else◌, contains, keep, Dict, lookup, cut, sort_by, ◌<>◌, ℕ,
}
use brent.AccessControl.ByVerb.{AccessListByVerb, Resources, or_no_resources, grants_all, granted}
use brent.Api.Errors.{Result, ok, err, other, ◌>>=◌}
use brent.Api.Types.{ApiSchema}
use brent.Api.Attributes.{Convert, namespaced, get_access_list_map}

pub record Partition : Type 0 where
  pub namespace : String
  pub all : Bool
  pub passthrough : Bool
  pub names : List String

abbrev pub passthrough_partition : Partition
passthrough_partition = record { namespace = ""; all = false; passthrough = true; names = [] }

-- `Lookup`
unfoldable pub lookup_partition : String → Result Partition
lookup_partition verb =
    if contains ("create" ∷ "get" ∷ "update" ∷ "delete" ∷ []) verb
    then ok passthrough_partition
    else err (other ("partition list: invalid verb " <> verb))

abbrev pub of_namespace : String → Resources → Partition
of_namespace namespace r = record {
  namespace = namespace;
  all = r.all;
  passthrough = false;
  names = r.names;
}

abbrev pub of_entry : String × Resources → Partition
of_entry (k, v) = of_namespace k v

abbrev pub without_namespace : String × Resources → Partition
without_namespace (k, v) = of_namespace "" v

abbrev pub named_in : String → List String → Partition
named_in namespace names = record {
  namespace = namespace;
  all = false;
  passthrough = false;
  names = names;
}

abbrev pub all_in : String → Partition
all_in namespace = record { namespace = namespace; all = true; passthrough = false; names = [] }

abbrev pub of_request : String → Resources → List Partition × Bool
of_request namespace r = if r.all then ([], true) else (named_in namespace r.names ∷ [], false)

abbrev pub split_by : Bool → Dict String Resources → List Partition
split_by true resources = map of_entry resources
split_by false resources = map without_namespace resources

-- the tests of `isPassthroughUnconstrained` in turn: everything granted, a request in a namespace
-- (`""` is none), a type with namespaces or without
abbrev pub by_scope : Bool → String → Bool → Dict String Resources → List Partition × Bool
by_scope everything namespace has_namespace resources =
    if everything
    then ([], true)
    else if not (namespace == "")
    then of_request namespace (or_no_resources (lookup namespace resources))
    else (split_by has_namespace resources, false)

abbrev pub constrained : List String → List Partition × Bool → List Partition × Bool
constrained namespaces (partitions, true) = (map all_in namespaces, false)
constrained namespaces (partitions, false) =
    (keep (λ p. contains namespaces p.namespace) partitions, false)

abbrev pub constrain : Option (List String) → List Partition × Bool → List Partition × Bool
constrain none found = found
constrain (some namespaces) found = constrained namespaces found

abbrev pub slash : ℕ
slash = b'/'

abbrev pub by_id : String × String × Bool → Partition
by_id (ns, name, true) = named_in ns (name ∷ [])
by_id (ns, name, false) = named_in "" (ns ∷ [])

abbrev pub in_order : List Partition × Bool → List Partition
in_order (partitions, true) = passthrough_partition ∷ []
in_order (partitions, false) = sort_by (λ p. p.namespace) partitions

module _ ⦃conv : Convert⦄ where
  -- `isPassthroughUnconstrained`
  unfoldable pub is_passthrough_unconstrained :
      String → Option ApiSchema → String → List Partition × Bool
  is_passthrough_unconstrained namespace schema verb =
      by_scope (grants_all (get_access_list_map schema) verb) namespace (namespaced schema)
        (granted (get_access_list_map schema) verb)

  -- `isPassthrough`, under the constraint of `AddNamespaceConstraint` if there is one
  unfoldable pub is_passthrough :
      Option (List String) → String → Option ApiSchema → String → List Partition × Bool
  unfolding is_passthrough_unconstrained
  is_passthrough constraint namespace schema verb =
      constrain constraint (is_passthrough_unconstrained namespace schema verb)

  -- `All`
  unfoldable pub all_partitions :
      Option (List String) → String → Option ApiSchema → String → String → Result (List Partition)
  unfolding is_passthrough
  all_partitions constraint namespace schema verb id =
      if verb == "list" || verb == "watch"
      then if not (id == "")
        then ok (by_id (cut slash id) ∷ [])
        else ok (in_order (is_passthrough constraint namespace schema verb))
      else err (other ("parition all: invalid verb " <> verb))

-- the methods of the proxy store that one partition's store calls, with the request's namespace
pub record Lists (L : Type 0) : Type 0 where
  pub list : String → Result L
  pub by_names : String → List String → Result L

pub record Watches (W : Type 0) : Type 0 where
  pub watch : String → Result W
  pub watch_names : String → List String → Result W

-- `byNameOrNamespaceStore.List`, and the namespace that it leaves in the request
unfoldable pub list_of_partition : {L : Type 0} → Lists L → Partition → String → Result L × String
list_of_partition store p namespace =
    if p.passthrough
    then (store.list namespace, namespace)
    else if p.all
    then (store.list p.namespace, p.namespace)
    else (store.by_names p.namespace p.names, p.namespace)

-- `byNameOrNamespaceStore.Watch`
unfoldable pub watch_of_partition :
    {W : Type 0} → Watches W → Partition → String → Result W × String
watch_of_partition store p namespace =
    if p.passthrough
    then (store.watch namespace, namespace)
    else if p.all
    then (store.watch p.namespace, p.namespace)
    else (store.watch_names p.namespace p.names, p.namespace)
