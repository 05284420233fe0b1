-- ===== src/Factory.antt =====
-- pkg/schema/factory.go: the schemas that one user sees, from the user's grants.
pub mod VerbAccess
pub mod Methods
pub mod Shared
use brent.Base.{
  String, Bool, true, false, not, ◌&&◌, ◌||◌, Option, none, some, List, [], ◌∷◌, ◌++◌, map, ◌==◌,
  string_eq, if◌then◌else◌, keep, for_each, Dict, insert, lookup, values,
}
use brent.AccessControl.Access.{Access, AccessList, GroupResource, all_name}
use brent.AccessControl.AccessSet.{AccessSet, access_list_for, namespaces}
use brent.AccessControl.ByVerb.{AccessListByVerb, any_verb, is_empty}
use brent.Api.Errors.{Result, ok, err, panic, ◌>>=◌}
use brent.Api.Types.{
  ApiSchema, Value, access_set, method_get, method_post, method_put, method_patch, method_delete,
}
use brent.Api.Attributes.{Convert, gr, verbs, namespaced, set_access}
use brent.Api.Schemas.{Schemer, ApiSchemas, empty_api_schemas, add_schema, add_schemas}

abbrev pub cluster_wide : Access → Bool
cluster_wide a = a.namespace == all_name

abbrev pub add_collection_method : String → ApiSchema → ApiSchema
add_collection_method m s = record s {
  schema = record s.schema { collection_methods = s.schema.collection_methods ++ m ∷ [] };
}

abbrev pub add_resource_method : String → ApiSchema → ApiSchema
add_resource_method m s = record s {
  schema = record s.schema { resource_methods = s.schema.resource_methods ++ m ∷ [] };
}

-- what one round of the loop leaves: the collection's own schema, and the user's copy if any
pub record Visited : Type 0 where
  pub shared : ApiSchema
  pub visible : Option ApiSchema

abbrev pub name_namespace : String → Access
name_namespace ns = record { namespace = all_name; resource_name = ns }

abbrev pub is_namespaces : GroupResource → Bool
is_namespaces g = g.group == "" && g.resource == "namespaces"

abbrev pub grow : Bool → (ApiSchema → ApiSchema) → ApiSchema → ApiSchema
grow b f s = if b then f s else s

-- the methods that the verbs give, each `if` of the loop in turn
unfoldable pub set_methods : AccessListByVerb → ApiSchema → ApiSchema
set_methods m s = grow (any_verb m ("create" ∷ [])) (add_collection_method method_post) (
    grow (any_verb m ("update" ∷ []))
      (λ t. add_resource_method method_patch (add_resource_method method_put t))
      (grow (any_verb m ("delete" ∷ [])) (add_resource_method method_delete) (
        grow (any_verb m ("list" ∷ "get" ∷ []))
          (λ t. add_collection_method method_get (add_resource_method method_get t)) s)))

abbrev pub if_any_method : ApiSchema → Option ApiSchema
if_any_method s =
    if is_empty s.collection_methods && is_empty s.resource_methods then none else some s

module _ ⦃conv : Convert⦄ (access : AccessSet) where
  -- grants in a namespace are dropped for a resource that has no namespace
  abbrev pub trim : ApiSchema → AccessList → AccessList
  trim s l = if not (namespaced (some s)) then keep cluster_wide l else l

  abbrev pub usable : ApiSchema → String → AccessList
  usable s verb = trim s (access_list_for access verb (gr s))

  abbrev pub add_verb : ApiSchema → String → AccessListByVerb → AccessListByVerb
  add_verb s verb m = if not (is_empty (usable s verb)) then insert verb (usable s verb) m else m

  -- the loop over the schema's verbs
  unfoldable pub verb_access : ApiSchema → AccessListByVerb
  verb_access s = for_each (verbs s) (add_verb s) []

  -- the grants by name for the namespaces in which the user may read something
  unfoldable pub namespace_access : AccessList
  namespace_access = map name_namespace (namespaces access)

  -- the branch for a user with no access of the schema's own
  unfoldable pub widen_access : ApiSchema → AccessListByVerb → AccessListByVerb
  widen_access s m =
      if is_empty m && is_namespaces (gr s)
      then insert "watch" namespace_access (insert "get" namespace_access m)
      else m

  -- that branch also writes to the collection's own schema
  unfoldable pub touch_shared : ApiSchema → AccessListByVerb → ApiSchema
  touch_shared s m =
      if is_empty m && (is_namespaces (gr s) && is_empty namespace_access)
      then add_collection_method method_get s
      else s

  -- one round of the loop of `schemasForSubject`
  unfoldable pub visit : ApiSchema → Visited
  visit s =
      if (gr s).resource == ""
      then record { shared = s; visible = some s }
      else let m = verb_access s in
        let s' = touch_shared s m in
        let m' = widen_access s m in
        record { shared = s'; visible = if_any_method (set_methods m' (set_access m' s')) }

  module _ (lib : Schemer) where
    abbrev pub add_visible : Option ApiSchema → ApiSchemas lib → Result (ApiSchemas lib)
    add_visible none r = ok r
    add_visible (some s) r = add_schema lib s r

    -- the loop over the collection's schemas, with what it leaves in the collection
    unfoldable pub visit_all :
        Dict String ApiSchema → ApiSchemas lib → Result (ApiSchemas lib) × Dict String ApiSchema
    unfolding visit
    visit_all [] r = (ok r, [])
    visit_all ((id, s) ∷ rest) r = elim (add_visible (visit s).visible r) [
      | ok r' ↦
          let (result, shared) = visit_all rest r' in (result, (id, (visit s).shared) ∷ shared)
      | err e ↦ (err e, (id, (visit s).shared) ∷ rest)
      | panic ↦ (panic, (id, (visit s).shared) ∷ rest)
    ]

    abbrev pub with_access_set : ApiSchemas lib → ApiSchemas lib
    with_access_set r = record r { attributes = ("accessSet", access_set access) ∷ [] }

    -- `newSchemas`, then the base schemas
    abbrev pub start_schemas : List ApiSchema → List ApiSchema → Result (ApiSchemas lib)
    start_schemas builtin base =
        add_schemas lib builtin (empty_api_schemas lib) >>= add_schemas lib base

    abbrev pub finish :
        Result (ApiSchemas lib) × Dict String ApiSchema
        → Result (ApiSchemas lib) × Dict String ApiSchema
    finish (result, shared) = (result >>= λ r. ok (with_access_set r), shared)

    -- `schemasForSubject`
    unfoldable pub schemas_for_subject :
        List ApiSchema
        → List ApiSchema
        → Dict String ApiSchema
        → Result (ApiSchemas lib) × Dict String ApiSchema
    unfolding visit_all
    schemas_for_subject builtin base schemas = elim (start_schemas builtin base) [
      | ok r ↦ finish (visit_all schemas r)
      | err e ↦ (err e, schemas)
      | panic ↦ (panic, schemas)
    ]
