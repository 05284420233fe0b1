-- ===== src/Tests/FactoryTests.antt =====
-- The schemas of one user at concrete inputs.
use brent.Base.{
  ◌+◌, ◌≡◌, refl, ◌↔◌, true, ◌&&◌, ◌||◌, none, some, [], ◌∷◌, if◌then◌else◌, length, any, contains,
  string_eq,
}
use brent.AccessControl.Access.{access_grants}
use brent.AccessControl.AccessSet.{empty, grants, access_list_for, namespaces}
use brent.AccessControl.ByVerb.{by_verb_grants}
use brent.Api.Types.{ApiSchema, method_get, method_post, method_put, method_delete}
use brent.Api.Attributes.{gr, verbs, namespaced, attribute, set_access, set_val}
use brent.Decisions.{can_create, can_get, can_list, can_update, can_delete}
use brent.Factory.{
  verb_access, cluster_wide, visit, set_methods, widen_access, touch_shared, namespace_access,
}
use brent.Factory.VerbAccess.{verb_access-grants}
use brent.Factory.Methods.{may, visit-allows}
use brent.Factory.Shared.{visits, length-visits}
use brent.Tests.Fixtures.{plain_convert, pod_schema, namespace_schema, pod_reader}

verb_access-grants_example :
    by_verb_grants (verb_access pod_reader pod_schema) "get" "dev" "web" ≡ (
      contains (verbs pod_schema) "get"
      && (if namespaced (some pod_schema)
          then grants pod_reader "get" (gr pod_schema) "dev" "web"
          else any
              (λ x. cluster_wide x && access_grants x "dev" "web")
              (access_list_for pod_reader "get" (gr pod_schema))))
verb_access-grants_example = verb_access-grants pod_reader pod_schema "get" "dev" "web"

-- the pod schema as the reader of pods sees it
abbrev seen : ApiSchema
seen = set_access (verb_access pod_reader pod_schema) (record pod_schema {
  schema = record pod_schema.schema {
    resource_methods = "GET" ∷ [];
    collection_methods = "GET" ∷ [];
  };
})

visit-allows_example :
    ((can_delete seen ≡ none) ↔ (
      (contains pod_schema.resource_methods method_delete || may pod_reader pod_schema "delete")
      ≡ true))
    × ((can_update seen ≡ none) ↔ (
        (contains pod_schema.resource_methods method_put || may pod_reader pod_schema "update")
        ≡ true))
    × ((can_create seen ≡ none) ↔ (
        (contains pod_schema.collection_methods method_post || may pod_reader pod_schema "create")
        ≡ true))
    × ((can_get seen ≡ none) ↔ (
        (contains pod_schema.resource_methods method_get
          || (may pod_reader pod_schema "list" || may pod_reader pod_schema "get"))
        ≡ true))
    × ((can_list seen ≡ none) ↔ (
        ((contains pod_schema.collection_methods method_get
            || contains pod_schema.collection_methods method_post)
          || (may pod_reader pod_schema "list"
              || (may pod_reader pod_schema "get" || may pod_reader pod_schema "create")))
        ≡ true))
unfolding visit verb_access set_methods widen_access touch_shared gr verbs namespaced attribute
    set_access set_val access_list_for brent.AccessControl.ByVerb.any_verb
visit-allows_example = visit-allows pod_reader pod_schema seen refl refl refl

length-visits_example :
    length (visits (empty ∷ empty ∷ []) namespace_schema).collection_methods
    ≡ length namespace_schema.collection_methods + length (empty ∷ empty ∷ [])
unfolding verb_access gr verbs namespaced attribute access_list_for namespace_access namespaces
length-visits_example =
    length-visits (empty ∷ empty ∷ []) namespace_schema (refl, refl)
      ((refl, refl), ((refl, refl), tt))
