-- ===== src/Tests/ApiTests.antt =====
-- Schemas, attributes and the checks of a request at concrete inputs.
use brent.Base.{
  String, ◌≡◌, refl, ◌↔◌, ◌≢◌, ◌||◌, ◌&&◌, Bool, true, false, Option, none, some, List, [], ◌∷◌,
  lookup, inl, inr, ◌==◌, string_eq,
}
use brent.AccessControl.AccessSet.{grants}
use brent.Api.Errors.{ok, panic}
use brent.Api.Types.{ApiSchema, access_set}
use brent.Api.Attributes.{
  GroupVersionKind, ApiResource, gvk, gvr, verbs, namespaced, set_gvk, set_api_resource,
}
use brent.Api.Attributes.RoundTrip.{set_gvk-set_api_resource}
use brent.Api.Schemas.{ApiSchemas, add_schema, lookup_schema, shallow_copy}
use brent.Api.Schemas.LookupLaws.{lookup_schema-add_schema}
use brent.Decisions.{can_do}
use brent.Decisions.Verdict.{method_allows, by_schema, parts, can_do_iff, can_do-shallow_copy}
use brent.Tests.Fixtures.{plain_schemer, plain_convert, pod_schema, namespace_schema, pod_reader}

abbrev pod_kind : GroupVersionKind
pod_kind = record { group = ""; version = "v1"; kind = "Pod" }

abbrev pod_resource : ApiResource
pod_resource = record { name = "pods"; verbs = "get" ∷ []; namespaced = true }

set_gvk-set_api_resource_example :
    (gvk (set_api_resource pod_resource (set_gvk pod_kind namespace_schema)) ≡ pod_kind)
    × (gvr (set_api_resource pod_resource (set_gvk pod_kind namespace_schema))
        ≡ record { group = ""; version = "v1"; resource = "pods" })
    × (verbs (set_api_resource pod_resource (set_gvk pod_kind namespace_schema)) ≡ "get" ∷ [])
    × (namespaced (some (set_api_resource pod_resource (set_gvk pod_kind namespace_schema))) ≡ true)
set_gvk-set_api_resource_example = set_gvk-set_api_resource namespace_schema pod_kind pod_resource

abbrev base : ApiSchemas plain_schemer
base = record { internal_schemas = []; schemas = []; index = []; attributes = [] }

abbrev with_pod : ApiSchemas plain_schemer
with_pod = record {
  internal_schemas = ("pod", pod_schema.schema) ∷ [];
  schemas = ("pod", pod_schema) ∷ [];
  index = ("pod", pod_schema) ∷ [];
  attributes = [];
}

lookup_schema-add_schema_example :
    (found : ApiSchema) × (lookup_schema plain_schemer "POD" with_pod ≡ some found)
    × (found.id ≡ "pod")
    × (found.resource_methods ≡ [])
    × (found.collection_methods ≡ [])
unfolding add_schema brent.Base.to_lower
lookup_schema-add_schema_example =
    lookup_schema-add_schema plain_schemer pod_schema base with_pod "POD" refl
      (unfold brent.Base.to_lower in refl) (inr refl)

abbrev logged_in : ApiSchemas plain_schemer
logged_in = record with_pod { attributes = ("accessSet", access_set pod_reader) ∷ [] }

can_do_iff_example :
    ((can_do plain_schemer logged_in "/pods" "get" "dev" "web" ≡ ok none) ↔ (
      (by_schema plain_schemer logged_in "/pods" "get" "dev" "web"
        || (grants pod_reader "get"
              (record {
                group = (parts plain_schemer logged_in "/pods" "get" "dev" "web").0;
                resource = (parts plain_schemer logged_in "/pods" "get" "dev" "web").1;
              })
              "dev"
              "web"
            || method_allows
                (lookup_schema plain_schemer
                  (parts plain_schemer logged_in "/pods" "get" "dev" "web").1
                  logged_in)
                "get"))
      ≡ true))
    × (can_do plain_schemer logged_in "/pods" "get" "dev" "web" ≢ panic)
can_do_iff_example = can_do_iff plain_schemer logged_in "/pods" "get" "dev" "web" pod_reader refl

can_do-shallow_copy_example :
    can_do plain_schemer (shallow_copy plain_schemer logged_in) "/pods" "get" "dev" "web" ≡ panic
unfolding lookup_schema
can_do-shallow_copy_example =
    can_do-shallow_copy plain_schemer logged_in "/pods" "get" "dev" "web"
      (unfold brent.Base.to_lower in refl)
