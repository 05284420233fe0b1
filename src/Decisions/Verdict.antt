-- ===== src/Decisions/Verdict.antt =====
-- When `CanDo` allows, denies and panics.
use brent.Base.{
  String, ◌≡◌, refl, ◌≢◌, ◌↔◌, Bool, true, false, ◌&&◌, ◌||◌, Option, none, some, arith, ◌==◌,
  eq_one_of, contains, lookup, ◌<>◌, cut, string_eq,
}
use brent.AccessControl.AccessSet.{AccessSet, grants}
use brent.Api.Errors.{Error, ok, panic}
use brent.Api.Types.{ApiSchema, access_set, method_get, method_post, method_put, method_delete}
use brent.Api.Attributes.{Convert}
use brent.Api.Schemas.{Schemer, ApiSchemas, lookup_schema, shallow_copy}
use brent.Decisions.{allow_if, schema_can_do, schema_grants, can_do, split_resource}

-- the methods by which a schema alone allows a verb of HTTP
abbrev pub method_allows : Option ApiSchema → String → Bool
method_allows none verb = false
method_allows (some s) verb =
    (verb == method_get
      && (contains s.collection_methods method_get || contains s.collection_methods method_post))
    || ((verb == method_delete && contains s.resource_methods method_delete)
        || ((verb == method_put && contains s.resource_methods method_put)
            || (verb == method_post && contains s.collection_methods method_post)))

is_nil : Option Error → Bool
is_nil none = true
is_nil (some e) = false

is_nil-allow_if : (b : Bool) (message : String) → is_nil (allow_if b message) ≡ b
unfolding is_nil
is_nil-allow_if true message = refl
is_nil-allow_if false message = refl

is_nil-schema_can_do :
    (s : Option ApiSchema) (resource verb namespace name : String)
    → is_nil (schema_can_do s resource verb namespace name) ≡ method_allows s verb
unfolding schema_can_do is_nil
is_nil-schema_can_do none resource verb namespace name = refl
is_nil-schema_can_do (some s) resource verb namespace name = ground (
  arith,
  eq_one_of verb method_get method_delete refl,
  eq_one_of verb method_get method_put refl,
  eq_one_of verb method_get method_post refl,
  eq_one_of verb method_delete method_put refl,
  eq_one_of verb method_delete method_post refl,
  eq_one_of verb method_put method_post refl,
  is_nil-allow_if
      (contains s.collection_methods method_get || contains s.collection_methods method_post)
      ("can not list " <> s.id),
  is_nil-allow_if (contains s.resource_methods method_delete) ("can not delete " <> s.id),
  is_nil-allow_if (contains s.resource_methods method_put) ("can not update " <> s.id),
  is_nil-allow_if (contains s.collection_methods method_post) ("can not create " <> s.id),
)

schema_can_do_iff :
    (s : Option ApiSchema) (resource verb namespace name : String)
    → (schema_can_do s resource verb namespace name ≡ none) ↔ (method_allows s verb ≡ true)
unfolding is_nil
schema_can_do_iff s resource verb namespace name =
    ground (arith, is_nil-schema_can_do s resource verb namespace name)

module _ ⦃conv : Convert⦄ (lib : Schemer) (schemas : ApiSchemas lib) where
  module _ (resource verb namespace name : String) where
    abbrev pub by_schema : Bool
    by_schema = schema_grants (lookup_schema lib resource schemas) verb namespace name

    abbrev pub parts : String × String
    parts = split_resource (cut b'/' resource)

    -- With the user's set in place, `CanDo` never panics, and it allows a request exactly when the
    -- schema's own grants do, or the set does for the group before the slash and the resource
    -- after it, or the methods of the schema named after the slash do.
    pub can_do_iff :
        (a : AccessSet)
        → lookup "accessSet" schemas.attributes ≡ some (access_set a)
        → ((can_do lib schemas resource verb namespace name ≡ ok none) ↔ (
            (by_schema
              || (grants a verb (record { group = parts.0; resource = parts.1 }) namespace name
                  || method_allows (lookup_schema lib parts.1 schemas) verb))
            ≡ true))
          × (can_do lib schemas resource verb namespace name ≢ panic)
    unfolding can_do
    can_do_iff a present =
        let (to, from) =
          schema_can_do_iff (lookup_schema lib parts.1 schemas) parts.1 verb namespace name in
        ground (arith, present, to, from)

    -- A shallow copy of the schemas has lost the user's set, so on it `CanDo` panics for every
    -- request that the schema's own grants do not allow.
    pub can_do-shallow_copy :
        by_schema ≡ false
        → can_do lib (shallow_copy lib schemas) resource verb namespace name ≡ panic
    unfolding can_do shallow_copy lookup_schema
    can_do-shallow_copy denied = rw denied
