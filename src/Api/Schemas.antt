-- ===== src/Api/Schemas.antt =====
-- pkg/types/schemas.go: the schemas that a user sees, by identifier and by index.
pub mod LookupLaws
use brent.Base.{
  String, ◌≡◌, Bool, Option, none, some, List, [], ◌∷◌, Dict, lookup, insert, string_eq, to_lower,
  values,
}
use brent.Api.Errors.{Error, Result, ok, err, panic, ◌>>=◌}
use brent.Api.Types.{Schema, ApiSchema, Value}

-- `schemas.Schemas` of the schemer library. Adding a schema may fail; otherwise the schema is
-- found under its identifier, with the fields that brent relies on.
pub record Schemer : Type 1 where
  pub Internal : Type 0
  pub empty_internal : Internal
  pub add_internal : Schema → Internal → Result Internal
  pub find_internal : String → Internal → Option Schema
  pub find-add :
      (s : Schema) (i j : Internal)
      → add_internal s i ≡ ok j
      → (t : Schema) × (find_internal s.id j ≡ some t)
        × (t.id ≡ s.id)
        × (t.collection_methods ≡ s.collection_methods)
        × (t.resource_methods ≡ s.resource_methods)
        × (t.attributes ≡ s.attributes)

module _ (lib : Schemer) where
  open lib use {Internal, empty_internal, add_internal, find_internal}

  -- `ApiSchemas`. The pointers of the index are used only for their identifiers.
  pub record ApiSchemas : Type 0 where
    pub internal_schemas : Internal
    pub schemas : Dict String ApiSchema
    pub index : Dict String ApiSchema
    pub attributes : Dict String Value

  -- `EmptyAPISchemas`
  unfoldable pub empty_api_schemas : ApiSchemas
  empty_api_schemas = record {
    internal_schemas = empty_internal;
    schemas = [];
    index = [];
    attributes = [];
  }

  -- `ShallowCopy`: the attributes are not copied
  unfoldable pub shallow_copy : ApiSchemas → ApiSchemas
  shallow_copy a = record {
    internal_schemas = a.internal_schemas;
    schemas = a.schemas;
    index = a.index;
    attributes = [];
  }

  -- `addToIndex`
  unfoldable pub add_to_index : ApiSchema → ApiSchemas → ApiSchemas
  add_to_index s a = record a {
    index = insert (to_lower s.plural_name) s (insert (to_lower s.id) s a.index);
  }

  abbrev pub place : ApiSchema → Internal → Option Schema → ApiSchemas → Result ApiSchemas
  place s i none a = panic
  place s i (some t) a =
      let s' : ApiSchema = record s { schema = t } in
      ok (add_to_index s' (record a { internal_schemas = i; schemas = insert s'.id s' a.schemas }))

  -- `AddSchema`
  unfoldable pub add_schema : ApiSchema → ApiSchemas → Result ApiSchemas
  unfolding add_to_index
  add_schema s a = do
    i ← add_internal s.schema a.internal_schemas
    place s i (find_internal s.id i) a

  -- `AddSchemas`, over the other collection's schemas
  unfoldable pub add_schemas : List ApiSchema → ApiSchemas → Result ApiSchemas
  unfolding add_schema
  add_schemas [] a = ok a
  add_schemas (s ∷ ss) a = do a' ← add_schema s a; add_schemas ss a'

  abbrev pub through_index : Dict String ApiSchema → Option ApiSchema → Option ApiSchema
  through_index schemas none = none
  through_index schemas (some s) = lookup s.id schemas

  abbrev pub or_index : ApiSchemas → String → Option ApiSchema → Option ApiSchema
  or_index a name (some s) = some s
  or_index a name none = through_index a.schemas (lookup (to_lower name) a.index)

  -- `LookupSchema`
  unfoldable pub lookup_schema : String → ApiSchemas → Option ApiSchema
  lookup_schema name a = or_index a name (lookup name a.schemas)
