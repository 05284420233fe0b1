-- ===== src/Api/Schemas/LookupLaws.antt =====
-- What `LookupSchema` finds after `AddSchema`.
use brent.Base.{
  String, ◌≡◌, sym, ap, ◌∙◌, ◌⊎◌, true, none, some, arith, ◌==◌, eq_iff, string_eq, lookup, insert,
  lookup-insert, to_lower,
}
use brent.Api.Errors.{ok, >>=-eq-ok, ok-injective}
use brent.Api.Types.{ApiSchema}
use brent.Api.Schemas.{Schemer, ApiSchemas, place, add_schema, lookup_schema}

module _ (lib : Schemer) where
  open lib use {find_internal, find-add}

  -- what `AddSchema` stores for `s`
  pub record Stored (s : ApiSchema) (a a' : ApiSchemas lib) : Type 0 where
    pub kept : ApiSchema
    pub kept_id : kept.id ≡ s.id
    pub kept_resource_methods : kept.resource_methods ≡ s.resource_methods
    pub kept_collection_methods : kept.collection_methods ≡ s.collection_methods
    pub kept_attributes : kept.schema.attributes ≡ s.schema.attributes
    pub schemas : a'.schemas ≡ insert s.id kept a.schemas
    pub index :
        a'.index ≡ insert (to_lower kept.plural_name) kept (insert (to_lower s.id) kept a.index)
    pub attributes : a'.attributes ≡ a.attributes

  pub add_schema-Stored :
      (s : ApiSchema) (a a' : ApiSchemas lib) → add_schema lib s a ≡ ok a' → Stored s a a'
  unfolding add_schema
  add_schema-Stored s a a' h =
      let (i, added, placed) = >>=-eq-ok (lib.add_internal s.schema a.internal_schemas) _ h in
      let (t, found, id, cm, rm, attrs) = find-add s.schema a.internal_schemas i added in
      let e : place lib s i (some t) a ≡ ok a' = rw found at placed in
      let stored = ok-injective e in
      let kept : ApiSchema = record s { schema = t } in
      record {
        kept = kept;
        kept_id = id;
        kept_resource_methods = rm;
        kept_collection_methods = cm;
        kept_attributes = attrs;
        schemas = ap (λ x. x.schemas) (sym stored) ∙ ap (λ k. insert k kept a.schemas) id;
        index =
            ap (λ x. x.index) (sym stored)
            ∙ ap (λ k. insert (to_lower kept.plural_name) kept (insert (to_lower k) kept a.index))
                id;
        attributes = ap (λ x. x.attributes) (sym stored);
      }

  -- After a successful `AddSchema` its schema is found under its own identifier and under any name
  -- that agrees with it up to case and is no other schema's identifier, with the methods it had.
  pub lookup_schema-add_schema :
      (s : ApiSchema) (a a' : ApiSchemas lib) (name : String)
      → add_schema lib s a ≡ ok a'
      → to_lower name ≡ to_lower s.id
      → (name == s.id) ≡ true ⊎ (lookup name a.schemas ≡ none)
      → (found : ApiSchema) × (lookup_schema lib name a' ≡ some found)
        × (found.id ≡ s.id)
        × (found.resource_methods ≡ s.resource_methods)
        × (found.collection_methods ≡ s.collection_methods)
  unfolding lookup_schema
  lookup_schema-add_schema s a a' name h same fresh =
      let r = add_schema-Stored s a a' h in
      let kept = r.kept in
      (
        kept,
        ground (
          arith,
          fresh,
          same,
          r.schemas,
          r.index,
          r.kept_id,
          lookup-insert s.id name kept a.schemas,
          lookup-insert s.id s.id kept a.schemas,
          eq_iff s.id name,
          eq_iff name s.id,
          eq_iff s.id s.id,
          lookup-insert (to_lower kept.plural_name) (to_lower name) kept
              (insert (to_lower s.id) kept a.index),
          lookup-insert (to_lower s.id) (to_lower name) kept a.index,
          eq_iff (to_lower s.id) (to_lower name),
        ),
        r.kept_id,
        r.kept_resource_methods,
        r.kept_collection_methods,
      )
