-- ===== src/SchemaStore.antt =====
-- pkg/stores/schema/schema_store.go: the schemas that a user is shown, and those that they refer to.
pub mod Closed
pub mod Listed
pub mod Listings
pub mod Unmarked
pub mod Notices
use Prim.Native.String
use brent.Base.{
  ℕ, zero, suc, String, Bool, true, false, not, ◌&&◌, ◌||◌, Option, none, some, List, [], ◌∷◌, ◌++◌,
  Dict, lookup, remove, values, ◌==◌, string_eq, if◌then◌else◌, contains, for_each, keep,
}
use brent.Api.Errors.{Result, ok, err, new_api_error, not_found}
use brent.Api.Schemas.{Schemer, ApiSchemas, lookup_schema}
use brent.Api.Types.{Action, ApiSchema, Schema}

-- `toAPIObject`: a copy of the schema without the grants
unfoldable pub to_schema_object : ApiSchema → ApiSchema
to_schema_object s = record s {
  schema = record s.schema { attributes = remove "access" s.schema.attributes };
}

module _ (lib : Schemer) where
  abbrev or_not_found : Option ApiSchema → Result ApiSchema
  or_not_found none = err (new_api_error not_found "no such schema")
  or_not_found (some s) = ok (to_schema_object s)

  -- `ByID`
  unfoldable pub by_id : ApiSchemas lib → String → Result ApiSchema
  by_id schemas id = or_not_found (lookup_schema lib id schemas)

-- the schemas that are marked and those that are in the list
pub record Listing : Type 0 where
  pub included : List String
  pub objects : List ApiSchema

abbrev pub ids_of : List ApiSchema → List String
ids_of [] = []
ids_of (s ∷ l) = s.schema.id ∷ ids_of l

abbrev pub mark : String → Listing → Listing
mark id l = record l { included = id ∷ l.included }

abbrev pub append_object : ApiSchema → Listing → Listing
append_object s l = record l { objects = l.objects ++ to_schema_object s ∷ [] }

abbrev pub action_types : Dict String Action → List String
action_types [] = []
action_types ((k, a) ∷ actions) =
    keep (λ t. not (t == "")) (a.output ∷ a.input ∷ []) ++ action_types actions

abbrev pub has_methods : ApiSchema → Bool
has_methods s = elim s.schema.collection_methods [
  | m ∷ ms ↦ true
  | [] ↦ elim s.schema.resource_methods [ m ∷ ms ↦ true | [] ↦ false ]
]

-- `definition.SubType`, until it changes nothing: each step goes down in the nesting of the type
pub record SubTypes : Type 0 where
  pub sub_type : String → String
  pub depth : String → ℕ

module _ (types : SubTypes) where
  abbrev inner_from : ℕ → String → String
  inner_from zero t = t
  inner_from (suc n) t =
      let rest = inner_from n (types.sub_type t) in if types.sub_type t == t then t else rest

  -- the loop of `traverseAndAdd` over the sub-types of a field's type
  unfoldable pub inner_type : String → String
  inner_type t = inner_from (types.depth t) t

  abbrev pub field_types : Dict String String → List String
  field_types [] = []
  field_types ((k, t) ∷ fields) = inner_type t ∷ field_types fields

  -- the types that `traverseAndAdd` visits, in its order
  unfoldable pub references : ApiSchema → List String
  unfolding inner_type
  references s =
      field_types s.schema.resource_fields
      ++ (action_types s.schema.resource_actions ++ action_types s.schema.collection_actions)

  module _ (schemas : Dict String ApiSchema) where
    abbrev pub visit_reference :
        (ApiSchema → Listing → Listing) → String → Option ApiSchema → Listing → Listing
    visit_reference add t none l = l
    visit_reference add t (some s) l = if contains l.included t then l else add s l

    -- `addSchema` and `traverseAndAdd`; the fuel bounds the depth of the references
    unfoldable pub add_schema : ℕ → ApiSchema → Listing → Listing
    unfolding references
    add_schema zero s l = l
    add_schema (suc n) s l = append_object s (
        for_each (references s) (λ t l'. visit_reference (add_schema n) t (lookup t schemas) l')
          (mark s.schema.id l))

    abbrev pub list_one : ℕ → ApiSchema → Listing → Listing
    list_one n s l =
        if contains l.included s.schema.id || not (has_methods s) then l else add_schema (suc n) s l

    -- `FilterSchemas`
    unfoldable pub filter_schemas : ℕ → List ApiSchema
    unfolding add_schema
    filter_schemas n =
        (for_each (values schemas) (list_one n) (record { included = []; objects = [] })).objects
