-- ===== src/SchemaStore/Notices.antt =====
-- `sendSchemas` of pkg/resources/schemas/template.go: the events that tell a client how its schemas
-- changed, and what a client that follows them knows.
pub mod Followed
use brent.Base.{
  distinct, ℕ, String, ◌≡◌, refl, sym, ap, ◌∙◌, Bool, true, false, not, ◌&&◌, ◌||◌, Option, none,
  some, List, [], ◌∷◌, ◌++◌, Dict, lookup, insert, remove, lookup-insert, lookup-remove, ◌==◌,
  string_eq, eq_iff, if◌then◌else◌, contains, any, for_each, is_some, arith, Bool-cases,
  Option-cases, inl, inr,
}
use brent.Api.Errors.{Result, ok, err, panic}
use brent.Api.Types.{ApiSchema, Schema}
use brent.Api.Objects.{change_api_event, remove_api_event, create_api_event}
use brent.Api.Schemas.{Schemer, ApiSchemas, lookup_schema}
use brent.SchemaStore.{SubTypes, ids_of, to_schema_object, filter_schemas}

-- `APIEvent` of a schema
pub record Notice : Type 0 where
  pub name : String
  pub schema : ApiSchema

abbrev pub created : ApiSchema → Notice
created s = record { name = create_api_event; schema = s }

abbrev pub changed : ApiSchema → Notice
changed s = record { name = change_api_event; schema = s }

abbrev pub removed : ApiSchema → Notice
removed s = record { name = remove_api_event; schema = s }

abbrev pub as_list : Option Notice → List Notice
as_list none = []
as_list (some n) = n ∷ []

-- what a client does with an event
unfoldable pub follow : Notice → Dict String ApiSchema → Dict String ApiSchema
follow n m =
    if n.name == remove_api_event
    then remove n.schema.schema.id m
    else insert n.schema.schema.id n.schema m

-- the schemas of a list by their identifiers, as a client has them that was sent the list
unfoldable pub known : List ApiSchema → Dict String ApiSchema
known l = for_each l (λ s m. insert s.schema.id s m) []

abbrev pub find_schema : String → List ApiSchema → Option ApiSchema
find_schema id [] = none
find_schema id (s ∷ l) = if s.schema.id == id then some s else find_schema id l

module _ (lib : Schemer) (equal : Schema → Schema → Bool) where
  abbrev pub notice_against : ApiSchema → Option ApiSchema → Option Notice
  notice_against s none = some (created s)
  notice_against s (some o) = if equal s.schema o.schema then none else some (changed s)

  -- the first loop, for one schema: none where nothing changed
  unfoldable pub notice_of : ApiSchemas lib → ApiSchema → Option Notice
  notice_of old s = notice_against s (lookup_schema lib s.schema.id old)

  abbrev pub new_notices : ApiSchemas lib → List ApiSchema → List Notice
  new_notices old [] = []
  new_notices old (s ∷ l) = as_list (notice_of old s) ++ new_notices old l

  abbrev pub old_notices : List String → List ApiSchema → List Notice
  old_notices ids [] = []
  old_notices ids (s ∷ l) =
      let rest = old_notices ids l in if contains ids s.schema.id then rest else removed s ∷ rest

  abbrev pub notices : ApiSchemas lib → List ApiSchema → List ApiSchema → List Notice
  notices old new_list old_list = new_notices old new_list ++ old_notices (ids_of new_list) old_list

  -- `sendSchemas`: the events, and the schemas that the next call compares with
  unfoldable pub send_schemas :
      SubTypes → ℕ → Result (ApiSchemas lib) → ApiSchemas lib → List Notice × ApiSchemas lib
  unfolding notice_of
  send_schemas types n (ok new) old =
      (notices old (filter_schemas types new.schemas n) (filter_schemas types old.schemas n), new)
  send_schemas types n (err e) old = ([], old)
  send_schemas types n panic old = ([], old)
