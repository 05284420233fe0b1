-- ===== src/Api/Objects.antt =====
-- The objects, lists and stores of pkg/types/server_types.go.
use brent.Base.{String, Option, none, List, [], ◌∷◌, ◌==◌, string_eq, if◌then◌else◌, Dict}
use brent.Api.Errors.{Error, Result, ok, err, bare_code, not_found, ◌>>=◌}
use brent.Api.Types.{Value}

-- `APIObject`; a nil `Object` is `none`
pub record ApiObject : Type 0 where
  pub type : String
  pub id : String
  pub object : Option (Dict String Value)

abbrev pub no_object : ApiObject
no_object = record { type = ""; id = ""; object = none }

-- `APIObjectList`
pub record ApiObjectList : Type 0 where
  pub revision : String
  pub continue : String
  pub objects : List ApiObject

abbrev pub find_object : List ApiObject → String → Result ApiObject
find_object [] id = err (bare_code not_found)
find_object (item ∷ items) id =
    let rest = find_object items id in if item.id == id then ok item else rest

-- `DefaultByID`, on what the store's `List` returned
unfoldable pub default_by_id : Result ApiObjectList → String → Result ApiObject
default_by_id listed id = listed >>= λ list. find_object list.objects id

-- `WatchRequest`
pub record WatchRequest : Type 0 where
  pub revision : String
  pub id : String
  pub selector : String

abbrev pub change_api_event : String
change_api_event = "resource.change"

abbrev pub remove_api_event : String
remove_api_event = "resource.remove"

abbrev pub create_api_event : String
create_api_event = "resource.create"

-- `APIEvent`, but for `Data`
pub record ApiEvent : Type 0 where
  pub name : String
  pub namespace : String
  pub resource_type : String
  pub id : String
  pub selector : String
  pub revision : String
  pub object : ApiObject
  pub error : Option Error

abbrev pub event_of : String → ApiEvent
event_of name = record {
  name = name;
  namespace = "";
  resource_type = "";
  id = "";
  selector = "";
  revision = "";
  object = no_object;
  error = none;
}
