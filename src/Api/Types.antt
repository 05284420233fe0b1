-- ===== src/Api/Types.antt =====
-- pkg/types/types.go and the parts of server_types.go that describe schemas.
use brent.Base.{ℕ, String, Bool, Option, List, [], ◌∷◌, Dict}
use brent.AccessControl.ByVerb.{AccessListByVerb}
use brent.AccessControl.AccessSet.{AccessSet}

-- `ColumnDefinition` of pkg/resources/common, by its name, type and field
pub record ColumnDefinition : Type 0 where
  pub name : String
  pub type : String
  pub field : String

-- The `interface{}` values of attributes and of objects: texts, numbers and flags, lists and maps
-- of values, and what brent itself stores. A nil in a map is `nil_value`.
mutual
  pub data Value : Type 0 where
    text : String → Value
    flag : Bool → Value
    number : ℕ → Value
    texts : List String → Value
    access : AccessListByVerb → Value
    access_set : AccessSet → Value
    columns : List ColumnDefinition → Value
    nil_value : Value
    sequence : Values → Value
    nested : Entries → Value

  pub data Values : Type 0 where
    no_values : Values
    next_value : Value → Values → Values

  pub data Entries : Type 0 where
    no_entries : Entries
    entry : String → Value → Entries → Entries

-- the lists and maps as lists of Go
abbrev pub values_of : Values → List Value
values_of no_values = []
values_of (next_value v vs) = v ∷ values_of vs

abbrev pub entries_of : Entries → Dict String Value
entries_of no_entries = []
entries_of (entry k v es) = (k, v) ∷ entries_of es

abbrev pub to_entries : Dict String Value → Entries
to_entries [] = no_entries
to_entries ((k, v) ∷ m) = entry k v (to_entries m)

-- Handlers, formatters and stores are Go functions and objects: here the name of one. What it
-- does is a parameter of whatever calls it.
abbrev pub Handler : Type 0
Handler = ℕ

-- `Action` of the schemer library: the types of its input and output
pub record Action : Type 0 where
  pub input : String
  pub output : String

-- `Schema` of the schemer library: the fields that brent reads or writes
pub record Schema : Type 0 where
  pub id : String
  pub plural_name : String
  pub collection_methods : List String
  pub resource_methods : List String
  pub collection_actions : Dict String Action
  pub resource_actions : Dict String Action
  pub resource_fields : Dict String String
  pub attributes : Dict String Value

-- `ApiSchema`
pub record ApiSchema : Type 0 where
  pub schema : Schema
  pub open schema use *
  pub action_handlers : Dict String Handler
  pub link_handlers : Dict String Handler
  pub list_handler : Option Handler
  pub by_id_handler : Option Handler
  pub create_handler : Option Handler
  pub delete_handler : Option Handler
  pub update_handler : Option Handler
  pub formatter : List Handler
  pub request_modifier : Option Handler
  pub error_handler : Option Handler
  pub store : Option Handler

abbrev pub method_get : String
method_get = "GET"

abbrev pub method_post : String
method_post = "POST"

abbrev pub method_put : String
method_put = "PUT"

abbrev pub method_patch : String
method_patch = "PATCH"

abbrev pub method_delete : String
method_delete = "DELETE"
