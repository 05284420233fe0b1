-- ===== src/Api/Attributes.antt =====
-- pkg/attributes/attributes.go: typed access to a schema's attributes.
pub mod RoundTrip
use brent.Base.{
  String, ◌≡◌, Bool, true, false, not, Option, none, some, List, [], ◌∷◌, Dict, lookup, insert,
  string_eq, ◌==◌,
}
use brent.AccessControl.Access.{GroupResource}
use brent.AccessControl.ByVerb.{AccessListByVerb}
use brent.Api.Types.{ApiSchema, Schema, Value, text, flag, texts, access, columns, ColumnDefinition}

-- `convert` of the schemer library, on the values that brent stores: a value of the wanted type
-- is returned as it is, and a missing one is the zero value.
pub record Convert : Type 0 where
  pub to_string : Option Value → String
  pub to_bool : Option Value → Bool
  pub to_string_slice : Option Value → List String
  pub to_string-text : (s : String) → to_string (some (text s)) ≡ s
  pub to_string-none : to_string none ≡ ""
  pub to_bool-flag : (b : Bool) → to_bool (some (flag b)) ≡ b
  pub to_string_slice-texts : (l : List String) → to_string_slice (some (texts l)) ≡ l

pub record GroupVersionKind : Type 0 where
  pub group : String
  pub version : String
  pub kind : String

pub record GroupVersionResource : Type 0 where
  pub group : String
  pub version : String
  pub resource : String

-- `setVal`; a nil map is the empty one
unfoldable pub set_val : String → Value → ApiSchema → ApiSchema
set_val key value s = record s {
  schema = record s.schema { attributes = insert key value s.schema.attributes };
}

unfoldable pub attribute : ApiSchema → String → Option Value
attribute s key = lookup key s.schema.attributes

-- `fmt.Sprint` of a Boolean
abbrev pub sprint_bool : Bool → String
sprint_bool true = "true"
sprint_bool false = "false"

-- `ApiResource` of the Kubernetes discovery API: the fields that are read
pub record ApiResource : Type 0 where
  pub name : String
  pub verbs : List String
  pub namespaced : Bool

module _ ⦃conv : Convert⦄ where
  -- `Namespaced`, of a schema that may be nil
  unfoldable pub namespaced : Option ApiSchema → Bool
  namespaced none = false
  namespaced (some s) = conv.to_bool (attribute s "namespaced")

  -- `str`
  abbrev pub str : ApiSchema → String → String
  str s key = conv.to_string (attribute s key)

  unfoldable pub group : ApiSchema → String
  group s = str s "group"

  unfoldable pub version : ApiSchema → String
  version s = str s "version"

  unfoldable pub resource : ApiSchema → String
  resource s = str s "resource"

  unfoldable pub kind : ApiSchema → String
  kind s = str s "kind"

  unfoldable pub gvk : ApiSchema → GroupVersionKind
  unfolding group version kind
  gvk s = record { group = group s; version = version s; kind = kind s }

  unfoldable pub gvr : ApiSchema → GroupVersionResource
  unfolding group version resource
  gvr s = record { group = group s; version = version s; resource = resource s }

  unfoldable pub gr : ApiSchema → GroupResource
  unfolding group resource
  gr s = record { group = group s; resource = resource s }

  unfoldable pub table : ApiSchema → Bool
  table s = not (str s "table" == "false")

  unfoldable pub verbs : ApiSchema → List String
  verbs s = conv.to_string_slice (attribute s "verbs")

  unfoldable pub preferred_version : ApiSchema → String
  preferred_version s = str s "preferredVersion"

  unfoldable pub preferred_group : ApiSchema → String
  preferred_group s = str s "preferredGroup"

unfoldable pub set_namespaced : Bool → ApiSchema → ApiSchema
set_namespaced b s = set_val "namespaced" (flag b) s

unfoldable pub set_group : String → ApiSchema → ApiSchema
set_group v s = set_val "group" (text v) s

unfoldable pub set_version : String → ApiSchema → ApiSchema
set_version v s = set_val "version" (text v) s

unfoldable pub set_resource : String → ApiSchema → ApiSchema
set_resource v s = set_val "resource" (text v) s

unfoldable pub set_kind : String → ApiSchema → ApiSchema
set_kind v s = set_val "kind" (text v) s

unfoldable pub set_gvk : GroupVersionKind → ApiSchema → ApiSchema
unfolding set_group set_version set_kind
set_gvk g s = set_kind g.kind (set_version g.version (set_group g.group s))

unfoldable pub set_table : Bool → ApiSchema → ApiSchema
set_table b s = set_val "table" (text (sprint_bool b)) s

unfoldable pub set_verbs : List String → ApiSchema → ApiSchema
set_verbs l s = set_val "verbs" (texts l) s

unfoldable pub set_access : AccessListByVerb → ApiSchema → ApiSchema
set_access a s = set_val "access" (access a) s

-- `Access`, read by the type assertion of `GetAccessListMap`: another type or none gives no map
unfoldable pub get_access_list_map : Option ApiSchema → AccessListByVerb
get_access_list_map none = []
get_access_list_map (some s) = elim (attribute s "access") [ some (access a) ↦ a | _ ↦ [] ]

unfoldable pub set_api_resource : ApiResource → ApiSchema → ApiSchema
unfolding set_resource set_verbs set_namespaced
set_api_resource r s = set_namespaced r.namespaced (set_verbs r.verbs (set_resource r.name s))

unfoldable pub set_columns : List ColumnDefinition → ApiSchema → ApiSchema
set_columns c s = set_val "columns" (columns c) s

unfoldable pub get_columns : ApiSchema → Option Value
get_columns s = attribute s "columns"

unfoldable pub set_preferred_version : String → ApiSchema → ApiSchema
set_preferred_version v s = set_val "preferredVersion" (text v) s

unfoldable pub set_preferred_group : String → ApiSchema → ApiSchema
set_preferred_group v s = set_val "preferredGroup" (text v) s
