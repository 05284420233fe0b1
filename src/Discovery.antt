-- ===== src/Discovery.antt =====
-- pkg/schema/converter: the schemas that the discovery and the OpenAPI document of the cluster
-- describe.
pub mod Refresh
use Prim.Native.String
use brent.Base.{
  String, Bool, true, false, not, ◌&&◌, ◌||◌, Option, none, some, List, [], ◌∷◌, Dict, lookup,
  insert, remove, ◌==◌, string_eq, if◌then◌else◌, ◌<>◌, to_lower, contains, contains_text, for_each,
  any,
}
use brent.Api.Errors.{Error, Result, ok, err, panic, ◌>>=◌}
use brent.Api.Types.{ApiSchema, Schema}
use brent.Api.Attributes.{
  GroupVersionKind, GroupVersionResource, ApiResource, set_gvk, set_api_resource,
  set_preferred_version, set_preferred_group,
}
use brent.Stores.Reserved.{reserved_fields, under}

abbrev dotted : String → String → String
dotted a b = a <> ("." <> b)

-- `GVKToVersionedSchemaID`
unfoldable pub gvk_to_versioned_schema_id : GroupVersionKind → String
gvk_to_versioned_schema_id g =
    if g.group == ""
    then to_lower (dotted "core" (dotted g.version g.kind))
    else to_lower (dotted g.group (dotted g.version g.kind))

-- `gvrToPluralName`
unfoldable pub gvr_to_versioned_plural_name : GroupVersionResource → String
gvr_to_versioned_plural_name g =
    if g.group == ""
    then dotted "core" (dotted g.version g.resource)
    else dotted g.group (dotted g.version g.resource)

-- `GVKToSchemaID`
unfoldable pub gvk_to_schema_id : GroupVersionKind → String
gvk_to_schema_id g = if g.group == "" then to_lower g.kind else to_lower (dotted g.group g.kind)

-- `GVRToPluralName`
unfoldable pub gvr_to_plural_name : GroupVersionResource → String
gvr_to_plural_name g = if g.group == "" then g.resource else dotted g.group g.resource

abbrev pub blank_schema : String → ApiSchema
blank_schema id = record {
  schema = record {
    id = id;
    plural_name = "";
    collection_methods = [];
    resource_methods = [];
    collection_actions = [];
    resource_actions = [];
    resource_fields = [];
    attributes = [];
  };
  action_handlers = [];
  link_handlers = [];
  list_handler = none;
  by_id_handler = none;
  create_handler = none;
  delete_handler = none;
  update_handler = none;
  formatter = [];
  request_modifier = none;
  error_handler = none;
  store = none;
}

-- `proto.Schema` of the OpenAPI library, as far as `toField` tells it apart
pub data ProtoSchema : Type 0 where
  array : ProtoSchema → ProtoSchema
  primitive : String → ProtoSchema
  mapping : ProtoSchema → ProtoSchema
  model : String → ProtoSchema
  reference_primitive : String → ProtoSchema
  reference : String → ProtoSchema
  arbitrary : ProtoSchema
  unknown : ProtoSchema

-- the type that `toField` gives a field; its other members are constant
unfoldable pub to_field : ProtoSchema → String
to_field (array sub) = "array[" <> (to_field sub <> "]")
to_field (primitive t) = if t == "number" || t == "integer" then "int" else t
to_field (mapping sub) = "map[" <> (to_field sub <> "]")
to_field (model path) = path
to_field (reference_primitive t) = t
to_field (reference path) = path
to_field arbitrary = "json"
to_field unknown = "json"

-- `proto.Kind`, with the kinds of its extension `x-kubernetes-group-version-kind`
pub record Model : Type 0 where
  pub fields : Dict String ProtoSchema
  pub kinds : List GroupVersionKind

abbrev pub to_fields : Dict String ProtoSchema → Dict String String
to_fields [] = []
to_fields ((k, f) ∷ fields) = (k, to_field f) ∷ to_fields fields

-- one round of the loop that renames the reserved fields of a schema
abbrev pub rename_field : String → Option String → Dict String String → Dict String String
rename_field k none fields = fields
rename_field k (some v) fields = remove k (insert (under k) v fields)

abbrev pub rename_reserved : Dict String String → Dict String String
rename_reserved fields = for_each reserved_fields (λ k fs. rename_field k (lookup k fs) fs) fields

abbrev pub set_id : String → ApiSchema → ApiSchema
set_id id s = record s { schema = record s.schema { id = id } }

abbrev pub add_kind : GroupVersionKind → ApiSchema → ApiSchema
add_kind g s = set_gvk g (set_id (gvk_to_versioned_schema_id g) s)

abbrev pub set_fields : Dict String String → ApiSchema → ApiSchema
set_fields fields s = record s { schema = record s.schema { resource_fields = fields } }

-- `modelToSchema`
unfoldable pub model_to_schema : String → Model → ApiSchema
unfolding to_field set_gvk gvk_to_versioned_schema_id
model_to_schema name m =
    set_fields (rename_reserved (to_fields m.fields))
      (for_each m.kinds add_kind (blank_schema name))

abbrev pub add_model : String × Option Model → Dict String ApiSchema → Dict String ApiSchema
add_model (name, none) schemas = schemas
add_model (name, some m) schemas = let s = model_to_schema name m in insert s.schema.id s schemas

-- `AddOpenAPI`, for the models of the document; one that is no object is none
unfoldable pub add_open_api :
    Result (List (String × Option Model)) → Dict String ApiSchema → Result (Dict String ApiSchema)
unfolding model_to_schema
add_open_api models schemas = models >>= λ l. ok (for_each l add_model schemas)

-- `metav1.APIGroup`
pub record ApiGroup : Type 0 where
  pub name : String
  pub preferred : String
  pub versions : List String

abbrev pub version_override : String → String → Option String
version_override group version =
    if (group <> ("/" <> version)) == "autoscaling/v1" then some "v2beta2" else none

abbrev pub override_version : ApiGroup → Option String → String
override_version g none = g.preferred
override_version g (some v) = if contains g.versions v then v else g.preferred

-- `indexVersions`
unfoldable pub index_versions : List ApiGroup → Dict String String
index_versions groups =
    for_each groups
      (λ g m. insert g.name (override_version g (version_override g.name g.preferred)) m) []

-- `metav1.APIResource`, and the resources of one group and version; where the text of these does
-- not parse, both are empty and the error is kept
pub record Discovered : Type 0 where
  pub resource : ApiResource
  pub kind : String

pub record ResourceList : Type 0 where
  pub group : String
  pub version : String
  pub resources : List Discovered
  pub parse_error : Option Error

abbrev pub with_preferred_version : Option String → String → ApiSchema → ApiSchema
with_preferred_version none v s = s
with_preferred_version (some p) v s =
    if not (p == "") && not (p == v) then set_preferred_version p s else s

-- the group that `preferredGroups` names
abbrev pub with_preferred_group : String → ApiSchema → ApiSchema
with_preferred_group group s = if group == "extensions" then set_preferred_group "apps" s else s

abbrev pub set_plural : String → ApiSchema → ApiSchema
set_plural name s = record s { schema = record s.schema { plural_name = name } }

abbrev pub or_new : GroupVersionKind → Option ApiSchema → ApiSchema
or_new g (some s) = s
or_new g none = set_gvk g (blank_schema (gvk_to_versioned_schema_id g))

abbrev pub slash : String
slash = "/"

abbrev pub discovered_kind : ResourceList → Discovered → GroupVersionKind
discovered_kind l d = record { group = l.group; version = l.version; kind = d.kind }

-- one round of the loop of `refresh`, for a resource that is no part of another
abbrev pub discovered_schema :
    Dict String String → ResourceList → Discovered → Dict String ApiSchema → ApiSchema
discovered_schema versions l d schemas =
    let g = discovered_kind l d in
    let plural =
      gvr_to_versioned_plural_name
        (record { group = l.group; version = l.version; resource = d.resource.name }) in
    with_preferred_group l.group (
      with_preferred_version (lookup l.group versions) l.version (
        set_api_resource d.resource
          (set_plural plural (or_new g (lookup (gvk_to_versioned_schema_id g) schemas)))))

abbrev pub add_discovered :
    Dict String String → ResourceList → Discovered → Dict String ApiSchema → Dict String ApiSchema
add_discovered versions l d schemas =
    if contains_text d.resource.name slash
    then schemas
    else let s = discovered_schema versions l d schemas in insert s.schema.id s schemas

-- `refresh`
unfoldable pub refresh :
    Dict String String → ResourceList → Dict String ApiSchema → Dict String ApiSchema
refresh versions l schemas = for_each l.resources (add_discovered versions l) schemas

-- the errors that are collected, of which the first stands for all
abbrev pub parse_errors : List ResourceList → Option Error
parse_errors [] = none
parse_errors (l ∷ lists) =
    let rest = parse_errors lists in elim l.parse_error [ some e ↦ some e | none ↦ rest ]

abbrev pub unless_failed : {A : Type 0} → Option Error → A → Result A
unless_failed none a = ok a
unless_failed (some e) a = err e

abbrev pub discovered :
    List ApiGroup × List ResourceList → Dict String ApiSchema → Dict String ApiSchema
discovered (groups, lists) schemas = for_each lists (refresh (index_versions groups)) schemas

abbrev pub discovery_errors : List ApiGroup × List ResourceList → Option Error
discovery_errors (groups, lists) = parse_errors lists

-- `AddDiscovery`; a discovery that failed for some groups only is the one of the others
unfoldable pub add_discovery :
    Result (List ApiGroup × List ResourceList)
    → Dict String ApiSchema
    → Result (Dict String ApiSchema)
unfolding refresh index_versions
add_discovery found schemas =
    found >>= λ f. unless_failed (discovery_errors f) (discovered f schemas)

-- `ToSchemas`
unfoldable pub to_schemas :
    Result (List (String × Option Model))
    → Result (List ApiGroup × List ResourceList)
    → Result (Dict String ApiSchema)
unfolding add_open_api add_discovery
to_schemas models found = do described ← add_open_api models []; add_discovery found described
