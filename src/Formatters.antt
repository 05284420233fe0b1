-- ===== src/Formatters.antt =====
-- pkg/resources/common/formatter.go: what the default formatter puts into a resource.
pub mod Roots
use Prim.Native.String
use brent.Base.{
  String, Bool, true, false, not, ◌&&◌, ◌||◌, Option, none, some, List, [], ◌∷◌, ◌++◌, Dict, lookup,
  insert, keys, ◌==◌, string_eq, if◌then◌else◌, for_each, contains, is_some, split, join, ◌<>◌,
}
use brent.Api.Attributes.{Convert, GroupVersionResource, gvr}
use brent.Api.Types.{ApiSchema, Schema, Value, text, flag, nested, no_entries, entry, entries_of}
use brent.Requests.Links.{relative_to_root}
use brent.Requests.Urls.{UrlBuilder}
use brent.Requests.Writers.{RawResource, insert_new}
use brent.Stores.Tables.{Content, ObjectLib}
use brent.Summaries.{Summary, Condition, Summarizer, summarize, normalize_conditions}

-- the namespace and the name of an object's metadata
pub record Meta : Type 0 where
  pub namespace : String
  pub name : String

-- `selfLink`
unfoldable pub self_link : GroupVersionResource → Meta → String
self_link r m =
    (if r.group == "" then "/api/v1/" else "/apis/" <> (r.group <> ("/" <> (r.version <> "/"))))
    <> ((if m.namespace == "" then "" else "namespaces/" <> (m.namespace <> "/"))
        <> (r.resource <> ("/" <> m.name)))

abbrev pub insert_if : Bool → String → String → Dict String String → Dict String String
insert_if true k v m = insert_new k v m
insert_if false k v m = m

-- the links of `formatter`, for the link to the object of the cluster
unfoldable pub format_links : ApiSchema → String → Dict String String → Dict String String
format_links s u links =
    insert_if (contains s.schema.resource_methods "blocked-DELETE") "remove" "blocked" (
      insert_if (contains s.schema.resource_methods "blocked-PUT") "update" "blocked"
        (insert_if (contains s.schema.collection_methods "PUT") "update" u (insert "view" u links)))

-- the parameters of the request's query that choose fields, each with its values if it is there
pub record Fields : Type 0 where
  pub include : Option (List String)
  pub exclude : List String
  pub exclude_values : List String

module _ (objects : ObjectLib) (remove_value : List String → Content → Content)
    (conditions_of : Content → List Condition)
    (set_conditions : List Condition → Content → Content) where
  abbrev parts_of : String → List String
  parts_of f = split b'.' f

  abbrev copy_value : List String → Option Value → Content → Content
  copy_value path none m = m
  copy_value path (some v) m = objects.put_value v path m

  -- `includeFields`
  unfoldable pub include_fields : Option (List String) → Content → Content
  unfolding split
  include_fields none m = m
  include_fields (some fields) m =
      for_each fields (λ f new. copy_value (parts_of f) (objects.get_value (parts_of f) m) new) []

  -- `excludeManagedFields`
  abbrev pub exclude_managed_fields : Content → Content
  exclude_managed_fields m = remove_value ("metadata" ∷ "managedFields" ∷ []) m

  -- `excludeFields`
  unfoldable pub exclude_fields : List String → Content → Content
  unfolding split
  exclude_fields fields m = for_each fields (λ f m'. remove_value (parts_of f) m') m

  abbrev blank_values : List String → Option Value → Content → Content
  blank_values path (some (nested entries)) m =
      for_each (keys (entries_of entries)) (λ k m'. objects.put_value (text "") (path ++ k ∷ []) m')
        m
  blank_values path _ m = m

  -- `excludeValues`
  unfoldable pub exclude_values_of : List String → Content → Content
  unfolding split
  exclude_values_of fields m =
      for_each fields (λ f m'. blank_values (parts_of f) (objects.get_value (parts_of f) m') m') m

  abbrev pub state_value : Summary → Value
  state_value s = nested (
      entry "name" (text s.state) (
        entry "error" (flag s.error) (
          entry "transitioning" (flag s.transitioning)
            (entry "message" (text (join s.message ":")) no_entries))))

  abbrev pub with_conditions : List Condition → Content → Content
  with_conditions [] m = m
  with_conditions (c ∷ cs) m = set_conditions (c ∷ cs) m

  module _ ⦃conv : Convert⦄ (summarizers condition_summarizers : List (Summarizer Content)) where
    -- what `formatter` makes of the content of an unstructured object
    unfoldable pub format_content : Fields → Content → Content
    unfolding include_fields exclude_fields exclude_values_of summarize normalize_conditions join
    format_content fields m =
        let stated =
          objects.put_value (state_value (summarize Content summarizers m (conditions_of m)))
            ("metadata" ∷ "state" ∷ []) m in
        let normal =
          with_conditions
            (normalize_conditions Content condition_summarizers stated (conditions_of stated))
            stated in
        exclude_values_of fields.exclude_values (
          exclude_fields fields.exclude
            (exclude_managed_fields (include_fields fields.include normal)))

    abbrev format_object : Fields → Option Content → Option Content
    format_object fields none = none
    format_object fields (some c) = some (format_content fields c)

    abbrev pub with_meta : Fields → UrlBuilder → ApiSchema → Option Meta → RawResource → RawResource
    with_meta fields u s none r = r
    with_meta fields u s (some m) r = record r {
      links = format_links s (relative_to_root u (self_link (gvr s) m)) r.links;
      api_object = record r.api_object { object = format_object fields r.api_object.object };
    }

    -- `formatter`, for the metadata of the object if it has some
    unfoldable pub format_resource : Fields → UrlBuilder → Option Meta → RawResource → RawResource
    unfolding format_links self_link relative_to_root gvr format_content
    format_resource fields u meta r =
        if (gvr r.schema).version == "" then r else with_meta fields u r.schema meta r
