-- ===== src/Formatters/Roots.antt =====
-- pkg/stores/apiroot/apiroot.go: the versions and the roots of the API, and their links.
use brent.Base.{
  String, Bool, true, false, not, ◌&&◌, Option, none, some, List, [], ◌∷◌, ◌++◌, Dict, lookup,
  insert, remove, values, ◌==◌, string_eq, if◌then◌else◌, for_each, contains, cut, join_path,
  base_path, ◌<>◌,
}
use brent.Api.Errors.{Result}
use brent.Api.Objects.{ApiObject, ApiObjectList, default_by_id}
use brent.Api.Types.{ApiSchema, Value, text, nested, no_entries, entry, entries_of, method_get}
use brent.Requests.Links.{collection_link, relative_to_root}
use brent.Requests.Urls.{UrlBuilder}
use brent.Requests.Writers.{RawResource}
use brent.Stores.Tables.{Content}

abbrev pub root_object : String → Content → ApiObject
root_object id content = record { type = "apiRoot"; id = id; object = some content }

-- `apiVersionToAPIRootMap`
unfoldable pub version_content : String → Content
version_content version =
    ("id", text version)
    ∷ ("type", text "apiRoot")
    ∷ ("apiVersion", nested (entry "version" (text version) no_entries))
    ∷ ("path", text ("/" <> version))
    ∷ []

abbrev pub version_object : String → ApiObject
version_object version = root_object version (version_content version)

-- a root of the form `id:path`; another one is left out
abbrev pub parsed_root : String × String × Bool → List ApiObject → List ApiObject
parsed_root (id, path, true) rest =
    root_object id (("id", text id) ∷ ("path", text path) ∷ []) ∷ rest
parsed_root (id, path, false) rest = rest

abbrev pub version_objects : List String → List ApiObject
version_objects [] = []
version_objects (v ∷ versions) = version_object v ∷ version_objects versions

abbrev pub root_objects : List String → List ApiObject
root_objects [] = []
root_objects (r ∷ roots) = parsed_root (cut b':' r) (root_objects roots)

-- `List`
unfoldable pub list_roots : List String → List String → ApiObjectList
unfolding version_content cut
list_roots versions roots = record {
  revision = "";
  continue = "";
  objects = version_objects versions ++ root_objects roots;
}

-- `ByID`
unfoldable pub root_by_id : List String → List String → String → Result ApiObject
unfolding list_roots default_by_id
root_by_id versions roots id = default_by_id (Result.ok (list_roots versions roots)) id

abbrev as_text : Option Value → String
as_text (some (text t)) = t
as_text _ = ""

-- `addCollectionLink`
unfoldable pub add_collection_link :
    UrlBuilder → String → ApiSchema → Dict String String → Dict String String
unfolding collection_link join_path base_path relative_to_root
add_collection_link u version s links =
    if contains s.schema.collection_methods method_get && not (collection_link u s == "")
    then insert s.schema.plural_name
        (relative_to_root u (join_path (version ∷ base_path (collection_link u s) ∷ []))) links
    else links

abbrev pub version_links :
    UrlBuilder
    → Dict String ApiSchema
    → String
    → Option Value
    → Dict String String
    → Dict String String
version_links u schemas path (some (nested entries)) links =
    let version = as_text (lookup "version" (entries_of entries)) in
    insert "schemas" (relative_to_root u path) (
      insert "self" (relative_to_root u version)
        (for_each (values schemas) (add_collection_link u version) links))
version_links u schemas path _ links = links

abbrev pub root_links : UrlBuilder → Dict String ApiSchema → Content → RawResource → RawResource
root_links u schemas content r =
    let path = as_text (lookup "path" content) in
    if path == "" then r else record r {
      links =
          version_links u schemas path (lookup "apiVersion" content)
            (insert "root" (relative_to_root u path) r.links);
      api_object = record r.api_object { object = some (remove "path" content) };
    }

abbrev pub of_content :
    UrlBuilder → Dict String ApiSchema → Option Content → RawResource → RawResource
of_content u schemas none r = r
of_content u schemas (some content) r = root_links u schemas content r

-- `Formatter`, for an object that is a map, as `List` makes it
unfoldable pub format_root : UrlBuilder → Dict String ApiSchema → RawResource → RawResource
unfolding add_collection_link
format_root u schemas r = of_content u schemas r.api_object.object r
