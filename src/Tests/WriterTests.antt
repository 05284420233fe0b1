-- ===== src/Tests/WriterTests.antt =====
-- Links and written resources at concrete inputs.
use brent.Base.{
  String, ◌<>◌, ◌≡◌, refl, true, false, none, some, [], ◌∷◌, lookup, string_eq, is_some,
  if◌then◌else◌, clean, split, join, has_prefix, join_path, ends_with_char,
}
use brent.Api.Errors.{ok}
use brent.Api.Types.{ApiSchema, Handler}
use brent.Api.Objects.{ApiObject}
use brent.Api.Schemas.{ApiSchemas, lookup_schema}
use brent.Requests.Http.{root_request}
use brent.Requests.Urls.{UrlBuilder}
use brent.Requests.Links.{
  UrlCode, resource_link, link, action_link, schema_url, schema_path, construct_basic_url,
}
use brent.Requests.Parse.{ApiRequest}
use brent.Requests.Server.{schema_based}
use brent.Requests.Redirect.{
  UrlLib, Response, set_location, write_header, replace, replace_from, redirect_rewrite,
}
use brent.Requests.Redirect.Moved.{writes, redirect_rewrite-moved}
use brent.Requests.Writers.{RawResource, GenericCollection, convert}
use brent.Requests.Writers.Offered.{passes, own_link, lookup-convert}
use brent.Decisions.{can_update, can_delete}
use brent.Tests.Fixtures.{plain_schemer, schema_of}

cleaned : clean "/a//b/../c/./" ≡ "/a/c"
unfolding clean split join has_prefix
cleaned = refl

cleaned_up : clean "../x/../.." ≡ "../.."
unfolding clean split join has_prefix
cleaned_up = refl

abbrev v1 : UrlBuilder
v1 = record {
  prefix = "v1";
  current_url = "http://api/v1/pods";
  response_url_base = "http://api";
  query = [];
}

abbrev pub pods : ApiSchema
pods = record (schema_of "pods" []) {
  schema = record (schema_of "pods" []).schema { resource_methods = "PUT" ∷ [] };
  link_handlers = ("log", 1) ∷ [];
  action_handlers = ("restart", 2) ∷ [];
}

pod_link : resource_link v1 pods "dev/web" ≡ "http://api/v1/pods/dev/web"
unfolding resource_link schema_url schema_path construct_basic_url join_path clean split join
    has_prefix ends_with_char
pod_link = refl

abbrev plain_code : UrlCode
plain_code = record { query_escape = λ s. s; encode = λ q. "" }

abbrev pub no_schemas : ApiSchemas plain_schemer
no_schemas = record { internal_schemas = []; schemas = []; index = []; attributes = [] }

abbrev pub list_pods : ApiRequest plain_schemer
list_pods = record {
  action = "";
  name = "";
  type = "pods";
  link = "";
  method = "GET";
  namespace = "dev";
  schema = some pods;
  schemas = some no_schemas;
  query = none;
  response_format = "json";
  response_writer = none;
  error_handler = none;
  url_prefix = "v1";
  url_builder = some v1;
  request = some root_request;
}

abbrev web : ApiObject
web = record { type = "pods"; id = "dev/web"; object = none }

abbrev same_resource : Handler → ApiRequest plain_schemer → RawResource → RawResource
same_resource h op r = r

abbrev same_collection :
    ApiRequest plain_schemer → ApiSchema → GenericCollection → GenericCollection
same_collection op s c = c

-- the schema lets the object be updated, not deleted
may_update : passes ((schema_based plain_schemer).can_update list_pods pods) ≡ true
unfolding schema_based can_update
may_update = refl

may_not_delete : passes ((schema_based plain_schemer).can_delete list_pods pods) ≡ false
unfolding schema_based can_delete
may_not_delete = refl

lookup-convert_example :
    (r : RawResource) × (convert plain_schemer
        (schema_based plain_schemer)
        plain_code
        same_resource
        same_collection
        list_pods
        web
      ≡ ok (some r))
    × ((name : String)
        → lookup name r.links ≡ (
            if is_some (lookup name pods.link_handlers)
            then some (link plain_code v1 pods "dev/web" name)
            else own_link
                (passes ((schema_based plain_schemer).can_update list_pods pods))
                (passes ((schema_based plain_schemer).can_delete list_pods pods))
                (resource_link v1 pods "dev/web")
                name))
    × ((name : String)
        → lookup name r.actions ≡ (
            if is_some (lookup name pods.action_handlers)
            then some (action_link plain_code v1 pods "dev/web" name)
            else none))
unfolding lookup_schema
lookup-convert_example =
    lookup-convert plain_schemer (schema_based plain_schemer) plain_code same_resource
      same_collection list_pods web pods no_schemas root_request v1 refl refl refl refl refl refl

replaced : replace "see /v1/ and /v1/" "/v1/" "/k8s/v1/" ≡ "see /k8s/v1/ and /k8s/v1/"
unfolding replace replace_from has_prefix
replaced = refl

-- URLs that are paths
abbrev path_urls : UrlLib
path_urls = record {
  Url = String;
  parse = λ s. some s;
  path_of = λ u. u;
  with_path = λ p u. p;
  print = λ u. u;
}

abbrev new_response : Response
new_response = record { location = ""; codes = []; body = "" }

redirect_rewrite-moved_example :
    redirect_rewrite path_urls "/k8s"
      (set_location "/v1/" ∷ write_header 301 ∷ writes ("see " ∷ "/v1/" ∷ []))
      new_response
    ≡ ok (record {
      location = "/k8s/v1/";
      codes = 302 ∷ [];
      body = "" <> replace "see /v1/" "/v1/" "/k8s/v1/";
    })
unfolding has_prefix
redirect_rewrite-moved_example =
    redirect_rewrite-moved path_urls "/k8s" "/v1/" 301 ("see " ∷ "/v1/" ∷ []) new_response "/v1/"
      refl refl refl refl refl refl
