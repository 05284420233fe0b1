-- ===== src/Tests/RequestTests.antt =====
-- Requests at concrete inputs: an update of a pod, as the server handles it.
use brent.Base.{
  not, ◌||◌, is_some, false, String, ◌≡◌, refl, true, Option, none, some, [], ◌∷◌, inl, string_eq,
  before_last, cut,
}
use brent.Api.Errors.{Error, Result, ok}
use brent.Api.Types.{ApiSchema, Handler}
use brent.Api.Objects.{ApiObject, ApiObjectList, no_object}
use brent.Requests.Http.{HttpRequest, root_request}
use brent.Requests.Urls.{new_url_builder, parse_request_url, get_scheme, get_host}
use brent.Requests.Parse.{ApiRequest, parse, mux_url_parser, or_root}
use brent.Requests.Parse.Validity.{accepted, parse-accepted}
use brent.Requests.Handlers.{Store, Payload, Written, nothing}
use brent.Requests.Server.{check_csrf, schema_based, handle_op}
use brent.Requests.Server.Calls.{Each}
use brent.Requests.Server.Checks.{Permitted, handle_op-Permitted}
use brent.Requests.Handle.{Server, prepare, handle}
use brent.Requests.Handle.Response.{Allows, handle-Allows}
use brent.Requests.Handle.Grants.{Entitled, handle-Entitled}
use brent.AccessControl.AccessSet.{access_list_for}
use brent.AccessControl.ByVerb.{any_verb}
use brent.Api.Attributes.{gr, verbs, namespaced, attribute, set_access, set_val}
use brent.Factory.{verb_access, visit, set_methods, widen_access, touch_shared}
use brent.Tests.Fixtures.{pod_reader, plain_schemer, plain_convert, pod_schema}

abbrev writable : ApiSchema
writable = record pod_schema {
  schema = record pod_schema.schema { resource_methods = "PUT" ∷ "GET" ∷ [] };
  store = some 7;
}

abbrev put_pod : HttpRequest
put_pod = record root_request { method = "PUT"; host = "api"; path = "/v1/pod/dev/web" }

abbrev update_pod : ApiRequest plain_schemer
update_pod = record {
  action = "";
  name = "web";
  type = "pod";
  link = "";
  method = "PUT";
  namespace = "dev";
  schema = some writable;
  schemas = none;
  query = none;
  response_format = "json";
  response_writer = none;
  error_handler = none;
  url_prefix = "v1";
  url_builder = none;
  request = some put_pod;
}

abbrev no_url : String → Option (String × String)
no_url url = none

abbrev one_pod : Handler → ApiRequest plain_schemer → Result ApiObject
one_pod h op = ok no_object

abbrev no_list : ApiObjectList
no_list = record { revision = ""; continue = ""; objects = [] }

abbrev no_pods : Handler → ApiRequest plain_schemer → Result ApiObjectList
no_pods h op = ok no_list

abbrev echo : Handler → Store plain_schemer
echo h = record {
  by_id = λ op s id. ok no_object;
  list = λ op s. ok no_list;
  create = λ op s o. ok o;
  update = λ op s o id. ok o;
  delete = λ op s id. ok no_object;
}

abbrev no_payload : HttpRequest → Payload
no_payload r = record {
  multipart_form = none;
  post_form = [];
  form = [];
  json = inl "EOF";
  yaml = inl "EOF";
}

abbrev keep_schema : Handler → ApiRequest plain_schemer → ApiSchema → ApiSchema
keep_schema h op s = s

abbrev silent : Handler → Error → Written
silent h e = nothing

abbrev nobody : HttpRequest → String
nobody r = ""

abbrev plain_server : Server plain_schemer
plain_server = record {
  schemas = record { internal_schemas = []; schemas = []; index = []; attributes = [] };
  response_writers = "json" ∷ [];
}

-- the same update as `Parse` leaves it
abbrev parsed_pod : ApiRequest plain_schemer
parsed_pod = record update_pod {
  query = some [];
  url_builder = some (record {
    prefix = "v1";
    current_url = "http://api/v1/pod/dev/web";
    response_url_base = "http://api";
    query = [];
  });
}

-- the update is valid, and a delete of it is not
parse-accepted_example : is_some (parse plain_schemer no_url mux_url_parser update_pod).1 ≡ (
    is_some (mux_url_parser put_pod).1
    || not (accepted plain_schemer (parse plain_schemer no_url mux_url_parser update_pod).0))
parse-accepted_example = parse-accepted plain_schemer no_url mux_url_parser update_pod

accepted_update : accepted plain_schemer parsed_pod ≡ true
accepted_update = refl

refused_delete : accepted plain_schemer (record parsed_pod { method = "DELETE" }) ≡ false
refused_delete = refl

handle_op-Permitted_example :
    Each
      (λ c.
        Permitted plain_schemer (schema_based plain_schemer) update_pod writable c
        × ((check_csrf update_pod.method (or_root update_pod.request) (ok "token")).0 ≡ none))
      (handle_op plain_schemer
        (schema_based plain_schemer)
        echo
        no_payload
        one_pod
        no_pods
        update_pod
        (ok "token")).0.calls
handle_op-Permitted_example =
    handle_op-Permitted plain_schemer (schema_based plain_schemer) echo no_payload one_pod no_pods
      update_pod (ok "token") writable refl

handle-Allows_example :
    Each
      (Allows writable)
      (handle plain_schemer keep_schema
        (schema_based plain_schemer)
        echo
        no_payload
        one_pod
        no_pods
        silent
        no_url
        nobody
        plain_server
        (ok "token")
        update_pod).calls
unfolding parse prepare new_url_builder parse_request_url before_last get_scheme get_host cut
    mux_url_parser
handle-Allows_example =
    handle-Allows plain_schemer keep_schema echo no_payload one_pod no_pods silent no_url nobody
      plain_server (ok "token") update_pod writable refl

-- the reader of pods asks for one
abbrev seen_pod : ApiSchema
seen_pod = set_access (verb_access pod_reader pod_schema) (record pod_schema {
  schema = record pod_schema.schema {
    resource_methods = "GET" ∷ [];
    collection_methods = "GET" ∷ [];
  };
})

abbrev get_pod : ApiRequest plain_schemer
get_pod = record update_pod { method = "GET"; schema = some seen_pod }

handle-Entitled_example :
    Each
      (Entitled pod_reader pod_schema)
      (handle plain_schemer keep_schema
        (schema_based plain_schemer)
        echo
        no_payload
        one_pod
        no_pods
        silent
        no_url
        nobody
        plain_server
        (ok "token")
        get_pod).calls
unfolding parse prepare new_url_builder parse_request_url before_last get_scheme get_host cut
    mux_url_parser visit verb_access set_methods widen_access touch_shared gr verbs namespaced
    attribute set_access set_val access_list_for any_verb
handle-Entitled_example =
    handle-Entitled plain_schemer keep_schema echo no_payload one_pod no_pods silent no_url nobody
      pod_reader pod_schema seen_pod plain_server (ok "token") get_pod refl refl refl refl
