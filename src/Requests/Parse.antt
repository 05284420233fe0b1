-- ===== src/Requests/Parse.antt =====
-- pkg/parse/parse.go, validate.go, mux.go and browser.go: what a request asks for.
pub mod Validity
use Prim.Native.String
use brent.Base.{
  ℕ, String, Bool, true, false, not, ◌&&◌, ◌||◌, Option, none, some, List, [], ◌∷◌, Dict, insert,
  ◌==◌, string_eq, if◌then◌else◌, any, contains, contains_text, to_lower, trim_space, ◌<>◌,
}
use brent.Api.Errors.{
  Error, Result, ok, err, panic, new_api_error, method_not_allowed, permission_denied,
}
use brent.Api.Types.{
  ApiSchema, Handler, method_get, method_post, method_put, method_patch, method_delete,
}
use brent.Api.Schemas.{Schemer, ApiSchemas, lookup_schema}
use brent.Requests.Http.{HttpRequest, get_text, root_request}
use brent.Requests.Urls.{UrlBuilder, new_url_builder}

-- `IsBrowser`
unfoldable pub is_browser : HttpRequest → Bool → Bool
is_browser r check_accepts =
    let accepts = to_lower (get_text "Accept" r.header) in
    let accepted = if accepts == "" || not check_accepts then "*/*" else accepts in
    contains_text (to_lower (get_text "User-Agent" r.header)) "mozilla"
    && contains_text accepted "*/*"

-- `isYaml`
unfoldable pub is_yaml : HttpRequest → Bool
is_yaml r = contains_text (get_text "Accept" r.header) "application/yaml"

-- `isJSONL`
unfoldable pub is_jsonl : HttpRequest → Bool
is_jsonl r = contains_text (get_text "Accept" r.header) "application/jsonl"

abbrev pub allowed_formats : List String
allowed_formats = "html" ∷ "json" ∷ "jsonl" ∷ "yaml" ∷ []

abbrev pub written_format : String → String
written_format format = if not (format == "") then trim_space (to_lower format) else format

-- `parseResponseFormat`
unfoldable pub parse_response_format : HttpRequest → String
unfolding is_browser is_yaml is_jsonl
parse_response_format r =
    if contains allowed_formats (written_format (get_text "_format" r.query))
    then written_format (get_text "_format" r.query)
    else if is_browser r true
    then "html"
    else if is_yaml r
    then "yaml"
    else if is_jsonl r
    then "jsonl"
    else "json"

-- `if s == "" { s = t }`
abbrev pub or_else : String → String → String
or_else s t = if s == "" then t else s

-- `parseMethod`
unfoldable pub parse_method : HttpRequest → String
parse_method r = or_else (get_text "_method" r.query) r.method

pub record ParsedUrl : Type 0 where
  pub type : String
  pub name : String
  pub namespace : String
  pub link : String
  pub method : String
  pub action : String
  pub prefix : String
  pub query : Dict String String

-- `MuxURLParser`; it never fails
unfoldable pub mux_url_parser : HttpRequest → ParsedUrl × Option Error
mux_url_parser r = (
  record {
    type = get_text "type" r.vars;
    name = get_text "name" r.vars;
    namespace = get_text "namespace" r.vars;
    link = get_text "link" r.vars;
    prefix = get_text "prefix" r.vars;
    method = r.method;
    action = get_text "action" r.vars;
    query = r.query;
  },
  none,
)

pub record Vars : Type 0 where
  pub type : String
  pub name : String
  pub namespace : String
  pub link : String
  pub prefix : String
  pub action : String

abbrev pub set_var : String → String → Dict String String → Dict String String
set_var k v m = if not (v == "") then insert k v m else m

-- `Set`: the variables that the router adds to a match
unfoldable pub set_vars : Vars → Dict String String → Dict String String
set_vars v m = set_var "namespace" v.namespace (
    set_var "action" v.action (
      set_var "prefix" v.prefix
        (set_var "link" v.link (set_var "name" v.name (set_var "type" v.type m)))))

abbrev pub supported_methods : List String
supported_methods = method_post ∷ method_get ∷ method_put ∷ method_patch ∷ method_delete ∷ []

-- `apiOp.Request`, or the request that `Parse` makes
abbrev pub or_root : Option HttpRequest → HttpRequest
or_root none = root_request
or_root (some r) = r

module _ (lib : Schemer) where
  -- `APIRequest`: the response writer and the error handler by their names
  pub record ApiRequest : Type 0 where
    pub action : String
    pub name : String
    pub type : String
    pub link : String
    pub method : String
    pub namespace : String
    pub schema : Option ApiSchema
    pub schemas : Option (ApiSchemas lib)
    pub query : Option (Dict String String)
    pub response_format : String
    pub response_writer : Option String
    pub error_handler : Option Handler
    pub url_prefix : String
    pub url_builder : Option UrlBuilder
    pub request : Option HttpRequest

  -- the test of the loop in `ValidateMethod`
  abbrev pub fits : ApiRequest → String → Bool
  fits op m = m == op.method || (op.name == "" && (op.method == method_get && m == method_post))

  abbrev pub methods_of : ApiRequest → ApiSchema → List String
  methods_of op s = if op.name == "" then s.collection_methods else s.resource_methods

  abbrev pub check_schema : ApiRequest → Option ApiSchema → Option Error
  check_schema op none = none
  check_schema op (some s) =
      if op.type == "" || not (op.link == "")
      then none
      else if any (fits op) (methods_of op s)
      then none
      else some (new_api_error permission_denied ("Method " <> (op.method <> " not supported")))

  -- `ValidateMethod`
  unfoldable pub validate_method : ApiRequest → Option Error
  validate_method op =
      if not (op.action == "") && op.method == method_post
      then none
      else if not (contains supported_methods op.method)
      then some
          (new_api_error method_not_allowed ("Invalid method " <> (op.method <> " not supported")))
      else check_schema op op.schema

  abbrev pub or_query : Option (Dict String String) → Dict String String → Dict String String
  or_query none q = q
  or_query (some p) q = p

  -- the fields that the request itself gives, and those that its URL gives
  abbrev pub with_request : ApiRequest → HttpRequest → ApiRequest
  with_request op r = record op {
    request = some r;
    method = or_else op.method (parse_method r);
    response_format = or_else op.response_format (parse_response_format r);
  }

  abbrev pub with_url : ApiRequest → ParsedUrl → ApiRequest
  with_url op url = record op {
    type = or_else op.type url.type;
    name = or_else op.name url.name;
    link = or_else op.link url.link;
    action = or_else op.action url.action;
    query = some (or_query op.query url.query);
    method = or_else op.method url.method;
    url_prefix = or_else op.url_prefix url.prefix;
    namespace = or_else op.namespace url.namespace;
  }

  abbrev pub find_schema :
      ApiRequest → Option ApiSchema → Option (ApiSchemas lib) → Option ApiSchema
  find_schema op (some s) schemas = some s
  find_schema op none none = none
  find_schema op none (some schemas) = lookup_schema lib op.type schemas

  -- the type and the error handler of the schema found; the handler is replaced only if there
  -- is one already
  abbrev pub take_schema : ApiRequest → Option ApiSchema → Option Handler → ApiRequest
  take_schema op none handler = record op { schema = none }
  take_schema op (some s) none = record op { schema = some s; type = s.id }
  take_schema op (some s) (some h) = record op {
    schema = some s;
    type = s.id;
    error_handler = s.error_handler;
  }

  abbrev pub with_schema : ApiRequest → ApiRequest
  with_schema op = take_schema op (find_schema op op.schema op.schemas) op.error_handler

  abbrev pub validated : ApiRequest → ApiRequest × Option Error
  validated op = (with_schema op, validate_method (with_schema op))

  abbrev pub unless_failed : Option Error → ApiRequest → ApiRequest × Option Error
  unless_failed (some e) op = (op, some e)
  unless_failed none op = validated op

  -- `Parse` fails with the builder's error before it looks at the error of the URL; `New` does not
  -- panic, so nothing follows in that case
  abbrev pub with_builder :
      ApiRequest → Option Error → Option UrlBuilder → Result UrlBuilder → ApiRequest × Option Error
  with_builder op failed (some b) made = unless_failed failed op
  with_builder op failed none (ok b) = unless_failed failed (record op { url_builder = some b })
  with_builder op failed none (err e) = (op, some e)
  with_builder op failed none panic = (op, none)

  -- `Parse`: the request as it is left, and the error
  unfoldable pub parse :
      (String → Option (String × String))
      → (HttpRequest → ParsedUrl × Option Error)
      → ApiRequest
      → ApiRequest × Option Error
  unfolding validate_method
  parse url_parse url_parser op =
      let r = or_root op.request in
      let url = url_parser r in
      let op' = with_url (with_request op r) url.0 in
      with_builder op' url.1 op'.url_builder (new_url_builder url_parse r op'.url_prefix)
