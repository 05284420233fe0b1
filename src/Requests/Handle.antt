-- ===== src/Requests/Handle.antt =====
-- pkg/server/handler/server.go and handlers.go: `handle` around `handleOp`, and what the routes set
-- on a request before it.
pub mod Response
pub mod Grants
use brent.Base.{
  ℕ, String, Bool, true, false, not, ◌&&◌, ◌||◌, Option, none, some, List, [], ◌∷◌, Dict, insert,
  lookup, ◌==◌, string_eq, if◌then◌else◌, contains, any, is_some, ltb, eqb, for_each,
}
use brent.Api.Errors.{Error, Result, ok, err, panic}
use brent.Api.Types.{ApiSchema, Handler}
use brent.Api.Objects.{ApiObject, ApiObjectList}
use brent.Api.Attributes.{Convert, namespaced}
use brent.Api.Schemas.{Schemer, ApiSchemas, shallow_copy, lookup_schema}
use brent.Requests.Http.{HttpRequest, get_text}
use brent.Requests.Parse.{ApiRequest, parse, mux_url_parser, or_root}
use brent.Requests.Handlers.{
  Call, Outcome, AccessControl, Store, Payload, Written, nothing, header, object, objects,
}
use brent.Requests.Server.{Data, no_data, one, many, handle_op}

-- the name of `handlers.ErrorHandler` among the error handlers
abbrev pub default_error_handler : Handler
default_error_handler = 0

abbrev pub or_default : Option Handler → Handler
or_default none = default_error_handler
or_default (some h) = h

-- what one request leads to: at most one response, the cookie that is set, and the calls
pub record Served : Type 0 where
  pub written : Result Written
  pub set_cookie : Option String
  pub calls : List Call

-- a 404 for a user who is not known is a 401
abbrev pub unknown_users : List String
unknown_users = "system:unauthenticated" ∷ "system:cattle:error" ∷ []

abbrev pub status_only : ℕ → String → Written
status_only code user =
    if ltb 200 code
    then if eqb code 404 && contains unknown_users user then header 401 else header code
    else nothing

-- the last `if` chain of `handle`, without an error
unfoldable pub write_data : String → ℕ × Data → Written
write_data user (code, one o) = object code o
write_data user (code, many l) = objects code l
write_data user (code, no_data) = status_only code user

module _ (lib : Schemer) where
  -- the server's own schemas and response writers
  pub record Server : Type 0 where
    pub schemas : ApiSchemas lib
    pub response_writers : List String

  abbrev pub choose_writer : Server → String → Option String → Option String
  choose_writer server format (some w) = some w
  choose_writer server format none =
      if contains server.response_writers format
      then some format
      else if contains server.response_writers "json"
      then some "json"
      else none

  abbrev pub or_schemas : Server → Option (ApiSchemas lib) → ApiSchemas lib
  or_schemas server none = server.schemas
  or_schemas server (some a) = a

  abbrev pub schemas_of : Server → ApiRequest lib → ApiSchemas lib
  schemas_of server op = or_schemas server op.schemas

  -- `setDefaults`
  unfoldable pub set_defaults : Server → ApiRequest lib → ApiRequest lib
  set_defaults server op = record op {
    response_writer = choose_writer server op.response_format op.response_writer;
    error_handler = some (or_default op.error_handler);
    schemas = some (schemas_of server op);
  }

  abbrev pub with_server_schemas : Server → ApiRequest lib → ApiRequest lib
  with_server_schemas server op = record op { schemas = some (schemas_of server op) }

  module _ (modify : Handler → ApiRequest lib → ApiSchema → ApiSchema) where
    abbrev pub modified : ApiRequest lib → ApiSchema → Option Handler → ApiSchema
    modified op s none = s
    modified op s (some h) = modify h op s

    abbrev pub has_modifier : String × ApiSchema → Bool
    has_modifier (id, s) = is_some s.request_modifier

    abbrev pub modify_entry :
        ApiRequest lib → String × ApiSchema → Dict String ApiSchema → Dict String ApiSchema
    modify_entry op (id, s) m =
        if is_some s.request_modifier then insert id (modified op s s.request_modifier) m else m

    -- the loop over the schemas; the copy is made at the first schema with a modifier
    unfoldable pub modify_schemas : ApiRequest lib → ApiSchemas lib → ApiSchemas lib
    modify_schemas op a =
        if any has_modifier a.schemas
        then record (shallow_copy lib a) {
          schemas = for_each a.schemas (modify_entry op) a.schemas;
        }
        else a

    abbrev pub modify_schema : ApiRequest lib → Option ApiSchema → Option ApiSchema
    modify_schema op none = none
    modify_schema op (some s) = some (modified op s s.request_modifier)

    abbrev pub with_schemas : ApiRequest lib → ApiSchemas lib → ApiRequest lib
    with_schemas op a = record op { schemas = some (modify_schemas op a) }

    abbrev pub with_modified : ApiRequest lib → ApiRequest lib
    with_modified op = record op { schema = modify_schema op op.schema }

    -- what `handle` does between parsing and `handleOp`
    unfoldable pub prepare : Server → ApiRequest lib → ApiRequest lib
    unfolding set_defaults modify_schemas
    prepare server op = with_modified (with_schemas (set_defaults server op) (schemas_of server op))

    module _ ⦃conv : Convert⦄ (control : AccessControl lib) (store_of : Handler → Store lib)
        (payload : HttpRequest → Payload) (one_of : Handler → ApiRequest lib → Result ApiObject)
        (many_of : Handler → ApiRequest lib → Result ApiObjectList)
        (error_of : Handler → Error → Written) (url_parse : String → Option (String × String))
        (user_name : HttpRequest → String) where
      -- `WriteError`
      abbrev pub write_error : ApiRequest lib → Error → Written
      write_error op e = error_of (or_default op.error_handler) e

      abbrev pub respond : ApiRequest lib → Result (ℕ × Data) → Result Written
      respond op (ok data_) = ok (write_data (user_name (or_root op.request)) data_)
      respond op (err e) = ok (write_error op e)
      respond op panic = panic

      abbrev pub answer : ApiRequest lib → Outcome (ℕ × Data) × Option String → Served
      answer op (o, set_cookie) = record {
        written = respond op o.result;
        set_cookie = set_cookie;
        calls = o.calls;
      }

      abbrev pub after_parse : Server → Result String → ApiRequest lib × Option Error → Served
      after_parse server random (op, some e) = record {
        written = ok (write_error (set_defaults server op) e);
        set_cookie = none;
        calls = [];
      }
      after_parse server random (op, none) =
          let prepared = prepare server op in
          answer prepared (handle_op lib control store_of payload one_of many_of prepared random)

      -- `handle` with the parser `Parse`; the URL is read by `MuxURLParser` whatever the server's
      -- own URL parser is
      unfoldable pub handle : Server → Result String → ApiRequest lib → Served
      unfolding prepare
      handle server random op =
          after_parse server random
            (parse lib url_parse mux_url_parser (with_server_schemas server op))

  -- `k8sAPI`: the request, and the router's variables, which stay shared with the HTTP request
  module _ ⦃conv : Convert⦄ where
    abbrev pub assign_name_or_ns : Bool → String → Dict String String → Dict String String
    assign_name_or_ns true n vars = insert "namespace" n vars
    assign_name_or_ns false n vars = insert "name" n vars

    abbrev pub k8s_vars : ApiSchemas lib → Dict String String → Dict String String
    k8s_vars schemas vars =
        if get_text "nameorns" vars == ""
        then vars
        else assign_name_or_ns (namespaced (lookup_schema lib (get_text "type" vars) schemas))
            (get_text "nameorns" vars) vars

    abbrev pub keep_or : String → String → String
    keep_or old new = if new == "" then old else new

    unfoldable pub k8s_api : ApiSchemas lib → HttpRequest → ApiRequest lib → ApiRequest lib
    k8s_api schemas r op =
        let vars = k8s_vars schemas r.vars in
        record op {
          name = get_text "name" r.vars;
          type = get_text "type" r.vars;
          namespace = keep_or op.namespace (get_text "namespace" vars);
          request = some (record r { vars = vars });
        }
