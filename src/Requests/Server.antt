-- ===== src/Requests/Server.antt =====
-- pkg/server/handler/server.go and validate.go: one request, from parsing to the response.
pub mod Calls
pub mod Checks
use Prim.Native.String
use brent.Base.{
  ℕ, String, Bool, true, false, not, ◌&&◌, ◌||◌, Option, none, some, List, [], ◌∷◌, Dict, insert,
  lookup, ◌==◌, string_eq, if◌then◌else◌, contains, any, is_some, ltb, eqb, for_each, ◌<>◌,
}
use brent.Api.Errors.{
  ◌>>=◌, Error, Result, ok, err, panic, new_api_error, wrap_api_error, complete, server_error,
  invalid_csrf_token, invalid_action,
}
use brent.Api.Types.{
  Action, ApiSchema, Handler, method_get, method_post, method_put, method_patch, method_delete,
}
use brent.Api.Objects.{ApiObject, ApiObjectList}
use brent.Api.Attributes.{Convert}
use brent.Api.Schemas.{Schemer, ApiSchemas, shallow_copy}
use brent.Decisions.{can_create, can_get, can_list, can_update, can_delete, can_action}
use brent.Requests.Http.{HttpRequest, Cookie, no_cookie, bad_cookie, cookie_value, get_text}
use brent.Requests.Parse.{ApiRequest, ParsedUrl, parse, mux_url_parser, is_browser, or_root}
use brent.Requests.Handlers.{
  Call, custom, served, Outcome, quiet, calling, AccessControl, Store, Payload, create_handler,
  update_handler, delete_handler, by_id_handler, list_handler, Written, nothing, header, object,
  objects,
}

abbrev pub csrf_header : String
csrf_header = "X-API-CSRF"

abbrev pub csrf_cookie : String
csrf_cookie = "CSRF"

abbrev pub csrf_failure : String → Option Error
csrf_failure message = some (new_api_error invalid_csrf_token message)

-- a fresh token in hexadecimal, or the text of the error of the random source
abbrev pub fresh_token : Result String → Option Error × Option String
fresh_token (ok token) = (none, some token)
fresh_token (err e) = (some (wrap_api_error "rand" server_error "Failed in CSRF processing"), none)
fresh_token panic = (none, none)

abbrev pub check_token : String → HttpRequest → String → Option Error
check_token method r token =
    if method == method_get
    then none
    else if token == get_text csrf_header r.header || token == get_text csrf_cookie r.query
    then none
    else csrf_failure "Invalid CSRF token"

abbrev pub check_cookie :
    String → HttpRequest → Result String → Cookie → Option Error × Option String
check_cookie method r random no_cookie = fresh_token random
check_cookie method r random bad_cookie = (csrf_failure "Failed to parse cookies", none)
check_cookie method r random (cookie_value token) = (check_token method r token, none)

-- `checkCSRF` for the method of the API request, and the cookie that it sets
unfoldable pub check_csrf : String → HttpRequest → Result String → Option Error × Option String
check_csrf method r random =
    if not (is_browser r false) then (none, none) else check_cookie method r random r.cookie

-- the `interface{}` of `handleOp`
pub data Data : Type 0 where
  no_data : Data
  one : ApiObject → Data
  many : ApiObjectList → Data

abbrev pub with_code : {A : Type 0} → ℕ → (A → Data) → Outcome A → Outcome (ℕ × Data)
with_code code f o = record { result = o.result >>= (λ a. ok (code, f a)); calls = o.calls }

abbrev pub find_action : Dict String Action → String → Result Bool
find_action actions name =
    if is_some (lookup name actions)
    then ok true
    else err (new_api_error invalid_action ("Invalid action: " <> name))

abbrev pub if_allowed : Option Error → Result Bool → Result Bool
if_allowed none rest = rest
if_allowed (some e) rest = err e

abbrev pub serve_action : Option Handler → Outcome (ℕ × Data)
serve_action none = quiet (ok (200, no_data))
serve_action (some h) = calling (served h) (err complete)

abbrev pub if_can : Option Error → Outcome (ℕ × Data) → Outcome (ℕ × Data)
if_can none rest = rest
if_can (some e) rest = quiet (err e)

module _ (lib : Schemer) where
  -- `SchemaBasedAccess`, and `AccessControl`, which embeds it
  unfoldable pub schema_based : AccessControl lib
  schema_based = record {
    can_action = λ op s name. can_action s name;
    can_create = λ op s. can_create s;
    can_list = λ op s. can_list s;
    can_get = λ op s. can_get s;
    can_update = λ op s. can_update s;
    can_delete = λ op s. can_delete s;
  }

  module _ ⦃conv : Convert⦄ (control : AccessControl lib) (store_of : Handler → Store lib)
      (payload : HttpRequest → Payload) (one_of : Handler → ApiRequest lib → Result ApiObject)
      (many_of : Handler → ApiRequest lib → Result ApiObjectList) where
    -- `validateAction`: whether there is an action
    unfoldable pub validate_action : ApiRequest lib → ApiSchema → Result Bool
    validate_action op s =
        if op.action == "" || (not (op.link == "") || not (op.method == method_post))
        then ok false
        else if_allowed (control.can_action op s op.action) (
            find_action (if op.name == "" then s.collection_actions else s.resource_actions)
              op.action)

    -- `handleAction`, with the 200 of its caller
    unfoldable pub handle_action : ApiRequest lib → ApiSchema → Outcome (ℕ × Data)
    handle_action op s =
        if_can (control.can_action op s op.action)
          (serve_action (lookup op.action s.action_handlers))

    -- `handle`
    abbrev pub handle_one :
        ℕ → ApiRequest lib → Option Handler → Outcome ApiObject → Outcome (ℕ × Data)
    handle_one code op none default = with_code code one default
    handle_one code op (some h) default = with_code code one (calling (custom h) (one_of h op))

    -- `handleList`
    abbrev pub handle_list :
        ApiRequest lib → Option Handler → Outcome ApiObjectList → Outcome (ℕ × Data)
    handle_list op none default = with_code 200 many default
    handle_list op (some h) default = with_code 200 many (calling (custom h) (many_of h op))

    -- the `switch` on the method
    unfoldable pub by_method : ApiRequest lib → ApiSchema → Outcome (ℕ × Data)
    by_method op s =
        if op.method == method_get
        then if op.name == ""
          then handle_list op s.list_handler (list_handler lib control store_of payload op s)
          else handle_one 200 op s.by_id_handler (by_id_handler lib control store_of payload op s)
        else if op.method == method_patch || op.method == method_put
        then handle_one 200 op s.update_handler (update_handler lib control store_of payload op s)
        else if op.method == method_post
        then handle_one 201 op s.create_handler (create_handler lib control store_of payload op s)
        else if op.method == method_delete
        then handle_one 200 op s.delete_handler (delete_handler lib control store_of payload op s)
        else quiet (ok (404, no_data))

    abbrev pub act : ApiRequest lib → ApiSchema → Result Bool → Outcome (ℕ × Data)
    act op s (ok true) = handle_action op s
    act op s (ok false) = by_method op s
    act op s (err e) = quiet (err e)
    act op s panic = quiet panic

    abbrev pub of_schema : ApiRequest lib → Option ApiSchema → Outcome (ℕ × Data)
    of_schema op none = quiet (ok (404, no_data))
    of_schema op (some s) = act op s (validate_action op s)

    -- `handleOp`, and the cookie that it sets
    unfoldable pub handle_op : ApiRequest lib → Result String → Outcome (ℕ × Data) × Option String
    unfolding by_method handle_action validate_action
    handle_op op random =
        let csrf = check_csrf op.method (or_root op.request) random in
        (if_can csrf.0 (of_schema op op.schema), csrf.1)
