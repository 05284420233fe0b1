-- ===== src/Requests/Handlers.antt =====
-- pkg/handlers and the reading of bodies in pkg/parse: the five default handlers, and the error
-- handler.
use brent.Base.{
  ℕ, String, not, Option, none, some, List, [], ◌∷◌, map, Dict, lookup, ◌==◌, string_eq,
  if◌then◌else◌, contains, eqb, ◌⊎◌, inl, inr, ◌<>◌,
}
use brent.Api.Errors.{
  ErrorCode, Error, ApiError, api, bare_code, complete, api_status, other, Result, ok, err, panic,
  new_api_error, not_found, server_error, invalid_body_content,
}
use brent.Api.Types.{
  ApiSchema, Handler, Value, text, texts, number, method_put, method_post, method_patch,
}
use brent.Api.Objects.{ApiObject, ApiObjectList, no_object}
use brent.Api.Attributes.{Convert}
use brent.Api.Schemas.{Schemer}
use brent.Requests.Http.{HttpRequest, get_text}
use brent.Requests.Parse.{ApiRequest, or_root}

-- What net/http and the decoders make of a request's body: its forms, and the object that each
-- decoder reads from the first bytes, or its error's text.
pub record Payload : Type 0 where
  pub multipart_form : Option (Dict String (List String))
  pub post_form : Dict String (List String)
  pub form : Dict String (List String)
  pub json : String ⊎ Dict String Value
  pub yaml : String ⊎ Dict String Value

abbrev pub form_value : String × List String → String × Value
form_value (k, v) = (k, texts v)

module _ ⦃conv : Convert⦄ where
  -- `toAPI`
  unfoldable pub to_api : Dict String Value → ApiObject
  to_api data_ = record {
    type = conv.to_string (lookup "type" data_);
    id = conv.to_string (lookup "id" data_);
    object = some data_;
  }

  -- `valuesToBody`
  unfoldable pub values_to_body : Dict String (List String) → ApiObject
  unfolding to_api
  values_to_body input = to_api (map form_value input)

  abbrev pub decoded : String ⊎ Dict String Value → Result ApiObject
  decoded (inr data_) = ok (to_api data_)
  decoded (inl message) =
      err (new_api_error invalid_body_content ("Failed to parse body: " <> message))

  -- `ReadBody`, with the decoder that `getDecoder` chooses
  unfoldable pub read_body : HttpRequest → Payload → Result ApiObject
  read_body r p =
      if not (contains (method_put ∷ method_post ∷ []) r.method)
      then ok no_object
      else if get_text "Content-type" r.header == "application/yaml"
      then decoded p.yaml
      else decoded p.json

  abbrev pub form_or_body : HttpRequest → Payload → Dict String (List String) → Result ApiObject
  form_or_body r p [] = read_body r p
  form_or_body r p (field ∷ fields) = ok (values_to_body p.form)

  abbrev pub multipart_or : Option (Dict String (List String)) → Result ApiObject → Result ApiObject
  multipart_or none rest = rest
  multipart_or (some values) rest = ok (values_to_body values)

  -- `Body`
  unfoldable pub body : HttpRequest → Payload → Result ApiObject
  body r p = multipart_or p.multipart_form (form_or_body r p p.post_form)

pub data StoreOperation : Type 0 where
  by_id list create update delete : StoreOperation

-- What a request sets going outside the handlers: an operation of a store, or a handler of the
-- program's own, by its name.
pub data Call : Type 0 where
  stored : StoreOperation → Handler → Call
  custom : Handler → Call
  served : Handler → Call

-- a result, and the calls that were made on the way to it
pub record Outcome (A : Type 0) : Type 0 where
  pub result : Result A
  pub calls : List Call

module _ {A : Type 0} where
  abbrev pub quiet : Result A → Outcome A
  quiet r = record { result = r; calls = [] }

  -- `if err := check; err != nil { return err }`
  abbrev pub checked : Option Error → Outcome A → Outcome A
  checked (some e) rest = quiet (err e)
  checked none rest = rest

  abbrev pub with_body : Result ApiObject → (ApiObject → Outcome A) → Outcome A
  with_body (ok data_) rest = rest data_
  with_body (err e) rest = quiet (err e)
  with_body panic rest = quiet panic

  abbrev pub with_store : Option Handler → (Handler → Outcome A) → Outcome A
  with_store none rest = quiet (err (new_api_error not_found "no store found"))
  with_store (some store) rest = rest store

  abbrev pub calling : Call → Result A → Outcome A
  calling call r = record { result = r; calls = call ∷ [] }

abbrev pub serve_or : Option Handler → Outcome ApiObject → Outcome ApiObject
serve_or none rest = rest
serve_or (some h) rest = calling (served h) (err complete)

module _ (lib : Schemer) where
  -- `AccessControl`, but for `CanWatch` and `CanDo`
  pub record AccessControl : Type 0 where
    pub can_action : ApiRequest lib → ApiSchema → String → Option Error
    pub can_create : ApiRequest lib → ApiSchema → Option Error
    pub can_list : ApiRequest lib → ApiSchema → Option Error
    pub can_get : ApiRequest lib → ApiSchema → Option Error
    pub can_update : ApiRequest lib → ApiSchema → Option Error
    pub can_delete : ApiRequest lib → ApiSchema → Option Error

  -- `Store`, but for `Watch`
  pub record Store : Type 0 where
    pub by_id : ApiRequest lib → ApiSchema → String → Result ApiObject
    pub list : ApiRequest lib → ApiSchema → Result ApiObjectList
    pub create : ApiRequest lib → ApiSchema → ApiObject → Result ApiObject
    pub update : ApiRequest lib → ApiSchema → ApiObject → String → Result ApiObject
    pub delete : ApiRequest lib → ApiSchema → String → Result ApiObject

  abbrev pub link_handler : ApiRequest lib → ApiSchema → Option Handler
  link_handler op s = if op.link == "" then none else lookup op.link s.link_handlers

  module _ ⦃conv : Convert⦄ (control : AccessControl) (store_of : Handler → Store)
      (payload : HttpRequest → Payload) where
    -- `CreateHandler`
    unfoldable pub create_handler : ApiRequest lib → ApiSchema → Outcome ApiObject
    create_handler op s = checked (control.can_create op s) (
        with_body (body (or_root op.request) (payload (or_root op.request))) (λ data_.
          with_store s.store
            (λ store. calling (stored create store) ((store_of store).create op s data_))))

    -- `DeleteHandler`
    unfoldable pub delete_handler : ApiRequest lib → ApiSchema → Outcome ApiObject
    delete_handler op s = checked (control.can_delete op s) (
        with_store s.store
          (λ store. calling (stored delete store) ((store_of store).delete op s op.name)))

    abbrev pub update_body : ApiRequest lib → Result ApiObject
    update_body op =
        if op.method == method_patch
        then ok no_object
        else body (or_root op.request) (payload (or_root op.request))

    -- `UpdateHandler`
    unfoldable pub update_handler : ApiRequest lib → ApiSchema → Outcome ApiObject
    update_handler op s = checked (control.can_update op s) (
        with_body (update_body op) (λ data_.
          with_store s.store
            (λ store. calling (stored update store) ((store_of store).update op s data_ op.name))))

    -- `ByIDHandler`
    unfoldable pub by_id_handler : ApiRequest lib → ApiSchema → Outcome ApiObject
    by_id_handler op s = checked (control.can_get op s) (
        with_store s.store (λ store.
          serve_or (link_handler op s)
            (calling (stored by_id store) ((store_of store).by_id op s op.name))))

    -- `ListHandler`
    unfoldable pub list_handler : ApiRequest lib → ApiSchema → Outcome ApiObjectList
    list_handler op s =
        checked (if op.name == "" then control.can_list op s else control.can_get op s)
          (with_store s.store (λ store. calling (stored list store) ((store_of store).list op s)))

-- What the error handler writes: a status alone, or an object with it.
pub data Written : Type 0 where
  nothing : Written
  header : ℕ → Written
  object : ℕ → ApiObject → Written
  objects : ℕ → ApiObjectList → Written

module _ (status : ErrorCode → ℕ) (code_name : ErrorCode → String) where
  abbrev pub with_field : String → Dict String Value → Dict String Value
  with_field name e = if name == "" then e else ("fieldName", text name) ∷ e

  -- `toError`
  unfoldable pub to_error : ApiError → ApiObject
  to_error e = record {
    type = "error";
    id = "";
    object = some (
        with_field e.field_name (
          ("type", text "error")
          ∷ ("status", number (status e.code))
          ∷ ("code", text (code_name e.code))
          ∷ ("message", text e.message)
          ∷ []));
  }

  abbrev pub respond : ApiError → Written
  respond e = if eqb (status e.code) 204 then header 204 else object (status e.code) (to_error e)

  abbrev pub of_code : ErrorCode → String → ApiError
  of_code code message = record { code = code; message = message; cause = none; field_name = "" }

  -- `ErrorHandler`; its log lines are left out
  unfoldable pub error_handler : Error → Written
  unfolding to_error
  error_handler complete = nothing
  error_handler (bare_code code) = respond (of_code code "")
  error_handler (api e) = respond e
  error_handler (api_status code reason message) = respond (of_code server_error message)
  error_handler (other message) = respond (of_code server_error message)
