-- ===== src/Requests/Handle/Response.antt =====
-- What a handled request may have called, and what it answers when parsing fails.
use brent.Base.{
  String, ◌≡◌, refl, Bool, true, false, ◌||◌, Option, none, some, List, [], ◌∷◌, contains,
  string_eq,
}
use brent.Api.Errors.{Error, Result}
use brent.Api.Types.{ApiSchema, Handler, method_get, method_post, method_put, method_delete}
use brent.Api.Objects.{ApiObject, ApiObjectList}
use brent.Api.Attributes.{Convert}
use brent.Api.Schemas.{Schemer}
use brent.Decisions.{allow_if, can_create, can_get, can_list, can_update, can_delete}
use brent.Requests.Http.{HttpRequest}
use brent.Requests.Parse.{ApiRequest, parse, mux_url_parser}
use brent.Requests.Handlers.{
  by_id, list, create, update, delete, Call, stored, custom, served, Store, Payload, Written,
}
use brent.Requests.Server.{schema_based}
use brent.Requests.Server.Calls.{Each}
use brent.Requests.Server.Checks.{Permitted, handle_op-Permitted}
use brent.Requests.Handle.{Server, prepare, after_parse, with_server_schemas, handle}

-- the schema lists the method that the operation stands for
abbrev pub Allows : ApiSchema → Call → Type 0
Allows s (stored by_id store) = contains s.resource_methods method_get ≡ true
Allows s (stored list store) =
    (contains s.collection_methods method_get || contains s.collection_methods method_post) ≡ true
Allows s (stored create store) = contains s.collection_methods method_post ≡ true
Allows s (stored update store) = contains s.resource_methods method_put ≡ true
Allows s (stored delete store) = contains s.resource_methods method_delete ≡ true
Allows s (custom h) = Unit
Allows s (served h) = Unit

allow_if-none : (b : Bool) (message : String) → allow_if b message ≡ none → b ≡ true
allow_if-none true message h = refl
allow_if-none false message h = cc

Permitted-Allows :
    (lib : Schemer) (op : ApiRequest lib) (s : ApiSchema) (c : Call)
    → Permitted lib (schema_based lib) op s c
    → Allows s c
unfolding schema_based can_get can_list can_create can_update can_delete
Permitted-Allows lib op s (stored by_id store) h = allow_if-none _ _ h.2
Permitted-Allows lib op s (stored list store) h = allow_if-none _ _ h.2
Permitted-Allows lib op s (stored create store) h = allow_if-none _ _ h.2
Permitted-Allows lib op s (stored update store) h = allow_if-none _ _ h.2
Permitted-Allows lib op s (stored delete store) h = allow_if-none _ _ h.2
Permitted-Allows lib op s (custom own) h = tt
Permitted-Allows lib op s (served own) h = tt

Each-Allows :
    (lib : Schemer) (op : ApiRequest lib) (s : ApiSchema) (Q : Type 0) (cs : List Call)
    → Each (λ c. Permitted lib (schema_based lib) op s c × Q) cs
    → Each (Allows s) cs
Each-Allows lib op s Q [] h = tt
Each-Allows lib op s Q (c ∷ cs) h =
    (Permitted-Allows lib op s c h.0.0, Each-Allows lib op s Q cs h.1)

module _ (lib : Schemer) (modify : Handler → ApiRequest lib → ApiSchema → ApiSchema)
    ⦃conv : Convert⦄ (store_of : Handler → Store lib) (payload : HttpRequest → Payload)
    (one_of : Handler → ApiRequest lib → Result ApiObject)
    (many_of : Handler → ApiRequest lib → Result ApiObjectList)
    (error_of : Handler → Error → Written) (url_parse : String → Option (String × String))
    (user_name : HttpRequest → String) where
  after_parse-Each :
      (server : Server lib) (random : Result String) (s : ApiSchema)
      (parsed : ApiRequest lib × Option Error)
      → (prepare lib modify server parsed.0).schema ≡ some s
      → Each
          (Allows s)
          (after_parse lib modify
            (schema_based lib)
            store_of
            payload
            one_of
            many_of
            error_of
            url_parse
            user_name
            server
            random
            parsed).calls
  after_parse-Each server random s (op, some e) found = tt
  after_parse-Each server random s (op, none) found =
      Each-Allows lib (prepare lib modify server op) s _ _ (
        handle_op-Permitted lib (schema_based lib) store_of payload one_of many_of
          (prepare lib modify server op) random s found)

  -- With the checks of `SchemaBasedAccess`, a request that is handled calls a store only for an
  -- operation whose method the schema of the prepared request lists: PUT for every update, POST for
  -- a create, DELETE for a delete, GET for an object, and GET or POST for a list.
  pub handle-Allows :
      (server : Server lib) (random : Result String) (op : ApiRequest lib) (s : ApiSchema)
      → (prepare lib modify server
          (parse lib url_parse mux_url_parser (with_server_schemas lib server op)).0).schema
        ≡ some s
      → Each
          (Allows s)
          (handle lib modify
            (schema_based lib)
            store_of
            payload
            one_of
            many_of
            error_of
            url_parse
            user_name
            server
            random
            op).calls
  unfolding handle
  handle-Allows server random op s found =
      after_parse-Each server random s
        (parse lib url_parse mux_url_parser (with_server_schemas lib server op)) found
