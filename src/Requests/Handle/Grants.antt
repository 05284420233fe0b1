-- ===== src/Requests/Handle/Grants.antt =====
-- From the user's grants to the stores: what a request may call when its schema is the user's own
-- copy, as pkg/schema/factory.go makes it.
use brent.Base.{
  String, ◌≡◌, refl, Bool, true, false, ◌||◌, Option, none, some, List, [], ◌∷◌, contains,
  string_eq, ◌==◌,
}
use brent.AccessControl.AccessSet.{AccessSet}
use brent.Api.Errors.{Error, Result}
use brent.Api.Types.{ApiSchema, Handler, method_get, method_post, method_put, method_delete}
use brent.Api.Objects.{ApiObject, ApiObjectList}
use brent.Api.Attributes.{Convert, gr}
use brent.Api.Schemas.{Schemer}
use brent.Decisions.{allow_if, can_create, can_get, can_list, can_update, can_delete}
use brent.Factory.{visit, is_namespaces}
use brent.Factory.Methods.{may, visit-allows}
use brent.Requests.Http.{HttpRequest}
use brent.Requests.Parse.{ApiRequest, parse, mux_url_parser}
use brent.Requests.Handlers.{
  by_id, list, create, update, delete, Call, stored, custom, served, Store, Payload, Written,
}
use brent.Requests.Server.{schema_based}
use brent.Requests.Server.Calls.{Each}
use brent.Requests.Handle.{Server, prepare, with_server_schemas, handle}
use brent.Requests.Handle.Response.{Allows, handle-Allows}

module _ ⦃conv : Convert⦄ (access : AccessSet) (s : ApiSchema) where
  -- the collection's schema offers the operation to everyone, or the user has a grant for its verb
  abbrev pub Entitled : Call → Type 0
  Entitled (stored by_id store) =
      (contains s.resource_methods method_get || (may access s "list" || may access s "get")) ≡ true
  Entitled (stored list store) =
      ((contains s.collection_methods method_get || contains s.collection_methods method_post)
        || (may access s "list" || (may access s "get" || may access s "create")))
      ≡ true
  Entitled (stored create store) =
      (contains s.collection_methods method_post || may access s "create") ≡ true
  Entitled (stored update store) =
      (contains s.resource_methods method_put || may access s "update") ≡ true
  Entitled (stored delete store) =
      (contains s.resource_methods method_delete || may access s "delete") ≡ true
  Entitled (custom h) = Unit
  Entitled (served h) = Unit

  allowed : (b : Bool) (message : String) → b ≡ true → allow_if b message ≡ none
  allowed b message h = rw h refl

  Allows-Entitled :
      (t : ApiSchema)
      → ((gr s).resource == "") ≡ false
      → is_namespaces (gr s) ≡ false
      → (visit access s).visible ≡ some t
      → (c : Call) → Allows t c
      → Entitled c
  unfolding can_create can_get can_list can_update can_delete
  Allows-Entitled t real other seen (stored by_id store) h =
      (visit-allows access s t real other seen).3.0 (allowed _ _ h)
  Allows-Entitled t real other seen (stored list store) h =
      (visit-allows access s t real other seen).4.0 (allowed _ _ h)
  Allows-Entitled t real other seen (stored create store) h =
      (visit-allows access s t real other seen).2.0 (allowed _ _ h)
  Allows-Entitled t real other seen (stored update store) h =
      (visit-allows access s t real other seen).1.0 (allowed _ _ h)
  Allows-Entitled t real other seen (stored delete store) h =
      (visit-allows access s t real other seen).0.0 (allowed _ _ h)
  Allows-Entitled t real other seen (custom own) h = tt
  Allows-Entitled t real other seen (served own) h = tt

  Each-Entitled :
      (t : ApiSchema)
      → ((c : Call) → Allows t c → Entitled c)
      → (cs : List Call) → Each (Allows t) cs
      → Each Entitled cs
  Each-Entitled t f [] h = tt
  Each-Entitled t f (c ∷ cs) h = (f c h.0, Each-Entitled t f cs h.1)

-- When the schema of the prepared request is the copy of a collection's schema that the user sees,
-- of a resource other than namespaces, the request calls a store only for an operation that the
-- collection's schema offers to everyone or that the user's set grants: an update by update, a
-- create by create, a delete by delete, an object by list or get, a list by list, get or create.
pub handle-Entitled :
    (lib : Schemer) (modify : Handler → ApiRequest lib → ApiSchema → ApiSchema) ⦃conv : Convert⦄
    (store_of : Handler → Store lib) (payload : HttpRequest → Payload)
    (one_of : Handler → ApiRequest lib → Result ApiObject)
    (many_of : Handler → ApiRequest lib → Result ApiObjectList)
    (error_of : Handler → Error → Written) (url_parse : String → Option (String × String))
    (user_name : HttpRequest → String) (access : AccessSet) (s t : ApiSchema) (server : Server lib)
    (random : Result String) (op : ApiRequest lib)
    → ((gr s).resource == "") ≡ false
    → is_namespaces (gr s) ≡ false
    → (visit access s).visible ≡ some t
    → (prepare lib modify server
        (parse lib url_parse mux_url_parser (with_server_schemas lib server op)).0).schema
      ≡ some t
    → Each
        (Entitled access s)
        (handle lib modify
          (schema_based lib)
          store_of
          payload
          one_of
          many_of
          error_of
          url_parse
          user_name
          server
          random
          op).calls
handle-Entitled lib modify store_of payload one_of many_of error_of url_parse user_name access s t
      server random op real other seen found =
    Each-Entitled access s t (Allows-Entitled access s t real other seen) _ (
      handle-Allows lib modify store_of payload one_of many_of error_of url_parse user_name server
        random op t found)
