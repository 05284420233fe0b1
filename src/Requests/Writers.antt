-- ===== src/Requests/Writers.antt =====
-- pkg/writer/encoding.go: the resources and collections that are written for objects and lists.
pub mod Offered
use brent.Base.{
  ℕ, String, Bool, true, false, not, ◌&&◌, ◌||◌, Option, none, some, List, [], ◌∷◌, Dict, lookup,
  insert, keys, ◌==◌, string_eq, if◌then◌else◌, for_each, is_some, atoi, ltb,
}
use brent.Api.Errors.{Error, Result, ok, err, panic, ◌>>=◌}
use brent.Api.Types.{ApiSchema, Schema, Handler, method_get}
use brent.Api.Objects.{ApiObject, ApiObjectList}
use brent.Api.Schemas.{Schemer, ApiSchemas, lookup_schema}
use brent.Requests.Http.{HttpRequest, get_text}
use brent.Requests.Urls.{UrlBuilder}
use brent.Requests.Links.{UrlCode, collection_link, resource_link, marker, link, action_link}
use brent.Requests.Parse.{ApiRequest}
use brent.Requests.Handlers.{AccessControl}

-- `RawResource`
pub record RawResource : Type 0 where
  pub id : String
  pub type : String
  pub schema : ApiSchema
  pub links : Dict String String
  pub actions : Dict String String
  pub action_links : Bool
  pub api_object : ApiObject

-- `Pagination`
pub record Pagination : Type 0 where
  pub limit : ℕ
  pub first : String
  pub next : String
  pub partial : Bool

-- `GenericCollection`; a nil resource is `none`
pub record GenericCollection : Type 0 where
  pub type : String
  pub links : Dict String String
  pub create_types : Dict String String
  pub actions : Dict String String
  pub resource_type : String
  pub pagination : Option Pagination
  pub revision : String
  pub continue : String
  pub data_ : List (Option RawResource)

-- a use of a pointer
abbrev pub deref {ℓ} : {A : Type ℓ} → Option A → Result A
deref none = panic
deref (some a) = ok a

abbrev pub or_default : {A : Type 0} → Option A → Option A → Option A
or_default (some a) other = some a
or_default none other = other

-- `if _, ok := m[k]; !ok { m[k] = v }`
abbrev pub insert_new : String → String → Dict String String → Dict String String
insert_new k v m = if is_some (lookup k m) then m else insert k v m

-- `if err == nil`
abbrev pub if_passes : {A : Type 0} → Option Error → A → A → A
if_passes none a other = a
if_passes (some e) a other = other

abbrev or_zero : Option ℕ → ℕ
or_zero none = 0
or_zero (some n) = n

-- `getLimit`
unfoldable pub get_limit : HttpRequest → ℕ
unfolding atoi
get_limit r = or_zero (atoi (get_text "limit" r.header))

abbrev pub query_text : String → Option (Dict String String) → String
query_text k none = ""
query_text k (some q) = get_text k q

module _ (lib : Schemer) (control : AccessControl lib) (code : UrlCode) where
  -- the links to update and to remove, for a resource whose own link is `self`
  abbrev pub offer_links :
      ApiRequest lib → ApiSchema → String → Dict String String → Dict String String
  offer_links op s self m =
      let own = insert_new "self" self m in
      let updated = if_passes (control.can_update op s) (insert_new "update" self own) own in
      if_passes (control.can_delete op s) (insert_new "remove" self updated) updated

  -- `addLinks`, for a resource with an identifier
  unfoldable pub add_links : ApiRequest lib → UrlBuilder → ApiSchema → RawResource → RawResource
  unfolding resource_link link action_link
  add_links op u s r = record r {
    links =
        for_each (keys s.link_handlers) (λ name m. insert name (link code u s r.id name) m)
          (offer_links op s (resource_link u r.schema r.id) r.links);
    actions =
        for_each (keys s.action_handlers) (λ name m. insert name (action_link code u s r.id name) m)
          r.actions;
  }

  abbrev pub with_links : ApiRequest lib → ApiSchema → RawResource → Result RawResource
  with_links op s r =
      if r.id == "" then ok r else do u ← deref op.url_builder; ok (add_links op u s r)

  abbrev pub new_resource : HttpRequest → ApiSchema → ApiObject → RawResource
  new_resource request s o = record {
    id = o.id;
    type = s.schema.id;
    schema = s;
    links = [];
    actions = [];
    action_links = not (get_text "X-API-Action-Links" request.header == "");
    api_object = o;
  }

  module _ (format : Handler → ApiRequest lib → RawResource → RawResource)
      (format_collection : ApiRequest lib → ApiSchema → GenericCollection → GenericCollection) where
    abbrev pub convert_with :
        ApiRequest lib → ApiObject → Option ApiSchema → Result (Option RawResource)
    convert_with op o none = ok none
    convert_with op o (some s) = do
      request ← deref op.request
      linked ← with_links op s (new_resource request s o)
      ok (some (for_each s.formatter (λ f r. format f op r) linked))

    -- `convert`
    unfoldable pub convert : ApiRequest lib → ApiObject → Result (Option RawResource)
    unfolding add_links
    convert op o = do
      schemas ← deref op.schemas
      convert_with op o (or_default (lookup_schema lib o.type schemas) op.schema)

    -- the pages of a list
    abbrev pub paginated :
        ApiRequest lib → ApiObjectList → UrlBuilder → HttpRequest → Option Pagination
    paginated op list u request =
        if not (list.continue == "") || not (query_text "continue" op.query == "")
        then some (record {
          limit = get_limit request;
          first = u.current_url;
          next = if list.continue == "" then "" else marker code u list.continue;
          partial = true;
        })
        else none

    abbrev pub create_types_of : ApiRequest lib → ApiSchema → UrlBuilder → Dict String String
    create_types_of op s u =
        if op.method == method_get
        then if_passes (control.can_create op s) ((s.schema.id, collection_link u s) ∷ []) []
        else []

    -- `newCollection`
    unfoldable pub new_collection_of :
        ApiRequest lib → ApiSchema → ApiObjectList → Result GenericCollection
    unfolding get_limit marker collection_link
    new_collection_of op s list = do
      u ← deref op.url_builder
      request ← deref op.request
      ok (record {
        type = "collection";
        links = ("self", u.current_url) ∷ [];
        create_types = create_types_of op s u;
        actions = [];
        resource_type = op.type;
        pagination = paginated op list u request;
        revision = list.revision;
        continue = list.continue;
        data_ = [];
      })

    abbrev pub convert_all : ApiRequest lib → List ApiObject → Result (List (Option RawResource))
    convert_all op [] = ok []
    convert_all op (o ∷ objects) = do r ← convert op o; rs ← convert_all op objects; ok (r ∷ rs)

    -- `convertList`
    unfoldable pub convert_list : ApiRequest lib → ApiObjectList → Result GenericCollection
    unfolding convert new_collection_of
    convert_list op list = do
      s ← deref op.schema
      collection ← new_collection_of op s list
      resources ← convert_all op list.objects
      ok (format_collection op s (record collection { data_ = resources }))
