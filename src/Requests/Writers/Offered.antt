-- ===== src/Requests/Writers/Offered.antt =====
-- Which links a resource has.
use brent.Base.{
  String, ◌≡◌, refl, ap, ◌∙◌, Bool, false, not, ◌&&◌, ◌||◌, Option, none, some, List, [], ◌∷◌, Dict,
  lookup, insert, keys, lookup-insert, contains-keys, ◌==◌, string_eq, eq_iff, if◌then◌else◌,
  for_each, is_some, contains, arith,
}
use brent.Api.Errors.{Error, ok}
use brent.Api.Types.{ApiSchema, Handler}
use brent.Api.Objects.{ApiObject}
use brent.Api.Schemas.{Schemer, ApiSchemas, lookup_schema}
use brent.Requests.Http.{HttpRequest}
use brent.Requests.Urls.{UrlBuilder}
use brent.Requests.Links.{UrlCode, resource_link, link, action_link}
use brent.Requests.Parse.{ApiRequest}
use brent.Requests.Handlers.{AccessControl}
use brent.Requests.Writers.{
  RawResource, GenericCollection, or_default, insert_new, if_passes, add_links, new_resource,
  convert,
}

lookup-insert_each :
    (f : String → String) (ks : List String) (k : String) (m : Dict String String)
    → lookup k (for_each ks (λ j m'. insert j (f j) m') m)
      ≡ (if contains ks k then some (f k) else lookup k m)
lookup-insert_each f [] k m = refl
lookup-insert_each f (j ∷ ks) k m =
    lookup-insert_each f ks k (insert j (f j) m)
    ∙ ground (arith, lookup-insert j k (f j) m, eq_iff j k)

lookup-insert-keys :
    {V : Type 0} (f : String → String) (handlers : Dict String V) (k : String)
    (m : Dict String String)
    → lookup k (for_each (keys handlers) (λ j m'. insert j (f j) m') m)
      ≡ (if is_some (lookup k handlers) then some (f k) else lookup k m)
lookup-insert-keys f handlers k m =
    lookup-insert_each f (keys handlers) k m
    ∙ ap (λ b. if b then some (f k) else lookup k m) (contains-keys k handlers)

-- the links to update and to remove, by what the checks answer
offered : Option Error → Option Error → String → Dict String String
offered u d self =
    let own = insert_new "self" self [] in
    let updated = if_passes u (insert_new "update" self own) own in
    if_passes d (insert_new "remove" self updated) updated

abbrev pub passes : Option Error → Bool
passes e = not (is_some e)

lookup-offered :
    (u d : Option Error) (self k : String)
    → lookup k (offered u d self) ≡ (
        if "self" == k || (passes u && "update" == k) || (passes d && "remove" == k)
        then some self
        else none)
unfolding offered
lookup-offered none none self k = ground arith
lookup-offered none (some e) self k = ground arith
lookup-offered (some e) none self k = ground arith
lookup-offered (some e) (some f) self k = ground arith

-- the link of a name, where a handler of links comes first
abbrev pub own_link : Bool → Bool → String → String → Option String
own_link may_update may_delete self k =
    if "self" == k || (may_update && "update" == k) || (may_delete && "remove" == k)
    then some self
    else none

module _ (lib : Schemer) (control : AccessControl lib) (code : UrlCode)
    (format : Handler → ApiRequest lib → RawResource → RawResource)
    (format_collection : ApiRequest lib → ApiSchema → GenericCollection → GenericCollection) where
  -- For an object with an identifier, of a schema that is found and has no formatter, `convert`
  -- gives a resource, with a link of each handler of links of the schema, to that handler; with
  -- any other link, to the resource itself, exactly under self, under update where the check to
  -- update passes, and under remove where the check to delete passes; and with an action exactly
  -- of each handler of actions, to that action.
  pub lookup-convert :
      (op : ApiRequest lib) (o : ApiObject) (s : ApiSchema) (schemas : ApiSchemas lib)
      (request : HttpRequest) (u : UrlBuilder)
      → op.schemas ≡ some schemas
      → op.request ≡ some request
      → op.url_builder ≡ some u
      → or_default (lookup_schema lib o.type schemas) op.schema ≡ some s
      → s.formatter ≡ []
      → (o.id == "") ≡ false
      → (r : RawResource) × (convert lib control code format format_collection op o ≡ ok (some r))
        × ((name : String)
            → lookup name r.links ≡ (
                if is_some (lookup name s.link_handlers)
                then some (link code u s o.id name)
                else own_link
                    (passes (control.can_update op s))
                    (passes (control.can_delete op s))
                    (resource_link u s o.id)
                    name))
        × ((name : String)
            → lookup name r.actions ≡ (
                if is_some (lookup name s.action_handlers)
                then some (action_link code u s o.id name)
                else none))
  unfolding convert add_links offered
  lookup-convert op o s schemas request u hs hr hu found plain named =
      let new = new_resource lib control code request s o in
      (
        add_links lib control code op u s new,
        rw (hs, found, hr, named, hu, plain) refl,
        λ name.
            lookup-insert-keys (λ n. link code u s o.id n) s.link_handlers name
              (offered (control.can_update op s) (control.can_delete op s) (resource_link u s o.id))
            ∙ ap
                (λ w.
                  if is_some (lookup name s.link_handlers)
                  then some (link code u s o.id name)
                  else w)
                (lookup-offered (control.can_update op s) (control.can_delete op s)
                  (resource_link u s o.id) name),
        λ name. lookup-insert-keys (λ n. action_link code u s o.id n) s.action_handlers name [],
      )
