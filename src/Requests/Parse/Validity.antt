-- ===== src/Requests/Parse/Validity.antt =====
-- When a request passes `Parse`.
use brent.Base.{
  List, [], ◌∷◌, not, ◌&&◌, ◌||◌, Bool, if◌then◌else◌, is_some, refl, String, ◌≡◌, sym, inl, inr,
  true, Option, none, some, ◌==◌, string_eq, any, contains, arith, Bool-cases,
}
use mathlib.Core.Path.{subst}
use brent.Api.Errors.{Error, ok}
use brent.Api.Types.{ApiSchema}
use brent.Api.Schemas.{Schemer}
use brent.Requests.Http.{HttpRequest}
use brent.Requests.Urls.{UrlBuilder, new_url_builder-base}
use brent.Requests.Parse.{
  ParsedUrl, ApiRequest, fits, validate_method, with_schema, unless_failed, with_builder,
  with_request, with_url, or_root, parse, check_schema,
}

module _ (lib : Schemer) where
  -- a method is among the methods of an object or, without a name, of the collection, where GET may
  -- also stand on POST
  abbrev pub lists_method : String → String → ApiSchema → Bool
  lists_method method name s =
      if name == ""
      then contains s.schema.collection_methods method
        || (method == "GET" && contains s.schema.collection_methods "POST")
      else contains s.schema.resource_methods method

  abbrev pub schema_accepts : ApiRequest lib → Option ApiSchema → Bool
  schema_accepts op none = true
  schema_accepts op (some s) =
      op.type == "" || (not (op.link == "") || lists_method op.method op.name s)

  -- which requests are valid
  abbrev pub accepted : ApiRequest lib → Bool
  accepted op =
      (not (op.action == "") && op.method == "POST")
      || (contains ("POST" ∷ "GET" ∷ "PUT" ∷ "PATCH" ∷ "DELETE" ∷ []) op.method
          && schema_accepts op op.schema)

  any-fits :
      (op : ApiRequest lib) (methods : List String)
      → any (fits lib op) methods ≡ (
          contains methods op.method
          || (op.name == "" && (op.method == "GET" && contains methods "POST")))
  any-fits op [] = ground arith
  any-fits op (m ∷ methods) = ground (arith, any-fits op methods)

  check_schema-accepts :
      (op : ApiRequest lib) (o : Option ApiSchema)
      → is_some (check_schema lib op o) ≡ not (schema_accepts op o)
  check_schema-accepts op none = refl
  check_schema-accepts op (some s) = elim (Bool-cases (op.name == "")) [
    | inl list ↦ rw list (ground (arith, list, any-fits op s.schema.collection_methods))
    | inr one ↦ rw one (ground (arith, one, any-fits op s.schema.resource_methods))
  ]

  validate_method-accepted :
      (op : ApiRequest lib) → is_some (validate_method lib op) ≡ not (accepted op)
  unfolding validate_method
  validate_method-accepted op = ground (arith, check_schema-accepts op op.schema)

  unless_failed-accepted :
      (failed : Option Error) (op : ApiRequest lib)
      → is_some (unless_failed lib failed op).1
        ≡ (is_some failed || not (accepted (unless_failed lib failed op).0))
  unless_failed-accepted none op = validate_method-accepted (with_schema lib op)
  unless_failed-accepted (some e) op = refl

  with_builder-accepted :
      (op : ApiRequest lib) (failed : Option Error) (given : Option UrlBuilder) (b : UrlBuilder)
      → is_some (with_builder lib op failed given (ok b)).1
        ≡ (is_some failed || not (accepted (with_builder lib op failed given (ok b)).0))
  with_builder-accepted op failed (some given) b = unless_failed-accepted failed op
  with_builder-accepted op failed none b =
      unless_failed-accepted failed (record op { url_builder = some b })

  -- Parse returns an error exactly when the parser of the URL did, or the request that it leaves is not
  -- valid. It is valid when it has an action and the method POST; or when its method is one of the five of
  -- HTTP and, if a schema was found and the request has a type and no link, is among the schema's methods for
  -- an object or, without a name, for the collection, where GET may also stand on POST.
  pub parse-accepted :
      (url_parse : String → Option (String × String))
      (url_parser : HttpRequest → ParsedUrl × Option Error) (op : ApiRequest lib)
      → is_some (parse lib url_parse url_parser op).1 ≡ (
          is_some (url_parser (or_root op.request)).1
          || not (accepted (parse lib url_parse url_parser op).0))
  unfolding parse
  parse-accepted url_parse url_parser op =
      let r = or_root op.request in
      let read = with_url lib (with_request lib op r) (url_parser r).0 in
      let (b, made, base, current) = new_url_builder-base url_parse r read.url_prefix in
      subst
        (λ m. is_some (with_builder lib read (url_parser r).1 read.url_builder m).1 ≡ (
          is_some (url_parser r).1
          || not (accepted (with_builder lib read (url_parser r).1 read.url_builder m).0)))
        (sym made) (with_builder-accepted read (url_parser r).1 read.url_builder b)
