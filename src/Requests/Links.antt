-- ===== src/Requests/Links.antt =====
-- The links that DefaultURLBuilder of pkg/urlbuilder/url.go makes.
use brent.Base.{
  String, not, ◌&&◌, List, [], ◌∷◌, Dict, insert, ◌==◌, string_eq, if◌then◌else◌, ◌<>◌, has_prefix,
  ends_with_char, contains_text, join_path,
}
use brent.Api.Types.{ApiSchema}
use brent.Requests.Urls.{UrlBuilder}

-- `url.QueryEscape` and `Values.Encode`
pub record UrlCode : Type 0 where
  pub query_escape : String → String
  pub encode : Dict String String → String

abbrev pub with_slash : String → String → String
with_slash base rest =
    if not (ends_with_char b'/' base) && not (has_prefix rest "/")
    then base <> ("/" <> rest)
    else base <> rest

-- `ConstructBasicURL`
unfoldable pub construct_basic_url : List String → String
construct_basic_url [] = ""
construct_basic_url (base ∷ []) = base
construct_basic_url (base ∷ p ∷ parts) = with_slash base (join_path (p ∷ parts))

-- `DefaultPathResolver.Schema`
unfoldable pub schema_path : UrlBuilder → String → ApiSchema → String
unfolding construct_basic_url
schema_path u base s = construct_basic_url (base ∷ u.prefix ∷ s.schema.plural_name ∷ [])

-- `schemaURL`
unfoldable pub schema_url : UrlBuilder → ApiSchema → List String → String
unfolding schema_path
schema_url u s parts = construct_basic_url (schema_path u u.response_url_base s ∷ parts)

-- `Collection`
unfoldable pub collection_link : UrlBuilder → ApiSchema → String
unfolding schema_url
collection_link u s = schema_url u s []

-- `ResourceLink`
unfoldable pub resource_link : UrlBuilder → ApiSchema → String → String
unfolding schema_url
resource_link u s id = schema_url u s (id ∷ [])

-- `RelativeToRoot`
unfoldable pub relative_to_root : UrlBuilder → String → String
relative_to_root u path =
    if not (path == "") && not (has_prefix path "/")
    then u.response_url_base <> ("/" <> path)
    else u.response_url_base <> path

module _ (code : UrlCode) where
  -- `Marker`, on the first value of each parameter
  unfoldable pub marker : UrlBuilder → String → String
  marker u m = u.current_url <> ("?" <> code.encode (insert "continue" m u.query))

  -- `Link`
  unfoldable pub link : UrlBuilder → ApiSchema → String → String → String
  unfolding schema_url
  link u s id name =
      if contains_text id "/"
      then schema_url u s (id ∷ name ∷ [])
      else schema_url u s (id ∷ []) <> ("?link=" <> code.query_escape name)

  -- `Action`
  unfoldable pub action_link : UrlBuilder → ApiSchema → String → String → String
  unfolding schema_url
  action_link u s id action = schema_url u s (id ∷ []) <> ("?action=" <> code.query_escape action)

  -- `CollectionAction`
  unfoldable pub collection_action : UrlBuilder → ApiSchema → String → String
  unfolding schema_url
  collection_action u s action = schema_url u s [] <> ("?action=" <> code.query_escape action)
