-- ===== src/Requests/Urls.antt =====
-- pkg/urlbuilder/base.go, and `New` of url.go: the URL of a request and the base of its links.
use brent.Base.{
  ℕ, String, ◌≡◌, refl, Option, none, some, Dict, ◌==◌, string_eq, if◌then◌else◌, cut, not,
  before_last, before_last-append, ◌<>◌, sym, ap, ◌∙◌,
}
use text.Mathlib.TextLemmas.{append_assoc}
use brent.Api.Errors.{Result, ok, err, other, ◌>>=◌}
use brent.Requests.Http.{HttpRequest, get_text}

abbrev pub prefix_header : String
prefix_header = "X-API-URL-Prefix"

abbrev pub forwarded_api_host_header : String
forwarded_api_host_header = "X-API-Host"

abbrev pub forwarded_host_header : String
forwarded_host_header = "X-Forwarded-Host"

abbrev pub forwarded_proto_header : String
forwarded_proto_header = "X-Forwarded-Proto"

abbrev pub comma : ℕ
comma = b','

-- `GetHost`
unfoldable pub get_host : HttpRequest → String
get_host r =
    let first = (cut comma (get_text forwarded_host_header r.header)).0 in
    if not (get_text forwarded_api_host_header r.header == "")
    then get_text forwarded_api_host_header r.header
    else if not (first == "")
    then first
    else r.host

abbrev pub web_scheme : String → String
web_scheme scheme = if scheme == "ws" then "http" else if scheme == "wss" then "https" else scheme

-- `GetScheme`
unfoldable pub get_scheme : HttpRequest → String
get_scheme r =
    if not (get_text forwarded_proto_header r.header == "")
    then web_scheme (get_text forwarded_proto_header r.header)
    else if r.tls
    then "https"
    else "http"

abbrev pub url_before_path : HttpRequest → String
url_before_path r = get_scheme r <> ("://" <> (get_host r <> get_text prefix_header r.header))

-- `ParseRequestURL`
unfoldable pub parse_request_url : HttpRequest → String
parse_request_url r =
    get_scheme r <> ("://" <> (get_host r <> (get_text prefix_header r.header <> r.path)))

-- scheme and host of a parsed URL, or the text of the error of `url.Parse`
abbrev pub root_of : (String → Option (String × String)) → String → Result String
root_of url_parse url = elim (url_parse url) [
  | none ↦ err (other url)
  | some (scheme, host) ↦ ok (scheme <> ("://" <> host))
]

-- `ParseResponseURLBase`
unfoldable pub parse_response_url_base :
    (String → Option (String × String)) → String → HttpRequest → Result String
parse_response_url_base url_parse current_url r = elim (before_last current_url r.path) [
  | none ↦ root_of url_parse current_url
  | some base ↦ ok base
]

-- `DefaultURLBuilder` with a `DefaultPathResolver`
pub record UrlBuilder : Type 0 where
  pub prefix : String
  pub current_url : String
  pub response_url_base : String
  pub query : Dict String String

-- `New`
unfoldable pub new_url_builder :
    (String → Option (String × String)) → HttpRequest → String → Result UrlBuilder
unfolding parse_request_url parse_response_url_base
new_url_builder url_parse r prefix = do
  base ← parse_response_url_base url_parse (parse_request_url r) r
  ok (record {
    prefix = prefix;
    current_url = parse_request_url r;
    response_url_base = base;
    query = r.query;
  })

parse_request_url-split : (r : HttpRequest) → parse_request_url r ≡ url_before_path r <> r.path
unfolding parse_request_url
parse_request_url-split r = sym (
    append_assoc (get_scheme r) ("://" <> (get_host r <> get_text prefix_header r.header)) r.path
    ∙ ap (λ t. get_scheme r <> t)
        (append_assoc "://" (get_host r <> get_text prefix_header r.header) r.path
          ∙ ap (λ t. "://" <> t)
              (append_assoc (get_host r) (get_text prefix_header r.header) r.path)))

parse_response_url_base-before :
    (url_parse : String → Option (String × String)) (r : HttpRequest)
    → parse_response_url_base url_parse (parse_request_url r) r ≡ ok (url_before_path r)
unfolding parse_response_url_base
parse_response_url_base-before url_parse r =
    let found : before_last (parse_request_url r) r.path ≡ some (url_before_path r) =
      ap (λ u. before_last u r.path) (parse_request_url-split r)
      ∙ before_last-append (url_before_path r) r.path in
    rw (found, parse_response_url_base) refl

-- `New` never fails: the path ends the request's URL, and what stands before it is the base.
pub new_url_builder-base :
    (url_parse : String → Option (String × String)) (r : HttpRequest) (prefix : String)
    → (b : UrlBuilder) × (new_url_builder url_parse r prefix ≡ ok b)
      × (b.response_url_base <> r.path ≡ b.current_url)
      × (b.current_url ≡ parse_request_url r)
unfolding new_url_builder
new_url_builder-base url_parse r prefix =
    let b : UrlBuilder = record {
      prefix = prefix;
      current_url = parse_request_url r;
      response_url_base = url_before_path r;
      query = r.query;
    } in
    (b, rw (parse_response_url_base-before url_parse r) refl, sym (parse_request_url-split r), refl)
