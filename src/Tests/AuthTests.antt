-- ===== src/Tests/AuthTests.antt =====
-- Authentication at concrete requests.
use brent.Base.{
  String, ◌≡◌, refl, Bool, true, false, none, some, [], ◌∷◌, lookup, string_eq, ◌==◌, ◌<>◌,
  after_prefix,
}
use brent.Requests.Http.{no_cookie, cookie_value}
use brent.Auth.{
  User, Incoming, Answer, TokenService, token, token_of, authenticate_token, authenticated,
  extra_prefix, impersonation, existing_context, chain, to_middleware,
}
use brent.Auth.Vouched.{Verdict, authenticated-Verdict}
use brent.Auth.Impersonated.{extra-impersonation}

abbrev bob : User
bob = record { name = "bob"; uid = "7"; groups = "system:authenticated" ∷ []; extra = [] }

-- a service that knows one token
abbrev known_token : Bool → Answer
known_token true = record { user = some bob; authenticated = true; error = none }
known_token false = record { user = none; authenticated = false; error = none }

abbrev service : TokenService
service t = known_token (t == "cookie://s1")

abbrev with_cookie : Incoming
with_cookie = record {
  header = ("Authorization", "Basic x" ∷ []) ∷ [];
  session = cookie_value "s1";
  user = none;
  auth_failed = false;
}

-- a header of another kind leaves the cookie to be read
cookie_token_read : token_of with_cookie ≡ token "cookie://s1"
unfolding token_of after_prefix
cookie_token_read = refl

served_bob : (authenticated (authenticate_token service) with_cookie).user ≡ some bob
unfolding token_of after_prefix authenticate_token authenticated
served_bob = refl

authenticated-Verdict_example :
    Verdict service
      (token_of with_cookie)
      false
      (authenticated (authenticate_token service) with_cookie).user
      (authenticated (authenticate_token service) with_cookie).auth_failed
authenticated-Verdict_example = authenticated-Verdict service with_cookie

-- the context's user is kept by the second of two authenticators
kept_bob :
    chain
      (to_middleware (authenticate_token service))
      existing_context
      (λ req. req.user)
      with_cookie
    ≡ some bob
unfolding token_of after_prefix authenticate_token authenticated to_middleware existing_context
kept_bob = refl

abbrev as_carol : Incoming
as_carol = record {
  header =
      ("Impersonate-User", "carol" ∷ [])
      ∷ ("Impersonate-Group", "dev" ∷ "ops" ∷ [])
      ∷ ("Impersonate-Extra-Scopes", "view" ∷ [])
      ∷ [];
  session = no_cookie;
  user = none;
  auth_failed = false;
}

extra-impersonation_example :
    (u : User) × ((impersonation as_carol).user ≡ some u)
    × ((impersonation as_carol).authenticated ≡ true)
    × (u.name ≡ "carol")
    × (u.groups ≡ "dev" ∷ "ops" ∷ [])
    × ((k : String) → lookup k u.extra ≡ lookup (extra_prefix <> k) as_carol.header)
extra-impersonation_example = extra-impersonation as_carol (refl, (refl, (refl, tt))) refl
