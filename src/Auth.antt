-- ===== src/Auth.antt =====
-- pkg/auth/filter.go: which user a request is served as.
pub mod Vouched
pub mod Impersonated
use Prim.Native.String
use brent.Base.{
  String, Bool, true, false, Option, none, some, List, [], ◌∷◌, Dict, lookup, insert, string_eq,
  ◌==◌, ◌<>◌, after_prefix, if◌then◌else◌,
}
use brent.AccessControl.Store.{UserInfo}
use brent.Requests.Http.{Cookie, no_cookie, bad_cookie, cookie_value, get_text}

-- user.DefaultInfo of the Kubernetes API server
pub record User : Type 0 where
  pub name : String
  pub uid : String
  pub groups : List String
  pub extra : Dict String (List String)

-- the part of a user that access is computed from
abbrev pub user_info : User → UserInfo
user_info u = record { name = u.name; groups = u.groups }

-- The headers stand under their canonical names with all their values; `session` is the cookie
-- A_SESS; `user` and `auth_failed` are what the context of the request carries.
pub record Incoming : Type 0 where
  pub header : Dict String (List String)
  pub session : Cookie
  pub user : Option User
  pub auth_failed : Bool

abbrev pub or_no_values : Option (List String) → List String
or_no_values none = []
or_no_values (some l) = l

abbrev pub first_value : List String → String
first_value [] = ""
first_value (v ∷ l) = v

-- `Header.Get`
abbrev pub get_header : String → Incoming → String
get_header k req = first_value (or_no_values (lookup k req.header))

-- what Authenticate returns: the user, whether it was authenticated, and an error
pub record Answer : Type 0 where
  pub user : Option User
  pub authenticated : Bool
  pub error : Option String

abbrev pub Authenticator : Type 0
Authenticator = Incoming → Answer

-- The token of a request, or the error of its cookie.
pub data Token : Type 0 where
  token : String → Token
  token_error : String → Token

abbrev pub cookie_token : Cookie → Token
cookie_token no_cookie = token ""
cookie_token bad_cookie = token_error "named cookie not valid"
cookie_token (cookie_value v) = if v == "" then token "" else token ("cookie://" <> v)

abbrev pub bearer : Option String → String
bearer none = ""
bearer (some t) = t

unfoldable pub token_of : Incoming → Token
token_of req =
    let header_token = bearer (after_prefix (get_header "Authorization" req) "Bearer ") in
    if header_token == "" then cookie_token req.session else token header_token

-- AuthenticateToken of the webhook: the user of the response, if there is one
abbrev pub TokenService : Type 0
TokenService = String → Answer

abbrev pub ask : TokenService → Token → Answer
ask service (token_error e) = record { user = none; authenticated = false; error = some e }
ask service (token t) =
    if t == "" then record { user = none; authenticated = false; error = none } else service t

-- `webhookAuth.Authenticate`
unfoldable pub authenticate_token : TokenService → Authenticator
unfolding token_of
authenticate_token service req = ask service (token_of req)

abbrev pub error_user : User
error_user = record {
  name = "system:cattle:error";
  uid = "system:cattle:error";
  groups = "system:unauthenticated" ∷ "system:cattle:error" ∷ [];
  extra = [];
}

abbrev pub unauthenticated_user : User
unauthenticated_user = record {
  name = "system:unauthenticated";
  uid = "system:unauthenticated";
  groups = "system:unauthenticated" ∷ [];
  extra = [];
}

abbrev pub served_user : Option String → Bool → Option User → Option User
served_user (some e) ok info = some error_user
served_user none false info = some unauthenticated_user
served_user none true info = info

abbrev pub failed_mark : Option String → Bool → Bool
failed_mark (some e) before = true
failed_mark none before = before

-- the request that the next handler of `ToMiddleware` is given
unfoldable pub authenticated : Authenticator → Incoming → Incoming
authenticated auth req =
    let a = auth req in
    record req {
      user = served_user a.error a.authenticated a.user;
      auth_failed = failed_mark a.error req.auth_failed;
    }

abbrev pub Middleware : Type 0 → Type 0
Middleware A = (Incoming → A) → Incoming → A

-- `ToMiddleware`
unfoldable pub to_middleware : {A : Type 0} → Authenticator → Middleware A
unfolding authenticated
to_middleware auth next req = next (authenticated auth req)

-- `Middleware.Chain`
abbrev pub chain : {A : Type 0} → Middleware A → Middleware A → Middleware A
chain m k next = m (k next)

abbrev pub context_answer : Option User → Answer
context_answer none = record { user = none; authenticated = false; error = none }
context_answer (some u) = record { user = some u; authenticated = true; error = none }

-- `ExistingContext`
unfoldable pub existing_context : {A : Type 0} → Middleware A
unfolding to_middleware
existing_context = to_middleware (λ req. context_answer req.user)

unfoldable pub always_admin : Authenticator
always_admin req = record {
  user = some (record {
    name = "admin";
    uid = "admin";
    groups = "system:masters" ∷ "system:authenticated" ∷ [];
    extra = [];
  });
  authenticated = true;
  error = none;
}

abbrev pub extra_prefix : String
extra_prefix = "Impersonate-Extra-"

abbrev pub put_extra :
    Option String → List String → Dict String (List String) → Dict String (List String)
put_extra none v m = m
put_extra (some k) v m = insert k v m

-- the loop over the headers
abbrev pub extra_of :
    Dict String (List String) → Dict String (List String) → Dict String (List String)
extra_of [] m = m
extra_of ((k, v) ∷ header) m = extra_of header (put_extra (after_prefix k extra_prefix) v m)

unfoldable pub impersonation : Authenticator
impersonation req =
    if get_header "Impersonate-User" req == ""
    then record { user = none; authenticated = false; error = none }
    else record {
      user = some (record {
        name = get_header "Impersonate-User" req;
        uid = "";
        groups = or_no_values (lookup "Impersonate-Group" req.header);
        extra = extra_of req.header [];
      });
      authenticated = true;
      error = none;
    }
