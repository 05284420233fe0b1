-- ===== src/Requests/Http.antt =====
-- The parts of an HTTP request that brent reads.
use brent.Base.{String, Bool, Option, none, some, [], Dict, lookup, string_eq}

-- `Request.Cookie("CSRF")`: the value, none, or another error
pub data Cookie : Type 0 where
  no_cookie bad_cookie : Cookie
  cookie_value : String → Cookie

-- A header or a parameter of the query stands under its name with its first value; `vars` are the variables of the router.
pub record HttpRequest : Type 0 where
  pub method : String
  pub host : String
  pub path : String
  pub tls : Bool
  pub header : Dict String String
  pub query : Dict String String
  pub vars : Dict String String
  pub cookie : Cookie

abbrev pub or_empty_text : Option String → String
or_empty_text none = ""
or_empty_text (some s) = s

-- `m[k]`, and `Get` of a header or a query
abbrev pub get_text : String → Dict String String → String
get_text k m = or_empty_text (lookup k m)

-- what `http.NewRequest("GET", "/", nil)` makes
abbrev pub root_request : HttpRequest
root_request = record {
  method = "GET";
  host = "";
  path = "/";
  tls = Bool.false;
  header = [];
  query = [];
  vars = [];
  cookie = no_cookie;
}
