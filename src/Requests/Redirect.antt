-- ===== src/Requests/Redirect.antt =====
-- pkg/urlbuilder/redirect.go: redirects are put under the prefix of the request.
pub mod Moved
use brent.Base.{
  ℕ, zero, suc, String, Bool, not, ◌||◌, Option, none, some, List, [], ◌∷◌, ◌++◌, ◌==◌, string_eq,
  if◌then◌else◌, has_prefix, eqb, ◌<>◌,
}
use brent.Api.Errors.{Result, ok, panic, ◌>>=◌}

-- `url.Parse` and what is used of a `url.URL`
pub record UrlLib : Type 1 where
  pub Url : Type 0
  pub parse : String → Option Url
  pub path_of : Url → String
  pub with_path : String → Url → Url
  pub print : Url → String

-- the writer of the response: the header Location, the codes and the body that were written
pub record Response : Type 0 where
  pub location : String
  pub codes : List ℕ
  pub body : String

-- a call that the next handler makes of its writer
pub data WriterCall : Type 0 where
  set_location : String → WriterCall
  write_header : ℕ → WriterCall
  write : String → WriterCall

-- `redirector`
pub record Redirector : Type 0 where
  pub prefix : String
  pub from : String
  pub to : String
  pub temp_buffer : Option String
  pub response : Response

abbrev pub put_body : String → Response → Response
put_body content r = record r { body = r.body <> content }

abbrev pub put_code : ℕ → Response → Response
put_code code r = record r { codes = r.codes ++ code ∷ [] }

abbrev pub put_location : String → Response → Response
put_location l r = record r { location = l }

-- a call of the response itself
unfoldable pub plain_call : WriterCall → Response → Response
plain_call (set_location l) r = put_location l r
plain_call (write_header code) r = put_code code r
plain_call (write content) r = put_body content r

abbrev count_after : String → ℕ
count_after String.[] = zero
count_after (String.◌∷◌ c s) = suc (count_after s)

abbrev drop_one : String → String
drop_one String.[] = String.[]
drop_one (String.◌∷◌ c s) = s

-- after `skip` characters of an occurrence that was replaced
unfoldable pub replace_from : String → String → ℕ → String → String
unfolding has_prefix
replace_from old new skip String.[] = ""
replace_from old new (suc skip) (String.◌∷◌ c s) = replace_from old new skip s
replace_from old new zero (String.◌∷◌ c s) =
    let replaced = new <> replace_from old new (count_after (drop_one old)) s in
    let kept = String.◌∷◌ c (replace_from old new zero s) in
    if has_prefix (String.◌∷◌ c s) old then replaced else kept

-- `bytes.Replace(s, old, new, -1)` for an `old` that is not empty
unfoldable pub replace : String → String → String → String
unfolding replace_from
replace s old new = replace_from old new zero s

abbrev pub write_to : Option String → String → Redirector → Redirector
write_to none content r = record r { response = put_body content r.response }
write_to (some buffer) content r = record r { temp_buffer = some (buffer <> content) }

-- `Close`
abbrev pub close_with : Option String → Redirector → Redirector
close_with none r = r
close_with (some buffer) r = if r.from == "" || r.to == "" then r else record r {
  temp_buffer = none;
  response = put_body (replace buffer r.from r.to) r.response;
}

abbrev pub is_redirect : ℕ → Bool
is_redirect code = eqb code 301 || eqb code 302

module _ (lib : UrlLib) where
  open lib use {Url, path_of, with_path, print}

  -- a location whose path is not under the prefix
  abbrev pub move_to : Url → Redirector → Redirector
  move_to u r = if has_prefix (path_of u) r.prefix then r else record r {
    from = path_of u;
    to = r.prefix <> path_of u;
    temp_buffer = some "";
    response = put_location (print (with_path (r.prefix <> path_of u) u)) r.response;
  }

  abbrev pub with_code : ℕ → Redirector → Redirector
  with_code code r = record r { response = put_code code r.response }

  abbrev pub redirect_to : Option Url → Redirector → Result Redirector
  redirect_to none r = panic
  redirect_to (some u) r = ok (with_code 302 (move_to u r))

  -- `WriteHeader`
  unfoldable pub write_code : ℕ → Redirector → Result Redirector
  unfolding has_prefix
  write_code code r =
      if not (is_redirect code)
      then ok (with_code code r)
      else if r.response.location == ""
      then ok (with_code code r)
      else redirect_to (lib.parse r.response.location) r

  unfoldable pub redirector_call : WriterCall → Redirector → Result Redirector
  unfolding write_code
  redirector_call (set_location l) r = ok (record r { response = put_location l r.response })
  redirector_call (write_header code) r = write_code code r
  redirector_call (write content) r = ok (write_to r.temp_buffer content r)

  abbrev pub redirector_calls : List WriterCall → Redirector → Result Redirector
  redirector_calls [] r = ok r
  redirector_calls (c ∷ cs) r = redirector_call c r >>= λ r'. redirector_calls cs r'

  abbrev pub plain_calls : List WriterCall → Response → Response
  plain_calls [] r = r
  plain_calls (c ∷ cs) r = plain_calls cs (plain_call c r)

  abbrev pub new_redirector : String → Response → Redirector
  new_redirector prefix response = record {
    prefix = prefix;
    from = "";
    to = "";
    temp_buffer = none;
    response = response;
  }

  -- `RedirectRewrite`, for the header with the prefix and the calls of the next handler
  unfoldable pub redirect_rewrite : String → List WriterCall → Response → Result Response
  unfolding redirector_call plain_call
  redirect_rewrite prefix calls response =
      if prefix == "" then ok (plain_calls calls response) else do
        r ← redirector_calls calls (new_redirector prefix response)
        ok (close_with r.temp_buffer r).response
