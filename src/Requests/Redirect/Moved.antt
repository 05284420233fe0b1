-- ===== src/Requests/Redirect/Moved.antt =====
-- What a client gets of a response whose location was moved under the prefix.
use brent.Base.{
  ℕ, String, ◌≡◌, refl, sym, ap, ◌∙◌, true, false, some, List, [], ◌∷◌, ◌++◌, ◌==◌, string_eq,
  eq_iff, Bool-cases, inl, inr, has_prefix, ◌<>◌,
}
use text.Mathlib.TextLemmas.{append-eq-nil_iff}
use brent.Api.Errors.{ok, ◌>>=◌}
use brent.Requests.Redirect.{
  UrlLib, Response, WriterCall, set_location, write_header, write, Redirector, replace, close_with,
  is_redirect, write_code, redirector_call, redirector_calls, redirect_rewrite,
}

-- the calls that write these parts of a body
abbrev pub writes : List String → List WriterCall
writes [] = []
writes (w ∷ ws) = write w ∷ writes ws

-- the parts behind a body
abbrev pub all_written : String → List String → String
all_written body [] = body
all_written body (w ∷ ws) = all_written (body <> w) ws

not_empty : (s t : String) → (t == "") ≡ false → (s <> t == "") ≡ false
not_empty s t h = elim (Bool-cases (s <> t == "")) [
  | inl empty ↦ cc (sym h ∙ (eq_iff t "").1 (append-eq-nil_iff.0 ((eq_iff (s <> t) "").0 empty)).1)
  | inr full ↦ full
]

module _ (lib : UrlLib) where
  writes-buffered :
      (ws : List String) (buffer : String) (r : Redirector)
      → redirector_calls lib (writes ws) (record r { temp_buffer = some buffer })
        ≡ ok (record r { temp_buffer = some (all_written buffer ws) })
  unfolding redirector_call
  writes-buffered [] buffer r = refl
  writes-buffered (w ∷ ws) buffer r = writes-buffered ws (buffer <> w) r

  -- When the next handler sets a location whose path is not under the prefix, and not empty, redirects
  -- with the code 301 or 302 and writes a body in parts, the client gets the location with the prefix
  -- before its path, the code 302, and the body with each occurrence of the path replaced by the
  -- path under the prefix.
  pub redirect_rewrite-moved :
      (prefix l : String) (code : ℕ) (ws : List String) (response : Response) (u : lib.Url)
      → (prefix == "") ≡ false
      → (l == "") ≡ false
      → is_redirect code ≡ true
      → lib.parse l ≡ some u
      → has_prefix (lib.path_of u) prefix ≡ false
      → (lib.path_of u == "") ≡ false
      → redirect_rewrite lib prefix (set_location l ∷ write_header code ∷ writes ws) response
        ≡ ok (record {
          location = lib.print (lib.with_path (prefix <> lib.path_of u) u);
          codes = response.codes ++ 302 ∷ [];
          body =
              response.body
              <> replace (all_written "" ws) (lib.path_of u) (prefix <> lib.path_of u);
        })
  unfolding redirect_rewrite redirector_call write_code
  redirect_rewrite-moved prefix l code ws response u named full moved parsed outside path =
      let moved_writer : Redirector = record {
        prefix = prefix;
        from = lib.path_of u;
        to = prefix <> lib.path_of u;
        temp_buffer = some "";
        response = record {
          location = lib.print (lib.with_path (prefix <> lib.path_of u) u);
          codes = response.codes ++ 302 ∷ [];
          body = response.body;
        };
      } in
      rw (named, moved, full, parsed, outside)
        (ap (λ q. q >>= λ r. ok (close_with r.temp_buffer r).response)
            (writes-buffered ws "" moved_writer)
          ∙ rw (path, not_empty prefix (lib.path_of u) path) refl)
