-- ===== src/Base/Paths.antt =====
-- Go's `path.Clean`, `path.Join` and `path.Base`, and `strings.Split`.
use Prim.Native.Char.{Char}
use Prim.Native.Nat.{ℕ}
use Prim.Native.String.{String}
use mathlib.Core.Bool.{Bool, not, ◌||◌}
use mathlib.Core.List.{List, [], ◌∷◌}
use brent.Base.Tests.{if◌then◌else◌, ◌==◌, string_eq}
use brent.Base.Lists.{keep, for_each}
use brent.Base.Text.{◌<>◌, is_char, join, has_prefix}

abbrev slash : ℕ
slash = b'/'

abbrev cons_first : Char → List String → List String
cons_first c [] = String.◌∷◌ c "" ∷ []
cons_first c (w ∷ ws) = String.◌∷◌ c w ∷ ws

-- `strings.Split(s, sep)` for a separator of one character
unfoldable pub split : ℕ → String → List String
split sep String.[] = "" ∷ []
split sep (String.◌∷◌ c s) =
    let rest = split sep s in if is_char sep c then "" ∷ rest else cons_first c rest

-- one step up: over a root there is nothing
abbrev up : Bool → List String → List String
up rooted [] = if rooted then [] else ".." ∷ []
up rooted (w ∷ ws) = if w == ".." then ".." ∷ w ∷ ws else ws

-- one part, with the ones before it in reverse
abbrev step : Bool → String → List String → List String
step rooted w back =
    if w == "" || w == "." then back else if w == ".." then up rooted back else w ∷ back

abbrev reversed : List String → List String
reversed l = for_each l (λ w back. w ∷ back) []

abbrev or_dot : String → String
or_dot s = if s == "" then "." else s

-- `path.Clean`
unfoldable pub clean : String → String
unfolding split has_prefix join
clean s =
    let rooted = has_prefix s "/" in
    or_dot (
      (if rooted then "/" else "")
      <> join (reversed (for_each (split slash s) (step rooted) [])) "/")

-- `path.Join`
unfoldable pub join_path : List String → String
unfolding clean
join_path parts =
    let named = keep (λ p. not (p == "")) parts in
    if join named "/" == "" then "" else clean (join named "/")

-- the last part that is not empty
abbrev last_of : List String → String → String
last_of [] last = last
last_of (w ∷ ws) last = last_of ws (if w == "" then last else w)

-- `path.Base`
unfoldable pub base_path : String → String
unfolding split
base_path s =
    let last = last_of (split slash s) "" in
    if s == "" then "." else if last == "" then "/" else last
