-- ===== src/Base/Text.antt =====
-- What the program uses of Go's `strings`, on whole texts. `strings.ToLower` is modelled on ASCII,
-- which is what header values, verbs and schema identifiers are made of.
use Prim.Native.Char.{Char, code}
use Prim.Native.Nat.{ℕ, compare, Ordering}
use Prim.Native.String
use Prim.Native.String.{String}
use mathlib.Core.Bool.{Bool, true, false, ◌&&◌, ◌||◌}
use mathlib.Core.List.{List, [], ◌∷◌}
use mathlib.Core.Option.{Option, none, some}
use brent.Base.Tests.{if◌then◌else◌}

infixr 65 ◌<>◌
-- `+` on strings
abbrev pub ◌<>◌ : String → String → String
s <> t = String.◌++◌ s t

abbrev pub is_char : ℕ → Char → Bool
is_char n c = elim (compare (code c) n) [ Ordering.eq ↦ true | _ ↦ false ]

abbrev pub cons_before : Char → String × String × Bool → String × String × Bool
cons_before c (before, after, found) = (String.◌∷◌ c before, after, found)

-- `strings.Cut(s, sep)` for a separator of one character
unfoldable pub cut : ℕ → String → String × String × Bool
cut sep String.[] = ("", "", false)
cut sep (String.◌∷◌ c s) =
    let rest = cons_before c (cut sep s) in if is_char sep c then ("", s, true) else rest

-- `strings.HasPrefix(s, t)`
unfoldable pub has_prefix : String → String → Bool
has_prefix s String.[] = true
has_prefix String.[] (String.◌∷◌ d t) = false
has_prefix (String.◌∷◌ c s) (String.◌∷◌ d t) = is_char (code d) c && has_prefix s t

-- `strings.HasPrefix(s, t)` and `strings.TrimPrefix(s, t)` in one: what follows the prefix, if it is there
unfoldable pub after_prefix : String → String → Option String
after_prefix s String.[] = some s
after_prefix String.[] (String.◌∷◌ d t) = none
after_prefix (String.◌∷◌ c s) (String.◌∷◌ d t) =
    let rest = after_prefix s t in if is_char (code d) c then rest else none

-- `strings.Contains(s, t)`
unfoldable pub contains_text : String → String → Bool
unfolding has_prefix
contains_text String.[] t = has_prefix "" t
contains_text (String.◌∷◌ c s) t = has_prefix (String.◌∷◌ c s) t || contains_text s t

abbrev pub empty_if : Bool → Option String
empty_if true = some ""
empty_if false = none

abbrev pub or_here : Char → Bool → Option String → Option String
or_here c here (some before) = some (String.◌∷◌ c before)
or_here c here none = empty_if here

-- `s[:i]` for `i = strings.LastIndex(s, t)`, and `none` where that is -1
unfoldable pub before_last : String → String → Option String
unfolding has_prefix
before_last String.[] t = empty_if (has_prefix "" t)
before_last (String.◌∷◌ c s) t = or_here c (has_prefix (String.◌∷◌ c s) t) (before_last s t)

-- `strings.HasSuffix(s, t)` for a suffix of one character
unfoldable pub ends_with_char : ℕ → String → Bool
ends_with_char n String.[] = false
ends_with_char n (String.◌∷◌ c String.[]) = is_char n c
ends_with_char n (String.◌∷◌ c (String.◌∷◌ d s)) = ends_with_char n (String.◌∷◌ d s)

abbrev letters : List (ℕ × Char)
letters =
    (b'A', "a")
    ∷ (b'B', "b")
    ∷ (b'C', "c")
    ∷ (b'D', "d")
    ∷ (b'E', "e")
    ∷ (b'F', "f")
    ∷ (b'G', "g")
    ∷ (b'H', "h")
    ∷ (b'I', "i")
    ∷ (b'J', "j")
    ∷ (b'K', "k")
    ∷ (b'L', "l")
    ∷ (b'M', "m")
    ∷ (b'N', "n")
    ∷ (b'O', "o")
    ∷ (b'P', "p")
    ∷ (b'Q', "q")
    ∷ (b'R', "r")
    ∷ (b'S', "s")
    ∷ (b'T', "t")
    ∷ (b'U', "u")
    ∷ (b'V', "v")
    ∷ (b'W', "w")
    ∷ (b'X', "x")
    ∷ (b'Y', "y")
    ∷ (b'Z', "z")
    ∷ []

lower_from : List (ℕ × Char) → Char → Char
lower_from [] c = c
lower_from ((n, d) ∷ l) c = if is_char n c then d else lower_from l c

-- `strings.ToLower`, on ASCII letters
unfoldable pub to_lower : String → String
unfolding lower_from
to_lower String.[] = ""
to_lower (String.◌∷◌ c s) = String.◌∷◌ (lower_from letters c) (to_lower s)

-- `strings.Join(parts, sep)`
unfoldable pub join : List String → String → String
join [] sep = ""
join (x ∷ []) sep = x
join (x ∷ y ∷ xs) sep = x <> (sep <> join (y ∷ xs) sep)

abbrev pub is_space : Char → Bool
is_space c = is_char b' ' c || (is_char 9 c || (is_char 10 c || is_char 13 c))

trim_left : String → String
trim_left String.[] = ""
trim_left (String.◌∷◌ c s) = let rest = trim_left s in if is_space c then rest else String.◌∷◌ c s

abbrev pub drop_space : Char → String → String
drop_space c String.[] = if is_space c then "" else String.◌∷◌ c ""
drop_space c (String.◌∷◌ d s) = String.◌∷◌ c (String.◌∷◌ d s)

trim_right : String → String
trim_right String.[] = ""
trim_right (String.◌∷◌ c s) = drop_space c (trim_right s)

-- `strings.TrimSpace`, on ASCII white space
unfoldable pub trim_space : String → String
unfolding trim_left trim_right
trim_space s = trim_right (trim_left s)
