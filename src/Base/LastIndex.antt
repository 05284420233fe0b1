-- ===== src/Base/LastIndex.antt =====
-- The last occurrence of a text that another one ends with.
use Prim.Native.Nat.{ℕ, suc, ◌<◌}
use Prim.Native.String.{String}
use mathlib.Core.Path.{◌≡◌, refl}
use mathlib.Core.Bool.{true, false}
use mathlib.Core.Option.{none, some}
use text.Mathlib.TextLemmas.{nil-append, cons-append}
use native.Mathlib.Omega.{arith}
use brent.Base.Text.{◌<>◌, has_prefix, before_last}

size : String → ℕ
size String.[] = 0
size (String.◌∷◌ c s) = suc (size s)

has_prefix-short : (s t : String) → size s < size t → has_prefix s t ≡ false
unfolding size has_prefix
has_prefix-short s String.[] h = ground arith
has_prefix-short String.[] (String.◌∷◌ d t) h = refl
has_prefix-short (String.◌∷◌ c s) (String.◌∷◌ d t) h =
    ground (arith, has_prefix-short s t (omega (arith, h)))

before_last-short : (s t : String) → size s < size t → before_last s t ≡ none
unfolding before_last size
before_last-short String.[] t h = rw (has_prefix-short "" t h) refl
before_last-short (String.◌∷◌ c s) t h =
    rw (before_last-short s t (omega (arith, h)), has_prefix-short (String.◌∷◌ c s) t h) refl

has_prefix_refl : (s : String) → has_prefix s s ≡ true
unfolding has_prefix
has_prefix_refl String.[] = refl
has_prefix_refl (String.◌∷◌ c s) = ground (arith, has_prefix_refl s)

before_last_self : (s : String) → before_last s s ≡ some ""
unfolding before_last size
before_last_self String.[] = refl
before_last_self (String.◌∷◌ c s) =
    rw (before_last-short s (String.◌∷◌ c s) (omega arith), has_prefix_refl (String.◌∷◌ c s)) refl

-- What stands before the last occurrence of the ending is the rest.
pub before_last-append : (s t : String) → before_last (s <> t) t ≡ some s
unfolding before_last
before_last-append String.[] t = rw (nil-append t) (before_last_self t)
before_last-append (String.◌∷◌ c s) t = rw (cons-append c s t, before_last-append s t) refl
