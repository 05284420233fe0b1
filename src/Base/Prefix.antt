-- ===== src/Base/Prefix.antt =====
-- Texts with a prefix.
use Prim.Native.Char.{Char, code}
use Prim.Native.Nat.{compare, Ordering}
use Prim.Native.String.append
use Prim.Native.String.{String}
use mathlib.Core.Bool.{Bool, true, false}
use mathlib.Core.Option.{none, some}
use mathlib.Core.Logic.{inl, inr}
use mathlib.Core.Path.{◌≡◌, refl, sym, ap, ◌∙◌}
use native.Mathlib.Omega.{arith}
use text.Mathlib.TextEquality.{eq_iff, codes_equal}
use brent.Base.Tests.{if◌then◌else◌, Bool-cases, Option-cases, Bool-ext, ◌==◌, string_eq}
use brent.Base.Maps.{holds_at}
use brent.Base.Text.{◌<>◌, is_char, after_prefix}

compare_refl : (n : Prim.Native.Nat.ℕ) → compare n n ≡ Ordering.eq
compare_refl n = ground arith

is_char_refl : (c : Char) → is_char (code c) c ≡ true
is_char_refl c = rw (is_char, compare_refl (code c)) refl

is_char-equal : (c d : Char) → is_char (code d) c ≡ true → c ≡ d
is_char-equal c d h = codes_equal c d (
    elim (compare (code c) (code d))
        as (λ o. (elim o [ Ordering.eq ↦ true | _ ↦ false ]) ≡ true → o ≡ Ordering.eq) [
          | Ordering.lt ↦ λ k. cc k
          | Ordering.eq ↦ λ k. refl
          | Ordering.gt ↦ λ k. cc k
        ]
      h)

after_prefix-append : (t r : String) → after_prefix (t <> r) t ≡ some r
unfolding after_prefix
after_prefix-append String.[] r = ap some (append.nil r)
after_prefix-append (String.◌∷◌ c t) r =
    rw (append.cons c t r, is_char_refl c) (after_prefix-append t r)

after_prefix-some : (s t r : String) → after_prefix s t ≡ some r → s ≡ t <> r
unfolding after_prefix
after_prefix-some s String.[] r h = cc h ∙ sym (append.nil r)
after_prefix-some String.[] (String.◌∷◌ d t) r h = cc h
after_prefix-some (String.◌∷◌ c s) (String.◌∷◌ d t) r h = elim (Bool-cases (is_char (code d) c)) [
  | inl same ↦
      let rest : after_prefix s t ≡ some r =
        ap (λ b. if b then after_prefix s t else none) (sym same) ∙ h in
      rw (is_char-equal c d same, after_prefix-some s t r rest) (sym (append.cons d t r))
  | inr other ↦ cc (ap (λ b. if b then after_prefix s t else none) (sym other) ∙ h)
]

abbrev held_as : String → String → Bool
held_as k r = r == k

-- a text is the prefix followed by `k` exactly when `k` is what follows the prefix
pub equal-after_prefix :
    (t s k : String) → (s == t <> k) ≡ holds_at (λ r. r == k) (after_prefix s t)
equal-after_prefix t s k =
    Bool-ext (s == t <> k) (holds_at (held_as k) (after_prefix s t))
      (λ same.
        ap (holds_at (held_as k))
          (ap (λ w. after_prefix w t) ((eq_iff s (t <> k)).0 same) ∙ after_prefix-append t k)
        ∙ (eq_iff k k).1 refl)
      (λ h. elim (Option-cases (after_prefix s t)) [
        | inl none_there ↦ cc (ap (holds_at (held_as k)) (sym none_there) ∙ h)
        | inr (r, there) ↦
            let same : (r == k) ≡ true = ap (holds_at (held_as k)) (sym there) ∙ h in
            (eq_iff s (t <> k)).1
              (after_prefix-some s t r there ∙ ap (λ w. t <> w) ((eq_iff r k).0 same))
      ])
