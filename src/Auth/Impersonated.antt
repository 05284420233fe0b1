-- ===== src/Auth/Impersonated.antt =====
-- What an impersonated user is made of.
use brent.Base.{
  String, ◌≡◌, refl, sym, ap, ◌∙◌, true, false, Option, none, some, List, [], ◌∷◌, Dict, lookup,
  string_eq, lookup-insert, DistinctKeys, ◌==◌, ◌<>◌, after_prefix, equal-after_prefix,
  if◌then◌else◌, Bool-cases, eq_iff, inl, inr, holds_at,
}
use brent.Auth.{
  User, Incoming, get_header, or_no_values, put_extra, extra_of, extra_prefix, impersonation,
}

abbrev or_before : {A : Type 0} → Option A → Option A → Option A
or_before (some v) o = some v
or_before none o = o

lookup-put_extra :
    (o : Option String) (v : List String) (k : String) (m : Dict String (List String))
    → lookup k (put_extra o v m) ≡ (if holds_at (λ r. r == k) o then some v else lookup k m)
lookup-put_extra none v k m = refl
lookup-put_extra (some r) v k m = lookup-insert r k v m

lookup-extra_of :
    (k : String) (header m : Dict String (List String))
    → DistinctKeys header
    → lookup k (extra_of header m) ≡ or_before (lookup (extra_prefix <> k) header) (lookup k m)
lookup-extra_of k [] m h = refl
lookup-extra_of k ((j, v) ∷ header) m h =
    let put = lookup-put_extra (after_prefix j extra_prefix) v k m in
    let next = lookup-extra_of k header (put_extra (after_prefix j extra_prefix) v m) h.1 in
    let held : lookup k (put_extra (after_prefix j extra_prefix) v m)
        ≡ (if j == extra_prefix <> k then some v else lookup k m) =
      put
      ∙ ap (λ b. if b then some v else lookup k m) (sym (equal-after_prefix extra_prefix j k)) in
    elim (Bool-cases (j == extra_prefix <> k)) [
      | inl here ↦
          let absent : lookup (extra_prefix <> k) header ≡ none =
            ap (λ w. lookup w header) (sym ((eq_iff j (extra_prefix <> k)).0 here)) ∙ h.0 in
          next
          ∙ ap (λ o. or_before o (lookup k (put_extra (after_prefix j extra_prefix) v m))) absent
          ∙ held
          ∙ rw here refl
      | inr other ↦ next ∙ ap (or_before (lookup (extra_prefix <> k) header)) held ∙ rw other refl
    ]

or_before-none : {A : Type 0} (o : Option A) → or_before o none ≡ o
or_before-none none = refl
or_before-none (some v) = refl

-- Where the names of the headers are distinct and Impersonate-User is not empty, the request is
-- served as the user of this name, with the groups of Impersonate-Group, whose extra values under a
-- key are those of the header with this key after the prefix.
pub extra-impersonation :
    (req : Incoming)
    → DistinctKeys req.header
    → (get_header "Impersonate-User" req == "") ≡ false
    → (u : User) × ((impersonation req).user ≡ some u)
      × ((impersonation req).authenticated ≡ true)
      × (u.name ≡ get_header "Impersonate-User" req)
      × (u.groups ≡ or_no_values (lookup "Impersonate-Group" req.header))
      × ((k : String) → lookup k u.extra ≡ lookup (extra_prefix <> k) req.header)
unfolding impersonation
extra-impersonation req h named = rw named (
  _,
  refl,
  refl,
  refl,
  refl,
  λ k. lookup-extra_of k req.header [] h ∙ or_before-none (lookup (extra_prefix <> k) req.header),
)
