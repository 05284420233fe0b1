-- ===== src/Discovery/Refresh/Kept.antt =====
-- Which types a refresh keeps.
use brent.Base.{
  String, ◌≡◌, refl, ap, ◌∙◌, Bool, true, false, not, ◌&&◌, ◌||◌, List, [], ◌∷◌, map, Dict, lookup,
  lookup-insert, values, ◌==◌, string_eq, eq_iff, any, is_some, arith, Bool-cases, inl, inr,
  if◌then◌else◌,
}
use brent.Api.Errors.{Result, ok, err, panic, ◌>>=◌, Gives, Gives->>=, Gives-ok, Gives-weaken}
use brent.Api.Types.{ApiSchema, Handler}
use brent.Api.Attributes.{Convert, GroupVersionResource, gvr}
use brent.Collections.State.{Collection, reset, with_templates}
use brent.Discovery.Refresh.{
  Review, TableAnswer, review_allows, is_list_watchable, preferred_type_exists, is_allowed, keeps,
  keep_if, renamed, filter_schemas, get_all_columns, refresh_all, is_list_or_getable, with_columns,
}

abbrev holds_ok : Result Review → Bool
holds_ok (ok r) = review_allows r
holds_ok (err e) = false
holds_ok panic = false

abbrev is_true : Result Bool → Bool
is_true (ok b) = b
is_true (err e) = false
is_true panic = false

-- Entries that are changed at their keys stay where they were.
is_some-lookup-map {ℓ κ} :
    {V : Type ℓ} {W : Type κ} (f : String × V → String × W)
    → ((e : String × V) → (f e).0 ≡ e.0)
    → (k : String) (m : Dict String V) → is_some (lookup k (map f m)) ≡ is_some (lookup k m)
is_some-lookup-map f same k [] = refl
is_some-lookup-map f same k (e ∷ m) =
    ground (arith, same e, is_some-lookup-map f same k m, eq_iff e.0 k, eq_iff (f e).0 k)

module _ ⦃conv : Convert⦄ (review : GroupVersionResource → Result Review)
    (ask_table : GroupVersionResource → TableAnswer) where
  -- A type that can be listed and watched is kept if no preferred type of it exists and the review
  -- of its list allows it; any other type is kept.
  abbrev pub passes : Dict String ApiSchema → ApiSchema → Bool
  passes schemas s =
      not (is_list_watchable s)
      || (not (preferred_type_exists s schemas) && holds_ok (review (gvr s)))

  abbrev pub kept_as : Dict String ApiSchema → String → ApiSchema → Bool
  kept_as schemas id s = (renamed s).schema.id == id && passes schemas s

  is_true-is_allowed :
      (s : ApiSchema) → is_true (is_allowed review ask_table s) ≡ holds_ok (review (gvr s))
  unfolding is_allowed
  is_true-is_allowed s = go (review (gvr s))
    where
      go : (r : Result Review) → is_true (r >>= λ v. ok (review_allows v)) ≡ holds_ok r
      go (ok v) = refl
      go (err e) = refl
      go panic = refl

  is_true-keeps :
      (schemas : Dict String ApiSchema) (s : ApiSchema)
      → is_true (keeps review ask_table schemas s) ≡ passes schemas s
  unfolding keeps
  is_true-keeps schemas s = elim (Bool-cases (is_list_watchable s)) [
    | inr plain ↦ rw plain refl
    | inl watchable ↦ elim (Bool-cases (preferred_type_exists s schemas)) [
      | inl preferred ↦ rw (watchable, preferred) refl
      | inr only ↦ rw (watchable, only) (is_true-is_allowed s)
    ]
  ]

  keep_if-lookup :
      (k : Bool) (s : ApiSchema) (kept : Dict String ApiSchema) (id : String)
      → is_some (lookup id (keep_if review ask_table k s kept))
        ≡ (((renamed s).schema.id == id && k) || is_some (lookup id kept))
  keep_if-lookup false s kept id = ground arith
  keep_if-lookup true s kept id =
      ground (arith, lookup-insert (renamed s).schema.id id (renamed s) kept)

  module _ (schemas : Dict String ApiSchema) (id : String) where
    abbrev Kept : List ApiSchema → Dict String ApiSchema → Dict String ApiSchema → Type 0
    Kept rest kept result =
        is_some (lookup id result) ≡ (any (kept_as schemas id) rest || is_some (lookup id kept))

    filter_schemas-Kept :
        (rest : List ApiSchema) (kept : Dict String ApiSchema)
        → Gives (Kept rest kept) (filter_schemas review ask_table schemas rest kept)
    unfolding filter_schemas
    filter_schemas-Kept [] kept = refl
    filter_schemas-Kept (s ∷ rest) kept =
        Gives->>= (Kept (s ∷ rest) kept) (keeps review ask_table schemas s) _ λ k decided.
          Gives-weaken (Kept rest (keep_if review ask_table k s kept)) (Kept (s ∷ rest) kept)
            (filter_schemas review ask_table schemas rest (keep_if review ask_table k s kept))
            (λ result h.
              ground
                (arith, h, keep_if-lookup k s kept id, ap is_true decided, is_true-keeps schemas s))
            (filter_schemas-Kept rest (keep_if review ask_table k s kept))

  -- After a refresh that succeeds, the collection has a schema under an identifier exactly when some
  -- discovered type is kept under it: one that cannot be both listed and watched, or one of which no
  -- preferred type exists and whose list the review allows.
  pub refresh_all-Kept :
      (starts : Handler → Bool) (schemas : Dict String ApiSchema) (c d : Collection) (id : String)
      → refresh_all review ask_table starts (ok schemas) c ≡ ok d
      → is_some (lookup id d.schemas) ≡ any (kept_as schemas id) (values schemas)
  unfolding refresh_all reset get_all_columns
  refresh_all-Kept starts schemas c d id h =
      Gives-ok (λ d. is_some (lookup id d.schemas) ≡ any (kept_as schemas id) (values schemas))
        (refresh_all review ask_table starts (ok schemas) c) d
        (Gives->>= (λ d. is_some (lookup id d.schemas) ≡ any (kept_as schemas id) (values schemas))
          (filter_schemas review ask_table schemas (values schemas) []) _
          λ kept filtered.
            is_some-lookup-map (with_templates c.templates) (λ e. refl) id
              (get_all_columns review ask_table kept)
            ∙ is_some-lookup-map
                (λ e.
                  (e.0, if is_list_or_getable e.1 then with_columns review ask_table e.1 else e.1))
                (λ e. refl) id kept
            ∙ Gives-ok (Kept schemas id (values schemas) [])
                (filter_schemas review ask_table schemas (values schemas) []) kept
                (filter_schemas-Kept schemas id (values schemas) []) filtered
            ∙ ground arith)
        h
