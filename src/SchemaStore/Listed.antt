-- ===== src/SchemaStore/Listed.antt =====
-- What the list of schemas holds: every identifier once, and each schema with methods.
use brent.Base.{
  distinct, ℕ, zero, suc, String, ◌≡◌, refl, sym, ap, ◌∙◌, true, false, not, ◌||◌, Option, none,
  some, List, [], ◌∷◌, Dict, lookup, values, string_eq, contains, all, for_each, arith, Bool-cases,
  inl, inr, both,
}
use brent.Api.Types.{ApiSchema}
use brent.SchemaStore.{
  Listing, SubTypes, ids_of, mark, has_methods, references, visit_reference, add_schema, list_one,
  filter_schemas,
}
use brent.SchemaStore.Listings.{
  listed, marked, IsListing, Later, Later-refl, Later-trans, mark-IsListing,
  append_object-IsListing, append_object-Later, marked-mark, listed-mark, unlisted,
  listed-append_object, kept_shown, nothing_yet, nothing_yet-IsListing, nothing_marked,
}

module _ (types : SubTypes) (schemas : Dict String ApiSchema)
    (keyed : (t : String) (s : ApiSchema) → lookup t schemas ≡ some s → s.schema.id ≡ t) where
  abbrev pub Good : Listing → Listing → Type 0
  Good l k = IsListing k × Later l k

  visit_reference-Good :
      (n : ℕ) (t : String) (o : Option ApiSchema) (l : Listing)
      → lookup t schemas ≡ o
      → ((s : ApiSchema) (k : Listing)
          → marked s.schema.id k ≡ false
          → IsListing k
          → Good k (add_schema types schemas n s k))
      → IsListing l
      → Good l (visit_reference types schemas (add_schema types schemas n) t o l)
  unfolding marked
  visit_reference-Good n t none l found add h = (h, Later-refl l)
  visit_reference-Good n t (some s) l found add h = elim (Bool-cases (contains l.included t)) [
    | inl old ↦ rw old (h, Later-refl l)
    | inr new ↦ rw new (add s l (ap (contains l.included) (keyed t s found) ∙ new) h)
  ]

  visits-Good :
      (n : ℕ) (ts : List String) (l k : Listing)
      → ((s : ApiSchema) (j : Listing)
          → marked s.schema.id j ≡ false
          → IsListing j
          → Good j (add_schema types schemas n s j))
      → Good l k
      → Good l (
          for_each ts
            (λ t l'.
              visit_reference types schemas (add_schema types schemas n) t (lookup t schemas) l')
            k)
  visits-Good n [] l k add h = h
  visits-Good n (t ∷ ts) l k add h =
      let step = visit_reference-Good n t (lookup t schemas) k refl add h.0 in
      let k' = visit_reference types schemas (add_schema types schemas n) t (lookup t schemas) k in
      visits-Good n ts l k' add (step.0, Later-trans l k k' h.1 step.1)

  add_schema-Good :
      (n : ℕ) (s : ApiSchema) (l : Listing)
      → marked s.schema.id l ≡ false
      → IsListing l
      → Good l (add_schema types schemas n s l)
  unfolding add_schema
  add_schema-Good zero s l new h = (h, Later-refl l)
  add_schema-Good (suc n) s l new h =
      let start = mark s.schema.id l in
      let (good, later) =
        visits-Good n (references types s) start start (λ s' k. add_schema-Good n s' k)
          (mark-IsListing s.schema.id l h, Later-refl start) in
      let k =
        for_each (references types s)
          (λ t l'.
            visit_reference types schemas (add_schema types schemas n) t (lookup t schemas) l')
          start in
      let here = marked-mark s.schema.id l in
      (
        append_object-IsListing s k good (later.stays s.schema.id here) (
            later.same s.schema.id here ∙ listed-mark s.schema.id l ∙ unlisted s.schema.id l h new),
        append_object-Later s l k new later,
      )

  -- every schema that is marked is listed
  abbrev pub IsDone : Listing → Type 0
  IsDone l = (id : String) → marked id l ≡ true → listed id l ≡ true

  add_schema-listed :
      (n : ℕ) (s : ApiSchema) (l : Listing)
      → listed s.schema.id (add_schema types schemas (suc n) s l) ≡ true
  unfolding add_schema
  add_schema-listed n s l = listed-append_object s (
      for_each (references types s)
        (λ t l'. visit_reference types schemas (add_schema types schemas n) t (lookup t schemas) l')
        (mark s.schema.id l))

  abbrev Shown : ApiSchema → Listing → Type 0
  Shown s l = (not (has_methods s) || listed s.schema.id l) ≡ true

  list_one-Good :
      (n : ℕ) (s : ApiSchema) (l : Listing)
      → IsListing l
      → IsDone l
      → Good l (list_one types schemas n s l)
        × IsDone (list_one types schemas n s l)
        × Shown s (list_one types schemas n s l)
  unfolding marked
  list_one-Good n s l h done = elim (Bool-cases (contains l.included s.schema.id)) [
    | inl old ↦ rw old ((h, Later-refl l), done, rw (done s.schema.id old) (ground arith))
    | inr new ↦ elim (Bool-cases (has_methods s)) [
      | inr none_there ↦ rw (new, none_there) ((h, Later-refl l), done, ground arith)
      | inl some_there ↦
          let k = add_schema types schemas (suc n) s l in
          let (good, later) = add_schema-Good (suc n) s l new h in
          rw (new, some_there)
            (
              (good, later),
              λ id m. elim (Bool-cases (marked id l)) [
                | inl before ↦ later.same id before ∙ done id before
                | inr anew ↦ ap (λ b. b || listed id k) (sym anew) ∙ later.fresh id m
              ],
              add_schema-listed n s l,
            )
    ]
  ]

  pub list_all-Good :
      (n : ℕ) (ss : List ApiSchema) (l : Listing)
      → IsListing l
      → IsDone l
      → Good l (for_each ss (list_one types schemas n) l)
        × (all
              (λ s.
                not (has_methods s)
                || listed s.schema.id (for_each ss (list_one types schemas n) l))
              ss
            ≡ true)
  list_all-Good n [] l h done = ((h, Later-refl l), refl)
  list_all-Good n (s ∷ ss) l h done =
      let k = list_one types schemas n s l in
      let (step, done', shown) = list_one-Good n s l h done in
      let (rest, others) = list_all-Good n ss k step.0 done' in
      let j = for_each ss (list_one types schemas n) k in
      (
        (rest.0, Later-trans l k j step.1 rest.1),
        both (kept_shown s k j step.0 rest.1 shown) others,
      )

  -- Where each schema stands in the map under its identifier: whatever the depth that is followed,
  -- the list has every identifier at most once, and each schema of the map that has methods.
  pub filter_schemas-distinct :
      (n : ℕ)
      → (distinct (ids_of (filter_schemas types schemas n)) ≡ true)
        × (all
              (λ s.
                not (has_methods s)
                || contains (ids_of (filter_schemas types schemas n)) s.schema.id)
              (values schemas)
            ≡ true)
  unfolding filter_schemas listed
  filter_schemas-distinct n =
      let (good, shown) =
        list_all-Good n (values schemas) nothing_yet nothing_yet-IsListing
          (λ id h. cc (nothing_marked id ∙ h)) in
      (good.0.once, shown)
