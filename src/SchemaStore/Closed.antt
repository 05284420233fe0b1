-- ===== src/SchemaStore/Closed.antt =====
-- The list of schemas holds what its schemas refer to, where the depth that is followed is at least
-- the number of schemas.
use brent.Base.{
  ℕ, zero, suc, ◌≤◌, String, ◌≡◌, refl, sym, ap, ◌∙◌, Bool, true, false, not, ◌||◌, Option, none,
  some, List, [], ◌∷◌, Dict, lookup, keys, values, string_eq, eq_iff, contains, all, contains-keys,
  for_each, is_some, arith, Bool-cases, inl, inr, both, length,
}
use brent.Api.Types.{ApiSchema}
use brent.SchemaStore.{
  Listing, SubTypes, to_schema_object, ids_of, mark, has_methods, references, visit_reference,
  add_schema, list_one, filter_schemas,
}
use brent.SchemaStore.Listed.{list_all-Good}
use brent.SchemaStore.Listings.{listed, marked, nothing_yet, nothing_yet-IsListing, nothing_marked}
use brent.SchemaStore.Unmarked.{
  has, unmarked, Grows, unmarked-Grows, mark-Grows, unmarked-mark, unmarked-length, all-weaken,
  all-append_one,
}

module _ (types : SubTypes) (schemas : Dict String ApiSchema)
    (keyed : (t : String) (s : ApiSchema) → lookup t schemas ≡ some s → s.schema.id ≡ t) where
  -- a type that is a schema passes this test
  abbrev pub known_in : (String → Bool) → String → Bool
  known_in held t = not (is_some (lookup t schemas)) || held t

  -- all that the listed schemas refer to is marked
  abbrev IsClosed : Listing → Type 0
  IsClosed l = all (λ o. all (known_in (has l)) (references types o)) l.objects ≡ true

  known_one :
      (p q : String → Bool)
      → ((t : String) → p t ≡ true → q t ≡ true)
      → (t : String) → known_in p t ≡ true
      → known_in q t ≡ true
  known_one p q f t h = ground (arith, h, f t)

  known_in-weaken :
      (p q : String → Bool)
      → ((t : String) → p t ≡ true → q t ≡ true)
      → (ts : List String) → all (known_in p) ts ≡ true
      → all (known_in q) ts ≡ true
  known_in-weaken p q f ts = all-weaken (known_in p) (known_in q) ts (known_one p q f)

  closed-Grows :
      (l k : Listing) (objects : List ApiSchema)
      → Grows l k
      → all (λ o. all (known_in (has l)) (references types o)) objects ≡ true
      → all (λ o. all (known_in (has k)) (references types o)) objects ≡ true
  closed-Grows l k objects g =
      all-weaken (λ o. all (known_in (has l)) (references types o))
        (λ o. all (known_in (has k)) (references types o)) objects
        (λ o. known_in-weaken (has l) (has k) g (references types o))

  -- what a step from one state to another brings
  abbrev Step : Listing → Listing → Type 0
  Step l k = Grows l k × IsClosed k

  -- schemas are added with fuel for what is not marked
  abbrev Adds : ℕ → Type 0
  Adds n =
      (s : ApiSchema) (l : Listing)
      → lookup s.schema.id schemas ≡ some s
      → has l s.schema.id ≡ false
      → unmarked (keys schemas) l ≤ n
      → IsClosed l
      → Step l (add_schema types schemas n s l)
        × (has (add_schema types schemas n s l) s.schema.id ≡ true)

  known_held : (held : String → Bool) (t : String) → held t ≡ true → known_in held t ≡ true
  known_held held t h = ground (arith, h)

  visit_one :
      (n : ℕ) (t : String) (o : Option ApiSchema) (l : Listing)
      → Adds n
      → lookup t schemas ≡ o
      → unmarked (keys schemas) l ≤ n
      → IsClosed l
      → Step l (visit_reference types schemas (add_schema types schemas n) t o l)
        × (known_in (has (visit_reference types schemas (add_schema types schemas n) t o l)) t
            ≡ true)
  visit_one n t none l adds found room closed = ((λ id h. h, closed), rw found refl)
  visit_one n t (some s) l adds found room closed = elim (Bool-cases (has l t)) [
    | inl old ↦ rw old ((λ id h. h, closed), known_held (has l) t old)
    | inr new ↦
        let here = keyed t s found in
        let k = add_schema types schemas n s l in
        let (step, added) =
          adds s l (ap (λ w. lookup w schemas) here ∙ found) (ap (has l) here ∙ new) room closed in
        rw new (step, known_held (has k) t (ap (has k) (sym here) ∙ added))
  ]

  visit_all :
      (n : ℕ) (ts : List String) (l : Listing)
      → Adds n
      → unmarked (keys schemas) l ≤ n
      → IsClosed l
      → Step l (
          for_each ts
            (λ t k.
              visit_reference types schemas (add_schema types schemas n) t (lookup t schemas) k)
            l)
        × (all
              (known_in (
                has (
                  for_each ts
                    (λ t k.
                      visit_reference types schemas
                        (add_schema types schemas n)
                        t
                        (lookup t schemas)
                        k)
                    l)))
              ts
            ≡ true)
  visit_all n [] l adds room closed = ((λ id h. h, closed), refl)
  visit_all n (t ∷ ts) l adds room closed =
      let k = visit_reference types schemas (add_schema types schemas n) t (lookup t schemas) l in
      let (step, here) = visit_one n t (lookup t schemas) l adds refl room closed in
      let fewer = unmarked-Grows (keys schemas) l k step.0 in
      let (later, others) = visit_all n ts k adds (omega (arith, fewer, room)) step.1 in
      let end =
        for_each ts
          (λ t' k'.
            visit_reference types schemas (add_schema types schemas n) t' (lookup t' schemas) k')
          k in
      (
        (λ id h. later.0 id (step.0 id h), later.1),
        both (known_one (has k) (has end) later.0 t here) others,
      )

  -- what a schema refers to does not depend on its grants
  references-to_schema_object :
      (s : ApiSchema) → references types (to_schema_object s) ≡ references types s
  unfolding references to_schema_object
  references-to_schema_object s = refl

  add_schema-Adds : (n : ℕ) → Adds n
  unfolding add_schema
  add_schema-Adds zero s l found new room closed =
      let key : contains (keys schemas) s.schema.id ≡ true =
        contains-keys s.schema.id schemas ∙ ap is_some found in
      absurd (omega (arith, room, unmarked-mark (keys schemas) s.schema.id l key new))
  add_schema-Adds (suc n) s l found new room closed =
      let key : contains (keys schemas) s.schema.id ≡ true =
        contains-keys s.schema.id schemas ∙ ap is_some found in
      let start = mark s.schema.id l in
      let fewer = unmarked-mark (keys schemas) s.schema.id l key new in
      let (later, all_known) =
        visit_all n (references types s) start (add_schema-Adds n) (omega (arith, fewer, room))
          (closed-Grows l start l.objects (mark-Grows s.schema.id l) closed) in
      let k =
        for_each (references types s)
          (λ t k'.
            visit_reference types schemas (add_schema types schemas n) t (lookup t schemas) k')
          start in
      (
        (
          λ id h. later.0 id (mark-Grows s.schema.id l id h),
          all-append_one (λ o. all (known_in (has k)) (references types o)) k.objects
                (to_schema_object s)
              ∙ both later.1
                  (ap (all (known_in (has k))) (references-to_schema_object s) ∙ all_known),
        ),
        later.0 s.schema.id (ground (arith, eq_iff s.schema.id s.schema.id)),
      )

  -- these schemas are found under their identifiers
  abbrev pub Stand : List ApiSchema → Type 0
  Stand [] = Unit
  Stand (s ∷ ss) = (lookup s.schema.id schemas ≡ some s) × Stand ss

  list_one-IsClosed :
      (n : ℕ) (s : ApiSchema) (l : Listing)
      → lookup s.schema.id schemas ≡ some s
      → length (keys schemas) ≤ suc n
      → IsClosed l
      → IsClosed (list_one types schemas n s l)
  list_one-IsClosed n s l found enough closed =
      let room = unmarked-length (keys schemas) l in
      elim (Bool-cases (has l s.schema.id)) [
        | inl old ↦ rw old closed
        | inr new ↦ elim (Bool-cases (has_methods s)) [
          | inr none_there ↦ rw (new, none_there) closed
          | inl some_there ↦
              rw (new, some_there)
                (add_schema-Adds (suc n) s l found new (omega (arith, room, enough)) closed).0.1
        ]
      ]

  list_all-IsClosed :
      (n : ℕ) (ss : List ApiSchema) (l : Listing)
      → Stand ss
      → length (keys schemas) ≤ suc n
      → IsClosed l
      → IsClosed (for_each ss (list_one types schemas n) l)
  list_all-IsClosed n [] l found enough closed = closed
  list_all-IsClosed n (s ∷ ss) l found enough closed =
      list_all-IsClosed n ss (list_one types schemas n s l) found.1 enough
        (list_one-IsClosed n s l found.0 enough closed)

  -- Where each schema stands in the map under its identifier and the depth that is followed is at
  -- least one less than the number of schemas: each type that a listed schema refers to by a field or an
  -- action is listed, if it is a schema of the map.
  pub filter_schemas-closed :
      (n : ℕ)
      → Stand (values schemas)
      → length (keys schemas) ≤ suc n
      → all
          (λ o.
            all
              (known_in (λ t. contains (ids_of (filter_schemas types schemas n)) t))
              (references types o))
          (filter_schemas types schemas n)
        ≡ true
  unfolding filter_schemas listed marked
  filter_schemas-closed n found enough =
      let end = for_each (values schemas) (list_one types schemas n) nothing_yet in
      let later =
        (list_all-Good types schemas keyed n (values schemas) nothing_yet nothing_yet-IsListing
          (λ id h. cc (nothing_marked id ∙ h))).0.1 in
      all-weaken (λ o. all (known_in (has end)) (references types o))
        (λ o. all (known_in (λ t. contains (ids_of end.objects) t)) (references types o))
        end.objects
        (λ o.
          known_in-weaken (has end) (λ t. contains (ids_of end.objects) t) (λ t h. later.fresh t h)
            (references types o))
        (list_all-IsClosed n (values schemas) nothing_yet found enough refl)
