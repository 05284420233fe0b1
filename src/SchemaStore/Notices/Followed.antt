-- ===== src/SchemaStore/Notices/Followed.antt =====
-- A client that follows the events knows the new schemas.
use brent.Base.{
  distinct, ℕ, String, ◌≡◌, refl, sym, ap, ◌∙◌, Bool, true, false, not, ◌&&◌, ◌||◌, Option, none,
  some, List, [], ◌∷◌, ◌++◌, Dict, lookup, insert, remove, lookup-insert, lookup-remove, ◌==◌,
  string_eq, eq_iff, if◌then◌else◌, contains, for_each, is_some, arith, Bool-cases, Option-cases,
  inl, inr,
}
use brent.Api.Errors.{ok}
use brent.Api.Types.{ApiSchema, Schema}
use brent.Api.Schemas.{Schemer, ApiSchemas, lookup_schema}
use brent.SchemaStore.{SubTypes, ids_of, filter_schemas}
use brent.SchemaStore.Listed.{filter_schemas-distinct}
use brent.SchemaStore.Notices.{
  Notice, as_list, follow, find_schema, notice_against, notice_of, new_notices, old_notices,
  notices, send_schemas,
}

unfoldable pub follow_all : List Notice → Dict String ApiSchema → Dict String ApiSchema
follow_all l m = for_each l follow m

follow_all-append :
    (k l : List Notice) (m : Dict String ApiSchema)
    → follow_all (k ++ l) m ≡ follow_all l (follow_all k m)
unfolding follow_all
follow_all-append [] l m = refl
follow_all-append (n ∷ k) l m = follow_all-append k l (follow n m)

find_schema-none :
    (id : String) (l : List ApiSchema) → contains (ids_of l) id ≡ false → find_schema id l ≡ none
find_schema-none id [] h = refl
find_schema-none id (s ∷ l) h = ground (arith, h, find_schema-none id l)

-- a key that no schema has is left as it was
lookup-known_from :
    (id : String) (l : List ApiSchema) (m : Dict String ApiSchema)
    → contains (ids_of l) id ≡ false
    → lookup id (for_each l (λ s m. insert s.schema.id s m) m) ≡ lookup id m
lookup-known_from id [] m h = refl
lookup-known_from id (s ∷ l) m h =
    lookup-known_from id l (insert s.schema.id s m) (ground (arith, h))
    ∙ lookup-insert s.schema.id id s m
    ∙ ground (arith, h)

module _ (lib : Schemer) (equal : Schema → Schema → Bool) where
  lookup-removed :
      (ids : List String) (id : String) (l : List ApiSchema) (m : Dict String ApiSchema)
      → lookup id (follow_all (old_notices lib equal ids l) m)
        ≡ (if contains (ids_of l) id && not (contains ids id) then none else lookup id m)
  unfolding follow_all follow
  lookup-removed ids id [] m = refl
  lookup-removed ids id (s ∷ l) m = elim (Bool-cases (contains ids s.schema.id)) [
    | inl kept ↦ rw kept (lookup-removed ids id l m ∙ ground (arith, kept, eq_iff s.schema.id id))
    | inr gone ↦ rw gone (
        lookup-removed ids id l (remove s.schema.id m)
        ∙ ground (arith, gone, lookup-remove s.schema.id id m, eq_iff s.schema.id id))
  ]

  -- the value that a client has after the events of the new schemas
  abbrev pub told : ApiSchemas lib → Option ApiSchema → Option ApiSchema → Option ApiSchema
  told old none before = before
  told old (some s) before = if is_some (notice_of lib equal old s) then some s else before

  -- one event of a new schema writes that schema
  lookup-told :
      (s : ApiSchema) (o : Option ApiSchema) (id : String) (m : Dict String ApiSchema)
      → lookup id (follow_all (as_list (notice_against lib equal s o)) m) ≡ (
          if is_some (notice_against lib equal s o) && s.schema.id == id
          then some s
          else lookup id m)
  unfolding follow_all follow
  lookup-told s none id m = lookup-insert s.schema.id id s m
  lookup-told s (some o) id m = elim (Bool-cases (equal s.schema o.schema)) [
    | inl same ↦ rw same refl
    | inr new ↦ rw new (lookup-insert s.schema.id id s m)
  ]

  lookup-new :
      (old : ApiSchemas lib) (id : String) (l : List ApiSchema) (m : Dict String ApiSchema)
      → distinct (ids_of l) ≡ true
      → lookup id (follow_all (new_notices lib equal old l) m)
        ≡ told old (find_schema id l) (lookup id m)
  unfolding follow_all follow notice_of
  lookup-new old id [] m h = refl
  lookup-new old id (s ∷ l) m h =
      let o = lookup_schema lib s.schema.id old in
      let first = as_list (notice_against lib equal s o) in
      let m' = follow_all first m in
      let step : lookup id (follow_all (new_notices lib equal old (s ∷ l)) m)
          ≡ told old (find_schema id l) (lookup id m') =
        ap (lookup id) (follow_all-append first (new_notices lib equal old l) m)
        ∙ lookup-new old id l m' (ground (arith, h)) in
      let one = lookup-told s o id m in
      elim (Bool-cases (s.schema.id == id)) [
        | inl here ↦
            let absent : contains (ids_of l) id ≡ false =
              ground (arith, h, eq_iff s.schema.id id, here) in
            step
            ∙ ap (λ f. told old f (lookup id m')) (find_schema-none id l absent)
            ∙ one
            ∙ rw here (ground arith)
        | inr other ↦
            step
            ∙ ap (told old (find_schema id l)) one
            ∙ rw other (ap (told old (find_schema id l)) (ground arith))
      ]

  -- what a client knows of an identifier after the events: nothing where the schema is not listed
  abbrev pub agreed : ApiSchemas lib → Option ApiSchema → Option ApiSchema → Option ApiSchema
  agreed old none before = none
  agreed old (some s) before = told old (some s) before

  -- a client that knows nothing but what the old list has
  abbrev pub IsWithin : Dict String ApiSchema → List ApiSchema → Type 0
  IsWithin m l = (id : String) → (not (is_some (lookup id m)) || contains (ids_of l) id) ≡ true

  find_schema-some :
      (id : String) (l : List ApiSchema) → is_some (find_schema id l) ≡ contains (ids_of l) id
  find_schema-some id [] = refl
  find_schema-some id (s ∷ l) = ground (arith, find_schema-some id l)

  dropped :
      (b : Bool) (o : Option ApiSchema)
      → (not (is_some o) || b) ≡ true
      → (if b && true then none else o) ≡ none
  dropped true o h = refl
  dropped false none h = refl
  dropped false (some s) h = cc h

  agreed-some :
      (old : ApiSchemas lib) (f before : Option ApiSchema)
      → (not (is_some (agreed old f before)) || is_some f) ≡ true
  agreed-some old none before = refl
  agreed-some old (some s) before = ground arith

  told_or_gone :
      (old : ApiSchemas lib) (id : String) (new_list old_list : List ApiSchema)
      (m : Dict String ApiSchema)
      → IsWithin m old_list
      → (if contains (ids_of old_list) id && not (contains (ids_of new_list) id)
          then none
          else told old (find_schema id new_list) (lookup id m))
        ≡ agreed old (find_schema id new_list) (lookup id m)
  told_or_gone old id new_list old_list m within = elim (Option-cases (find_schema id new_list)) [
    | inl none_there ↦
        let out : contains (ids_of new_list) id ≡ false =
          sym (find_schema-some id new_list) ∙ ap is_some none_there in
        rw (none_there, out) (dropped (contains (ids_of old_list) id) (lookup id m) (within id))
    | inr (s, there) ↦
        let inside : contains (ids_of new_list) id ≡ true =
          sym (find_schema-some id new_list) ∙ ap is_some there in
        rw (there, inside) (ground arith)
  ]

  agreed-notices :
      (old : ApiSchemas lib) (id : String) (new_list old_list : List ApiSchema)
      (m : Dict String ApiSchema)
      → distinct (ids_of new_list) ≡ true
      → IsWithin m old_list
      → lookup id (follow_all (notices lib equal old new_list old_list) m)
        ≡ agreed old (find_schema id new_list) (lookup id m)
  agreed-notices old id new_list old_list m once within =
      let first = new_notices lib equal old new_list in
      let last = old_notices lib equal (ids_of new_list) old_list in
      ap (lookup id) (follow_all-append first last m)
      ∙ lookup-removed (ids_of new_list) id old_list (follow_all first m)
      ∙ ap
          (λ v.
            if contains (ids_of old_list) id && not (contains (ids_of new_list) id)
            then none
            else v)
          (lookup-new old id new_list m once)
      ∙ told_or_gone old id new_list old_list m within

  -- Where each new schema stands in the map under its identifier: a client that knows no schema but
  -- the old listed ones and follows the events that `sendSchemas` sends knows of each identifier
  -- nothing, where the new list does not have it; the new schema, where the old schemas had no
  -- equal one; and else what it knew before. The next call compares with the new schemas, and the
  -- client then knows no schema but the new listed ones.
  pub send_schemas-agreed :
      (types : SubTypes) (n : ℕ) (new old : ApiSchemas lib) (m : Dict String ApiSchema)
      → ((t : String) (s : ApiSchema) → lookup t new.schemas ≡ some s → s.schema.id ≡ t)
      → IsWithin m (filter_schemas types old.schemas n)
      → ((send_schemas lib equal types n (ok new) old).1 ≡ new)
        × ((id : String)
            → lookup id (follow_all (send_schemas lib equal types n (ok new) old).0 m)
              ≡ agreed old (find_schema id (filter_schemas types new.schemas n)) (lookup id m))
        × IsWithin
            (follow_all (send_schemas lib equal types n (ok new) old).0 m)
            (filter_schemas types new.schemas n)
  unfolding send_schemas
  send_schemas-agreed types n new old m keyed within =
      let new_list = filter_schemas types new.schemas n in
      let old_list = filter_schemas types old.schemas n in
      let once = (filter_schemas-distinct types new.schemas keyed n).0 in
      let agree : (id : String)
          → lookup id (follow_all (notices lib equal old new_list old_list) m)
            ≡ agreed old (find_schema id new_list) (lookup id m) =
        λ id. agreed-notices old id new_list old_list m once within in
      (
        refl,
        agree,
        λ id.
            ap (λ v. not (is_some v) || contains (ids_of new_list) id) (agree id)
            ∙ ap (λ b. not (is_some (agreed old (find_schema id new_list) (lookup id m))) || b)
                (sym (find_schema-some id new_list))
            ∙ agreed-some old (find_schema id new_list) (lookup id m),
      )
