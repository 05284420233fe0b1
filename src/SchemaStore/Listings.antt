-- ===== src/SchemaStore/Listings.antt =====
-- The states of a list of schemas that is made: what is marked and what is listed.
use brent.Base.{
  distinct, String, ◌≡◌, refl, ap, ◌∙◌, Bool, true, false, not, ◌||◌, List, [], ◌∷◌, ◌++◌, ◌==◌,
  string_eq, eq_iff, contains, arith, Bool-cases, inl, inr,
}
use brent.Api.Types.{ApiSchema}
use brent.SchemaStore.{Listing, to_schema_object, ids_of, mark, append_object, has_methods}

contains-ids_of :
    (objects : List ApiSchema) (s : ApiSchema) (id : String)
    → contains (ids_of (objects ++ s ∷ [])) id ≡ (contains (ids_of objects) id || s.schema.id == id)
contains-ids_of [] s id = ground arith
contains-ids_of (o ∷ objects) s id = ground (arith, contains-ids_of objects s id)

distinct-ids_of :
    (objects : List ApiSchema) (s : ApiSchema)
    → distinct (ids_of objects) ≡ true
    → contains (ids_of objects) s.schema.id ≡ false
    → distinct (ids_of (objects ++ s ∷ [])) ≡ true
distinct-ids_of [] s h k = refl
distinct-ids_of (o ∷ objects) s h k = ground (
  arith,
  h,
  k,
  distinct-ids_of objects s,
  contains-ids_of objects s o.schema.id,
  eq_iff s.schema.id o.schema.id,
  eq_iff o.schema.id s.schema.id,
)

unfoldable pub listed : String → Listing → Bool
listed id l = contains (ids_of l.objects) id

unfoldable pub marked : String → Listing → Bool
marked id l = contains l.included id

-- each identifier stands once in the list, and is marked
pub record IsListing (l : Listing) : Type 0 where
  pub once : distinct (ids_of l.objects) ≡ true
  pub seen : (id : String) → listed id l ≡ true → marked id l ≡ true

-- a later state: what was marked stays marked, and is listed if it was; what is marked anew is listed
pub record Later (l k : Listing) : Type 0 where
  pub stays : (id : String) → marked id l ≡ true → marked id k ≡ true
  pub same : (id : String) → marked id l ≡ true → listed id k ≡ listed id l
  pub fresh : (id : String) → marked id k ≡ true → (marked id l || listed id k) ≡ true

pub Later-refl : (l : Listing) → Later l l
Later-refl l = record { stays = λ id h. h; same = λ id h. refl; fresh = λ id h. ground (arith, h) }

pub Later-trans : (l k j : Listing) → Later l k → Later k j → Later l j
Later-trans l k j p q = record {
  stays = λ id h. q.stays id (p.stays id h);
  same = λ id h. q.same id (p.stays id h) ∙ p.same id h;
  fresh = λ id h. ground (arith, q.fresh id h, p.fresh id, q.same id);
}

pub mark-IsListing : (id : String) (l : Listing) → IsListing l → IsListing (mark id l)
unfolding listed marked
mark-IsListing id l h = record { once = h.once; seen = λ i k. ground (arith, h.seen i k) }

-- a schema that was marked while it was not listed is listed once its references are
pub append_object-IsListing :
    (s : ApiSchema) (l : Listing)
    → IsListing l
    → marked s.schema.id l ≡ true
    → listed s.schema.id l ≡ false
    → IsListing (append_object s l)
unfolding listed marked to_schema_object
append_object-IsListing s l h m n = record {
  once = distinct-ids_of l.objects (to_schema_object s) h.once n;
  seen = λ i k. ground (
    arith,
    h.seen i,
    m,
    k,
    contains-ids_of l.objects (to_schema_object s) i,
    eq_iff s.schema.id i,
  );
}

pub append_object-Later :
    (s : ApiSchema) (l k : Listing)
    → marked s.schema.id l ≡ false
    → Later (mark s.schema.id l) k
    → Later l (append_object s k)
unfolding listed marked to_schema_object
append_object-Later s l k n p = record {
  stays = λ i h. p.stays i (ground (arith, h));
  same = λ i h. ground (
    arith,
    h,
    n,
    p.same i,
    contains-ids_of k.objects (to_schema_object s) i,
    eq_iff s.schema.id i,
  );
  fresh = λ i h.
      ground (
        arith,
        p.fresh i h,
        contains-ids_of k.objects (to_schema_object s) i,
        eq_iff s.schema.id i,
      );
}

pub marked-mark : (id : String) (l : Listing) → marked id (mark id l) ≡ true
unfolding marked
marked-mark id l = ground (arith, eq_iff id id)

pub listed-mark : (id : String) (l : Listing) → listed id (mark id l) ≡ listed id l
unfolding listed
listed-mark id l = refl

pub unlisted : (id : String) (l : Listing) → IsListing l → marked id l ≡ false → listed id l ≡ false
unlisted id l h new = elim (Bool-cases (listed id l)) [
  | inl old ↦ cc (h.seen id old)
  | inr none_yet ↦ none_yet
]

pub listed-append_object :
    (s : ApiSchema) (l : Listing) → listed s.schema.id (append_object s l) ≡ true
unfolding listed to_schema_object
listed-append_object s l =
    contains-ids_of l.objects (to_schema_object s) s.schema.id
    ∙ ground (arith, eq_iff s.schema.id s.schema.id)

-- what is listed stays listed
pub kept_shown :
    (s : ApiSchema) (k j : Listing)
    → IsListing k
    → Later k j
    → (not (has_methods s) || listed s.schema.id k) ≡ true
    → (not (has_methods s) || listed s.schema.id j) ≡ true
kept_shown s k j h later shown = elim (Bool-cases (listed s.schema.id k)) [
  | inr unlisted_there ↦
      let quiet : not (has_methods s) ≡ true = ground (arith, shown, unlisted_there) in
      ap (λ b. b || listed s.schema.id j) quiet
  | inl there ↦
      let after : listed s.schema.id j ≡ true =
        later.same s.schema.id (h.seen s.schema.id there) ∙ there in
      ap (λ b. not (has_methods s) || b) after ∙ ground arith
]

abbrev pub nothing_yet : Listing
nothing_yet = record { included = []; objects = [] }

pub nothing_yet-IsListing : IsListing nothing_yet
unfolding listed
nothing_yet-IsListing = record { once = refl; seen = λ id h. cc h }

pub nothing_marked : (id : String) → false ≡ marked id nothing_yet
unfolding marked
nothing_marked id = refl
