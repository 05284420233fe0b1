-- ===== src/Tests/SchemaStoreTests.antt =====
-- The list of schemas and its changes at concrete inputs.
use brent.Base.{
  distinct, String, ◌≡◌, refl, Bool, true, false, not, ◌||◌, none, some, [], ◌∷◌, Dict, lookup,
  values, all, contains, string_eq, ◌==◌, if◌then◌else◌, arith, is_some, eq_iff,
}
use brent.Api.Errors.{ok}
use brent.Api.Types.{Schema, ApiSchema}
use brent.Api.Schemas.{ApiSchemas, lookup_schema}
use brent.SchemaStore.{
  SubTypes, ids_of, has_methods, to_schema_object, references, add_schema, filter_schemas,
  inner_type,
}
use brent.SchemaStore.Closed.{known_in, filter_schemas-closed}
use brent.SchemaStore.Listed.{filter_schemas-distinct}
use brent.SchemaStore.Notices.{follow, known, find_schema, send_schemas, notice_of}
use brent.SchemaStore.Notices.Followed.{follow_all, agreed, IsWithin, send_schemas-agreed}
use brent.Tests.Fixtures.{plain_schemer, schema_of}

-- array[t] and t
abbrev element_of : String → String
element_of t = if t == "array[state]" then "state" else t

abbrev arrays : SubTypes
arrays = record { sub_type = element_of; depth = λ t. 2 }

abbrev pod : ApiSchema
pod = record (schema_of "pod" []) {
  schema = record (schema_of "pod" []).schema {
    collection_methods = "GET" ∷ [];
    resource_fields = ("states", "array[state]") ∷ [];
  };
}

abbrev state : ApiSchema
state = schema_of "state" []

abbrev unused : ApiSchema
unused = schema_of "unused" []

abbrev three : Dict String ApiSchema
three = ("unused", unused) ∷ ("state", state) ∷ ("pod", pod) ∷ []

three-keyed : (t : String) (s : ApiSchema) → lookup t three ≡ some s → s.schema.id ≡ t
three-keyed t s h = ground (arith, h, eq_iff "unused" t, eq_iff "state" t, eq_iff "pod" t)

-- the schema without methods that a field of another refers to stands before it
listed_ids : ids_of (filter_schemas arrays three 2) ≡ "state" ∷ "pod" ∷ []
unfolding filter_schemas to_schema_object inner_type references add_schema
listed_ids = refl

filter_schemas-distinct_example :
    (distinct (ids_of (filter_schemas arrays three 2)) ≡ true)
    × (all
          (λ s.
            not (has_methods s) || contains (ids_of (filter_schemas arrays three 2)) s.schema.id)
          (values three)
        ≡ true)
filter_schemas-distinct_example = filter_schemas-distinct arrays three three-keyed 2

filter_schemas-closed_example :
    all
      (λ o.
        all
          (known_in arrays three three-keyed
            (λ t. contains (ids_of (filter_schemas arrays three 2)) t))
          (references arrays o))
      (filter_schemas arrays three 2)
    ≡ true
filter_schemas-closed_example =
    filter_schemas-closed arrays three three-keyed 2 (refl, (refl, (refl, tt))) (ground arith)

abbrev nothing_equal : Schema → Schema → Bool
nothing_equal s o = false

abbrev with_schemas : Dict String ApiSchema → ApiSchemas plain_schemer
with_schemas m = record { internal_schemas = []; schemas = m; index = []; attributes = [] }

abbrev secret : ApiSchema
secret = record (schema_of "secret" []) {
  schema = record (schema_of "secret" []).schema { collection_methods = "GET" ∷ [] };
}

abbrev before : ApiSchemas plain_schemer
before = with_schemas (("secret", secret) ∷ [])

abbrev after : ApiSchemas plain_schemer
after = with_schemas three

known_before-IsWithin :
    IsWithin plain_schemer nothing_equal
      (known (filter_schemas arrays before.schemas 2))
      (filter_schemas arrays before.schemas 2)
unfolding known filter_schemas to_schema_object references add_schema
known_before-IsWithin id = ground arith

abbrev sent : Dict String ApiSchema
sent =
    follow_all (send_schemas plain_schemer nothing_equal arrays 2 (ok after) before).0
      (known (filter_schemas arrays before.schemas 2))

-- the removed schema is gone, and the new ones are known
sent_state : is_some (lookup "state" sent) ≡ true
unfolding follow_all follow known send_schemas notice_of filter_schemas to_schema_object inner_type
    references add_schema lookup_schema
sent_state = refl

sent_secret : lookup "secret" sent ≡ none
unfolding follow_all follow known send_schemas notice_of filter_schemas to_schema_object inner_type
    references add_schema lookup_schema
sent_secret = refl

send_schemas-agreed_example :
    ((send_schemas plain_schemer nothing_equal arrays 2 (ok after) before).1 ≡ after)
    × ((id : String)
        → lookup id sent
          ≡ agreed plain_schemer nothing_equal before
              (find_schema id (filter_schemas arrays three 2))
              (lookup id (known (filter_schemas arrays before.schemas 2))))
    × IsWithin plain_schemer nothing_equal sent (filter_schemas arrays three 2)
send_schemas-agreed_example =
    send_schemas-agreed plain_schemer nothing_equal arrays 2 after before
      (known (filter_schemas arrays before.schemas 2)) three-keyed known_before-IsWithin
