-- ===== src/Stores/Tables/Rows.antt =====
-- What the conversion of tables and of reserved fields keeps: the names and namespaces of objects.
use brent.Base.{
  String, ◌≡◌, refl, ap, ◌∙◌, Bool, true, Option, none, some, List, [], ◌∷◌, map, lookup, ◌==◌,
  string_eq, all, arith, Bool-cases, both, inl, inr,
}
use brent.Api.Types.{ApiSchema, Value}
use brent.Stores.Reserved.{reserved_fields, move_to_underscore}
use brent.Stores.Reserved.RoundTrip.{move_to_underscore-other}
use brent.Stores.Tables.{
  ObjectLib, Content, ContentList, as_sequence, as_nested, or_nil, with_cells, row_object,
  rows_to_objects, table_to_objects, is_table, table_to_list, in_namespace, to_api_object,
  object_name, object_namespace, to_api_list,
}

module _ (lib : ObjectLib) where
  kept_metadata :
      (m : Content) → lookup "metadata" (move_to_underscore reserved_fields m) ≡ lookup "metadata" m
  kept_metadata m = move_to_underscore-other reserved_fields "metadata" m refl refl refl

  pub object_name-to_api_object :
      (s : ApiSchema) (m : Content) → object_name lib (to_api_object lib s m) ≡ lib.get_name m
  unfolding to_api_object
  object_name-to_api_object s m =
      lib.get_name-metadata (move_to_underscore reserved_fields m) m (kept_metadata m)

  pub object_namespace-to_api_object :
      (s : ApiSchema) (m : Content)
      → object_namespace lib (to_api_object lib s m) ≡ lib.get_namespace m
  unfolding to_api_object
  object_namespace-to_api_object s m =
      lib.get_namespace-metadata (move_to_underscore reserved_fields m) m (kept_metadata m)

  -- The identifier of an object of the API is the cluster's namespace and name of it.
  pub id-to_api_object :
      (s : ApiSchema) (m : Content)
      → (to_api_object lib s m).id ≡ in_namespace lib (lib.get_namespace m) (lib.get_name m)
  unfolding to_api_object
  id-to_api_object s m =
      ap (λ ns. in_namespace lib ns (lib.get_name (move_to_underscore reserved_fields m)))
        (object_namespace-to_api_object s m)
      ∙ ap (in_namespace lib (lib.get_namespace m)) (object_name-to_api_object s m)

  module _ (ns : String) where
    abbrev in_ns : Content → Bool
    in_ns m = lib.get_namespace m == ns

    abbrev object_in_ns : Option Content → Bool
    object_in_ns none = true
    object_in_ns (some m) = in_ns m

    abbrev row_in_ns : Option Content → Bool
    row_in_ns none = true
    row_in_ns (some m) = object_in_ns (as_nested (lookup "object" m))

    -- A list of the cluster holds only objects of the namespace, as items or in rows of a table.
    abbrev pub OfNamespace : ContentList → Type 0
    OfNamespace l =
        (all in_ns l.items ≡ true)
        × (all (λ row. row_in_ns (as_nested (some row))) (as_sequence (lookup "rows" l.object))
            ≡ true)

    with_cells-in_ns :
        (cells : Value) (object : Option Content) (rest : List Content)
        → object_in_ns object ≡ true
        → all in_ns rest ≡ true
        → all in_ns (with_cells lib cells object rest) ≡ true
    with_cells-in_ns cells none rest h k = k
    with_cells-in_ns cells (some m) rest h k =
        both (ap (λ t. t == ns) (lib.get_namespace-put cells m) ∙ h) k

    row_object-in_ns :
        (row : Option Content) (rest : List Content)
        → row_in_ns row ≡ true
        → all in_ns rest ≡ true
        → all in_ns (row_object lib row rest) ≡ true
    row_object-in_ns none rest h k = k
    row_object-in_ns (some m) rest h k =
        with_cells-in_ns (or_nil (lookup "cells" m)) (as_nested (lookup "object" m)) rest h k

    rows_to_objects-in_ns :
        (rows : List Value)
        → all (λ row. row_in_ns (as_nested (some row))) rows ≡ true
        → all in_ns (rows_to_objects lib rows) ≡ true
    rows_to_objects-in_ns [] h = refl
    rows_to_objects-in_ns (row ∷ rows) h =
        row_object-in_ns (as_nested (some row)) (rows_to_objects lib rows) (ground (arith, h))
          (rows_to_objects-in_ns rows (ground (arith, h)))

    table_to_list-in_ns :
        (l : ContentList) → OfNamespace l → all in_ns (table_to_list lib l).items ≡ true
    unfolding table_to_list table_to_objects
    table_to_list-in_ns l h = elim (Bool-cases (is_table l.object)) [
      | inl table ↦ rw table (rows_to_objects-in_ns (as_sequence (lookup "rows" l.object)) h.1)
      | inr plain ↦ rw plain h.0
    ]

    map-in_ns :
        (s : ApiSchema) (items : List Content)
        → all in_ns items ≡ true
        → all (λ o. object_namespace lib o == ns) (map (to_api_object lib s) items) ≡ true
    map-in_ns s [] h = refl
    map-in_ns s (m ∷ items) h =
        rw (object_namespace-to_api_object s m)
          (ground (arith, h, map-in_ns s items (ground (arith, h))))

    pub objects-in_ns :
        (s : ApiSchema) (l : ContentList)
        → OfNamespace l
        → all (λ o. object_namespace lib o == ns) (to_api_list lib s l).objects ≡ true
    unfolding to_api_list
    objects-in_ns s l h = map-in_ns s (table_to_list lib l).items (table_to_list-in_ns l h)
