-- ===== src/Stores/Tables.antt =====
-- The objects of pkg/stores/proxy/proxy_store.go: tables of the cluster as objects, and objects of
-- the cluster as those of the API.
pub mod Rows
use Prim.Native.String
use brent.Base.{
  ℕ, String, Bool, true, false, not, ◌&&◌, ◌||◌, Option, none, some, List, [], ◌∷◌, map, Dict,
  lookup, ◌==◌, string_eq, if◌then◌else◌, ◌<>◌, ◌≡◌,
}
use brent.Api.Types.{
  ApiSchema, Value, text, sequence, nested, nil_value, values_of, entries_of, Values, Entries,
}
use brent.Api.Objects.{ApiObject, ApiObjectList, no_object}
use brent.Stores.Reserved.{reserved_fields, move_to_underscore}

-- the content of an object, `map[string]interface{}`
abbrev pub Content : Type 0
Content = Dict String Value

-- a value that fields can be written in: there is none yet, or it is a map
abbrev pub holds_fields : Option Value → Bool
holds_fields none = true
holds_fields (some (nested es)) = true
holds_fields _ = false

-- `data` of the schemer library, and the accessors of the Kubernetes library: nested fields are
-- read and written by their path. A field of a value that is no map is not written; else what is
-- written is read back, and the value is a map. Other fields stay. A name and a
-- namespace are read in `metadata`, and not among its `fields`.
pub record ObjectLib : Type 0 where
  pub get_value : List String → Content → Option Value
  pub put_value : Value → List String → Content → Content
  pub get_name : Content → String
  pub get_namespace : Content → String
  pub get_resource_version : Content → String
  pub get_continue : Content → String
  pub get-put :
      (v : Value) (k i : String) (m : Content)
      → holds_fields (lookup k m) ≡ true
      → get_value (k ∷ i ∷ []) (put_value v (k ∷ i ∷ []) m) ≡ some v
  pub holds_fields-put :
      (v : Value) (k i : String) (m : Content)
      → holds_fields (lookup k m) ≡ true
      → holds_fields (lookup k (put_value v (k ∷ i ∷ []) m)) ≡ true
  pub put-no_fields :
      (v : Value) (k i : String) (m : Content)
      → holds_fields (lookup k m) ≡ false
      → put_value v (k ∷ i ∷ []) m ≡ m
  pub get-put_other :
      (v : Value) (k i j : String) (path : List String) (m : Content)
      → (i == j) ≡ false
      → get_value (k ∷ j ∷ []) (put_value v (k ∷ i ∷ path) m) ≡ get_value (k ∷ j ∷ []) m
  pub get_value-lookup :
      (k : String) (path : List String) (m n : Content)
      → lookup k m ≡ lookup k n
      → get_value (k ∷ path) m ≡ get_value (k ∷ path) n
  pub get_name-metadata :
      (m n : Content) → lookup "metadata" m ≡ lookup "metadata" n → get_name m ≡ get_name n
  pub get_namespace-metadata :
      (m n : Content)
      → lookup "metadata" m ≡ lookup "metadata" n
      → get_namespace m ≡ get_namespace n
  pub get_namespace-put :
      (v : Value) (m : Content)
      → get_namespace (put_value v ("metadata" ∷ "fields" ∷ []) m) ≡ get_namespace m
  pub get_name-put :
      (v : Value) (m : Content) → get_name (put_value v ("metadata" ∷ "fields" ∷ []) m) ≡ get_name m

-- `unstructured.UnstructuredList`
pub record ContentList : Type 0 where
  pub object : Content
  pub items : List Content

abbrev pub is_text : String → Option Value → Bool
is_text s (some (text t)) = s == t
is_text s _ = false

-- the test in `rowToObject` and `tableToList`
unfoldable pub is_table : Content → Bool
is_table m =
    is_text "Table" (lookup "kind" m)
    && (is_text "meta.k8s.io/v1" (lookup "apiVersion" m)
        || is_text "meta.k8s.io/v1beta1" (lookup "apiVersion" m))

-- the type assertions `.([]interface{})` and `.(map[string]interface{})`
abbrev pub as_sequence : Option Value → List Value
as_sequence (some (sequence vs)) = values_of vs
as_sequence _ = []

abbrev pub as_nested : Option Value → Option Content
as_nested (some (nested es)) = some (entries_of es)
as_nested _ = none

-- what a nil interface stands for where a value is stored
abbrev pub or_nil : Option Value → Value
or_nil none = nil_value
or_nil (some v) = v

module _ (lib : ObjectLib) where
  abbrev pub with_cells : Value → Option Content → List Content → List Content
  with_cells cells none rest = rest
  with_cells cells (some object) rest =
      lib.put_value cells ("metadata" ∷ "fields" ∷ []) object ∷ rest

  -- one round of the loop: a row that is no map, or has no object, is passed over
  abbrev pub row_object : Option Content → List Content → List Content
  row_object none rest = rest
  row_object (some m) rest =
      with_cells (or_nil (lookup "cells" m)) (as_nested (lookup "object" m)) rest

  abbrev pub rows_to_objects : List Value → List Content
  rows_to_objects [] = []
  rows_to_objects (row ∷ rows) = row_object (as_nested (some row)) (rows_to_objects rows)

  -- `tableToObjects`
  unfoldable pub table_to_objects : Content → List Content
  table_to_objects m = rows_to_objects (as_sequence (lookup "rows" m))

  abbrev pub only_item : List Content → Content → Content
  only_item (item ∷ []) m = item
  only_item _ m = m

  -- `rowToObject`, for the content of an object that is not nil
  unfoldable pub row_to_object : Content → Content
  unfolding is_table table_to_objects
  row_to_object m = if is_table m then only_item (table_to_objects m) m else m

  -- `tableToList`
  unfoldable pub table_to_list : ContentList → ContentList
  unfolding is_table table_to_objects
  table_to_list l = if is_table l.object then record l { items = table_to_objects l.object } else l

  abbrev pub in_namespace : String → String → String
  in_namespace ns id = if ns == "" then id else ns <> ("/" <> id)

  -- `toAPI`, for an object that is not nil
  unfoldable pub to_api_object : ApiSchema → Content → ApiObject
  unfolding move_to_underscore
  to_api_object s m =
      let moved = move_to_underscore reserved_fields m in
      record {
        type = s.id;
        id = in_namespace (lib.get_namespace moved) (lib.get_name moved);
        object = some moved;
      }

  -- `APIObject.Name` and `APIObject.Namespace`, of an object of the cluster
  abbrev pub object_name : ApiObject → String
  object_name o = elim o.object [ none ↦ "" | some m ↦ lib.get_name m ]

  abbrev pub object_namespace : ApiObject → String
  object_namespace o = elim o.object [ none ↦ "" | some m ↦ lib.get_namespace m ]

  -- the last part of `list`
  unfoldable pub to_api_list : ApiSchema → ContentList → ApiObjectList
  unfolding table_to_list to_api_object
  to_api_list s l =
      let listed = table_to_list l in
      record {
        revision = lib.get_resource_version listed.object;
        continue = lib.get_continue listed.object;
        objects = map (to_api_object s) listed.items;
      }
