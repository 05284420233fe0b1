-- ===== src/Discovery/Refresh.antt =====
-- pkg/controllers/schema/schemas.go: the schemas that the discovered ones are narrowed to, and the
-- flag and the goroutines by which a change of the cluster's APIs makes them anew.
pub mod Kept
pub mod Current
use Prim.Native.String
use brent.Base.{
  ℕ, suc, String, Bool, true, false, not, ◌&&◌, ◌||◌, Option, none, some, List, [], ◌∷◌, Dict,
  lookup, insert, values, ◌==◌, string_eq, if◌then◌else◌, ◌<>◌, contains, is_some, for_each, map,
  itoa, ◌+◌,
}
use brent.Api.Errors.{Error, Result, ok, err, panic, ◌>>=◌}
use brent.Api.Types.{ApiSchema, Schema, ColumnDefinition, Handler}
use brent.Api.Attributes.{
  Convert, GroupVersionKind, GroupVersionResource, gvk, gvr, verbs, preferred_group,
  preferred_version, set_columns, set_table, get_columns,
}
use brent.Collections.State.{Collection, reset}
use brent.Discovery.{
  gvk_to_versioned_schema_id, gvk_to_schema_id, gvr_to_plural_name, set_id, set_plural,
}

-- the status of a `SelfSubjectAccessReview`
pub record Review : Type 0 where
  pub allowed : Bool
  pub denied : Bool

abbrev pub review_allows : Review → Bool
review_allows r = r.allowed && not r.denied

-- what the cluster answers to a request for the table of a type: no answer, a table with the names
-- and types of its columns, or another object
pub data TableAnswer : Type 0 where
  no_answer other_object : TableAnswer
  table_of : List (String × String) → TableAnswer

abbrev pub columns_from : ℕ → List (String × String) → List ColumnDefinition
columns_from i [] = []
columns_from i ((name, type) ∷ l) =
    record { name = name; type = type; field = "$.metadata.fields[" <> (itoa i <> "]") }
    ∷ columns_from (i + 1) l

module _ ⦃conv : Convert⦄ where
  -- `isListOrGetable`
  unfoldable pub is_list_or_getable : ApiSchema → Bool
  is_list_or_getable s = contains (verbs s) "list" || contains (verbs s) "get"

  -- `isListWatchable`
  unfoldable pub is_list_watchable : ApiSchema → Bool
  is_list_watchable s = contains (verbs s) "list" && contains (verbs s) "watch"

  abbrev pub or_text : String → String → String
  or_text s t = if s == "" then t else s

  abbrev pub preferred_kind : ApiSchema → GroupVersionKind
  preferred_kind s = record (gvk s) {
    group = or_text (preferred_group s) (gvk s).group;
    version = or_text (preferred_version s) (gvk s).version;
  }

  abbrev pub renamed_type : String → Option String
  renamed_type id =
      if id == "extensions.v1beta1.ingress" then some "networking.k8s.io.v1beta1.ingress" else none

  abbrev pub is_there : Option String → Dict String ApiSchema → Bool
  is_there none schemas = false
  is_there (some id) schemas = is_some (lookup id schemas)

  -- `preferredTypeExists`
  unfoldable pub preferred_type_exists : ApiSchema → Dict String ApiSchema → Bool
  preferred_type_exists s schemas =
      is_there (renamed_type s.schema.id) schemas
      || (not (preferred_group s == "" && preferred_version s == "")
          && is_some (lookup (gvk_to_versioned_schema_id (preferred_kind s)) schemas))

  abbrev pub set_names : String → String → ApiSchema → ApiSchema
  set_names id plural s = set_plural plural (set_id id s)

  -- the identifier and the plural name of a schema that is kept, for a kind that is not empty
  unfoldable pub renamed : ApiSchema → ApiSchema
  renamed s =
      if (gvk s).kind == ""
      then s
      else set_names (gvk_to_schema_id (gvk s)) (gvr_to_plural_name (gvr s)) s

  abbrev pub columns_of : TableAnswer → ApiSchema → ApiSchema
  columns_of no_answer s = set_table false s
  columns_of other_object s = s
  columns_of (table_of []) s = s
  columns_of (table_of (d ∷ ds)) s = set_columns (columns_from 0 (d ∷ ds)) s

  module _ (review : GroupVersionResource → Result Review)
      (ask_table : GroupVersionResource → TableAnswer) where
    -- `SetColumns`, which never fails
    unfoldable pub with_columns : ApiSchema → ApiSchema
    with_columns s =
        if is_some (get_columns s) || (gvr s).resource == ""
        then s
        else columns_of (ask_table (gvr s)) s

    -- `getColumns`, one schema after the other
    unfoldable pub get_all_columns : Dict String ApiSchema → Dict String ApiSchema
    unfolding with_columns is_list_or_getable
    get_all_columns schemas =
        map (λ e. (e.0, if is_list_or_getable e.1 then with_columns e.1 else e.1)) schemas

    -- `allowed`
    unfoldable pub is_allowed : ApiSchema → Result Bool
    is_allowed s = review (gvr s) >>= λ r. ok (review_allows r)

    -- the tests of the loop of `refreshAll`
    unfoldable pub keeps : Dict String ApiSchema → ApiSchema → Result Bool
    unfolding is_list_watchable preferred_type_exists is_allowed
    keeps schemas s =
        if not (is_list_watchable s)
        then ok true
        else if preferred_type_exists s schemas
        then ok false
        else is_allowed s

    abbrev pub keep_if : Bool → ApiSchema → Dict String ApiSchema → Dict String ApiSchema
    keep_if true s kept = insert (renamed s).schema.id (renamed s) kept
    keep_if false s kept = kept

    unfoldable pub filter_schemas :
        Dict String ApiSchema
        → List ApiSchema
        → Dict String ApiSchema
        → Result (Dict String ApiSchema)
    unfolding keeps renamed
    filter_schemas schemas [] kept = ok kept
    filter_schemas schemas (s ∷ rest) kept =
        keeps schemas s >>= λ k. filter_schemas schemas rest (keep_if k s kept)

    -- `refreshAll` after the test of the flag, with what `ToSchemas` returns
    unfoldable pub refresh_all :
        (Handler → Bool) → Result (Dict String ApiSchema) → Collection → Result Collection
    unfolding filter_schemas get_all_columns
    refresh_all starts found c = do
      schemas ← found
      kept ← filter_schemas schemas (values schemas) []
      ok (reset starts (get_all_columns kept) c)
