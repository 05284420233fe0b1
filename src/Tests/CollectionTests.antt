-- ===== src/Tests/CollectionTests.antt =====
-- A collection that is reset to one schema.
use brent.Base.{
  String, ◌≡◌, Bool, true, ◌&&◌, ◌||◌, none, some, [], ◌∷◌, Dict, keys, values, lookup, any,
  is_some, contains, string_eq,
}
use brent.Api.Types.{ApiSchema, Handler}
use brent.Api.Attributes.{GroupVersionKind, set_gvk}
use brent.Collections.{Template, gvk_eq}
use brent.Collections.Lookups.{has_kind, named, lookup_gvk-reset}
use brent.Collections.State.{Collection, new_collection, reset, lookup_gvk}
use brent.Collections.Running.{ready, contains-running-reset}
use brent.Tests.Fixtures.{plain_convert, pod_schema}

abbrev pod_kind : GroupVersionKind
pod_kind = record { group = ""; version = "v1"; kind = "Pod" }

abbrev kinds : Dict String ApiSchema
kinds = ("pod", set_gvk pod_kind pod_schema) ∷ []

abbrev pod_template : Template
pod_template = record {
  group = "";
  kind = "";
  id = "pod";
  customize = none;
  formatter = [];
  store = none;
  start = some 3;
  store_factory = none;
}

abbrev always : Handler → Bool
always h = true

abbrev with_template : Collection
with_template = record new_collection {
  templates = ("pod", pod_template ∷ []) ∷ [];
  running = "gone" ∷ [];
}

contains-running-reset_example : contains (reset always kinds with_template).running "pod" ≡ (
    contains (keys kinds) "pod"
    && (ready always with_template.templates "pod" || contains with_template.running "pod"))
contains-running-reset_example = contains-running-reset always kinds with_template "pod"

lookup_gvk-reset_example :
    (is_some (lookup pod_kind (reset always kinds with_template).by_gvk)
      ≡ any (has_kind pod_kind) (values kinds))
    × (any (has_kind pod_kind) (values kinds) ≡ true
        → any
            (named pod_kind (lookup_gvk (reset always kinds with_template) pod_kind))
            (values kinds)
          ≡ true)
lookup_gvk-reset_example = lookup_gvk-reset pod_kind always kinds with_template
