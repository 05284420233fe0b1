-- ===== src/Tests/DiscoveryTests.antt =====
-- Refreshes of the schemas at concrete inputs.
use brent.Base.{
  String, ◌≡◌, refl, Bool, true, false, none, [], ◌∷◌, Dict, lookup, values, any, is_some,
  string_eq, to_lower, contains_text,
}
use brent.Api.Errors.{Result, ok}
use brent.Api.Types.{ApiSchema, Handler}
use brent.Api.Attributes.{
  GroupVersionResource, attribute, verbs, gvr, gvk, set_gvk, set_api_resource, set_table,
  get_columns, set_val, preferred_group, preferred_version,
}
use brent.Collections.State.{Collection, new_collection, reset}
use brent.Discovery.{
  to_schemas, Discovered, ResourceList, gvk_to_versioned_schema_id, gvk_to_schema_id,
  gvr_to_plural_name,
}
use brent.Discovery.Refresh.{Review, TableAnswer, no_answer, refresh_all}
use brent.Discovery.Refresh.Kept.{kept_as, refresh_all-Kept}
use brent.Discovery.Refresh.Current.{
  Sync, start, Reach, begin, next, changes, wakes, installs, queue_refresh, wake, install, give_up,
  installed-Reach, fails, same, after_failure-stays,
}
use brent.Tests.Fixtures.{plain_convert}

abbrev pods_found : Discovered
pods_found = record {
  resource = record { name = "pods"; verbs = "list" ∷ "watch" ∷ []; namespaced = true };
  kind = "Pod";
}

abbrev core_list : ResourceList
core_list = record { group = ""; version = "v1"; resources = pods_found ∷ []; parse_error = none }

abbrev or_empty : Result (Dict String ApiSchema) → Dict String ApiSchema
or_empty (ok m) = m
or_empty _ = []

abbrev found_schemas : Dict String ApiSchema
unfolding to_schemas gvk_to_versioned_schema_id to_lower set_gvk set_api_resource contains_text
found_schemas = or_empty (to_schemas (ok []) (ok ([], core_list ∷ [])))

abbrev or_new_collection : Result Collection → Collection
or_new_collection (ok c) = c
or_new_collection _ = new_collection

abbrev allow : GroupVersionResource → Result Review
allow g = ok (record { allowed = true; denied = false })

abbrev no_table : GroupVersionResource → TableAnswer
no_table g = no_answer

abbrev never : Handler → Bool
never h = false

abbrev refreshed : Collection
unfolding refresh_all reset verbs gvk gvr attribute to_lower gvk_to_schema_id gvr_to_plural_name
    set_table get_columns
refreshed = or_new_collection (refresh_all allow no_table never (ok found_schemas) new_collection)

refresh_all-Kept_example :
    is_some (lookup "pod" refreshed.schemas)
    ≡ any (kept_as allow no_table found_schemas "pod") (values found_schemas)
unfolding refresh_all found_schemas verbs attribute set_val preferred_group preferred_version
    refreshed reset
refresh_all-Kept_example =
    refresh_all-Kept allow no_table never found_schemas new_collection refreshed "pod" refl

-- a change, the goroutine that wakes, and its refresh
abbrev after_change : Sync
after_change = install 1 (wake 0 (queue_refresh start))

abbrev change_done : Reach after_change
change_done =
    next (next (next begin (changes start)) (wakes (queue_refresh start) 0 refl refl))
      (installs (wake 0 (queue_refresh start)) 1 refl)

installed-Reach_example : after_change.installed ≡ after_change.version
installed-Reach_example = installed-Reach after_change change_done refl refl refl

-- a change whose refresh fails: the schemas stay those from before it
abbrev refreshing : Sync
refreshing = wake 0 (queue_refresh start)

after_failure-stays_example :
    ((give_up refreshing).to_sync ≡ true)
    × ((give_up refreshing).installed ≡ 0)
    × ((give_up refreshing).running ≡ none)
    × ((give_up refreshing).failures ≡ 1)
after_failure-stays_example =
    after_failure-stays refreshing (give_up refreshing) 1 refl refl (fails refreshing 1 refl) same
      refl
