-- ===== src/Tests/StoresTests.antt =====
-- The partitions of a list at a concrete user and schema, and the reserved fields of an object.
use brent.Base.{
  arith, String, Dict, lookup, contains, ◌≡◌, refl, ◌&&◌, ◌||◌, some, List, [], ◌∷◌, any, IsSorted,
  string_eq,
}
use brent.AccessControl.ByVerb.{grants_all, granted}
use brent.AccessControl.ByVerb.Granted.{allows}
use brent.Api.Errors.{ok}
use brent.Api.Types.{ApiSchema}
use brent.Api.Attributes.{set_access, get_access_list_map, namespaced, attribute, set_val}
use brent.Stores.Rbac.{Partition, all_partitions}
use brent.Stores.Rbac.Coverage.{covers, in_constraint, covers-all_partitions}
use brent.Stores.Reserved.{reserved_fields, move_to_underscore, move_from_underscore}
use brent.Stores.Reserved.RoundTrip.{move_from_underscore-move_to_underscore}
use brent.Tests.Fixtures.{in_dev, pod_schema, plain_convert}

abbrev listable : ApiSchema
listable = set_access (("list", in_dev ∷ []) ∷ []) pod_schema

covers-all_partitions_example :
    (partitions : List Partition) × (all_partitions (some ("dev" ∷ [])) "" (some listable) "list" ""
      ≡ ok partitions)
    × IsSorted (λ p. p.namespace) partitions
    × (any (covers "dev" "web") partitions ≡ (
        in_constraint "dev" "web" (some ("dev" ∷ []))
        && (grants_all (get_access_list_map (some listable)) "list"
            || allows (granted (get_access_list_map (some listable)) "list") "dev" "web")))
unfolding namespaced attribute set_access set_val
covers-all_partitions_example =
    covers-all_partitions "dev" "web" "" "list" (some listable) (some ("dev" ∷ [])) refl refl refl

abbrev an_object : Dict String String
an_object = ("type", "Opaque") ∷ ("kind", "Secret") ∷ []

abbrev other_order : List String
other_order = "actions" ∷ "type" ∷ "links" ∷ "id" ∷ []

move_to_underscore_renames :
    lookup "_type" (move_to_underscore reserved_fields an_object) ≡ some "Opaque"
unfolding move_to_underscore
move_to_underscore_renames = refl

same_fields : (k : String) → contains reserved_fields k ≡ contains other_order k
same_fields k = ground arith

move_from_underscore-move_to_underscore_example :
    lookup "type" (move_from_underscore other_order (move_to_underscore reserved_fields an_object))
    ≡ lookup "type" an_object
move_from_underscore-move_to_underscore_example =
    move_from_underscore-move_to_underscore reserved_fields other_order an_object "type"
      (refl, refl, refl) (refl, refl, refl) same_fields refl
