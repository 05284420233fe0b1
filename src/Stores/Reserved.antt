-- ===== src/Stores/Reserved.antt =====
-- The reserved fields in pkg/stores/proxy/proxy_store.go: an object of the cluster whose fields
-- would hide those of the API has them renamed on the way out, and back on the way in.
pub mod RoundTrip
use Prim.Native.String
use brent.Base.{
  String, Option, none, some, List, [], ◌∷◌, Dict, lookup, insert, remove, string_eq, for_each,
}

-- `ReservedFields`, in some order
abbrev pub reserved_fields : List String
reserved_fields = "id" ∷ "type" ∷ "links" ∷ "actions" ∷ []

-- `"_" + k`
abbrev pub under : String → String
under k = String.◌∷◌ "_" k

module _ {V : Type 0} where
  abbrev pub rename_to : String → Option V → Dict String V → Dict String V
  rename_to k none m = m
  rename_to k (some v) m = insert (under k) v (remove k m)

  abbrev pub to_under : String → Dict String V → Dict String V
  to_under k m = rename_to k (lookup k m) m

  -- `moveToUnderscore`, with the order in which it visits the reserved fields
  unfoldable pub move_to_underscore : List String → Dict String V → Dict String V
  move_to_underscore fields m = for_each fields to_under m

  abbrev pub put_back : String → Option V → Dict String V → Dict String V
  put_back k none m = m
  put_back k (some v) m = insert k v m

  abbrev pub from_under : String → Dict String V → Dict String V
  from_under k m = put_back k (lookup (under k) m) (remove k (remove (under k) m))

  -- `moveFromUnderscore`
  unfoldable pub move_from_underscore : List String → Dict String V → Dict String V
  move_from_underscore fields m = for_each fields from_under m
