-- ===== src/AccessControl/AccessSet.antt =====
-- `AccessSet` of pkg/accesscontrol/access_set.go: the grants of one subject, by verb and resource.
-- The code ranges over maps, so the order of the lists that it returns is open, and no theorem
-- reads it; a nil map is the empty one.
pub mod Laws
pub mod Grants
pub mod Namespaces
use brent.Base.{
  String, Bool, true, false, not, ◌&&◌, ◌||◌, Option, none, some, List, [], ◌∷◌, ◌==◌, string_eq,
  if◌then◌else◌, any, for_each, Dict, keys, lookup, insert, sort_by,
}
use brent.AccessControl.Access.{
  Access, AccessList, GroupResource, Key, access_eq, key_eq, access_grants, all_name,
}

-- `resourceAccessSet`
abbrev pub ResourceAccessSet : Type 0
ResourceAccessSet = Dict Access Bool

pub record AccessSet : Type 0 where
  pub id : String
  pub set : Dict Key ResourceAccessSet

abbrev pub empty : AccessSet
empty = record { id = ""; set = [] }

abbrev pub or_empty : Option ResourceAccessSet → ResourceAccessSet
or_empty none = []
or_empty (some m) = m

-- `range a.set[k]`: the grants under one key, none where the key is missing
abbrev pub accesses : AccessSet → Key → List Access
accesses a k = keys (or_empty (lookup k a.set))

abbrev pub mk_key : String → String → String → Key
mk_key v g r = record { verb = v; gr = record { group = g; resource = r } }

-- `AccessSet.Grants`
unfoldable pub grants : AccessSet → String → GroupResource → String → String → Bool
grants a verb gr namespace name =
    any
      (λ v.
        any
          (λ g.
            any (λ r. any (λ k. access_grants k namespace name) (accesses a (mk_key v g r)))
              (all_name ∷ gr.resource ∷ []))
          (all_name ∷ gr.group ∷ []))
      (all_name ∷ verb ∷ [])

abbrev pub dedup_insert : Access → Dict Access Bool → Dict Access Bool
dedup_insert k dedup = insert k true dedup

-- the map `dedup` of `AccessListFor`, after its loops
pub dedup_for : AccessSet → String → GroupResource → Dict Access Bool
dedup_for a verb gr =
    for_each (all_name ∷ verb ∷ [])
      (λ v. for_each (all_name ∷ gr.group ∷ []) (λ g.
        for_each (all_name ∷ gr.resource ∷ [])
          (λ r. for_each (accesses a (mk_key v g r)) dedup_insert)))
      []

-- `AccessListFor`
unfoldable pub access_list_for : AccessSet → String → GroupResource → AccessList
unfolding dedup_for
access_list_for a verb gr = keys (dedup_for a verb gr)

abbrev pub add_access : Access → Option ResourceAccessSet → ResourceAccessSet
add_access access found = insert access true (or_empty found)

-- `AccessSet.Add`
unfoldable pub add : String → GroupResource → Access → AccessSet → AccessSet
add verb gr access a =
    let k : Key = record { verb = verb; gr = gr } in
    record a { set = insert k (add_access access (lookup k a.set)) a.set }

abbrev pub copy_entry : Access × Bool → ResourceAccessSet → ResourceAccessSet
copy_entry (k, v) m = insert k v m

abbrev pub merge_key : Key × ResourceAccessSet → AccessSet → AccessSet
merge_key (k, access_map) a = record a {
  set = insert k (for_each access_map copy_entry (or_empty (lookup k a.set))) a.set;
}

-- `a.Merge(right)`
unfoldable pub merge : AccessSet → AccessSet → AccessSet
merge a right = for_each right.set merge_key a

abbrev pub reads : String → Bool
reads verb = verb == "get" || verb == "list"

abbrev pub collect_access : Access → Dict String Bool → Dict String Bool
collect_access access set =
    if access.namespace == all_name then set else insert access.namespace true set

abbrev pub collect_key : Key × ResourceAccessSet → Dict String Bool → Dict String Bool
collect_key (k, as_) set = if reads k.verb then for_each (keys as_) collect_access set else set

-- `AccessSet.Namespaces`
unfoldable pub namespaces : AccessSet → List String
namespaces a = sort_by (λ s. s) (keys (for_each a.set collect_key []))
