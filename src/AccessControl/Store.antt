-- ===== src/AccessControl/Store.antt =====
-- pkg/accesscontrol/access_store.go: the grants of an authenticated user, through a cache.
pub mod Fresh
pub mod Unindexed
use brent.Base.{
  String, ◌≡◌, ◌⊎◌, Bool, true, false, Option, none, some, List, [], ◌∷◌, ◌++◌, for_each,
}
use brent.AccessControl.AccessSet.{AccessSet, merge}
use brent.AccessControl.Revisions.{RoleRevisions}
use brent.AccessControl.PolicyRules.{Client, PolicyRuleIndex, get, add_roles_to_hash}
use brent.AccessControl.PolicyRules.Indexes.{FieldIndex, policy_rule_index, register_indexes}

-- user.Info of the Kubernetes API server
pub record UserInfo : Type 0 where
  pub name : String
  pub groups : List String

-- LRUExpireCache of the Kubernetes API machinery. It may forget an entry at any time; it never
-- returns a value under a key other than the one that it was added under.
pub record ResultCache (V : Type 0) : Type 1 where
  pub Carrier : Type 0
  pub find : String → Carrier → Option V
  pub put : String → V → Carrier → Carrier
  pub find-put :
      (j k : String) (v w : V) (c : Carrier)
      → find j (put k v c) ≡ some w
      → ((j ≡ k) × (w ≡ v)) ⊎ (find j c ≡ some w)

-- The indexes that `NewAccessStore` registers, for the users' index and then for the groups'.
unfoldable pub registered_indexes : (FieldIndex → Bool) → List FieldIndex
registered_indexes index_field =
    register_indexes index_field true ++ register_indexes index_field false

module _ (client : Client) where
  -- `AccessFor` up to its use of the cache; the store's two indexes are those of `NewAccessStore`
  unfoldable pub compute_access : UserInfo → AccessSet
  compute_access user =
      for_each user.groups (λ group a. merge a (get client (policy_rule_index false) group))
        (get client (policy_rule_index true) user.name)

  -- `CacheKey`. The copy that it sorts is made with length 0, so it is empty, and the groups are
  -- read in the user's own order. `sum` is the hexadecimal SHA-256 of what was written.
  unfoldable pub cache_key : (String → String) → RoleRevisions → UserInfo → String
  cache_key sum revisions user = sum (
      for_each user.groups (add_roles_to_hash client (policy_rule_index false) revisions)
        (add_roles_to_hash client (policy_rule_index true) revisions user.name ""))

  module _ (cache : ResultCache AccessSet) (sum : String → String) (revisions : RoleRevisions) where
    open cache use {Carrier, find, put}

    abbrev fill : String → UserInfo → Carrier → Option AccessSet → AccessSet × Carrier
    fill key user c (some a) = (a, c)
    fill key user c none =
        let result = record (compute_access user) { id = key } in (result, put key result c)

    -- `AccessFor` with a cache
    unfoldable pub access_for : UserInfo → Carrier → AccessSet × Carrier
    access_for user c = let key = cache_key sum revisions user in fill key user c (find key c)
