-- ===== src/AccessControl/Revisions.antt =====
-- pkg/accesscontrol/role_revision_index.go: the resource versions of the roles that the
-- controllers have seen. The `sync.Map` is a map; each handler is one step on it.
pub mod History
use brent.Base.{
  String, ◌≡◌, ◌↔◌, Bool, true, false, ◌&&◌, ◌||◌, Option, none, some, List, [], ◌∷◌, arith, ◌==◌,
  eq_iff, string_eq, Comparable, Dict, lookup, insert, remove, cut,
}

-- `roleKey` of access_store.go
pub record RoleKey : Type 0 where
  pub namespace : String
  pub name : String

abbrev pub role_key_beq : RoleKey → RoleKey → Bool
role_key_beq a b = a.namespace == b.namespace && a.name == b.name

pub role_key_beq_iff : (a b : RoleKey) → (role_key_beq a b ≡ true) ↔ (a ≡ b)
role_key_beq_iff a b = ground (arith, eq_iff a.namespace b.namespace, eq_iff a.name b.name)

instance abbrev pub role_key_eq : Comparable RoleKey
role_key_eq = record { equal = role_key_beq; equal_iff = role_key_beq_iff }

abbrev pub RoleRevisions : Type 0
RoleRevisions = Dict RoleKey String

-- What a handler reads of `router.Request`: the object's resource version, none where it is gone.
pub record Request : Type 0 where
  pub key : String
  pub namespace : String
  pub name : String
  pub object : Option String

abbrev pub or_blank : Option String → String
or_blank none = ""
or_blank (some s) = s

-- `roleRevision`
unfoldable pub role_revision : RoleRevisions → String → String → String
role_revision r namespace name = or_blank (lookup (record { namespace = namespace; name = name }) r)

abbrev pub store_or_delete : RoleKey → RoleKey → Option String → RoleRevisions → RoleRevisions
store_or_delete gone here none r = remove gone r
store_or_delete gone here (some version) r = insert here version r

-- `onClusterRoleChanged`
unfoldable pub on_cluster_role_changed : Request → RoleRevisions → RoleRevisions
on_cluster_role_changed req r =
    let k : RoleKey = record { namespace = ""; name = req.key } in store_or_delete k k req.object r

-- `onRoleChanged`: a removed role is known by its key alone
unfoldable pub on_role_changed : Request → RoleRevisions → RoleRevisions
unfolding cut
on_role_changed req r =
    let (namespace, name, _) = cut b'/' req.key in
    store_or_delete (record { namespace = namespace; name = name })
      (record { namespace = req.namespace; name = req.name }) req.object r
