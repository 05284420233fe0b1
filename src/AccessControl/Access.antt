-- ===== src/AccessControl/Access.antt =====
-- The types and tests of pkg/accesscontrol/access_set.go that one grant is made of.
use brent.Base.{
  String, ◌≡◌, ◌↔◌, Bool, true, ◌&&◌, ◌||◌, List, arith, eq_iff, Comparable, ◌==◌, string_eq, any,
}

-- `All`, of policy_rule_index.go
abbrev pub all_name : String
all_name = "*"

pub record Access : Type 0 where
  pub namespace : String
  pub resource_name : String

-- schema.GroupResource of the Kubernetes API machinery
pub record GroupResource : Type 0 where
  pub group : String
  pub resource : String

pub record Key : Type 0 where
  pub verb : String
  pub gr : GroupResource

abbrev pub access_beq : Access → Access → Bool
access_beq a b = a.namespace == b.namespace && a.resource_name == b.resource_name

pub access_beq_iff : (a b : Access) → (access_beq a b ≡ true) ↔ (a ≡ b)
access_beq_iff a b =
    ground (arith, eq_iff a.namespace b.namespace, eq_iff a.resource_name b.resource_name)

abbrev pub key_beq : Key → Key → Bool
key_beq a b = a.verb == b.verb && (a.gr.group == b.gr.group && a.gr.resource == b.gr.resource)

pub key_beq_iff : (a b : Key) → (key_beq a b ≡ true) ↔ (a ≡ b)
key_beq_iff a b =
    ground (
      arith,
      eq_iff a.verb b.verb,
      eq_iff a.gr.group b.gr.group,
      eq_iff a.gr.resource b.gr.resource,
    )

instance abbrev pub access_eq : Comparable Access
access_eq = record { equal = access_beq; equal_iff = access_beq_iff }

instance abbrev pub key_eq : Comparable Key
key_eq = record { equal = key_beq; equal_iff = key_beq_iff }

abbrev pub ns_ok : Access → String → Bool
ns_ok a namespace = a.namespace == all_name || a.namespace == namespace

abbrev pub name_ok : Access → String → Bool
name_ok a name = a.resource_name == all_name || a.resource_name == name

-- `Access.Grants`
abbrev pub access_grants : Access → String → String → Bool
access_grants a namespace name = ns_ok a namespace && name_ok a name

abbrev pub AccessList : Type 0
AccessList = List Access

-- `AccessList.Grants`
unfoldable pub list_grants : AccessList → String → String → Bool
list_grants l namespace name = any (λ a. access_grants a namespace name) l
