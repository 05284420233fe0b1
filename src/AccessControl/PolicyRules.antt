-- ===== src/AccessControl/PolicyRules.antt =====
-- pkg/accesscontrol/policy_rule_index.go: the grants of a user or a group, read from the RBAC
-- objects of the cluster. The Kubernetes client is a parameter, and a failed call of it is `none`.
pub mod Semantics
pub mod Indexes
use Prim.Native.Char.{nul}
use Prim.Native.String
use brent.Base.{
  String, Bool, true, false, ◌&&◌, ◌||◌, not, Option, none, some, List, [], ◌∷◌, ◌++◌, map, ◌==◌,
  string_eq, if◌then◌else◌, for_each, sort_by, ◌<>◌,
}
use brent.AccessControl.Access.{Access, GroupResource, all_name}
use brent.AccessControl.AccessSet.{AccessSet, empty, add}
use brent.AccessControl.Revisions.{RoleRevisions, role_revision}

-- The RBAC objects, rbac/v1 of the Kubernetes API: the fields that the code reads.
pub record PolicyRule : Type 0 where
  pub verbs : List String
  pub api_groups : List String
  pub resources : List String
  pub resource_names : List String

pub record RoleRef : Type 0 where
  pub kind : String
  pub name : String

pub record Subject : Type 0 where
  pub kind : String
  pub api_group : String
  pub name : String
  pub namespace : String

pub record ClusterRoleBinding : Type 0 where
  pub name : String
  pub subjects : List Subject
  pub role_ref : RoleRef

pub record RoleBinding : Type 0 where
  pub uid : String
  pub namespace : String
  pub subjects : List Subject
  pub role_ref : RoleRef

-- `kclient.Reader`: roles by namespace and name, and bindings by the key and value of an index.
pub record Client : Type 0 where
  pub get_cluster_role : String → Option (List PolicyRule)
  pub get_role : String → String → Option (List PolicyRule)
  pub list_cluster_role_bindings : String → String → Option (List ClusterRoleBinding)
  pub list_role_bindings : String → String → Option (List RoleBinding)

abbrev pub rbac_group : String
rbac_group = "rbac.authorization.k8s.io"

-- `policyRuleIndex`, without the client and the revisions, which are arguments below
pub record PolicyRuleIndex : Type 0 where
  pub kind : String
  pub role_index_key : String
  pub cluster_role_index_key : String

abbrev pub or_nil {ℓ} : {A : Type ℓ} → Option (List A) → List A
or_nil none = []
or_nil (some l) = l

abbrev pub service_account : Subject → String
service_account s = "serviceaccount:" <> (s.namespace <> (":" <> s.name))

module _ (p : PolicyRuleIndex) where
  abbrev pub is_service_account : Subject → Bool
  is_service_account s =
      s.api_group == ""
      && (p.kind == "User" && (s.kind == "ServiceAccount" && not (s.namespace == "")))

  abbrev index_cluster_subject : RoleRef → Subject → List String → List String
  index_cluster_subject ref s result =
      if s.api_group == rbac_group && (s.kind == p.kind && ref.kind == "ClusterRole")
      then result ++ s.name ∷ []
      else if is_service_account s && ref.kind == "ClusterRole"
      then result ++ service_account s ∷ []
      else result

  -- `clusterRoleBindingBySubjectIndexer`
  pub cluster_role_binding_by_subject_indexer : ClusterRoleBinding → List String
  cluster_role_binding_by_subject_indexer crb =
      for_each crb.subjects (index_cluster_subject crb.role_ref) []

  abbrev index_subject : Subject → List String → List String
  index_subject s result =
      if s.api_group == rbac_group && s.kind == p.kind
      then result ++ s.name ∷ []
      else if is_service_account s
      then result ++ service_account s ∷ []
      else result

  -- `roleBindingBySubject`
  pub role_binding_by_subject : RoleBinding → List String
  role_binding_by_subject rb = for_each rb.subjects index_subject []

abbrev pub names_of : List String → List String
names_of [] = all_name ∷ []
names_of (n ∷ names) = n ∷ names

-- the four inner loops of `addAccess`, over one rule
abbrev pub add_rule : String → PolicyRule → AccessSet → AccessSet
add_rule namespace rule = for_each rule.api_groups (λ group. for_each rule.resources (λ resource.
    for_each (names_of rule.resource_names) (λ resource_name. for_each rule.verbs (λ verb.
      add verb (record { group = group; resource = resource })
        (record { namespace = namespace; resource_name = resource_name })))))

-- `null`, and the writes to the digest as one text
abbrev pub null : String
null = String.◌∷◌ nul ""

abbrev pub hash_cluster_role_binding : RoleRevisions → ClusterRoleBinding → String → String
hash_cluster_role_binding revisions crb digest =
    digest
    <> (crb.role_ref.name <> (null <> (role_revision revisions "" crb.role_ref.name <> null)))

abbrev pub hash_ref : String → String → String → String → String
hash_ref name namespace revision digest =
    digest <> (name <> (null <> (namespace <> (null <> (revision <> null)))))

abbrev pub hash_role_binding : RoleRevisions → RoleBinding → String → String
hash_role_binding revisions rb digest =
    if rb.role_ref.kind == "Role"
    then hash_ref rb.role_ref.name rb.namespace
        (role_revision revisions rb.namespace rb.role_ref.name) digest
    else if rb.role_ref.kind == "ClusterRole"
    then hash_ref rb.role_ref.name rb.namespace (role_revision revisions "" rb.role_ref.name) digest
    else digest

module _ (client : Client) where
  -- `getRules`
  unfoldable pub get_rules : String → RoleRef → List PolicyRule
  get_rules namespace ref =
      if ref.kind == "ClusterRole"
      then or_nil (client.get_cluster_role ref.name)
      else if ref.kind == "Role"
      then or_nil (client.get_role namespace ref.name)
      else []

  -- `getClusterRoleBindings`
  unfoldable pub get_cluster_role_bindings : PolicyRuleIndex → String → List ClusterRoleBinding
  get_cluster_role_bindings p subject_name =
      sort_by (λ b. b.name)
        (or_nil (client.list_cluster_role_bindings p.cluster_role_index_key subject_name))

  -- `getRoleBindings`
  unfoldable pub get_role_bindings : PolicyRuleIndex → String → List RoleBinding
  get_role_bindings p subject_name =
      sort_by (λ b. b.uid) (or_nil (client.list_role_bindings p.role_index_key subject_name))

  -- `addAccess`
  unfoldable pub add_access_of : String → RoleRef → AccessSet → AccessSet
  unfolding get_rules
  add_access_of namespace ref a = for_each (get_rules namespace ref) (add_rule namespace) a

  -- `get`
  unfoldable pub get : PolicyRuleIndex → String → AccessSet
  unfolding add_access_of
  get p subject_name =
      let result =
        for_each (get_role_bindings p subject_name) (λ b. add_access_of b.namespace b.role_ref)
          empty in
      for_each (get_cluster_role_bindings p subject_name) (λ b. add_access_of all_name b.role_ref)
        result

  -- `addRolesToHash`
  unfoldable pub add_roles_to_hash : PolicyRuleIndex → RoleRevisions → String → String → String
  unfolding get_cluster_role_bindings get_role_bindings
  add_roles_to_hash p revisions subject_name digest =
      let crbs =
        for_each (get_cluster_role_bindings p subject_name) (hash_cluster_role_binding revisions)
          digest in
      for_each (get_role_bindings p subject_name) (hash_role_binding revisions) crbs
