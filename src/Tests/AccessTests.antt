-- ===== src/Tests/AccessTests.antt =====
-- Grants, RBAC rules, the store of grants and its cache at concrete inputs.
use brent.Base.{
  String, ◌≡◌, refl, true, false, not, ◌&&◌, ◌||◌, none, some, [], ◌∷◌, ◌==◌, any, contains,
  IsSorted, string_eq,
}
use brent.AccessControl.Access.{list_grants, name_ok}
use brent.AccessControl.AccessSet.{empty, grants, access_list_for, add, namespaces}
use brent.AccessControl.AccessSet.Grants.{list_grants-access_list_for}
use brent.AccessControl.AccessSet.Namespaces.{readable_in, namespaces_lem}
use brent.AccessControl.ByVerb.{at_verb, granted}
use brent.AccessControl.ByVerb.Granted.{allows, names_one, allows-granted}
use brent.AccessControl.Revisions.{Request, role_revision}
use brent.AccessControl.Revisions.History.{role, replay, last_version, role_revision-replay}
use brent.AccessControl.PolicyRules.{get, get_rules, or_nil}
use brent.AccessControl.PolicyRules.Semantics.{rule_matches, grants-get}
use brent.AccessControl.PolicyRules.Indexes.{policy_rule_index}
use brent.AccessControl.Store.{compute_access}
use brent.AccessControl.Store.Fresh.{grants-compute_access}
use brent.AccessControl.Store.Unindexed.{grants-get_unindexed}
use brent.Tests.Fixtures.{pods, in_dev, cluster, unindexed_cluster, alice, pod_reader}

granted_pod : grants (add "get" pods in_dev empty) "get" pods "dev" "web" ≡ true
unfolding grants add
granted_pod = refl

list_grants-access_list_for_example :
    list_grants (access_list_for pod_reader "get" pods) "dev" "web"
    ≡ grants pod_reader "get" pods "dev" "web"
list_grants-access_list_for_example = list_grants-access_list_for "get" pods "dev" "web" pod_reader

namespaces_lem_example :
    IsSorted (λ s. s) (namespaces pod_reader)
    × ((ns : String)
        → contains (namespaces pod_reader) ns ≡ (not (ns == "*") && readable_in pod_reader ns))
namespaces_lem_example = namespaces_lem pod_reader

allows-granted_example : allows (granted (("get", in_dev ∷ []) ∷ []) "list") "dev" "web" ≡ (
    any (λ x. x.namespace == "dev" && name_ok x "web") (at_verb (("get", in_dev ∷ []) ∷ []) "list")
    || (◌==◌ {K = String} "list" "list"
        && any (names_one "dev" "web") (at_verb (("get", in_dev ∷ []) ∷ []) "get")))
allows-granted_example = allows-granted "dev" "web" (("get", in_dev ∷ []) ∷ []) "list"

abbrev updated : Request
updated = record { key = "dev/reader"; namespace = "dev"; name = "reader"; object = some "7" }

abbrev removed : Request
removed = record { key = "dev/reader"; namespace = ""; name = ""; object = none }

role_revision-replay_example :
    role_revision (replay (role updated ∷ role removed ∷ []) []) "dev" "reader"
    ≡ last_version
        (role updated ∷ role removed ∷ [])
        (record { namespace = "dev"; name = "reader" })
        (role_revision [] "dev" "reader")
role_revision-replay_example =
    role_revision-replay (role updated ∷ role removed ∷ []) "dev" "reader" []

grants-get_example :
    grants (get cluster (policy_rule_index true) "alice") "delete" pods "dev" "web" ≡ (
      any
        (λ b.
          any
            (rule_matches "delete" pods "dev" "web" b.namespace)
            (get_rules cluster b.namespace b.role_ref))
        (or_nil (cluster.list_role_bindings (policy_rule_index true).role_index_key "alice"))
      || any
          (λ b. any (rule_matches "delete" pods "dev" "web" "*") (get_rules cluster "*" b.role_ref))
          (or_nil (
            cluster.list_cluster_role_bindings
              (policy_rule_index true).cluster_role_index_key
              "alice")))
grants-get_example = grants-get "delete" pods "dev" "web" cluster (policy_rule_index true) "alice"

grants-compute_access_example : grants (compute_access cluster alice) "get" pods "dev" "web" ≡ (
    any
      (λ group. grants (get cluster (policy_rule_index false) group) "get" pods "dev" "web")
      alice.groups
    || grants (get cluster (policy_rule_index true) alice.name) "get" pods "dev" "web")
grants-compute_access_example = grants-compute_access cluster alice "get" pods "dev" "web"

grants-get_unindexed_example :
    grants (get unindexed_cluster (policy_rule_index true) "alice") "get" pods "dev" "web"
    ≡ any
        (λ b.
          any
            (rule_matches "get" pods "dev" "web" "*")
            (get_rules unindexed_cluster "*" b.role_ref))
        (or_nil (
          unindexed_cluster.list_cluster_role_bindings
            (policy_rule_index true).cluster_role_index_key
            "alice"))
grants-get_unindexed_example =
    grants-get_unindexed (λ i. true) unindexed_cluster true "alice" "get" pods "dev" "web"
      (λ key subject absent. refl)
