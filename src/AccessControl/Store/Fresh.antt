-- ===== src/AccessControl/Store/Fresh.antt =====
-- What `AccessFor` computes when the cache has nothing.
use brent.Base.{String, ◌≡◌, true, false, ◌||◌, any, for_each-any, for_each_inv}
use brent.AccessControl.Access.{GroupResource, all_name}
use brent.AccessControl.AccessSet.{AccessSet, empty, grants}
use brent.AccessControl.AccessSet.Laws.{NodupKeys, add-NodupKeys}
use brent.AccessControl.AccessSet.Grants.{grants-merge}
use brent.AccessControl.PolicyRules.{
  Client, PolicyRule, PolicyRuleIndex, RoleRef, get, add_rule, add_access_of, names_of, get_rules,
  get_role_bindings, get_cluster_role_bindings,
}
use brent.AccessControl.PolicyRules.Indexes.{policy_rule_index}
use brent.AccessControl.Store.{UserInfo, compute_access}

abbrev HasDistinct : AccessSet → Type 0
HasDistinct a = NodupKeys a.set

add_rule-NodupKeys :
    (namespace : String) (rule : PolicyRule) (a : AccessSet)
    → HasDistinct a
    → HasDistinct (add_rule namespace rule a)
add_rule-NodupKeys namespace rule a h =
    for_each_inv HasDistinct _
      (λ group.
        for_each_inv HasDistinct _
          (λ resource.
            for_each_inv HasDistinct _
              (λ resource_name.
                for_each_inv HasDistinct _ (λ verb s k. add-NodupKeys verb _ _ s k) rule.verbs)
              (names_of rule.resource_names))
          rule.resources)
      rule.api_groups a h

add_access_of-NodupKeys :
    (client : Client) (namespace : String) (ref : RoleRef) (a : AccessSet)
    → HasDistinct a
    → HasDistinct (add_access_of client namespace ref a)
unfolding add_access_of
add_access_of-NodupKeys client namespace ref a h =
    for_each_inv HasDistinct (add_rule namespace) (add_rule-NodupKeys namespace)
      (get_rules client namespace ref) a h

pub get-NodupKeys :
    (client : Client) (p : PolicyRuleIndex) (subject : String) → HasDistinct (get client p subject)
unfolding get
get-NodupKeys client p subject =
    for_each_inv HasDistinct _ (λ b s h. add_access_of-NodupKeys client all_name b.role_ref s h)
      (get_cluster_role_bindings client p subject) _
      (for_each_inv HasDistinct _
        (λ b s h. add_access_of-NodupKeys client b.namespace b.role_ref s h)
        (get_role_bindings client p subject) empty tt)

-- A user is granted what the index grants to the user's name or to any of the user's groups.
pub grants-compute_access :
    (client : Client) (user : UserInfo) (verb : String) (gr : GroupResource) (ns name : String)
    → grants (compute_access client user) verb gr ns name ≡ (
        any
          (λ group. grants (get client (policy_rule_index false) group) verb gr ns name)
          user.groups
        || grants (get client (policy_rule_index true) user.name) verb gr ns name)
unfolding compute_access
grants-compute_access client user verb gr ns name =
    for_each-any (λ a. grants a verb gr ns name) _ _
      (λ group a.
        grants-merge verb gr ns name a (get client (policy_rule_index false) group)
          (get-NodupKeys client (policy_rule_index false) group))
      user.groups (get client (policy_rule_index true) user.name)
