-- ===== src/AccessControl/Store/Unindexed.antt =====
-- The indexes that `NewAccessStore` registers do not serve the queries for role bindings.
use brent.Base.{String, ◌≡◌, ◌∙◌, Bool, true, false, none, List, arith, any, any-append}
use brent.AccessControl.Access.{GroupResource, all_name}
use brent.AccessControl.AccessSet.{grants}
use brent.AccessControl.PolicyRules.{Client, get, get_rules, or_nil}
use brent.AccessControl.PolicyRules.Semantics.{rule_matches, grants-get}
use brent.AccessControl.PolicyRules.Indexes.{
  FieldIndex, index_is, policy_rule_index, register_indexes, register_indexes-role_index_key,
}
use brent.AccessControl.Store.{registered_indexes}

-- The cache's reader fails to list by an index that was not registered.
abbrev pub NeedsIndex : List FieldIndex → Client → Type 0
NeedsIndex registered client =
    (key subject : String)
    → any (index_is "RoleBinding" key) registered ≡ false
    → client.list_role_bindings key subject ≡ none

-- With a client that lists only by registered indexes, role bindings are never read: whatever the
-- subject, its set grants exactly what its cluster role bindings allow.
pub grants-get_unindexed :
    (index_field : FieldIndex → Bool) (client : Client) (user : Bool) (subject verb : String)
    (gr : GroupResource) (ns name : String)
    → NeedsIndex (registered_indexes index_field) client
    → grants (get client (policy_rule_index user) subject) verb gr ns name
      ≡ any
          (λ b. any (rule_matches verb gr ns name all_name) (get_rules client all_name b.role_ref))
          (or_nil (
            client.list_cluster_role_bindings
              (policy_rule_index user).cluster_role_index_key
              subject))
unfolding registered_indexes
grants-get_unindexed index_field client user subject verb gr ns name needs =
    let key = (policy_rule_index user).role_index_key in
    let absent : client.list_role_bindings key subject ≡ none = needs key subject (
      ground (
        arith,
        any-append (index_is "RoleBinding" key) (register_indexes index_field true)
            (register_indexes index_field false),
        register_indexes-role_index_key index_field true user,
        register_indexes-role_index_key index_field false user,
      )) in
    grants-get verb gr ns name client (policy_rule_index user) subject ∙ rw absent
