-- ===== src/AccessControl/PolicyRules/Semantics.antt =====
-- What a subject's set grants, in terms of the bindings and the rules themselves.
use brent.Base.{
  String, ◌≡◌, ◌∙◌, ap, Bool, true, false, [], ◌∷◌, ◌&&◌, ◌||◌, List, arith, string_eq, any,
  any-sort_by, any-and_right, for_each, for_each-any,
}
use brent.AccessControl.Access.{GroupResource, all_name}
use brent.AccessControl.AccessSet.{AccessSet, empty, add, grants}
use brent.AccessControl.AccessSet.Grants.{covers_name, grants-add}
use brent.AccessControl.PolicyRules.{
  PolicyRule, PolicyRuleIndex, Client, RoleRef, RoleBinding, ClusterRoleBinding, get_rules,
  get_role_bindings, get_cluster_role_bindings, names_of, add_rule, add_access_of, get, or_nil,
}

module _ (verb : String) (gr : GroupResource) (ns name : String) where
  abbrev pub is_unnamed : List String → Bool
  is_unnamed [] = true
  is_unnamed (n ∷ names) = false

  -- A rule, bound in a namespace (`*` for a cluster role binding), matches the request: its verbs,
  -- groups and resources each hold `*` or the wanted one, its names too or there are none, and the
  -- namespace is `*` or the wanted one. (Kubernetes itself has no `*` among the names.)
  abbrev pub rule_matches : String → PolicyRule → Bool
  rule_matches namespace rule =
      any (λ v. covers_name v verb) rule.verbs
      && (any (λ g. covers_name g gr.group) rule.api_groups
          && (any (λ r. covers_name r gr.resource) rule.resources
              && ((is_unnamed rule.resource_names
                    || any (λ n. covers_name n name) rule.resource_names)
                  && covers_name namespace ns)))

  names_of-unnamed :
      (names : List String)
      → any (λ n. covers_name n name) (names_of names)
        ≡ (is_unnamed names || any (λ n. covers_name n name) names)
  names_of-unnamed [] = ground arith
  names_of-unnamed (n ∷ names) = ground arith

  abbrev test : AccessSet → Bool
  test a = grants a verb gr ns name

  module _ (namespace : String) where
    grants-verbs :
        (group resource resource_name : String) (verbs : List String) (a : AccessSet)
        → test (
            for_each verbs
              (λ v.
                add v
                  (record { group = group; resource = resource })
                  (record { namespace = namespace; resource_name = resource_name }))
              a)
          ≡ ((any (λ v. covers_name v verb) verbs
                && (covers_name group gr.group
                    && (covers_name resource gr.resource
                        && (covers_name resource_name name && covers_name namespace ns))))
              || test a)
    grants-verbs group resource resource_name verbs a =
        let rest : Bool =
          covers_name group gr.group
          && (covers_name resource gr.resource
              && (covers_name resource_name name && covers_name namespace ns)) in
        for_each-any test (λ v. covers_name v verb && rest) _
          (λ v s. ground (
            arith,
            grants-add verb gr ns name v (record { group = group; resource = resource })
                (record { namespace = namespace; resource_name = resource_name }) s,
          ))
          verbs a
        ∙ ap (λ b. b || test a) (any-and_right rest (λ v. covers_name v verb) verbs)

    -- one loop around: a factor that depends on the loop's element is taken out of the loop
    grants-loop :
        (wanted : String) (b : Bool) (f : String → AccessSet → AccessSet)
        → ((x : String) (s : AccessSet) → test (f x s) ≡ ((covers_name x wanted && b) || test s))
        → (xs : List String) (a : AccessSet)
        → test (for_each xs f a) ≡ ((any (λ x. covers_name x wanted) xs && b) || test a)
    grants-loop wanted b f step xs a =
        for_each-any test (λ x. covers_name x wanted && b) f step xs a
        ∙ ap (λ c. c || test a) (any-and_right b (λ x. covers_name x wanted) xs)

    grants-add_rule :
        (rule : PolicyRule) (a : AccessSet)
        → test (add_rule namespace rule a) ≡ (rule_matches namespace rule || test a)
    grants-add_rule rule a =
        let verbs : Bool = any (λ v. covers_name v verb) rule.verbs in
        let names : Bool = any (λ n. covers_name n name) (names_of rule.resource_names) in
        let resources : Bool = any (λ r. covers_name r gr.resource) rule.resources in
        let inside : Bool = covers_name namespace ns in
        grants-loop gr.group (verbs && (resources && (names && inside))) _
          (λ group s.
            grants-loop gr.resource (verbs && (covers_name group gr.group && (names && inside))) _
              (λ resource s'.
                grants-loop name
                  (verbs
                    && (covers_name group gr.group && (covers_name resource gr.resource && inside)))
                  _
                  (λ resource_name s''.
                    grants-verbs group resource resource_name rule.verbs s'' ∙ ground arith)
                  (names_of rule.resource_names) s'
                ∙ ground arith)
              rule.resources s
            ∙ ground arith)
          rule.api_groups a
        ∙ ground (arith, names_of-unnamed rule.resource_names)

    grants-add_access_of :
        (client : Client) (ref : RoleRef) (a : AccessSet)
        → test (add_access_of client namespace ref a)
          ≡ (any (rule_matches namespace) (get_rules client namespace ref) || test a)
    unfolding add_access_of
    grants-add_access_of client ref a =
        for_each-any test (rule_matches namespace) (add_rule namespace) grants-add_rule
          (get_rules client namespace ref) a

  -- Whatever the client lists for a subject under the two keys of an index: the subject's set grants a
  -- request exactly when a role binding of the first list, in its namespace, or a cluster role binding of
  -- the second, in all, refers to a role with a rule that matches the request, where `*` matches
  -- all, among the names too, and no names match all.
  pub grants-get :
      (client : Client) (p : PolicyRuleIndex) (subject_name : String)
      → grants (get client p subject_name) verb gr ns name ≡ (
          any
            (λ b. any (rule_matches b.namespace) (get_rules client b.namespace b.role_ref))
            (or_nil (client.list_role_bindings p.role_index_key subject_name))
          || any
              (λ b. any (rule_matches all_name) (get_rules client all_name b.role_ref))
              (or_nil (client.list_cluster_role_bindings p.cluster_role_index_key subject_name)))
  unfolding get get_role_bindings get_cluster_role_bindings grants
  grants-get client p subject_name =
      let rbs = or_nil (client.list_role_bindings p.role_index_key subject_name) in
      let crbs = or_nil (client.list_cluster_role_bindings p.cluster_role_index_key subject_name) in
      let by_role : RoleBinding → Bool =
        λ b. any (rule_matches b.namespace) (get_rules client b.namespace b.role_ref) in
      let by_cluster_role : ClusterRoleBinding → Bool =
        λ b. any (rule_matches all_name) (get_rules client all_name b.role_ref) in
      let result : AccessSet =
        for_each (get_role_bindings client p subject_name)
          (λ b. add_access_of client b.namespace b.role_ref) empty in
      let roles : test result ≡ (any by_role rbs || false) =
        for_each-any test by_role _ (λ b s. grants-add_access_of b.namespace client b.role_ref s)
          (get_role_bindings client p subject_name) empty
        ∙ ap (λ b. b || false) (any-sort_by (λ b. b.uid) by_role rbs) in
      for_each-any test by_cluster_role _ (λ b s. grants-add_access_of all_name client b.role_ref s)
        (get_cluster_role_bindings client p subject_name) result
      ∙ ap (λ b. b || test result) (any-sort_by (λ b. b.name) by_cluster_role crbs)
      ∙ ground (arith, roles)
