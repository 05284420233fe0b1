-- ===== src/AccessControl/PolicyRules/Indexes.antt =====
-- `newPolicyRuleIndex`: the index keys that it chooses and the indexes that it registers.
use brent.Base.{
  String, Bool, true, false, ◌&&◌, List, [], ◌∷◌, ◌==◌, string_eq, if◌then◌else◌, ◌<>◌, any, ◌≡◌,
  arith, arith, arith, arith,
}
use brent.AccessControl.PolicyRules.{PolicyRuleIndex}

-- An index of the client's cache: the kind of the indexed objects, and the index's key.
pub record FieldIndex : Type 0 where
  pub object : String
  pub key : String

abbrev kind_of : Bool → String
kind_of user = if user then "User" else "Group"

-- the result of `newPolicyRuleIndex`; an error of `IndexField` is dropped, so it has no other
unfoldable pub policy_rule_index : Bool → PolicyRuleIndex
policy_rule_index user = record {
  kind = kind_of user;
  cluster_role_index_key = "crb" <> kind_of user;
  role_index_key = "rb" <> kind_of user;
}

-- The indexes that `newPolicyRuleIndex` leaves registered; `index_field` says whether the client
-- accepts one, and a refusal of the first ends the function.
unfoldable pub register_indexes : (FieldIndex → Bool) → Bool → List FieldIndex
unfolding policy_rule_index
register_indexes index_field user =
    let pi = policy_rule_index user in
    let crb : FieldIndex = record {
      object = "ClusterRoleBinding";
      key = pi.cluster_role_index_key;
    } in
    let rb : FieldIndex = record { object = "RoleBinding"; key = pi.cluster_role_index_key } in
    if index_field crb then (crb ∷ (if index_field rb then rb ∷ [] else [])) else []

abbrev pub index_is : String → String → FieldIndex → Bool
index_is object key i = i.object == object && i.key == key

-- No index of role bindings is registered under the key that a policy rule index queries them by.
pub register_indexes-role_index_key :
    (index_field : FieldIndex → Bool) (user queried : Bool)
    → any
        (index_is "RoleBinding" (policy_rule_index queried).role_index_key)
        (register_indexes index_field user)
      ≡ false
unfolding register_indexes
register_indexes-role_index_key index_field true true = ground arith
register_indexes-role_index_key index_field true false = ground arith
register_indexes-role_index_key index_field false true = ground arith
register_indexes-role_index_key index_field false false = ground arith
