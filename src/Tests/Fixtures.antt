-- ===== src/Tests/Fixtures.antt =====
-- A small cluster, a user, and concrete libraries for what brent takes from outside.
use brent.Base.{
  String, ◌≡◌, refl, Bool, true, false, Option, none, some, List, [], ◌∷◌, Dict, insert, lookup,
  string_eq, lookup-insert, ◌==◌, arith, if◌then◌else◌, ◌⊎◌, eq_iff,
}
use brent.AccessControl.Access.{Access, GroupResource}
use brent.AccessControl.AccessSet.{AccessSet}
use brent.AccessControl.PolicyRules.{Client, PolicyRule, RoleRef, RoleBinding}
use brent.AccessControl.Store.{UserInfo, ResultCache}
use brent.Api.Errors.{ok}
use brent.Api.Types.{Schema, ApiSchema, Value, text, flag, texts}
use brent.Api.Attributes.{Convert}
use brent.Api.Schemas.{Schemer}

abbrev pub pods : GroupResource
pods = record { group = ""; resource = "pods" }

abbrev pub in_dev : Access
in_dev = record { namespace = "dev"; resource_name = "*" }

abbrev pub pod_rule : PolicyRule
pod_rule = record {
  verbs = "get" ∷ "delete" ∷ [];
  api_groups = "" ∷ [];
  resources = "pods" ∷ [];
  resource_names = [];
}

abbrev reader_ref : RoleRef
reader_ref = record { kind = "Role"; name = "reader" }

abbrev bind_alice : RoleBinding
bind_alice = record { uid = "1"; namespace = "dev"; subjects = []; role_ref = reader_ref }

abbrev role_bindings_of : String → List RoleBinding
role_bindings_of s = if s == "alice" then bind_alice ∷ [] else []

-- alice is bound to a role in one namespace; no index of role bindings is needed
abbrev pub cluster : Client
cluster = record {
  get_cluster_role = λ name. none;
  get_role = λ namespace name. some (pod_rule ∷ []);
  list_cluster_role_bindings = λ key subject. some [];
  list_role_bindings = λ key subject. some (role_bindings_of subject);
}

-- the same cluster behind a reader without indexes of role bindings
abbrev pub unindexed_cluster : Client
unindexed_cluster = record cluster { list_role_bindings = λ key subject. none }

abbrev pub alice : UserInfo
alice = record { name = "alice"; groups = "staff" ∷ [] }

pub plain_find-put :
    (V : Type 0) (j k : String) (v w : V) (c : Dict String V)
    → lookup j (insert k v c) ≡ some w
    → ((j ≡ k) × (w ≡ v)) ⊎ (lookup j c ≡ some w)
plain_find-put V j k v w c h = ground (arith, lookup-insert k j v c, eq_iff k j)

-- a cache that never forgets
abbrev pub plain_cache : (V : Type 0) → ResultCache V
plain_cache V = record {
  Carrier = Dict String V;
  find = λ k c. lookup k c;
  put = λ k v c. insert k v c;
  find-put = λ j k v w c h. plain_find-put V j k v w c h;
}

abbrev to_string : Option Value → String
to_string (some (text s)) = s
to_string _ = ""

abbrev to_bool : Option Value → Bool
to_bool (some (flag b)) = b
to_bool _ = false

abbrev to_string_slice : Option Value → List String
to_string_slice (some (texts l)) = l
to_string_slice _ = []

instance abbrev pub plain_convert : Convert
plain_convert = record {
  to_string = to_string;
  to_bool = to_bool;
  to_string_slice = to_string_slice;
  to_string-text = λ s. refl;
  to_string-none = refl;
  to_bool-flag = λ b. refl;
  to_string_slice-texts = λ l. refl;
}

pub found_again :
    (s : Schema) (i j : Dict String Schema)
    → ok (insert s.id s i) ≡ ok j
    → (t : Schema) × (lookup s.id j ≡ some t)
      × (t.id ≡ s.id)
      × (t.collection_methods ≡ s.collection_methods)
      × (t.resource_methods ≡ s.resource_methods)
      × (t.attributes ≡ s.attributes)
found_again s i j h =
    (s, ground (arith, h, lookup-insert s.id s.id s i, eq_iff s.id s.id), refl, refl, refl, refl)

-- schemas by identifier
abbrev pub plain_schemer : Schemer
plain_schemer = record {
  Internal = Dict String Schema;
  empty_internal = [];
  add_internal = λ s i. ok (insert s.id s i);
  find_internal = λ id i. lookup id i;
  find-add = λ s i j h. found_again s i j h;
}

abbrev pub schema_of : String → Dict String Value → ApiSchema
schema_of id attributes = record {
  schema = record {
    id = id;
    plural_name = id;
    collection_methods = [];
    resource_methods = [];
    collection_actions = [];
    resource_actions = [];
    resource_fields = [];
    attributes = attributes;
  };
  action_handlers = [];
  link_handlers = [];
  list_handler = none;
  by_id_handler = none;
  create_handler = none;
  delete_handler = none;
  update_handler = none;
  formatter = [];
  request_modifier = none;
  error_handler = none;
  store = none;
}

abbrev pub pod_schema : ApiSchema
pod_schema = schema_of "pod" (
    ("resource", text "pods")
    ∷ ("verbs", texts ("get" ∷ "list" ∷ "delete" ∷ []))
    ∷ ("namespaced", flag true)
    ∷ [])

abbrev pub namespace_schema : ApiSchema
namespace_schema =
    schema_of "namespace"
      (("resource", text "namespaces") ∷ ("verbs", texts ("get" ∷ "list" ∷ [])) ∷ [])

abbrev pub pod_reader : AccessSet
pod_reader = record {
  id = "r";
  set = (record { verb = "get"; gr = pods }, (in_dev, true) ∷ []) ∷ [];
}
