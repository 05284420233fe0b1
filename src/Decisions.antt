-- ===== src/Decisions.antt =====
-- pkg/accesscontrol/schemabasedaccess.go and access_control.go: the checks of one request. A nil
-- error is `none`; `CanDo` may also panic.
pub mod Verdict
use Prim.Native.String
use brent.Base.{
  String, Bool, true, false, not, ◌&&◌, ◌||◌, Option, none, some, List, ◌==◌, string_eq,
  if◌then◌else◌, contains, is_some, Dict, lookup, cut, ◌<>◌,
}
use brent.AccessControl.Access.{list_grants}
use brent.AccessControl.AccessSet.{AccessSet, grants}
use brent.AccessControl.ByVerb.{at_verb}
use brent.Api.Errors.{Error, Result, ok, err, panic, permission_denied, new_api_error, ◌>>=◌}
use brent.Api.Types.{
  ApiSchema, Value, access_set, method_get, method_post, method_put, method_delete,
}
use brent.Api.Attributes.{Convert, kind, get_access_list_map}
use brent.Api.Schemas.{Schemer, ApiSchemas, lookup_schema}

abbrev pub allow_if : Bool → String → Option Error
allow_if true message = none
allow_if false message = some (new_api_error permission_denied message)

-- the methods of `SchemaBasedAccess`, in the order of the file
unfoldable pub can_create : ApiSchema → Option Error
can_create s = allow_if (contains s.collection_methods method_post) ("can not create " <> s.id)

unfoldable pub can_get : ApiSchema → Option Error
can_get s = allow_if (contains s.resource_methods method_get) ("can not get " <> s.id)

unfoldable pub can_list : ApiSchema → Option Error
can_list s =
    allow_if (contains s.collection_methods method_get || contains s.collection_methods method_post)
      ("can not list " <> s.id)

unfoldable pub can_update : ApiSchema → Option Error
can_update s = allow_if (contains s.resource_methods method_put) ("can not update " <> s.id)

unfoldable pub can_delete : ApiSchema → Option Error
can_delete s = allow_if (contains s.resource_methods method_delete) ("can not delete " <> s.id)

unfoldable pub can_action : ApiSchema → String → Option Error
can_action s name = allow_if (is_some (lookup name s.action_handlers)) ("no such action " <> name)

-- the format "can not %s %s %s/%s" with the verb appended to it, and one argument too few
abbrev pub can_not : String → String → String → String → String
can_not a b c verb = "can not " <> (a <> (" " <> (b <> (" " <> (c <> ("/%!s(MISSING)" <> verb))))))

-- `SchemaBasedAccess.CanDo`, after its lookup of the schema
unfoldable pub schema_can_do : Option ApiSchema → String → String → String → String → Option Error
unfolding can_list can_delete can_update can_create
schema_can_do none resource verb namespace name =
    some (new_api_error permission_denied (can_not resource namespace name verb))
schema_can_do (some s) resource verb namespace name =
    if verb == method_get
    then can_list s
    else if verb == method_delete
    then can_delete s
    else if verb == method_put
    then can_update s
    else if verb == method_post
    then can_create s
    else some (new_api_error permission_denied (can_not s.id namespace name verb))

-- the type assertion on the attribute that holds the user's set
abbrev pub assert_access_set : Option Value → Result AccessSet
assert_access_set (some (access_set a)) = ok a
assert_access_set _ = panic

abbrev pub split_resource : String × String × Bool → String × String
split_resource t = (t.0, t.1)

module _ ⦃conv : Convert⦄ where
  -- a schema of a Kubernetes kind
  abbrev pub has_kind : ApiSchema → Bool
  has_kind s = not (kind s == "")

  -- `AccessControl.CanWatch`
  unfoldable pub can_watch : ApiSchema → Option Error
  unfolding can_list
  can_watch s =
      if has_kind s && is_some (lookup "watch" (get_access_list_map (some s)))
      then none
      else can_list s

  abbrev pub schema_grants : Option ApiSchema → String → String → String → Bool
  schema_grants none verb namespace name = false
  schema_grants (some s) verb namespace name =
      has_kind s && list_grants (at_verb (get_access_list_map (some s)) verb) namespace name

  module _ (lib : Schemer) where
    -- `AccessControl.CanDo`: once the first test has failed, `resource` is what follows its slash
    unfoldable pub can_do :
        ApiSchemas lib → String → String → String → String → Result (Option Error)
    unfolding schema_can_do
    can_do schemas resource verb namespace name =
        if schema_grants (lookup_schema lib resource schemas) verb namespace name
        then ok none
        else assert_access_set (lookup "accessSet" schemas.attributes) >>= λ a.
            let gr = split_resource (cut b'/' resource) in
            if grants a verb (record { group = gr.0; resource = gr.1 }) namespace name
            then ok none
            else ok (schema_can_do (lookup_schema lib gr.1 schemas) gr.1 verb namespace name)
