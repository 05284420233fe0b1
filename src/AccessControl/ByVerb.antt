-- ===== src/AccessControl/ByVerb.antt =====
-- `AccessListByVerb` of pkg/accesscontrol/access_set.go: the grants that a schema carries.
pub mod Granted
use brent.Base.{
  String, Bool, true, false, not, ◌&&◌, ◌||◌, Option, none, some, List, [], ◌∷◌, ◌==◌, string_eq,
  if◌then◌else◌, any, contains, for_each, Dict, lookup, insert,
}
use brent.AccessControl.Access.{Access, AccessList, all_name, list_grants}

abbrev pub AccessListByVerb : Type 0
AccessListByVerb = Dict String AccessList

abbrev pub or_no_access : Option AccessList → AccessList
or_no_access none = []
or_no_access (some l) = l

-- `a[verb]`
abbrev pub at_verb : AccessListByVerb → String → AccessList
at_verb a verb = or_no_access (lookup verb a)

-- `AccessListByVerb.Grants`
unfoldable pub by_verb_grants : AccessListByVerb → String → String → String → Bool
by_verb_grants a verb namespace name = list_grants (at_verb a verb) namespace name

-- `AccessListByVerb.All`
unfoldable pub grants_all : AccessListByVerb → String → Bool
unfolding by_verb_grants
grants_all a verb = by_verb_grants a verb all_name all_name

-- `names` is the set that the code allocates at the first insertion
pub record Resources : Type 0 where
  pub all : Bool
  pub names : List String

abbrev pub no_resources : Resources
no_resources = record { all = false; names = [] }

abbrev pub or_no_resources : Option Resources → Resources
or_no_resources none = no_resources
or_no_resources (some r) = r

abbrev pub set_insert : String → List String → List String
set_insert x xs = if contains xs x then xs else x ∷ xs

abbrev pub widen_resources : String → Resources → Resources
widen_resources resource_name r =
    if resource_name == all_name
    then record r { all = true }
    else record r { names = set_insert resource_name r.names }

-- the loop over `a[verb]` in `Granted`
abbrev pub grant_access : Access → Dict String Resources → Dict String Resources
grant_access access result =
    insert access.namespace
      (widen_resources access.resource_name (or_no_resources (lookup access.namespace result)))
      result

-- the loop over `a["get"]` in `Granted`
abbrev pub grant_named : Access → Dict String Resources → Dict String Resources
grant_named access result =
    if access.resource_name == all_name || access.resource_name == ""
    then result
    else grant_access access result

-- `Granted`
unfoldable pub granted : AccessListByVerb → String → Dict String Resources
granted a verb =
    let result = for_each (at_verb a verb) grant_access [] in
    if verb == "list" then for_each (at_verb a "get") grant_named result else result

abbrev pub is_empty {ℓ} : {A : Type ℓ} → List A → Bool
is_empty [] = true
is_empty (x ∷ xs) = false

-- `AnyVerb`
unfoldable pub any_verb : AccessListByVerb → List String → Bool
any_verb a verbs = any (λ v. not (is_empty (at_verb a v))) verbs
