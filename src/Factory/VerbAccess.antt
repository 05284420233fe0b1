-- ===== src/Factory/VerbAccess.antt =====
-- The grants that a user's copy of a schema carries.
use brent.Base.{
  String, ◌≡◌, refl, not, ◌&&◌, some, List, [], ◌∷◌, arith, ◌==◌, eq_iff, string_eq, if◌then◌else◌,
  any, any-keep, contains, for_each, lookup-insert, lookup-insert,
}
use brent.AccessControl.Access.{access_grants, list_grants}
use brent.AccessControl.AccessSet.{AccessSet, access_list_for, grants}
use brent.AccessControl.AccessSet.Grants.{list_grants-access_list_for}
use brent.AccessControl.ByVerb.{AccessListByVerb, at_verb, by_verb_grants, is_empty}
use brent.Api.Types.{ApiSchema}
use brent.Api.Attributes.{Convert, gr, verbs, namespaced}
use brent.Factory.{usable, add_verb, verb_access, cluster_wide}

module _ ⦃conv : Convert⦄ (access : AccessSet) (s : ApiSchema) where
  at_verb-add_verb :
      (verb v : String) (m : AccessListByVerb)
      → at_verb (add_verb access s verb m) v ≡ (
          if (verb == v && not (is_empty (usable access s v)))
          then usable access s v
          else at_verb m v)
  at_verb-add_verb verb v m =
      ground (arith, lookup-insert verb v (usable access s verb) m, eq_iff verb v)

  at_verb-loop :
      (l : List String) (v : String) (m : AccessListByVerb)
      → at_verb (for_each l (add_verb access s) m) v ≡ (
          if (contains l v && not (is_empty (usable access s v)))
          then usable access s v
          else at_verb m v)
  at_verb-loop [] v m = refl
  at_verb-loop (verb ∷ l) v m =
      ground (arith, at_verb-loop l v (add_verb access s verb m), at_verb-add_verb verb v m)

  -- under each verb: the usable grants if the resource has that verb, and none otherwise
  pub at_verb-verb_access :
      (v : String)
      → at_verb (verb_access access s) v ≡ (if contains (verbs s) v then usable access s v else [])
  unfolding verb_access
  at_verb-verb_access v = ground (arith, at_verb-loop (verbs s) v [])

  -- The grants on the user's copy of a schema answer as the user's set does, restricted to the
  -- verbs of the resource and, for a resource without namespaces, to grants for all namespaces.
  pub verb_access-grants :
      (verb ns name : String)
      → by_verb_grants (verb_access access s) verb ns name ≡ (
          contains (verbs s) verb
          && (if namespaced (some s)
              then grants access verb (gr s) ns name
              else any
                  (λ x. cluster_wide x && access_grants x ns name)
                  (access_list_for access verb (gr s))))
  unfolding by_verb_grants list_grants
  verb_access-grants verb ns name = ground (
    arith,
    at_verb-verb_access verb,
    list_grants-access_list_for verb (gr s) ns name access,
    any-keep (λ x. access_grants x ns name) cluster_wide (access_list_for access verb (gr s)),
  )
