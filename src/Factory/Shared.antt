-- ===== src/Factory/Shared.antt =====
-- What the visits of users leave in the collection's own schemas.
use brent.Base.{
  ◌+◌, String, ◌≡◌, ap, ◌∙◌, true, false, List, [], ◌∷◌, ◌++◌, arith, ◌==◌, length, string_eq,
}
use brent.AccessControl.AccessSet.{AccessSet}
use brent.AccessControl.ByVerb.{is_empty}
use brent.Api.Types.{ApiSchema, method_get}
use brent.Api.Attributes.{Convert, gr, verbs, attribute, namespaced}
use brent.Factory.{
  visit, verb_access, is_namespaces, namespace_access, touch_shared, add_collection_method,
}

length-snoc : (xs : List String) (x : String) → length (xs ++ x ∷ []) ≡ length xs + 1
length-snoc [] x = omega arith
length-snoc (y ∷ xs) x = omega (arith, length-snoc xs x)

module _ ⦃conv : Convert⦄ where
  -- the collection's schema after the visits of some users, in order
  pub visits : List AccessSet → ApiSchema → ApiSchema
  visits [] s = s
  visits (a ∷ as_) s = visits as_ (visit a s).shared

  -- no grant on the resource, and none to get or list in any namespace
  abbrev pub HasNoAccess : ApiSchema → AccessSet → Type 0
  HasNoAccess s a = (is_empty (verb_access a s) ≡ true) × (is_empty (namespace_access a) ≡ true)

  abbrev pub AllHaveNoAccess : ApiSchema → List AccessSet → Type 0
  AllHaveNoAccess s [] = Unit
  AllHaveNoAccess s (a ∷ as_) = HasNoAccess s a × AllHaveNoAccess s as_

  abbrev pub IsCoreNamespaces : ApiSchema → Type 0
  IsCoreNamespaces s = (is_namespaces (gr s) ≡ true) × (((gr s).resource == "") ≡ false)

  shared-visit :
      (a : AccessSet) (s : ApiSchema)
      → IsCoreNamespaces s
      → HasNoAccess s a
      → (visit a s).shared ≡ add_collection_method method_get s
  unfolding visit touch_shared
  shared-visit a s (core, real) (m, n) = rw (real, m, core, n)

  HasNoAccess-touch :
      (s : ApiSchema) (as_ : List AccessSet)
      → AllHaveNoAccess s as_
      → AllHaveNoAccess (add_collection_method method_get s) as_
  unfolding verb_access gr verbs attribute namespaced
  HasNoAccess-touch s [] h = tt
  HasNoAccess-touch s (a ∷ as_) h = (h.0, HasNoAccess-touch s as_ h.1)

  -- The visit of a user with no access is kept in the collection: after the visits of n such
  -- users the collection's own `namespaces` schema has n collection methods more.
  pub length-visits :
      (as_ : List AccessSet) (s : ApiSchema)
      → IsCoreNamespaces s
      → AllHaveNoAccess s as_
      → length (visits as_ s).collection_methods ≡ length s.collection_methods + length as_
  unfolding visits gr attribute
  length-visits [] s core h = omega arith
  length-visits (a ∷ as_) s core (here, later) =
      ap (λ t. length (visits as_ t).collection_methods) (shared-visit a s core here)
      ∙ length-visits as_ (add_collection_method method_get s) core (HasNoAccess-touch s as_ later)
      ∙ omega (arith, length-snoc s.collection_methods method_get)
