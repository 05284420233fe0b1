-- ===== src/Stores/Composed/Confined.antt =====
-- A list through the whole proxy store: whose objects it can hold.
use brent.Base.{
  String, ◌≡◌, refl, ap, Bool, true, false, ◌&&◌, ◌||◌, Option, none, some, List, [], ◌∷◌, Dict,
  ◌==◌, string_eq, keep, contains, all, arith, Bool-cases, if◌then◌else◌, inl, inr, both,
}
use brent.Api.Errors.{Error, Result, ok, Gives, Gives->>=, Gives-ok}
use brent.Api.Types.{ApiSchema}
use brent.Api.Objects.{ApiObject, ApiObjectList}
use brent.Api.Attributes.{Convert}
use brent.Api.Schemas.{Schemer}
use brent.Requests.Parse.{ApiRequest}
use brent.Stores.Composed.{in_partition, partition_backend}
use brent.Stores.Proxy.{
  Outside, ResourceClient, list_options, list_with, list_objects, by_names, unless_error,
  empty_list, params_of,
}
use brent.Stores.Rbac.{Partition, list_of_partition}
use brent.Stores.Tables.{ObjectLib, ContentList, object_name, object_namespace, to_api_list}
use brent.Stores.Tables.Rows.{OfNamespace, objects-in_ns}

pub all-weaken :
    (p q : ApiObject → Bool)
    → ((o : ApiObject) → p o ≡ true → q o ≡ true)
    → (l : List ApiObject) → all p l ≡ true
    → all q l ≡ true
all-weaken p q f [] h = refl
all-weaken p q f (x ∷ l) h = both (f x (ground (arith, h))) (all-weaken p q f l (ground (arith, h)))

all-keep :
    (p q : ApiObject → Bool) (l : List ApiObject)
    → all q l ≡ true
    → all (λ o. p o && q o) (keep p l) ≡ true
all-keep p q [] h = refl
all-keep p q (x ∷ l) h = elim (Bool-cases (p x)) [
  | inl kept ↦ rw kept (both (both kept (ground (arith, h))) (all-keep p q l (ground (arith, h))))
  | inr dropped ↦ rw dropped (all-keep p q l (ground (arith, h)))
]

module _ (objects : ObjectLib) where
  -- A list of the cluster in a namespace holds only objects of this namespace.
  pub record RespectsNamespaces (C : Type 0) (outside : Outside objects C) : Type 0 where
    pub by_user :
        (s : ApiSchema) (ns : String) (client : ResourceClient C) (q : Dict String String) (c : C)
        (found : ContentList)
        → (ns == "") ≡ false
        → outside.table_client s ns ≡ ok client
        → client.list q c ≡ ok found
        → OfNamespace objects ns found
    pub by_admin :
        (s : ApiSchema) (ns : String) (client : ResourceClient C) (q : Dict String String) (c : C)
        (found : ContentList)
        → (ns == "") ≡ false
        → outside.table_admin_client s ns ≡ ok client
        → client.list q c ≡ ok found
        → OfNamespace objects ns found

  -- a list of namespace "" holds objects of any
  abbrev pub within : String → ApiObject → Bool
  within ns o = ns == "" || object_namespace objects o == ns

  all-within_any : (ns : String) (l : List ApiObject) → (ns == "") ≡ true → all (within ns) l ≡ true
  all-within_any ns [] h = refl
  all-within_any ns (o ∷ l) h =
      both (ap (λ b. b || object_namespace objects o == ns) h) (all-within_any ns l h)

  all-within :
      (ns : String) (l : List ApiObject)
      → ((ns == "") ≡ false → all (λ o. object_namespace objects o == ns) l ≡ true)
      → all (within ns) l ≡ true
  all-within ns l inside = elim (Bool-cases (ns == "")) [
    | inl anywhere ↦ all-within_any ns l anywhere
    | inr somewhere ↦
        all-weaken (λ o. object_namespace objects o == ns) (within ns)
          (λ o h. rw (somewhere, h) refl) l (inside somewhere)
  ]

  -- What the store of a partition can list, for a request in a namespace.
  abbrev pub serves : String → Partition → ApiObject → Bool
  serves request_ns p o =
      if p.passthrough
      then within request_ns o
      else if p.all
      then within p.namespace o
      else contains p.names (object_name objects o) && within p.namespace o

  abbrev Within : String → ApiObjectList → Type 0
  Within ns page = all (within ns) page.objects ≡ true

  unless_error-Within :
      (ns : String) (o : Option Error) (rest : Result ApiObjectList)
      → Gives (Within ns) rest
      → Gives (Within ns) (unless_error o rest (λ e. ok empty_list))
  unless_error-Within ns none rest h = h
  unless_error-Within ns (some e) rest h = refl

  abbrev Named : String → List String → ApiObjectList → Type 0
  Named ns names page =
      all (λ o. contains names (object_name objects o) && within ns o) page.objects ≡ true

  abbrev pub Served : String → Partition → ApiObjectList → Type 0
  Served request_ns p page = all (serves request_ns p) page.objects ≡ true

module _ {schemer : Schemer} {C : Type 0} ⦃conv : Convert⦄ (objects : ObjectLib)
    (outside : Outside objects C) where
  list_with-Within :
      (op : ApiRequest schemer) (s : ApiSchema) (client : ResourceClient C) (c : C) (ns : String)
      → ((found : ContentList)
          → (ns == "") ≡ false
          → client.list (params_of objects C outside op) c ≡ ok found
          → OfNamespace objects ns found)
      → Gives (Within objects ns) (list_with objects C outside op s client c)
  unfolding list_with
  list_with-Within op s client c ns law =
      unless_error-Within objects ns
        (outside.decode_params list_options (params_of objects C outside op)) _
        (Gives->>= (Within objects ns) (client.list (params_of objects C outside op) c) _
          λ found read.
            all-within objects ns (to_api_list objects s found).objects
              (λ somewhere. objects-in_ns objects ns s found (law found somewhere read)))

  module _ (law : RespectsNamespaces objects C outside) where
    list_objects-Within :
        (op : ApiRequest schemer) (s : ApiSchema) (c : C)
        → Gives (Within objects op.namespace) (list_objects objects C outside op s c)
    unfolding list_objects
    list_objects-Within op s c =
        Gives->>= (Within objects op.namespace) (outside.table_client s op.namespace) _
          λ client got. list_with-Within op s client c op.namespace λ found somewhere read.
            law.by_user s op.namespace client (params_of objects C outside op) c found somewhere got
              read

    by_names-Named :
        (op : ApiRequest schemer) (s : ApiSchema) (names : List String) (c : C)
        → Gives (Named objects op.namespace names) (by_names objects C outside op s names c)
    unfolding by_names
    by_names-Named op s names c = elim (Bool-cases (op.namespace == "*")) [
      | inl everywhere ↦ rw everywhere refl
      | inr somewhere ↦ rw somewhere (
          Gives->>= (Named objects op.namespace names) (outside.table_admin_client s op.namespace) _
            λ client got.
              Gives->>= (Named objects op.namespace names)
                (list_with objects C outside op s client c) _
                λ page read.
                  all-keep (λ o. contains names (object_name objects o))
                    (within objects op.namespace) page.objects
                    (Gives-ok (Within objects op.namespace)
                      (list_with objects C outside op s client c) page
                      (list_with-Within op s client c op.namespace λ found elsewhere seen.
                        law.by_admin s op.namespace client (params_of objects C outside op) c found
                          elsewhere got seen)
                      read))
    ]

    pub partition_backend-serves :
        (op : ApiRequest schemer) (s : ApiSchema) (p : Partition) (c : C)
        → Gives (Served objects op.namespace p) ((partition_backend objects outside p).list op s c)
    unfolding partition_backend list_of_partition
    partition_backend-serves op s p c = elim (Bool-cases p.passthrough) [
      | inl through ↦ rw through (list_objects-Within op s c)
      | inr split ↦ elim (Bool-cases p.all) [
        | inl whole ↦
            rw (split, whole)
              (list_objects-Within (in_partition objects outside op p.namespace) s c)
        | inr part ↦
            rw (split, part)
              (by_names-Named (in_partition objects outside op p.namespace) s p.names c)
      ]
    ]
