-- ===== src/Stores/Composed/Entitled.antt =====
-- A list of a user holds only objects that the user's grants cover.
use brent.Base.{
  ℕ, String, ◌≡◌, refl, sym, ap, ◌∙◌, Bool, true, not, ◌&&◌, ◌||◌, Option, none, some, List, [],
  ◌∷◌, ◌==◌, string_eq, any, all, arith, Bool-cases, inl, inr, eq_iff,
}
use brent.Api.Errors.{Error, Result, ok, err, panic, ok-injective, Gives, Gives->>=, Gives-ok}
use brent.Api.Types.{ApiSchema}
use brent.Api.Objects.{ApiObject, ApiObjectList}
use brent.Api.Attributes.{Convert, namespaced, get_access_list_map}
use brent.Api.Schemas.{Schemer}
use brent.AccessControl.ByVerb.{grants_all, granted}
use brent.AccessControl.ByVerb.Granted.{allows}
use brent.Requests.Http.{get_text}
use brent.Requests.Parse.{ApiRequest, or_root}
use brent.Stores.Composed.{
  error_store, partition_backend, rbac_partitioner, new_proxy_store, translated,
}
use brent.Stores.Composed.Confined.{
  RespectsNamespaces, serves, Served, partition_backend-serves, all-weaken,
}
use brent.Stores.Lister.{limit_of, Run, ListState}
use brent.Stores.Lister.Each.{Each, Each-weaken, Passing, all-list_partitions}
use brent.Stores.Partitions.{
  Tokens, Bounds, Partitioner, list_partition, list_in, list_result, run_list, resume_state,
  page_request, get_limit,
}
use brent.Stores.Proxy.{Outside}
use brent.Stores.Rbac.{Partition, all_partitions}
use brent.Stores.Rbac.Coverage.{covers, in_constraint, covers-all_partitions}
use brent.Stores.Tables.{ObjectLib, object_name, object_namespace}

Gives-translated {ℓ} :
    (P : ApiObjectList → Type ℓ) (r : Result ApiObjectList) → Gives P r → Gives P (translated r)
Gives-translated P panic h = tt
Gives-translated P (err e) h = tt
Gives-translated P (ok a) h = h

module _ (objects : ObjectLib) (request_ns : String) where
  abbrev served_by : List Partition → ApiObject → Bool
  served_by ps o = any (λ p. serves objects request_ns p o) ps

  abbrev InServed : List Partition → Partition → Type 0
  InServed ps p = (o : ApiObject) → serves objects request_ns p o ≡ true → served_by ps o ≡ true

  Each-InServed : (ps : List Partition) → Each (InServed ps) ps
  Each-InServed [] = tt
  Each-InServed (p ∷ ps) = (
    λ o h. ground (arith, h),
    Each-weaken (InServed ps) (InServed (p ∷ ps)) (λ q f o h. ground (arith, f o h)) ps
        (Each-InServed ps),
  )

  -- only the passthrough may list every namespace
  abbrev pub somewhere : Partition → Bool
  somewhere p = p.passthrough || not (p.namespace == "")

  covers-serves :
      (o : ApiObject) (p : Partition)
      → somewhere p ≡ true
      → serves objects request_ns p o ≡ true
      → covers (object_namespace objects o) (object_name objects o) p ≡ true
  covers-serves o p named h = ground (
    arith,
    named,
    h,
    eq_iff p.namespace (object_namespace objects o),
    eq_iff (object_namespace objects o) p.namespace,
  )

  covers-served_by :
      (o : ApiObject) (ps : List Partition)
      → all somewhere ps ≡ true
      → served_by ps o ≡ true
      → any (covers (object_namespace objects o) (object_name objects o)) ps ≡ true
  covers-served_by o [] named h = h
  covers-served_by o (p ∷ ps) named h = elim (Bool-cases (serves objects request_ns p o)) [
    | inl here ↦
        ap (λ b. b || any (covers (object_namespace objects o) (object_name objects o)) ps)
          (covers-serves o p (ground (arith, named)) here)
    | inr later ↦
        let rest = covers-served_by o ps (ground (arith, named)) (ground (arith, h, later)) in
        rw rest (ground arith)
  ]

  -- the object lies in the namespace of the request, which may be none
  abbrev pub in_request : ApiObject → Bool
  in_request o = request_ns == "" || request_ns == object_namespace objects o

-- the constraint admits the object's namespace, and the grants of the schema the object
abbrev pub entitled : ObjectLib → Option (List String) → ApiSchema → ApiObject → Bool
entitled objects constraint s o =
    in_constraint (object_namespace objects o) (object_name objects o) constraint
    && (grants_all (get_access_list_map (some s)) "list"
        || allows (granted (get_access_list_map (some s)) "list") (object_namespace objects o)
            (object_name objects o))

module _ {schemer : Schemer} {C : Type 0} ⦃conv : Convert⦄ (objects : ObjectLib)
    (outside : Outside objects C) (law : RespectsNamespaces objects C outside) (tokens : Tokens)
    (bounds : Bounds) (constraint : Option (List String)) (op : ApiRequest schemer) (s : ApiSchema)
    (c : C) where
  abbrev partitioner : Partitioner schemer C Partition
  partitioner = rbac_partitioner objects outside constraint

  Passing-serves :
      (passes : ApiObject → Bool) (limit : ℕ) (p : Partition)
      → ((o : ApiObject) → serves objects op.namespace p o ≡ true → passes o ≡ true)
      → Passing passes partitioner.name_of (list_partition tokens bounds partitioner op s c) limit p
  unfolding list_partition rbac_partitioner
  Passing-serves passes limit p weaken cont r page read =
      all-weaken (serves objects op.namespace p) passes weaken page.objects (
        Gives-ok (Served objects op.namespace p)
          ((partition_backend objects outside p).list (page_request op cont r limit) s c) page
          (partition_backend-serves objects outside law (page_request op cont r limit) s p c) read)

  run_list-served :
      (ps : List Partition) (st : ListState)
      → (run_list tokens bounds partitioner op s c ps st).failed ≡ none
      → all
          (served_by objects op.namespace ps)
          (run_list tokens bounds partitioner op s c ps st).sent
        ≡ true
  run_list-served ps st fine =
      all-list_partitions (served_by objects op.namespace ps) partitioner.name_of
        (list_partition tokens bounds partitioner op s c) bounds.fuel bounds.late bounds.race ps
        (get_limit (or_root op.request)) st
        (Each-weaken (InServed objects op.namespace ps)
          (Passing (served_by objects op.namespace ps) partitioner.name_of
            (list_partition tokens bounds partitioner op s c)
            (limit_of st (get_limit (or_root op.request))))
          (λ p f.
            Passing-serves (served_by objects op.namespace ps)
              (limit_of st (get_limit (or_root op.request))) p f)
          ps (Each-InServed objects op.namespace ps))
        fine

  list_result-served :
      (ps : List Partition) (run : Run) (failed : Option Error)
      → failed ≡ run.failed
      → (run.failed ≡ none → all (served_by objects op.namespace ps) run.sent ≡ true)
      → Gives
          (λ page. all (served_by objects op.namespace ps) page.objects ≡ true)
          (list_result tokens run failed)
  list_result-served ps run none same h = h (sym same)
  list_result-served ps run (some e) same h = tt

  -- Every object of a list is one that a partition of the user serves.
  list-served :
      (ps : List Partition) (page : ApiObjectList)
      → all_partitions constraint op.namespace (some s) "list" "" ≡ ok ps
      → (new_proxy_store objects outside tokens bounds constraint).list op s c ≡ ok page
      → all (served_by objects op.namespace ps) page.objects ≡ true
  unfolding new_proxy_store error_store list_in rbac_partitioner
  list-served ps page found listed =
      let P : ApiObjectList → Type 0 =
        λ l. all (served_by objects op.namespace ps) l.objects ≡ true in
      Gives-ok P ((new_proxy_store objects outside tokens bounds constraint).list op s c) page
        (Gives-translated P (list_in tokens bounds partitioner op s c) (
          Gives->>= P (all_partitions constraint op.namespace (some s) "list" "") _ λ qs read.
            Gives->>= P (resume_state tokens (get_text "continue" (or_root op.request).query)) _
              λ st resumed.
                let run = run_list tokens bounds partitioner op s c qs st in
                list_result-served ps run run.failed refl λ fine.
                  ap (λ l. all (served_by objects op.namespace l) run.sent)
                    (ok-injective (sym found ∙ read))
                  ∙ run_list-served qs st fine))
        listed

  -- For a namespaced type and a cluster whose lists in a namespace hold only its objects, whatever
  -- the state of the resume token, the limit and the order of the goroutines: where no partition but
  -- the passthrough has the empty namespace, each object of a list that succeeds, in the namespace
  -- of the request if that has one, is one whose namespace the constraint admits, and that the
  -- user's grants are for everything or `Granted` admits.
  pub list-IsEntitled :
      (ps : List Partition) (page : ApiObjectList)
      → namespaced (some s) ≡ true
      → all_partitions constraint op.namespace (some s) "list" "" ≡ ok ps
      → all (somewhere objects op.namespace) ps ≡ true
      → (new_proxy_store objects outside tokens bounds constraint).list op s c ≡ ok page
      → all
          (λ o. not (in_request objects op.namespace o) || entitled objects constraint s o)
          page.objects
        ≡ true
  list-IsEntitled ps page has_namespaces found named listed =
      all-weaken (served_by objects op.namespace ps)
        (λ o. not (in_request objects op.namespace o) || entitled objects constraint s o)
        (λ o h. elim (Bool-cases (in_request objects op.namespace o)) [
          | inr elsewhere ↦ ap (λ b. not b || entitled objects constraint s o) elsewhere
          | inl here ↦
              let (qs, read, sorted, same) =
                covers-all_partitions (object_namespace objects o) (object_name objects o)
                  op.namespace "list" (some s) constraint refl has_namespaces here in
              let holds : entitled objects constraint s o ≡ true =
                sym same
                ∙ ap (any (covers (object_namespace objects o) (object_name objects o)))
                    (ok-injective (sym read ∙ found))
                ∙ covers-served_by objects op.namespace o ps named h in
              rw holds (ground arith)
        ])
        page.objects (list-served ps page found listed)
