-- ===== src/Stores/Partitions.antt =====
-- pkg/stores/partition/store.go: a store that serves each request from the stores of its
-- partitions. A list is the one of Stores/Lister over all partitions.
use brent.Base.{
  ℕ, String, Bool, Option, none, some, List, Dict, insert, remove, ◌==◌, string_eq, if◌then◌else◌,
  ltb, itoa, atoi,
}
use brent.Api.Errors.{Error, Result, ok, err, ◌>>=◌}
use brent.Api.Types.{ApiSchema}
use brent.Api.Objects.{ApiObject, ApiObjectList}
use brent.Api.Schemas.{Schemer}
use brent.Requests.Http.{HttpRequest, get_text}
use brent.Requests.Parse.{ApiRequest, or_root}
use brent.Stores.Backend.{Backend}
use brent.Stores.Proxy.{or_return}
use brent.Stores.Lister.{PartitionLister, ListState, Run, fresh_state, list_partitions}

-- the encoding of a list's state in its resume token, base64 of JSON
pub record Tokens : Type 0 where
  pub encode : ListState → String
  pub decode : String → Result ListState

abbrev or_default : Option ℕ → ℕ
or_default none = 100000
or_default (some n) = if ltb 0 n then n else 100000

-- `getLimit`
unfoldable pub get_limit : HttpRequest → ℕ
get_limit r = or_default (atoi (get_text "limit" r.query))

-- one run of the lister: fuel for the pages of a partition, its late tests, and what its goroutines
-- do once an error has ended their turns
pub record Bounds : Type 0 where
  pub fuel : ℕ
  pub late : List Bool
  pub race : Run → Run

-- `Partitioner`, with the names of its partitions
pub record Partitioner (schemer : Schemer) (C : Type 0) (P : Type 0) : Type 0 where
  pub lookup : ApiRequest schemer → ApiSchema → String → String → Result P
  pub all : ApiRequest schemer → ApiSchema → String → String → Result (List P)
  pub store : ApiRequest schemer → P → Result (Backend schemer C)
  pub name_of : P → String

abbrev pub with_limit : ℕ → Dict String String → Dict String String
with_limit limit q = if ltb 0 limit then insert "limit" (itoa limit) q else remove "limit" q

abbrev pub page_query : String → String → ℕ → Dict String String → Dict String String
page_query cont revision limit q =
    with_limit limit (insert "revision" revision (insert "continue" cont q))

module _ {schemer : Schemer} where
  -- the clone of the request with the parameters of one page
  abbrev pub page_request : ApiRequest schemer → String → String → ℕ → ApiRequest schemer
  page_request op cont revision limit =
      let r = or_root op.request in
      record op { request = some (record r { query = page_query cont revision limit r.query }) }

module _ (tokens : Tokens) where
  abbrev pub resume_state : String → Result ListState
  resume_state token = if token == "" then ok fresh_state else tokens.decode token

  abbrev pub token_of : Option ListState → String
  token_of none = ""
  token_of (some s) = tokens.encode s

  abbrev pub list_result : Run → Option Error → Result ApiObjectList
  list_result run (some e) = err e
  list_result run none =
      ok (record { revision = run.revision; continue = token_of run.saved; objects = run.sent })

module _ {schemer : Schemer} {C : Type 0} {P : Type 0} where
  module _ (tokens : Tokens) (bounds : Bounds) (partitioner : Partitioner schemer C P) where
    -- `getStore`
    unfoldable pub get_store :
        ApiRequest schemer → ApiSchema → String → String → Result (Backend schemer C)
    get_store op s verb id = do p ← partitioner.lookup op s verb id; partitioner.store op p

    -- `Delete`
    unfoldable pub delete_in : ApiRequest schemer → ApiSchema → String → C → Result ApiObject × C
    unfolding get_store
    delete_in op s id c =
        or_return (get_store op s "delete" id, c) λ target c'. target.delete op s id c'

    -- `ByID`
    unfoldable pub by_id_in : ApiRequest schemer → ApiSchema → String → C → Result ApiObject
    unfolding get_store
    by_id_in op s id c = do target ← get_store op s "get" id; target.by_id op s id c

    -- `Create`
    unfoldable pub create_in : ApiRequest schemer → ApiSchema → ApiObject → C → Result ApiObject × C
    unfolding get_store
    create_in op s o c =
        or_return (get_store op s "create" "", c) λ target c'. target.create op s o c'

    -- `Update`
    unfoldable pub update_in :
        ApiRequest schemer → ApiSchema → ApiObject → String → C → Result ApiObject × C
    unfolding get_store
    update_in op s o id c =
        or_return (get_store op s "update" id, c) λ target c'. target.update op s o id c'

    -- `listPartition`
    unfoldable pub list_partition : ApiRequest schemer → ApiSchema → C → PartitionLister P
    list_partition op s c p cont revision limit = do
      store ← partitioner.store op p
      store.list (page_request op cont revision limit) s c

    abbrev pub run_list : ApiRequest schemer → ApiSchema → C → List P → ListState → Run
    run_list op s c partitions st =
        list_partitions partitioner.name_of (list_partition op s c) bounds.fuel bounds.late
          bounds.race partitions (get_limit (or_root op.request)) st

    -- `List`
    unfoldable pub list_in : ApiRequest schemer → ApiSchema → C → Result ApiObjectList
    unfolding list_partition get_limit
    list_in op s c = do
      partitions ← partitioner.all op s "list" ""
      st ← resume_state tokens (get_text "continue" (or_root op.request).query)
      let run = run_list op s c partitions st
      list_result tokens run run.failed

    -- `Store` of pkg/stores/partition
    abbrev pub partition_store : Backend schemer C
    partition_store = record {
      by_id = by_id_in;
      list = list_in;
      create = create_in;
      update = update_in;
      delete = delete_in;
    }
