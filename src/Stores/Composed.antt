-- ===== src/Stores/Composed.antt =====
-- `NewProxyStore` of pkg/stores/proxy: the proxy store, by the partitions that the user's grants
-- allow, with its errors translated (error_wrapper.go). `WatchRefresh` is left out: it concerns
-- watches only.
pub mod Confined
pub mod Entitled
pub mod Answers
use brent.Base.{ℕ, String, Option, none, some, List, [], map, ◌≡◌}
use brent.Api.Errors.{Error, Result, ok, err, panic, api_status, new_api_error, made}
use brent.Api.Types.{ApiSchema}
use brent.Api.Objects.{ApiObject, ApiObjectList}
use brent.Api.Attributes.{Convert}
use brent.Api.Schemas.{Schemer}
use brent.Requests.Parse.{ApiRequest}
use brent.Stores.Backend.{Backend}
use brent.Stores.Partitions.{Partitioner, Tokens, Bounds, partition_store}
use brent.Stores.Proxy.{
  Outside, by_id, list_objects, by_names, create_object, update_object, delete_object,
}
use brent.Stores.Rbac.{Partition, Lists, lookup_partition, all_partitions, list_of_partition}
use brent.Stores.Tables.{ObjectLib}

-- `translateError`
unfoldable pub translate_error : Error → Error
translate_error (api_status code reason message) = new_api_error (made code reason) message
translate_error e = e

abbrev pub translated {ℓ} : {A : Type ℓ} → Result A → Result A
translated (err e) = err (translate_error e)
translated (ok a) = ok a
translated panic = panic

module _ {schemer : Schemer} {C : Type 0} where
  -- `errorStore`
  unfoldable pub error_store : Backend schemer C → Backend schemer C
  error_store store = record {
    by_id = λ op s id c. translated (store.by_id op s id c);
    list = λ op s c. translated (store.list op s c);
    create = λ op s o c. (translated (store.create op s o c).0, (store.create op s o c).1);
    update = λ op s o id c. (translated (store.update op s o id c).0, (store.update op s o id c).1);
    delete = λ op s id c. (translated (store.delete op s id c).0, (store.delete op s id c).1);
  }

  module _ ⦃conv : Convert⦄ (objects : ObjectLib) (outside : Outside objects C) where
    -- `Store` of proxy_store.go
    abbrev pub proxy_backend : Backend schemer C
    proxy_backend = record {
      by_id = by_id objects C outside;
      list = list_objects objects C outside;
      create = create_object objects C outside;
      update = update_object objects C outside;
      delete = delete_object objects C outside;
    }

    -- the request with the namespace that the partition's store sets
    abbrev pub in_partition : ApiRequest schemer → String → ApiRequest schemer
    in_partition op ns = record op { namespace = ns }

    abbrev pub partition_lists : ApiRequest schemer → ApiSchema → C → Lists ApiObjectList
    partition_lists op s c = record {
      list = λ ns. list_objects objects C outside (in_partition op ns) s c;
      by_names = λ ns names. by_names objects C outside (in_partition op ns) s names c;
    }

    -- `byNameOrNamespaceStore`
    unfoldable pub partition_backend : Partition → Backend schemer C
    unfolding list_of_partition
    partition_backend p = record proxy_backend {
      list = λ op s c. (list_of_partition (partition_lists op s c) p op.namespace).0;
    }

    -- `rbacPartitioner`, under the namespace constraint of the request
    unfoldable pub rbac_partitioner : Option (List String) → Partitioner schemer C Partition
    unfolding partition_backend
    rbac_partitioner constraint = record {
      lookup = λ op s verb id. lookup_partition verb;
      all = λ op s verb id. all_partitions constraint op.namespace (some s) verb id;
      store = λ op p. ok (partition_backend p);
      name_of = λ p. p.namespace;
    }

    -- `NewProxyStore`, but for watches
    unfoldable pub new_proxy_store : Tokens → Bounds → Option (List String) → Backend schemer C
    unfolding error_store rbac_partitioner
    new_proxy_store tokens bounds constraint =
        error_store (partition_store tokens bounds (rbac_partitioner constraint))
