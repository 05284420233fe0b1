-- ===== src/Stores/Composed/Answers.antt =====
-- How the errors of the cluster reach the client: through the store, the translation of its errors
-- and the error handler.
use brent.Base.{ℕ, String, ◌≡◌, refl, false, Option, none, List, string_eq, eqb}
use brent.Api.Errors.{Error, ErrorCode, ok, err, api_status, made, bare_code}
use brent.Api.Types.{ApiSchema}
use brent.Api.Attributes.{Convert}
use brent.Api.Schemas.{Schemer}
use brent.Requests.Handlers.{header, object, error_handler, to_error, of_code}
use brent.Requests.Parse.{ApiRequest}
use brent.Stores.Composed.{
  new_proxy_store, error_store, rbac_partitioner, partition_backend, translate_error,
}
use brent.Stores.Partitions.{Tokens, Bounds, delete_in, by_id_in}
use brent.Stores.Proxy.{
  Outside, ResourceClient, delete_object, by_id, get_by_id, params_of, delete_options, get_options,
}
use brent.Stores.Rbac.{lookup_partition}
use brent.Stores.Tables.{ObjectLib}

module _ {schemer : Schemer} {C : Type 0} ⦃conv : Convert⦄ (objects : ObjectLib)
    (outside : Outside objects C) (tokens : Tokens) (bounds : Bounds)
    (constraint : Option (List String)) (op : ApiRequest schemer) (s : ApiSchema) (id : String)
    (c : C) (status : ErrorCode → ℕ) (code_name : ErrorCode → String)
    (made_status : (n : ℕ) (reason : String) → status (made n reason) ≡ n)
    (client : ResourceClient C) (got : outside.table_client s op.namespace ≡ ok client) where
  -- When the cluster deletes an object and then no longer finds it, the answer is the status 204
  -- alone, and the cluster is left as the deletion left it.
  pub delete-Gone :
      (gone : C) (reason : Error)
      → outside.decode_params delete_options (params_of objects C outside op) ≡ none
      → client.delete id (params_of objects C outside op) c ≡ (none, gone)
      → get_by_id objects C outside op s op.namespace id gone ≡ err reason
      → (e : Error) × ((new_proxy_store objects outside tokens bounds constraint).delete op s id c
          ≡ (err e, gone))
        × (error_handler status code_name e ≡ header 204)
  unfolding new_proxy_store error_store delete_in rbac_partitioner partition_backend delete_object
      lookup_partition translate_error error_handler
  delete-Gone gone reason decoded deleted missing = (
    bare_code (made 204 ""),
    rw (decoded, got, deleted, missing) refl,
    rw (made_status 204 "") refl,
  )

  -- When the cluster refuses a read with a status, the answer has this status, its reason as code
  -- and its message.
  pub by_id-Refused :
      (code : ℕ) (reason message : String)
      → eqb code 204 ≡ false
      → outside.decode_params get_options (params_of objects C outside op) ≡ none
      → client.get id (params_of objects C outside op) c ≡ err (api_status code reason message)
      → (e : Error) × ((new_proxy_store objects outside tokens bounds constraint).by_id op s id c
          ≡ err e)
        × (error_handler status code_name e
            ≡ object code
                (to_error status code_name (of_code status code_name (made code reason) message)))
  unfolding new_proxy_store error_store by_id_in rbac_partitioner partition_backend by_id get_by_id
      lookup_partition translate_error error_handler
  by_id-Refused code reason message real decoded refused = (
    Error.api (of_code status code_name (made code reason) message),
    rw (got, decoded, refused) refl,
    rw (made_status code reason, real) refl,
  )
