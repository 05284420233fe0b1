-- ===== src/Tests/ProxyTests.antt =====
-- The proxy store over a small cluster.
use brent.Base.{
  ℕ, String, ◌≡◌, ◌++◌, refl, Bool, true, false, not, ◌||◌, none, some, List, [], ◌∷◌, all,
  string_eq, atoi,
}
use brent.AccessControl.Access.{list_grants}
use brent.AccessControl.ByVerb.{grants_all, granted}
use brent.Api.Errors.{Result, ErrorCode, ok, err, other, made, api_status}
use brent.Api.Objects.{ApiObject}
use brent.Api.Attributes.{set_access, set_val, attribute, namespaced, get_access_list_map}
use brent.Api.Types.{ApiSchema}
use brent.Requests.Http.{root_request}
use brent.Requests.Parse.{ApiRequest}
use brent.Stores.Composed.{new_proxy_store}
use brent.Stores.Composed.Entitled.{in_request, entitled, list-IsEntitled}
use brent.Stores.Lister.{list_partitions, feed}
use brent.Stores.Partitions.{Tokens, Bounds, list_in, list_partition}
use brent.Stores.Proxy.{list_objects, Outside, ResourceClient, create_object}
use brent.Stores.Proxy.Written.{Outcome, may_send, create_object-Placed}
use brent.Stores.Watches.{SharedRequest, run_watches, all_enter, all_open}
use brent.Stores.Watches.Shared.{opened-all_enter}
use brent.Stores.Rbac.{Partition, named_in, all_partitions}
use brent.Stores.Tables.{to_api_list, to_api_object, table_to_list, is_table, Content}
use brent.Tests.Fixtures.{in_dev, pod_schema, plain_convert, plain_schemer}
use brent.Tests.ClusterFixtures.{
  plain_objects, plain_outside, plain-RespectsNamespaces, two_objects, object_in, client_in,
}

abbrev no_tokens : Tokens
no_tokens = record { encode = λ s. ""; decode = λ t. err (other "no token") }

abbrev one_page : Bounds
one_page = record { fuel = 1; late = []; race = λ run. run }

abbrev list_pods : ApiRequest plain_schemer
list_pods = record {
  action = "";
  name = "";
  type = "pod";
  link = "";
  method = "GET";
  namespace = "";
  schema = none;
  schemas = none;
  query = none;
  response_format = "";
  response_writer = none;
  error_handler = none;
  url_prefix = "";
  url_builder = none;
  request = some root_request;
}

-- listing is granted in the namespace dev alone
abbrev listable_pods : ApiSchema
listable_pods = set_access (("list", in_dev ∷ []) ∷ []) pod_schema

abbrev dev_web : ApiObject
dev_web = record { type = "pod"; id = "dev/web"; object = some (object_in "dev" "web") }

listed_dev :
    (new_proxy_store plain_objects plain_outside no_tokens one_page none).list list_pods
      listable_pods two_objects
    ≡ ok (record { revision = ""; continue = ""; objects = dev_web ∷ [] })
unfolding new_proxy_store list_partition set_access attribute list_objects to_api_list is_table
    table_to_list to_api_object list_in all_partitions list_partitions feed grants_all list_grants
    get_access_list_map set_val namespaced granted atoi
listed_dev = refl

abbrev dev_partition : Partition
dev_partition = record { namespace = "dev"; all = true; passthrough = false; names = [] }

abbrev entitled_to : ApiObject → Bool
entitled_to o = not (in_request plain_objects "" o) || entitled plain_objects none listable_pods o

list-IsEntitled_example : all entitled_to (dev_web ∷ []) ≡ true
unfolding new_proxy_store list_partition set_access attribute list_objects to_api_list is_table
    table_to_list to_api_object list_in all_partitions list_partitions feed grants_all list_grants
    get_access_list_map set_val namespaced granted atoi
list-IsEntitled_example =
    list-IsEntitled plain_objects plain_outside plain-RespectsNamespaces no_tokens one_page none
      list_pods listable_pods two_objects (dev_partition ∷ [])
      (record { revision = ""; continue = ""; objects = dev_web ∷ [] }) refl refl refl refl

-- a pod without a namespace of its own, created in dev
abbrev new_web : ApiObject
new_web = record { type = "pod"; id = ""; object = some (object_in "" "web") }

abbrev in_dev_request : ApiRequest plain_schemer
in_dev_request = record list_pods { namespace = "dev"; name = "web"; method = "POST" }

abbrev created : Result ApiObject × List Content
created =
    create_object plain_objects (List Content) plain_outside in_dev_request listable_pods new_web
      two_objects

create_object-Placed_example :
    Outcome plain_objects
      (List Content)
      plain_outside
      in_dev_request
      listable_pods
      new_web
      two_objects
      (may_send plain_objects (List Content) plain_outside in_dev_request listable_pods new_web)
      created
create_object-Placed_example =
    create_object-Placed plain_objects (List Content) plain_outside in_dev_request listable_pods
      new_web two_objects refl

abbrev status_of : ErrorCode → ℕ
status_of (made n reason) = n
status_of _ = 500

abbrev name_of_code : ErrorCode → String
name_of_code (made n reason) = reason
name_of_code _ = ""

abbrev refusing : ResourceClient (List Content)
refusing = record (client_in "dev") { get = λ id q c. err (api_status 403 "Forbidden" "no") }

abbrev refusing_outside : Outside plain_objects (List Content)
refusing_outside = record plain_outside { table_client = λ s ns. ok refusing }

abbrev prod_partition : Partition
prod_partition = named_in "prod" ("web" ∷ [])

abbrev new_request : SharedRequest
new_request = record { namespace = ""; opened = [] }

-- all of prod is watched for a user who may watch all of dev and one object of prod
opened-all_enter_example :
    (run_watches
      (all_enter (dev_partition ∷ prod_partition ∷ [])
        ++ all_open (dev_partition ∷ prod_partition ∷ []))
      new_request).opened
    ≡ (dev_partition, "prod") ∷ (prod_partition, "prod") ∷ []
opened-all_enter_example = opened-all_enter (dev_partition ∷ []) prod_partition new_request refl
