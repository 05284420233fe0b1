-- ===== src/Lib.antt =====
-- Verification library of brent, an API server that puts schemas, access control and stores in
-- front of a Kubernetes cluster.
--
-- How the parts interact: a request carries a user. `AccessStore.AccessFor` turns the user's RBAC
-- bindings into an `AccessSet`; `Collection.Schemas` makes from it the schemas that this user
-- sees, each with the grants and the methods that the set allows; the request's checks read those
-- schemas; the stores split a list by what the grants admit.
--
-- Files, and the code that each models (paths from the repository's root):
--   Base, Base/Tests, Base/Lists, Base/Maps, Base/Sorting, Base/Text: Go's tests, slices,
--   maps, sorting and strings, as far as the program uses them.
--   AccessControl/Access: Access, AccessList and the key type of
--   pkg/accesscontrol/access_set.go.
--   AccessControl/AccessSet and below: AccessSet of the same file; Laws and Grants have its
--   laws, Namespaces those of Namespaces.
--   AccessControl/ByVerb and below: AccessListByVerb of the same file; Granted has the meaning
--   of its Granted.
--   AccessControl/Revisions and below: pkg/accesscontrol/role_revision_index.go; History has
--   the index after any events.
--   AccessControl/PolicyRules and below: pkg/accesscontrol/policy_rule_index.go; Semantics has
--   its meaning, Indexes models newPolicyRuleIndex.
--   AccessControl/Store and below: pkg/accesscontrol/access_store.go; Fresh and Unindexed have
--   its properties.
--   Api/Errors: pkg/apierror/error.go. Api/Types: pkg/types/types.go. Api/Attributes:
--   pkg/attributes/attributes.go. Api/Schemas: pkg/types/schemas.go.
--   Decisions: pkg/accesscontrol/schemabasedaccess.go and access_control.go.
--   Factory and below: pkg/schema/factory.go.
--   Stores/Rbac and below: pkg/stores/proxy/rbac_store.go; Coverage has which objects its
--   partitions cover.
--   Subscriptions and below: the watch sessions of pkg/subscribe/watcher.go; Registered has
--   the steps and what holds in every state.
--   Collections and Collections/State: pkg/schema/collection.go, and Schemas and
--   applyTemplates of pkg/schema/factory.go; Running and Lookups have the templates that run
--   and the lookups.
--   Stores/Reserved and below: the reserved fields in pkg/stores/proxy/proxy_store.go.
--   Stores/Tables and below: its tables and objects; Rows has what their conversion keeps.
--   Stores/Proxy and below: its operations; Written has what is sent for an object that is
--   created.
--   Stores/Partitions: pkg/stores/partition/store.go. Stores/Backend: the interface Store of
--   pkg/types/server_types.go over a state. Stores/Composed and below: NewProxyStore, with
--   error_wrapper.go; Confined and Entitled have whose objects a list holds, Answers how
--   errors reach the client.
--   Stores/Watches and below: the watches of proxy_store.go, and the goroutines of Watch in
--   partition/store.go; Shared has in which namespaces they open.
--   Discovery: pkg/schema/converter. Discovery/Refresh and below:
--   pkg/controllers/schema/schemas.go, and SetColumns of
--   pkg/resources/common/dynamiccolumns.go; Kept has what a refresh keeps, Current the
--   goroutines that start one.
--   SchemaStore and below: pkg/stores/schema/schema_store.go; Listings has the states while it
--   lists, Listed has what a list of schemas holds, Unmarked and Closed that it holds what its
--   schemas refer to. SchemaStore/Notices and below: sendSchemas of
--   pkg/resources/schemas/template.go; Followed has what a client knows that follows the
--   events.
--   Auth and below: pkg/auth/filter.go; Vouched has who is served, Impersonated what an
--   impersonated user is made of. Base/Prefix has the laws of prefixes.
--   Stores/Lister and below: pkg/stores/partition/parallel.go; Bound, Conservation, Complete
--   and Each have what a list sends and leaves over. The turns of the goroutines hold as long
--   as no lister fails: what a run with an error comes to is a parameter, and so no theorem
--   promises anything of it but the error.
--   Subscriptions/Stream: what the goroutine of one watch sends. Subscriptions/Messages:
--   convert.go and writeData of handler.go. Summaries and below: pkg/summary; Messages has
--   which messages are left.
--   Formatters: pkg/resources/common/formatter.go. Formatters/Roots:
--   pkg/stores/apiroot/apiroot.go. Base/Paths: Go's paths.
--   Requests/Links: the links of pkg/urlbuilder/url.go. Requests/Redirect and below:
--   redirect.go; Moved has what a client gets. Requests/Writers and below:
--   pkg/writer/encoding.go; Offered has which links a resource has.
--   Requests/Http: what is read of an HTTP request. Requests/Urls: pkg/urlbuilder/base.go and
--   New of url.go. Requests/Parse and below: pkg/parse; Validity has which requests pass.
--   Requests/Handlers: pkg/handlers and the reading of bodies of pkg/parse. Requests/Server
--   and below: handleOp of pkg/server/handler/server.go, and validate.go; Calls and Checks
--   have what a call requires. Requests/Handle and below: handle of server.go, and
--   handlers.go; Response has what a handled request may call, and Grants what that means for
--   the grants of a user whose schemas pkg/schema/factory.go made. Api/Objects: the objects of
--   pkg/types/server_types.go.
--   Tests and below: concrete inputs.
--
-- Conventions: a Go map is an association list whose order stands for the order of `range`, and
-- no theorem depends on it; a nil map or slice is the empty one; a nil pointer or a nil error is
-- `none`; a panic is a result of its own. Code outside the repository is a parameter: the
-- Kubernetes clients (`Client`, `ResourceClient`), the cache (`ResultCache`), the conversions
-- (`Convert`), nested fields (`ObjectLib`), resume tokens (`Tokens`) and the schema library
-- (`Schemer`), each with the documented behaviour that the code relies on. Every loop is a
-- recursion on the list that the code ranges over, except for the pages of a partition, which
-- Stores/Lister reads with fuel: one unit for each page, and the theorem on complete lists says
-- when that is enough. There the objects come in the order that the turns of the goroutines
-- enforce, so a run is one pass over the partitions; a list of Booleans says which of the
-- feeder's tests see the capacity that the partitions before them left. The references between
-- schemas are followed down to a depth, and Closed says which depth is enough.
--
-- The calls that a request makes are listed with its result: an operation of a store, a handler
-- of the program's own, or a handler of a link or an action, so that a theorem can say what a
-- call requires. Stores, custom handlers and error handlers are parameters.
--
-- The proxy store hands the state of the cluster on: each operation returns its result and the
-- state that the clients left. A theorem about a cluster is about any clients, with what they
-- promise as hypotheses.
--
-- Not modelled: the HTTP plumbing, the web sockets, the goroutines that merge and that refresh
-- watches, and the parts that the manifest lists as such.
pub mod Base
pub mod AccessControl
pub mod Api
pub mod Decisions
pub mod Factory
pub mod Collections
pub mod Discovery
pub mod SchemaStore
pub mod Stores
pub mod Auth
pub mod Formatters
pub mod Summaries
pub mod Subscriptions
pub mod Requests
mod Tests
