-- ===== src/Stores/Watches.antt =====
-- The watches of pkg/stores/proxy/proxy_store.go, as the lists of the events that they send until
-- they are closed, and the goroutines of `Watch` in pkg/stores/partition/store.go.
pub mod Shared
use brent.Base.{
  String, Bool, true, false, not, ◌&&◌, ◌||◌, Option, none, some, List, [], ◌∷◌, ◌++◌, ◌==◌,
  string_eq, if◌then◌else◌, ◌<>◌, keep, contains, is_some, any,
}
use brent.Api.Errors.{Error, Result, ok, err, panic, other, ◌>>=◌}
use brent.Api.Types.{ApiSchema}
use brent.Api.Objects.{
  ApiObject, ApiEvent, WatchRequest, event_of, change_api_event, remove_api_event, create_api_event,
}
use brent.Api.Schemas.{Schemer}
use brent.Requests.Parse.{ApiRequest}
use brent.Stores.Rbac.{Partition}
use brent.Stores.Tables.{ObjectLib, Content, row_to_object, to_api_object, object_name}
use brent.Stores.Proxy.{content_of}

-- `watch.EventType`, but for errors
pub data EventType : Type 0 where
  added modified deleted bookmark : EventType

-- what a watch of the cluster sends: an object, or an error with a status or without one
pub data WatchEvent : Type 0 where
  changed : EventType → Content → WatchEvent
  failed : String → WatchEvent
  undecoded : WatchEvent

-- the options that brent sets, but for the timeout
pub record WatchOptions : Type 0 where
  pub resource_version : String
  pub label_selector : String

-- `returnErr`
abbrev pub error_event : Error → ApiEvent
error_event e = record (event_of "resource.error") { error = some e }

abbrev pub event_name : EventType → String
event_name deleted = remove_api_event
event_name added = create_api_event
event_name modified = change_api_event
event_name bookmark = change_api_event

abbrev pub watch_revision : String → String
watch_revision rev = if rev == "-1" || rev == "0" then "" else rev

module _ (objects : ObjectLib) where
  -- `toAPIEvent`
  unfoldable pub to_api_event : ApiSchema → EventType → Content → ApiEvent
  unfolding row_to_object to_api_object
  to_api_event s et m =
      let object = to_api_object objects s (row_to_object objects m) in
      record (event_of (event_name et)) {
        object = object;
        revision = objects.get_resource_version (content_of object);
      }

  -- the loop over the events of the cluster
  abbrev pub send_events : ApiSchema → List WatchEvent → List ApiEvent
  send_events s [] = []
  send_events s (changed et m ∷ events) = to_api_event s et m ∷ send_events s events
  send_events s (failed message ∷ events) =
      error_event (other ("event watch error: " <> message)) ∷ send_events s events
  send_events s (undecoded ∷ events) = send_events s events

  -- the filter of `WatchNames`
  abbrev pub passes_names : List String → ApiEvent → Bool
  passes_names names e = not (is_some e.error) && contains names (object_name objects e.object)

  module _ {C : Type 0} (error_text : Error → String)
      (client_for : ApiSchema → String → Result (WatchOptions → C → Result (List WatchEvent)))
      (admin_client_for : ApiSchema
        → String
        → Result (WatchOptions → C → Result (List WatchEvent))) where
    abbrev pub sent_events : ApiSchema → Result (List WatchEvent) → List ApiEvent
    sent_events s (ok events) = send_events s events
    sent_events s (err e) =
        error_event (other ("stopping watch for " <> (s.id <> (": " <> error_text e)))) ∷ []
    sent_events s panic = []

    -- `listAndWatch`, and `watch` that runs it in a goroutine
    unfoldable pub list_and_watch :
        ApiSchema → WatchRequest → (WatchOptions → C → Result (List WatchEvent)) → C → List ApiEvent
    unfolding to_api_event
    list_and_watch s w open_watch c = sent_events s (
        open_watch
          (record { resource_version = watch_revision w.revision; label_selector = w.selector }) c)

    -- `Watch`, in the namespace of the request
    unfoldable pub watch_objects : String → ApiSchema → WatchRequest → C → Result (List ApiEvent)
    unfolding list_and_watch
    watch_objects namespace s w c = do
      client ← client_for s namespace
      ok (list_and_watch s w client c)

    -- `WatchNames`
    unfoldable pub watch_names :
        String → ApiSchema → WatchRequest → List String → C → Result (List ApiEvent)
    unfolding list_and_watch
    watch_names namespace s w names c = do
      client ← admin_client_for s namespace
      ok (keep (passes_names names) (list_and_watch s w client c))

-- The goroutines of `Watch` in partition/store.go share one request: `byNameOrNamespaceStore.Watch`
-- sets its namespace, and then opens a watch in the namespace that the request has by then, with
-- all names or those of the partition.
pub record SharedRequest : Type 0 where
  pub namespace : String
  pub opened : List (Partition × String)

pub data Action : Type 0 where
  enter : Partition → Action
  open_watch : Partition → Action

unfoldable pub act : Action → SharedRequest → SharedRequest
act (enter p) r = if p.passthrough then r else record r { namespace = p.namespace }
act (open_watch p) r = record r { opened = r.opened ++ (p, r.namespace) ∷ [] }

unfoldable pub run_watches : List Action → SharedRequest → SharedRequest
unfolding act
run_watches [] r = r
run_watches (a ∷ l) r = run_watches l (act a r)

-- the schedule in which no goroutine is interrupted between its two steps
abbrev pub one_by_one : List Partition → List Action
one_by_one [] = []
one_by_one (p ∷ ps) = enter p ∷ open_watch p ∷ one_by_one ps

-- the schedule in which every goroutine sets the namespace before any of them opens its watch
abbrev pub all_enter : List Partition → List Action
all_enter [] = []
all_enter (p ∷ ps) = enter p ∷ all_enter ps

abbrev pub all_open : List Partition → List Action
all_open [] = []
all_open (p ∷ ps) = open_watch p ∷ all_open ps
