-- ===== src/Subscriptions/Stream.antt =====
-- `stream` of pkg/subscribe/watcher.go: what the goroutine of one watch sends.
use brent.Base.{
  ◌++◌, String, ◌≡◌, refl, Bool, true, false, not, ◌&&◌, ◌||◌, Option, none, some, List, [], ◌∷◌,
  ◌==◌, string_eq, eq_iff, if◌then◌else◌, ◌<>◌, any, all, is_some, holds_at, arith, both,
}
use brent.Api.Errors.{Gives, Gives-ok, Error, Result, ok, err, panic, other}
use brent.Api.Types.{ApiSchema, Handler}
use brent.Api.Objects.{ApiEvent, WatchRequest, event_of}
use brent.Api.Schemas.{Schemer, ApiSchemas, lookup_schema}
use brent.Requests.Parse.{ApiRequest}
use brent.Subscriptions.{Subscribe}

-- `sendErr`
abbrev pub send_err : Error → Subscribe → ApiEvent
send_err e sub = record (event_of "") {
  resource_type = sub.resource_type;
  namespace = sub.namespace;
  id = sub.id;
  selector = sub.selector;
  error = some e;
}

abbrev pub start_event : Subscribe → ApiEvent
start_event sub = record (event_of "resource.start") {
  resource_type = sub.resource_type;
  id = sub.id;
  selector = sub.selector;
}

-- what `stop` sends
abbrev pub stop_event : Subscribe → ApiEvent
stop_event sub = record (event_of "resource.stop") {
  resource_type = sub.resource_type;
  namespace = sub.namespace;
  id = sub.id;
  selector = sub.selector;
}

abbrev pub stop_events : Bool → Subscribe → List ApiEvent
stop_events true sub = stop_event sub ∷ []
stop_events false sub = []

abbrev pub tagged : Subscribe → ApiEvent → ApiEvent
tagged sub e = record e { id = sub.id; selector = sub.selector }

-- an event of the store, and whether the channel of the socket has room for it
abbrev pub next_event : Subscribe → ApiEvent → Bool → Option Error → List ApiEvent → List ApiEvent
next_event sub e room (some failure) rest = send_err failure sub ∷ rest
next_event sub e room none rest = if room then tagged sub e ∷ rest else []

-- the loop over the events of the store
unfoldable pub stream_events : Subscribe → List (ApiEvent × Bool) → List ApiEvent
stream_events sub [] = []
stream_events sub ((e, room) ∷ events) = next_event sub e room e.error (stream_events sub events)

module _ (lib : Schemer) (can_watch : ApiRequest lib → ApiSchema → Option Error)
    (watch : Handler → ApiRequest lib → ApiSchema → WatchRequest → Result (List (ApiEvent × Bool)))
    (resource_version : String) where
  abbrev pub started : Subscribe → Result (List (ApiEvent × Bool)) → Result (List ApiEvent)
  started sub (ok events) = ok (start_event sub ∷ stream_events sub events)
  started sub (err e) = err e
  started sub panic = panic

  abbrev pub if_allowed : Option Error → Result (List ApiEvent) → Result (List ApiEvent)
  if_allowed (some e) rest = err e
  if_allowed none rest = rest

  abbrev pub watch_store :
      ApiRequest lib
      → ApiSchemas lib
      → Subscribe
      → ApiSchema
      → Option Handler
      → Result (List ApiEvent)
  watch_store op schemas sub s none =
      err (other ("schema " <> (sub.resource_type <> " does not support watching")))
  watch_store op schemas sub s (some h) = if_allowed (can_watch op s) (
      started sub (
        watch h (record op { namespace = sub.namespace; schemas = some schemas }) s
          (record { revision = resource_version; id = sub.id; selector = sub.selector })))

  abbrev pub watch_schema :
      ApiRequest lib → ApiSchemas lib → Subscribe → Option ApiSchema → Result (List ApiEvent)
  watch_schema op schemas sub none = err (other ("failed to find schema " <> sub.resource_type))
  watch_schema op schemas sub (some s) = watch_store op schemas sub s s.store

  -- `stream`: the events that are sent, or the error, which comes before any event
  unfoldable pub stream : ApiRequest lib → ApiSchemas lib → Subscribe → Result (List ApiEvent)
  unfolding stream_events
  stream op schemas sub = watch_schema op schemas sub (lookup_schema lib sub.resource_type schemas)

  abbrev pub or_error : Subscribe → Result (List ApiEvent) → Result (List ApiEvent)
  or_error sub (ok events) = ok events
  or_error sub (err e) = ok (send_err e sub ∷ [])
  or_error sub panic = panic

  abbrev pub and_stop : Bool → Subscribe → Result (List ApiEvent) → Result (List ApiEvent)
  and_stop registered sub (ok events) = ok (events ++ stop_events registered sub)
  and_stop registered sub (err e) = err e
  and_stop registered sub panic = panic

  -- The goroutine that `add` starts, with its deferred `stop`: `registered` says whether the key of the
  -- subscription then still stands in the session.
  unfoldable pub run_stream :
      Bool → ApiRequest lib → ApiSchemas lib → Subscribe → Result (List ApiEvent)
  unfolding stream
  run_stream registered op schemas sub =
      and_stop registered sub (or_error sub (stream op schemas sub))

-- an event of this subscription
abbrev pub is_of : Subscribe → ApiEvent → Bool
is_of sub e = e.id == sub.id && e.selector == sub.selector

abbrev pub is_data : ApiEvent → Bool
is_data e = not (is_some e.error)

equal_refl : (s : String) → (s == s) ≡ true
equal_refl s = (eq_iff s s).1 refl

all-next_event :
    (sub : Subscribe) (e : ApiEvent) (room : Bool) (failure : Option Error) (rest : List ApiEvent)
    → all (is_of sub) rest ≡ true
    → all (is_of sub) (next_event sub e room failure rest) ≡ true
all-next_event sub e room (some failure) rest h =
    both (both (equal_refl sub.id) (equal_refl sub.selector)) h
all-next_event sub e true none rest h = both (both (equal_refl sub.id) (equal_refl sub.selector)) h
all-next_event sub e false none rest h = refl

all-stream_events :
    (sub : Subscribe) (events : List (ApiEvent × Bool))
    → all (is_of sub) (stream_events sub events) ≡ true
unfolding stream_events
all-stream_events sub [] = refl
all-stream_events sub ((e, room) ∷ events) =
    all-next_event sub e room e.error (stream_events sub events) (all-stream_events sub events)

module _ (lib : Schemer) (can_watch : ApiRequest lib → ApiSchema → Option Error)
    (watch : Handler → ApiRequest lib → ApiSchema → WatchRequest → Result (List (ApiEvent × Bool)))
    (resource_version : String) where
  abbrev pub may_watch : ApiRequest lib → Option ApiSchema → Bool
  may_watch op o = holds_at (λ s. not (is_some (can_watch op s))) o

  -- the events are of the subscription, and there is data among them only if `allowed`
  abbrev Fits : Subscribe → Bool → List ApiEvent → Type 0
  Fits sub allowed events =
      (all (is_of sub) events ≡ true) × ((not (any is_data events) || allowed) ≡ true)

  error-Fits :
      (sub : Subscribe) (e : Error) (allowed : Bool) → Fits sub allowed (send_err e sub ∷ [])
  error-Fits sub e allowed = (both (both (equal_refl sub.id) (equal_refl sub.selector)) refl, refl)

  started-Fits :
      (sub : Subscribe) (r : Result (List (ApiEvent × Bool)))
      → Gives (Fits sub true) (
          or_error lib can_watch watch resource_version sub
            (started lib can_watch watch resource_version sub r))
  started-Fits sub (ok events) = (
    both (both (equal_refl sub.id) (equal_refl sub.selector)) (all-stream_events sub events),
    ground arith,
  )
  started-Fits sub (err e) = error-Fits sub e true
  started-Fits sub panic = tt

  checked-Fits :
      (sub : Subscribe) (c : Option Error) (r : Result (List (ApiEvent × Bool)))
      → Gives (Fits sub (not (is_some c))) (
          or_error lib can_watch watch resource_version sub (
            if_allowed lib can_watch watch resource_version c
              (started lib can_watch watch resource_version sub r)))
  checked-Fits sub none r = started-Fits sub r
  checked-Fits sub (some e) r = error-Fits sub e false

  store-Fits :
      (op : ApiRequest lib) (schemas : ApiSchemas lib) (sub : Subscribe) (s : ApiSchema)
      (store : Option Handler)
      → Gives (Fits sub (may_watch op (some s))) (
          or_error lib can_watch watch resource_version sub
            (watch_store lib can_watch watch resource_version op schemas sub s store))
  store-Fits op schemas sub s none =
      error-Fits sub (other ("schema " <> (sub.resource_type <> " does not support watching")))
        (may_watch op (some s))
  store-Fits op schemas sub s (some h) = checked-Fits sub (can_watch op s) _

  schema-Fits :
      (op : ApiRequest lib) (schemas : ApiSchemas lib) (sub : Subscribe) (o : Option ApiSchema)
      → Gives (Fits sub (may_watch op o)) (
          or_error lib can_watch watch resource_version sub
            (watch_schema lib can_watch watch resource_version op schemas sub o))
  schema-Fits op schemas sub none =
      error-Fits sub (other ("failed to find schema " <> sub.resource_type)) false
  schema-Fits op schemas sub (some s) = store-Fits op schemas sub s s.store

  -- events that fit, and the stop
  abbrev Ends : Bool → Subscribe → Bool → List ApiEvent → Type 0
  Ends registered sub allowed events =
      (before : List ApiEvent) × (events ≡ before ++ stop_events registered sub)
      × Fits sub allowed before

  and_stop-Ends :
      (registered : Bool) (sub : Subscribe) (allowed : Bool) (r : Result (List ApiEvent))
      → Gives (Fits sub allowed) r
      → Gives
          (Ends registered sub allowed)
          (and_stop lib can_watch watch resource_version registered sub r)
  and_stop-Ends registered sub allowed (ok events) h = (events, refl, h)
  and_stop-Ends registered sub allowed (err e) h = tt
  and_stop-Ends registered sub allowed panic h = tt

  -- Whatever the store's watch answers and however full the channel is: the goroutine of a watch sends
  -- events, each with the identifier and the selector of the subscription, and then, if its key still
  -- stands in the session, the event resource.stop of the subscription. Of the events before that, one
  -- without an error is there only if the schema is found and the check to watch it passes.
  pub run_stream-Allowed :
      (registered : Bool) (op : ApiRequest lib) (schemas : ApiSchemas lib) (sub : Subscribe)
      (events : List ApiEvent)
      → run_stream lib can_watch watch resource_version registered op schemas sub ≡ ok events
      → (before : List ApiEvent) × (events ≡ before ++ stop_events registered sub)
        × (all (is_of sub) before ≡ true)
        × ((not (any is_data before) || may_watch op (lookup_schema lib sub.resource_type schemas))
            ≡ true)
  unfolding run_stream
  run_stream-Allowed registered op schemas sub events sent =
      let allowed = may_watch op (lookup_schema lib sub.resource_type schemas) in
      let (before, same, fits) =
        Gives-ok (Ends registered sub allowed) _ events
          (and_stop-Ends registered sub allowed _
            (schema-Fits op schemas sub (lookup_schema lib sub.resource_type schemas)))
          sent in
      (before, same, fits.0, fits.1)
