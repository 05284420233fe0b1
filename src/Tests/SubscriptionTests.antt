-- ===== src/Tests/SubscriptionTests.antt =====
-- A watch that is started, stopped and started again.
use brent.Base.{
  ◌++◌, ◌≡◌, refl, Bool, true, false, not, ◌||◌, none, some, List, [], ◌∷◌, all, any, string_eq,
}
use brent.Api.Errors.{Result, ok}
use brent.Api.Objects.{ApiEvent, event_of}
use brent.Api.Schemas.{ApiSchemas, lookup_schema}
use brent.Subscriptions.Stream.{
  run_stream, stream, stream_events, start_event, stop_event, stop_events, tagged, is_of, is_data,
  may_watch, run_stream-Allowed,
}
use brent.Tests.Fixtures.{plain_schemer}
use brent.Tests.WriterTests.{list_pods, pods, no_schemas}
use brent.Subscriptions.{
  Subscribe, Session, new_session, receive, finish, stop_key, add_key, sub_key,
}
use brent.Subscriptions.Registered.{
  opened, after, receives, IsSound, is_cancelled, Reachable-IsSound,
}

abbrev watch_pods : Subscribe
watch_pods = record {
  stop = false;
  resource_type = "pod";
  id = "";
  namespace = "dev";
  selector = "";
}

abbrev stop_pods : Subscribe
stop_pods = record watch_pods { stop = true }

abbrev watching_again : Session
watching_again = receive watch_pods (receive stop_pods (receive watch_pods new_session))

-- the end of the first watch cancels the second one, which has the same key
second_is_cancelled : is_cancelled 1 (finish 0 "pod/dev//" watching_again) ≡ true
unfolding receive finish stop_key add_key sub_key
second_is_cancelled = refl

Reachable-IsSound_example : IsSound watching_again
Reachable-IsSound_example = Reachable-IsSound watching_again (
    after
      (after (after opened (receives watch_pods new_session))
        (receives stop_pods (receive watch_pods new_session)))
      (receives watch_pods (receive stop_pods (receive watch_pods new_session))))

abbrev pod_schemas : ApiSchemas plain_schemer
pod_schemas = record no_schemas { schemas = ("pod", record pods { store = some 3 }) ∷ [] }

abbrev changed : ApiEvent
changed = event_of "resource.change"

-- the second event finds the channel full
abbrev two_changes : Result (List (ApiEvent × Bool))
two_changes = ok ((changed, true) ∷ (changed, false) ∷ [])

abbrev sent_events : List ApiEvent
sent_events = start_event watch_pods ∷ tagged watch_pods changed ∷ []

-- its key still stands in the session, so the watch ends with a stop
streamed :
    run_stream plain_schemer
      (λ op s. none)
      (λ h op s r. two_changes)
      ""
      true
      list_pods
      pod_schemas
      watch_pods
    ≡ ok (sent_events ++ stop_event watch_pods ∷ [])
unfolding run_stream stream stream_events lookup_schema
streamed = refl

run_stream-Allowed_example :
    (before : List ApiEvent) × (sent_events ++ stop_event watch_pods ∷ []
      ≡ before ++ stop_events true watch_pods)
    × (all (is_of watch_pods) before ≡ true)
    × ((not (any is_data before)
          || may_watch plain_schemer
              (λ op s. none)
              (λ h op s r. two_changes)
              ""
              list_pods
              (lookup_schema plain_schemer "pod" pod_schemas))
        ≡ true)
run_stream-Allowed_example =
    run_stream-Allowed plain_schemer (λ op s. none) (λ h op s r. two_changes) "" true list_pods
      pod_schemas watch_pods (sent_events ++ stop_event watch_pods ∷ []) streamed
