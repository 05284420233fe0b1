-- ===== src/Subscriptions.antt =====
-- pkg/subscribe/watcher.go: the watches of one web socket, as steps of the session between its
-- locks.
pub mod Registered
pub mod Stream
pub mod Messages
use brent.Base.{
  ℕ, suc, String, Bool, true, false, not, ◌&&◌, Option, none, some, List, [], ◌∷◌, ◌++◌, Dict,
  lookup, insert, remove, ◌==◌, string_eq, if◌then◌else◌, eqb, ◌<>◌,
}

-- `Subscribe`, without the resource version
pub record Subscribe : Type 0 where
  pub stop : Bool
  pub resource_type : String
  pub id : String
  pub namespace : String
  pub selector : String

-- `key`
unfoldable pub sub_key : Subscribe → String
sub_key s = s.resource_type <> ("/" <> (s.namespace <> ("/" <> (s.id <> ("/" <> s.selector)))))

-- `WatchSession`: the goroutines by number, with the key that each was started for. A cancel
-- function in `watchers` stands as the number of its goroutine; `stops` are the events
-- `resource.stop` that were sent, by key.
pub record Session : Type 0 where
  pub watchers : Dict String ℕ
  pub running : List (ℕ × String)
  pub cancelled : List ℕ
  pub next : ℕ
  pub stops : List String

-- `NewWatchSession`
abbrev pub new_session : Session
new_session = record { watchers = []; running = []; cancelled = []; next = 0; stops = [] }

abbrev pub stop_found : String → Option ℕ → Session → Session
stop_found key none s = record s { watchers = remove key s.watchers }
stop_found key (some i) s = record s {
  watchers = remove key s.watchers;
  cancelled = i ∷ s.cancelled;
  stops = s.stops ++ key ∷ [];
}

-- `stop`
unfoldable pub stop_key : String → Session → Session
stop_key key s = stop_found key (lookup key s.watchers) s

-- `add`
unfoldable pub add_key : String → Session → Session
add_key key s = record s {
  watchers = insert key s.next s.watchers;
  running = (s.next, key) ∷ s.running;
  next = suc s.next;
}

abbrev pub add_unless : String → Option ℕ → Session → Session
add_unless key none s = add_key key s
add_unless key (some i) s = s

-- one message in the loop of `watch`
unfoldable pub receive : Subscribe → Session → Session
unfolding stop_key add_key
receive sub s =
    if sub.stop
    then stop_key (sub_key sub) s
    else add_unless (sub_key sub) (lookup (sub_key sub) s.watchers) s

abbrev pub is_run : ℕ → String → ℕ × String → Bool
is_run i key (j, k) = eqb j i && k == key

abbrev pub drop_run : ℕ → String → List (ℕ × String) → List (ℕ × String)
drop_run i key [] = []
drop_run i key (r ∷ l) = let rest = drop_run i key l in if is_run i key r then rest else r ∷ rest

-- the end of a goroutine: its deferred `stop` of the key that it was started for
unfoldable pub finish : ℕ → String → Session → Session
unfolding stop_key
finish i key s = let s' = stop_key key s in record s' { running = drop_run i key s'.running }
