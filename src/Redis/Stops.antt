-- ===== src/Redis/Stops.antt =====
-- Starting and stopping the bridge of go/adapter/redis/redis.go.
use go_stream.Prelude.{◌≡◌, refl, some}
use go_stream.Peer.{Func}
use go_stream.Hub.{Hub}
use go_stream.Hub.Handlers.{subscribe_published, subscribe_broadcast, call_stop}
use go_stream.Hub.Handlers.Laws.{SameHandlers, NextIsFree}
use go_stream.Hub.Handlers.Pair.{publish_first}
use go_stream.Hub.Members.{Done}
use go_stream.Redis.Lifecycle.{Made, at_rest, begin, connect_bridge, finish, stop_bridge}

-- A bridge that is started and ends, by itself or after a `Stop`, is at rest, and the hub's handlers read as
-- before it was started, where the identifiers that the hub gives are free.
pub bridge-handlers :
    (hub : Hub) (made : Made) (f g : Func) (p c d : Done)
    → NextIsFree hub
    → NextIsFree (subscribe_published hub (some f)).0
    → let started = connect_bridge hub (begin at_rest).0 made f g in
      let stopped = stop_bridge started.0 started.1 p c in
      let left = finish started.0 started.1 made d in
      let left_later = finish stopped.0 stopped.1 made d in
      (left.1 ≡ at_rest)
      × SameHandlers left.0 hub
      × (left_later.1 ≡ at_rest)
      × SameHandlers left_later.0 hub
unfolding begin connect_bridge finish stop_bridge call_stop subscribe_published subscribe_broadcast
bridge-handlers hub made f g p c d free free_after =
    let both = publish_first hub f g free free_after in (refl, both, refl, both)
