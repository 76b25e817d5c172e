-- ===== src/Pipe/Laws.antt =====
-- Stopping a pipe of go/stream.go.
use go_stream.Prelude.{◌≡◌, refl, true, false, some}
use go_stream.Peer.{Func}
use go_stream.Hub.{Hub, star}
use go_stream.Hub.Handlers.{subscribe_published}
use go_stream.Hub.Handlers.Laws.{SameHandlers, NextIsFree, subscribe-stop}
use go_stream.Hub.Handlers.Pair.{broadcast_first}
use go_stream.Pipe.{pipe, call_pipe_stop, call_last_first}

-- The stop function of a pipe from a hub takes both of its handlers off again, and works once: the hub's
-- handlers read as before the pipe, and a second call changes nothing. The identifiers that the hub gives
-- are free, and the two ends are not nil and differ.
pub pipe-stop :
    (source : Hub) (f g all : Func)
    → NextIsFree source
    → NextIsFree (subscribe_published source (some f)).0
    → let (piped, stop) = pipe false source true true f g all in
      let (stopped, spent) = call_pipe_stop piped stop in
      SameHandlers stopped source × ((call_pipe_stop stopped spent).0 ≡ stopped)
unfolding pipe call_pipe_stop call_last_first
pipe-stop source f g all free free_after = (broadcast_first source f g free free_after, refl)

-- So for a source without hooks, whose frames go to the wildcard channel.
pub pipe_wildcard-stop :
    (source : Hub) (f g all : Func)
    → NextIsFree source
    → let (piped, stop) = pipe false source false false f g all in
      let (stopped, spent) = call_pipe_stop piped stop in
      SameHandlers stopped source × ((call_pipe_stop stopped spent).0 ≡ stopped)
unfolding pipe call_pipe_stop call_last_first
pipe_wildcard-stop source f g all free = ((subscribe-stop source star (some all) free).0, refl)
