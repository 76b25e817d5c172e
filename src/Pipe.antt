-- ===== src/Pipe.antt =====
-- `Pipe` of go/stream.go from one hub to another. A source that is not a hub is the interface `Stream`'s, and
-- shows by two flags which hooks it has; the wildcard subscription of one without hooks is on its channel
-- handlers.
pub mod Laws
pub mod Tests
use go_stream.Prelude.{Bool, true, false, List, [], ◌∷◌, ◌++◌, some, Text, if◌then◌else◌}
use go_stream.Wire.{Frame}
use go_stream.Peer.{Func}
use go_stream.Hub.{Hub, World, star}
use go_stream.Hub.Handlers.{Stop, subscribe, subscribe_broadcast, subscribe_published, call_stop}
use go_stream.Hub.Sending.{publish, broadcast}

-- What the three handlers do to the destination; their frame is a copy, by `cloneFrame`.
abbrev forward_published : World → Text → Frame → World
forward_published destination channel frame = (publish destination channel frame).0

abbrev forward_broadcast : World → Frame → World
forward_broadcast destination frame = (broadcast destination frame).0

abbrev forward_all : World → Frame → World
forward_all destination frame = (publish destination star frame).0

-- The function that `Pipe` returns: the stops in the order in which they were made, and its `sync.Once`.
pub record PipeStop : Type 0 where
  pub stops : List Stop
  pub is_spent : Bool

abbrev nothing_piped : PipeStop
nothing_piped = record { stops = []; is_spent = false }

abbrev pub add_published : Bool → Hub → Func → Hub × List Stop
add_published false source f = (source, [])
add_published true source f = let put = subscribe_published source (some f) in (put.0, put.1 ∷ [])

abbrev pub add_broadcast : Bool → Hub × List Stop → Func → Hub × List Stop
add_broadcast false (source, stops) g = (source, stops)
add_broadcast true (source, stops) g =
    let put = subscribe_broadcast source (some g) in (put.0, stops ++ put.1 ∷ [])

-- `if len(stops) == 0`: the wildcard subscription.
abbrev pub or_wildcard : Hub × List Stop → Func → Hub × PipeStop
or_wildcard (source, []) all =
    let put = subscribe source star (some all) in
    (put.0, record { stops = put.1 ∷ []; is_spent = false })
or_wildcard (source, stop ∷ stops) all = (source, record { stops = stop ∷ stops; is_spent = false })

-- `Pipe`: whether an end is nil or both are the same, the source and its hooks, and the handlers for
-- published frames, broadcast frames and those of the wildcard.
unfoldable pub pipe : Bool → Hub → Bool → Bool → Func → Func → Func → Hub × PipeStop
pipe is_void source publishes broadcasts f g all =
    if is_void
    then (source, nothing_piped)
    else or_wildcard (add_broadcast broadcasts (add_published publishes source f) g) all

-- The stops from the last to the first.
unfoldable pub call_last_first : Hub → List Stop → Hub × List Stop
call_last_first source [] = (source, [])
call_last_first source (stop ∷ stops) =
    let rest = call_last_first source stops in
    let last = call_stop rest.0 stop in (last.0, last.1 ∷ rest.1)

unfoldable pub call_pipe_stop : Hub → PipeStop → Hub × PipeStop
call_pipe_stop source stop =
    let called = call_last_first source stop.stops in
    if stop.is_spent
    then (source, stop)
    else (called.0, record { stops = called.1; is_spent = true })
