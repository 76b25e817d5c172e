-- ===== src/Hub/Handlers.antt =====
-- The handler tables of go/hub.go: `SubscribeWithError`, `Subscribe`, `SubscribeBroadcast`,
-- `SubscribePublished` and the functions they return.
pub mod Laws
pub mod Pair
use go_stream.Prelude.{
  ℕ, ◌+◌, ◌%◌, ◌^◌, Bool, true, false, List, [], ◌∷◌, Option, none, some, Text, is_empty, text_eq,
  nat_eq, if◌then◌else◌,
}
use go_stream.Prelude.GoMap.{Map, insert, erase}
use go_stream.Prelude.GoMap.Nested.{put, delete}
use go_stream.Errors.{Result, ok, err, empty_channel, nil_handler}
use go_stream.Peer.{Func}
use go_stream.Hub.{Hub}

-- What a stop function takes off: a channel's handler, a broadcast or a publish handler, or nothing.
pub data Target : Type 0 where
  channel_handler : Text → ℕ → Target
  broadcast_handler publish_handler : ℕ → Target
  nothing : Target

-- A function made by `onceFunction`, with its `sync.Once`.
pub record Stop : Type 0 where
  pub target : Target
  pub fired : Bool

abbrev fresh : Target → Stop
fresh target = record { target = target; fired = false }

-- `hub.nextHandlerID++` on uint64.
abbrev pub next_id : Hub → ℕ
next_id hub = (hub.next_handler_id + 1) % 2 ^ 64

abbrev pub with_handler : Hub → Text → Func → Hub
with_handler hub channel handler = record hub {
  next_handler_id = next_id hub;
  channel_handlers = put channel (next_id hub) handler hub.channel_handlers;
}

-- `SubscribeWithError` and `SubscribeE`.
unfoldable pub subscribe_with_error : Hub → Text → Option Func → Hub × Result Stop
subscribe_with_error hub channel none =
    if is_empty channel then (hub, err empty_channel) else (hub, err nil_handler)
subscribe_with_error hub channel (some handler) =
    if is_empty channel
    then (hub, err empty_channel)
    else (with_handler hub channel handler, ok (fresh (channel_handler channel (next_id hub))))

abbrev or_idle : Result Stop → Stop
or_idle (ok stop) = stop
or_idle (err e) = fresh nothing

-- `Subscribe`: on an error the stop function does nothing.
pub subscribe : Hub → Text → Option Func → Hub × Stop
subscribe hub channel handler =
    let (hub', result) = subscribe_with_error hub channel handler in (hub', or_idle result)

-- `SubscribeBroadcast`.
unfoldable pub subscribe_broadcast : Hub → Option Func → Hub × Stop
subscribe_broadcast hub none = (hub, fresh nothing)
subscribe_broadcast hub (some handler) = (
  record hub {
    next_handler_id = next_id hub;
    broadcast_handlers = insert (next_id hub) handler hub.broadcast_handlers;
  },
  fresh (broadcast_handler (next_id hub)),
)

-- `SubscribePublished` and `subscribePublished`.
unfoldable pub subscribe_published : Hub → Option Func → Hub × Stop
subscribe_published hub none = (hub, fresh nothing)
subscribe_published hub (some handler) = (
  record hub {
    next_handler_id = next_id hub;
    publish_handlers = insert (next_id hub) handler hub.publish_handlers;
  },
  fresh (publish_handler (next_id hub)),
)

-- The bodies of the closures that the three methods hand to `onceFunction`.
unfoldable pub take_off : Hub → Target → Hub
take_off hub (channel_handler channel id) = record hub {
  channel_handlers = delete channel id hub.channel_handlers;
}
take_off hub (broadcast_handler id) = record hub {
  broadcast_handlers = erase id hub.broadcast_handlers;
}
take_off hub (publish_handler id) = record hub { publish_handlers = erase id hub.publish_handlers }
take_off hub nothing = hub

-- A call of a stop function.
unfoldable pub call_stop : Hub → Stop → Hub × Stop
call_stop hub stop =
    if stop.fired then (hub, stop) else (take_off hub stop.target, record stop { fired = true })
