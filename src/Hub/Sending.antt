-- ===== src/Hub/Sending.antt =====
-- Publishing and broadcasting in go/hub.go: `sendToChannelFromPeer` and `broadcastFrameFromPeer` with
-- their public wrappers, the queues between them and the event loop, and the deliveries that the loop
-- takes off the queues (`broadcastToPeers`, `processPublishDelivery`). Handlers are called one after
-- the other; a handler that panics is recovered and does not stop the next one, so the trace has a call
-- for each.
pub mod OnlySends
pub mod Collect
pub mod Publish
pub mod Fails
use go_stream.Prelude.{
  ℕ, ◌<◌, Bool, true, false, not, ◌&&◌, ◌||◌, List, [], ◌∷◌, ◌++◌, Option, none, some, Text, codes,
  map, is_empty, length, ltb, ◌==◌, text_eq, nat_eq, if◌then◌else◌,
}
use go_stream.Prelude.GoMap.{Map, insert, keys, values}
use go_stream.Prelude.GoMap.Nested.{inner}
use go_stream.Prelude.Sort.{sort_by}
use go_stream.Errors.{Result, ok, err, hub_not_running}
use go_stream.Wire.{Frame, encode_tcp_frame}
use go_stream.Peer.{Peer, Func, peer_send}
use go_stream.Hub.{
  Hub, World, Event, frame_call, publish_call, crashed, BroadcastDelivery, PublishDelivery, star,
  default_hub_queue_size, update,
}
use go_stream.Hub.Members.{Done}

-- `for peer := range more { combined[peer] = struct{}{} }`.
pub merge_keys : List ℕ → Map ℕ Bool → Map ℕ Bool
merge_keys [] combined = combined
merge_keys (peer ∷ more) combined = merge_keys more (insert peer true combined)

-- `collectChannelPeersLocked`.
pub collect_channel_peers : World → Text → List ℕ
collect_channel_peers w channel =
    let own = merge_keys (keys (inner channel w.channels)) [] in
    let combined =
      if not (channel == star) then merge_keys (keys (inner star w.channels)) own else own in
    sort_by (λ peer. (w.heap peer).id) (keys combined)

abbrev pub tcp : Text
tcp = codes "tcp"

-- `peer.Send(frame)`, its result dropped.
abbrev pub queue_frame : World → ℕ → Frame → World
queue_frame w peer frame = record w {
  heap = update w.heap peer ((peer_send (w.heap peer) frame).0);
}

abbrev pub queue_encoded : World → ℕ → Option (List ℕ) → World
queue_encoded w peer none = record w { trace = w.trace ++ crashed ∷ [] }
queue_encoded w peer (some bytes) = queue_frame w peer bytes

-- `sendToPeer`. A frame too large for its length field makes the encoder panic.
pub send_to_peer : World → Text → Frame → ℕ → World
send_to_peer w channel frame peer =
    if (w.heap peer).transport == tcp
    then queue_encoded w peer (encode_tcp_frame channel frame)
    else queue_frame w peer frame

-- `sendBroadcastToPeer`.
pub send_broadcast_to_peer : World → Frame → ℕ → World
send_broadcast_to_peer w frame peer =
    if (w.heap peer).transport == tcp
    then queue_encoded w peer (encode_tcp_frame [] frame)
    else queue_frame w peer frame

-- `for _, peer := range peers { hub.sendToPeer(peer, channel, frame) }`.
pub send_to_peers : World → Text → Frame → List ℕ → World
send_to_peers w channel frame [] = w
send_to_peers w channel frame (peer ∷ peers) =
    send_to_peers (send_to_peer w channel frame peer) channel frame peers

pub send_broadcast_to_peers : World → Frame → List ℕ → World
send_broadcast_to_peers w frame [] = w
send_broadcast_to_peers w frame (peer ∷ peers) =
    send_broadcast_to_peers (send_broadcast_to_peer w frame peer) frame peers

-- `enqueuePublishDelivery`: a full queue leaves the item with a goroutine.
unfoldable pub enqueue_publish_delivery : World → PublishDelivery → World
enqueue_publish_delivery w item =
    if ltb (length w.publish_queue) default_hub_queue_size
    then record w { hub = record (w.hub) { publish_queue = w.publish_queue ++ item ∷ [] } }
    else record w { late_publishes = w.late_publishes ++ item ∷ [] }

-- Whether anyone would see a frame on the channel.
abbrev pub has_receivers : World → Text → Bool → Bool
has_receivers w channel notify =
    not (is_empty (collect_channel_peers w channel))
    || not (is_empty (inner channel w.channel_handlers))
    || (not (is_empty (inner star w.channel_handlers)) && not (channel == star))
    || (notify && not (is_empty w.publish_handlers))

-- `sendToChannelFromPeer`; the source is not used.
unfoldable pub send_to_channel_from_peer : World → Option ℕ → Text → Frame → Bool → World × Done
send_to_channel_from_peer w source channel frame notify =
    if not w.running
    then (w, err hub_not_running)
    else if not (has_receivers w channel notify)
    then (w, ok tt)
    else (
      enqueue_publish_delivery (send_to_peers w channel frame (collect_channel_peers w channel))
          (record { channel = channel; frame = frame; notify_publish_subscribers = notify }),
      ok tt,
    )

-- `sendToChannel`, `SendToChannel` and `Publish`, `PublishFromPeer`, `PublishFromBridge`.
unfoldable pub send_to_channel : World → Text → Frame → Bool → World × Done
send_to_channel w channel frame notify = send_to_channel_from_peer w none channel frame notify

unfoldable pub publish : World → Text → Frame → World × Done
unfolding send_to_channel
publish w channel frame = send_to_channel w channel frame true

abbrev pub publish_from_peer : World → Option ℕ → Text → Frame → World × Done
publish_from_peer w source channel frame = send_to_channel_from_peer w source channel frame true

abbrev pub publish_from_bridge : World → Text → Frame → World × Done
unfolding send_to_channel
publish_from_bridge w channel frame = send_to_channel w channel frame false

-- The send on `hub.broadcastQueue`, with its `default`.
unfoldable pub enqueue_broadcast : World → BroadcastDelivery → World
enqueue_broadcast w item =
    if ltb (length w.broadcast_queue) default_hub_queue_size
    then record w { hub = record (w.hub) { broadcast_queue = w.broadcast_queue ++ item ∷ [] } }
    else record w { late_broadcasts = w.late_broadcasts ++ item ∷ [] }

-- `broadcastFrameFromPeer`.
unfoldable pub broadcast_frame_from_peer : World → Option ℕ → Frame → Bool → World × Done
broadcast_frame_from_peer w source frame notify =
    if not w.running then (w, err hub_not_running) else (
      enqueue_broadcast w
          (record { source = source; frame = frame; notify_broadcast_subscribers = notify }),
      ok tt,
    )

-- `Broadcast`, `BroadcastFromPeer` and `BroadcastFromBridge`.
abbrev pub broadcast : World → Frame → World × Done
broadcast w frame = broadcast_frame_from_peer w none frame true

abbrev pub broadcast_from_peer : World → Option ℕ → Frame → World × Done
broadcast_from_peer w source frame = broadcast_frame_from_peer w source frame true

abbrev pub broadcast_from_bridge : World → Frame → World × Done
broadcast_from_bridge w frame = broadcast_frame_from_peer w none frame false

-- `invokeHandlers` and `invokeBroadcastHandlers`, over the tables that `cloneChannelHandlers` and
-- `cloneBroadcastHandlers` copy.
abbrev invoke_handlers : List Func → Frame → List Event
invoke_handlers [] frame = []
invoke_handlers (handler ∷ handlers) frame =
    frame_call handler frame ∷ invoke_handlers handlers frame

-- `invokePublishHandlers`, over the table that `clonePublishHandlers` copies.
abbrev invoke_publish_handlers : List Func → Text → Frame → List Event
invoke_publish_handlers [] channel frame = []
invoke_publish_handlers (handler ∷ handlers) channel frame =
    publish_call handler channel frame ∷ invoke_publish_handlers handlers channel frame

-- `broadcastToPeers`; the source is not used.
unfoldable pub broadcast_to_peers : World → BroadcastDelivery → World
broadcast_to_peers w item =
    let sent = send_broadcast_to_peers w item.frame (keys w.peers) in
    record sent {
      trace =
          sent.trace
          ++ (invoke_handlers (values (inner star w.channel_handlers)) item.frame
              ++ (if item.notify_broadcast_subscribers
                  then invoke_handlers (values w.broadcast_handlers) item.frame
                  else []));
    }

-- `processPublishDelivery`.
unfoldable pub process_publish_delivery : World → PublishDelivery → World
process_publish_delivery w item = record w {
  trace =
      w.trace
      ++ (invoke_handlers (values (inner item.channel w.channel_handlers)) item.frame
          ++ ((if not (item.channel == star)
                then invoke_handlers (values (inner star w.channel_handlers)) item.frame
                else [])
              ++ (if item.notify_publish_subscribers
                  then invoke_publish_handlers (values w.publish_handlers) item.channel item.frame
                  else [])));
}
