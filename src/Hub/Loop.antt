-- ===== src/Hub/Loop.antt =====
-- `Hub.Run` of go/hub.go and everything that happens beside it, as a step relation: the loop's
-- `select` takes from any queue that has an item, clients call the methods, blocked goroutines get
-- their item into a queue or give up when the hub is done, and transports receive from their peers.
pub mod TableCalls
pub mod Tables
pub mod MemberSends
pub mod Members
pub mod Shutdown
pub mod Refines
pub mod Keeps
pub mod Forbidden
use go_stream.Prelude.{
  ℕ, ◌<◌, ◌≡◌, Bool, true, false, List, [], ◌∷◌, ◌++◌, Option, none, some, Text, length,
  if◌then◌else◌,
}
use go_stream.Prelude.GoMap.{keys}
use go_stream.Wire.{Frame}
use go_stream.Peer.{Peer, Func, receive, peer_send, peer_close, set_close_hook}
use go_stream.Hub.{
  Hub, World, BroadcastDelivery, PublishDelivery, default_hub_queue_size, update, hook_events,
}
use go_stream.Hub.Handlers.{
  Stop, subscribe_with_error, subscribe_broadcast, subscribe_published, call_stop,
}
use go_stream.Hub.Members.{
  add_peer_now, remove_peer_now, add_peer, remove_peer, subscribe_peer, unsubscribe_peer,
}
use go_stream.Hub.Sending.{
  send_to_channel_from_peer, broadcast_frame_from_peer, broadcast_to_peers,
  process_publish_delivery,
}

-- The start of `Run`: a second call returns at once.
pub start_run : World → World
start_run w = if w.running then w else record w { hub = record (w.hub) { running = true } }

-- The critical section of the deferred function of `Run`, when its context is done: the members are listed.
pub stop_run : World → World
stop_run w = record w {
  hub = record (w.hub) { running = false };
  leaving = keys w.peers ∷ w.leaving;
}

-- The public methods of the hub and of its peers that change something, with the pump's receive and `SetCloseHook`.
pub data Call : Type 0 where
  add_call : Option ℕ → Call
  remove_call : Option ℕ → Call
  subscribe_call : Option ℕ → Text → Call
  unsubscribe_call : Option ℕ → Text → Call
  handle_call : Text → Option Func → Call
  handle_broadcast_call : Option Func → Call
  handle_published_call : Option Func → Call
  stop_call : Stop → Call
  publish_call : Option ℕ → Text → Frame → Bool → Call
  broadcast_call : Option ℕ → Frame → Bool → Call
  receive_call : ℕ → Call
  send_call : ℕ → Frame → Call
  close_call : ℕ → Call
  set_hook_call : ℕ → Option Func → Call

abbrev pub with_hub : World → Hub → World
with_hub w hub = record w { hub = hub }

unfoldable pub perform : World → Call → World
perform w (add_call peer) = (add_peer w peer).0
perform w (remove_call peer) = remove_peer w peer
perform w (subscribe_call peer channel) = (subscribe_peer w peer channel).0
perform w (unsubscribe_call peer channel) = unsubscribe_peer w peer channel
perform w (handle_call channel handler) =
    with_hub w ((subscribe_with_error w.hub channel handler).0)
perform w (handle_broadcast_call handler) = with_hub w ((subscribe_broadcast w.hub handler).0)
perform w (handle_published_call handler) = with_hub w ((subscribe_published w.hub handler).0)
perform w (stop_call stop) = with_hub w ((call_stop w.hub stop).0)
perform w (publish_call source channel frame notify) =
    (send_to_channel_from_peer w source channel frame notify).0
perform w (broadcast_call source frame notify) = (broadcast_frame_from_peer w source frame notify).0
perform w (receive_call peer) = record w { heap = update w.heap peer ((receive (w.heap peer)).0) }
perform w (send_call peer frame) = record w {
  heap = update w.heap peer ((peer_send (w.heap peer) frame).0);
}
perform w (close_call peer) = record w {
  heap = update w.heap peer ((peer_close (w.heap peer)).0);
  trace = w.trace ++ hook_events ((peer_close (w.heap peer)).1);
}
perform w (set_hook_call peer hook) = record w {
  heap = update w.heap peer (set_close_hook (w.heap peer) hook);
}

-- The start of `Run`, the cases of its `select` and its deferred function, which lists the members, removes
-- them one at a time and closes `done`; and the cases of the `select`s in `enqueueBroadcast` and
-- `enqueuePublishDeliveryAsync`.
pub data Step (w : World) : World → Type 0 where
  run_starts : Step w (start_run w)
  run_stops : w.running ≡ true → Step w (stop_run w)
  run_removes :
      (front back : List (List ℕ)) (peer : ℕ) (rest : List ℕ)
      → w.leaving ≡ front ++ ((peer ∷ rest) ∷ back)
      → Step w (remove_peer_now (record w { leaving = front ++ (rest ∷ back) }) peer)
  run_ends :
      (front back : List (List ℕ))
      → w.leaving ≡ front ++ ([] ∷ back)
      → Step w (record w { hub = record (w.hub) { done = true }; leaving = front ++ back })
  take_register :
      (peer : ℕ) (rest : List ℕ)
      → w.running ≡ true
      → w.register ≡ peer ∷ rest
      → Step w (add_peer_now (with_hub w (record (w.hub) { register = rest })) peer)
  take_unregister :
      (peer : ℕ) (rest : List ℕ)
      → w.running ≡ true
      → w.unregister ≡ peer ∷ rest
      → Step w (remove_peer_now (with_hub w (record (w.hub) { unregister = rest })) peer)
  take_broadcast :
      (item : BroadcastDelivery) (rest : List BroadcastDelivery)
      → w.running ≡ true
      → w.broadcast_queue ≡ item ∷ rest
      → Step w (broadcast_to_peers (with_hub w (record (w.hub) { broadcast_queue = rest })) item)
  take_publish :
      (item : PublishDelivery) (rest : List PublishDelivery)
      → w.running ≡ true
      → w.publish_queue ≡ item ∷ rest
      → Step w
          (process_publish_delivery (with_hub w (record (w.hub) { publish_queue = rest })) item)
  broadcast_enters :
      (front back : List BroadcastDelivery) (item : BroadcastDelivery)
      → w.late_broadcasts ≡ front ++ (item ∷ back)
      → length w.broadcast_queue < default_hub_queue_size
      → Step w (record w {
        hub = record (w.hub) { broadcast_queue = w.broadcast_queue ++ item ∷ [] };
        late_broadcasts = front ++ back;
      })
  broadcast_dropped :
      (front back : List BroadcastDelivery) (item : BroadcastDelivery)
      → w.late_broadcasts ≡ front ++ (item ∷ back)
      → w.done ≡ true
      → Step w (record w { late_broadcasts = front ++ back })
  publish_enters :
      (front back : List PublishDelivery) (item : PublishDelivery)
      → w.late_publishes ≡ front ++ (item ∷ back)
      → length w.publish_queue < default_hub_queue_size
      → Step w (record w {
        hub = record (w.hub) { publish_queue = w.publish_queue ++ item ∷ [] };
        late_publishes = front ++ back;
      })
  publish_dropped :
      (front back : List PublishDelivery) (item : PublishDelivery)
      → w.late_publishes ≡ front ++ (item ∷ back)
      → w.done ≡ true
      → Step w (record w { late_publishes = front ++ back })
  calls : (c : Call) → Step w (perform w c)

pub data Reach (w : World) : World → Type 0 where
  here : Reach w w
  next : {u v : World} → Reach w u → Step u v → Reach w v
