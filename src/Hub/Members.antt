-- ===== src/Hub/Members.antt =====
-- The peers of go/hub.go and their channels: `AddPeer`, `RemovePeer`, `addPeer`, `removePeer`,
-- `SubscribePeer`, `CanSubscribePeer` and `UnsubscribePeer`.
pub mod InStep
pub mod Laws
use go_stream.Prelude.{
  ℕ, Bool, true, false, not, ◌&&◌, List, [], ◌∷◌, ◌++◌, Option, none, some, Text, is_empty, length,
  ltb, ◌==◌, text_eq, nat_eq, nat_beq, if◌then◌else◌,
}
use go_stream.Prelude.GoMap.{Map, insert, erase, lookup}
use go_stream.Prelude.GoMap.Nested.{put, delete, drop_inner}
use go_stream.Errors.{Result, ok, err, empty_channel, nil_peer, auth_rejected}
use go_stream.Peer.{Peer, Func, peer_close, ensure_queue}
use go_stream.Config.{HubConfig}
use go_stream.Hub.{Hub, World, Event, star, default_hub_queue_size, update, peer_calls, hook_events}

-- `hub.peers[peer]`, false where the key is absent.
abbrev pub or_false : Option Bool → Bool
or_false none = false
or_false (some b) = b

abbrev pub is_member : Hub → ℕ → Bool
is_member hub peer = or_false (lookup peer hub.peers)

-- `addPeer`.
unfoldable pub add_peer_now : World → ℕ → World
add_peer_now w peer = if is_member w.hub peer then w else record w {
  hub = record (w.hub) { peers = insert peer true w.peers };
  trace = w.trace ++ peer_calls w.config.on_connect peer;
}

abbrev pub without_subscriptions : Peer → Peer
without_subscriptions peer = record peer { subscriptions = [] }

abbrev without_peer : Hub → ℕ → Hub
without_peer hub peer = record hub {
  peers = erase peer hub.peers;
  channels = drop_inner peer hub.channels;
}

-- `removePeer`: the tables first, then `Close`, then the callback.
unfoldable pub remove_peer_now : World → ℕ → World
remove_peer_now w peer =
    let (closed, hooks) = peer_close (without_subscriptions (w.heap peer)) in
    if is_member w.hub peer
    then record w {
      hub = without_peer w.hub peer;
      heap = update w.heap peer closed;
      trace = w.trace ++ (hook_events hooks ++ peer_calls w.config.on_disconnect peer);
    }
    else w

-- The send on `hub.register`, with its `default`.
unfoldable pub register_peer : World → ℕ → World
register_peer w peer =
    if w.running && ltb (length w.register) default_hub_queue_size
    then record w { hub = record (w.hub) { register = w.register ++ peer ∷ [] } }
    else add_peer_now w peer

abbrev pub Done : Type 0
Done = Result (Unit {0})

-- `AddPeer`.
unfoldable pub add_peer : World → Option ℕ → World × Done
add_peer w none = (w, err nil_peer)
add_peer w (some peer) = (
  register_peer (record w { heap = update w.heap peer (ensure_queue (w.heap peer)) }) peer,
  ok tt,
)

-- `RemovePeer`.
unfoldable pub remove_peer : World → Option ℕ → World
remove_peer w none = w
remove_peer w (some peer) =
    if w.running && ltb (length w.unregister) default_hub_queue_size
    then record w { hub = record (w.hub) { unregister = w.unregister ++ peer ∷ [] } }
    else remove_peer_now w peer

-- `ChannelAuthoriser != nil && channel != "*" && !ChannelAuthoriser(peer, channel)`.
unfoldable pub is_denied : Option (Peer → Text → Bool) → Peer → Text → Bool
is_denied none peer channel = false
is_denied (some authorise) peer channel = not (channel == star) && not (authorise peer channel)

-- `CanSubscribePeer`.
unfoldable pub can_subscribe_peer : World → Option ℕ → Text → Done
unfolding is_denied
can_subscribe_peer w none channel = err nil_peer
can_subscribe_peer w (some peer) channel =
    if is_empty channel
    then err empty_channel
    else if is_denied w.config.channel_authoriser (w.heap peer) channel
    then err auth_rejected
    else ok tt

abbrev with_subscription : Peer → Text → Peer
with_subscription peer channel = record (ensure_queue peer) {
  subscriptions = insert channel true ((ensure_queue peer).subscriptions);
}

abbrev pub joined : World → ℕ → Text → World
joined w peer channel = record w {
  hub = record (w.hub) { channels = put channel peer true w.channels };
  heap = update w.heap peer (with_subscription (w.heap peer) channel);
}

-- `SubscribePeer`.
unfoldable pub subscribe_peer : World → Option ℕ → Text → World × Done
subscribe_peer w none channel = (w, err nil_peer)
subscribe_peer w (some peer) channel =
    if is_empty channel
    then (w, err empty_channel)
    else if is_denied w.config.channel_authoriser (w.heap peer) channel
    then (w, err auth_rejected)
    else (joined w peer channel, ok tt)

abbrev pub left : World → ℕ → Text → World
left w peer channel = record w {
  hub = record (w.hub) { channels = delete channel peer w.channels };
  heap =
      update w.heap peer
        (record (w.heap peer) { subscriptions = erase channel ((w.heap peer).subscriptions) });
}

-- `UnsubscribePeer`.
unfoldable pub unsubscribe_peer : World → Option ℕ → Text → World
unsubscribe_peer w none channel = w
unsubscribe_peer w (some peer) channel = if is_empty channel then w else left w peer channel
