-- ===== src/Hub/Loop/Tables.antt =====
-- The hub's tables stay tidy: no key twice, and no empty inner map.
use go_stream.Prelude.{
  ℕ, refl, none, some, if_cases, text_eq, nat_eq, ◌≡◌, ◌≢◌, Text, nat_beq, if◌then◌else◌,
}
use go_stream.Prelude.GoMap.{keys, lookup}
use go_stream.Peer.{Peer}
use go_stream.Config.{HubConfig}
use go_stream.Hub.{World, new_world, new_hub_with_config, star}
use go_stream.Hub.Handlers.{subscribe_broadcast, subscribe_published}
use go_stream.Hub.Sending.{broadcast_to_peers, process_publish_delivery, collect_channel_peers}
use go_stream.Hub.Sending.OnlySends.{
  send_to_peers-OnlySends, send_broadcast_to_peers-OnlySends, publish_cases, broadcast_cases,
}
use go_stream.Hub.Counts.{stats, channel_count, channel_subscriber_count}
use go_stream.Hub.Counts.Agree.{IsTidy, stats-channel_subscriber_count}
use go_stream.Hub.Counts.Totals.{stats-channel_count}
use go_stream.Hub.Loop.{
  start_run, stop_run, perform, Call, Step, Reach, here, next, with_hub, run_starts, run_stops,
  run_removes, run_ends, take_register, take_unregister, take_broadcast, take_publish,
  broadcast_enters, broadcast_dropped, publish_enters, publish_dropped, calls, add_call,
  remove_call, subscribe_call, unsubscribe_call, handle_call, handle_broadcast_call,
  handle_published_call, stop_call, publish_call, broadcast_call, receive_call, send_call,
  close_call, set_hook_call,
}
use go_stream.Hub.Loop.TableCalls.{
  same_tables, Tidy, OnlySends-Tidy, add_peer_now-Tidy, remove_peer_now-Tidy, add_peer-Tidy,
  remove_peer-Tidy, subscribe_peer-Tidy, unsubscribe_peer-Tidy, enqueue_publish-Tidy,
  enqueue_broadcast-Tidy, call_stop-IsTidy, subscribe-IsTidy,
}

perform-Tidy : (w : World) (c : Call) → Tidy w → Tidy (perform w c)
unfolding perform
perform-Tidy w (add_call peer) t = add_peer-Tidy w peer t
perform-Tidy w (remove_call peer) t = remove_peer-Tidy w peer t
perform-Tidy w (subscribe_call peer channel) t = subscribe_peer-Tidy w peer channel t
perform-Tidy w (unsubscribe_call peer channel) t = unsubscribe_peer-Tidy w peer channel t
perform-Tidy w (handle_call channel f) t = subscribe-IsTidy w.hub channel f t
perform-Tidy w (handle_broadcast_call none) t = unfold subscribe_broadcast in t
perform-Tidy w (handle_broadcast_call (some f)) t =
    unfold subscribe_broadcast in same_tables refl refl refl t
perform-Tidy w (handle_published_call none) t = unfold subscribe_published in t
perform-Tidy w (handle_published_call (some f)) t =
    unfold subscribe_published in same_tables refl refl refl t
perform-Tidy w (stop_call s) t = call_stop-IsTidy w.hub s t
perform-Tidy w (publish_call source channel frame notify) t =
    publish_cases Tidy w source channel frame notify t (
      enqueue_publish-Tidy _ _ (
        OnlySends-Tidy (send_to_peers-OnlySends w channel frame (collect_channel_peers w channel))
          t))
perform-Tidy w (broadcast_call source frame notify) t =
    broadcast_cases Tidy w source frame notify t (enqueue_broadcast-Tidy w _ t)
perform-Tidy w (receive_call peer) t = t
perform-Tidy w (send_call peer frame) t = t
perform-Tidy w (close_call peer) t = t
perform-Tidy w (set_hook_call peer hook) t = t

start_run-Tidy : (w : World) → Tidy w → Tidy (start_run w)
unfolding start_run
start_run-Tidy w t = if_cases Tidy w.running (λ _. t) (λ _. same_tables refl refl refl t)

-- Each step keeps the hub's tables tidy: keys stand once, and no inner map is left empty.
Step-IsTidy : {w u : World} → Step w u → IsTidy w.hub → IsTidy u.hub
Step-IsTidy {w} run_starts t = start_run-Tidy w t
Step-IsTidy (run_stops r) t = unfold stop_run in same_tables refl refl refl t
Step-IsTidy (run_removes front back peer rest e) t =
    remove_peer_now-Tidy _ peer (same_tables refl refl refl t)
Step-IsTidy (run_ends front back e) t = same_tables refl refl refl t
Step-IsTidy (take_register peer rest r e) t =
    add_peer_now-Tidy _ peer (same_tables refl refl refl t)
Step-IsTidy (take_unregister peer rest r e) t =
    remove_peer_now-Tidy _ peer (same_tables refl refl refl t)
Step-IsTidy {w} (take_broadcast item rest r e) t =
    unfold broadcast_to_peers in
    OnlySends-Tidy
      (send_broadcast_to_peers-OnlySends (with_hub w (record (w.hub) { broadcast_queue = rest }))
        item.frame (keys w.peers))
      (same_tables refl refl refl t)
Step-IsTidy (take_publish item rest r e) t =
    unfold process_publish_delivery in same_tables refl refl refl t
Step-IsTidy (broadcast_enters front back item e h) t = same_tables refl refl refl t
Step-IsTidy (broadcast_dropped front back item e h) t = t
Step-IsTidy (publish_enters front back item e h) t = same_tables refl refl refl t
Step-IsTidy (publish_dropped front back item e h) t = t
Step-IsTidy {w} (calls c) t = perform-Tidy w c t

Reach-IsTidy : {w u : World} → Reach w u → IsTidy w.hub → IsTidy u.hub
Reach-IsTidy here t = t
Reach-IsTidy (next r st) t = Step-IsTidy st (Reach-IsTidy r t)

-- From a new hub, the tables are tidy in every reachable world.
pub new_world-IsTidy :
    (config : HubConfig) (heap : ℕ → Peer) {u : World}
    → Reach (new_world config heap) u
    → IsTidy u.hub
unfolding new_hub_with_config
new_world-IsTidy config heap r = Reach-IsTidy r (record {
  members_distinct = tt;
  channels_distinct = tt;
  channels_filled = tt;
  handlers_distinct = tt;
  handlers_filled = tt;
})

-- Whatever the loop, the clients and the transports do from a new hub, its statistics agree: `Stats` has
-- an entry for a named channel exactly where `ChannelSubscriberCount` is not 0, with the same number, and
-- `Stats().Channels` is `ChannelCount()`.
pub new_world-stats :
    (config : HubConfig) (heap : ℕ → Peer) {u : World} (channel : Text)
    → Reach (new_world config heap) u
    → channel ≢ star
    → (lookup channel ((stats u.hub).subscriber_count) ≡ (
        if nat_beq (channel_subscriber_count u.hub channel) 0
        then none
        else some (channel_subscriber_count u.hub channel)))
      × ((stats u.hub).channels ≡ channel_count u.hub)
new_world-stats config heap {u} channel r named =
    let tidy = new_world-IsTidy config heap r in
    (stats-channel_subscriber_count u.hub channel tidy named, stats-channel_count u.hub tidy)
