-- ===== src/Hub/Loop/Keeps.antt =====
-- No step of the hub of go/hub.go changes its configuration.
use go_stream.Prelude.{
  ℕ, ◌≡◌, refl, ap, Bool, true, false, ◌&&◌, Option, none, some, Text, is_empty, length, ltb,
  text_eq, nat_eq, if_cases,
}
use go_stream.Errors.{Result}
use go_stream.Wire.{Frame}
use go_stream.Peer.{Func}
use go_stream.Hub.{Hub, World, default_hub_queue_size}
use go_stream.Hub.Handlers.{
  Stop, Target, subscribe_with_error, subscribe_broadcast, subscribe_published, call_stop, take_off,
  channel_handler, broadcast_handler, publish_handler, nothing,
}
use go_stream.Hub.Members.{
  Done, is_member, add_peer_now, remove_peer_now, add_peer, remove_peer, register_peer,
  subscribe_peer, unsubscribe_peer, is_denied,
}
use go_stream.Hub.Sending.{
  send_to_channel_from_peer, broadcast_frame_from_peer, collect_channel_peers, broadcast_to_peers,
  enqueue_publish_delivery, enqueue_broadcast, process_publish_delivery, send_to_peers,
}
use go_stream.Hub.Sending.OnlySends.{
  OnlySends, send_to_peers-OnlySends, send_broadcast_to_peers-OnlySends, publish_cases,
  broadcast_cases,
}
use go_stream.Hub.Loop.{
  start_run, stop_run, perform, Call, Step, with_hub, run_starts, run_stops, run_removes, run_ends,
  take_register, take_unregister, take_broadcast, take_publish, broadcast_enters, broadcast_dropped,
  publish_enters, publish_dropped, calls, add_call, remove_call, subscribe_call, unsubscribe_call,
  handle_call, handle_broadcast_call, handle_published_call, stop_call, publish_call,
  broadcast_call, receive_call, send_call, close_call, set_hook_call,
}

-- The configuration is that of the world before.
abbrev Keeps : World → World → Type 0
Keeps w u = u.config ≡ w.config

remove_peer_now-Keeps : (w : World) (peer : ℕ) → Keeps w (remove_peer_now w peer)
unfolding remove_peer_now
remove_peer_now-Keeps w peer = if_cases (Keeps w) (is_member w.hub peer) (λ _. refl) (λ _. refl)

add_peer_now-Keeps : (w : World) (peer : ℕ) → Keeps w (add_peer_now w peer)
unfolding add_peer_now
add_peer_now-Keeps w peer = if_cases (Keeps w) (is_member w.hub peer) (λ _. refl) (λ _. refl)

add_peer-Keeps : (w : World) (peer : Option ℕ) → Keeps w ((add_peer w peer).0)
unfolding add_peer register_peer
add_peer-Keeps w none = refl
add_peer-Keeps w (some peer) =
    if_cases (Keeps w) (w.running && ltb (length w.register) default_hub_queue_size) (λ _. refl)
      (λ _. add_peer_now-Keeps _ peer)

remove_peer-Keeps : (w : World) (peer : Option ℕ) → Keeps w (remove_peer w peer)
unfolding remove_peer
remove_peer-Keeps w none = refl
remove_peer-Keeps w (some peer) =
    if_cases (Keeps w) (w.running && ltb (length w.unregister) default_hub_queue_size) (λ _. refl)
      (λ _. remove_peer_now-Keeps w peer)

subscribe_peer-Keeps :
    (w : World) (peer : Option ℕ) (channel : Text) → Keeps w ((subscribe_peer w peer channel).0)
unfolding subscribe_peer
subscribe_peer-Keeps w none channel = refl
subscribe_peer-Keeps w (some peer) channel =
    if_cases (λ (r : World × Done). Keeps w r.0) (is_empty channel) (λ _. refl)
      (λ _.
        if_cases (λ (r : World × Done). Keeps w r.0)
          (is_denied w.config.channel_authoriser (w.heap peer) channel) (λ _. refl) (λ _. refl))

unsubscribe_peer-Keeps :
    (w : World) (peer : Option ℕ) (channel : Text) → Keeps w (unsubscribe_peer w peer channel)
unfolding unsubscribe_peer
unsubscribe_peer-Keeps w none channel = refl
unsubscribe_peer-Keeps w (some peer) channel =
    if_cases (Keeps w) (is_empty channel) (λ _. refl) (λ _. refl)

handle-Keeps :
    (w : World) (channel : Text) (f : Option Func)
    → Keeps w (with_hub w ((subscribe_with_error w.hub channel f).0))
unfolding subscribe_with_error
handle-Keeps w channel none =
    if_cases (λ (r : Hub × Result Stop). Keeps w (with_hub w r.0)) (is_empty channel) (λ _. refl)
      (λ _. refl)
handle-Keeps w channel (some f) =
    if_cases (λ (r : Hub × Result Stop). Keeps w (with_hub w r.0)) (is_empty channel) (λ _. refl)
      (λ _. refl)

call_stop-Keeps :
    (w : World) (t : Target) (fired : Bool)
    → Keeps w (with_hub w ((call_stop w.hub (record { target = t; fired = fired })).0))
unfolding call_stop take_off
call_stop-Keeps w t true = refl
call_stop-Keeps w (channel_handler c i) false = refl
call_stop-Keeps w (broadcast_handler i) false = refl
call_stop-Keeps w (publish_handler i) false = refl
call_stop-Keeps w nothing false = refl

OnlySends-Keeps : {w u : World} → OnlySends w u → Keeps w u
OnlySends-Keeps o = ap (λ (h : Hub). h.config) o.hub_kept

publish-Keeps :
    (w : World) (source : Option ℕ) (channel : Text) (frame : Frame) (notify : Bool)
    → Keeps w ((send_to_channel_from_peer w source channel frame notify).0)
publish-Keeps w source channel frame notify =
    publish_cases (Keeps w) w source channel frame notify refl
      (unfold enqueue_publish_delivery in if_cases (Keeps w) _ (λ _. sent) (λ _. sent))
  where
    sent : Keeps w (send_to_peers w channel frame (collect_channel_peers w channel))
    sent =
        OnlySends-Keeps (send_to_peers-OnlySends w channel frame (collect_channel_peers w channel))

broadcast-Keeps :
    (w : World) (source : Option ℕ) (frame : Frame) (notify : Bool)
    → Keeps w ((broadcast_frame_from_peer w source frame notify).0)
broadcast-Keeps w source frame notify =
    broadcast_cases (Keeps w) w source frame notify refl
      (unfold enqueue_broadcast in if_cases (Keeps w) _ (λ _. refl) (λ _. refl))

perform-Keeps : (w : World) (c : Call) → Keeps w (perform w c)
unfolding perform
perform-Keeps w (add_call peer) = add_peer-Keeps w peer
perform-Keeps w (remove_call peer) = remove_peer-Keeps w peer
perform-Keeps w (subscribe_call peer channel) = subscribe_peer-Keeps w peer channel
perform-Keeps w (unsubscribe_call peer channel) = unsubscribe_peer-Keeps w peer channel
perform-Keeps w (handle_call channel f) = handle-Keeps w channel f
perform-Keeps w (handle_broadcast_call none) = unfold subscribe_broadcast in refl
perform-Keeps w (handle_broadcast_call (some f)) = unfold subscribe_broadcast in refl
perform-Keeps w (handle_published_call none) = unfold subscribe_published in refl
perform-Keeps w (handle_published_call (some f)) = unfold subscribe_published in refl
perform-Keeps w (stop_call stop) = call_stop-Keeps w stop.target stop.fired
perform-Keeps w (publish_call source channel frame notify) =
    publish-Keeps w source channel frame notify
perform-Keeps w (broadcast_call source frame notify) = broadcast-Keeps w source frame notify
perform-Keeps w (receive_call peer) = refl
perform-Keeps w (send_call peer frame) = refl
perform-Keeps w (close_call peer) = refl
perform-Keeps w (set_hook_call peer hook) = refl

-- No step changes the configuration.
pub Step-Keeps : {w u : World} → Step w u → u.config ≡ w.config
Step-Keeps {w} run_starts = unfold start_run in if_cases (Keeps w) w.running (λ _. refl) (λ _. refl)
Step-Keeps (run_stops r) = unfold stop_run in refl
Step-Keeps (run_removes front back peer rest e) = remove_peer_now-Keeps _ peer
Step-Keeps (run_ends front back e) = refl
Step-Keeps (take_register peer rest r e) = add_peer_now-Keeps _ peer
Step-Keeps (take_unregister peer rest r e) = remove_peer_now-Keeps _ peer
Step-Keeps (take_broadcast item rest r e) =
    unfold broadcast_to_peers in OnlySends-Keeps (send_broadcast_to_peers-OnlySends _ item.frame _)
Step-Keeps (take_publish item rest r e) = unfold process_publish_delivery in refl
Step-Keeps (broadcast_enters front back item e h) = refl
Step-Keeps (broadcast_dropped front back item e h) = refl
Step-Keeps (publish_enters front back item e h) = refl
Step-Keeps (publish_dropped front back item e h) = refl
Step-Keeps {w} (calls c) = perform-Keeps w c
