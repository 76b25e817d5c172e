-- ===== src/Hub/Loop/Members.antt =====
-- The hub's channels and the peers' subscriptions agree in every reachable world.
use go_stream.Prelude.{ℕ, ◌≡◌, refl, Bool, [], Option, none, some, Text, arith, nat_beq_iff, ap}
use go_stream.Prelude.GoMap.{lookup}
use go_stream.Prelude.GoMap.Nested.{inner}
use go_stream.Peer.{Peer, Func, receive, peer_close, set_close_hook}
use go_stream.Config.{HubConfig}
use go_stream.Hub.{Hub, World, new_world, new_hub_with_config}
use go_stream.Hub.Handlers.{
  subscribe_with_error, subscribe_broadcast, subscribe_published, call_stop, take_off, Target,
  channel_handler, broadcast_handler, publish_handler, nothing,
}
use go_stream.Hub.Members.InStep.{
  IsInStep, KeepsSubscriptions-IsInStep, remove_peer_now-IsInStep, add_peer_now-KeepsSubscriptions,
  add_peer-IsInStep, remove_peer-IsInStep, subscribe_peer-IsInStep, unsubscribe_peer-IsInStep,
}
use go_stream.Hub.Loop.{
  start_run, stop_run, perform, Call, Step, Reach, here, next, with_hub, run_starts, run_stops,
  run_removes, run_ends, take_register, take_unregister, take_broadcast, take_publish,
  broadcast_enters, broadcast_dropped, publish_enters, publish_dropped, calls, add_call,
  remove_call, subscribe_call, unsubscribe_call, handle_call, handle_broadcast_call,
  handle_published_call, stop_call, publish_call, broadcast_call, receive_call, send_call,
  close_call, set_hook_call,
}
use go_stream.Hub.Loop.MemberSends.{
  receive_from-subscriptions, peer_send-subscriptions, send_to_channel-IsInStep, broadcast-IsInStep,
  broadcast_to_peers-IsInStep, process_publish-IsInStep,
}

start_run-IsInStep : (w : World) → IsInStep w → IsInStep (start_run w)
unfolding start_run
start_run-IsInStep w s =
    KeepsSubscriptions-IsInStep
      (record { channels_kept = ground arith; subscriptions_kept = λ p. ground arith }) s

-- A new table of handlers does not touch the channels.
handlers-IsInStep :
    (w : World) (h : Hub) → h.channels ≡ w.channels → IsInStep w → IsInStep (with_hub w h)
handlers-IsInStep w h e s =
    KeepsSubscriptions-IsInStep (record { channels_kept = e; subscriptions_kept = λ p. refl }) s

call_stop-channels :
    (h : Hub) (t : Target) (fired : Bool)
    → ((call_stop h (record { target = t; fired = fired })).0).channels ≡ h.channels
unfolding call_stop take_off
call_stop-channels h (channel_handler c i) fired = ground arith
call_stop-channels h (broadcast_handler i) fired = ground arith
call_stop-channels h (publish_handler i) fired = ground arith
call_stop-channels h nothing fired = ground arith

subscribe-channels :
    (h : Hub) (c : Text) (f : Option Func) → ((subscribe_with_error h c f).0).channels ≡ h.channels
unfolding subscribe_with_error
subscribe-channels h c none = ground arith
subscribe-channels h c (some f) = ground arith

perform-IsInStep : (w : World) (c : Call) → IsInStep w → IsInStep (perform w c)
unfolding perform
perform-IsInStep w (add_call peer) s = add_peer-IsInStep w peer s
perform-IsInStep w (remove_call peer) s = remove_peer-IsInStep w peer s
perform-IsInStep w (subscribe_call peer channel) s = subscribe_peer-IsInStep w peer channel s
perform-IsInStep w (unsubscribe_call peer channel) s = unsubscribe_peer-IsInStep w peer channel s
perform-IsInStep w (handle_call channel f) s =
    handlers-IsInStep w _ (subscribe-channels w.hub channel f) s
perform-IsInStep w (handle_broadcast_call none) s =
    unfold subscribe_broadcast in handlers-IsInStep w _ refl s
perform-IsInStep w (handle_broadcast_call (some f)) s =
    unfold subscribe_broadcast in handlers-IsInStep w _ refl s
perform-IsInStep w (handle_published_call none) s =
    unfold subscribe_published in handlers-IsInStep w _ refl s
perform-IsInStep w (handle_published_call (some f)) s =
    unfold subscribe_published in handlers-IsInStep w _ refl s
perform-IsInStep w (stop_call stop) s =
    handlers-IsInStep w _ (call_stop-channels w.hub stop.target stop.fired) s
perform-IsInStep w (publish_call source channel frame notify) s =
    send_to_channel-IsInStep w source channel frame notify s
perform-IsInStep w (broadcast_call source frame notify) s =
    broadcast-IsInStep w source frame notify s
perform-IsInStep w (receive_call peer) s =
    KeepsSubscriptions-IsInStep {w = w}
      (record {
        channels_kept = refl;
        subscriptions_kept = λ p.
            unfold receive in
            ground (
              arith,
              receive_from-subscriptions (w.heap peer) ((w.heap peer).send),
              nat_beq_iff peer p,
            );
      })
      s
perform-IsInStep w (send_call peer frame) s =
    KeepsSubscriptions-IsInStep {w = w}
      (record {
        channels_kept = refl;
        subscriptions_kept =
            λ p. ground (arith, peer_send-subscriptions (w.heap peer) frame, nat_beq_iff peer p);
      })
      s
perform-IsInStep w (close_call peer) s =
    KeepsSubscriptions-IsInStep {w = w}
      (record {
        channels_kept = refl;
        subscriptions_kept = λ p. unfold peer_close in ground (arith, nat_beq_iff peer p);
      })
      s
perform-IsInStep w (set_hook_call peer hook) s =
    KeepsSubscriptions-IsInStep {w = w}
      (record {
        channels_kept = refl;
        subscriptions_kept = λ p. unfold set_close_hook in ground (arith, nat_beq_iff peer p);
      })
      s

same_tables : {w u : World} → u.channels ≡ w.channels → u.heap ≡ w.heap → IsInStep w → IsInStep u
same_tables {w} {u} c h s =
    KeepsSubscriptions-IsInStep
      (record {
        channels_kept = c;
        subscriptions_kept = λ p. ap (λ (f : ℕ → Peer). (f p).subscriptions) h;
      })
      s

-- Each step of the hub or of its clients keeps the hub's channels and the peers' subscriptions in
-- agreement.
pub Step-IsInStep : {w u : World} → Step w u → IsInStep w → IsInStep u
Step-IsInStep {w} run_starts s = start_run-IsInStep w s
Step-IsInStep (run_stops r) s = unfold stop_run in same_tables refl refl s
Step-IsInStep (run_removes front back peer rest e) s =
    remove_peer_now-IsInStep _ peer (same_tables refl refl s)
Step-IsInStep (run_ends front back e) s = same_tables refl refl s
Step-IsInStep (take_register peer rest r e) s =
    KeepsSubscriptions-IsInStep (add_peer_now-KeepsSubscriptions _ peer) (same_tables refl refl s)
Step-IsInStep (take_unregister peer rest r e) s =
    remove_peer_now-IsInStep _ peer (same_tables refl refl s)
Step-IsInStep (take_broadcast item rest r e) s =
    broadcast_to_peers-IsInStep _ item (same_tables refl refl s)
Step-IsInStep (take_publish item rest r e) s =
    process_publish-IsInStep _ item (same_tables refl refl s)
Step-IsInStep (broadcast_enters front back item e h) s = same_tables refl refl s
Step-IsInStep (broadcast_dropped front back item e h) s = same_tables refl refl s
Step-IsInStep (publish_enters front back item e h) s = same_tables refl refl s
Step-IsInStep (publish_dropped front back item e h) s = same_tables refl refl s
Step-IsInStep {w} (calls c) s = perform-IsInStep w c s

Reach-IsInStep : {w u : World} → Reach w u → IsInStep w → IsInStep u
Reach-IsInStep here s = s
Reach-IsInStep (next r st) s = Step-IsInStep st (Reach-IsInStep r s)

-- From a new hub over peers without subscriptions, every reachable world has them in agreement.
pub new_world-IsInStep :
    (config : HubConfig) (heap : ℕ → Peer) {u : World}
    → ((p : ℕ) → (heap p).subscriptions ≡ [])
    → Reach (new_world config heap) u
    → IsInStep u
unfolding new_hub_with_config
new_world-IsInStep config heap h r =
    Reach-IsInStep r
      (record { distinct = tt; agree = λ c p. rw (h p) (unfold lookup inner in refl) })
