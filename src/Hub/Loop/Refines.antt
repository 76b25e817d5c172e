-- ===== src/Hub/Loop/Refines.antt =====
-- The event loop of go/hub.go and the calls beside it, as the moves of Hub/Spec.
use go_stream.Prelude.{
  ℕ, ◌≡◌, refl, sym, ◌∙◌, ap, Bool, true, false, ◌&&◌, List, [], ◌∷◌, ◌++◌, Option, none, some,
  Text, is_empty, length, ltb, if◌then◌else◌, if_cases,
}
use go_stream.Prelude.GoMap.{lookup}
use go_stream.Prelude.GoMap.Nested.{inner}
use go_stream.Wire.{Frame}
use go_stream.Peer.{Peer, Func, ensure_queue}
use go_stream.Errors.{Result, ok, err, empty_channel, auth_rejected}
use go_stream.Config.{HubConfig}
use go_stream.Hub.{Hub, World, new_world, new_hub_with_config, default_hub_queue_size, update}
use go_stream.Hub.Handlers.{
  Stop, Target, subscribe_with_error, subscribe_broadcast, subscribe_published, call_stop, take_off,
  channel_handler, broadcast_handler, publish_handler, nothing,
}
use go_stream.Hub.Members.{
  Done, add_peer_now, remove_peer_now, add_peer, remove_peer, register_peer, can_subscribe_peer,
  subscribe_peer, unsubscribe_peer, joined, left, is_denied,
}
use go_stream.Hub.Members.InStep.{IsInStep}
use go_stream.Hub.Sending.{
  send_to_peers, send_to_channel_from_peer, broadcast_frame_from_peer, collect_channel_peers,
  broadcast_to_peers, enqueue_publish_delivery, enqueue_broadcast, process_publish_delivery,
}
use go_stream.Hub.Sending.OnlySends.{
  OnlySends, send_to_peers-OnlySends, send_broadcast_to_peers-OnlySends, publish_cases,
  broadcast_cases,
}
use go_stream.Hub.Spec.{
  Move, apply_all, joins, leaves, subscribes, unsubscribes, nobody, apply_all-append,
}
use go_stream.Hub.Spec.Views.{
  view_of, add_peer_now-view, remove_peer_now-view, joined-view, left-view,
}
use go_stream.Hub.Loop.{
  start_run, stop_run, perform, Call, Step, Reach, here, next, with_hub, run_starts, run_stops,
  run_removes, run_ends, take_register, take_unregister, take_broadcast, take_publish,
  broadcast_enters, broadcast_dropped, publish_enters, publish_dropped, calls, add_call,
  remove_call, subscribe_call, unsubscribe_call, handle_call, handle_broadcast_call,
  handle_published_call, stop_call, publish_call, broadcast_call, receive_call, send_call,
  close_call, set_hook_call,
}
use go_stream.Hub.Loop.Members.{new_world-IsInStep}

-- A request that the hub takes at once is its move; one that goes into a queue is none.
abbrev pub unless_queued : Bool → Move → List Move
unless_queued queued move = if queued then [] else move ∷ []

abbrev pub where_granted : Done → Move → List Move
where_granted (ok _) move = move ∷ []
where_granted (err e) move = []

-- The moves that a call makes.
abbrev pub call_moves : World → Call → List Move
call_moves w (add_call (some peer)) =
    unless_queued (w.running && ltb (length w.register) default_hub_queue_size) (joins peer)
call_moves w (remove_call (some peer)) =
    unless_queued (w.running && ltb (length w.unregister) default_hub_queue_size) (leaves peer)
call_moves w (subscribe_call peer channel) = elim peer [
  | none ↦ []
  | some p ↦ where_granted (can_subscribe_peer w (some p) channel) (subscribes channel p)
]
call_moves w (unsubscribe_call (some peer) channel) =
    if is_empty channel then [] else unsubscribes channel peer ∷ []
call_moves w _ = []

-- The moves that a step makes: the loop carries out what it takes from the two request queues, and
-- its deferred function the removals.
abbrev pub moves : {w u : World} → Step w u → List Move
moves (run_removes front back peer rest e) = leaves peer ∷ []
moves (take_register peer rest r e) = joins peer ∷ []
moves (take_unregister peer rest r e) = leaves peer ∷ []
moves {w} (calls c) = call_moves w c
moves _ = []

abbrev pub history : {w u : World} → Reach w u → List Move
history here = []
history (next r s) = history r ++ moves s

-- What a list of moves makes of the hub's view.
abbrev pub Makes : List Move → World → World → Type 0
Makes ms w u = view_of u.hub ≡ apply_all (view_of w.hub) ms

add_peer-Makes :
    (w : World) (peer : Option ℕ) → Makes (call_moves w (add_call peer)) w ((add_peer w peer).0)
unfolding add_peer
add_peer-Makes w none = refl
add_peer-Makes w (some peer) =
    unfold register_peer in queued (w.running && ltb (length w.register) default_hub_queue_size)
  where
    made : World
    made = record w { heap = update w.heap peer (ensure_queue (w.heap peer)) }

    queued :
        (b : Bool)
        → Makes (unless_queued b (joins peer)) w (
            if b
            then record made { hub = record (made.hub) { register = made.register ++ peer ∷ [] } }
            else add_peer_now made peer)
    queued true = refl
    queued false = add_peer_now-view made peer

remove_peer-Makes :
    (w : World) (peer : Option ℕ)
    → IsInStep w
    → Makes (call_moves w (remove_call peer)) w (remove_peer w peer)
unfolding remove_peer
remove_peer-Makes w none s = refl
remove_peer-Makes w (some peer) s =
    queued (w.running && ltb (length w.unregister) default_hub_queue_size)
  where
    queued :
        (b : Bool)
        → Makes (unless_queued b (leaves peer)) w (
            if b
            then record w { hub = record (w.hub) { unregister = w.unregister ++ peer ∷ [] } }
            else remove_peer_now w peer)
    queued true = refl
    queued false = remove_peer_now-view w peer s

subscribe_peer-Makes :
    (w : World) (peer : Option ℕ) (channel : Text)
    → Makes (call_moves w (subscribe_call peer channel)) w ((subscribe_peer w peer channel).0)
unfolding subscribe_peer can_subscribe_peer
subscribe_peer-Makes w none channel = refl
subscribe_peer-Makes w (some peer) channel =
    split (is_empty channel) (is_denied w.config.channel_authoriser (w.heap peer) channel)
  where
    split :
        (b d : Bool)
        → Makes
            (where_granted
              (if b then err empty_channel else if d then err auth_rejected else ok tt)
              (subscribes channel peer))
            w
            (let r : World × Done =
                if b
                then (w, err empty_channel)
                else if d
                then (w, err auth_rejected)
                else (joined w peer channel, ok tt) in
              r.0)
    split true d = refl
    split false true = refl
    split false false = joined-view w peer channel

unsubscribe_peer-Makes :
    (w : World) (peer : Option ℕ) (channel : Text)
    → Makes (call_moves w (unsubscribe_call peer channel)) w (unsubscribe_peer w peer channel)
unfolding unsubscribe_peer
unsubscribe_peer-Makes w none channel = refl
unsubscribe_peer-Makes w (some peer) channel = split (is_empty channel)
  where
    split :
        (b : Bool)
        → Makes
            (if b then [] else unsubscribes channel peer ∷ [])
            w
            (if b then w else left w peer channel)
    split true = refl
    split false = left-view w peer channel

-- Sends make no move.
OnlySends-Makes : {w u : World} → OnlySends w u → Makes [] w u
OnlySends-Makes o = ap view_of o.hub_kept

call_stop-Makes :
    (w : World) (t : Target) (fired : Bool)
    → Makes [] w (with_hub w ((call_stop w.hub (record { target = t; fired = fired })).0))
unfolding call_stop take_off
call_stop-Makes w t true = refl
call_stop-Makes w (channel_handler c i) false = refl
call_stop-Makes w (broadcast_handler i) false = refl
call_stop-Makes w (publish_handler i) false = refl
call_stop-Makes w nothing false = refl

handle-Makes :
    (w : World) (channel : Text) (f : Option Func)
    → Makes [] w (with_hub w ((subscribe_with_error w.hub channel f).0))
unfolding subscribe_with_error
handle-Makes w channel none =
    if_cases (λ (r : Hub × Result Stop). Makes [] w (with_hub w r.0)) (is_empty channel) (λ _. refl)
      (λ _. refl)
handle-Makes w channel (some f) =
    if_cases (λ (r : Hub × Result Stop). Makes [] w (with_hub w r.0)) (is_empty channel) (λ _. refl)
      (λ _. refl)

publish-Makes :
    (w : World) (source : Option ℕ) (channel : Text) (frame : Frame) (notify : Bool)
    → Makes [] w ((send_to_channel_from_peer w source channel frame notify).0)
publish-Makes w source channel frame notify =
    publish_cases (Makes [] w) w source channel frame notify refl
      (unfold enqueue_publish_delivery in if_cases (Makes [] w) _ (λ _. sent) (λ _. sent))
  where
    sent : Makes [] w (send_to_peers w channel frame (collect_channel_peers w channel))
    sent =
        OnlySends-Makes (send_to_peers-OnlySends w channel frame (collect_channel_peers w channel))

broadcast-Makes :
    (w : World) (source : Option ℕ) (frame : Frame) (notify : Bool)
    → Makes [] w ((broadcast_frame_from_peer w source frame notify).0)
broadcast-Makes w source frame notify =
    broadcast_cases (Makes [] w) w source frame notify refl
      (unfold enqueue_broadcast in if_cases (Makes [] w) _ (λ _. refl) (λ _. refl))

perform-Makes : (w : World) (c : Call) → IsInStep w → Makes (call_moves w c) w (perform w c)
unfolding perform
perform-Makes w (add_call peer) s = add_peer-Makes w peer
perform-Makes w (remove_call peer) s = remove_peer-Makes w peer s
perform-Makes w (subscribe_call peer channel) s = subscribe_peer-Makes w peer channel
perform-Makes w (unsubscribe_call peer channel) s = unsubscribe_peer-Makes w peer channel
perform-Makes w (handle_call channel f) s = handle-Makes w channel f
perform-Makes w (handle_broadcast_call none) s = unfold subscribe_broadcast in refl
perform-Makes w (handle_broadcast_call (some f)) s = unfold subscribe_broadcast in refl
perform-Makes w (handle_published_call none) s = unfold subscribe_published in refl
perform-Makes w (handle_published_call (some f)) s = unfold subscribe_published in refl
perform-Makes w (stop_call stop) s = call_stop-Makes w stop.target stop.fired
perform-Makes w (publish_call source channel frame notify) s =
    publish-Makes w source channel frame notify
perform-Makes w (broadcast_call source frame notify) s = broadcast-Makes w source frame notify
perform-Makes w (receive_call peer) s = refl
perform-Makes w (send_call peer frame) s = refl
perform-Makes w (close_call peer) s = refl
perform-Makes w (set_hook_call peer hook) s = refl

start_run-Makes : (w : World) → Makes [] w (start_run w)
unfolding start_run
start_run-Makes w = if_cases (Makes [] w) w.running (λ _. refl) (λ _. refl)

-- Each step makes the moves that `moves` reads off it.
pub Step-Makes : {w u : World} (st : Step w u) → IsInStep w → Makes (moves st) w u
Step-Makes {w} run_starts s = start_run-Makes w
Step-Makes (run_stops r) s = unfold stop_run in refl
Step-Makes (run_removes front back peer rest e) s =
    remove_peer_now-view _ peer (record { distinct = s.distinct; agree = s.agree })
Step-Makes (run_ends front back e) s = refl
Step-Makes (take_register peer rest r e) s = add_peer_now-view _ peer
Step-Makes (take_unregister peer rest r e) s =
    remove_peer_now-view _ peer (record { distinct = s.distinct; agree = s.agree })
Step-Makes (take_broadcast item rest r e) s =
    unfold broadcast_to_peers in OnlySends-Makes (send_broadcast_to_peers-OnlySends _ item.frame _)
Step-Makes (take_publish item rest r e) s = unfold process_publish_delivery in refl
Step-Makes (broadcast_enters front back item e h) s = refl
Step-Makes (broadcast_dropped front back item e h) s = refl
Step-Makes (publish_enters front back item e h) s = refl
Step-Makes (publish_dropped front back item e h) s = refl
Step-Makes {w} (calls c) s = perform-Makes w c s

-- Whatever the loop, the clients and the transports do from a new hub over peers without subscriptions,
-- the members and the channels are those that the moves of its steps make from none, in their order.
pub new_world-refines :
    (config : HubConfig) (heap : ℕ → Peer) {u : World}
    → ((p : ℕ) → (heap p).subscriptions ≡ [])
    → (r : Reach (new_world config heap) u) → view_of u.hub ≡ apply_all nobody (history r)
new_world-refines config heap h here = unfold new_hub_with_config lookup inner in refl
new_world-refines config heap h (next r st) =
    Step-Makes st (new_world-IsInStep config heap h r)
    ∙ ap (λ v. apply_all v (moves st)) (new_world-refines config heap h r)
    ∙ sym (apply_all-append nobody (history r) (moves st))
