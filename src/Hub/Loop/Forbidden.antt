-- ===== src/Hub/Loop/Forbidden.antt =====
-- A channel that the authoriser of go/hub.go grants to nobody, over all that can happen to a hub.
use go_stream.Prelude.{
  ℕ, ◌≡◌, ◌≢◌, refl, sym, ◌∙◌, ap, Bool, true, false, ◌&&◌, List, [], Option, none, some, Text,
  is_empty, length, ltb, text_eq, nat_eq, ◌==◌, if_cases, text_beq_iff, inl, inr, Bool-cases, arith,
}
use go_stream.Prelude.GoMap.{lookup}
use go_stream.Prelude.GoMap.Nested.{at, inner}
use go_stream.Peer.{Peer}
use go_stream.Config.{HubConfig, normalize_hub_config}
use go_stream.Hub.{World, new_world, new_hub_with_config, star, default_hub_queue_size}
use go_stream.Hub.Members.{Done, can_subscribe_peer, is_denied}
use go_stream.Hub.Spec.{View, Move, apply, apply_all, joins, leaves, subscribes, unsubscribes}
use go_stream.Hub.Spec.Views.{view_of}
use go_stream.Hub.Sending.Collect.{has}
use go_stream.Hub.Loop.{
  Call, Step, Reach, here, next, run_starts, run_stops, run_removes, run_ends, take_register,
  take_unregister, take_broadcast, take_publish, broadcast_enters, broadcast_dropped,
  publish_enters, publish_dropped, calls, add_call, remove_call, subscribe_call, unsubscribe_call,
  handle_call, handle_broadcast_call, handle_published_call, stop_call, publish_call,
  broadcast_call, receive_call, send_call, close_call, set_hook_call,
}
use go_stream.Hub.Loop.Members.{new_world-IsInStep}
use go_stream.Hub.Loop.Refines.{moves, call_moves, where_granted, unless_queued, Step-Makes}
use go_stream.Hub.Loop.Keeps.{Step-Keeps}

-- Nobody is on the channel.
abbrev Clear : Text → View → Type 0
Clear c v = (p : ℕ) → v.on c p ≡ false

joins-Clear : (c : Text) (v : View) (p : ℕ) → Clear c v → Clear c (apply v (joins p))
joins-Clear c v p h = h

leaves-Clear : (c : Text) (v : View) (p : ℕ) → Clear c v → Clear c (apply v (leaves p))
leaves-Clear c v p h = if_cases (Clear c) (v.member p) (λ _ q. ground (arith, h q)) (λ _. h)

unsubscribes-Clear :
    (c : Text) (v : View) (d : Text) (p : ℕ) → Clear c v → Clear c (apply v (unsubscribes d p))
unsubscribes-Clear c v d p h q = ground (arith, h q)

subscribes-Clear :
    (c : Text) (v : View) (d : Text) (p : ℕ)
    → (d == c) ≡ false
    → Clear c v
    → Clear c (apply v (subscribes d p))
subscribes-Clear c v d p e h q = ground (arith, h q, e)

unless_queued-Clear :
    (c : Text) (v : View) (b : Bool) (m : Move)
    → Clear c v
    → Clear c (apply v m)
    → Clear c (apply_all v (unless_queued b m))
unless_queued-Clear c v true m h k = h
unless_queued-Clear c v false m h k = k

module _ (authorise : Peer → Text → Bool) (channel : Text) (named : channel ≢ star)
    (refused : (peer : Peer) → authorise peer channel ≡ false) where
  admitted-star :
      (peer : Peer) → is_denied (some authorise) peer channel ≡ false → (channel == star) ≡ true
  unfolding is_denied
  admitted-star peer e = ground (arith, e, refused peer)

  -- Whatever is not denied is another channel.
  admitted_other :
      (a : Option (Peer → Text → Bool)) (peer : Peer) (d : Text)
      → a ≡ some authorise
      → is_denied a peer d ≡ false
      → (d == channel) ≡ false
  admitted_other a peer d is e = elim (Bool-cases (d == channel)) [
    | inr other ↦ other
    | inl same ↦ absurd (
        named (
          (text_beq_iff channel star).0 (
            admitted-star peer (
              ap (λ x. is_denied (some authorise) peer x) (sym ((text_beq_iff d channel).0 same))
              ∙ ap (λ x. is_denied x peer d) (sym is)
              ∙ e))))
  ]

  granted-Clear :
      (v : View) (w : World) (p : ℕ) (d : Text)
      → w.config.channel_authoriser ≡ some authorise
      → Clear channel v
      → Clear channel
          (apply_all v (where_granted (can_subscribe_peer w (some p) d) (subscribes d p)))
  unfolding can_subscribe_peer
  granted-Clear v w p d a h =
      if_cases P (is_empty d) (λ _. h)
        (λ _.
          if_cases P (is_denied w.config.channel_authoriser (w.heap p) d) (λ _. h)
            (λ e.
              subscribes-Clear channel v d p
                (admitted_other w.config.channel_authoriser (w.heap p) d a e) h))
    where
      P : Done → Type 0
      P r = Clear channel (apply_all v (where_granted r (subscribes d p)))

  call-Clear :
      (v : View) (w : World) (c : Call)
      → w.config.channel_authoriser ≡ some authorise
      → Clear channel v
      → Clear channel (apply_all v (call_moves w c))
  call-Clear v w (add_call none) a h = h
  call-Clear v w (add_call (some p)) a h =
      unless_queued-Clear channel v (w.running && ltb (length w.register) default_hub_queue_size)
        (joins p) h (joins-Clear channel v p h)
  call-Clear v w (remove_call none) a h = h
  call-Clear v w (remove_call (some p)) a h =
      unless_queued-Clear channel v (w.running && ltb (length w.unregister) default_hub_queue_size)
        (leaves p) h (leaves-Clear channel v p h)
  call-Clear v w (subscribe_call none d) a h = h
  call-Clear v w (subscribe_call (some p) d) a h = granted-Clear v w p d a h
  call-Clear v w (unsubscribe_call none d) a h = h
  call-Clear v w (unsubscribe_call (some p) d) a h =
      if_cases (λ (ms : List Move). Clear channel (apply_all v ms)) (is_empty d) (λ _. h)
        (λ _. unsubscribes-Clear channel v d p h)
  call-Clear v w (handle_call d f) a h = h
  call-Clear v w (handle_broadcast_call f) a h = h
  call-Clear v w (handle_published_call f) a h = h
  call-Clear v w (stop_call stop) a h = h
  call-Clear v w (publish_call source d frame notify) a h = h
  call-Clear v w (broadcast_call source frame notify) a h = h
  call-Clear v w (receive_call p) a h = h
  call-Clear v w (send_call p frame) a h = h
  call-Clear v w (close_call p) a h = h
  call-Clear v w (set_hook_call p hook) a h = h

  Step-Clear :
      {w u : World} (st : Step w u)
      → w.config.channel_authoriser ≡ some authorise
      → Clear channel (view_of w.hub)
      → Clear channel (apply_all (view_of w.hub) (moves st))
  Step-Clear {w} run_starts a h = h
  Step-Clear (run_stops r) a h = h
  Step-Clear {w} (run_removes front back peer rest e) a h =
      leaves-Clear channel (view_of w.hub) peer h
  Step-Clear (run_ends front back e) a h = h
  Step-Clear {w} (take_register peer rest r e) a h = joins-Clear channel (view_of w.hub) peer h
  Step-Clear {w} (take_unregister peer rest r e) a h = leaves-Clear channel (view_of w.hub) peer h
  Step-Clear {w} (take_broadcast item rest r e) a h = h
  Step-Clear {w} (take_publish item rest r e) a h = h
  Step-Clear {w} (broadcast_enters front back item e k) a h = h
  Step-Clear {w} (broadcast_dropped front back item e k) a h = h
  Step-Clear {w} (publish_enters front back item e k) a h = h
  Step-Clear {w} (publish_dropped front back item e k) a h = h
  Step-Clear {w} (calls c) a h = call-Clear (view_of w.hub) w c a h

new_world-Keeps :
    (config : HubConfig) (heap : ℕ → Peer) {u : World}
    → Reach (new_world config heap) u
    → u.config.channel_authoriser ≡ config.channel_authoriser
new_world-Keeps config heap here = unfold new_hub_with_config normalize_hub_config in refl
new_world-Keeps config heap (next r st) =
    ap (λ (c : HubConfig). c.channel_authoriser) (Step-Keeps st) ∙ new_world-Keeps config heap r

-- Where the authoriser of the configuration refuses a channel other than the wildcard to every peer, no
-- peer is ever on it: whatever the loop, the clients and the transports do from a new hub over peers
-- without subscriptions.
pub new_world-forbidden :
    (config : HubConfig) (heap : ℕ → Peer) {u : World} (authorise : Peer → Text → Bool)
    (channel : Text)
    → ((p : ℕ) → (heap p).subscriptions ≡ [])
    → config.channel_authoriser ≡ some authorise
    → channel ≢ star
    → ((peer : Peer) → authorise peer channel ≡ false)
    → Reach (new_world config heap) u
    → (p : ℕ) → has (at channel p u.channels) ≡ false
new_world-forbidden config heap authorise channel empty set named refused here p =
    unfold new_hub_with_config lookup inner in refl
new_world-forbidden config heap {u} authorise channel empty set named refused (next r st) p =
    ap (λ (v : View). v.on channel p) (Step-Makes st (new_world-IsInStep config heap empty r))
    ∙ Step-Clear authorise channel named refused st (new_world-Keeps config heap r ∙ set)
        (new_world-forbidden config heap authorise channel empty set named refused r) p
