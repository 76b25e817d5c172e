-- ===== src/Hub/Tests.antt =====
-- The hub's laws on a hub with two peers: the first is subscribed to `block`, the second to `block` and
-- to the wildcard.
use go_stream.Prelude.{
  ℕ, ◌≡◌, ◌≢◌, refl, text_beq_iff, Bool, true, false, [], ◌∷◌, ◌++◌, none, some, Text, codes, ◌⊎◌,
  arith, if◌then◌else◌, nat_eq, text_eq, ◌==◌, ◌&&◌, nat_beq, text_beq,
}
use go_stream.Prelude.GoMap.{lookup, insert}
use go_stream.Prelude.GoMap.Nested.{at, inner}
use go_stream.Errors.{ok}
use go_stream.Wire.{Frame}
use go_stream.Wire.Encode.{wire}
use go_stream.Peer.{Peer, peer_send, ensure_queue}
use go_stream.Config.{default_hub_config, normalize_hub_config}
use go_stream.Hub.{World, new_world, new_hub_with_config, star}
use go_stream.Hub.Handlers.Laws.{NextIsFree}
use go_stream.Hub.Members.{
  add_peer, register_peer, add_peer_now, is_denied, is_member, remove_peer_now, subscribe_peer,
  can_subscribe_peer,
}
use go_stream.Hub.Members.InStep.{IsInStep}
use go_stream.Hub.Members.Laws.{subscribe_peer-can, subscribe_peer-star, remove_peer_now-gone}
use go_stream.Hub.Sending.{send_to_channel_from_peer, tcp}
use go_stream.Hub.Sending.Collect.{has, listens}
use go_stream.Hub.Sending.Publish.{publish-heap, publish_delivers, delivered}
use go_stream.Hub.Loop.{
  perform, add_call, subscribe_call, publish_call, Reach, here, next, run_starts, calls, start_run,
}
use go_stream.Hub.Loop.Tables.{new_world-stats}
use go_stream.Hub.Counts.{stats, channel_count, channel_subscriber_count}
use go_stream.Hub.Spec.{apply_all, nobody}
use go_stream.Hub.Spec.Views.{view_of}
use go_stream.Hub.Loop.Refines.{history, new_world-refines}
use go_stream.Hub.Loop.Forbidden.{new_world-forbidden}
use go_stream.Hub.Loop.Members.{new_world-IsInStep}
use go_stream.Hub.Loop.Shutdown.{removal_overtakes}

abbrev block : Text
block = codes "block"

abbrev hello : Frame
hello = codes "hello"

abbrev peer_of : Text → Peer
peer_of transport = record {
  id = codes "a";
  user_id = [];
  claims = some [];
  transport = transport;
  send = some (record { buffer = []; is_closed = false });
  subscriptions = [];
  close_hook = none;
  close_done = false;
}

abbrev members : ℕ → Peer
members p =
    if nat_beq p 1
    then record (peer_of (codes "ws")) { subscriptions = (block, true) ∷ [] }
    else if nat_beq p 2
    then record (peer_of tcp) { subscriptions = (block, true) ∷ (star, true) ∷ [] }
    else peer_of tcp

-- Only `block` is open to all.
abbrev only_block : Peer → Text → Bool
only_block peer channel = text_beq channel block

abbrev live : World
live = record {
  hub = record {
    peers = (1, true) ∷ (2, true) ∷ [];
    broadcast_queue = [];
    publish_queue = [];
    register = 7 ∷ [];
    unregister = 7 ∷ [];
    channels = (block, (1, true) ∷ (2, true) ∷ []) ∷ (star, (2, true) ∷ []) ∷ [];
    channel_handlers = [];
    broadcast_handlers = [];
    publish_handlers = [];
    next_handler_id = 0;
    config = record default_hub_config { channel_authoriser = some only_block };
    done = false;
    running = true;
  };
  heap = members;
  late_broadcasts = [];
  late_publishes = [];
  leaving = [];
  trace = [];
}

-- A new hub that runs, where peer 1 subscribes to `block` and a publish on it follows.
abbrev begun : World
begun = new_world default_hub_config (λ p. peer_of tcp)

abbrev used : World
used =
    perform (perform (start_run begun) (subscribe_call (some 1) block))
      (publish_call none block hello true)

begun-used : Reach begun used
begun-used =
    next (next (next here run_starts) (calls (subscribe_call (some 1) block)))
      (calls (publish_call none block hello true))

new_world-IsInStep_example : IsInStep used
new_world-IsInStep_example =
    new_world-IsInStep default_hub_config (λ p. peer_of tcp) (λ p. refl) begun-used

block_is_named : block ≢ star
unfolding text_beq
block_is_named e = ground (arith, (text_beq_iff block star).1 e)

new_world-stats_example :
    (lookup block ((stats used.hub).subscriber_count) ≡ (
      if nat_beq (channel_subscriber_count used.hub block) 0
      then none
      else some (channel_subscriber_count used.hub block)))
    × ((stats used.hub).channels ≡ channel_count used.hub)
new_world-stats_example =
    new_world-stats default_hub_config (λ p. peer_of tcp) block begun-used block_is_named

publish-heap_example : ((send_to_channel_from_peer live none block hello true).0).heap 2 ≡ (
    if live.running && listens live block 2
    then delivered block hello (live.heap 2)
    else live.heap 2)
publish-heap_example = publish-heap live none block hello true 2

publish_delivers_example :
    (((send_to_channel_from_peer live none block hello true).0).heap 1).send
    ≡ some (record {
      buffer = [] ++ (if (live.heap 1).transport == tcp then wire block hello else hello) ∷ [];
      is_closed = false;
    })
unfolding listens lookup text_beq inner
publish_delivers_example =
    publish_delivers live none block hello true 1 (record { buffer = []; is_closed = false }) refl
      refl refl refl (omega arith) (omega arith)

subscribe_peer-can_example :
    ((subscribe_peer live (some 1) (codes "hash")).1
      ≡ can_subscribe_peer live (some 1) (codes "hash"))
    × ((can_subscribe_peer live (some 1) (codes "hash") ≡ ok tt)
        ⊎ ((subscribe_peer live (some 1) (codes "hash")).0 ≡ live))
subscribe_peer-can_example = subscribe_peer-can live (some 1) (codes "hash")

subscribe_peer-star_example :
    ((subscribe_peer live (some 1) star).1 ≡ ok tt)
    × (listens ((subscribe_peer live (some 1) star).0) (codes "hash") 1 ≡ true)
subscribe_peer-star_example = subscribe_peer-star live 1 (codes "hash")

-- A hub that does not run yet, with peer 1 in it and subscribed.
abbrev early : World
early = perform (perform begun (add_call (some 1))) (subscribe_call (some 1) block)

remove_peer_now-gone_example :
    (is_member (remove_peer_now early 1).hub 1 ≡ false)
    × (at block 1 (remove_peer_now early 1).channels ≡ none)
    × (((remove_peer_now early 1).heap 1).subscriptions ≡ [])
    × ((peer_send ((remove_peer_now early 1).heap 1) hello).1 ≡ false)
unfolding perform add_peer register_peer add_peer_now subscribe_peer is_denied insert lookup
    ensure_queue text_beq new_hub_with_config normalize_hub_config
remove_peer_now-gone_example =
    remove_peer_now-gone early 1 block hello
      (new_world-IsInStep default_hub_config (λ p. peer_of tcp) (λ p. refl)
        (next (next here (calls (add_call (some 1)))) (calls (subscribe_call (some 1) block))))
      refl refl

next_is_free : NextIsFree live.hub
unfolding lookup inner
next_is_free = record { free_channel = λ c. refl; free_broadcast = refl; free_publish = refl }

removal_overtakes_example :
    (u : World) × Reach live u
    × (is_member u.hub 7 ≡ true)
    × (u.register ≡ [])
    × (u.unregister ≡ [])
unfolding lookup
removal_overtakes_example = removal_overtakes live 7 [] [] refl refl refl refl

new_world-refines_example : view_of used.hub ≡ apply_all nobody (history begun-used)
new_world-refines_example =
    new_world-refines default_hub_config (λ p. peer_of tcp) (λ p. refl) begun-used

abbrev guarded : World
guarded =
    new_world (record default_hub_config { channel_authoriser = some only_block })
      (λ p. peer_of tcp)

-- Peer 1 joins, is refused a channel and is let into another.
abbrev guarded-runs : Reach guarded (
    perform
      (perform (perform guarded (add_call (some 1))) (subscribe_call (some 1) hello))
      (subscribe_call (some 1) block))
guarded-runs =
    next (next (next here (calls (add_call (some 1)))) (calls (subscribe_call (some 1) hello)))
      (calls (subscribe_call (some 1) block))

hello_is_named : hello ≢ star
unfolding text_beq
hello_is_named e = ground (arith, (text_beq_iff hello star).1 e)

new_world-forbidden_example :
    has (
      at hello 1
        (perform
          (perform (perform guarded (add_call (some 1))) (subscribe_call (some 1) hello))
          (subscribe_call (some 1) block)).channels)
    ≡ false
unfolding text_beq
new_world-forbidden_example =
    new_world-forbidden (record default_hub_config { channel_authoriser = some only_block })
      (λ p. peer_of tcp) only_block hello (λ p. refl) refl hello_is_named (λ peer. refl)
      guarded-runs 1
