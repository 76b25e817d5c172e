-- ===== src/Hub/Loop/TableCalls.antt =====
-- The operations of go/hub.go keep the hub's tables tidy, one by one.
use go_stream.Prelude.{
  ℕ, ◌≡◌, refl, true, ◌&&◌, Option, none, some, Text, is_empty, length, ltb, if_cases, text_eq,
  nat_eq,
}
use go_stream.Prelude.GoMap.{insert-Distinct, erase-Distinct}
use go_stream.Prelude.GoMap.Nested.{
  put-Distinct, put-Filled, delete-Distinct, delete-Filled, drop_inner-Distinct, drop_inner-Filled,
}
use go_stream.Peer.{Func}
use go_stream.Hub.{Hub, World, BroadcastDelivery, PublishDelivery, default_hub_queue_size}
use go_stream.Hub.Handlers.{
  subscribe_with_error, call_stop, take_off, Target, Stop, channel_handler, broadcast_handler,
  publish_handler, nothing, next_id,
}
use go_stream.Hub.Members.{
  Done, add_peer_now, remove_peer_now, register_peer, add_peer, remove_peer, subscribe_peer,
  unsubscribe_peer, is_denied, is_member,
}
use go_stream.Hub.Sending.{enqueue_publish_delivery, enqueue_broadcast}
use go_stream.Hub.Sending.OnlySends.{OnlySends}
use go_stream.Hub.Counts.Agree.{IsTidy}

-- The same tables, whatever else differs.
pub same_tables :
    {g h : Hub}
    → h.peers ≡ g.peers
    → h.channels ≡ g.channels
    → h.channel_handlers ≡ g.channel_handlers
    → IsTidy g
    → IsTidy h
same_tables p c f t = record {
  members_distinct = rw p t.members_distinct;
  channels_distinct = rw c t.channels_distinct;
  channels_filled = rw c t.channels_filled;
  handlers_distinct = rw f t.handlers_distinct;
  handlers_filled = rw f t.handlers_filled;
}

abbrev pub Tidy : World → Type 0
Tidy w = IsTidy w.hub

pub OnlySends-Tidy : {w u : World} → OnlySends w u → Tidy w → Tidy u
OnlySends-Tidy o t = rw o.hub_kept t

pub add_peer_now-Tidy : (w : World) (peer : ℕ) → Tidy w → Tidy (add_peer_now w peer)
unfolding add_peer_now
add_peer_now-Tidy w peer t =
    if_cases Tidy (is_member w.hub peer) (λ _. t)
      λ _. record {
        members_distinct = insert-Distinct peer true w.peers t.members_distinct;
        channels_distinct = t.channels_distinct;
        channels_filled = t.channels_filled;
        handlers_distinct = t.handlers_distinct;
        handlers_filled = t.handlers_filled;
      }

pub remove_peer_now-Tidy : (w : World) (peer : ℕ) → Tidy w → Tidy (remove_peer_now w peer)
unfolding remove_peer_now
remove_peer_now-Tidy w peer t =
    if_cases Tidy (is_member w.hub peer)
      (λ _. record {
        members_distinct = erase-Distinct peer w.peers t.members_distinct;
        channels_distinct = drop_inner-Distinct peer w.channels t.channels_distinct;
        channels_filled = drop_inner-Filled peer w.channels t.channels_filled;
        handlers_distinct = t.handlers_distinct;
        handlers_filled = t.handlers_filled;
      })
      (λ _. t)

pub add_peer-Tidy : (w : World) (peer : Option ℕ) → Tidy w → Tidy ((add_peer w peer).0)
unfolding add_peer register_peer
add_peer-Tidy w none t = t
add_peer-Tidy w (some peer) t =
    if_cases Tidy (w.running && ltb (length w.register) default_hub_queue_size)
      (λ _. same_tables refl refl refl t) (λ _. add_peer_now-Tidy _ peer t)

pub remove_peer-Tidy : (w : World) (peer : Option ℕ) → Tidy w → Tidy (remove_peer w peer)
unfolding remove_peer
remove_peer-Tidy w none t = t
remove_peer-Tidy w (some peer) t =
    if_cases Tidy (w.running && ltb (length w.unregister) default_hub_queue_size)
      (λ _. same_tables refl refl refl t) (λ _. remove_peer_now-Tidy w peer t)

pub subscribe_peer-Tidy :
    (w : World) (peer : Option ℕ) (channel : Text)
    → Tidy w
    → Tidy ((subscribe_peer w peer channel).0)
unfolding subscribe_peer
subscribe_peer-Tidy w none channel t = t
subscribe_peer-Tidy w (some peer) channel t =
    if_cases (λ (r : World × Done). Tidy (r.0)) (is_empty channel) (λ _. t)
      λ _.
        if_cases (λ (r : World × Done). Tidy (r.0))
          (is_denied w.config.channel_authoriser (w.heap peer) channel) (λ _. t)
          λ _. record {
            members_distinct = t.members_distinct;
            channels_distinct = put-Distinct channel peer true w.channels t.channels_distinct;
            channels_filled = put-Filled channel peer true w.channels t.channels_filled;
            handlers_distinct = t.handlers_distinct;
            handlers_filled = t.handlers_filled;
          }

pub unsubscribe_peer-Tidy :
    (w : World) (peer : Option ℕ) (channel : Text) → Tidy w → Tidy (unsubscribe_peer w peer channel)
unfolding unsubscribe_peer
unsubscribe_peer-Tidy w none channel t = t
unsubscribe_peer-Tidy w (some peer) channel t =
    if_cases Tidy (is_empty channel) (λ _. t)
      λ _. record {
        members_distinct = t.members_distinct;
        channels_distinct = delete-Distinct channel peer w.channels t.channels_distinct;
        channels_filled = delete-Filled channel peer w.channels t.channels_filled;
        handlers_distinct = t.handlers_distinct;
        handlers_filled = t.handlers_filled;
      }

pub enqueue_publish-Tidy :
    (w : World) (item : PublishDelivery) → Tidy w → Tidy (enqueue_publish_delivery w item)
unfolding enqueue_publish_delivery
enqueue_publish-Tidy w item t =
    if_cases Tidy (ltb (length w.publish_queue) default_hub_queue_size)
      (λ _. same_tables refl refl refl t) (λ _. t)

pub enqueue_broadcast-Tidy :
    (w : World) (item : BroadcastDelivery) → Tidy w → Tidy (enqueue_broadcast w item)
unfolding enqueue_broadcast
enqueue_broadcast-Tidy w item t =
    if_cases Tidy (ltb (length w.broadcast_queue) default_hub_queue_size)
      (λ _. same_tables refl refl refl t) (λ _. t)

take_off-IsTidy : (h : Hub) (target : Target) → IsTidy h → IsTidy (take_off h target)
unfolding take_off
take_off-IsTidy h (channel_handler c i) t = record {
  members_distinct = t.members_distinct;
  channels_distinct = t.channels_distinct;
  channels_filled = t.channels_filled;
  handlers_distinct = delete-Distinct c i h.channel_handlers t.handlers_distinct;
  handlers_filled = delete-Filled c i h.channel_handlers t.handlers_filled;
}
take_off-IsTidy h (broadcast_handler i) t = same_tables refl refl refl t
take_off-IsTidy h (publish_handler i) t = same_tables refl refl refl t
take_off-IsTidy h nothing t = t

pub call_stop-IsTidy : (h : Hub) (s : Stop) → IsTidy h → IsTidy ((call_stop h s).0)
unfolding call_stop
call_stop-IsTidy h s t =
    if_cases (λ (r : Hub × Stop). IsTidy (r.0)) s.fired (λ _. t) (λ _. take_off-IsTidy h s.target t)

pub subscribe-IsTidy :
    (h : Hub) (c : Text) (f : Option Func) → IsTidy h → IsTidy ((subscribe_with_error h c f).0)
unfolding subscribe_with_error
subscribe-IsTidy h c none t =
    if_cases (λ (r : Hub × _). IsTidy (r.0)) (is_empty c) (λ _. t) (λ _. t)
subscribe-IsTidy h c (some f) t =
    if_cases (λ (r : Hub × _). IsTidy (r.0)) (is_empty c) (λ _. t)
      λ _. record {
        members_distinct = t.members_distinct;
        channels_distinct = t.channels_distinct;
        channels_filled = t.channels_filled;
        handlers_distinct = put-Distinct c (next_id h) f h.channel_handlers t.handlers_distinct;
        handlers_filled = put-Filled c (next_id h) f h.channel_handlers t.handlers_filled;
      }
