-- ===== src/Hub/Handlers/Laws.antt =====
-- Subscribing a handler and calling its stop function.
use go_stream.Prelude.{
  ℕ, ◌≡◌, refl, false, ◌&&◌, Option, none, some, Text, arith, is_empty, ◌==◌, text_eq, nat_eq,
  text_beq_iff, nat_beq_iff, if◌then◌else◌, inl, inr, Bool-cases,
}
use go_stream.Prelude.GoMap.{lookup, insert, lookup-insert, lookup-erase}
use go_stream.Prelude.GoMap.Nested.{at, at-put, at-delete, put}
use go_stream.Peer.{Func}
use go_stream.Hub.{Hub}
use go_stream.Hub.Handlers.{
  channel_handler, next_id, subscribe_with_error, subscribe, subscribe_broadcast,
  subscribe_published, take_off, call_stop, with_handler,
}

-- Equal readings of the three handler tables.
pub record SameHandlers (g h : Hub) : Type 0 where
  pub same_channel : (c : Text) (i : ℕ) → at c i g.channel_handlers ≡ at c i h.channel_handlers
  pub same_broadcast : (i : ℕ) → lookup i g.broadcast_handlers ≡ lookup i h.broadcast_handlers
  pub same_publish : (i : ℕ) → lookup i g.publish_handlers ≡ lookup i h.publish_handlers

-- The next identifier is in no table.
pub record NextIsFree (h : Hub) : Type 0 where
  pub free_channel : (c : Text) → at c (next_id h) h.channel_handlers ≡ none
  pub free_broadcast : lookup (next_id h) h.broadcast_handlers ≡ none
  pub free_publish : lookup (next_id h) h.publish_handlers ≡ none

-- Subscribing to a channel adds the handler under a new identifier and changes no other entry of the
-- channel table.
pub subscribe-at :
    (h : Hub) (channel : Text) (f : Func) (c : Text) (i : ℕ)
    → is_empty channel ≡ false
    → at c i ((subscribe h channel (some f)).0).channel_handlers
      ≡ (if channel == c && next_id h == i then some f else at c i h.channel_handlers)
unfolding subscribe subscribe_with_error
subscribe-at h channel f c i named = rw named (at-put channel c (next_id h) i f h.channel_handlers)

SameHandlers-refl : (h : Hub) → SameHandlers h h
SameHandlers-refl h = record {
  same_channel = λ c i. refl;
  same_broadcast = λ i. refl;
  same_publish = λ i. refl;
}

stop-handlers :
    (h : Hub) (channel : Text) (f : Func)
    → NextIsFree h
    → SameHandlers (take_off (with_handler h channel f) (channel_handler channel (next_id h))) h
unfolding take_off
stop-handlers h channel f free = record {
  same_channel = λ c i. ground (
    arith,
    at-delete channel c (next_id h) i (put channel (next_id h) f h.channel_handlers),
    at-put channel c (next_id h) i f h.channel_handlers,
    text_beq_iff channel c,
    nat_beq_iff (next_id h) i,
    free.free_channel c,
  );
  same_broadcast = λ i. refl;
  same_publish = λ i. refl;
}

-- Where the next identifier is free, the function that `Subscribe` returns undoes the subscription, and
-- a second call of it changes nothing. So for an empty channel and for a nil handler.
pub subscribe-stop :
    (h : Hub) (channel : Text) (f : Option Func)
    → NextIsFree h
    → let (subscribed, stop) = subscribe h channel f in
      let (stopped, spent) = call_stop subscribed stop in
      SameHandlers stopped h × ((call_stop stopped spent).0 ≡ stopped)
unfolding subscribe subscribe_with_error call_stop take_off
subscribe-stop h channel none free = elim (Bool-cases (is_empty channel)) [
  | inl empty ↦ rw empty (SameHandlers-refl h, refl)
  | inr named ↦ rw named (SameHandlers-refl h, refl)
]
subscribe-stop h channel (some f) free = elim (Bool-cases (is_empty channel)) [
  | inl empty ↦ rw empty (SameHandlers-refl h, refl)
  | inr named ↦ rw named (stop-handlers h channel f free, refl)
]

-- Where the next identifier is free, the function that `SubscribeBroadcast` returns undoes the
-- subscription, and a second call of it changes nothing. So for a nil handler.
pub subscribe_broadcast-stop :
    (h : Hub) (f : Option Func)
    → NextIsFree h
    → let (subscribed, stop) = subscribe_broadcast h f in
      let (stopped, spent) = call_stop subscribed stop in
      SameHandlers stopped h × ((call_stop stopped spent).0 ≡ stopped)
unfolding subscribe_broadcast call_stop take_off
subscribe_broadcast-stop h none free = (SameHandlers-refl h, refl)
subscribe_broadcast-stop h (some f) free = (
  record {
    same_channel = λ c i. refl;
    same_broadcast = λ i. ground (
      arith,
      lookup-erase (next_id h) i (insert (next_id h) f h.broadcast_handlers),
      lookup-insert (next_id h) i f h.broadcast_handlers,
      nat_beq_iff (next_id h) i,
      free.free_broadcast,
    );
    same_publish = λ i. refl;
  },
  refl,
)

-- Where the next identifier is free, the function that `SubscribePublished` returns undoes the
-- subscription, and a second call of it changes nothing. So for a nil handler.
pub subscribe_published-stop :
    (h : Hub) (f : Option Func)
    → NextIsFree h
    → let (subscribed, stop) = subscribe_published h f in
      let (stopped, spent) = call_stop subscribed stop in
      SameHandlers stopped h × ((call_stop stopped spent).0 ≡ stopped)
unfolding subscribe_published call_stop take_off
subscribe_published-stop h none free = (SameHandlers-refl h, refl)
subscribe_published-stop h (some f) free = (
  record {
    same_channel = λ c i. refl;
    same_broadcast = λ i. refl;
    same_publish = λ i. ground (
      arith,
      lookup-erase (next_id h) i (insert (next_id h) f h.publish_handlers),
      lookup-insert (next_id h) i f h.publish_handlers,
      nat_beq_iff (next_id h) i,
      free.free_publish,
    );
  },
  refl,
)
