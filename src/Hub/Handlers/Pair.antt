-- ===== src/Hub/Handlers/Pair.antt =====
-- A publish handler and a broadcast handler that are put on a hub together and taken off together, as
-- `Pipe` of go/stream.go and the Redis bridge of go/adapter/redis/redis.go do.
use go_stream.Prelude.{refl, some, arith, nat_eq, nat_beq_iff}
use go_stream.Prelude.GoMap.{insert, lookup-insert, lookup-erase}
use go_stream.Peer.{Func}
use go_stream.Hub.{Hub}
use go_stream.Hub.Handlers.{
  Stop, next_id, subscribe_broadcast, subscribe_published, call_stop, take_off,
}
use go_stream.Hub.Handlers.Laws.{SameHandlers, NextIsFree}

-- Both are put on: the hub, and the two stop functions.
abbrev pub put_on : Hub → Func → Func → Hub × Stop × Stop
put_on h f g =
    let published = subscribe_published h (some f) in
    let both = subscribe_broadcast published.0 (some g) in (both.0, published.1, both.1)

-- Both are taken off, one after the other.
abbrev pub take_both : Hub → Stop → Stop → Hub × Stop × Stop
take_both h one two =
    let first = call_stop h one in
    let second = call_stop first.0 two in (second.0, first.1, second.1)

module _ (h : Hub) (f g : Func) (free : NextIsFree h)
    (free_after : NextIsFree (subscribe_published h (some f)).0) where
  pub publish_first : let put = put_on h f g in SameHandlers ((take_both put.0 put.1 put.2).0) h
  unfolding subscribe_published subscribe_broadcast call_stop take_off
  publish_first = record {
    same_channel = λ c i. refl;
    same_broadcast = λ i. ground (
      arith,
      lookup-erase (next_id (subscribe_published h (some f)).0) i
          (insert (next_id (subscribe_published h (some f)).0) g h.broadcast_handlers),
      lookup-insert (next_id (subscribe_published h (some f)).0) i g h.broadcast_handlers,
      nat_beq_iff (next_id (subscribe_published h (some f)).0) i,
      free_after.free_broadcast,
    );
    same_publish = λ i. ground (
      arith,
      lookup-erase (next_id h) i (insert (next_id h) f h.publish_handlers),
      lookup-insert (next_id h) i f h.publish_handlers,
      nat_beq_iff (next_id h) i,
      free.free_publish,
    );
  }

  pub broadcast_first : let put = put_on h f g in SameHandlers ((take_both put.0 put.2 put.1).0) h
  unfolding subscribe_published subscribe_broadcast call_stop take_off
  broadcast_first = record {
    same_channel = publish_first.same_channel;
    same_broadcast = publish_first.same_broadcast;
    same_publish = publish_first.same_publish;
  }
