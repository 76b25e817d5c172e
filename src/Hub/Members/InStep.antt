-- ===== src/Hub/Members/InStep.antt =====
-- The two records of who is subscribed to what agree: `hub.channels[c][p]` stands exactly where
-- `p.subscriptions[c]` does.
use go_stream.Prelude.{
  ℕ, ◌≡◌, refl, true, ◌&&◌, Option, none, some, Text, arith, is_empty, length, ltb, text_eq, nat_eq,
  nat_beq_iff, inl, inr, Bool-cases,
}
use go_stream.Prelude.GoMap.{lookup, Distinct, lookup-insert, lookup-erase}
use go_stream.Prelude.GoMap.Nested.{
  at, at-put, at-delete, at-drop_inner, put-Distinct, delete-Distinct, drop_inner-Distinct,
}
use go_stream.Peer.{Peer, SendQueue, peer_close, ensure_queue}
use go_stream.Hub.{World, default_hub_queue_size}
use go_stream.Hub.Members.{
  is_member, add_peer_now, remove_peer_now, register_peer, add_peer, remove_peer, subscribe_peer,
  unsubscribe_peer, joined, left, without_subscriptions, is_denied,
}

pub record IsInStep (w : World) : Type 0 where
  pub distinct : Distinct w.channels
  pub agree : (c : Text) (p : ℕ) → at c p w.channels ≡ lookup c ((w.heap p).subscriptions)

-- A change that leaves the channels and every peer's subscriptions alone.
pub record KeepsSubscriptions (w u : World) : Type 0 where
  pub channels_kept : u.channels ≡ w.channels
  pub subscriptions_kept : (p : ℕ) → (u.heap p).subscriptions ≡ (w.heap p).subscriptions

pub KeepsSubscriptions-IsInStep : {w u : World} → KeepsSubscriptions w u → IsInStep w → IsInStep u
KeepsSubscriptions-IsInStep k s = record {
  distinct = rw k.channels_kept s.distinct;
  agree = λ c p. rw (k.channels_kept, k.subscriptions_kept p) (s.agree c p);
}

ensure_queue-subscriptions :
    (peer : Peer) (send : Option SendQueue)
    → peer.send ≡ send
    → (ensure_queue peer).subscriptions ≡ peer.subscriptions
unfolding ensure_queue
ensure_queue-subscriptions peer send e = ground arith

joined-IsInStep :
    (w : World) (peer : ℕ) (channel : Text) → IsInStep w → IsInStep (joined w peer channel)
joined-IsInStep w peer channel s = record {
  distinct = put-Distinct channel peer true w.channels s.distinct;
  agree = λ c p. ground (
    arith,
    at-put channel c peer p true w.channels,
    lookup-insert channel c true ((ensure_queue (w.heap peer)).subscriptions),
    ensure_queue-subscriptions (w.heap peer) ((w.heap peer).send) refl,
    s.agree c p,
    nat_beq_iff peer p,
  );
}

left-IsInStep :
    (w : World) (peer : ℕ) (channel : Text) → IsInStep w → IsInStep (left w peer channel)
left-IsInStep w peer channel s = record {
  distinct = delete-Distinct channel peer w.channels s.distinct;
  agree = λ c p. ground (
    arith,
    at-delete channel c peer p w.channels,
    lookup-erase channel c ((w.heap peer).subscriptions),
    s.agree c p,
    nat_beq_iff peer p,
  );
}

pub peer_close-subscriptions :
    (peer : Peer) → ((peer_close peer).0).subscriptions ≡ peer.subscriptions
unfolding peer_close
peer_close-subscriptions peer = ground arith

pub remove_peer_now-IsInStep :
    (w : World) (peer : ℕ) → IsInStep w → IsInStep (remove_peer_now w peer)
unfolding remove_peer_now lookup
remove_peer_now-IsInStep w peer s = elim (Bool-cases (is_member w.hub peer)) [
  | inr absent ↦ rw (absent, remove_peer_now) s
  | inl present ↦
      rw (present, remove_peer_now)
        (record {
          distinct = drop_inner-Distinct peer w.channels s.distinct;
          agree = λ c p. ground (
            arith,
            at-drop_inner peer p c w.channels s.distinct,
            peer_close-subscriptions (without_subscriptions (w.heap peer)),
            s.agree c p,
            nat_beq_iff peer p,
          );
        })
]

pub add_peer_now-KeepsSubscriptions :
    (w : World) (peer : ℕ) → KeepsSubscriptions w (add_peer_now w peer)
unfolding add_peer_now
add_peer_now-KeepsSubscriptions w peer = record {
  channels_kept = ground arith;
  subscriptions_kept = λ p. ground arith;
}

register_peer-KeepsSubscriptions :
    (w : World) (peer : ℕ) → KeepsSubscriptions w (register_peer w peer)
unfolding register_peer add_peer_now
register_peer-KeepsSubscriptions w peer = record {
  channels_kept = ground arith;
  subscriptions_kept = λ p. ground arith;
}

pub add_peer-IsInStep : (w : World) (peer : Option ℕ) → IsInStep w → IsInStep ((add_peer w peer).0)
unfolding add_peer
add_peer-IsInStep w none s = s
add_peer-IsInStep w (some peer) s =
    KeepsSubscriptions-IsInStep (register_peer-KeepsSubscriptions _ peer) (record {
      distinct = s.distinct;
      agree = λ c p. ground (
        arith,
        ensure_queue-subscriptions (w.heap peer) ((w.heap peer).send) refl,
        s.agree c p,
        nat_beq_iff peer p,
      );
    })

pub remove_peer-IsInStep :
    (w : World) (peer : Option ℕ) → IsInStep w → IsInStep (remove_peer w peer)
unfolding remove_peer
remove_peer-IsInStep w none s = s
remove_peer-IsInStep w (some peer) s =
    elim (Bool-cases (w.running && ltb (length w.unregister) default_hub_queue_size)) [
      | inl queued ↦ rw (queued, remove_peer) (record { distinct = s.distinct; agree = s.agree })
      | inr now ↦ rw (now, remove_peer) (remove_peer_now-IsInStep w peer s)
    ]

pub subscribe_peer-IsInStep :
    (w : World) (peer : Option ℕ) (channel : Text)
    → IsInStep w
    → IsInStep ((subscribe_peer w peer channel).0)
unfolding subscribe_peer
subscribe_peer-IsInStep w none channel s = s
subscribe_peer-IsInStep w (some peer) channel s = elim (Bool-cases (is_empty channel)) [
  | inl e ↦ rw (e, subscribe_peer) s
  | inr n ↦ elim (Bool-cases (is_denied w.config.channel_authoriser (w.heap peer) channel)) [
    | inl d ↦ rw (n, d, subscribe_peer) s
    | inr g ↦ rw (n, g, subscribe_peer) (joined-IsInStep w peer channel s)
  ]
]

pub unsubscribe_peer-IsInStep :
    (w : World) (peer : Option ℕ) (channel : Text)
    → IsInStep w
    → IsInStep (unsubscribe_peer w peer channel)
unfolding unsubscribe_peer
unsubscribe_peer-IsInStep w none channel s = s
unsubscribe_peer-IsInStep w (some peer) channel s = elim (Bool-cases (is_empty channel)) [
  | inl e ↦ rw (e, unsubscribe_peer) s
  | inr n ↦ rw (n, unsubscribe_peer) (left-IsInStep w peer channel s)
]
