-- ===== src/Hub/Sending/Publish.antt =====
-- What a publish does to every peer and to the hub's queue.
use go_stream.Prelude.{
  ℕ, zero, suc, ◌<◌, ◌≡◌, refl, ap, ◌∙◌, Bool, true, false, not, ◌&&◌, List, [], ◌∷◌, ◌++◌, Option,
  none, some, Text, arith, inl, inr, Bool-cases, nat_beq, nat_beq_iff, length, is_empty, ◌==◌,
  text_eq, if◌then◌else◌, if_cases,
}
use go_stream.Wire.{Frame, encode_tcp_frame}
use go_stream.Wire.Encode.{wire, Fits, encode_tcp_frame-wire}
use go_stream.Peer.{Peer, SendQueue, peer_send, send_to, offer, default_peer_send_buffer_size}
use go_stream.Hub.{World, PublishDelivery}
use go_stream.Hub.Members.{Done}
use go_stream.Hub.Sending.{
  send_to_peer, send_to_peers, queue_encoded, tcp, collect_channel_peers, has_receivers,
  enqueue_publish_delivery, send_to_channel_from_peer,
}
use go_stream.Hub.Sending.Collect.{count, listens, collect_channel_peers-count}

-- What the transport of a peer takes: TCP peers get the frame with its channel.
abbrev payload_for : Text → Text → Frame → Option (List ℕ)
payload_for transport channel frame =
    if transport == tcp then encode_tcp_frame channel frame else some frame

abbrev offered : Peer → Option (List ℕ) → Peer
offered peer none = peer
offered peer (some bytes) = (peer_send peer bytes).0

-- A peer after one send of the frame.
abbrev pub delivered : Text → Frame → Peer → Peer
delivered channel frame peer = offered peer (payload_for peer.transport channel frame)

abbrev repeat : ℕ → (Peer → Peer) → Peer → Peer
repeat zero f peer = peer
repeat (suc n) f peer = repeat n f (f peer)

send_to_peer-heap :
    (w : World) (channel : Text) (frame : Frame) (q p : ℕ)
    → (send_to_peer w channel frame q).heap p
      ≡ (if nat_beq q p then delivered channel frame (w.heap p) else w.heap p)
unfolding send_to_peer
send_to_peer-heap w channel frame q p = elim (Bool-cases ((w.heap q).transport == tcp)) [
  | inr plain ↦ rw (plain, send_to_peer) (ground (arith, nat_beq_iff q p))
  | inl framed ↦ rw (framed, send_to_peer) (split (encode_tcp_frame channel frame) refl framed)
]
  where
    split :
        (bytes : Option (List ℕ))
        → encode_tcp_frame channel frame ≡ bytes
        → ((w.heap q).transport == tcp) ≡ true
        → (queue_encoded w q bytes).heap p
          ≡ (if nat_beq q p then delivered channel frame (w.heap p) else w.heap p)
    split none e h = ground (arith, nat_beq_iff q p)
    split (some bytes) e h = ground (arith, nat_beq_iff q p)

send_to_peers-heap :
    (w : World) (channel : Text) (frame : Frame) (peers : List ℕ) (p : ℕ)
    → (send_to_peers w channel frame peers).heap p
      ≡ repeat (count p peers) (delivered channel frame) (w.heap p)
unfolding send_to_peers
send_to_peers-heap w channel frame [] p = refl
send_to_peers-heap w channel frame (q ∷ peers) p =
    send_to_peers-heap (send_to_peer w channel frame q) channel frame peers p
    ∙ rw (send_to_peer-heap w channel frame q p) (split (nat_beq q p))
  where
    split :
        (b : Bool)
        → repeat
            (count p peers)
            (delivered channel frame)
            (if b then delivered channel frame (w.heap p) else w.heap p)
          ≡ repeat
              (if b then suc (count p peers) else count p peers)
              (delivered channel frame)
              (w.heap p)
    split true = refl
    split false = refl

enqueue-heap :
    (w : World) (item : PublishDelivery) → (enqueue_publish_delivery w item).heap ≡ w.heap
unfolding enqueue_publish_delivery
enqueue-heap w item = ground arith

count_empty : (p : ℕ) (xs : List ℕ) → is_empty xs ≡ true → count p xs ≡ 0
count_empty p [] h = refl
count_empty p (x ∷ xs) h = cc

-- Nobody listens where a publish finds no receivers.
listens_nobody :
    (w : World) (channel : Text) (notify : Bool) (p : ℕ)
    → has_receivers w channel notify ≡ false
    → listens w channel p ≡ false
listens_nobody w channel notify p h = ground (
  arith,
  collect_channel_peers-count w channel p,
  count_empty p (collect_channel_peers w channel),
)

sent-heap :
    (w : World) (channel : Text) (frame : Frame) (item : PublishDelivery) (p : ℕ)
    → (enqueue_publish_delivery
          (send_to_peers w channel frame (collect_channel_peers w channel))
          item).heap
        p
      ≡ (if listens w channel p then delivered channel frame (w.heap p) else w.heap p)
sent-heap w channel frame item p =
    ap (λ (h : ℕ → Peer). h p)
      (enqueue-heap (send_to_peers w channel frame (collect_channel_peers w channel)) item)
    ∙ send_to_peers-heap w channel frame (collect_channel_peers w channel) p
    ∙ rw (collect_channel_peers-count w channel p) (split (listens w channel p))
  where
    split :
        (b : Bool)
        → repeat (if b then 1 else 0) (delivered channel frame) (w.heap p)
          ≡ (if b then delivered channel frame (w.heap p) else w.heap p)
    split true = refl
    split false = refl

-- For every world, frame and peer: a publish on a running hub performs exactly one send on each peer
-- that listens to the channel, and leaves every other peer as it was; on a hub that is not running it
-- leaves all peers as they were.
pub publish-heap :
    (w : World) (source : Option ℕ) (channel : Text) (frame : Frame) (notify : Bool) (p : ℕ)
    → ((send_to_channel_from_peer w source channel frame notify).0).heap p
      ≡ (if w.running && listens w channel p then delivered channel frame (w.heap p) else w.heap p)
unfolding send_to_channel_from_peer
publish-heap w source channel frame notify p =
    if_cases Holds (not w.running) (λ idle. ground arith)
      λ on.
        if_cases Holds (not (has_receivers w channel notify))
          (λ nobody. ground (arith, listens_nobody w channel notify p))
          λ somebody. sent-heap w channel frame _ p ∙ ground arith
  where
    Holds : World × Done → Type 0
    Holds r = (r.0).heap p ≡ (
        if w.running && listens w channel p then delivered channel frame (w.heap p) else w.heap p)

offer-room :
    (peer : Peer) (queue : SendQueue) (frame : Frame)
    → queue.is_closed ≡ false
    → length queue.buffer < default_peer_send_buffer_size
    → ((offer peer queue frame).0).send
      ≡ some (record queue { buffer = queue.buffer ++ frame ∷ [] })
unfolding offer
offer-room peer queue frame opened room = ground arith

peer_send-room :
    (peer : Peer) (queue : SendQueue) (frame : Frame)
    → peer.send ≡ some queue
    → queue.is_closed ≡ false
    → length queue.buffer < default_peer_send_buffer_size
    → ((peer_send peer frame).0).send ≡ some (record queue { buffer = queue.buffer ++ frame ∷ [] })
unfolding peer_send send_to
peer_send-room peer queue frame e opened room =
    rw (e, send_to) (offer-room peer queue frame opened room)

-- On a running hub, a peer that listens, whose queue is open and has room, finds the frame at the end of
-- its queue: as it was published, or for TCP in its wire form, where its lengths fit four bytes.
pub publish_delivers :
    (w : World) (source : Option ℕ) (channel : Text) (frame : Frame) (notify : Bool) (p : ℕ)
    (queue : SendQueue)
    → w.running ≡ true
    → listens w channel p ≡ true
    → (w.heap p).send ≡ some queue
    → queue.is_closed ≡ false
    → length queue.buffer < default_peer_send_buffer_size
    → Fits channel frame
    → (((send_to_channel_from_peer w source channel frame notify).0).heap p).send
      ≡ some (record queue {
        buffer =
            queue.buffer
            ++ (if (w.heap p).transport == tcp then wire channel frame else frame) ∷ [];
      })
publish_delivers w source channel frame notify p queue running listening e opened room fits =
    rw (publish-heap w source channel frame notify p, reached)
      (elim (Bool-cases ((w.heap p).transport == tcp)) [
        | inl framed ↦
            rw (framed, encode_tcp_frame-wire channel frame fits)
              (peer_send-room (w.heap p) queue (wire channel frame) e opened room)
        | inr plain ↦ rw plain (peer_send-room (w.heap p) queue frame e opened room)
      ])
  where
    reached : w.running && listens w channel p ≡ true
    reached = ground arith
