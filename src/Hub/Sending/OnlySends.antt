-- ===== src/Hub/Sending/OnlySends.antt =====
-- What the sends of a publish or a broadcast may change: peers' queues by `Send`, and the trace.
use go_stream.Prelude.{
  ℕ, ◌≡◌, refl, ◌∙◌, List, [], ◌∷◌, Option, none, some, Text, inl, inr, Bool-cases, nat_beq,
  nat_beq_iff, ◌==◌, text_eq, if_cases, not, Bool,
}
use go_stream.Wire.{Frame, encode_tcp_frame}
use go_stream.Peer.{Peer, peer_send}
use go_stream.Hub.{World, update}
use go_stream.Hub.Members.{Done}
use go_stream.Hub.Sending.{
  send_to_peer, send_to_peers, send_broadcast_to_peer, send_broadcast_to_peers, queue_frame,
  queue_encoded, tcp, enqueue_publish_delivery, enqueue_broadcast, collect_channel_peers,
  has_receivers, send_to_channel_from_peer, broadcast_frame_from_peer,
}

-- A peer after some calls of `Send`.
pub data Sent (peer : Peer) : Peer → Type 0 where
  unsent : Sent peer peer
  one_more : {q : Peer} → Sent peer q → (frame : Frame) → Sent peer ((peer_send q frame).0)

pub record OnlySends (w u : World) : Type 0 where
  pub hub_kept : u.hub ≡ w.hub
  broadcasts_kept : u.late_broadcasts ≡ w.late_broadcasts
  publishes_kept : u.late_publishes ≡ w.late_publishes
  pub peers_sent : (p : ℕ) → Sent (w.heap p) (u.heap p)

OnlySends-refl : (w : World) → OnlySends w w
OnlySends-refl w = record {
  hub_kept = refl;
  broadcasts_kept = refl;
  publishes_kept = refl;
  peers_sent = λ p. unsent;
}

Sent-trans : {a b c : Peer} → Sent a b → Sent b c → Sent a c
Sent-trans s unsent = s
Sent-trans s (one_more t frame) = one_more (Sent-trans s t) frame

OnlySends-trans : {w u v : World} → OnlySends w u → OnlySends u v → OnlySends w v
OnlySends-trans a b = record {
  hub_kept = b.hub_kept ∙ a.hub_kept;
  broadcasts_kept = b.broadcasts_kept ∙ a.broadcasts_kept;
  publishes_kept = b.publishes_kept ∙ a.publishes_kept;
  peers_sent = λ p. Sent-trans (a.peers_sent p) (b.peers_sent p);
}

queue_frame-OnlySends :
    (w : World) (peer : ℕ) (frame : Frame) → OnlySends w (queue_frame w peer frame)
queue_frame-OnlySends w peer frame = record {
  hub_kept = refl;
  broadcasts_kept = refl;
  publishes_kept = refl;
  peers_sent = λ p. sent p;
}
  where
    sent : (p : ℕ) → Sent (w.heap p) (update w.heap peer ((peer_send (w.heap peer) frame).0) p)
    sent p = elim (Bool-cases (nat_beq peer p)) [
      | inl e ↦ rw (e, ← (nat_beq_iff peer p).0 e) (one_more unsent frame)
      | inr n ↦ rw n unsent
    ]

queue_encoded-OnlySends :
    (w : World) (peer : ℕ) (bytes : Option (List ℕ)) → OnlySends w (queue_encoded w peer bytes)
queue_encoded-OnlySends w peer none = record {
  hub_kept = refl;
  broadcasts_kept = refl;
  publishes_kept = refl;
  peers_sent = λ p. unsent;
}
queue_encoded-OnlySends w peer (some bytes) = queue_frame-OnlySends w peer bytes

send_to_peer-OnlySends :
    (w : World) (channel : Text) (frame : Frame) (peer : ℕ)
    → OnlySends w (send_to_peer w channel frame peer)
unfolding send_to_peer
send_to_peer-OnlySends w channel frame peer = elim (Bool-cases ((w.heap peer).transport == tcp)) [
  | inl e ↦ rw (e, send_to_peer) (queue_encoded-OnlySends w peer (encode_tcp_frame channel frame))
  | inr n ↦ rw (n, send_to_peer) (queue_frame-OnlySends w peer frame)
]

send_broadcast_to_peer-OnlySends :
    (w : World) (frame : Frame) (peer : ℕ) → OnlySends w (send_broadcast_to_peer w frame peer)
unfolding send_broadcast_to_peer
send_broadcast_to_peer-OnlySends w frame peer = elim (Bool-cases ((w.heap peer).transport == tcp)) [
  | inl e ↦
      rw (e, send_broadcast_to_peer) (queue_encoded-OnlySends w peer (encode_tcp_frame [] frame))
  | inr n ↦ rw (n, send_broadcast_to_peer) (queue_frame-OnlySends w peer frame)
]

pub send_to_peers-OnlySends :
    (w : World) (channel : Text) (frame : Frame) (peers : List ℕ)
    → OnlySends w (send_to_peers w channel frame peers)
unfolding send_to_peers
send_to_peers-OnlySends w channel frame [] = OnlySends-refl w
send_to_peers-OnlySends w channel frame (peer ∷ peers) =
    OnlySends-trans (send_to_peer-OnlySends w channel frame peer)
      (send_to_peers-OnlySends (send_to_peer w channel frame peer) channel frame peers)

pub send_broadcast_to_peers-OnlySends :
    (w : World) (frame : Frame) (peers : List ℕ)
    → OnlySends w (send_broadcast_to_peers w frame peers)
unfolding send_broadcast_to_peers
send_broadcast_to_peers-OnlySends w frame [] = OnlySends-refl w
send_broadcast_to_peers-OnlySends w frame (peer ∷ peers) =
    OnlySends-trans (send_broadcast_to_peer-OnlySends w frame peer)
      (send_broadcast_to_peers-OnlySends (send_broadcast_to_peer w frame peer) frame peers)

-- The outcomes of a publish and of a broadcast: nothing happens, or the frame is sent and queued.
pub publish_cases {ℓ} :
    (P : World → Type ℓ) (w : World) (source : Option ℕ) (channel : Text) (frame : Frame)
    (notify : Bool)
    → P w
    → P (
        enqueue_publish_delivery
          (send_to_peers w channel frame (collect_channel_peers w channel))
          (record { channel = channel; frame = frame; notify_publish_subscribers = notify }))
    → P ((send_to_channel_from_peer w source channel frame notify).0)
unfolding send_to_channel_from_peer
publish_cases P w source channel frame notify idle sent =
    if_cases (λ (r : World × Done). P (r.0)) (not w.running) (λ _. idle)
      λ _.
        if_cases (λ (r : World × Done). P (r.0)) (not (has_receivers w channel notify)) (λ _. idle)
          (λ _. sent)

pub broadcast_cases {ℓ} :
    (P : World → Type ℓ) (w : World) (source : Option ℕ) (frame : Frame) (notify : Bool)
    → P w
    → P (
        enqueue_broadcast w
          (record { source = source; frame = frame; notify_broadcast_subscribers = notify }))
    → P ((broadcast_frame_from_peer w source frame notify).0)
unfolding broadcast_frame_from_peer
broadcast_cases P w source frame notify idle sent =
    if_cases (λ (r : World × Done). P (r.0)) (not w.running) (λ _. idle) (λ _. sent)
