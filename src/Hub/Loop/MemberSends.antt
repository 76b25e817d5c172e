-- ===== src/Hub/Loop/MemberSends.antt =====
-- Publishing and broadcasting in go/hub.go keep channels and subscriptions in agreement.
use go_stream.Prelude.{ℕ, ◌≡◌, refl, Bool, Option, none, some, Text, arith, ap, ◌∙◌}
use go_stream.Prelude.GoMap.{keys}
use go_stream.Hub.Sending.OnlySends.{
  Sent, unsent, one_more, OnlySends, send_to_peers-OnlySends, send_broadcast_to_peers-OnlySends,
  publish_cases, broadcast_cases,
}
use go_stream.Wire.{Frame}
use go_stream.Peer.{Peer, SendQueue, peer_send, receive_from, send_to}
use go_stream.Hub.{Hub, World, PublishDelivery, BroadcastDelivery}
use go_stream.Hub.Members.InStep.{IsInStep, KeepsSubscriptions, KeepsSubscriptions-IsInStep}
use go_stream.Hub.Sending.{
  broadcast_to_peers, process_publish_delivery, send_to_channel_from_peer,
  broadcast_frame_from_peer, enqueue_publish_delivery, enqueue_broadcast, collect_channel_peers,
}

send_to-subscriptions :
    (peer : Peer) (send : Option SendQueue) (frame : Frame)
    → ((send_to peer send frame).0).subscriptions ≡ peer.subscriptions
unfolding send_to
send_to-subscriptions peer none frame = refl
send_to-subscriptions peer (some queue) frame = ground arith

pub peer_send-subscriptions :
    (peer : Peer) (frame : Frame) → ((peer_send peer frame).0).subscriptions ≡ peer.subscriptions
unfolding peer_send
peer_send-subscriptions peer frame = send_to-subscriptions peer peer.send frame

pub receive_from-subscriptions :
    (peer : Peer) (send : Option SendQueue)
    → ((receive_from peer send).0).subscriptions ≡ peer.subscriptions
unfolding receive_from
receive_from-subscriptions peer none = refl
receive_from-subscriptions peer (some queue) = ground arith

Sent-subscriptions : {a b : Peer} → Sent a b → b.subscriptions ≡ a.subscriptions
Sent-subscriptions unsent = refl
Sent-subscriptions (one_more {q} s frame) = peer_send-subscriptions q frame ∙ Sent-subscriptions s

pub OnlySends-KeepsSubscriptions : {w u : World} → OnlySends w u → KeepsSubscriptions w u
OnlySends-KeepsSubscriptions o = record {
  channels_kept = ap (λ (h : Hub). h.channels) o.hub_kept;
  subscriptions_kept = λ p. Sent-subscriptions (o.peers_sent p);
}

pub KeepsSubscriptions-trans :
    {w u v : World} → KeepsSubscriptions w u → KeepsSubscriptions u v → KeepsSubscriptions w v
KeepsSubscriptions-trans a b = record {
  channels_kept = b.channels_kept ∙ a.channels_kept;
  subscriptions_kept = λ p. b.subscriptions_kept p ∙ a.subscriptions_kept p;
}

pub enqueue_publish-KeepsSubscriptions :
    (w : World) (item : PublishDelivery) → KeepsSubscriptions w (enqueue_publish_delivery w item)
unfolding enqueue_publish_delivery
enqueue_publish-KeepsSubscriptions w item = record {
  channels_kept = ground arith;
  subscriptions_kept = λ p. ground arith;
}

pub enqueue_broadcast-KeepsSubscriptions :
    (w : World) (item : BroadcastDelivery) → KeepsSubscriptions w (enqueue_broadcast w item)
unfolding enqueue_broadcast
enqueue_broadcast-KeepsSubscriptions w item = record {
  channels_kept = ground arith;
  subscriptions_kept = λ p. ground arith;
}

pub send_to_channel-IsInStep :
    (w : World) (source : Option ℕ) (channel : Text) (frame : Frame) (notify : Bool)
    → IsInStep w
    → IsInStep ((send_to_channel_from_peer w source channel frame notify).0)
send_to_channel-IsInStep w source channel frame notify s =
    publish_cases IsInStep w source channel frame notify s (
      KeepsSubscriptions-IsInStep
        (KeepsSubscriptions-trans
          (OnlySends-KeepsSubscriptions
            (send_to_peers-OnlySends w channel frame (collect_channel_peers w channel)))
          (enqueue_publish-KeepsSubscriptions _ _))
        s)

pub broadcast-IsInStep :
    (w : World) (source : Option ℕ) (frame : Frame) (notify : Bool)
    → IsInStep w
    → IsInStep ((broadcast_frame_from_peer w source frame notify).0)
broadcast-IsInStep w source frame notify s =
    broadcast_cases IsInStep w source frame notify s
      (KeepsSubscriptions-IsInStep (enqueue_broadcast-KeepsSubscriptions w _) s)

pub broadcast_to_peers-IsInStep :
    (w : World) (item : BroadcastDelivery) → IsInStep w → IsInStep (broadcast_to_peers w item)
unfolding broadcast_to_peers
broadcast_to_peers-IsInStep w item s =
    let sent =
      OnlySends-KeepsSubscriptions
        (send_broadcast_to_peers-OnlySends w item.frame (keys w.peers)) in
    KeepsSubscriptions-IsInStep
      (record { channels_kept = sent.channels_kept; subscriptions_kept = sent.subscriptions_kept })
      s

pub process_publish-IsInStep :
    (w : World) (item : PublishDelivery) → IsInStep w → IsInStep (process_publish_delivery w item)
unfolding process_publish_delivery
process_publish-IsInStep w item s = record { distinct = s.distinct; agree = s.agree }
