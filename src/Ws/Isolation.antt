-- ===== src/Ws/Isolation.antt =====
-- What the messages on one WebSocket connection (go/adapter/ws/ws.go) cannot do to the peers of others.
use go_stream.Prelude.{
  ℕ, ◌≡◌, refl, ◌∙◌, ap, Bool, true, false, List, [], ◌∷◌, Option, none, some, Text, arith,
  is_empty, ◌==◌, text_eq, nat_eq, if_cases, All,
}
use go_stream.Prelude.GoMap.Nested.{at, at-put, at-delete}
use go_stream.Errors.{ok, err}
use go_stream.Wire.{Frame}
use go_stream.Hub.{Hub, World}
use go_stream.Hub.Members.{Done, is_member, subscribe_peer, unsubscribe_peer, joined, is_denied}
use go_stream.Hub.Sending.{
  send_to_channel_from_peer, broadcast_frame_from_peer, collect_channel_peers,
  enqueue_publish_delivery, enqueue_broadcast, send_to_peers,
}
use go_stream.Hub.Sending.OnlySends.{
  OnlySends, send_to_peers-OnlySends, publish_cases, broadcast_cases,
}
use go_stream.Hub.Loop.MemberSends.{OnlySends-KeepsSubscriptions}
use go_stream.Message.{Message, type_subscribe, type_unsubscribe, type_ping}
use go_stream.Ws.{
  Incoming, handle_message, take_incoming, handle_decoded, serve_messages, report, send_to_self,
  close_self, unless_error, error_message, pong_message,
}

-- The membership of a peer, its channels and its subscriptions are as they were.
pub record Untouched (q : ℕ) (w u : World) : Type 0 where
  pub same_member : is_member u.hub q ≡ is_member w.hub q
  pub same_channels : (c : Text) → at c q u.channels ≡ at c q w.channels
  pub same_subscriptions : (u.heap q).subscriptions ≡ (w.heap q).subscriptions

Untouched-refl : (q : ℕ) (w : World) → Untouched q w w
Untouched-refl q w = record {
  same_member = refl;
  same_channels = λ c. refl;
  same_subscriptions = refl;
}

Untouched-trans : {q : ℕ} {w u v : World} → Untouched q w u → Untouched q u v → Untouched q w v
Untouched-trans a b = record {
  same_member = b.same_member ∙ a.same_member;
  same_channels = λ c. b.same_channels c ∙ a.same_channels c;
  same_subscriptions = b.same_subscriptions ∙ a.same_subscriptions;
}

OnlySends-Untouched : {q : ℕ} {w u : World} → OnlySends w u → Untouched q w u
OnlySends-Untouched {q} o = record {
  same_member = ap (λ (h : Hub). is_member h q) o.hub_kept;
  same_channels = λ c. ap (λ (h : Hub). at c q h.channels) o.hub_kept;
  same_subscriptions = (OnlySends-KeepsSubscriptions o).subscriptions_kept q;
}

-- A pointer that is not the connection's peer.
module _ (peer q : ℕ) (other : (peer == q) ≡ false) where
  subscribe_peer-Untouched :
      (w : World) (channel : Text) → Untouched q w ((subscribe_peer w (some peer) channel).0)
  unfolding subscribe_peer
  subscribe_peer-Untouched w channel =
      if_cases (λ (r : World × Done). Untouched q w r.0) (is_empty channel)
        (λ _. Untouched-refl q w)
        (λ _.
          if_cases (λ (r : World × Done). Untouched q w r.0)
            (is_denied w.config.channel_authoriser (w.heap peer) channel) (λ _. Untouched-refl q w)
            (λ _. entered))
    where
      entered : Untouched q w (joined w peer channel)
      entered = record {
        same_member = refl;
        same_channels = λ c. ground (arith, at-put channel c peer q true w.channels);
        same_subscriptions = rw other refl;
      }

  unsubscribe_peer-Untouched :
      (w : World) (channel : Text) → Untouched q w (unsubscribe_peer w (some peer) channel)
  unfolding unsubscribe_peer
  unsubscribe_peer-Untouched w channel =
      if_cases (Untouched q w) (is_empty channel) (λ _. Untouched-refl q w)
        (λ _. record {
          same_member = refl;
          same_channels = λ c. ground (arith, at-delete channel c peer q w.channels);
          same_subscriptions = rw other refl;
        })

  send_to_self-Untouched :
      (w : World) (frame : Frame) → Untouched q w ((send_to_self w peer frame).0)
  send_to_self-Untouched w frame = record {
    same_member = refl;
    same_channels = λ c. refl;
    same_subscriptions = rw other refl;
  }

  close_self-Untouched : (w : World) → Untouched q w (close_self w peer)
  unfolding close_self
  close_self-Untouched w = record {
    same_member = refl;
    same_channels = λ c. refl;
    same_subscriptions = rw other refl;
  }

  publish-Untouched :
      (w : World) (channel : Text) (frame : Frame)
      → Untouched q w ((send_to_channel_from_peer w (some peer) channel frame true).0)
  publish-Untouched w channel frame =
      publish_cases (Untouched q w) w (some peer) channel frame true (Untouched-refl q w) (
        unfold enqueue_publish_delivery in
        if_cases (Untouched q w) _
          (λ _. record {
            same_member = sent.same_member;
            same_channels = sent.same_channels;
            same_subscriptions = sent.same_subscriptions;
          })
          (λ _. record {
            same_member = sent.same_member;
            same_channels = sent.same_channels;
            same_subscriptions = sent.same_subscriptions;
          }))
    where
      sent : Untouched q w (send_to_peers w channel frame (collect_channel_peers w channel))
      sent =
          OnlySends-Untouched
            (send_to_peers-OnlySends w channel frame (collect_channel_peers w channel))

  broadcast-Untouched :
      (w : World) (frame : Frame)
      → Untouched q w ((broadcast_frame_from_peer w (some peer) frame true).0)
  broadcast-Untouched w frame =
      broadcast_cases (Untouched q w) w (some peer) frame true (Untouched-refl q w) (
        unfold enqueue_broadcast in
        if_cases (Untouched q w) _
          (λ _. record { same_member = refl; same_channels = λ c. refl; same_subscriptions = refl })
          (λ _. record {
            same_member = refl;
            same_channels = λ c. refl;
            same_subscriptions = refl;
          }))

  unless_error-Untouched :
      (w : World) (r : World × Done) → Untouched q w r.0 → Untouched q w (unless_error r).0
  unless_error-Untouched w (u, ok d) k = k
  unless_error-Untouched w (u, err e) k = k

  module _ (encode : Message → Frame) where
    report-Untouched :
        (w : World) (channel : Text) (now : ℕ) (r : World × Done)
        → Untouched q w r.0
        → Untouched q w ((report encode peer channel now r).0)
    report-Untouched w channel now (u, ok d) k = k
    report-Untouched w channel now (u, err e) k =
        Untouched-trans k (send_to_self-Untouched u (encode (error_message channel e now)))

    handle_message-Untouched :
        (w : World) (payload : Frame) (now : ℕ) (message : Message)
        → Untouched q w ((handle_message encode w peer payload now message).0)
    unfolding handle_message
    handle_message-Untouched w payload now message =
        if_cases (λ (r : World × Bool). Untouched q w r.0) (message.kind == type_subscribe)
          (λ _.
            report-Untouched w message.channel now (subscribe_peer w (some peer) message.channel)
              (subscribe_peer-Untouched w message.channel))
          (λ _.
            if_cases (λ (r : World × Bool). Untouched q w r.0) (message.kind == type_unsubscribe)
              (λ _. unsubscribe_peer-Untouched w message.channel)
              (λ _.
                if_cases (λ (r : World × Bool). Untouched q w r.0) (message.kind == type_ping)
                  (λ _. send_to_self-Untouched w (encode (pong_message message now)))
                  (λ _.
                    if_cases (λ (r : World × Bool). Untouched q w r.0) (is_empty message.channel)
                      (λ _. unless_error-Untouched w _ (broadcast-Untouched w payload))
                      (λ _.
                        unless_error-Untouched w _ (publish-Untouched w message.channel payload)))))

    module _ (decode : Frame → Option Message) where
      handle_decoded-Untouched :
          (w : World) (incoming : Incoming) (message : Option Message)
          → Untouched q w ((handle_decoded encode decode w peer incoming message).0)
      handle_decoded-Untouched w incoming none = Untouched-refl q w
      handle_decoded-Untouched w incoming (some message) =
          handle_message-Untouched w incoming.payload incoming.now message

      take_incoming-Untouched :
          (w : World) (incoming : Incoming)
          → Untouched q w (incoming.meanwhile w)
          → Untouched q w ((take_incoming encode decode w peer incoming).0)
      unfolding take_incoming
      take_incoming-Untouched w incoming k =
          if_cases (λ (r : World × Bool). Untouched q w r.0) incoming.is_data
            (λ _.
              Untouched-trans k (
                handle_decoded-Untouched (incoming.meanwhile w) incoming (decode incoming.payload)))
            (λ _. k)

      loop-Untouched :
          (w : World) (reads : List Incoming)
          → All (λ incoming. (u : World) → Untouched q u (incoming.meanwhile u)) reads
          → Untouched q w (serve_messages encode decode w peer reads)
      unfolding serve_messages
      loop-Untouched w [] k = close_self-Untouched w
      loop-Untouched w (incoming ∷ reads) k =
          let step = take_incoming-Untouched w incoming (k.0 w) in
          if_cases (Untouched q w) ((take_incoming encode decode w peer incoming).1)
            (λ _.
              Untouched-trans step
                (loop-Untouched ((take_incoming encode decode w peer incoming).0) reads k.1))
            (λ _. step)

-- Whatever a client sends, and however the loop ends, the membership, the channels and the subscriptions
-- of every other peer stay as they are, where those who run in between leave that peer's alone.
pub serve_messages-Untouched :
    (encode : Message → Frame) (decode : Frame → Option Message) (w : World) (peer q : ℕ)
    (reads : List Incoming)
    → (peer == q) ≡ false
    → All (λ incoming. (u : World) → Untouched q u (incoming.meanwhile u)) reads
    → Untouched q w (serve_messages encode decode w peer reads)
serve_messages-Untouched encode decode w peer q reads other k =
    loop-Untouched peer q other encode decode w reads k
