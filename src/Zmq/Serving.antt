-- ===== src/Zmq/Serving.antt =====
-- Whom a ZeroMQ receiver (go/adapter/zmq/zmq.go) lets in, and what becomes of the messages that a sender
-- has encoded.
use go_stream.Prelude.{
  ℕ, ◌≡◌, ◌≢◌, ◌≤◌, refl, ◌∙◌, ap, true, not, List, [], ◌∷◌, Option, none, some, Text, All, arith,
  is_empty, length, ltb, if_cases, ◌⊎◌, inl, inr,
}
use go_stream.Errors.{Result, ok, err}
use go_stream.Wire.{Frame}
use go_stream.Peer.{Func}
use go_stream.Auth.{AuthResult}
use go_stream.Hub.{Hub, World}
use go_stream.Hub.Members.{Done}
use go_stream.Hub.Sending.{
  publish, broadcast, send_to_channel, send_to_peers, collect_channel_peers,
  enqueue_publish_delivery, enqueue_broadcast,
}
use go_stream.Hub.Sending.OnlySends.{send_to_peers-OnlySends, publish_cases, broadcast_cases}
use go_stream.Hub.Sending.Fails.{publish-SucceedsIfRunning, broadcast-SucceedsIfRunning}
use go_stream.Zmq.{is_receiver, encode_message, decode_message}
use go_stream.Zmq.Codec.{decode_message-encode}
use go_stream.Zmq.Adapter.{ZmqConfig}
use go_stream.Zmq.Receiving.{
  Winner, recv_with_timeout, max_handshake_size, dispatch_message, unless_refused, take_decoded,
  receive_loop, shake_hands, serve_zmq,
}

-- With an authenticator, a receiver leaves the hub as it was, or its first message was received, was
-- no longer than 4096 bytes and was accepted by the authenticator.
pub serve_zmq-admission :
    (w : World) (config : ZmqConfig) (authenticate : Frame → AuthResult) (winner : Winner)
    (received : Result Frame) (closed : Done) (peer : ℕ) (uuid : Text) (hook : Func)
    (payloads : List Frame) (ending : Done)
    → is_receiver config.role ≡ true
    → ((serve_zmq w config
          (some authenticate)
          winner
          received
          closed
          peer
          uuid
          hook
          payloads
          ending).0
        ≡ w)
      ⊎ ((handshake : Frame) × (recv_with_timeout config.handshake_timeout winner received closed
            ≡ ok handshake)
          × (length handshake ≤ 4096)
          × ((authenticate handshake).valid ≡ true))
unfolding serve_zmq
serve_zmq-admission w config authenticate winner received closed peer uuid hook payloads ending
      receiver =
    if_cases (λ (r : World × Done). P r.0) (not (is_receiver config.role))
      (λ q. absurd (ground arith))
      (λ q. shaken (recv_with_timeout config.handshake_timeout winner received closed) refl)
  where
    P : World → Type 0
    P u =
        (u ≡ w)
        ⊎ ((handshake : Frame) × (recv_with_timeout config.handshake_timeout winner received closed
              ≡ ok handshake)
            × (length handshake ≤ 4096)
            × ((authenticate handshake).valid ≡ true))

    shaken :
        (first : Result Frame)
        → recv_with_timeout config.handshake_timeout winner received closed ≡ first
        → P ((shake_hands w authenticate first peer uuid hook payloads ending).0)
    shaken (err e) h = unfold shake_hands in inl refl
    shaken (ok handshake) h =
        unfold shake_hands in
        if_cases (λ (r : World × Done). P r.0) (ltb max_handshake_size (length handshake))
          (λ _. inl refl)
          (λ short.
            if_cases (λ (r : World × Done). P r.0) (not (authenticate handshake).valid)
              (λ _. inl refl) (λ v. inr (handshake, h, ground arith, ground arith)))

-- A world after a success on a running hub.
abbrev GoesOn : World × Done → Type 0
GoesOn r = (r.1 ≡ ok tt) × ((r.0).running ≡ true)

publish-running :
    (w : World) (channel : Text) (frame : Frame) → ((publish w channel frame).0).running ≡ w.running
unfolding publish send_to_channel
publish-running w channel frame =
    publish_cases (λ (u : World). u.running ≡ w.running) w none channel frame true refl
      (unfold enqueue_publish_delivery in
        if_cases (λ (u : World). u.running ≡ w.running) _ (λ _. sent) (λ _. sent))
  where
    sent : (send_to_peers w channel frame (collect_channel_peers w channel)).running ≡ w.running
    sent =
        ap (λ (h : Hub). h.running)
          ((send_to_peers-OnlySends w channel frame (collect_channel_peers w channel)).hub_kept)

broadcast-running : (w : World) (frame : Frame) → ((broadcast w frame).0).running ≡ w.running
broadcast-running w frame =
    broadcast_cases (λ (u : World). u.running ≡ w.running) w none frame true refl
      (unfold enqueue_broadcast in
        if_cases (λ (u : World). u.running ≡ w.running) _ (λ _. refl) (λ _. refl))

dispatch-GoesOn :
    (w : World) (channel : Text) (frame : Frame)
    → w.running ≡ true
    → GoesOn (dispatch_message w channel frame)
unfolding dispatch_message publish send_to_channel
dispatch-GoesOn w channel frame runs =
    if_cases GoesOn (is_empty channel)
      (λ _.
        ((broadcast-SucceedsIfRunning w none frame true).1 runs, broadcast-running w frame ∙ runs))
      (λ _. (
        (publish-SucceedsIfRunning w none frame true channel).1 runs,
        publish-running w channel frame ∙ runs,
      ))

take-ending :
    (w : World) (message : Option (Text × Frame)) (further : World → World × Done) (ending : Done)
    → w.running ≡ true
    → ((u : World) → u.running ≡ true → (further u).1 ≡ ending)
    → (take_decoded w message further).1 ≡ ending
take-ending w none further ending runs h = h w runs
take-ending w (some (channel, frame)) further ending runs h =
    after_dispatch (dispatch_message w channel frame) (dispatch-GoesOn w channel frame runs)
  where
    after_dispatch : (r : World × Done) → GoesOn r → (unless_refused r further).1 ≡ ending
    after_dispatch (u, ok d) g = h u g.1
    after_dispatch (u, err e) g = absurd (ground arith)

-- On a hub that runs, no message ends the loop: it goes through all that arrives, and its result is that of
-- the receive that fails at last.
pub receive_loop-ending :
    (payloads : List Frame) (w : World) (ending : Done)
    → w.running ≡ true
    → (receive_loop w payloads ending).1 ≡ ending
unfolding receive_loop
receive_loop-ending [] w ending runs = refl
receive_loop-ending (payload ∷ payloads) w ending runs =
    take-ending w (decode_message payload) (λ u. receive_loop u payloads ending) ending runs
      (λ u r. receive_loop-ending payloads u ending r)

-- Channels and frames as a sender encodes them, and their dispatch one after the other.
abbrev pub encoded : List (Text × Frame) → List Frame
encoded [] = []
encoded ((channel, frame) ∷ items) = encode_message channel frame ∷ encoded items

pub dispatch_all : World → List (Text × Frame) → Done → World × Done
dispatch_all w [] ending = (w, ending)
dispatch_all w ((channel, frame) ∷ items) ending =
    unless_refused (dispatch_message w channel frame) (λ u. dispatch_all u items ending)

abbrev pub IsZeroFree : Text × Frame → Type 0
IsZeroFree (channel, frame) = All (λ b. b ≢ 0) channel

-- What a sender publishes, a receiver hands to its hub, each frame on its channel and in the order of
-- sending, where no channel's name has a zero byte.
pub receive_loop-encoded :
    (items : List (Text × Frame)) (w : World) (ending : Done)
    → All IsZeroFree items
    → receive_loop w (encoded items) ending ≡ dispatch_all w items ending
unfolding receive_loop dispatch_all
receive_loop-encoded [] w ending h = refl
receive_loop-encoded ((channel, frame) ∷ items) w ending h =
    ap (λ m. take_decoded w m (λ u. receive_loop u (encoded items) ending))
      (decode_message-encode channel frame h.0)
    ∙ ap (unless_refused (dispatch_message w channel frame))
        (λ i u. receive_loop-encoded items u ending h.1 i)
