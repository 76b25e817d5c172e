-- ===== src/Ws/InStep.antt =====
-- Serving a WebSocket connection (go/adapter/ws/ws.go) keeps the hub's channels and the peers' own
-- subscriptions in agreement.
use go_stream.Prelude.{
  ℕ, ◌≡◌, refl, Bool, true, not, ◌&&◌, List, [], ◌∷◌, Option, none, some, Text, arith, is_empty,
  ◌==◌, text_eq, nat_eq, nat_beq_iff, if_cases, All,
}
use go_stream.Prelude.GoMap.{lookup}
use go_stream.Prelude.GoMap.Nested.{at}
use go_stream.Prelude.Int.{pos, ltb_ℤ}
use go_stream.Errors.{ok, err}
use go_stream.Wire.{Frame}
use go_stream.Peer.{Func, set_close_hook}
use go_stream.Auth.{Request, AuthResult}
use go_stream.Hub.{World, config_of}
use go_stream.Hub.Members.{Done, subscribe_peer}
use go_stream.Hub.Members.InStep.{
  IsInStep, KeepsSubscriptions-IsInStep, peer_close-subscriptions, add_peer-IsInStep,
  remove_peer-IsInStep, subscribe_peer-IsInStep, unsubscribe_peer-IsInStep,
}
use go_stream.Hub.Loop.MemberSends.{
  peer_send-subscriptions, send_to_channel-IsInStep, broadcast-IsInStep,
}
use go_stream.Message.{Message, type_subscribe, type_unsubscribe, type_ping}
use go_stream.Sse.{check_channels, subscribe_channels, then_subscribe, authenticated}
use go_stream.Ws.{
  Adapter, Incoming, WsStatus, handle_message, take_incoming, handle_decoded, serve_messages,
  serve_conn, after_joining, join_hub, admit, serve_http, with_hook, with_ws_peer, report,
  send_to_self, close_self, unless_error, error_message, pong_message,
}

send_to_self-IsInStep :
    (w : World) (peer : ℕ) (frame : Frame) → IsInStep w → IsInStep ((send_to_self w peer frame).0)
send_to_self-IsInStep w peer frame s =
    KeepsSubscriptions-IsInStep {w = w}
      (record {
        channels_kept = refl;
        subscriptions_kept =
            λ p. ground (arith, peer_send-subscriptions (w.heap peer) frame, nat_beq_iff peer p);
      })
      s

close_self-IsInStep : (w : World) (peer : ℕ) → IsInStep w → IsInStep (close_self w peer)
unfolding close_self
close_self-IsInStep w peer s =
    KeepsSubscriptions-IsInStep {w = w}
      (record {
        channels_kept = refl;
        subscriptions_kept =
            λ p. ground (arith, peer_close-subscriptions (w.heap peer), nat_beq_iff peer p);
      })
      s

with_hook-IsInStep :
    (w : World) (peer : ℕ) (hook : Func) → IsInStep w → IsInStep (with_hook w peer hook)
unfolding set_close_hook
with_hook-IsInStep w peer hook s =
    KeepsSubscriptions-IsInStep {w = w}
      (record {
        channels_kept = refl;
        subscriptions_kept = λ p. ground (arith, nat_beq_iff peer p);
      })
      s

-- A new peer stands behind a pointer that no channel lists.
with_ws_peer-IsInStep :
    (w : World) (peer : ℕ) (uuid : Text) (result : AuthResult)
    → ((c : Text) → at c peer w.channels ≡ none)
    → IsInStep w
    → IsInStep (with_ws_peer w peer uuid result)
unfolding lookup
with_ws_peer-IsInStep w peer uuid result fresh s = record {
  distinct = s.distinct;
  agree = λ c p. ground (arith, s.agree c p, fresh c, nat_beq_iff peer p);
}

-- What follows a subscription keeps the agreement where it does so from any world.
then_subscribe-IsInStep :
    (r : World × Done) (further : World → World × Done)
    → IsInStep r.0
    → ((u : World) → IsInStep u → IsInStep ((further u).0))
    → IsInStep ((then_subscribe r further).0)
then_subscribe-IsInStep (u, ok d) further s k = k u s
then_subscribe-IsInStep (u, err e) further s k = s

subscribe_channels-IsInStep :
    (peer : ℕ) (channels : List Text) (w : World)
    → IsInStep w
    → IsInStep ((subscribe_channels w peer channels).0)
unfolding subscribe_channels
subscribe_channels-IsInStep peer [] w s = s
subscribe_channels-IsInStep peer (channel ∷ channels) w s =
    if_cases (λ (r : World × Done). IsInStep r.0) (is_empty channel)
      (λ _. subscribe_channels-IsInStep peer channels w s)
      (λ _.
        then_subscribe-IsInStep (subscribe_peer w (some peer) channel)
          (λ u. subscribe_channels u peer channels)
          (subscribe_peer-IsInStep w (some peer) channel s)
          (λ u. subscribe_channels-IsInStep peer channels u))

unless_error-IsInStep : (r : World × Done) → IsInStep r.0 → IsInStep ((unless_error r).0)
unless_error-IsInStep (u, ok d) k = k
unless_error-IsInStep (u, err e) k = k

module _ (encode : Message → Frame) where
  report-IsInStep :
      (peer : ℕ) (channel : Text) (now : ℕ) (r : World × Done)
      → IsInStep r.0
      → IsInStep ((report encode peer channel now r).0)
  report-IsInStep peer channel now (u, ok d) k = k
  report-IsInStep peer channel now (u, err e) k =
      send_to_self-IsInStep u peer (encode (error_message channel e now)) k

  handle_message-IsInStep :
      (w : World) (peer : ℕ) (payload : Frame) (now : ℕ) (message : Message)
      → IsInStep w
      → IsInStep ((handle_message encode w peer payload now message).0)
  unfolding handle_message
  handle_message-IsInStep w peer payload now message s =
      if_cases P (message.kind == type_subscribe)
        (λ _.
          report-IsInStep peer message.channel now (subscribe_peer w (some peer) message.channel)
            (subscribe_peer-IsInStep w (some peer) message.channel s))
        (λ _.
          if_cases P (message.kind == type_unsubscribe)
            (λ _. unsubscribe_peer-IsInStep w (some peer) message.channel s)
            (λ _.
              if_cases P (message.kind == type_ping)
                (λ _. send_to_self-IsInStep w peer (encode (pong_message message now)) s)
                (λ _.
                  if_cases P (is_empty message.channel)
                    (λ _. unless_error-IsInStep _ (broadcast-IsInStep w (some peer) payload true s))
                    (λ _.
                      unless_error-IsInStep _
                        (send_to_channel-IsInStep w (some peer) message.channel payload true s)))))
    where
      P : World × Bool → Type 0
      P r = IsInStep r.0

  module _ (decode : Frame → Option Message) where
    handle_decoded-IsInStep :
        (w : World) (peer : ℕ) (incoming : Incoming) (message : Option Message)
        → IsInStep w
        → IsInStep ((handle_decoded encode decode w peer incoming message).0)
    handle_decoded-IsInStep w peer incoming none s = s
    handle_decoded-IsInStep w peer incoming (some message) s =
        handle_message-IsInStep w peer incoming.payload incoming.now message s

    serve_messages-IsInStep :
        (w : World) (peer : ℕ) (reads : List Incoming)
        → All (λ incoming. (u : World) → IsInStep u → IsInStep (incoming.meanwhile u)) reads
        → IsInStep w
        → IsInStep (serve_messages encode decode w peer reads)
    unfolding serve_messages take_incoming
    serve_messages-IsInStep w peer [] k s = close_self-IsInStep w peer s
    serve_messages-IsInStep w peer (incoming ∷ reads) k s =
        let step : IsInStep ((take_incoming encode decode w peer incoming).0) =
          if_cases (λ (r : World × Bool). IsInStep r.0) incoming.is_data
            (λ _.
              handle_decoded-IsInStep (incoming.meanwhile w) peer incoming (decode incoming.payload)
                (k.0 w s))
            (λ _. k.0 w s) in
        if_cases IsInStep ((take_incoming encode decode w peer incoming).1)
          (λ _.
            serve_messages-IsInStep ((take_incoming encode decode w peer incoming).0) peer reads k.1
              step)
          (λ _. step)

    module _ (reads : List Incoming)
        (k : All
          (λ incoming. (u : World) → IsInStep u → IsInStep (incoming.meanwhile u))
          reads) where
      after_joining-IsInStep :
          (peer : ℕ) (deadline_ok : Bool) (r : World × Done)
          → IsInStep r.0
          → IsInStep ((after_joining encode decode peer deadline_ok reads r).0)
      unfolding serve_conn
      after_joining-IsInStep peer deadline_ok (u, err e) s = close_self-IsInStep u peer s
      after_joining-IsInStep peer deadline_ok (u, ok d) s =
          if_cases (λ (r : World × WsStatus). IsInStep r.0)
            (ltb_ℤ (pos 0) ((config_of u.hub).pong_timeout) && not deadline_ok)
            (λ _. close_self-IsInStep u peer s) (λ _. serve_messages-IsInStep u peer reads k s)

      join_hub-IsInStep :
          (w : World) (peer : ℕ) (channels : List Text) (hook : Func) (deadline_ok : Bool)
          → IsInStep w
          → IsInStep ((join_hub encode decode w peer channels hook deadline_ok reads).0)
      unfolding join_hub
      join_hub-IsInStep w peer channels hook deadline_ok s = remove_peer-IsInStep _ (some peer) (
          after_joining-IsInStep peer deadline_ok _ (
            subscribe_channels-IsInStep peer channels _
              (with_hook-IsInStep _ peer hook (add_peer-IsInStep w (some peer) s))))

      admit-IsInStep :
          (w made : World) (peer : ℕ) (channels : List Text) (hook : Func)
          (upgrades deadline_ok : Bool) (checks : Done)
          → IsInStep w
          → IsInStep made
          → IsInStep
              ((admit encode decode w made peer channels hook upgrades deadline_ok reads checks).0)
      admit-IsInStep w made peer channels hook upgrades deadline_ok (err e) s m = s
      admit-IsInStep w made peer channels hook upgrades deadline_ok (ok d) s m =
          if_cases (λ (r : World × WsStatus). IsInStep r.0) (not w.running) (λ _. s)
            (λ _.
              if_cases (λ (r : World × WsStatus). IsInStep r.0) (not upgrades) (λ _. s)
                (λ _. join_hub-IsInStep made peer channels hook deadline_ok m))

-- Over a new pointer, which no channel lists, serving a request from its authentication to the removal of
-- its peer keeps the hub's channels and the peers' subscriptions in agreement, whatever the client sends
-- and however the connection ends, where those who run in between keep them so.
pub serve_http-IsInStep :
    (encode : Message → Frame) (decode : Frame → Option Message) (w : World) (adapter : Adapter)
    (request : Request) (channels : List Text) (peer : ℕ) (uuid : Text) (hook : Func)
    (upgrades deadline_ok : Bool) (reads : List Incoming)
    → IsInStep w
    → ((c : Text) → at c peer w.channels ≡ none)
    → All (λ incoming. (u : World) → IsInStep u → IsInStep (incoming.meanwhile u)) reads
    → IsInStep (
        (serve_http encode decode w adapter request channels peer uuid hook upgrades deadline_ok
          reads).0)
unfolding serve_http
serve_http-IsInStep encode decode w adapter request channels peer uuid hook upgrades deadline_ok
      reads s fresh k =
    let result = authenticated adapter.config.authenticator request in
    let made = with_ws_peer w peer uuid result in
    if_cases (λ (r : World × WsStatus × List Func). IsInStep r.0) (not adapter.mounted) (λ _. s)
      (λ _.
        if_cases (λ (r : World × WsStatus × List Func). IsInStep r.0) (not result.valid) (λ _. s)
          (λ _.
            admit-IsInStep encode decode reads k w made peer channels hook upgrades deadline_ok
              (check_channels made peer channels) s
              (with_ws_peer-IsInStep w peer uuid result fresh s)))
