-- ===== src/Ws.antt =====
-- go/adapter/ws/ws.go: `serveHTTP`, the life of a WebSocket connection, and `writePump`. The WebSocket
-- library and JSON are not in the repository: whether the upgrade and a deadline succeed, what is read,
-- and the text of a message and back are arguments. The two goroutines of a connection are modelled apart.
pub mod Pump
pub mod Order
pub mod Admission
pub mod Dispatch
pub mod Isolation
pub mod InStep
pub mod Client
pub mod Tests
use go_stream.Prelude.{
  ℕ, Bool, true, false, not, ◌&&◌, List, [], ◌∷◌, ◌++◌, Option, none, some, Text, codes, is_empty,
  ◌==◌, text_eq, if◌then◌else◌,
}
use go_stream.Prelude.Int.{ℤ, pos, ltb_ℤ}
use go_stream.Errors.{Error, Result, ok, err}
use go_stream.Config.{or_default}
use go_stream.Wire.{Frame}
use go_stream.Peer.{Peer, Func, new_peer, peer_send, peer_close, set_close_hook, hook_calls}
use go_stream.Auth.{Request, AuthResult}
use go_stream.Hub.{World, config_of, update, hook_events}
use go_stream.Hub.Members.{
  Done, add_peer, remove_peer, can_subscribe_peer, subscribe_peer, unsubscribe_peer,
}
use go_stream.Hub.Sending.{broadcast_from_peer, publish_from_peer}
use go_stream.Message.{
  Message, MessageType, Data, no_data, error_text, type_error, type_ping, type_pong, type_subscribe,
  type_unsubscribe,
}
use go_stream.Tcp.{claims_or}
use go_stream.Sse.{check_channels, subscribe_channels, authenticated}

-- `Config`; `CheckOrigin` is asked by the upgrade.
pub record WsConfig : Type 0 where
  pub authenticator : Option (Request → AuthResult)
  pub on_auth_failure : Option Func
  pub read_buffer_size : ℤ
  pub write_buffer_size : ℤ

pub record Adapter : Type 0 where
  pub config : WsConfig
  pub mounted : Bool

-- `New` and `Mount`.
abbrev pub new_adapter : WsConfig → Adapter
new_adapter config = record {
  config = record config {
    read_buffer_size = or_default config.read_buffer_size (pos 1024);
    write_buffer_size = or_default config.write_buffer_size (pos 1024);
  };
  mounted = false;
}

abbrev pub mount : Adapter → Adapter
mount adapter = record adapter { mounted = true }

-- What a request is answered with: an error, or the connection has been served, to its end.
pub data WsStatus : Type 0 where
  not_mounted unauthorised forbidden not_running not_upgraded subscription_failed : WsStatus
  deadline_failed served : WsStatus

-- What `ReadMessage` returns: the type of the message, its payload, and the clock where an answer is made.
-- Before it, other goroutines have run.
pub record Incoming : Type 0 where
  pub meanwhile : World → World
  pub is_data : Bool
  pub payload : Frame
  pub now : ℕ

-- `peer.Send`: the world afterwards, and whether the frame was queued.
abbrev pub send_to_self : World → ℕ → Frame → World × Bool
send_to_self w peer frame =
    let (sent, queued) = peer_send (w.heap peer) frame in
    (record w { heap = update w.heap peer sent }, queued)

-- `peer.Close()`.
unfoldable pub close_self : World → ℕ → World
close_self w peer =
    let (closed, hooks) = peer_close (w.heap peer) in
    record w { heap = update w.heap peer closed; trace = w.trace ++ hook_events hooks }

abbrev pub error_message : Text → Error → ℕ → Message
error_message channel e now = record {
  kind = type_error;
  channel = channel;
  process_id = [];
  content = error_text e;
  timestamp = now;
}

abbrev pub pong_message : Message → ℕ → Message
pong_message message now = record {
  kind = type_pong;
  channel = message.channel;
  process_id = message.process_id;
  content = no_data;
  timestamp = now;
}

-- `if r := …; !r.OK { return }`: whether the loop goes on.
abbrev pub unless_error : World × Done → World × Bool
unless_error (w, ok _) = (w, true)
unless_error (w, err e) = (w, false)

-- `defer adapter.hub.RemovePeer(peer)`.
abbrev pub then_remove : ℕ → World × WsStatus → World × WsStatus
then_remove peer (w, status) = (remove_peer w (some peer), status)

abbrev pub with_hook : World → ℕ → Func → World
with_hook w peer hook = record w {
  heap = update w.heap peer (set_close_hook (w.heap peer) (some hook));
}

-- The peer of a request.
abbrev pub with_ws_peer : World → ℕ → Text → AuthResult → World
with_ws_peer w peer uuid result =
    let fresh = new_peer uuid (codes "ws") in
    record w {
      heap = update w.heap peer (record fresh {
        user_id = result.user_id;
        claims = claims_or result.claims fresh.claims;
      });
    }

module _ (encode : Message → Frame) where
  -- A refused subscription is answered with an error message.
  abbrev pub report : ℕ → Text → ℕ → World × Done → World × Bool
  report peer channel now (w, ok _) = (w, true)
  report peer channel now (w, err e) = send_to_self w peer (encode (error_message channel e now))

  -- The `switch` on the type of a message: the world afterwards, and whether the loop goes on.
  unfoldable pub handle_message : World → ℕ → Frame → ℕ → Message → World × Bool
  handle_message w peer payload now message =
      if message.kind == type_subscribe
      then report peer message.channel now (subscribe_peer w (some peer) message.channel)
      else if message.kind == type_unsubscribe
      then (unsubscribe_peer w (some peer) message.channel, true)
      else if message.kind == type_ping
      then send_to_self w peer (encode (pong_message message now))
      else if is_empty message.channel
      then unless_error (broadcast_from_peer w (some peer) payload)
      else unless_error (publish_from_peer w (some peer) message.channel payload)

  module _ (decode : Frame → Option Message) where
    abbrev pub handle_decoded : World → ℕ → Incoming → Option Message → World × Bool
    handle_decoded w peer incoming none = (w, true)
    handle_decoded w peer incoming (some message) =
        handle_message w peer incoming.payload incoming.now message

    -- A turn of the loop: what is neither a text nor binary, or is no message, is passed over.
    unfoldable pub take_incoming : World → ℕ → Incoming → World × Bool
    take_incoming w peer incoming =
        let u = incoming.meanwhile w in
        if incoming.is_data
        then handle_decoded u peer incoming (decode incoming.payload)
        else (u, true)

    -- The loop, through what is read before `ReadMessage` fails; then `peer.Close()`.
    unfoldable pub serve_messages : World → ℕ → List Incoming → World
    serve_messages w peer [] = close_self w peer
    serve_messages w peer (incoming ∷ rest) =
        let next = take_incoming w peer incoming in
        let further = serve_messages next.0 peer rest in if next.1 then further else next.0

    -- From the read deadline on; `deadline_ok` is what `SetReadDeadline` answers.
    unfoldable pub serve_conn : World → ℕ → Bool → List Incoming → World × WsStatus
    serve_conn w peer deadline_ok reads =
        if ltb_ℤ (pos 0) ((config_of w.hub).pong_timeout) && not deadline_ok
        then (close_self w peer, deadline_failed)
        else (serve_messages w peer reads, served)

    -- From the loop of `SubscribePeer` on.
    abbrev pub after_joining : ℕ → Bool → List Incoming → World × Done → World × WsStatus
    after_joining peer deadline_ok reads (w, err e) = (close_self w peer, subscription_failed)
    after_joining peer deadline_ok reads (w, ok _) = serve_conn w peer deadline_ok reads

    -- From `AddPeer` on: it fails for a nil peer only.
    unfoldable pub join_hub : World → ℕ → List Text → Func → Bool → List Incoming → World × WsStatus
    join_hub w peer channels hook deadline_ok reads = then_remove peer (
        after_joining peer deadline_ok reads
          (subscribe_channels (with_hook (add_peer w (some peer)).0 peer hook) peer channels))

    -- From the test of `Running` on, where the channels have been checked.
    abbrev pub admit :
        World → World → ℕ → List Text → Func → Bool → Bool → List Incoming → Done → World × WsStatus
    admit w made peer channels hook upgrades deadline_ok reads (err e) = (w, forbidden)
    admit w made peer channels hook upgrades deadline_ok reads (ok _) =
        if not w.running
        then (w, not_running)
        else if not upgrades
        then (w, not_upgraded)
        else join_hub made peer channels hook deadline_ok reads

    -- `serveHTTP`: the world afterwards, the status, and the calls of `OnAuthFailure`. `peer` is the pointer
    -- and `uuid` the identifier that `NewPeer` makes, `hook` closes the connection.
    unfoldable pub serve_http :
        World
        → Adapter
        → Request
        → List Text
        → ℕ
        → Text
        → Func
        → Bool
        → Bool
        → List Incoming
        → World × WsStatus × List Func
    serve_http w adapter request channels peer uuid hook upgrades deadline_ok reads =
        let result = authenticated adapter.config.authenticator request in
        let made = with_ws_peer w peer uuid result in
        let admitted =
          admit w made peer channels hook upgrades deadline_ok reads
            (check_channels made peer channels) in
        if not adapter.mounted
        then (w, not_mounted, [])
        else if not result.valid
        then (w, unauthorised, hook_calls adapter.config.on_auth_failure)
        else (admitted.0, admitted.1, [])

-- `HandlerForChannel` serves a request with one channel, whatever its query names.
abbrev channels_for : Option Text → List Text → List Text
channels_for none named = named
channels_for (some channel) named = channel ∷ []
