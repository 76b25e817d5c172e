-- ===== src/Zmq/Receiving.antt =====
-- What a started adapter of go/adapter/zmq/zmq.go does until its context ends: `Start` from the deferred
-- function on, with `recvWithTimeout` and `registerPeer`. It is one goroutine, run here without the calls of
-- others in between. What the socket answers and when the context ends are arguments.
use go_stream.Prelude.{
  ℕ, true, false, not, List, [], ◌∷◌, Option, none, some, Text, codes, is_empty, length, ltb,
  if◌then◌else◌,
}
use go_stream.Prelude.Int.{pos, leb_ℤ}
use go_stream.Errors.{Error, Result, ok, err, auth_rejected, handshake_timeout, context_canceled}
use go_stream.Wire.{Frame}
use go_stream.Peer.{Func, new_peer}
use go_stream.Config.{Duration}
use go_stream.Auth.{AuthResult}
use go_stream.Hub.{World, update}
use go_stream.Hub.Members.{Done, add_peer, remove_peer}
use go_stream.Hub.Sending.{publish, broadcast}
use go_stream.Tcp.{claims_or}
use go_stream.Zmq.{is_receiver, decode_message}
use go_stream.Zmq.Adapter.{ZmqConfig}

-- `maxHandshakeFrameSize`.
abbrev pub max_handshake_size : ℕ
max_handshake_size = 4096

-- Which case the `select` of `recvWithTimeout` takes, with the error of a context that ends.
pub data Winner : Type 0 where
  context_ends : Error → Winner
  message_arrives timer_fires : Winner

-- `if err := socket.Close(); err != nil { return err }; return e`.
abbrev closed_with : Done → Error → Result Frame
closed_with (ok _) e = err e
closed_with (err e') e = err e'

-- `recvWithTimeout`, given what `Recv` and `Close` of the socket would answer.
unfoldable pub recv_with_timeout : Duration → Winner → Result Frame → Done → Result Frame
recv_with_timeout timeout winner received closed =
    if leb_ℤ timeout (pos 0) then received else elim winner [
      | context_ends e ↦ closed_with closed e
      | message_arrives ↦ received
      | timer_fires ↦ closed_with closed handshake_timeout
    ]

-- `registerPeer`: the peer's pointer, identifier and close hook are arguments; `AddPeer` succeeds.
unfoldable pub register_zmq_peer : World → ℕ → Text → AuthResult → Func → World
register_zmq_peer w peer uuid result hook =
    let new = new_peer uuid (codes "zmq") in
    (add_peer
      (record w {
        heap = update w.heap peer (record new {
          user_id = result.user_id;
          claims = claims_or result.claims new.claims;
          close_hook = some hook;
        });
      })
      (some peer)).0

-- The test of the channel in the loop of `Start`.
unfoldable pub dispatch_message : World → Text → Frame → World × Done
dispatch_message w channel frame =
    if is_empty channel then broadcast w frame else publish w channel frame

abbrev pub unless_refused : World × Done → (World → World × Done) → World × Done
unless_refused (w, ok _) further = further w
unless_refused (w, err e) further = (w, err e)

-- What `decodeMessage` refuses is passed over.
abbrev pub take_decoded : World → Option (Text × Frame) → (World → World × Done) → World × Done
take_decoded w none further = further w
take_decoded w (some (channel, frame)) further =
    unless_refused (dispatch_message w channel frame) further

-- The loop of `Start`, through the messages that arrive before `Recv` fails; `ending` is a success where
-- the context has ended by then, and the error of `Recv` otherwise.
unfoldable pub receive_loop : World → List Frame → Done → World × Done
receive_loop w [] ending = (w, ending)
receive_loop w (payload ∷ payloads) ending =
    take_decoded w (decode_message payload) (λ u. receive_loop u payloads ending)

-- `if r.Value == context.Canceled { return core.Ok(nil) }; return r`.
abbrev handshake_failure : Error → Done
handshake_failure context_canceled = ok tt
handshake_failure e = err e

abbrev pub leave : ℕ → World × Done → World × Done
leave peer (w, result) = (remove_peer w (some peer), result)

-- What has been said of the peer: without an authenticator, nothing.
abbrev pub no_verdict : AuthResult
no_verdict = record { valid = true; user_id = []; claims = none; error = none }

abbrev zero_verdict : AuthResult
zero_verdict = record { valid = false; user_id = []; claims = none; error = none }

-- From the peer's registration on.
unfoldable pub run_receiver :
    World → AuthResult → ℕ → Text → Func → List Frame → Done → World × Done
run_receiver w result peer uuid hook payloads ending =
    leave peer (receive_loop (register_zmq_peer w peer uuid result hook) payloads ending)

-- The handshake.
unfoldable pub shake_hands :
    World → (Frame → AuthResult) → Result Frame → ℕ → Text → Func → List Frame → Done → World × Done
shake_hands w authenticate (err e) peer uuid hook payloads ending = (w, handshake_failure e)
shake_hands w authenticate (ok handshake) peer uuid hook payloads ending =
    if ltb max_handshake_size (length handshake)
    then (w, err auth_rejected)
    else if not (authenticate handshake).valid
    then (w, err auth_rejected)
    else run_receiver w (authenticate handshake) peer uuid hook payloads ending

abbrev pub serve_receiver :
    World
    → ZmqConfig
    → Option (Frame → AuthResult)
    → Winner
    → Result Frame
    → Done
    → ℕ
    → Text
    → Func
    → List Frame
    → Done
    → World × Done
serve_receiver w config none winner received closed peer uuid hook payloads ending =
    run_receiver w no_verdict peer uuid hook payloads ending
serve_receiver w config (some authenticate) winner received closed peer uuid hook payloads ending =
    shake_hands w authenticate (recv_with_timeout config.handshake_timeout winner received closed)
      peer uuid hook payloads ending

-- `Start`, from the deferred function on: a sender waits for the end of its context.
unfoldable pub serve_zmq :
    World
    → ZmqConfig
    → Option (Frame → AuthResult)
    → Winner
    → Result Frame
    → Done
    → ℕ
    → Text
    → Func
    → List Frame
    → Done
    → World × Done
serve_zmq w config authenticator winner received closed peer uuid hook payloads ending =
    if not (is_receiver config.role)
    then leave peer (register_zmq_peer w peer uuid zero_verdict hook, ok tt)
    else serve_receiver w config authenticator winner received closed peer uuid hook payloads ending
