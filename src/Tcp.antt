-- ===== src/Tcp.antt =====
-- go/adapter/tcp/tcp.go: `handleConn`, the life of an accepted connection, with `dispatchTCPFrame`. It is
-- one goroutine, run here without the calls of others in between. Its other goroutine, `writePump`, takes
-- frames off the peer's send queue and is not modelled.
pub mod Admission
pub mod Dialling
pub mod Dials
pub mod Tests
use go_stream.Prelude.{
  ℕ, zero, suc, Bool, true, false, not, List, [], Option, none, some, Text, is_empty, length,
  if◌then◌else◌,
}
use go_stream.Errors.{Result, ok, err}
use go_stream.Wire.{Frame, Conn, Read, done, failed, waiting, read_tcp_frame}
use go_stream.Peer.{Peer, Func, Claims, new_peer}
use go_stream.Auth.{AuthResult}
use go_stream.Hub.{World, star, update}
use go_stream.Hub.Members.{Done, add_peer, remove_peer, subscribe_peer}
use go_stream.Hub.Sending.{tcp, broadcast_from_peer, publish_from_peer}

-- `MaxFrameSize` and `maxHandshakeFrameSize`.
abbrev pub max_frame_size : ℕ
max_frame_size = 65535

abbrev pub max_handshake_frame_size : ℕ
max_handshake_frame_size = 4096

-- `dispatchTCPFrame`, and the same test in the loop of `handleConn`.
abbrev pub dispatch_tcp_frame : World → ℕ → Text → Frame → World × Done
dispatch_tcp_frame w peer channel frame =
    if is_empty channel
    then broadcast_from_peer w (some peer) frame
    else publish_from_peer w (some peer) channel frame

-- After a call that may fail: what is left to do on an error, or else.
abbrev pub unless_failed {ℓ} : {A : Type ℓ} → World × Done → (World → A) → (World → A) → A
unless_failed (w, ok _) stop further = further w
unless_failed (w, err e) stop further = stop w

-- After a read: return on an error, or go on with the frame; a read may also wait for ever.
abbrev pub with_frame {ℓ} :
    {A : Type ℓ} → Read (Text × Frame) × Conn → A → A → (Text → Frame → Conn → A) → A
with_frame (done (channel, frame), conn) waits stop further = further channel frame conn
with_frame (failed e, conn) waits stop further = stop
with_frame (waiting, conn) waits stop further = waits

-- A goroutine that has returned, and one that waits in a read for ever.
abbrev pub returned : World → World × Bool
returned w = (w, true)

abbrev pub blocked : World → World × Bool
blocked w = (w, false)

-- The loop of `handleConn`, on fuel, and whether it has returned: a turn takes at least one byte from the
-- connection, or is the last.
pub serve_frames : ℕ → World → ℕ → Conn → World × Bool
serve_frames zero w peer conn = blocked w
serve_frames (suc n) w peer conn =
    with_frame (read_tcp_frame conn 0 max_frame_size) (blocked w) (returned w)
      (λ channel frame rest.
        unless_failed (dispatch_tcp_frame w peer channel frame) returned
          (λ u. serve_frames n u peer rest))

-- The deferred `RemovePeer`, which a goroutine that is blocked does not come to.
abbrev pub then_remove : ℕ → World × Bool → World
then_remove peer (w, true) = remove_peer w (some peer)
then_remove peer (w, false) = w

abbrev pub claims_or : Claims → Claims → Claims
claims_or none claims = claims
claims_or (some given) claims = some given

-- The peer of a connection.
abbrev pub conn_peer : Text → AuthResult → Func → Peer
conn_peer uuid result hook =
    let peer = new_peer uuid tcp in
    record peer {
      user_id = result.user_id;
      claims = claims_or result.claims peer.claims;
      close_hook = some hook;
    }

abbrev handshake_limit : Option (Frame → AuthResult) → ℕ
handshake_limit none = max_frame_size
handshake_limit (some authenticate) = max_handshake_frame_size

-- The verdict on the first frame.
abbrev verdict : Option (Frame → AuthResult) → Frame → AuthResult
verdict none frame = record { valid = true; user_id = []; claims = none; error = none }
verdict (some authenticate) frame = authenticate frame

-- Where there is no authenticator, the first frame is a message.
abbrev first_message : Option (Frame → AuthResult) → World → ℕ → Text → Frame → World × Done
first_message none w peer channel frame = dispatch_tcp_frame w peer channel frame
first_message (some authenticate) w peer channel frame = (w, ok tt)

-- From `AddPeer` on.
abbrev pub join : Option (Frame → AuthResult) → World → ℕ → Text → Frame → Conn → World
join authenticator w peer channel frame rest =
    unless_failed (add_peer w (some peer)) (λ u. u)
      (λ added. then_remove peer (
        unless_failed (subscribe_peer added (some peer) star) returned (λ u.
          unless_failed (first_message authenticator u peer channel frame) returned
            (λ v. serve_frames (suc (length rest.input)) v peer rest))))

-- `handleConn`: `peer` is the pointer and `uuid` the identifier that `NewPeer` makes, `hook` closes the
-- connection.
pub handle_conn : World → Option (Frame → AuthResult) → ℕ → ℕ → Text → Func → Conn → World
handle_conn w authenticator timeout peer uuid hook conn =
    with_frame (read_tcp_frame conn timeout (handshake_limit authenticator)) w w
      (λ channel frame rest.
        let result = verdict authenticator frame in
        let made = record w { heap = update w.heap peer (conn_peer uuid result hook) } in
        if not result.valid
        then w
        else if not made.running
        then made
        else join authenticator made peer channel frame rest)
