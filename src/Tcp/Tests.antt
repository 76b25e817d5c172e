-- ===== src/Tcp/Tests.antt =====
-- A connection that sends a handshake and a message.
use go_stream.Prelude.{
  Bool, refl, ◌≡◌, ◌⊎◌, [], ◌∷◌, some, none, true, false, codes, Text, is_empty, not,
}
use go_stream.Wire.{Frame, Conn, closed, done, read_tcp_frame}
use go_stream.Peer.{new_peer}
use go_stream.Config.{default_hub_config}
use go_stream.Auth.{AuthResult}
use go_stream.Hub.{World, new_world}
use go_stream.Hub.Members.{Done}
use go_stream.Tcp.{handle_conn, max_handshake_frame_size}
use go_stream.Errors.{ok, err, conn_error}
use go_stream.Tcp.Dialling.{
  dial_hub, obtain, closing, Listening, releases, obtains, at_once, then_step,
}
use go_stream.Tcp.Dials.{HasJoined, HasFailed, dial_hub-outcome, listen-stale}
use go_stream.Tcp.Admission.{handle_conn-admission}

abbrev arrived : Conn
arrived = record {
  input = 0 ∷ 0 ∷ 0 ∷ 6 ∷ 0 ∷ 0 ∷ 0 ∷ 1 ∷ 98 ∷ 104 ∷ 0 ∷ 0 ∷ 0 ∷ 5 ∷ 0 ∷ 0 ∷ 0 ∷ 0 ∷ 104 ∷ [];
  after = closed;
  can_set_deadline = true;
  has_deadline = false;
}

-- Accepts any frame that is not empty.
abbrev named : Frame → AuthResult
named frame = record { valid = not (is_empty frame); user_id = frame; claims = none; error = none }

abbrev quiet : World
quiet = new_world default_hub_config (λ p. new_peer (p ∷ []) (codes "ws"))

handle_conn-admission_example :
    (handle_conn quiet (some named) 5 1 (codes "u") 3 arrived ≡ quiet)
    ⊎ ((channel : Text) × (frame : Frame) × (rest : Conn) × (read_tcp_frame arrived 5
            max_handshake_frame_size
          ≡ (done (channel, frame), rest))
        × ((named frame).valid ≡ true))
handle_conn-admission_example = handle_conn-admission quiet named 5 1 (codes "u") 3 arrived

dial_hub-outcome_example :
    let r = dial_hub quiet (ok tt) (ok tt) (ok tt) 1 (codes "u") 3 in
    ((quiet.running ≡ true) × HasJoined 1 (codes "block") r) ⊎ HasFailed quiet (ok tt) r
dial_hub-outcome_example =
    dial_hub-outcome quiet (ok tt) (ok tt) (ok tt) 1 (codes "u") 3 (codes "block")

-- Closing a listener for the second time fails.
abbrev once : Bool → Done
once true = err conn_error
once false = ok tt

abbrev open_one : Listening
open_one = record { field = some 1; is_closed = λ l. false }

-- The context of the first call ends, the call does, and a second one starts.
abbrev second : Listening
second = record { field = some 1; is_closed = closing (closing (λ l. false) 1) 1 }

listen-stale_example : (obtain second.field (ok 3) ≡ (some 1, ok 1)) × (second.is_closed 1 ≡ true)
listen-stale_example =
    listen-stale once conn_error 1 open_one (ok 3) refl refl
      (then_step (then_step at_once (releases 1)) (obtains (ok 2)))
