-- ===== src/Zmq/Tests.antt =====
-- The ZeroMQ codec on a small message, a sender that is stopped and started, and a receiver.
use go_stream.Prelude.{
  ◌≡◌, ◌⊎◌, ◌≤◌, refl, ◌∷◌, [], List, true, some, none, codes, arith, length, Text, ◌==◌, nat_eq,
}
use go_stream.Prelude.Int.{pos}
use go_stream.Errors.{ok, err, not_started}
use go_stream.Wire.{Frame}
use go_stream.Peer.{new_peer}
use go_stream.Config.{default_hub_config}
use go_stream.Auth.{AuthResult}
use go_stream.Hub.{World, new_hub_with_config}
use go_stream.Zmq.{
  encode_message, mode_pub_sub, role_publisher, role_subscriber, is_receiver, is_sender,
}
use go_stream.Zmq.Adapter.{
  ZmqConfig, ZmqAdapter, Run, new_zmq_adapter, install, cleanup, stop, publish_zmq, ZmqReach, fresh,
  after, installs, stops, begin_start,
}
use go_stream.Zmq.Lifecycle.{
  IsWhole, new_zmq_adapter-IsWhole, cleanup_clobbers, Runs, GaveUp, begin_start-RunsOrNot,
}
use go_stream.Zmq.Receiving.{message_arrives, recv_with_timeout, receive_loop, serve_zmq}
use go_stream.Zmq.Serving.{serve_zmq-admission, receive_loop-encoded, encoded, dispatch_all}

abbrev payload : Frame
payload = 97 ∷ 0 ∷ 7 ∷ 0 ∷ []

abbrev publishes : ZmqConfig
publishes = record {
  mode = mode_pub_sub;
  endpoint = codes "tcp://127.0.0.1:5555";
  role = role_publisher;
  topics = [];
  handshake_timeout = pos 0;
}

abbrev receives : ZmqConfig
receives = record publishes { role = role_subscriber }

abbrev mounted : ZmqAdapter
mounted = record (new_zmq_adapter publishes) { mounted = true }

abbrev one : Run
one = record { socket = 1; cancel = 11 }

abbrev two : Run
two = record { socket = 2; cancel = 12 }

abbrev restarted : ZmqAdapter
restarted = (install ((stop ((install (mounted) one).0)).0) two).0

new_to_restarted : ZmqReach (mounted) restarted (two ∷ one ∷ [])
unfolding install stop
new_to_restarted = after (after (after fresh (installs one refl)) stops) (installs two refl)

new_zmq_adapter-IsWhole_example : IsWhole restarted (two ∷ one ∷ [])
new_zmq_adapter-IsWhole_example = new_zmq_adapter-IsWhole publishes true new_to_restarted

begin_start-RunsOrNot_example :
    Runs (mounted) one (begin_start (mounted) one (ok tt) (ok tt) (ok tt) (ok tt))
    ⊎ GaveUp (mounted) one (ok tt) (begin_start (mounted) one (ok tt) (ok tt) (ok tt) (ok tt))
begin_start-RunsOrNot_example = begin_start-RunsOrNot (mounted) one (ok tt) (ok tt) (ok tt) (ok tt)

cleanup_clobbers_example :
    ((install ((stop ((install (mounted) one).0)).0) two).1 ≡ true)
    × ((publish_zmq restarted (codes "a") (7 ∷ []) (ok tt)).0
        ≡ some (2, encode_message (codes "a") (7 ∷ [])))
    × (publish_zmq ((cleanup restarted one).0) (codes "a") (7 ∷ []) (ok tt)
        ≡ (none, err not_started))
    × ((stop ((cleanup restarted one).0)).1 ≡ [])
unfolding is_sender
cleanup_clobbers_example = cleanup_clobbers (mounted) one two (codes "a") (7 ∷ []) (ok tt) refl refl

abbrev live : World
live = record {
  hub = record (new_hub_with_config default_hub_config) { running = true };
  heap = λ p. new_peer (p ∷ []) (codes "ws");
  late_broadcasts = [];
  late_publishes = [];
  leaving = [];
  trace = [];
}

-- Accepts the handshake that is one byte long.
abbrev authenticate : Frame → AuthResult
authenticate frame = record { valid = length frame == 1; user_id = []; claims = none; error = none }

serve_zmq-admission_example :
    ((serve_zmq live receives
        (some authenticate)
        message_arrives
        (ok (7 ∷ []))
        (ok tt)
        1
        (codes "u")
        3
        (payload ∷ [])
        (ok tt)).0
      ≡ live)
    ⊎ ((handshake : Frame) × (recv_with_timeout receives.handshake_timeout message_arrives
            (ok (7 ∷ []))
            (ok tt)
          ≡ ok handshake)
        × (length handshake ≤ 4096)
        × ((authenticate handshake).valid ≡ true))
unfolding is_receiver
serve_zmq-admission_example =
    serve_zmq-admission live receives authenticate message_arrives (ok (7 ∷ [])) (ok tt) 1
      (codes "u") 3 (payload ∷ []) (ok tt) refl

abbrev items : List (Text × Frame)
items = (codes "a", 7 ∷ 0 ∷ []) ∷ ([], 8 ∷ []) ∷ []

receive_loop-encoded_example :
    receive_loop live (encoded items) (ok tt) ≡ dispatch_all live items (ok tt)
receive_loop-encoded_example = receive_loop-encoded items live (ok tt) (ground arith, (tt, tt))
