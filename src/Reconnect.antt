-- ===== src/Reconnect.antt =====
-- go/adapter/tcp/reconnect.go: the reconnecting TCP client, and `ConnectionState` of go/stream.go. What
-- the network, the clock, the context and other goroutines do in one turn of `Connect`'s loop is a
-- `Round`; the float arithmetic of the backoff is the parameter `scale`. A connection is its number.
pub mod Connecting
pub mod Backoff
pub mod Waiting
pub mod GivesUp
pub mod Closing
pub mod Tests
use go_stream.Prelude.{
  ℕ, suc, ◌+◌, ◌*◌, Bool, true, false, ◌||◌, ◌&&◌, List, [], ◌∷◌, ◌++◌, Option, none, some, Text,
  codes, nat_eq, ◌==◌, is_empty, if◌then◌else◌, ltb,
}
use go_stream.Prelude.Int.{ℤ, pos, negsuc, leb_ℤ, ltb_ℤ}
use go_stream.Errors.{Error, Result, ok, err}
use go_stream.Wire.{Frame, encode_adapter_frame}
use go_stream.Wire.Writing.{write_all}
use go_stream.Peer.{Func}
use go_stream.Config.{Duration, seconds, or_default}

pub data ConnectionState : Type 0 where
  is_disconnected is_connecting is_connected : ConnectionState

-- `ConnectionState.String`.
abbrev state_name : ConnectionState → Text
state_name is_disconnected = codes "disconnected"
state_name is_connecting = codes "connecting"
state_name is_connected = codes "connected"

-- A connection's pointer.
abbrev pub ConnId : Type 0
ConnId = ℕ

-- A callback is a nil or a named function. The address and TLS are the dialler's.
pub record ReconnectConfig : Type 0 where
  pub handshake_frame : Frame
  pub handshake_channel : Text
  pub initial_backoff : Duration
  pub max_backoff : Duration
  pub max_retries : ℤ
  pub on_connect : Option Func
  pub on_disconnect : Option Func
  pub on_reconnect : Option Func
  pub on_message : Option Func

pub record ReconnectingTcp : Type 0 where
  pub config : ReconnectConfig
  pub conn : Option ConnId
  pub state : ConnectionState
  pub closed : Bool

-- `NewReconnectingTCP`; the default of the multiplier is in the parameter `scale`.
unfoldable pub new_reconnecting_tcp : ReconnectConfig → ReconnectingTcp
new_reconnecting_tcp config = record {
  config = record config {
    initial_backoff = or_default config.initial_backoff (seconds 1);
    max_backoff = or_default config.max_backoff (seconds 30);
  };
  conn = none;
  state = is_disconnected;
  closed = false;
}

-- What the client does that others can see.
pub data Act : Type 0 where
  calls_connect calls_disconnect : Func → Act
  calls_reconnect : Func → ℕ → Act
  calls_message : Func → Text → Frame → Act
  sleeps : Duration → Act
  closes : ConnId → Act

-- `setState`, `setConn` and `clearConn`.
unfoldable pub set_state : ConnectionState → ReconnectingTcp → ReconnectingTcp
set_state state client = record client { state = state }

unfoldable pub set_conn : ConnId → ReconnectingTcp → ReconnectingTcp
set_conn conn client = record client { conn = some conn; state = is_connected }

abbrev pub is_conn : Option ConnId → ConnId → Bool
is_conn none conn = false
is_conn (some c) conn = c == conn

unfoldable pub clear_conn : ConnId → ReconnectingTcp → ReconnectingTcp
clear_conn conn client =
    if is_conn client.conn conn
    then record client { conn = none; state = is_disconnected }
    else client

abbrev pub close_acts : Option ConnId → List Act
close_acts none = []
close_acts (some conn) = closes conn ∷ []

-- `Close`.
unfoldable pub close_client : ReconnectingTcp → ReconnectingTcp × List Act
close_client client =
    (record client { closed = true; conn = none; state = is_disconnected }, close_acts client.conn)

-- `writeAll` of an encoded frame, none when the encoding has panicked.
abbrev write_encoded : Option Text → List (Result ℕ) → Option (Text × Option (Result (Unit {0})))
write_encoded none writes = none
write_encoded (some wire) writes = some (write_all wire writes)

-- `Send`, given the answers of the connection's `Write` calls: the bytes that went out, and the result.
send_on :
    Option ConnId → Text → Frame → List (Result ℕ) → Option (Text × Option (Result (Unit {0})))
send_on none channel frame writes = some ([], some (err Error.not_connected))
send_on (some conn) channel frame writes = write_encoded (encode_adapter_frame channel frame) writes

abbrev client_send :
    ReconnectingTcp → Text → Frame → List (Result ℕ) → Option (Text × Option (Result (Unit {0})))
unfolding send_on
client_send client channel frame writes = send_on client.conn channel frame writes

-- `writeHandshake`.
abbrev write_handshake :
    ReconnectConfig → List (Result ℕ) → Option (Text × Option (Result (Unit {0})))
write_handshake config writes =
    if is_empty config.handshake_frame && is_empty config.handshake_channel
    then some ([], some (ok tt))
    else write_encoded (encode_adapter_frame config.handshake_channel config.handshake_frame) writes

-- `nextTCPBackoff`; `scale d` is `time.Duration(float64(d) * multiplier)`.
unfoldable pub next_tcp_backoff : (Duration → Duration) → Duration → Duration → Duration
next_tcp_backoff scale current maximum =
    let next = if leb_ℤ (scale current) (pos 0) then current else scale current in
    if ltb_ℤ maximum next then maximum else next

-- `sleepContext`, when the wait would end as `woken` says.
unfoldable pub sleep_context : Duration → Result (Unit {0}) → Result (Unit {0})
sleep_context duration woken = if leb_ℤ duration (pos 0) then ok tt else woken
