-- ===== src/Ws/Client/Tests.antt =====
-- A WebSocket client with two retries, and a session in which it reads one message.
use go_stream.Prelude.{◌≡◌, List, [], ◌∷◌, Option, some, none, codes, true, false}
use go_stream.Prelude.Int.{pos}
use go_stream.Errors.{Error, ok, conn_error, not_connected}
use go_stream.Wire.{Frame}
use go_stream.Config.{Duration, seconds}
use go_stream.Message.{Message, no_data}
use go_stream.Reconnect.{is_disconnected}
use go_stream.Reconnect.Connecting.{connect}
use go_stream.Ws.Client.{WsClientConfig, WsClient, WsRound, connect_ws}
use go_stream.Ws.Client.Shape.{as_client}
use go_stream.Ws.Client.AsTcp.{as_rounds, as_run, connect_ws-as_tcp}
use go_stream.Ws.Client.Laws.{failing_dial}

abbrev two_retries : WsClientConfig
two_retries = record {
  initial_backoff = seconds 1;
  max_backoff = seconds 30;
  max_retries = pos 2;
  on_connect = some 1;
  on_disconnect = some 2;
  on_reconnect = some 3;
  on_message = some 4;
}

abbrev idle : WsClient
idle = record { config = two_retries; conn = none; state = is_disconnected; closed = false }

-- A multiplier of one.
abbrev same : Duration → Duration
same d = d

-- Every payload is an event on the channel that it spells.
abbrev decode : Frame → Option Message
decode payload = some (record {
  kind = codes "event";
  channel = payload;
  process_id = [];
  content = no_data;
  timestamp = 1;
})

abbrev render : Message → Frame
render message = message.channel

abbrev refused : List Error
refused = conn_error ∷ not_connected ∷ []

abbrev rounds : List WsRound
rounds =
    failing_dial conn_error
    ∷ record (failing_dial conn_error) {
      dialled = ok 9;
      received = record { is_data = true; payload = codes "block" } ∷ [];
    }
    ∷ []

connect_ws-as_tcp_example :
    connect same (as_client idle) (as_rounds render decode same rounds)
    ≡ as_run render decode same (connect_ws decode same idle rounds)
connect_ws-as_tcp_example = connect_ws-as_tcp render decode same idle rounds
