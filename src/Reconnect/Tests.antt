-- ===== src/Reconnect/Tests.antt =====
-- The reconnecting client with two retries.
use go_stream.Prelude.{
  ◌≡◌, refl, List, [], ◌∷◌, ◌++◌, map, some, none, Text, codes, false, All, arith,
}
use go_stream.Prelude.Int.{pos}
use go_stream.Errors.{Error, ok, err, conn_error, not_connected}
use go_stream.Wire.{Frame}
use go_stream.Config.{Duration, seconds}
use go_stream.Reconnect.{
  ReconnectConfig, ReconnectingTcp, new_reconnecting_tcp, is_disconnected, close_acts,
}
use go_stream.Reconnect.Connecting.{connect, turn, returns}
use go_stream.Reconnect.Backoff.{Waits}
use go_stream.Reconnect.Waiting.{connect-Waits}
use go_stream.Reconnect.GivesUp.{failing, connect-gives_up}
use go_stream.Reconnect.Closing.{overtaken, session_acts, close_client-dialling}

abbrev two_retries : ReconnectConfig
two_retries = record {
  handshake_frame = [];
  handshake_channel = [];
  initial_backoff = seconds 1;
  max_backoff = seconds 30;
  max_retries = pos 2;
  on_connect = some 1;
  on_disconnect = some 2;
  on_reconnect = some 3;
  on_message = some 4;
}

abbrev idle : ReconnectingTcp
idle = record { config = two_retries; conn = none; state = is_disconnected; closed = false }

-- A multiplier of one.
abbrev same : Duration → Duration
same d = d

abbrev refused : List Error
refused = conn_error ∷ not_connected ∷ []

connect-gives_up_example :
    ((connect same idle (map failing refused)).2 ≡ none)
    × ((connect same idle (map failing (refused ++ conn_error ∷ []))).2 ≡ some (err conn_error))
connect-gives_up_example = connect-gives_up same idle refused conn_error refl refl (omega arith)

connect-Waits_example :
    All
      (Waits (new_reconnecting_tcp two_retries).config)
      (connect same (new_reconnecting_tcp two_retries) (map failing refused)).1
connect-Waits_example =
    connect-Waits same two_retries (map failing refused) (omega arith) (omega arith)

abbrev frames : List (Text × Frame)
frames = (codes "block", 7 ∷ []) ∷ []

close_client-dialling_example :
    ((turn same idle (seconds 1) 0 (overtaken 9 frames conn_error)).1
      ≡ close_acts idle.conn ++ session_acts two_retries 9 frames conn_error)
    × ((turn same idle (seconds 1) 0 (overtaken 9 frames conn_error)).2 ≡ returns (ok tt))
close_client-dialling_example =
    close_client-dialling same idle (seconds 1) 0 9 frames conn_error refl
