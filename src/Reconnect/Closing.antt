-- ===== src/Reconnect/Closing.antt =====
-- What a `Close` that overtakes a dial of `Connect` in go/adapter/tcp/reconnect.go does.
use go_stream.Prelude.{
  ℕ, true, false, List, [], ◌∷◌, ◌++◌, Text, if_cases, arith, ◌≡◌, refl, ◌||◌, ap,
}
use go_stream.Errors.{Error, ok}
use go_stream.Wire.{Frame}
use go_stream.Config.{Duration}
use go_stream.Reconnect.{
  ConnId, ReconnectConfig, ReconnectingTcp, Act, set_state, set_conn, clear_conn, close_client,
  close_acts, calls_connect, calls_disconnect, closes, is_conn, is_connecting,
}
use go_stream.Reconnect.Connecting.{
  Round, Outcome, returns, notify, read_loop, session, shake, dial, turn,
}

-- A turn in which another goroutine closes the client while it dials, and the dial still succeeds.
abbrev pub overtaken : ConnId → List (Text × Frame) → Error → Round
overtaken conn frames e = record {
  close_before = false;
  done_before = false;
  dialled = ok conn;
  close_dialling = true;
  shaken = ok tt;
  received = frames;
  read_error = e;
  close_reading = false;
  done_after = false;
  woken = ok tt;
}

clear_conn-closed :
    (conn : ConnId) (client : ReconnectingTcp) → (clear_conn conn client).closed ≡ client.closed
unfolding clear_conn
clear_conn-closed conn client =
    if_cases (λ (c : ReconnectingTcp). c.closed ≡ client.closed) (is_conn client.conn conn)
      (λ e. refl) (λ e. refl)

-- The acts of a session, without a `Close` in it.
abbrev pub session_acts : ReconnectConfig → ConnId → List (Text × Frame) → Error → List Act
session_acts config conn frames e =
    notify config.on_connect calls_connect
    ++ (read_loop config.on_message frames e).0
    ++ []
    ++ closes conn ∷ notify config.on_disconnect calls_disconnect

session-closed :
    (scale : Duration → Duration) (client : ReconnectingTcp) (conn : ConnId)
    (frames : List (Text × Frame)) (e : Error)
    → client.closed ≡ true
    → let next = session scale client conn (overtaken conn frames e) in
      (next.1 ≡ session_acts client.config conn frames e) × (next.2 ≡ returns (ok tt))
unfolding session set_state set_conn
session-closed scale client conn frames e c =
    if_cases
      (λ (next : ReconnectingTcp × List Act × Outcome).
        (next.1 ≡ session_acts client.config conn frames e) × (next.2 ≡ returns (ok tt)))
      ((clear_conn conn (set_conn conn client)).closed || false) (λ q. (refl, refl))
      (λ q. absurd (ground (arith, clear_conn-closed conn (set_conn conn client))))

-- A `Close` that overtakes a dial does not stop it: on a client that is not closed, the dialled
-- connection is still reported to `OnConnect`, all that it receives is handed to `OnMessage` until a
-- read fails, and only then does `Connect` return.
pub close_client-dialling :
    (scale : Duration → Duration) (client : ReconnectingTcp) (backoff : Duration) (attempt : ℕ)
    (conn : ConnId) (frames : List (Text × Frame)) (e : Error)
    → client.closed ≡ false
    → let next = turn scale client backoff attempt (overtaken conn frames e) in
      (next.1 ≡ close_acts client.conn ++ session_acts client.config conn frames e)
      × (next.2 ≡ returns (ok tt))
unfolding turn dial shake close_client set_state
close_client-dialling scale client backoff attempt conn frames e c =
    if_cases
      (λ (next : ReconnectingTcp × List Act × Outcome).
        (next.1 ≡ close_acts client.conn ++ session_acts client.config conn frames e)
        × (next.2 ≡ returns (ok tt)))
      (client.closed || false) (λ q. absurd (ground arith))
      (λ q.
        let closed = (close_client (set_state is_connecting client)).0 in
        let (acts, outcome) = session-closed scale closed conn frames e refl in
        (ap (λ a. close_acts client.conn ++ a) acts, outcome))
