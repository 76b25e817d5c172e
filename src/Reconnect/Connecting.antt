-- ===== src/Reconnect/Connecting.antt =====
-- `Connect` of go/adapter/tcp/reconnect.go: the loop that dials, shakes hands, reads and retries.
use go_stream.Prelude.{
  ℕ, suc, Bool, true, false, ◌||◌, ◌&&◌, List, [], ◌∷◌, ◌++◌, Option, none, some, Text,
  if◌then◌else◌,
}
use go_stream.Prelude.Int.{pos, ltb_ℤ}
use go_stream.Errors.{Error, Result, ok, err}
use go_stream.Wire.{Frame}
use go_stream.Peer.{Func}
use go_stream.Config.{Duration}
use go_stream.Reconnect.{
  ConnId, ReconnectConfig, ReconnectingTcp, Act, set_state, set_conn, clear_conn, close_client,
  next_tcp_backoff, sleep_context, is_connecting, is_disconnected, calls_connect, calls_disconnect,
  calls_reconnect, calls_message, sleeps, closes,
}

-- One turn of the loop: which calls of `Close` and which end of the context fall into it, what the
-- dialler and the handshake answer, the frames that are read and the error that ends the reading, and
-- how a wait would end.
pub record Round : Type 0 where
  pub close_before : Bool
  pub done_before : Bool
  pub dialled : Result ConnId
  -- `Close` while the client dials or shakes hands.
  pub close_dialling : Bool
  pub shaken : Result (Unit {0})
  pub received : List (Text × Frame)
  pub read_error : Error
  -- `Close` while the client reads.
  pub close_reading : Bool
  pub done_after : Bool
  pub woken : Result (Unit {0})

-- How a turn leaves the loop, or goes on with a new `backoff` and `attempt`.
pub data Outcome : Type 0 where
  returns : Result (Unit {0}) → Outcome
  goes_on : Duration → ℕ → Outcome

-- A call of `Close` by another goroutine, if there is one.
abbrev pub maybe_close : Bool → ReconnectingTcp → ReconnectingTcp × List Act
maybe_close true client = close_client client
maybe_close false client = (client, [])

abbrev pub notify : Option Func → (Func → Act) → List Act
notify none act = []
notify (some callback) act = act callback ∷ []

-- `MaxRetries > 0 && attempt > MaxRetries`. An `attempt` grows by one in a turn of the loop, and does
-- not reach 2 ^ 63.
abbrev pub is_exhausted : ReconnectConfig → ℕ → Bool
is_exhausted config attempt =
    ltb_ℤ (pos 0) config.max_retries && ltb_ℤ config.max_retries (pos attempt)

-- `if r := sleepContext(ctx, backoff); !r.OK { return r }`, then the next backoff.
unfoldable pub after_sleep :
    (Duration → Duration) → ReconnectConfig → Duration → ℕ → Result (Unit {0}) → Outcome
after_sleep scale config backoff attempt (ok _) =
    goes_on (next_tcp_backoff scale backoff config.max_backoff) attempt
after_sleep scale config backoff attempt (err e) = returns (err e)

-- The end of a turn that did not leave a connection: give up, or report the attempt and wait.
unfoldable pub retry :
    (Duration → Duration)
    → ReconnectConfig
    → Duration
    → ℕ
    → Result (Unit {0})
    → Result (Unit {0})
    → List Act × Outcome
unfolding after_sleep
retry scale config backoff attempt failure woken =
    if is_exhausted config attempt then ([], returns failure) else (
      notify config.on_reconnect (λ f. calls_reconnect f attempt) ++ sleeps backoff ∷ [],
      after_sleep scale config backoff attempt (sleep_context backoff woken),
    )

-- `readLoop`: a callback for each frame, then the error of the read that fails.
unfoldable pub read_loop : Option Func → List (Text × Frame) → Error → List Act × Result (Unit {0})
read_loop callback [] e = ([], err e)
read_loop callback ((channel, frame) ∷ frames) e =
    let rest = read_loop callback frames e in
    (notify callback (λ f. calls_message f channel frame) ++ rest.0, rest.1)

-- `if readResult.OK { attempt = 0 } else { attempt++ }`.
abbrev pub count_failure : Result (Unit {0}) → ℕ → ℕ
count_failure (ok _) attempt = 0
count_failure (err e) attempt = suc attempt

-- The turn from `setConn` on, with the connection that has shaken hands.
unfoldable pub session :
    (Duration → Duration) → ReconnectingTcp → ConnId → Round → ReconnectingTcp × List Act × Outcome
unfolding read_loop
session scale client conn round =
    let connected = set_conn conn client in
    let reading = read_loop client.config.on_message round.received round.read_error in
    let closing = maybe_close round.close_reading connected in
    let left = set_state is_disconnected (clear_conn conn closing.0) in
    let acts =
      notify client.config.on_connect calls_connect
      ++ reading.0
      ++ closing.1
      ++ closes conn ∷ notify client.config.on_disconnect calls_disconnect in
    if left.closed || round.done_after
    then (left, acts, returns (ok tt))
    else (let next =
          retry scale left.config left.config.initial_backoff (count_failure reading.1 0) reading.1
            round.woken in
        (left, acts ++ next.0, next.1))

-- `setState(StateDisconnected)` and a retry, after a dial or a handshake that failed.
unfoldable pub failed :
    (Duration → Duration)
    → ReconnectingTcp
    → Duration
    → ℕ
    → Error
    → Round
    → ReconnectingTcp × List Act × Outcome
failed scale client backoff attempt e round =
    let next = retry scale client.config backoff (suc attempt) (err e) round.woken in
    (set_state is_disconnected client, next.0, next.1)

-- The turn after a dial that answered with a connection.
unfoldable pub shake :
    (Duration → Duration)
    → ReconnectingTcp
    → Duration
    → ℕ
    → ConnId
    → Result (Unit {0})
    → Round
    → ReconnectingTcp × List Act × Outcome
shake scale client backoff attempt conn (ok _) round = session scale client conn round
shake scale client backoff attempt conn (err e) round =
    let next = failed scale client backoff attempt e round in (next.0, closes conn ∷ next.1, next.2)

unfoldable pub dial :
    (Duration → Duration)
    → ReconnectingTcp
    → Duration
    → ℕ
    → Result ConnId
    → Round
    → ReconnectingTcp × List Act × Outcome
unfolding shake
dial scale client backoff attempt (ok conn) round =
    shake scale client backoff attempt conn round.shaken round
dial scale client backoff attempt (err e) round = failed scale client backoff attempt e round

-- One turn of the loop.
unfoldable pub turn :
    (Duration → Duration)
    → ReconnectingTcp
    → Duration
    → ℕ
    → Round
    → ReconnectingTcp × List Act × Outcome
unfolding dial
turn scale client backoff attempt round =
    let before = maybe_close round.close_before client in
    if before.0.closed || round.done_before
    then (before.0, before.1, returns (ok tt))
    else (let dialling = maybe_close round.close_dialling (set_state is_connecting before.0) in
        let next = dial scale dialling.0 backoff attempt round.dialled round in
        (next.0, before.1 ++ dialling.1 ++ next.1, next.2))

-- After a turn: return, or go on with the turns that follow.
abbrev pub resume :
    ReconnectingTcp
    → List Act
    → (Duration → ℕ → ReconnectingTcp × List Act × Option (Result (Unit {0})))
    → Outcome
    → ReconnectingTcp × List Act × Option (Result (Unit {0}))
resume client acts further (returns result) = (client, acts, some result)
resume client acts further (goes_on backoff attempt) =
    let rest = further backoff attempt in (rest.0, acts ++ rest.1, rest.2)

-- The loop, through the turns that happen: its result, none while it runs.
unfoldable pub connect_from :
    (Duration → Duration)
    → ReconnectingTcp
    → Duration
    → ℕ
    → List Round
    → ReconnectingTcp × List Act × Option (Result (Unit {0}))
connect_from scale client backoff attempt [] = (client, [], none)
connect_from scale client backoff attempt (round ∷ rounds) =
    let next = turn scale client backoff attempt round in
    resume next.0 next.1 (λ later count. connect_from scale next.0 later count rounds) next.2

-- `Connect`.
unfoldable pub connect :
    (Duration → Duration)
    → ReconnectingTcp
    → List Round
    → ReconnectingTcp × List Act × Option (Result (Unit {0}))
unfolding connect_from
connect scale client rounds = connect_from scale client client.config.initial_backoff 0 rounds
