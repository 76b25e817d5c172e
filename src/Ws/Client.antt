-- ===== src/Ws/Client.antt =====
-- go/adapter/ws/reconnect.go: the reconnecting WebSocket client. As with the TCP client, what the network,
-- the clock, the context and other goroutines do in one turn of `Connect`'s loop is a round, and the float
-- arithmetic of the backoff is the parameter `scale`; JSON is an argument too.
pub mod Shape
pub mod Session
pub mod AsTcp
pub mod Laws
pub mod Tests
use go_stream.Prelude.{
  ℕ, suc, Bool, true, false, ◌||◌, ◌&&◌, List, [], ◌∷◌, ◌++◌, Option, none, some, nat_beq, nat_eq,
  ◌==◌, if◌then◌else◌,
}
use go_stream.Prelude.Int.{ℤ, pos, leb_ℤ, ltb_ℤ}
use go_stream.Errors.{Error, Result, ok, err, not_connected}
use go_stream.Wire.{Frame}
use go_stream.Peer.{Func}
use go_stream.Config.{Duration, or_default, seconds}
use go_stream.Hub.Members.{Done}
use go_stream.Message.{Message}
use go_stream.Reconnect.{ConnId, ConnectionState, is_disconnected, is_connecting, is_connected}
use go_stream.Reconnect.Connecting.{Outcome, returns, goes_on}

-- `ReconnectConfig`; the URL, the headers and the dialler belong to the dial.
pub record WsClientConfig : Type 0 where
  pub initial_backoff : Duration
  pub max_backoff : Duration
  pub max_retries : ℤ
  pub on_connect : Option Func
  pub on_disconnect : Option Func
  pub on_reconnect : Option Func
  pub on_message : Option Func

-- `ReconnectingClient`.
pub record WsClient : Type 0 where
  pub config : WsClientConfig
  pub conn : Option ConnId
  pub state : ConnectionState
  pub closed : Bool

-- `NewReconnectingClient`; the default of the multiplier is in the parameter `scale`.
unfoldable pub new_reconnecting_client : WsClientConfig → WsClient
new_reconnecting_client config = record {
  config = record config {
    initial_backoff = or_default config.initial_backoff (pos 500_000_000);
    max_backoff = or_default config.max_backoff (seconds 30);
  };
  conn = none;
  state = is_disconnected;
  closed = false;
}

-- What the client does that others can see.
pub data WsAct : Type 0 where
  says_connect says_disconnect : Func → WsAct
  says_reconnect : Func → ℕ → WsAct
  says_message : Func → Message → WsAct
  waits : Duration → WsAct
  shuts : ConnId → WsAct

abbrev pub with_state : ConnectionState → WsClient → WsClient
with_state state client = record client { state = state }

abbrev pub shut_acts : Option ConnId → List WsAct
shut_acts none = []
shut_acts (some conn) = shuts conn ∷ []

-- `Close`.
unfoldable pub close_ws : WsClient → WsClient × List WsAct
close_ws client =
    (record client { closed = true; conn = none; state = is_disconnected }, shut_acts client.conn)

-- `Send`, given what `WriteMessage` answers: what is written, if anything is, and the result. A message
-- without a time gets that of the clock.
abbrev stamped : Message → ℕ → Message
stamped message now =
    if nat_beq message.timestamp 0 then record message { timestamp = now } else message

write_payload : Option ConnId → Result Frame → Done → Option Frame × Done
write_payload conn (err e) written = (none, err e)
write_payload none (ok payload) written = (none, err not_connected)
write_payload (some conn) (ok payload) written = (some payload, written)

abbrev send_message : (Message → Result Frame) → WsClient → Message → ℕ → Done → Option Frame × Done
unfolding write_payload
send_message marshal client message now written =
    write_payload client.conn (marshal (stamped message now)) written

-- `nextBackoff`; `scale d` is `time.Duration(float64(d) * multiplier)`.
unfoldable pub next_backoff : (Duration → Duration) → Duration → Duration → Duration
next_backoff scale current maximum =
    let next = if leb_ℤ (scale current) (pos 0) then current else scale current in
    if ltb_ℤ maximum next then maximum else next

-- `sleepContext`, when the wait would end as `woken` says.
unfoldable pub sleep_or_done : Duration → Done → Done
sleep_or_done duration woken = if leb_ℤ duration (pos 0) then ok tt else woken

-- What `ReadMessage` returns.
pub record WsRead : Type 0 where
  pub is_data : Bool
  pub payload : Frame

-- One turn of the loop of `Connect`: which calls of `Close` and which end of the context fall into it, what
-- the dialler answers, what is read and the error that ends the reading, and how a wait would end.
pub record WsRound : Type 0 where
  pub close_before : Bool
  pub done_before : Bool
  pub dialled : Result ConnId
  pub close_dialling : Bool
  pub received : List WsRead
  pub read_error : Error
  pub close_reading : Bool
  pub done_after : Bool
  pub woken : Done

abbrev pub maybe_close_ws : Bool → WsClient → WsClient × List WsAct
maybe_close_ws true client = close_ws client
maybe_close_ws false client = (client, [])

abbrev pub says : Option Func → (Func → WsAct) → List WsAct
says none act = []
says (some callback) act = act callback ∷ []

-- `MaxRetries > 0 && attempt > MaxRetries`.
abbrev pub gives_up : WsClientConfig → ℕ → Bool
gives_up config attempt = ltb_ℤ (pos 0) config.max_retries && ltb_ℤ config.max_retries (pos attempt)

unfoldable pub after_wait : (Duration → Duration) → WsClientConfig → Duration → ℕ → Done → Outcome
after_wait scale config backoff attempt (ok _) =
    goes_on (next_backoff scale backoff config.max_backoff) attempt
after_wait scale config backoff attempt (err e) = returns (err e)

-- From the test of `MaxRetries` on.
unfoldable pub retry_ws :
    (Duration → Duration) → WsClientConfig → Duration → ℕ → Done → Done → List WsAct × Outcome
retry_ws scale config backoff attempt failure woken =
    if gives_up config attempt then ([], returns failure) else (
      says config.on_reconnect (λ f. says_reconnect f attempt) ++ waits backoff ∷ [],
      after_wait scale config backoff attempt (sleep_or_done backoff woken),
    )

abbrev pub says_decoded : Option Func → Option Message → List WsAct
says_decoded callback none = []
says_decoded callback (some message) = says callback (λ f. says_message f message)

-- `if client.conn == conn { client.conn = nil }`, and the state.
abbrev pub forgotten : Option ConnId → ConnId → Option ConnId
forgotten none conn = none
forgotten (some c) conn = if c == conn then none else some c

abbrev pub forget : ConnId → WsClient → WsClient
forget conn client = record client { conn = forgotten client.conn conn; state = is_disconnected }

abbrev pub count_read : Done → ℕ
count_read (ok _) = 0
count_read (err e) = 1

module _ (decode : Frame → Option Message) where
  -- `readLoop`: a callback for each message, then the error that ends the reading.
  unfoldable pub read_messages : Option Func → List WsRead → Error → List WsAct × Done
  read_messages callback [] e = ([], err e)
  read_messages callback (read ∷ reads) e =
      let rest = read_messages callback reads e in
      let own = if read.is_data then says_decoded callback (decode read.payload) else [] in
      (own ++ rest.0, rest.1)

  -- The turn from the connection on.
  unfoldable pub session_ws :
      (Duration → Duration) → WsClient → ConnId → WsRound → WsClient × List WsAct × Outcome
  session_ws scale client conn round =
      let connected = record client { conn = some conn; state = is_connected } in
      let reading = read_messages client.config.on_message round.received round.read_error in
      let closing = maybe_close_ws round.close_reading connected in
      let left = forget conn closing.0 in
      let acts =
        says client.config.on_connect says_connect
        ++ reading.0
        ++ closing.1
        ++ shuts conn ∷ says client.config.on_disconnect says_disconnect in
      if left.closed || round.done_after
      then (left, acts, returns (ok tt))
      else (let next =
            retry_ws scale left.config left.config.initial_backoff (count_read reading.1) reading.1
              round.woken in
          (left, acts ++ next.0, next.1))

  unfoldable pub dial_ws :
      (Duration → Duration)
      → WsClient
      → Duration
      → ℕ
      → Result ConnId
      → WsRound
      → WsClient × List WsAct × Outcome
  dial_ws scale client backoff attempt (ok conn) round = session_ws scale client conn round
  dial_ws scale client backoff attempt (err e) round =
      let next = retry_ws scale client.config backoff (suc attempt) (err e) round.woken in
      (with_state is_disconnected client, next.0, next.1)

  -- One turn of the loop.
  unfoldable pub turn_ws :
      (Duration → Duration) → WsClient → Duration → ℕ → WsRound → WsClient × List WsAct × Outcome
  turn_ws scale client backoff attempt round =
      let before = maybe_close_ws round.close_before client in
      if before.0.closed || round.done_before
      then (before.0, before.1, returns (ok tt))
      else (let dialling =
            maybe_close_ws round.close_dialling (with_state is_connecting before.0) in
          let next = dial_ws scale dialling.0 backoff attempt round.dialled round in
          (next.0, before.1 ++ dialling.1 ++ next.1, next.2))

  abbrev pub resume_ws :
      WsClient
      → List WsAct
      → (Duration → ℕ → WsClient × List WsAct × Option Done)
      → Outcome
      → WsClient × List WsAct × Option Done
  resume_ws client acts further (returns result) = (client, acts, some result)
  resume_ws client acts further (goes_on backoff attempt) =
      let rest = further backoff attempt in (rest.0, acts ++ rest.1, rest.2)

  unfoldable pub loop_ws :
      (Duration → Duration)
      → WsClient
      → Duration
      → ℕ
      → List WsRound
      → WsClient × List WsAct × Option Done
  loop_ws scale client backoff attempt [] = (client, [], none)
  loop_ws scale client backoff attempt (round ∷ rounds) =
      let next = turn_ws scale client backoff attempt round in
      resume_ws next.0 next.1 (λ later count. loop_ws scale next.0 later count rounds) next.2

  -- `Connect`, through the turns that happen: its result, none while it runs.
  unfoldable pub connect_ws :
      (Duration → Duration) → WsClient → List WsRound → WsClient × List WsAct × Option Done
  connect_ws scale client rounds = loop_ws scale client client.config.initial_backoff 0 rounds
