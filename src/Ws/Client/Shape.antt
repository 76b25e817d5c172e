-- ===== src/Ws/Client/Shape.antt =====
-- The reconnecting WebSocket client (go/adapter/ws/reconnect.go) read as the reconnecting TCP client
-- (go/adapter/tcp/reconnect.go) without a handshake: its state, its acts, its rounds, and the parts of a
-- turn.
use go_stream.Prelude.{
  ℕ, ◌≡◌, refl, sym, ◌∙◌, ap, Bool, true, false, List, [], ◌∷◌, ◌++◌, Option, none, some, Text,
  nat_eq, ◌==◌, if◌then◌else◌,
}
use go_stream.Errors.{Error, ok, err}
use go_stream.Wire.{Frame}
use go_stream.Peer.{Func}
use go_stream.Config.{Duration}
use go_stream.Hub.Members.{Done}
use go_stream.Message.{Message}
use go_stream.Reconnect.{
  ConnId, ReconnectConfig, ReconnectingTcp, Act, set_state, clear_conn, close_client,
  next_tcp_backoff, sleep_context, is_disconnected, calls_connect, calls_disconnect,
  calls_reconnect, calls_message, sleeps, closes, close_acts,
}
use go_stream.Reconnect.Connecting.{
  Round, Outcome, returns, maybe_close, notify, count_failure, after_sleep, retry, read_loop,
}
use go_stream.Ws.Client.{
  WsClientConfig, WsClient, WsAct, says_connect, says_disconnect, says_reconnect, says_message,
  waits, shuts, WsRead, WsRound, shut_acts, close_ws, next_backoff, sleep_or_done, maybe_close_ws,
  says, gives_up, after_wait, retry_ws, says_decoded, forget, forgotten, count_read, read_messages,
}

-- The client as a TCP client without a handshake.
abbrev pub as_config : WsClientConfig → ReconnectConfig
as_config config = record {
  handshake_frame = [];
  handshake_channel = [];
  initial_backoff = config.initial_backoff;
  max_backoff = config.max_backoff;
  max_retries = config.max_retries;
  on_connect = config.on_connect;
  on_disconnect = config.on_disconnect;
  on_reconnect = config.on_reconnect;
  on_message = config.on_message;
}

abbrev pub as_client : WsClient → ReconnectingTcp
as_client client = record {
  config = as_config client.config;
  conn = client.conn;
  state = client.state;
  closed = client.closed;
}

-- A message read as a frame on its channel, by any rendering of messages.
module _ (render : Message → Frame) where
  abbrev pub as_act : WsAct → Act
  as_act (says_connect f) = calls_connect f
  as_act (says_disconnect f) = calls_disconnect f
  as_act (says_reconnect f attempt) = calls_reconnect f attempt
  as_act (says_message f message) = calls_message f message.channel (render message)
  as_act (waits d) = sleeps d
  as_act (shuts conn) = closes conn

  abbrev pub as_acts : List WsAct → List Act
  as_acts [] = []
  as_acts (act ∷ acts) = as_act act ∷ as_acts acts

  pub as_acts-append : (xs ys : List WsAct) → as_acts (xs ++ ys) ≡ as_acts xs ++ as_acts ys
  as_acts-append [] ys = refl
  as_acts-append (x ∷ xs) ys = ap (◌∷◌ (as_act x)) (as_acts-append xs ys)

  pub says-as :
      (callback : Option Func) (act : Func → WsAct)
      → as_acts (says callback act) ≡ notify callback (λ f. as_act (act f))
  says-as none act = refl
  says-as (some f) act = refl

  shut_acts-as : (conn : Option ConnId) → as_acts (shut_acts conn) ≡ close_acts conn
  shut_acts-as none = refl
  shut_acts-as (some conn) = refl

  abbrev pub as_state : WsClient × List WsAct → ReconnectingTcp × List Act
  as_state (client, acts) = (as_client client, as_acts acts)

  pub maybe_close-as :
      (b : Bool) (client : WsClient)
      → maybe_close b (as_client client) ≡ as_state (maybe_close_ws b client)
  unfolding close_ws close_client
  maybe_close-as true client = λ i. (
    record (as_client client) { closed = true; conn = none; state = is_disconnected },
    sym (shut_acts-as client.conn) i,
  )
  maybe_close-as false client = refl

  abbrev pub as_waiting : List WsAct × Outcome → List Act × Outcome
  as_waiting (acts, outcome) = (as_acts acts, outcome)

  after_wait-as :
      (scale : Duration → Duration) (config : WsClientConfig) (backoff : Duration) (attempt : ℕ)
      (slept : Done)
      → after_sleep scale (as_config config) backoff attempt slept
        ≡ after_wait scale config backoff attempt slept
  unfolding after_sleep after_wait next_backoff next_tcp_backoff
  after_wait-as scale config backoff attempt (ok u) = refl
  after_wait-as scale config backoff attempt (err e) = refl

  pub retry-as :
      (scale : Duration → Duration) (config : WsClientConfig) (backoff : Duration) (attempt : ℕ)
      (failure woken : Done)
      → retry scale (as_config config) backoff attempt failure woken
        ≡ as_waiting (retry_ws scale config backoff attempt failure woken)
  unfolding retry retry_ws sleep_context sleep_or_done
  retry-as scale config backoff attempt failure woken = split (gives_up config attempt)
    where
      acts : List WsAct
      acts = says config.on_reconnect (λ f. says_reconnect f attempt) ++ waits backoff ∷ []

      acts-as :
          notify config.on_reconnect (λ f. calls_reconnect f attempt) ++ sleeps backoff ∷ []
          ≡ as_acts acts
      acts-as = sym (
          as_acts-append (says config.on_reconnect (λ f. says_reconnect f attempt))
            (waits backoff ∷ [])
          ∙ ap (λ xs. xs ++ sleeps backoff ∷ [])
              (says-as config.on_reconnect (λ f. says_reconnect f attempt)))

      split :
          (b : Bool)
          → (if b then ([], returns failure) else (
            notify config.on_reconnect (λ f. calls_reconnect f attempt) ++ sleeps backoff ∷ [],
            after_sleep scale (as_config config) backoff attempt (sleep_context backoff woken),
          ))
            ≡ as_waiting (
                if b
                then ([], returns failure)
                else (acts, after_wait scale config backoff attempt (sleep_or_done backoff woken)))
      split true = refl
      split false = λ i.
          (acts-as i, after_wait-as scale config backoff attempt (sleep_or_done backoff woken) i)

  abbrev entered : Option Message → List (Text × Frame) → List (Text × Frame)
  entered none frames = frames
  entered (some message) frames = (message.channel, render message) ∷ frames

  module _ (decode : Frame → Option Message) where
    abbrev pub as_frames : List WsRead → List (Text × Frame)
    as_frames [] = []
    as_frames (read ∷ reads) =
        entered (if read.is_data then decode read.payload else none) (as_frames reads)

    -- The same turn of a TCP client.
    abbrev pub as_round : WsRound → Round
    as_round round = record {
      close_before = round.close_before;
      done_before = round.done_before;
      dialled = round.dialled;
      close_dialling = round.close_dialling;
      shaken = ok tt;
      received = as_frames round.received;
      read_error = round.read_error;
      close_reading = round.close_reading;
      done_after = round.done_after;
      woken = round.woken;
    }

    abbrev pub as_reading : List WsAct × Done → List Act × Done
    as_reading (acts, result) = (as_acts acts, result)

    pub read-as :
        (callback : Option Func) (reads : List WsRead) (e : Error)
        → read_loop callback (as_frames reads) e
          ≡ as_reading (read_messages decode callback reads e)
    unfolding read_loop read_messages
    read-as callback [] e = refl
    read-as callback (read ∷ reads) e =
        split read.is_data (decode read.payload) (read-as callback reads e)
      where
        rest : List WsAct × Done
        rest = read_messages decode callback reads e

        split :
            (b : Bool) (message : Option Message)
            → read_loop callback (as_frames reads) e ≡ as_reading rest
            → read_loop callback (entered (if b then message else none) (as_frames reads)) e
              ≡ as_reading ((if b then says_decoded callback message else []) ++ rest.0, rest.1)
        split false message h = h
        split true none h = h
        split true (some message) h = λ i. (
          ((λ j. notify callback (λ f. calls_message f message.channel (render message)) ++ (h j).0)
                ∙ sym (
                    as_acts-append (says callback (λ f. says_message f message)) rest.0
                    ∙ ap (λ xs. xs ++ as_acts rest.0)
                        (says-as callback (λ f. says_message f message))))
              i,
          (h i).1,
        )

    abbrev pub as_turn : WsClient × List WsAct × Outcome → ReconnectingTcp × List Act × Outcome
    as_turn (client, acts, outcome) = (as_client client, as_acts acts, outcome)

    pub forget-as :
        (conn : ConnId) (client : WsClient)
        → set_state is_disconnected (clear_conn conn (as_client client))
          ≡ as_client (forget conn client)
    unfolding set_state clear_conn
    forget-as conn client = split client.conn
      where
        with_conn : Option ConnId → ReconnectingTcp
        with_conn c = record (as_client client) { conn = c }

        split :
            (c : Option ConnId)
            → set_state is_disconnected (clear_conn conn (with_conn c))
              ≡ record (with_conn c) { conn = forgotten c conn; state = is_disconnected }
        split none = refl
        split (some c) = same (c == conn)
          where
            same :
                (b : Bool)
                → set_state is_disconnected (
                    if b
                    then record (with_conn (some c)) { conn = none; state = is_disconnected }
                    else with_conn (some c))
                  ≡ record (with_conn (some c)) {
                    conn = if b then none else some c;
                    state = is_disconnected;
                  }
            same true = refl
            same false = refl

    -- The test at the end of a session, on either side.
    pub finish-as :
        (b : Bool) (client : WsClient) (acts : List WsAct) (left : List WsAct × Outcome)
        (next : List Act × Outcome)
        → next ≡ as_waiting left
        → (if b
            then (as_client client, as_acts acts, returns (ok tt))
            else (as_client client, as_acts acts ++ next.0, next.1))
          ≡ as_turn
              (if b then (client, acts, returns (ok tt)) else (client, acts ++ left.0, left.1))
    finish-as true client acts left next h = refl
    finish-as false client acts left next h = λ i. (
      as_client client,
      (ap (λ (n : List Act × Outcome). as_acts acts ++ n.0) h ∙ sym (as_acts-append acts left.0)) i,
      (h i).1,
    )

    pub count-as : (result : Done) → count_failure result 0 ≡ count_read result
    count-as (ok u) = refl
    count-as (err e) = refl
