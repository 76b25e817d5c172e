-- ===== src/Ws/Client/Session.antt =====
-- A session of the reconnecting WebSocket client (go/adapter/ws/reconnect.go), from its dial to the wait
-- after it, is one of the TCP client.
use go_stream.Prelude.{
  ℕ, suc, ◌≡◌, refl, ◌∙◌, ap, ◌||◌, List, ◌∷◌, ◌++◌, Option, some, nat_eq, if◌then◌else◌,
}
use go_stream.Errors.{Result, ok, err}
use go_stream.Wire.{Frame}
use go_stream.Config.{Duration}
use go_stream.Hub.Members.{Done}
use go_stream.Message.{Message}
use go_stream.Reconnect.{
  ConnId, ReconnectConfig, ReconnectingTcp, Act, set_state, set_conn, clear_conn, is_disconnected,
  is_connected, calls_connect, calls_disconnect, closes,
}
use go_stream.Reconnect.Connecting.{
  Outcome, returns, maybe_close, notify, count_failure, retry, read_loop, session, failed, shake,
  dial,
}
use go_stream.Ws.Client.{
  WsClientConfig, WsClient, WsAct, says_connect, says_disconnect, shuts, WsRound, with_state,
  maybe_close_ws, says, retry_ws, forget, count_read, read_messages, session_ws, dial_ws,
}
use go_stream.Ws.Client.Shape.{
  as_config, as_client, as_acts, as_acts-append, says-as, as_state, maybe_close-as, retry-as,
  as_frames, as_round, as_reading, read-as, as_turn, forget-as, finish-as, count-as,
}

module _ (render : Message → Frame) (decode : Frame → Option Message)
    (scale : Duration → Duration) where
  -- A session's end, from what has been read, what a `Close` did and the client that is left.
  ended :
      ReconnectConfig
      → ConnId
      → WsRound
      → List Act × Done
      → List Act
      → ReconnectingTcp
      → ReconnectingTcp × List Act × Outcome
  ended config conn round reading closing left =
      let acts =
        notify config.on_connect calls_connect
        ++ reading.0
        ++ closing
        ++ closes conn ∷ notify config.on_disconnect calls_disconnect in
      if left.closed || round.done_after
      then (left, acts, returns (ok tt))
      else (let next =
            retry scale left.config left.config.initial_backoff (count_failure reading.1 0)
              reading.1 round.woken in
          (left, acts ++ next.0, next.1))

  ended-as :
      (config : WsClientConfig) (conn : ConnId) (round : WsRound) (reading : List WsAct × Done)
      (closing : List WsAct) (left : WsClient)
      → ended
          (as_config config)
          conn
          round
          (as_reading render decode reading)
          (as_acts render closing)
          (as_client left)
        ≡ as_turn render decode (
            let acts =
              says config.on_connect says_connect
              ++ reading.0
              ++ closing
              ++ shuts conn ∷ says config.on_disconnect says_disconnect in
            if left.closed || round.done_after
            then (left, acts, returns (ok tt))
            else (let next =
                  retry_ws scale left.config left.config.initial_backoff
                    (count_read reading.1)
                    reading.1
                    round.woken in
                (left, acts ++ next.0, next.1)))
  unfolding ended
  ended-as config conn round reading closing left =
      ap
        (λ acts.
          if left.closed || round.done_after
          then (as_client left, acts, returns (ok tt))
          else (as_client left, acts ++ next.0, next.1))
        acts-as
      ∙ finish-as render decode (left.closed || round.done_after) left acts
          (retry_ws scale left.config left.config.initial_backoff (count_read reading.1) reading.1
            round.woken)
          next
          (ap
              (λ n.
                retry scale (as_config left.config) left.config.initial_backoff n reading.1
                  round.woken)
              (count-as render decode reading.1)
            ∙ retry-as render scale left.config left.config.initial_backoff (count_read reading.1)
                reading.1 round.woken)
    where
      next : List Act × Outcome
      next =
          retry scale (as_config left.config) left.config.initial_backoff
            (count_failure reading.1 0) reading.1 round.woken

      acts : List WsAct
      acts =
          says config.on_connect says_connect
          ++ reading.0
          ++ closing
          ++ shuts conn ∷ says config.on_disconnect says_disconnect

      acts-as :
          notify config.on_connect calls_connect
            ++ as_acts render reading.0
            ++ as_acts render closing
            ++ closes conn ∷ notify config.on_disconnect calls_disconnect
          ≡ as_acts render acts
      acts-as =
          rw
            (
              as_acts-append render (says config.on_connect says_connect ++ reading.0 ++ closing)
                  (shuts conn ∷ says config.on_disconnect says_disconnect),
              as_acts-append render (says config.on_connect says_connect ++ reading.0) closing,
              as_acts-append render (says config.on_connect says_connect) reading.0,
              says-as render config.on_connect says_connect,
              says-as render config.on_disconnect says_disconnect,
            )
            refl

  session-as :
      (client : WsClient) (conn : ConnId) (round : WsRound)
      → session scale (as_client client) conn (as_round render decode round)
        ≡ as_turn render decode (session_ws decode scale client conn round)
  unfolding session session_ws set_conn ended
  session-as client conn round =
      (λ i.
        ended (as_config client.config) conn round (reading-as i) ((closing-as i).1) (left-as i))
      ∙ ended-as client.config conn round
          (read_messages decode client.config.on_message round.received round.read_error) closing.1
          (forget conn closing.0)
    where
      connected : WsClient
      connected = record client { conn = some conn; state = is_connected }

      closing : WsClient × List WsAct
      closing = maybe_close_ws round.close_reading connected

      reading-as :
          read_loop client.config.on_message
            (as_frames render decode round.received)
            round.read_error
          ≡ as_reading render decode
              (read_messages decode client.config.on_message round.received round.read_error)
      reading-as = read-as render decode client.config.on_message round.received round.read_error

      closing-as : maybe_close round.close_reading (as_client connected) ≡ as_state render closing
      closing-as = maybe_close-as render round.close_reading connected

      left-as :
          set_state is_disconnected
            (clear_conn conn ((maybe_close round.close_reading (as_client connected)).0))
          ≡ as_client (forget conn closing.0)
      left-as =
          ap (λ (c : ReconnectingTcp × List Act). set_state is_disconnected (clear_conn conn c.0))
            closing-as
          ∙ forget-as render decode conn closing.0

  pub dial-as :
      (client : WsClient) (backoff : Duration) (attempt : ℕ) (dialled : Result ConnId)
      (round : WsRound)
      → dial scale (as_client client) backoff attempt dialled (as_round render decode round)
        ≡ as_turn render decode (dial_ws decode scale client backoff attempt dialled round)
  unfolding dial dial_ws shake failed set_state
  dial-as client backoff attempt (ok conn) round = session-as client conn round
  dial-as client backoff attempt (err e) round =
      ap (λ (n : List Act × Outcome). (as_client (with_state is_disconnected client), n.0, n.1))
        (retry-as render scale client.config backoff (suc attempt) (err e) round.woken)
