-- ===== src/Ws/Client/AsTcp.antt =====
-- The reconnecting WebSocket client (go/adapter/ws/reconnect.go) runs as the reconnecting TCP client
-- (go/adapter/tcp/reconnect.go) does whose handshakes succeed and that reads the decoded messages.
use go_stream.Prelude.{
  ℕ, ◌≡◌, refl, sym, ◌∙◌, ap, Bool, true, false, ◌||◌, List, [], ◌∷◌, ◌++◌, Option, nat_eq,
  if◌then◌else◌,
}
use go_stream.Errors.{ok}
use go_stream.Wire.{Frame}
use go_stream.Config.{Duration}
use go_stream.Hub.Members.{Done}
use go_stream.Message.{Message}
use go_stream.Reconnect.{ReconnectingTcp, Act, set_state, is_connecting}
use go_stream.Reconnect.Connecting.{
  Round, Outcome, returns, goes_on, maybe_close, dial, turn, resume, connect_from, connect,
}
use go_stream.Ws.Client.{
  WsClient, WsAct, WsRound, with_state, maybe_close_ws, dial_ws, turn_ws, resume_ws, loop_ws,
  connect_ws,
}
use go_stream.Ws.Client.Shape.{
  as_client, as_acts, as_acts-append, as_state, maybe_close-as, as_round, as_turn,
}
use go_stream.Ws.Client.Session.{dial-as}

module _ (render : Message → Frame) (decode : Frame → Option Message)
    (scale : Duration → Duration) where
  -- The dial, after what happened before it.
  dialling_on :
      Duration
      → ℕ
      → WsRound
      → List Act
      → ReconnectingTcp × List Act
      → ReconnectingTcp × List Act × Outcome
  dialling_on backoff attempt round acts dialling =
      let next =
        dial scale dialling.0 backoff attempt round.dialled (as_round render decode round) in
      (next.0, acts ++ dialling.1 ++ next.1, next.2)

  dialling-as :
      (backoff : Duration) (attempt : ℕ) (round : WsRound) (acts : List WsAct)
      (dialling : WsClient × List WsAct)
      → dialling_on backoff attempt round (as_acts render acts) (as_state render dialling)
        ≡ as_turn render decode (
            let next = dial_ws decode scale dialling.0 backoff attempt round.dialled round in
            (next.0, acts ++ dialling.1 ++ next.1, next.2))
  unfolding dialling_on
  dialling-as backoff attempt round acts dialling =
      ap
        (λ (n : ReconnectingTcp × List Act × Outcome).
          (n.0, as_acts render acts ++ as_acts render dialling.1 ++ n.1, n.2))
        (dial-as render decode scale dialling.0 backoff attempt round.dialled round)
      ∙ ap (λ xs. (as_client next.0, xs, next.2))
          (rw
            (
              as_acts-append render (acts ++ dialling.1) next.1,
              as_acts-append render acts dialling.1,
            )
            refl)
    where
      next : WsClient × List WsAct × Outcome
      next = dial_ws decode scale dialling.0 backoff attempt round.dialled round

  -- A turn, after the `Close` that may come before it.
  begun : Duration → ℕ → WsRound → ReconnectingTcp × List Act → ReconnectingTcp × List Act × Outcome
  unfolding dialling_on
  begun backoff attempt round before =
      if before.0.closed || round.done_before
      then (before.0, before.1, returns (ok tt))
      else dialling_on backoff attempt round before.1
          (maybe_close round.close_dialling (set_state is_connecting before.0))

  begun-as :
      (backoff : Duration) (attempt : ℕ) (round : WsRound) (before : WsClient × List WsAct)
      → begun backoff attempt round (as_state render before)
        ≡ as_turn render decode (
            if before.0.closed || round.done_before
            then (before.0, before.1, returns (ok tt))
            else (let dialling =
                  maybe_close_ws round.close_dialling (with_state is_connecting before.0) in
                let next = dial_ws decode scale dialling.0 backoff attempt round.dialled round in
                (next.0, before.1 ++ dialling.1 ++ next.1, next.2)))
  unfolding begun set_state
  begun-as backoff attempt round before = split (before.0.closed || round.done_before)
    where
      dialling : WsClient × List WsAct
      dialling = maybe_close_ws round.close_dialling (with_state is_connecting before.0)

      further : WsClient × List WsAct × Outcome
      further =
          let next = dial_ws decode scale dialling.0 backoff attempt round.dialled round in
          (next.0, before.1 ++ dialling.1 ++ next.1, next.2)

      split :
          (b : Bool)
          → (if b
              then (as_client before.0, as_acts render before.1, returns (ok tt))
              else dialling_on backoff attempt round (as_acts render before.1) (
                  maybe_close round.close_dialling (as_client (with_state is_connecting before.0))))
            ≡ as_turn render decode (if b then (before.0, before.1, returns (ok tt)) else further)
      split true = refl
      split false =
          ap (dialling_on backoff attempt round (as_acts render before.1))
            (maybe_close-as render round.close_dialling (with_state is_connecting before.0))
          ∙ dialling-as backoff attempt round before.1 dialling

  turn-as :
      (client : WsClient) (backoff : Duration) (attempt : ℕ) (round : WsRound)
      → turn scale (as_client client) backoff attempt (as_round render decode round)
        ≡ as_turn render decode (turn_ws decode scale client backoff attempt round)
  unfolding turn turn_ws begun dialling_on
  turn-as client backoff attempt round =
      ap (begun backoff attempt round) (maybe_close-as render round.close_before client)
      ∙ begun-as backoff attempt round (maybe_close_ws round.close_before client)

  abbrev pub as_run : WsClient × List WsAct × Option Done → ReconnectingTcp × List Act × Option Done
  as_run (client, acts, result) = (as_client client, as_acts render acts, result)

  resume-as :
      (client : WsClient) (acts : List WsAct)
      (further : Duration → ℕ → ReconnectingTcp × List Act × Option Done)
      (further_ws : Duration → ℕ → WsClient × List WsAct × Option Done) (outcome : Outcome)
      → ((later : Duration) (count : ℕ) → further later count ≡ as_run (further_ws later count))
      → resume (as_client client) (as_acts render acts) further outcome
        ≡ as_run (resume_ws decode client acts further_ws outcome)
  resume-as client acts further further_ws (returns result) h = refl
  resume-as client acts further further_ws (goes_on later count) h =
      ap (λ (r : ReconnectingTcp × List Act × Option Done). (r.0, as_acts render acts ++ r.1, r.2))
        (h later count)
      ∙ ap (λ xs. (as_client rest.0, xs, rest.2)) (sym (as_acts-append render acts rest.1))
    where
      rest : WsClient × List WsAct × Option Done
      rest = further_ws later count

  abbrev pub as_rounds : List WsRound → List Round
  as_rounds [] = []
  as_rounds (round ∷ rounds) = as_round render decode round ∷ as_rounds rounds

  loop-as :
      (rounds : List WsRound) (client : WsClient) (backoff : Duration) (attempt : ℕ)
      → connect_from scale (as_client client) backoff attempt (as_rounds rounds)
        ≡ as_run (loop_ws decode scale client backoff attempt rounds)
  unfolding connect_from loop_ws
  loop-as [] client backoff attempt = refl
  loop-as (round ∷ rounds) client backoff attempt =
      let next = turn_ws decode scale client backoff attempt round in
      ap
        (λ (n : ReconnectingTcp × List Act × Outcome).
          resume n.0 n.1 (λ later count. connect_from scale n.0 later count (as_rounds rounds)) n.2)
        (turn-as client backoff attempt round)
      ∙ resume-as next.0 next.1
          (λ later count. connect_from scale (as_client next.0) later count (as_rounds rounds))
          (λ later count. loop_ws decode scale next.0 later count rounds) next.2
          (λ later count. loop-as rounds next.0 later count)

-- Turn by turn, with the same dials, closes, waits and ends of the context, `Connect` of the WebSocket
-- client leaves the state, calls the callbacks, waits, closes its connections and returns as `Connect` of
-- a TCP client does whose handshakes succeed, and that reads each decoded message as a frame on the
-- message's channel. What is not data or no message is passed over.
pub connect_ws-as_tcp :
    (render : Message → Frame) (decode : Frame → Option Message) (scale : Duration → Duration)
    (client : WsClient) (rounds : List WsRound)
    → connect scale (as_client client) (as_rounds render decode scale rounds)
      ≡ as_run render decode scale (connect_ws decode scale client rounds)
unfolding connect connect_ws
connect_ws-as_tcp render decode scale client rounds =
    loop-as render decode scale rounds client client.config.initial_backoff 0
