-- ===== src/Ws/Client/Laws.antt =====
-- What the reconnecting WebSocket client (go/adapter/ws/reconnect.go) inherits from the TCP client: its
-- waits, and when it gives up.
use go_stream.Prelude.{
  ◌≡◌, ◌<◌, refl, sym, ◌∙◌, ap, subst, false, List, [], ◌∷◌, ◌++◌, map, length, Option, none, some,
  All, arith, inl,
}
use go_stream.Prelude.Int.{pos, ◌≤ℤ◌}
use go_stream.Errors.{Error, ok, err}
use go_stream.Wire.{Frame}
use go_stream.Config.{Duration}
use go_stream.Hub.Members.{Done}
use go_stream.Message.{Message}
use go_stream.Reconnect.{ReconnectingTcp, Act}
use go_stream.Reconnect.Connecting.{connect}
use go_stream.Reconnect.Backoff.{InRange, Waits}
use go_stream.Reconnect.Waiting.{connect_from-Waits, or_default_positive}
use go_stream.Reconnect.GivesUp.{failing, connect-gives_up}
use go_stream.Ws.Client.{
  WsClientConfig, WsClient, WsAct, says_connect, says_disconnect, says_reconnect, says_message,
  waits, shuts, WsRound, new_reconnecting_client, connect_ws,
}
use go_stream.Ws.Client.Shape.{as_config, as_client, as_acts}
use go_stream.Ws.Client.AsTcp.{as_rounds, connect_ws-as_tcp}

-- An act that, if it is a wait, is positive and no longer than the longer of the two configured backoffs.
abbrev pub WaitsWithin : WsClientConfig → WsAct → Type 0
WaitsWithin config (waits d) = InRange (as_config config) d
WaitsWithin config _ = Unit

-- Messages are not looked at.
abbrev blank : Message → Frame
blank message = []

as_acts-Waits :
    (config : WsClientConfig) (acts : List WsAct)
    → All (Waits (as_config config)) (as_acts blank acts)
    → All (WaitsWithin config) acts
as_acts-Waits config [] h = tt
as_acts-Waits config (says_connect f ∷ acts) h = (tt, as_acts-Waits config acts h.1)
as_acts-Waits config (says_disconnect f ∷ acts) h = (tt, as_acts-Waits config acts h.1)
as_acts-Waits config (says_reconnect f n ∷ acts) h = (tt, as_acts-Waits config acts h.1)
as_acts-Waits config (says_message f m ∷ acts) h = (tt, as_acts-Waits config acts h.1)
as_acts-Waits config (waits d ∷ acts) h = (h.0, as_acts-Waits config acts h.1)
as_acts-Waits config (shuts conn ∷ acts) h = (tt, as_acts-Waits config acts h.1)

-- With an initial and a greatest backoff that are unset or positive, every wait of a new client's
-- `Connect` is positive, and not longer than the longer of the two, whatever the network does, however
-- long `Connect` runs, and whatever the multiplier makes of a backoff.
pub connect_ws-Waits :
    (decode : Frame → Option Message) (scale : Duration → Duration) (config : WsClientConfig)
    (rounds : List WsRound)
    → pos 0 ≤ℤ config.initial_backoff
    → pos 0 ≤ℤ config.max_backoff
    → let client = new_reconnecting_client config in
      All (WaitsWithin client.config) (connect_ws decode scale client rounds).1
unfolding new_reconnecting_client connect
connect_ws-Waits decode scale config rounds i m = as_acts-Waits client.config _ (
    subst
      (λ (r : ReconnectingTcp × List Act × Option Done). All (Waits (as_config client.config)) r.1)
      (connect_ws-as_tcp blank decode scale client rounds)
      (connect_from-Waits scale (as_config client.config)
        (or_default_positive config.initial_backoff 500_000_000 i (omega arith))
        (or_default_positive config.max_backoff 30_000_000_000 m (omega arith))
        (as_rounds blank decode scale rounds) (as_client client) client.config.initial_backoff 0
        refl
        (
          or_default_positive config.initial_backoff 500_000_000 i (omega arith),
          inl (omega arith),
        )))
  where
    client : WsClient
    client = new_reconnecting_client config

-- A turn in which the dial fails, and nothing else happens.
abbrev pub failing_dial : Error → WsRound
failing_dial e = record {
  close_before = false;
  done_before = false;
  dialled = err e;
  close_dialling = false;
  received = [];
  read_error = e;
  close_reading = false;
  done_after = false;
  woken = ok tt;
}

module _ (decode : Frame → Option Message) (scale : Duration → Duration) where
  failing_dials-as :
      (errors : List Error)
      → as_rounds blank decode scale (map failing_dial errors) ≡ map failing errors
  failing_dials-as [] = refl
  failing_dials-as (e ∷ errors) = ap (◌∷◌ (failing e)) (failing_dials-as errors)

  result-as :
      (client : WsClient) (errors : List Error)
      → (connect_ws decode scale client (map failing_dial errors)).2
        ≡ (connect scale (as_client client) (map failing errors)).2
  result-as client errors =
      ap (λ (r : ReconnectingTcp × List Act × Option Done). r.2)
        (sym (connect_ws-as_tcp blank decode scale client (map failing_dial errors)))
      ∙ ap (λ rounds. (connect scale (as_client client) rounds).2) (failing_dials-as errors)

-- With `MaxRetries` positive, a client that is not closed, whose dials all fail and whose waits all run
-- out is still trying after that many failures, and `Connect` returns the error of the next one.
pub connect_ws-gives_up :
    (decode : Frame → Option Message) (scale : Duration → Duration) (client : WsClient)
    (errors : List Error) (e : Error)
    → client.closed ≡ false
    → client.config.max_retries ≡ pos (length errors)
    → 0 < length errors
    → ((connect_ws decode scale client (map failing_dial errors)).2 ≡ none)
      × ((connect_ws decode scale client (map failing_dial (errors ++ e ∷ []))).2 ≡ some (err e))
connect_ws-gives_up decode scale client errors e c r h =
    let both = connect-gives_up scale (as_client client) errors e c r h in
    (
      result-as decode scale client errors ∙ both.0,
      result-as decode scale client (errors ++ e ∷ []) ∙ both.1,
    )
