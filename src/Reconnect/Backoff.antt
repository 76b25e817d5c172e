-- ===== src/Reconnect/Backoff.antt =====
-- The waits of `Connect` in go/adapter/tcp/reconnect.go stay within the configured backoff.
use go_stream.Prelude.{
  ℕ, Bool, true, false, List, [], ◌∷◌, Option, none, some, All, All-append, if◌then◌else◌, if_cases,
  arith, ◌≡◌, ◌⊎◌, inr, refl, Text,
}
use go_stream.Prelude.Int.{pos, ◌<ℤ◌, ◌≤ℤ◌, leb_ℤ, ltb_ℤ}
use go_stream.Errors.{Error, Result}
use go_stream.Wire.{Frame}
use go_stream.Peer.{Func}
use go_stream.Config.{Duration}
use go_stream.Reconnect.{
  ConnId, ReconnectConfig, ReconnectingTcp, Act, clear_conn, close_client, next_tcp_backoff, sleeps,
  calls_message, close_acts, is_conn,
}
use go_stream.Reconnect.Connecting.{
  Outcome, returns, goes_on, maybe_close, notify, read_loop, resume,
}

-- A backoff between one and the larger of the initial and the greatest one.
abbrev pub InRange : ReconnectConfig → Duration → Type 0
InRange config d = (pos 0 <ℤ d) × ((d ≤ℤ config.initial_backoff) ⊎ (d ≤ℤ config.max_backoff))

-- An act that, if it is a wait, is one in range.
abbrev pub Waits : ReconnectConfig → Act → Type 0
Waits config (sleeps d) = InRange config d
Waits config _ = Unit

pub next-InRange :
    (scale : Duration → Duration) (config : ReconnectConfig) (d : Duration)
    → pos 0 <ℤ config.max_backoff
    → InRange config d
    → InRange config (next_tcp_backoff scale d config.max_backoff)
unfolding next_tcp_backoff
next-InRange scale config d m h =
    if_cases (InRange config) (ltb_ℤ config.max_backoff next) (λ e. (m, inr (omega arith)))
      (λ e. (
        if_cases (λ x. pos 0 <ℤ x) (leb_ℤ (scale d) (pos 0)) (λ f. h.0) (λ f. ground arith),
        inr (ground arith),
      ))
  where
    next : Duration
    next = if leb_ℤ (scale d) (pos 0) then d else scale d

-- What a turn leaves: the configuration it found, waits in range, and a next backoff in range.
abbrev pub Goes : ReconnectConfig → Outcome → Type 0
Goes config (returns result) = Unit
Goes config (goes_on d attempt) = InRange config d

abbrev pub Turned : ReconnectConfig → ReconnectingTcp × List Act × Outcome → Type 0
Turned config (client, acts, outcome) =
    (client.config ≡ config) × All (Waits config) acts × Goes config outcome

pub notify-Waits :
    (config : ReconnectConfig) (callback : Option Func) (act : Func → Act)
    → ((f : Func) → Waits config (act f))
    → All (Waits config) (notify callback act)
notify-Waits config none act h = tt
notify-Waits config (some f) act h = (h f, tt)

pub maybe_close-keeps :
    (config : ReconnectConfig) (b : Bool) (client : ReconnectingTcp)
    → ((maybe_close b client).0.config ≡ client.config)
      × All (Waits config) (maybe_close b client).1
unfolding close_client
maybe_close-keeps config true client = (refl, closed client.conn)
  where
    closed : (conn : Option ConnId) → All (Waits config) (close_acts conn)
    closed none = tt
    closed (some c) = (tt, tt)
maybe_close-keeps config false client = (refl, tt)

pub clear_conn-config :
    (conn : ConnId) (client : ReconnectingTcp) → (clear_conn conn client).config ≡ client.config
unfolding clear_conn
clear_conn-config conn client =
    if_cases (λ (c : ReconnectingTcp). c.config ≡ client.config) (is_conn client.conn conn)
      (λ e. refl) (λ e. refl)

pub read_loop-Waits :
    (config : ReconnectConfig) (callback : Option Func) (frames : List (Text × Frame)) (e : Error)
    → All (Waits config) (read_loop callback frames e).0
unfolding read_loop
read_loop-Waits config callback [] e = tt
read_loop-Waits config callback ((channel, frame) ∷ frames) e =
    All-append (Waits config) (notify callback (λ f. calls_message f channel frame)) _
      (notify-Waits config callback (λ f. calls_message f channel frame) (λ f. tt))
      (read_loop-Waits config callback frames e)

pub resume-Waits :
    (config : ReconnectConfig) (client : ReconnectingTcp)
    (further : Duration → ℕ → ReconnectingTcp × List Act × Option (Result (Unit {0})))
    (acts : List Act) (outcome : Outcome)
    → All (Waits config) acts
    → Goes config outcome
    → ((d : Duration) (n : ℕ) → InRange config d → All (Waits config) (further d n).1)
    → All (Waits config) (resume client acts further outcome).1
resume-Waits config client further acts (returns result) a g f = a
resume-Waits config client further acts (goes_on d n) a g f =
    All-append (Waits config) acts _ a (f d n g)
