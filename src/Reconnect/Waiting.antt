-- ===== src/Reconnect/Waiting.antt =====
-- The waits of the whole of `Connect` in go/adapter/tcp/reconnect.go, turn by turn.
use go_stream.Prelude.{
  ℕ, suc, List, [], ◌∷◌, ◌++◌, All, All-append, if_cases, arith, ◌≡◌, inl, sym, subst, ◌∙◌, ◌||◌,
  ◌<◌, refl,
}
use go_stream.Prelude.Int.{pos, negsuc, ◌<ℤ◌, ◌≤ℤ◌}
use go_stream.Errors.{Error, Result, ok, err}
use go_stream.Config.{Duration, or_default, seconds}
use go_stream.Reconnect.{
  ConnId, ReconnectConfig, ReconnectingTcp, Act, new_reconnecting_tcp, sleep_context, set_state,
  set_conn, clear_conn, calls_connect, calls_disconnect, calls_reconnect, closes, is_connecting,
  is_disconnected,
}
use go_stream.Reconnect.Connecting.{
  Round, Outcome, maybe_close, notify, is_exhausted, count_failure, after_sleep, retry, read_loop,
  session, failed, shake, dial, turn, connect_from, connect,
}
use go_stream.Reconnect.Backoff.{
  InRange, Waits, Goes, Turned, next-InRange, notify-Waits, maybe_close-keeps, clear_conn-config,
  read_loop-Waits, resume-Waits,
}

module _ (scale : Duration → Duration) (config : ReconnectConfig)
    (i : pos 0 <ℤ config.initial_backoff) (m : pos 0 <ℤ config.max_backoff) where
  after_sleep-Goes :
      (backoff : Duration) (attempt : ℕ) (slept : Result (Unit {0}))
      → InRange config backoff
      → Goes config (after_sleep scale config backoff attempt slept)
  unfolding after_sleep
  after_sleep-Goes backoff attempt (ok u) h = next-InRange scale config backoff m h
  after_sleep-Goes backoff attempt (err e) h = tt

  retry-Turned_at :
      (client : ReconnectingTcp) (backoff : Duration) (attempt : ℕ)
      (failure woken : Result (Unit {0}))
      → client.config ≡ config
      → InRange config backoff
      → let next = retry scale config backoff attempt failure woken in
        Turned config (client, next.0, next.1)
  unfolding retry
  retry-Turned_at client backoff attempt failure woken k h =
      if_cases (λ (next : List Act × Outcome). Turned config (client, next.0, next.1))
        (is_exhausted config attempt) (λ e. (k, tt, tt))
        (λ e. (
          k,
          All-append (Waits config) (notify config.on_reconnect (λ f. calls_reconnect f attempt)) _
              (notify-Waits config config.on_reconnect (λ f. calls_reconnect f attempt) (λ f. tt))
              (h, tt),
          after_sleep-Goes backoff attempt (sleep_context backoff woken) h,
        ))

  retry-Turned :
      (client : ReconnectingTcp) (backoff : Duration) (attempt : ℕ)
      (failure woken : Result (Unit {0}))
      → client.config ≡ config
      → InRange config backoff
      → let next = retry scale client.config backoff attempt failure woken in
        Turned config (client, next.0, next.1)
  retry-Turned client backoff attempt failure woken k h =
      subst
        (λ c.
          let next = retry scale c backoff attempt failure woken in
          Turned config (client, next.0, next.1))
        (sym k) (retry-Turned_at client backoff attempt failure woken k h)

  -- Acts in range may stand before a turn's.
  before-Turned :
      (acts : List Act) (next : ReconnectingTcp × List Act × Outcome)
      → All (Waits config) acts
      → Turned config next
      → Turned config (next.0, acts ++ next.1, next.2)
  before-Turned acts next a t = (t.0, All-append (Waits config) acts next.1 a t.1, t.2)

  failed-Turned :
      (client : ReconnectingTcp) (backoff : Duration) (attempt : ℕ) (e : Error) (round : Round)
      → client.config ≡ config
      → InRange config backoff
      → Turned config (failed scale client backoff attempt e round)
  unfolding failed set_state
  failed-Turned client backoff attempt e round k h =
      retry-Turned (set_state is_disconnected client) backoff (suc attempt) (err e) round.woken k h

  initial-InRange : (c : ReconnectConfig) → c ≡ config → InRange config c.initial_backoff
  initial-InRange c k =
      subst (λ (d : ReconnectConfig). InRange config d.initial_backoff) (sym k)
        (i, inl (omega arith))

  session-Turned :
      (client : ReconnectingTcp) (conn : ConnId) (round : Round)
      → client.config ≡ config
      → Turned config (session scale client conn round)
  unfolding session set_state set_conn
  session-Turned client conn round k =
      if_cases (Turned config) (left.closed || round.done_after) (λ e. (kept, all, tt))
        (λ e.
          before-Turned _ (left, next.0, next.1) all
            (retry-Turned left left.config.initial_backoff (count_failure reading.1 0) reading.1
              round.woken kept (initial-InRange left.config kept)))
    where
      reading : List Act × Result (Unit {0})
      reading = read_loop client.config.on_message round.received round.read_error

      closing : ReconnectingTcp × List Act
      closing = maybe_close round.close_reading (set_conn conn client)

      left : ReconnectingTcp
      left = set_state is_disconnected (clear_conn conn closing.0)

      next : List Act × Outcome
      next =
          retry scale left.config left.config.initial_backoff (count_failure reading.1 0) reading.1
            round.woken

      kept : left.config ≡ config
      kept =
          clear_conn-config conn closing.0
          ∙ (maybe_close-keeps config round.close_reading (set_conn conn client)).0
          ∙ k

      all : All (Waits config) (
          notify client.config.on_connect calls_connect
          ++ reading.0
          ++ closing.1
          ++ closes conn ∷ notify client.config.on_disconnect calls_disconnect)
      all =
          All-append (Waits config) _ _
            (All-append (Waits config) (notify client.config.on_connect calls_connect ++ reading.0)
              _
              (All-append (Waits config) (notify client.config.on_connect calls_connect) _
                (notify-Waits config client.config.on_connect calls_connect (λ f. tt))
                (read_loop-Waits config client.config.on_message round.received round.read_error))
              (maybe_close-keeps config round.close_reading (set_conn conn client)).1)
            (tt, notify-Waits config client.config.on_disconnect calls_disconnect (λ f. tt))

  shake-Turned :
      (client : ReconnectingTcp) (backoff : Duration) (attempt : ℕ) (conn : ConnId)
      (shaken : Result (Unit {0})) (round : Round)
      → client.config ≡ config
      → InRange config backoff
      → Turned config (shake scale client backoff attempt conn shaken round)
  unfolding shake
  shake-Turned client backoff attempt conn (ok u) round k h = session-Turned client conn round k
  shake-Turned client backoff attempt conn (err e) round k h =
      before-Turned (closes conn ∷ []) (failed scale client backoff attempt e round) (tt, tt)
        (failed-Turned client backoff attempt e round k h)

  dial-Turned :
      (client : ReconnectingTcp) (backoff : Duration) (attempt : ℕ) (dialled : Result ConnId)
      (round : Round)
      → client.config ≡ config
      → InRange config backoff
      → Turned config (dial scale client backoff attempt dialled round)
  unfolding dial
  dial-Turned client backoff attempt (ok conn) round k h =
      shake-Turned client backoff attempt conn round.shaken round k h
  dial-Turned client backoff attempt (err e) round k h =
      failed-Turned client backoff attempt e round k h

  turn-Turned :
      (client : ReconnectingTcp) (backoff : Duration) (attempt : ℕ) (round : Round)
      → client.config ≡ config
      → InRange config backoff
      → Turned config (turn scale client backoff attempt round)
  unfolding turn set_state
  turn-Turned client backoff attempt round k h =
      if_cases (Turned config) (before.0.closed || round.done_before) (λ e. (b.0 ∙ k, b.1, tt))
        (λ e.
          before-Turned (before.1 ++ dialling.1) next
            (All-append (Waits config) before.1 dialling.1 b.1 d.1)
            (dial-Turned dialling.0 backoff attempt round.dialled round (d.0 ∙ b.0 ∙ k) h))
    where
      before : ReconnectingTcp × List Act
      before = maybe_close round.close_before client

      dialling : ReconnectingTcp × List Act
      dialling = maybe_close round.close_dialling (set_state is_connecting before.0)

      next : ReconnectingTcp × List Act × Outcome
      next = dial scale dialling.0 backoff attempt round.dialled round

      b : (before.0.config ≡ client.config) × All (Waits config) before.1
      b = maybe_close-keeps config round.close_before client

      d : (dialling.0.config ≡ before.0.config) × All (Waits config) dialling.1
      d = maybe_close-keeps config round.close_dialling (set_state is_connecting before.0)

  pub connect_from-Waits :
      (rounds : List Round) (client : ReconnectingTcp) (backoff : Duration) (attempt : ℕ)
      → client.config ≡ config
      → InRange config backoff
      → All (Waits config) (connect_from scale client backoff attempt rounds).1
  unfolding connect_from
  connect_from-Waits [] client backoff attempt k h = tt
  connect_from-Waits (round ∷ rounds) client backoff attempt k h =
      resume-Waits config next.0 (λ later count. connect_from scale next.0 later count rounds)
        next.1 next.2 t.1 t.2 (λ later count g. connect_from-Waits rounds next.0 later count t.0 g)
    where
      next : ReconnectingTcp × List Act × Outcome
      next = turn scale client backoff attempt round

      t : Turned config next
      t = turn-Turned client backoff attempt round k h

pub or_default_positive :
    (d : Duration) (n : ℕ) → pos 0 ≤ℤ d → 0 < n → pos 0 <ℤ or_default d (pos n)
unfolding or_default
or_default_positive (pos ℕ.zero) n h k = omega arith
or_default_positive (pos (ℕ.suc m)) n h k = omega arith
or_default_positive (negsuc m) n h k = absurd (omega arith)

-- With an initial and a greatest backoff that are unset or positive, every wait of a new client's
-- `Connect` is positive, and not longer than the longer of the two, whatever the network does, however
-- long `Connect` runs, and whatever the multiplier makes of a backoff.
pub connect-Waits :
    (scale : Duration → Duration) (config : ReconnectConfig) (rounds : List Round)
    → pos 0 ≤ℤ config.initial_backoff
    → pos 0 ≤ℤ config.max_backoff
    → let client = new_reconnecting_tcp config in
      All (Waits client.config) (connect scale client rounds).1
unfolding new_reconnecting_tcp connect
connect-Waits scale config rounds i m =
    connect_from-Waits scale (new_reconnecting_tcp config).config
      (or_default_positive config.initial_backoff 1_000_000_000 i (omega arith))
      (or_default_positive config.max_backoff 30_000_000_000 m (omega arith)) rounds
      (new_reconnecting_tcp config) (or_default config.initial_backoff (seconds 1)) 0 refl
      (or_default_positive config.initial_backoff 1_000_000_000 i (omega arith), inl (omega arith))
