-- ===== src/Reconnect/GivesUp.antt =====
-- When `Connect` of go/adapter/tcp/reconnect.go gives up.
use go_stream.Prelude.{
  true_ne_false, ℕ, suc, true, false, List, [], ◌∷◌, ◌++◌, map, length, none, some, if_cases, arith,
  ◌≡◌, ◌≤◌, ◌<◌, ◌+◌, refl, ◌&&◌, ◌||◌, ap, sym, ◌∙◌, subst,
}
use go_stream.Prelude.Int.{pos, ltb_ℤ}
use go_stream.Errors.{Error, ok, err}
use go_stream.Config.{Duration}
use go_stream.Reconnect.{
  ReconnectConfig, ReconnectingTcp, Act, set_state, next_tcp_backoff, sleep_context, is_connecting,
}
use go_stream.Reconnect.Connecting.{
  Round, Outcome, returns, goes_on, is_exhausted, after_sleep, retry, failed, dial, turn, resume,
  connect_from, connect,
}

-- A turn in which the dial fails, and nothing else happens.
abbrev pub failing : Error → Round
failing e = record {
  close_before = false;
  done_before = false;
  dialled = err e;
  close_dialling = false;
  shaken = ok tt;
  received = [];
  read_error = e;
  close_reading = false;
  done_after = false;
  woken = ok tt;
}

slept : (d : Duration) → sleep_context d (ok tt) ≡ ok tt
unfolding sleep_context
slept d = if_cases (λ r. r ≡ ok tt) _ (λ e. refl) (λ e. refl)

module _ (scale : Duration → Duration) (k : ℕ) (positive : 0 < k) where
  exhausted :
      (config : ReconnectConfig) (n : ℕ)
      → config.max_retries ≡ pos k
      → k < n
      → is_exhausted config n ≡ true
  exhausted config n r h =
      subst (λ m. (ltb_ℤ (pos 0) m && ltb_ℤ m (pos n)) ≡ true) (sym r) (ground arith)

  not_exhausted :
      (config : ReconnectConfig) (n : ℕ)
      → config.max_retries ≡ pos k
      → n ≤ k
      → is_exhausted config n ≡ false
  not_exhausted config n r h =
      subst (λ m. (ltb_ℤ (pos 0) m && ltb_ℤ m (pos n)) ≡ false) (sym r) (ground arith)

  -- A turn that fails to dial is `failed`'s, on a client that is not closed.
  failing-turn :
      (client : ReconnectingTcp) (backoff : Duration) (attempt : ℕ) (e : Error)
      → client.closed ≡ false
      → turn scale client backoff attempt (failing e)
        ≡ failed scale (set_state is_connecting client) backoff attempt e (failing e)
  unfolding turn dial
  failing-turn client backoff attempt e c =
      if_cases
        (λ x. x ≡ failed scale (set_state is_connecting client) backoff attempt e (failing e))
        (client.closed || false) (λ q. absurd (ground arith)) (λ q. refl)

  failing-last :
      (client : ReconnectingTcp) (backoff : Duration) (attempt : ℕ) (e : Error)
      → client.config.max_retries ≡ pos k
      → k ≤ attempt
      → (failed scale client backoff attempt e (failing e)).2 ≡ returns (err e)
  unfolding failed retry set_state
  failing-last client backoff attempt e r h =
      if_cases (λ (x : List Act × Outcome). x.1 ≡ returns (err e))
        (is_exhausted client.config (suc attempt)) (λ q. refl)
        (λ q.
          absurd (true_ne_false (sym (exhausted client.config (suc attempt) r (omega arith)) ∙ q)))

  failing-next :
      (client : ReconnectingTcp) (backoff : Duration) (attempt : ℕ) (e : Error)
      → client.config.max_retries ≡ pos k
      → attempt < k
      → (failed scale client backoff attempt e (failing e)).2
        ≡ goes_on (next_tcp_backoff scale backoff client.config.max_backoff) (suc attempt)
  unfolding failed retry set_state after_sleep
  failing-next client backoff attempt e r h =
      if_cases
        (λ (x : List Act × Outcome).
          x.1 ≡ goes_on (next_tcp_backoff scale backoff client.config.max_backoff) (suc attempt))
        (is_exhausted client.config (suc attempt))
        (λ q.
          absurd
            (true_ne_false (sym q ∙ not_exhausted client.config (suc attempt) r (omega arith))))
        (λ q. ap (after_sleep scale client.config backoff (suc attempt)) (slept backoff))

  -- A failing turn keeps what the loop reads of the client.
  failing-closed :
      (client : ReconnectingTcp) (backoff : Duration) (attempt : ℕ) (e : Error)
      → client.closed ≡ false
      → (turn scale client backoff attempt (failing e)).0.closed ≡ false
  unfolding failed set_state
  failing-closed client backoff attempt e c =
      ap (λ (x : ReconnectingTcp × List Act × Outcome). x.0.closed)
        (failing-turn client backoff attempt e c)
      ∙ c

  failing-config :
      (client : ReconnectingTcp) (backoff : Duration) (attempt : ℕ) (e : Error)
      → client.closed ≡ false
      → (turn scale client backoff attempt (failing e)).0.config ≡ client.config
  unfolding failed set_state
  failing-config client backoff attempt e c =
      ap (λ (x : ReconnectingTcp × List Act × Outcome). x.0.config)
        (failing-turn client backoff attempt e c)

  failing-outcome :
      (client : ReconnectingTcp) (backoff : Duration) (attempt : ℕ) (e : Error)
      → client.closed ≡ false
      → (turn scale client backoff attempt (failing e)).2
        ≡ (failed scale (set_state is_connecting client) backoff attempt e (failing e)).2
  failing-outcome client backoff attempt e c =
      ap (λ (x : ReconnectingTcp × List Act × Outcome). x.2)
        (failing-turn client backoff attempt e c)

  -- The loop through failing turns, from `attempt` failures on.
  failing-loop :
      (errors : List Error) (e : Error) (client : ReconnectingTcp) (backoff : Duration)
      (attempt : ℕ)
      → client.closed ≡ false
      → client.config.max_retries ≡ pos k
      → attempt + length errors ≡ k
      → ((connect_from scale client backoff attempt (map failing errors)).2 ≡ none)
        × ((connect_from scale client backoff attempt (map failing (errors ++ e ∷ []))).2
            ≡ some (err e))
  unfolding connect_from set_state
  failing-loop [] e client backoff attempt c r h = (
    refl,
    ap
        (λ o.
          (resume (turn scale client backoff attempt (failing e)).0
            (turn scale client backoff attempt (failing e)).1
            (λ later count. ((turn scale client backoff attempt (failing e)).0, [], none)) o).2)
        (failing-outcome client backoff attempt e c
          ∙ failing-last (set_state is_connecting client) backoff attempt e r (omega arith)),
  )
  failing-loop (f ∷ errors) e client backoff attempt c r h =
      let next = turn scale client backoff attempt (failing f) in
      let further =
        failing-loop errors e next.0 (next_tcp_backoff scale backoff client.config.max_backoff)
          (suc attempt) (failing-closed client backoff attempt f c)
          (ap (λ (g : ReconnectConfig). g.max_retries) (failing-config client backoff attempt f c)
            ∙ r)
          (omega arith) in
      (goes (map failing errors) ∙ further.0, goes (map failing (errors ++ e ∷ [])) ∙ further.1)
    where
      goes :
          (rounds : List Round)
          → let next = turn scale client backoff attempt (failing f) in
            (resume next.0 next.1 (λ d n. connect_from scale next.0 d n rounds) next.2).2
            ≡ (connect_from scale next.0
                (next_tcp_backoff scale backoff client.config.max_backoff)
                (suc attempt)
                rounds).2
      goes rounds =
          let next = turn scale client backoff attempt (failing f) in
          ap (λ o. (resume next.0 next.1 (λ d n. connect_from scale next.0 d n rounds) o).2)
            (failing-outcome client backoff attempt f c
              ∙ failing-next (set_state is_connecting client) backoff attempt f r (omega arith))

-- With `MaxRetries` positive, a client that is not closed, whose dials all fail and whose waits all run
-- out is still trying after that many failures, and `Connect` returns the error of the next one.
pub connect-gives_up :
    (scale : Duration → Duration) (client : ReconnectingTcp) (errors : List Error) (e : Error)
    → client.closed ≡ false
    → client.config.max_retries ≡ pos (length errors)
    → 0 < length errors
    → ((connect scale client (map failing errors)).2 ≡ none)
      × ((connect scale client (map failing (errors ++ e ∷ []))).2 ≡ some (err e))
unfolding connect
connect-gives_up scale client errors e c r h =
    failing-loop scale (length errors) h errors e client client.config.initial_backoff 0 c r
      (omega arith)
