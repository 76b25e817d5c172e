-- ===== src/Sse/Admission.antt =====
-- Which requests `serve` of go/adapter/sse/sse.go streams to.
use go_stream.Prelude.{
  ℕ, Bool, true, not, List, [], ◌∷◌, Option, some, Text, is_empty, if◌then◌else◌, if_cases, subst,
  Bool-cases, All, ◌≡◌, ◌⊎◌, inl, inr, refl, arith,
}
use go_stream.Errors.{ok, err}
use go_stream.Peer.{Func}
use go_stream.Auth.{Request, AuthResult}
use go_stream.Hub.{World}
use go_stream.Hub.Members.{Done, can_subscribe_peer}
use go_stream.Sse.{
  Status, streaming, check_channels, then_check, after_checks, authenticated, with_request_peer,
  serve,
}

-- A channel that is passed over, or that the peer may have.
abbrev pub IsAdmitted : World → ℕ → Text → Type 0
IsAdmitted w peer channel = (channel ≡ []) ⊎ (can_subscribe_peer w (some peer) channel ≡ ok tt)

is_empty-nil : (s : Text) → is_empty s ≡ true → s ≡ []
is_empty-nil [] h = refl
is_empty-nil (c ∷ s) h = absurd (ground arith)

then_check-ok : (d further : Done) → then_check d further ≡ ok tt → (d ≡ ok tt) × (further ≡ ok tt)
then_check-ok (ok tt) further h = (refl, h)
then_check-ok (err e) further h = absurd (ground arith)

pub check_channels-All :
    (w : World) (peer : ℕ) (channels : List Text)
    → check_channels w peer channels ≡ ok tt
    → All (IsAdmitted w peer) channels
unfolding check_channels
check_channels-All w peer [] h = tt
check_channels-All w peer (channel ∷ channels) h = elim (Bool-cases (is_empty channel)) [
  | inl e ↦ (
    inl (is_empty-nil channel e),
    check_channels-All w peer channels (
        subst
          (λ b.
            (if b
              then check_channels w peer channels
              else then_check (can_subscribe_peer w (some peer) channel)
                  (check_channels w peer channels))
            ≡ ok tt)
          e h),
  )
  | inr e ↦
      (let both =
          then_check-ok (can_subscribe_peer w (some peer) channel) (check_channels w peer channels)
            (subst
              (λ b.
                (if b
                  then check_channels w peer channels
                  else then_check (can_subscribe_peer w (some peer) channel)
                      (check_channels w peer channels))
                ≡ ok tt)
              e h) in
        (inr both.0, check_channels-All w peer channels both.1))
]

-- The stream starts only on a running hub, after every check.
after_checks-streaming :
    (w : World) (peer : ℕ) (channels : List Text) (checks : Done)
    → (after_checks w peer channels checks).1 ≡ streaming
    → (checks ≡ ok tt) × (w.running ≡ true)
unfolding after_checks
after_checks-streaming w peer channels (err e) = λ h. absurd (ground arith)
after_checks-streaming w peer channels (ok tt) =
    if_cases (λ (r : World × Status). r.1 ≡ streaming → (ok tt ≡ ok tt) × (w.running ≡ true))
      (not w.running) (λ e h. absurd (ground arith)) (λ e h. (refl, ground arith))

-- A request is answered with a stream only where the authenticator has accepted it, the hub runs, and
-- the hub admits the new peer to every channel that the request names.
pub serve-admission :
    (w : World) (authenticator : Option (Request → AuthResult)) (request : Request) (flushes : Bool)
    (channels : List Text) (peer : ℕ) (uuid : Text) (hook : Func)
    → (serve w authenticator request flushes channels peer uuid hook).1 ≡ streaming
    → let result = authenticated authenticator request in
      (result.valid ≡ true)
      × (w.running ≡ true)
      × All (IsAdmitted (with_request_peer w peer uuid result hook) peer) channels
unfolding serve
serve-admission w authenticator request flushes channels peer uuid hook =
    if_cases P (not result.valid) (λ e h. absurd (ground arith))
      (λ e.
        if_cases P (not flushes) (λ f h. absurd (ground arith))
          (λ f h.
            let started =
              after_checks-streaming made peer channels (check_channels made peer channels) h in
            (ground arith, started.1, check_channels-All made peer channels started.0)))
  where
    result : AuthResult
    result = authenticated authenticator request

    made : World
    made = with_request_peer w peer uuid result hook

    P : World × Status → Type 0
    P r =
        r.1 ≡ streaming
        → (result.valid ≡ true) × (w.running ≡ true) × All (IsAdmitted made peer) channels
