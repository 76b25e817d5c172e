-- ===== src/Hub/Sending/Fails.antt =====
-- When publishing and broadcasting in go/hub.go succeed, and that a failure changes nothing.
use go_stream.Prelude.{
  ℕ, ◌≡◌, ◌↔◌, ◌⊎◌, inl, inr, refl, Bool, true, not, Option, Text, if_cases, arith,
}
use go_stream.Errors.{ok}
use go_stream.Wire.{Frame}
use go_stream.Hub.{World}
use go_stream.Hub.Members.{Done}
use go_stream.Hub.Sending.{send_to_channel_from_peer, broadcast_frame_from_peer, has_receivers}

-- A success, or the world as it was.
abbrev pub KeepsOnError : World → World × Done → Type 0
KeepsOnError w r = (r.1 ≡ ok tt) ⊎ (r.0 ≡ w)

-- An outcome that is a success exactly where the hub runs.
abbrev pub SucceedsIfRunning : World → World × Done → Type 0
SucceedsIfRunning w r = (r.1 ≡ ok tt) ↔ (w.running ≡ true)

module _ (w : World) (source : Option ℕ) (frame : Frame) (notify : Bool) where
  pub publish-KeepsOnError :
      (channel : Text) → KeepsOnError w (send_to_channel_from_peer w source channel frame notify)
  unfolding send_to_channel_from_peer
  publish-KeepsOnError channel =
      if_cases (KeepsOnError w) (not w.running) (λ _. inr refl)
        (λ _.
          if_cases (KeepsOnError w) (not (has_receivers w channel notify)) (λ _. inr refl)
            (λ _. inl refl))

  pub broadcast-KeepsOnError : KeepsOnError w (broadcast_frame_from_peer w source frame notify)
  unfolding broadcast_frame_from_peer
  broadcast-KeepsOnError = if_cases (KeepsOnError w) (not w.running) (λ _. inr refl) (λ _. inl refl)

  pub publish-SucceedsIfRunning :
      (channel : Text)
      → SucceedsIfRunning w (send_to_channel_from_peer w source channel frame notify)
  unfolding send_to_channel_from_peer
  publish-SucceedsIfRunning channel =
      if_cases (SucceedsIfRunning w) (not w.running)
        (λ stopped. (λ h. absurd (ground arith), λ h. absurd (ground arith)))
        (λ runs.
          if_cases (SucceedsIfRunning w) (not (has_receivers w channel notify))
            (λ _. (λ h. ground arith, λ h. refl)) (λ _. (λ h. ground arith, λ h. refl)))

  pub broadcast-SucceedsIfRunning :
      SucceedsIfRunning w (broadcast_frame_from_peer w source frame notify)
  unfolding broadcast_frame_from_peer
  broadcast-SucceedsIfRunning =
      if_cases (SucceedsIfRunning w) (not w.running)
        (λ stopped. (λ h. absurd (ground arith), λ h. absurd (ground arith)))
        (λ runs. (λ h. ground arith, λ h. refl))
