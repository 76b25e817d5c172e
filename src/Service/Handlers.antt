-- ===== src/Service/Handlers.antt =====
-- The action handlers of go/service.go: when they succeed, and what their errors leave.
use go_stream.Prelude.{
  ◌≡◌, ◌↔◌, ◌⊎◌, ap, refl, Bool, true, false, Option, none, some, Text, is_empty, if_cases, arith,
  inl, inr,
}
use go_stream.Errors.{Result, ok, err}
use go_stream.Wire.{Frame}
use go_stream.Hub.{World}
use go_stream.Hub.Members.{Done}
use go_stream.Hub.Sending.{send_to_channel, publish}
use go_stream.Hub.Sending.Fails.{
  KeepsOnError, publish-KeepsOnError, broadcast-KeepsOnError, publish-SucceedsIfRunning,
}
use go_stream.Service.{
  Options, frame_bytes, with_bytes, handle_publish, handle_broadcast, handle_send_channel,
}

-- A success, or the hub and its peers as they were.
abbrev pub FailsClean : Option World → Option World × Done → Type 0
FailsClean w r = (r.1 ≡ ok tt) ⊎ (r.0 ≡ w)

with_bytes-FailsClean :
    (w : World) (read : Result Frame) (call : Frame → World × Done)
    → ((frame : Frame) → KeepsOnError w (call frame))
    → FailsClean (some w) (with_bytes w read call)
with_bytes-FailsClean w (err e) call k = inr refl
with_bytes-FailsClean w (ok frame) call k = elim (k frame) [
  | inl success ↦ inl success
  | inr kept ↦ inr (ap some kept)
]

-- Each of the three sending handlers of the service succeeds, or leaves the hub and all its peers as they
-- were, whatever the error.
pub handle-error :
    (w : Option World) (opts : Options)
    → FailsClean w (handle_publish w opts)
      × FailsClean w (handle_broadcast w opts)
      × FailsClean w (handle_send_channel w opts)
unfolding handle_publish handle_broadcast handle_send_channel publish send_to_channel
handle-error none opts = (inr refl, inr refl, inr refl)
handle-error (some w) opts = (
  if_cases (FailsClean (some w)) (is_empty opts.channel) (λ _. inr refl)
      (λ _.
        with_bytes-FailsClean w (frame_bytes opts.frame) _
          (λ frame. publish-KeepsOnError w none frame true opts.channel)),
  with_bytes-FailsClean w (frame_bytes opts.frame) _
      (λ frame. broadcast-KeepsOnError w none frame true),
  if_cases (FailsClean (some w)) (is_empty opts.channel) (λ _. inr refl)
      (λ _.
        with_bytes-FailsClean w (frame_bytes opts.frame) _
          (λ frame. publish-KeepsOnError w none frame true opts.channel)),
)

-- The option holds a `[]byte` or a `string`.
abbrev pub is_frame : Result Frame → Bool
is_frame (ok _) = true
is_frame (err e) = false

with_bytes-ok :
    (w : World) (channel : Text) (read : Result Frame)
    → ((with_bytes w read (λ frame. publish w channel frame)).1 ≡ ok tt)
      ↔ ((is_frame read ≡ true) × (w.running ≡ true))
unfolding publish send_to_channel
with_bytes-ok w channel (err e) = (λ h. absurd (ground arith), λ h. absurd (ground arith))
with_bytes-ok w channel (ok frame) = (
  λ h. (refl, (publish-SucceedsIfRunning w none frame true channel).0 h),
  λ h. (publish-SucceedsIfRunning w none frame true channel).1 (h.1),
)

-- The publish handler succeeds exactly where the service has a hub that runs, the channel is named and
-- the frame is given as bytes or as a string.
pub handle_publish_iff :
    (w : World) (opts : Options)
    → ((handle_publish (some w) opts).1 ≡ ok tt) ↔ (
        (is_empty opts.channel ≡ false)
        × (is_frame (frame_bytes opts.frame) ≡ true)
        × (w.running ≡ true))
unfolding handle_publish
handle_publish_iff w opts =
    if_cases
      (λ (r : Option World × Done). (r.1 ≡ ok tt) ↔ (
        (is_empty opts.channel ≡ false)
        × (is_frame (frame_bytes opts.frame) ≡ true)
        × (w.running ≡ true)))
      (is_empty opts.channel) (λ empty. (λ h. absurd (ground arith), λ h. absurd (ground arith)))
      (λ named. (
        λ h.
            let both = (with_bytes-ok w opts.channel (frame_bytes opts.frame)).0 h in
            (named, both.0, both.1),
        λ h. (with_bytes-ok w opts.channel (frame_bytes opts.frame)).1 (h.1, h.2),
      ))
