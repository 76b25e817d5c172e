-- ===== src/Ws/Dispatch.antt =====
-- What the loop of `serveHTTP` in go/adapter/ws/ws.go does with one message.
use go_stream.Prelude.{
  ℕ, ◌<◌, ◌≡◌, ◌≢◌, ◌↔◌, refl, sym, ◌∙◌, Bool, true, false, [], ◌∷◌, ◌++◌, Option, some, Text,
  arith, length, is_empty, ◌==◌, text_eq, nat_beq_iff, if_cases, ◌⊎◌, inl, inr, Bool-cases,
  text_beq,
}
use go_stream.Errors.{Error, ok, err}
use go_stream.Wire.{Frame}
use go_stream.Peer.{Peer, SendQueue, peer_send, send_to, offer, default_peer_send_buffer_size}
use go_stream.Hub.{World}
use go_stream.Hub.Members.{Done, can_subscribe_peer, subscribe_peer}
use go_stream.Hub.Members.Laws.{subscribe_peer-can}
use go_stream.Hub.Sending.Fails.{publish-SucceedsIfRunning, broadcast-SucceedsIfRunning}
use go_stream.Message.{Message, type_subscribe, type_unsubscribe, type_ping}
use go_stream.Ws.{handle_message, report, send_to_self, error_message, pong_message, unless_error}

-- An open queue with room takes the frame.
peer_send-queued :
    (peer : Peer) (queue : SendQueue) (frame : Frame)
    → peer.send ≡ some queue
    → queue.is_closed ≡ false
    → length queue.buffer < default_peer_send_buffer_size
    → (((peer_send peer frame).0).send
        ≡ some (record queue { buffer = queue.buffer ++ frame ∷ [] }))
      × ((peer_send peer frame).1 ≡ true)
unfolding peer_send send_to offer
peer_send-queued peer queue frame e o h = rw (e, o) (ground arith, ground arith)

subscribe_refused :
    (w : World) (peer : Option ℕ) (channel : Text) (e : Error)
    → can_subscribe_peer w peer channel ≡ err e
    → subscribe_peer w peer channel ≡ (w, err e)
subscribe_refused w peer channel e h = elim ((subscribe_peer-can w peer channel).1) [
  | inl granted ↦ absurd (ground arith)
  | inr kept ↦ λ i. (kept i, (((subscribe_peer-can w peer channel).0) ∙ h) i)
]

module _ (encode : Message → Frame) where
  refusal :
      (w : World) (peer : ℕ) (payload : Frame) (now : ℕ) (message : Message) (e : Error)
      → message.kind ≡ type_subscribe
      → can_subscribe_peer w (some peer) message.channel ≡ err e
      → handle_message encode w peer payload now message
        ≡ send_to_self w peer (encode (error_message message.channel e now))
  unfolding handle_message text_beq
  refusal w peer payload now message e k h =
      rw (k, subscribe_refused w (some peer) message.channel e h) refl

  -- A subscription that the hub refuses leaves the hub as it was, is answered on the connection itself with
  -- the error, behind what is queued there, and does not end it, where the peer's queue is open and has
  -- room.
  pub handle_message-refused :
      (w : World) (peer : ℕ) (payload : Frame) (now : ℕ) (message : Message) (e : Error)
      (queue : SendQueue)
      → message.kind ≡ type_subscribe
      → can_subscribe_peer w (some peer) message.channel ≡ err e
      → (w.heap peer).send ≡ some queue
      → queue.is_closed ≡ false
      → length queue.buffer < default_peer_send_buffer_size
      → let r = handle_message encode w peer payload now message in
        (r.0.hub ≡ w.hub)
        × (((r.0.heap peer).send)
            ≡ some (record queue {
              buffer = queue.buffer ++ encode (error_message message.channel e now) ∷ [];
            }))
        × (r.1 ≡ true)
  handle_message-refused w peer payload now message e queue k h q o room =
      rw (refusal w peer payload now message e k h)
        (refl, ground (arith, nat_beq_iff peer peer, sent), sent.1)
    where
      sent :
          (((peer_send (w.heap peer) (encode (error_message message.channel e now))).0).send
            ≡ some (record queue {
              buffer = queue.buffer ++ encode (error_message message.channel e now) ∷ [];
            }))
          × ((peer_send (w.heap peer) (encode (error_message message.channel e now))).1 ≡ true)
      sent =
          peer_send-queued (w.heap peer) queue (encode (error_message message.channel e now)) q o
            room

  -- Why a loop would not go on.
  abbrev pub Stops : World → ℕ → Type 0
  Stops w peer =
      (w.running ≡ false) ⊎ ((frame : Frame) × ((peer_send (w.heap peer) frame).1 ≡ false))

  unless_error-Stops :
      (w : World) (peer : ℕ) (r : World × Done)
      → ((r.1 ≡ ok tt) ↔ (w.running ≡ true))
      → (unless_error r).1 ≡ false
      → Stops w peer
  unless_error-Stops w peer (u, ok tt) h = λ stopped. absurd (ground arith)
  unless_error-Stops w peer (u, err e) h = λ stopped. elim (Bool-cases w.running) [
    | inl runs ↦ absurd (refused (h.1 runs))
    | inr halted ↦ inl halted
  ]
    where
      refused : ◌≢◌ {A = Done} (err e) (ok tt)
      refused k = cc

  report-Stops :
      (w : World) (peer : ℕ) (channel : Text) (now : ℕ) (r : World × Done)
      → (r.1 ≡ ok tt) ⊎ (r.0 ≡ w)
      → (report encode peer channel now r).1 ≡ false
      → Stops w peer
  report-Stops w peer channel now (u, ok tt) k h = absurd (ground arith)
  report-Stops w peer channel now (u, err e) (inl k) h = absurd (ground arith)
  report-Stops w peer channel now (u, err e) (inr k) h =
      inr (encode (error_message channel e now), rw (sym k) h)

  -- A message ends the connection only where the hub does not run, or the peer's own queue takes no frame.
  pub handle_message-stops :
      (w : World) (peer : ℕ) (payload : Frame) (now : ℕ) (message : Message)
      → (handle_message encode w peer payload now message).1 ≡ false
      → (w.running ≡ false) ⊎ ((frame : Frame) × ((peer_send (w.heap peer) frame).1 ≡ false))
  unfolding handle_message
  handle_message-stops w peer payload now message =
      if_cases P (message.kind == type_subscribe)
        (λ _.
          report-Stops w peer message.channel now (subscribe_peer w (some peer) message.channel)
            (fails (subscribe_peer-can w (some peer) message.channel)))
        (λ _.
          if_cases P (message.kind == type_unsubscribe) (λ _ h. absurd (ground arith))
            (λ _.
              if_cases P (message.kind == type_ping)
                (λ _ h. inr (encode (pong_message message now), h))
                (λ _.
                  if_cases P (is_empty message.channel)
                    (λ _.
                      unless_error-Stops w peer _
                        (broadcast-SucceedsIfRunning w (some peer) payload true))
                    (λ _.
                      unless_error-Stops w peer _
                        (publish-SucceedsIfRunning w (some peer) payload true message.channel)))))
    where
      P : World × Bool → Type 0
      P r = r.1 ≡ false → Stops w peer

      fails :
          {r : World × Done} {d : Done}
          → (r.1 ≡ d) × ((d ≡ ok tt) ⊎ (r.0 ≡ w))
          → (r.1 ≡ ok tt) ⊎ (r.0 ≡ w)
      fails (e, inl k) = inl (e ∙ k)
      fails (e, inr k) = inr k
