-- ===== src/Ws/Order.antt =====
-- The order in which `writePump` of go/adapter/ws/ws.go writes a peer's frames.
pub mod Frames
use go_stream.Prelude.{
  ◌≡◌, refl, sym, ◌∙◌, ap, ◌≤◌, Bool, true, false, not, ◌&&◌, List, [], ◌∷◌, ◌++◌, Option, none,
  some, length, arith, if◌then◌else◌, if_cases, append_assoc, append_nil, ltb, ◌⊎◌, inl, inr,
}
use mathlib.Core.List.{Memᴰ}
use go_stream.Prelude.Int.{pos, ltb_ℤ}
use go_stream.Config.{Duration}
use go_stream.Wire.{Frame}
use go_stream.Peer.{
  Peer, SendQueue, peer_send, send_to, offer, receive, receive_from, default_peer_send_buffer_size,
}
use go_stream.Ws.Pump.{
  Case, ticks, drains, another_sends, Turn, Written, ping, text, lost, frames, write_item, is_shut,
  write_received, pump_turn, write_pump, queued, taken, taken_in,
}
use go_stream.Ws.Order.Frames.{
  texts, Fails, SomeFails, Delivered, chained-Delivered, write_pump-frames,
}

-- Nothing is lost where the pump goes on, and at most the last frame where it stops, by a failure.
abbrev Sound : Duration → Turn → List Written × Bool → Type 0
Sound timeout turn r = (r.1 ≡ true → frames r.0 ≡ texts r.0) × Delivered (Fails timeout turn) r.0

nothing-Sound :
    (timeout : Duration) (turn : Turn) (goes_on : Bool) → Sound timeout turn ([], goes_on)
nothing-Sound timeout turn goes_on = (λ h. refl, ([], omega arith, refl, inl refl))

write_item-Sound :
    (timeout : Duration) (turn : Turn) (success failure : List Written)
    → Sound timeout turn (success, true)
    → (Fails timeout turn → Sound timeout turn (failure, false))
    → Sound timeout turn (write_item timeout turn success failure)
write_item-Sound timeout turn success failure s f =
    if_cases (Sound timeout turn) (ltb_ℤ (pos 0) timeout && not turn.deadline_ok)
      (λ late. f (inl (ground (arith, late), ground (arith, late))))
      (λ _. if_cases (Sound timeout turn) turn.write_ok (λ _. s) (λ fails. f (inr fails)))

write_received-Sound :
    (timeout : Duration) (turn : Turn) (received : Peer × Option Frame)
    → let r = write_received timeout turn received in Sound timeout turn (r.1, r.2)
write_received-Sound timeout turn (peer, none) =
    nothing-Sound timeout turn (not (is_shut peer.send))
write_received-Sound timeout turn (peer, some frame) =
    write_item-Sound timeout turn (text frame ∷ []) (lost frame ∷ [])
      (λ h. refl, ([], omega arith, refl, inl refl))
      (λ fails. (λ h. absurd (ground arith), (frame ∷ [], omega arith, refl, inr fails)))

pump_turn-Sound :
    (timeout interval : Duration) (peer : Peer) (turn : Turn) (happens : Case)
    → let r = pump_turn timeout interval peer turn happens in Sound timeout turn (r.1, r.2)
unfolding pump_turn
pump_turn-Sound timeout interval peer turn ticks =
    if_cases (λ (r : Peer × List Written × Bool). Sound timeout turn (r.1, r.2))
      (ltb_ℤ (pos 0) interval)
      (λ _.
        write_item-Sound timeout turn (ping ∷ []) [] (λ h. refl, ([], omega arith, refl, inl refl))
          (λ fails. nothing-Sound timeout turn false))
      (λ _. nothing-Sound timeout turn true)
pump_turn-Sound timeout interval peer turn drains = write_received-Sound timeout turn (receive peer)
pump_turn-Sound timeout interval peer turn (another_sends frame) = nothing-Sound timeout turn true

write_pump-Delivered :
    (timeout interval : Duration) (peer : Peer) (turns : List Turn)
    → Delivered (SomeFails timeout turns) ((write_pump timeout interval peer turns).1)
unfolding write_pump
write_pump-Delivered timeout interval peer [] = ([], omega arith, refl, inl refl)
write_pump-Delivered timeout interval peer (turn ∷ turns) =
    let next = pump_turn timeout interval peer turn turn.happens in
    let sound = pump_turn-Sound timeout interval peer turn turn.happens in
    chained-Delivered next (write_pump timeout interval next.0 turns) next.2
      (λ fails. (turn, Memᴰ.head refl, fails))
      (λ (one, among, fails). (one, Memᴰ.tail among, fails)) sound.0 sound.1
      (write_pump-Delivered timeout interval next.0 turns)

-- The frames that the pump writes, then at most one that it has taken off the queue without writing it,
-- then those that are still queued, are the frames that were queued and those that the queue has taken from
-- others meanwhile: none is dropped, doubled or overtaken. Unless `SetWriteDeadline` or `WriteMessage`
-- fails in some turn, none is missing.
pub write_pump-order :
    (timeout interval : Duration) (peer : Peer) (turns : List Turn)
    → let r = write_pump timeout interval peer turns in
      (missing : List Frame) × (length missing ≤ 1)
      × (texts r.1 ++ (missing ++ queued (r.0).send)
          ≡ queued peer.send ++ taken_in timeout interval peer turns)
      × ((missing ≡ []) ⊎ SomeFails timeout turns)
write_pump-order timeout interval peer turns =
    let (missing, short, e, why) = write_pump-Delivered timeout interval peer turns in
    let r = write_pump timeout interval peer turns in
    (
      missing,
      short,
      sym (append_assoc (texts r.1) missing (queued (r.0).send))
          ∙ ap (λ xs. xs ++ queued (r.0).send) (sym e)
          ∙ write_pump-frames timeout interval peer turns,
      why,
    )
