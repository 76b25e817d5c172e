-- ===== src/Ws/Order/Frames.antt =====
-- The frames that `writePump` of go/adapter/ws/ws.go takes off a queue, turn by turn, and which of them it
-- has written.
use go_stream.Prelude.{
  ◌≡◌, refl, sym, ◌∙◌, ap, ◌≤◌, Bool, true, false, not, ◌&&◌, List, [], ◌∷◌, ◌++◌, Option, none,
  some, length, if◌then◌else◌, if_cases, append_assoc, append_nil, ltb, ◌⊎◌, inl, inr,
}
use mathlib.Core.List.{Memᴰ}
use go_stream.Prelude.Int.{pos, ltb_ℤ}
use go_stream.Config.{Duration}
use go_stream.Wire.{Frame}
use go_stream.Peer.{
  Peer, SendQueue, peer_send, send_to, offer, receive, receive_from, default_peer_send_buffer_size,
}
use go_stream.Ws.Pump.{
  Case, ticks, drains, another_sends, Turn, Written, ping, text, lost, frames, write_item,
  write_received, pump_turn, write_pump, queued, taken, taken_in,
}

frames-append : (xs ys : List Written) → frames (xs ++ ys) ≡ frames xs ++ frames ys
frames-append [] ys = refl
frames-append (ping ∷ xs) ys = frames-append xs ys
frames-append (text frame ∷ xs) ys = ap (◌∷◌ frame) (frames-append xs ys)
frames-append (lost frame ∷ xs) ys = ap (◌∷◌ frame) (frames-append xs ys)

-- The frames that have been written.
abbrev pub texts : List Written → List Frame
texts [] = []
texts (text frame ∷ items) = frame ∷ texts items
texts (ping ∷ items) = texts items
texts (lost frame ∷ items) = texts items

texts-append : (xs ys : List Written) → texts (xs ++ ys) ≡ texts xs ++ texts ys
texts-append [] ys = refl
texts-append (ping ∷ xs) ys = texts-append xs ys
texts-append (text frame ∷ xs) ys = ap (◌∷◌ frame) (texts-append xs ys)
texts-append (lost frame ∷ xs) ys = texts-append xs ys

-- In this turn the deadline, where there is one, or the write fails.
abbrev pub Fails : Duration → Turn → Type 0
Fails timeout turn =
    ((ltb_ℤ (pos 0) timeout ≡ true) × (turn.deadline_ok ≡ false)) ⊎ (turn.write_ok ≡ false)

abbrev pub SomeFails : Duration → List Turn → Type 0
SomeFails timeout turns = (turn : Turn) × Memᴰ turn turns × Fails timeout turn

-- Only the last frame may be lost, and only where something fails.
abbrev pub Delivered : Type 0 → List Written → Type 0
Delivered Failure items =
    (missing : List Frame) × (length missing ≤ 1)
    × (frames items ≡ texts items ++ missing)
    × ((missing ≡ []) ⊎ Failure)

either :
    {Failure Ever : Type 0} {missing : List Frame}
    → (Failure → Ever)
    → (missing ≡ []) ⊎ Failure
    → (missing ≡ []) ⊎ Ever
either f (inl e) = inl e
either f (inr x) = inr (f x)

send_to-queued :
    (peer : Peer) (send : Option SendQueue) (frame : Frame)
    → peer.send ≡ send
    → let r = send_to peer send frame in
      queued (r.0).send ≡ queued send ++ (if r.1 then frame ∷ [] else [])
unfolding send_to offer
send_to-queued peer none frame e = rw e refl
send_to-queued peer (some q) frame e =
    if_cases P q.is_closed (λ _. rw e (sym (append_nil q.buffer)))
      (λ _.
        if_cases P (ltb (length q.buffer) default_peer_send_buffer_size) (λ _. refl)
          (λ _. rw e (sym (append_nil q.buffer))))
  where
    P : Peer × Bool → Type 0
    P r = queued (r.0).send ≡ q.buffer ++ (if r.1 then frame ∷ [] else [])

abbrev head_of : Option Frame → List Frame
head_of none = []
head_of (some frame) = frame ∷ []

taken-queued :
    (peer : Peer) (frame : Frame)
    → queued (((peer_send peer frame).0).send)
      ≡ queued peer.send ++ taken peer (another_sends frame)
unfolding peer_send
taken-queued peer frame = send_to-queued peer peer.send frame refl

-- A received frame is the head of the queue.
receive-queued :
    (peer : Peer) (send : Option SendQueue)
    → peer.send ≡ send
    → let r = receive_from peer send in head_of r.1 ++ queued (r.0).send ≡ queued send
unfolding receive_from
receive-queued peer none e = rw e refl
receive-queued peer (some q) e = split q.buffer refl
  where
    split :
        (buffer : List Frame)
        → q.buffer ≡ buffer
        → let r : Peer × Option Frame = elim buffer [
          | [] ↦ (peer, none)
          | frame ∷ rest ↦ (record peer { send = some (record q { buffer = rest }) }, some frame)
        ] in
          head_of r.1 ++ queued (r.0).send ≡ buffer
    split [] h = ap queued e ∙ h
    split (frame ∷ rest) h = refl

write_item-frames :
    (timeout : Duration) (turn : Turn) (frame : Frame)
    → frames ((write_item timeout turn (text frame ∷ []) (lost frame ∷ [])).0) ≡ frame ∷ []
write_item-frames timeout turn frame =
    if_cases P (ltb_ℤ (pos 0) timeout && not turn.deadline_ok) (λ _. refl)
      (λ _. if_cases P turn.write_ok (λ _. refl) (λ _. refl))
  where
    P : List Written × Bool → Type 0
    P r = frames r.0 ≡ frame ∷ []

write_ping-frames :
    (timeout : Duration) (turn : Turn) → frames ((write_item timeout turn (ping ∷ []) []).0) ≡ []
write_ping-frames timeout turn =
    if_cases P (ltb_ℤ (pos 0) timeout && not turn.deadline_ok) (λ _. refl)
      (λ _. if_cases P turn.write_ok (λ _. refl) (λ _. refl))
  where
    P : List Written × Bool → Type 0
    P r = frames r.0 ≡ []

write_received-frames :
    (timeout : Duration) (turn : Turn) (received : Peer × Option Frame)
    → let r = write_received timeout turn received in
      frames r.1 ++ queued (r.0).send ≡ head_of received.1 ++ queued (received.0).send
write_received-frames timeout turn (peer, none) = refl
write_received-frames timeout turn (peer, some frame) =
    ap (λ xs. xs ++ queued peer.send) (write_item-frames timeout turn frame)

-- A turn puts out and keeps, in order, what was queued and what it takes in.
pump_turn-frames :
    (timeout interval : Duration) (peer : Peer) (turn : Turn) (happens : Case)
    → let r = pump_turn timeout interval peer turn happens in
      frames r.1 ++ queued (r.0).send ≡ queued peer.send ++ taken peer happens
unfolding pump_turn receive
pump_turn-frames timeout interval peer turn ticks =
    if_cases P (ltb_ℤ (pos 0) interval)
      (λ _. ap (λ xs. xs ++ queued peer.send) (write_ping-frames timeout turn) ∙ sym (append_nil _))
      (λ _. sym (append_nil _))
  where
    P : Peer × List Written × Bool → Type 0
    P r = frames r.1 ++ queued (r.0).send ≡ queued peer.send ++ []
pump_turn-frames timeout interval peer turn drains =
    write_received-frames timeout turn (receive peer)
    ∙ receive-queued peer peer.send refl
    ∙ sym (append_nil _)
pump_turn-frames timeout interval peer turn (another_sends frame) = taken-queued peer frame

-- A turn and the turns after it, where the turn goes on.
module _ (next : Peer × List Written × Bool) (rest : Peer × List Written) where
  abbrev chained : Bool → Peer × List Written
  chained goes_on = if goes_on then (rest.0, next.1 ++ rest.1) else (next.0, next.1)

  chained-frames :
      (goes_on : Bool) (old new later : List Frame)
      → frames next.1 ++ queued (next.0).send ≡ old ++ new
      → frames rest.1 ++ queued (rest.0).send ≡ queued (next.0).send ++ later
      → frames ((chained goes_on).1) ++ queued (((chained goes_on).0).send)
        ≡ old ++ (if goes_on then new ++ later else new)
  chained-frames false old new later h k = h
  chained-frames true old new later h k =
      rw
        (
          frames-append next.1 rest.1,
          append_assoc (frames next.1) (frames rest.1) (queued (rest.0).send),
          k,
          ← append_assoc (frames next.1) (queued (next.0).send) later,
          h,
          append_assoc old new later,
        )
        refl

  pub chained-Delivered :
      {Now Later Ever : Type 0} (goes_on : Bool)
      → (Now → Ever)
      → (Later → Ever)
      → (goes_on ≡ true → frames next.1 ≡ texts next.1)
      → Delivered Now next.1
      → Delivered Later rest.1
      → Delivered Ever ((chained goes_on).1)
  chained-Delivered false now later all (missing, short, e, why) d =
      (missing, short, e, either now why)
  chained-Delivered true now later all d (missing, short, e, why) = (
    missing,
    short,
    rw
        (
          frames-append next.1 rest.1,
          all refl,
          e,
          texts-append next.1 rest.1,
          append_assoc (texts next.1) (texts rest.1) missing,
        )
        refl,
    either later why,
  )

pub write_pump-frames :
    (timeout interval : Duration) (peer : Peer) (turns : List Turn)
    → let r = write_pump timeout interval peer turns in
      frames r.1 ++ queued (r.0).send ≡ queued peer.send ++ taken_in timeout interval peer turns
unfolding write_pump taken_in
write_pump-frames timeout interval peer [] = sym (append_nil _)
write_pump-frames timeout interval peer (turn ∷ turns) =
    let next = pump_turn timeout interval peer turn turn.happens in
    chained-frames next (write_pump timeout interval next.0 turns) next.2 (queued peer.send) _ _
      (pump_turn-frames timeout interval peer turn turn.happens)
      (write_pump-frames timeout interval next.0 turns)
