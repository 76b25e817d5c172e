-- ===== src/Ws/Pump.antt =====
-- `writePump` of go/adapter/ws/ws.go, the goroutine that writes a peer's queue to its connection, turn by
-- turn. What `SetWriteDeadline` and `WriteMessage` answer is in the turn; between the turns others may
-- send to the peer.
use go_stream.Prelude.{
  Bool, true, false, not, ◌&&◌, List, [], ◌∷◌, ◌++◌, Option, none, some, if◌then◌else◌,
}
use go_stream.Prelude.Int.{pos, ltb_ℤ}
use go_stream.Config.{Duration}
use go_stream.Wire.{Frame}
use go_stream.Peer.{Peer, SendQueue, peer_send, receive}

-- The case that the `select` takes, or a send to the peer by another goroutine.
pub data Case : Type 0 where
  ticks drains : Case
  another_sends : Frame → Case

pub record Turn : Type 0 where
  pub happens : Case
  pub deadline_ok : Bool
  pub write_ok : Bool

-- What has been written, and what has been taken off the queue for a write that failed.
pub data Written : Type 0 where
  ping : Written
  text lost : Frame → Written

-- The frames among them, in order.
abbrev pub frames : List Written → List Frame
frames [] = []
frames (ping ∷ items) = frames items
frames (text frame ∷ items) = frame ∷ frames items
frames (lost frame ∷ items) = frame ∷ frames items

-- A write with its deadline, if there is one; whether the pump goes on.
abbrev pub write_item : Duration → Turn → List Written → List Written → List Written × Bool
write_item timeout turn success failure =
    if ltb_ℤ (pos 0) timeout && not turn.deadline_ok
    then (failure, false)
    else if turn.write_ok
    then (success, true)
    else (failure, false)

abbrev pub with_peer : Peer → List Written × Bool → Peer × List Written × Bool
with_peer peer (items, goes_on) = (peer, items, goes_on)

abbrev pub is_shut : Option SendQueue → Bool
is_shut none = false
is_shut (some queue) = queue.is_closed

-- The receive from `SendQueue()`: on a closed and empty queue the pump returns, and on an open one that is
-- empty, or a nil one, the case is not taken.
abbrev pub write_received : Duration → Turn → Peer × Option Frame → Peer × List Written × Bool
write_received timeout turn (peer, none) = (peer, [], not (is_shut peer.send))
write_received timeout turn (peer, some frame) =
    with_peer peer (write_item timeout turn (text frame ∷ []) (lost frame ∷ []))

-- One turn; without a heartbeat there is no ticker.
unfoldable pub pump_turn : Duration → Duration → Peer → Turn → Case → Peer × List Written × Bool
pump_turn timeout interval peer turn ticks =
    if ltb_ℤ (pos 0) interval
    then with_peer peer (write_item timeout turn (ping ∷ []) [])
    else (peer, [], true)
pump_turn timeout interval peer turn drains = write_received timeout turn (receive peer)
pump_turn timeout interval peer turn (another_sends frame) = ((peer_send peer frame).0, [], true)

-- `writePump`, through the turns that happen: the peer afterwards, and what has been written.
unfoldable pub write_pump : Duration → Duration → Peer → List Turn → Peer × List Written
write_pump timeout interval peer [] = (peer, [])
write_pump timeout interval peer (turn ∷ turns) =
    let next = pump_turn timeout interval peer turn turn.happens in
    let rest = write_pump timeout interval next.0 turns in
    if next.2 then (rest.0, next.1 ++ rest.1) else (next.0, next.1)

-- The frames in a peer's queue.
abbrev pub queued : Option SendQueue → List Frame
queued none = []
queued (some q) = q.buffer

-- The frames of others that the queue takes while the pump runs.
abbrev pub taken : Peer → Case → List Frame
taken peer ticks = []
taken peer drains = []
taken peer (another_sends frame) = if (peer_send peer frame).1 then frame ∷ [] else []

unfoldable pub taken_in : Duration → Duration → Peer → List Turn → List Frame
taken_in timeout interval peer [] = []
taken_in timeout interval peer (turn ∷ turns) =
    let next = pump_turn timeout interval peer turn turn.happens in
    let rest = taken_in timeout interval next.0 turns in
    if next.2 then taken peer turn.happens ++ rest else taken peer turn.happens
