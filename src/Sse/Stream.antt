-- ===== src/Sse/Stream.antt =====
-- The streaming loop of `serve` in go/adapter/sse/sse.go and what it writes: `writeEventFrame`,
-- `writeHeartbeatFrame` and `splitFrameLines`. `core.Split` at the newline is an argument; the loop does
-- not look at what a write answers.
pub mod Read
use go_stream.Prelude.{
  ℕ, ◌≡◌, Bool, true, false, List, [], ◌∷◌, ◌++◌, Option, none, some, Text, codes,
}
use go_stream.Wire.{Frame}
use go_stream.Peer.{Peer, SendQueue, peer_send, receive}

abbrev pub data_prefix : Text
data_prefix = codes "data: "

abbrev pub newline : ℕ
newline = 10

abbrev pub ping_line : Text
ping_line = codes ": ping"

pub write_lines : List Text → Text
write_lines [] = newline ∷ []
write_lines (line ∷ lines) = data_prefix ++ (line ++ (newline ∷ write_lines lines))

-- `writeEventFrame`.
pub write_event_frame : (Frame → List Text) → Frame → Text
write_event_frame split frame = write_lines (split frame)

-- `writeHeartbeatFrame`.
abbrev pub heartbeat_frame : Text
heartbeat_frame = ping_line ++ (newline ∷ newline ∷ [])

-- The case that the `select` takes (the hook or the request ends the stream), or a send to the peer by
-- another goroutine.
pub data StreamCase : Type 0 where
  ends drains ticks : StreamCase
  another_sends : Frame → StreamCase

abbrev is_shut : Option SendQueue → Bool
is_shut none = false
is_shut (some queue) = queue.is_closed

-- What one case writes, and whether the loop goes on.
pub data Next : Type 0 where
  returns : Next
  waits writes_ping : Peer → Next
  writes : Peer → Frame → Next

-- On a closed and empty queue the loop returns, and on an open one that is empty, or a nil one, the case
-- is not taken.
abbrev received : Peer × Option Frame → Next
received (peer, some frame) = writes peer frame
received (peer, none) = elim (is_shut peer.send) [ true ↦ returns | false ↦ waits peer ]

unfoldable pub stream_case : Peer → StreamCase → Next
stream_case peer ends = returns
stream_case peer drains = received (receive peer)
stream_case peer ticks = writes_ping peer
stream_case peer (another_sends frame) = waits ((peer_send peer frame).0)

-- What a case writes, before what is written after it.
abbrev pub written_by : (Frame → List Text) → Next → (Peer → Text) → Text
written_by split returns rest = []
written_by split (waits peer) rest = rest peer
written_by split (writes_ping peer) rest = heartbeat_frame ++ rest peer
written_by split (writes peer frame) rest = write_event_frame split frame ++ rest peer

-- The loop through the cases that happen: what is written.
pub stream_loop : (Frame → List Text) → Peer → List StreamCase → Text
stream_loop split peer [] = []
stream_loop split peer (case ∷ cases) =
    written_by split (stream_case peer case) (λ next. stream_loop split next cases)

abbrev pub drained_by : Next → (Peer → List Frame) → List Frame
drained_by returns rest = []
drained_by (waits peer) rest = rest peer
drained_by (writes_ping peer) rest = rest peer
drained_by (writes peer frame) rest = frame ∷ rest peer

-- The frames that the loop takes off the queue.
unfoldable pub drained : Peer → List StreamCase → List Frame
drained peer [] = []
drained peer (case ∷ cases) = drained_by (stream_case peer case) (λ next. drained next cases)
