-- ===== src/Peer.antt =====
-- `Peer` of go/stream.go and its methods: the bounded send queue, the close protocol and the
-- subscriptions. A peer's struct is a value here; the hub's heap holds it behind its pointer. Function
-- values are opaque: a number names one, and calls of it are recorded by the caller.
use go_stream.Prelude.{
  ℕ, Bool, true, false, List, [], ◌∷◌, ◌++◌, Option, none, some, Text, length, ltb, if◌then◌else◌,
}
use go_stream.Prelude.GoMap.{Map, keys}
use go_stream.Prelude.Sort.{sort_texts}
use go_stream.Wire.{Frame}

-- A function value.
abbrev pub Func : Type 0
Func = ℕ

-- `map[string]any`, nil or not; its values are opaque.
abbrev pub Claims : Type 0
Claims = Option (Map Text ℕ)

-- A buffered channel of frames, oldest first.
pub record SendQueue : Type 0 where
  pub buffer : List Frame
  pub is_closed : Bool

pub record Peer : Type 0 where
  pub id : Text
  pub user_id : Text
  pub claims : Claims
  pub transport : Text
  pub send : Option SendQueue
  pub subscriptions : Map Text Bool
  pub close_hook : Option Func
  -- `closeOnce` has run.
  pub close_done : Bool

-- `defaultPeerSendBufferSize`, the capacity of every channel that the code makes for a peer.
abbrev pub default_peer_send_buffer_size : ℕ
default_peer_send_buffer_size = 256

abbrev fresh_queue : SendQueue
fresh_queue = record { buffer = []; is_closed = false }

-- `NewPeer`; the random identifier is an argument.
abbrev pub new_peer : Text → Text → Peer
new_peer uuid transport = record {
  id = uuid;
  user_id = [];
  claims = some [];
  transport = transport;
  send = some fresh_queue;
  subscriptions = [];
  close_hook = none;
  close_done = false;
}

-- `Subscriptions`.
abbrev subscription_list : Peer → List Text
subscription_list peer = sort_texts (keys peer.subscriptions)

-- The `select` of `Send` on a queue: a send on a closed channel panics, and the panic is recovered.
unfoldable pub offer : Peer → SendQueue → Frame → Peer × Bool
offer peer queue frame =
    if queue.is_closed
    then (peer, false)
    else if ltb (length queue.buffer) default_peer_send_buffer_size
    then (record peer { send = some (record queue { buffer = queue.buffer ++ frame ∷ [] }) }, true)
    else (peer, false)

unfoldable pub send_to : Peer → Option SendQueue → Frame → Peer × Bool
unfolding offer
send_to peer none frame = (peer, false)
send_to peer (some queue) frame = offer peer queue frame

-- `Send`: the peer afterwards, and whether the frame was queued.
unfoldable pub peer_send : Peer → Frame → Peer × Bool
unfolding send_to
peer_send peer frame = send_to peer peer.send frame

unfoldable pub shut : Option SendQueue → Option SendQueue
shut none = none
shut (some queue) = some (record queue { is_closed = true })

abbrev pub hook_calls : Option Func → List Func
hook_calls none = []
hook_calls (some hook) = hook ∷ []

-- `Close`: the peer afterwards, and the hooks called.
unfoldable pub peer_close : Peer → Peer × List Func
unfolding shut
peer_close peer = if peer.close_done then (peer, []) else (
  record peer { send = shut peer.send; close_hook = none; close_done = true },
  hook_calls peer.close_hook,
)

-- `SetCloseHook`.
unfoldable pub set_close_hook : Peer → Option Func → Peer
set_close_hook peer hook = record peer { close_hook = hook }

-- One receive from `SendQueue()` by the transport's pump: the oldest frame, if there is one.
unfoldable pub receive_from : Peer → Option SendQueue → Peer × Option Frame
receive_from peer none = (peer, none)
receive_from peer (some queue) = elim queue.buffer [
  | [] ↦ (peer, none)
  | frame ∷ rest ↦ (record peer { send = some (record queue { buffer = rest }) }, some frame)
]

unfoldable pub receive : Peer → Peer × Option Frame
unfolding receive_from
receive peer = receive_from peer peer.send

-- The writes by which `AddPeer` and `SubscribePeer` make up for a zero `Peer`.
unfoldable pub ensure_queue : Peer → Peer
ensure_queue peer = elim peer.send [
  | none ↦ record peer { send = some fresh_queue }
  | some queue ↦ peer
]
