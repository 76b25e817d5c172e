-- ===== src/Hub.antt =====
-- The state of go/hub.go: `Hub`, its deliveries, `NewHubWithConfig`, `Config`, `Running`, and the
-- world around a hub. The children model the methods: Hub/Handlers the handler tables, Hub/Members
-- the peers and their channels, Hub/Sending the queues and deliveries, Hub/Counts the statistics and
-- Hub/Loop the event loop.
--
-- A `*Peer` is a number, and `heap` gives the struct behind it; a nil pointer or function argument is
-- `none`. A method holds the hub's mutex where it touches the state, so it is one step here. A nil map
-- reads as the empty one, and the writes that make nil maps are no-ops here. A nil `*Hub` receiver is
-- left out: each method returns at once on it.
pub mod Handlers
pub mod Members
pub mod Sending
pub mod Counts
pub mod Loop
pub mod Spec
pub mod Tests
use go_stream.Prelude.{
  ℕ, Bool, true, false, List, [], ◌∷◌, ◌++◌, Option, none, some, Text, codes, nat_beq,
  if◌then◌else◌,
}
use go_stream.Prelude.GoMap.{Map}
use go_stream.Wire.{Frame}
use go_stream.Peer.{Peer, Func, hook_calls}
use go_stream.Config.{HubConfig, normalize_hub_config}

-- `broadcastDelivery` and `publishDelivery`.
pub record BroadcastDelivery : Type 0 where
  pub source : Option ℕ
  pub frame : Frame
  pub notify_broadcast_subscribers : Bool

pub record PublishDelivery : Type 0 where
  pub channel : Text
  pub frame : Frame
  pub notify_publish_subscribers : Bool

pub record Hub : Type 0 where
  pub peers : Map ℕ Bool
  pub broadcast_queue : List BroadcastDelivery
  pub publish_queue : List PublishDelivery
  pub register : List ℕ
  pub unregister : List ℕ
  pub channels : Map Text (Map ℕ Bool)
  pub channel_handlers : Map Text (Map ℕ Func)
  pub broadcast_handlers : Map ℕ Func
  pub publish_handlers : Map ℕ Func
  pub next_handler_id : ℕ
  pub config : HubConfig
  pub done : Bool
  pub running : Bool

-- Calls of function values, in order. `crashed` is a panic that nothing recovers.
pub data Event : Type 0 where
  peer_call : Func → ℕ → Event
  frame_call : Func → Frame → Event
  publish_call : Func → Text → Frame → Event
  hook_call : Func → Event
  crashed : Event

-- `late_broadcasts` and `late_publishes` are the goroutines that wait for room in a queue; `leaving` has, for
-- each `Run` that is ending, the members that its deferred function has still to remove.
pub record World : Type 0 where
  pub hub : Hub
  pub open hub use *
  pub heap : ℕ → Peer
  pub late_broadcasts : List BroadcastDelivery
  pub late_publishes : List PublishDelivery
  pub leaving : List (List ℕ)
  pub trace : List Event

-- The wildcard channel.
abbrev pub star : Text
star = b'*' ∷ []

-- `defaultHubQueueSize`.
abbrev pub default_hub_queue_size : ℕ
default_hub_queue_size = 256

-- `NewHubWithConfig`.
unfoldable pub new_hub_with_config : HubConfig → Hub
new_hub_with_config config = record {
  peers = [];
  broadcast_queue = [];
  publish_queue = [];
  register = [];
  unregister = [];
  channels = [];
  channel_handlers = [];
  broadcast_handlers = [];
  publish_handlers = [];
  next_handler_id = 0;
  config = normalize_hub_config config;
  done = false;
  running = false;
}

-- `Config`.
abbrev pub config_of : Hub → HubConfig
config_of hub = normalize_hub_config hub.config

-- The world of a new hub, over peers that belong to no hub yet.
abbrev pub new_world : HubConfig → (ℕ → Peer) → World
new_world config heap = record {
  hub = new_hub_with_config config;
  heap = heap;
  late_broadcasts = [];
  late_publishes = [];
  leaving = [];
  trace = [];
}

-- `*p = v`.
abbrev pub update : (ℕ → Peer) → ℕ → Peer → ℕ → Peer
update heap p v q = if nat_beq p q then v else heap q

-- The trace of a call of `f`, where `f` is not nil.
abbrev pub peer_calls : Option Func → ℕ → List Event
peer_calls none p = []
peer_calls (some f) p = peer_call f p ∷ []

abbrev pub hook_events : List Func → List Event
hook_events [] = []
hook_events (f ∷ fs) = hook_call f ∷ hook_events fs
