-- ===== src/Service/Tests.antt =====
-- A service over a hub that runs, asked to publish a string, and a core that starts it twice.
use go_stream.Prelude.{◌≡◌, [], ◌∷◌, true, some, codes, if◌then◌else◌, ◌&&◌}
use go_stream.Peer.{new_peer}
use go_stream.Config.{default_hub_config}
use go_stream.Hub.{World, new_hub_with_config}
use go_stream.Service.{
  Options, string, handle_publish, handle_broadcast, handle_send_channel, startup, shutdown,
  new_service, call_hooks, startup_effects,
}
use go_stream.Service.Handlers.{FailsClean, handle-error}
use go_stream.Service.Lifecycle.{starts, starts_up, call_hooks-once}

abbrev live : World
live = record {
  hub = record (new_hub_with_config default_hub_config) { running = true };
  heap = λ p. new_peer (p ∷ []) (codes "ws");
  late_broadcasts = [];
  late_publishes = [];
  leaving = [];
  trace = [];
}

abbrev asked : Options
asked = record { channel = codes "block"; frame = some (string (codes "hello")) }

handle-error_example :
    FailsClean (some live) (handle_publish (some live) asked)
    × FailsClean (some live) (handle_broadcast (some live) asked)
    × FailsClean (some live) (handle_send_channel (some live) asked)
handle-error_example = handle-error (some live) asked

call_hooks-once_example :
    starts ((call_hooks (startup ∷ shutdown ∷ startup ∷ []) (new_service true)).1)
    ≡ (if true && starts_up (startup ∷ shutdown ∷ startup ∷ []) then startup_effects else [])
call_hooks-once_example = call_hooks-once (startup ∷ shutdown ∷ startup ∷ []) true
