-- ===== src/Ws/Tests.antt =====
-- A client that asks for a channel the hub refuses, and then publishes, and a pump that fails once.
use go_stream.Prelude.{
  ◌≡◌, ◌⊎◌, ◌≤◌, refl, true, false, List, [], ◌∷◌, ◌++◌, Option, none, some, codes, Text, ◌==◌,
  nat_eq, text_eq, arith, length, All, text_beq, not,
}
use go_stream.Prelude.GoMap.{lookup}
use go_stream.Prelude.GoMap.Nested.{inner}
use go_stream.Prelude.Int.{pos}
use go_stream.Errors.{auth_rejected}
use go_stream.Wire.{Frame}
use go_stream.Peer.{SendQueue, new_peer}
use go_stream.Config.{default_hub_config, normalize_hub_config, seconds}
use go_stream.Auth.{Request}
use go_stream.Hub.{World, new_hub_with_config}
use go_stream.Hub.Members.{can_subscribe_peer, is_denied}
use go_stream.Hub.Members.InStep.{IsInStep}
use go_stream.Message.{Message, no_data, type_subscribe}
use go_stream.Sse.{authenticated}
use go_stream.Sse.Admission.{IsAdmitted}
use go_stream.Ws.{
  Adapter, Incoming, new_adapter, mount, handle_message, serve_messages, serve_http, with_ws_peer,
  error_message,
}
use go_stream.Ws.Admission.{serve_http-admission}
use go_stream.Ws.Dispatch.{handle_message-refused}
use go_stream.Ws.Isolation.{Untouched, serve_messages-Untouched}
use go_stream.Ws.InStep.{serve_http-IsInStep}
use go_stream.Ws.Pump.{Turn, another_sends, drains, ticks, write_pump, queued, taken_in}
use go_stream.Ws.Order.{write_pump-order}
use go_stream.Ws.Order.Frames.{SomeFails, texts}

-- A hub that refuses the channel `hash`.
abbrev guarded : World
guarded = record {
  hub =
      record (new_hub_with_config (record default_hub_config {
        channel_authoriser = some (λ peer channel. not (channel == codes "hash"));
      })) { running = true };
  heap = λ p. new_peer (p ∷ []) (codes "ws");
  late_broadcasts = [];
  late_publishes = [];
  leaving = [];
  trace = [];
}

abbrev halted : World
halted = record guarded { hub = record (guarded.hub) { running = false } }

abbrev asks : Message
asks = record {
  kind = type_subscribe;
  channel = codes "hash";
  process_id = [];
  content = no_data;
  timestamp = 1;
}

abbrev utters : Message
utters = record asks { kind = codes "event" }

-- A message's text is its channel here, and every payload asks for `hash`.
abbrev encode : Message → Frame
encode message = message.channel

abbrev decode : Frame → Option Message
decode payload = some asks

abbrev sent : List Incoming
sent = record { meanwhile = λ w. w; is_data = true; payload = codes "x"; now = 1 } ∷ []

abbrev adapter : Adapter
adapter = mount (
    new_adapter (record {
      authenticator = none;
      on_auth_failure = none;
      read_buffer_size = pos 0;
      write_buffer_size = pos 0;
    }))

abbrev request : Request
request = record { authorization = []; query_token = [] }

abbrev wanted : List Text
wanted = codes "block" ∷ []

serve_http-admission_example :
    ((serve_http encode decode guarded adapter request wanted 1 (codes "u") 3 true true sent).0
      ≡ guarded)
    ⊎ ((adapter.mounted ≡ true)
        × ((authenticated adapter.config.authenticator request).valid ≡ true)
        × (guarded.running ≡ true)
        × (true ≡ true)
        × All
            (IsAdmitted
              (with_ws_peer guarded 1
                (codes "u")
                (authenticated adapter.config.authenticator request))
              1)
            wanted)
serve_http-admission_example =
    serve_http-admission encode decode guarded adapter request wanted 1 (codes "u") 3 true true sent

serve_http-IsInStep_example :
    IsInStep
      ((serve_http encode decode guarded adapter request wanted 1 (codes "u") 3 true true sent).0)
unfolding lookup inner new_hub_with_config
serve_http-IsInStep_example =
    serve_http-IsInStep encode decode guarded adapter request wanted 1 (codes "u") 3 true true sent
      (record { distinct = tt; agree = λ c p. refl }) (λ c. refl) ((λ u s. s), tt)

abbrev nothing_queued : SendQueue
nothing_queued = record { buffer = []; is_closed = false }

handle_message-refused_example :
    (((handle_message encode guarded 1 (codes "x") 1 asks).0).hub ≡ guarded.hub)
    × (((((handle_message encode guarded 1 (codes "x") 1 asks).0).heap 1).send)
        ≡ some (record nothing_queued {
          buffer =
              nothing_queued.buffer ++ encode (error_message asks.channel auth_rejected 1) ∷ [];
        }))
    × ((handle_message encode guarded 1 (codes "x") 1 asks).1 ≡ true)
unfolding can_subscribe_peer is_denied new_hub_with_config normalize_hub_config text_beq
handle_message-refused_example =
    handle_message-refused encode guarded 1 (codes "x") 1 asks auth_rejected nothing_queued refl
      refl refl refl (omega arith)

serve_messages-Untouched_example : Untouched 2 guarded (serve_messages encode decode guarded 1 sent)
serve_messages-Untouched_example =
    serve_messages-Untouched encode decode guarded 1 2 sent refl (
      (λ u. record { same_member = refl; same_channels = λ c. refl; same_subscriptions = refl }),
      tt,
    )

abbrev turns : List Turn
turns =
    record { happens = another_sends (codes "a"); deadline_ok = true; write_ok = true }
    ∷ record { happens = ticks; deadline_ok = true; write_ok = true }
    ∷ record { happens = drains; deadline_ok = true; write_ok = false }
    ∷ []

write_pump-order_example :
    (missing : List Frame) × (length missing ≤ 1)
    × (texts ((write_pump (seconds 1) (seconds 1) (guarded.heap 1) turns).1)
          ++ (missing
              ++ queued (((write_pump (seconds 1) (seconds 1) (guarded.heap 1) turns).0).send))
        ≡ queued ((guarded.heap 1).send) ++ taken_in (seconds 1) (seconds 1) (guarded.heap 1) turns)
    × ((missing ≡ []) ⊎ SomeFails (seconds 1) turns)
write_pump-order_example = write_pump-order (seconds 1) (seconds 1) (guarded.heap 1) turns
