-- ===== src/Redis/Tests.antt =====
-- Two bridges with one prefix, over a hub that runs.
use go_stream.Prelude.{true, inl, ◌≡◌, refl, [], ◌∷◌, some, codes, arith, Text}
use go_stream.Errors.{ok}
use go_stream.Wire.{Frame}
use go_stream.Peer.{new_peer}
use go_stream.Config.{default_hub_config}
use go_stream.Hub.{World, new_world}
use go_stream.Hub.Sending.{publish_from_bridge}
use go_stream.Redis.{
  publish_on, publish_with_client, Bridge, Envelope, channel_key, publish_to_channel, take_message,
}
use go_stream.Prelude.GoMap.{lookup, insert}
use go_stream.Prelude.GoMap.Nested.{inner}
use go_stream.Hub.{new_hub_with_config}
use go_stream.Hub.Handlers.{subscribe_published}
use go_stream.Hub.Handlers.Laws.{SameHandlers}
use go_stream.Redis.Alone.{IsAlone, at_rest-IsAlone}
use go_stream.Redis.Lifecycle.{
  Session, connected, untouched, after_step, begins, connects, stops, is_refused, Made, at_rest,
  begin, connect_bridge, stop_bridge, finish,
}
use go_stream.Redis.Stops.{bridge-handlers}
use go_stream.Redis.Echo.{take_message-own, take_message-channel}

abbrev ours : Bridge
ours = record { prefix = codes "pool"; source_id = codes "a"; running = true }

abbrev theirs : Bridge
theirs = record { prefix = codes "pool"; source_id = codes "b"; running = true }

abbrev quiet : World
quiet = new_world default_hub_config (λ p. new_peer (p ∷ []) (codes "ws"))

abbrev block : Text
block = codes "block"

abbrev hello : Frame
hello = codes "hi"

abbrev envelope : Envelope
envelope = record { source_id = codes "a"; frame = hello }

take_message-own_example :
    take_message ours quiet (channel_key ours block) (some envelope) ≡ (quiet, ok tt)
unfolding publish_to_channel publish_on publish_with_client
take_message-own_example =
    take_message-own ours quiet block hello (channel_key ours block, envelope) (inl refl)

abbrev foreign : Envelope
foreign = record { source_id = codes "b"; frame = hello }

take_message-channel_example :
    take_message ours quiet (channel_key theirs block) (some foreign)
    ≡ publish_from_bridge quiet block hello
unfolding publish_to_channel publish_on publish_with_client
take_message-channel_example =
    take_message-channel ours theirs quiet block hello (channel_key theirs block, foreign) refl
      (λ e. absurd (ground arith)) refl

abbrev made : Made
made = record { context = 1; subscription = 2; connection = 3 }

bridge-handlers_example :
    let started = connect_bridge quiet.hub (begin at_rest).0 made 7 8 in
    let stopped = stop_bridge started.0 started.1 (ok tt) (ok tt) in
    let left = finish started.0 started.1 made (ok tt) in
    let left_later = finish stopped.0 stopped.1 made (ok tt) in
    (left.1 ≡ at_rest)
    × SameHandlers left.0 quiet.hub
    × (left_later.1 ≡ at_rest)
    × SameHandlers left_later.0 quiet.hub
unfolding lookup inner new_hub_with_config subscribe_published insert
bridge-handlers_example =
    bridge-handlers quiet.hub made 7 8 (ok tt) (ok tt) (ok tt)
      (record { free_channel = λ c. refl; free_broadcast = refl; free_publish = refl })
      (record { free_channel = λ c. refl; free_broadcast = refl; free_publish = refl })

-- A `Start` that has stored its fields, a `Stop`, and another `Start` that comes too early.
abbrev running_one : Session
running_one =
    (begin (
      (stop_bridge quiet.hub ((connect_bridge quiet.hub (begin at_rest).0 made 7 8).1) (ok tt)
        (ok tt)).1)).0

at_rest-IsAlone_example : IsAlone running_one (connected made ∷ [])
unfolding begin connect_bridge stop_bridge
at_rest-IsAlone_example = at_rest-IsAlone (
    after_step
      (after_step
        (after_step (after_step untouched (begins made refl))
          (connects [] [] quiet.hub made 7 8 refl))
        (stops quiet.hub (ok tt) (ok tt)))
      (is_refused refl))
