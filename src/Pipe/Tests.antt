-- ===== src/Pipe/Tests.antt =====
-- A pipe from a new hub.
use go_stream.Prelude.{◌≡◌, refl, true, false}
use go_stream.Prelude.GoMap.{lookup, insert}
use go_stream.Prelude.GoMap.Nested.{inner}
use go_stream.Config.{default_hub_config}
use go_stream.Hub.{Hub, new_hub_with_config}
use go_stream.Hub.Handlers.{subscribe_published}
use go_stream.Hub.Handlers.Laws.{SameHandlers}
use go_stream.Pipe.{pipe, call_pipe_stop}
use go_stream.Pipe.Laws.{pipe-stop}

abbrev source : Hub
source = new_hub_with_config default_hub_config

pipe-stop_example :
    let (piped, stop) = pipe false source true true 7 8 9 in
    let (stopped, spent) = call_pipe_stop piped stop in
    SameHandlers stopped source × ((call_pipe_stop stopped spent).0 ≡ stopped)
unfolding lookup inner new_hub_with_config subscribe_published insert
pipe-stop_example =
    pipe-stop source 7 8 9
      (record { free_channel = λ c. refl; free_broadcast = refl; free_publish = refl })
      (record { free_channel = λ c. refl; free_broadcast = refl; free_publish = refl })
