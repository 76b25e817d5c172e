-- ===== src/Service.antt =====
-- go/service.go: the hub as a service of the core framework. The framework is not in the repository: what
-- `core.Options` answers is an argument, and what the service asks of the framework is recorded. The
-- world of a service is that of its hub, or none where the service or its hub is nil.
pub mod Handlers
pub mod Lifecycle
pub mod Tests
use go_stream.Prelude.{
  Bool, true, false, List, [], ◌∷◌, ◌++◌, map, Option, none, some, Text, codes, is_empty,
  if◌then◌else◌,
}
use go_stream.Errors.{
  Result, ok, err, service_not_initialised, channel_required, frame_required, frame_not_bytes,
}
use go_stream.Wire.{Frame}
use go_stream.Config.{HubConfig}
use go_stream.Hub.{Hub, World, config_of}
use go_stream.Hub.Members.{Done}
use go_stream.Hub.Sending.{publish, broadcast, send_to_channel}
use go_stream.Hub.Counts.{HubStats, stats}

-- A value of an option: a `[]byte`, a `string` or something else.
pub data Value : Type 0 where
  bytes : Frame → Value
  string : Text → Value
  other : Value

-- The answers of `opts.String("channel")` and of `opts.Get("frame")`, which may fail.
pub record Options : Type 0 where
  pub channel : Text
  pub frame : Option Value

-- `frameBytes`.
pub frame_bytes : Option Value → Result Frame
frame_bytes none = err frame_required
frame_bytes (some (bytes v)) = ok v
frame_bytes (some (string v)) = ok v
frame_bytes (some other) = err frame_not_bytes

abbrev pub in_service : World × Done → Option World × Done
in_service (w, result) = (some w, result)

-- `if !frameR.OK { return frameR }`, then the call with the bytes.
abbrev pub with_bytes : World → Result Frame → (Frame → World × Done) → Option World × Done
with_bytes w (err e) call = (some w, err e)
with_bytes w (ok frame) call = in_service (call frame)

-- `handlePublish`.
pub handle_publish : Option World → Options → Option World × Done
handle_publish none opts = (none, err service_not_initialised)
handle_publish (some w) opts =
    if is_empty opts.channel
    then (some w, err channel_required)
    else with_bytes w (frame_bytes opts.frame) (λ frame. publish w opts.channel frame)

-- `handleBroadcast`.
pub handle_broadcast : Option World → Options → Option World × Done
handle_broadcast none opts = (none, err service_not_initialised)
handle_broadcast (some w) opts = with_bytes w (frame_bytes opts.frame) (λ frame. broadcast w frame)

-- `handleSendChannel`.
pub handle_send_channel : Option World → Options → Option World × Done
handle_send_channel none opts = (none, err service_not_initialised)
handle_send_channel (some w) opts =
    if is_empty opts.channel
    then (some w, err channel_required)
    else with_bytes w (frame_bytes opts.frame) (λ frame. send_to_channel w opts.channel frame true)

-- `handleStats`, `handleRunning` and `handleConfig`.
pub handle_stats : Option World → Result HubStats
handle_stats none = err service_not_initialised
handle_stats (some w) = ok (stats w.hub)

pub handle_running : Option World → Result Bool
handle_running none = err service_not_initialised
handle_running (some w) = ok w.running

pub handle_config : Option World → Result HubConfig
handle_config none = err service_not_initialised
handle_config (some w) = ok (config_of w.hub)

-- `Service`: whether there is a core, whether `registrations` has run, and whether `cancel` is set.
pub record Service : Type 0 where
  pub has_core : Bool
  pub registered : Bool
  pub has_cancel : Bool

-- What the service does to others: a handler given to the core under a name, the loop of the hub in a
-- goroutine, and the end of that loop's context.
pub data Effect : Type 0 where
  registers : Text → Effect
  runs_hub cancels : Effect

abbrev action_names : List Text
action_names =
    codes "stream.publish"
    ∷ codes "stream.broadcast"
    ∷ codes "stream.send_channel"
    ∷ codes "stream.stats"
    ∷ codes "stream.running"
    ∷ codes "stream.config"
    ∷ []

-- The service that `NewService` makes, over a core or none.
abbrev pub new_service : Bool → Service
new_service has_core = record { has_core = has_core; registered = false; has_cancel = false }

abbrev pub startup_effects : List Effect
startup_effects = map registers action_names ++ runs_hub ∷ []

-- The function that `OnStartup` gives to `registrations.Do`.
unfoldable pub register_actions : Service → Service × List Effect
register_actions s =
    if s.has_core
    then (record s { registered = true; has_cancel = true }, startup_effects)
    else (record s { registered = true }, [])

-- `OnStartup` of a service that is not nil; it always succeeds.
unfoldable pub on_startup : Service → Service × List Effect
on_startup s = if s.registered then (s, []) else register_actions s

-- `OnShutdown` of a service that is not nil; it always succeeds.
unfoldable pub on_shutdown : Service → Service × List Effect
on_shutdown s = (s, if s.has_cancel then cancels ∷ [] else [])

-- A call by the framework, and any number of them.
pub data Hook : Type 0 where
  startup shutdown : Hook

unfoldable pub call_hook : Hook → Service → Service × List Effect
unfolding on_startup on_shutdown
call_hook startup s = on_startup s
call_hook shutdown s = on_shutdown s

abbrev pub call_hooks : List Hook → Service → Service × List Effect
call_hooks [] s = (s, [])
call_hooks (hook ∷ hooks) s =
    let first = call_hook hook s in
    let rest = call_hooks hooks first.0 in (rest.0, first.1 ++ rest.1)
