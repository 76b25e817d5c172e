-- ===== src/Redis.antt =====
-- go/adapter/redis/redis.go: the bridge's Redis channel names and its receive loop. The client is
-- github.com/redis/go-redis, and the envelope's JSON is dappco.re/go's: what they answer are arguments.
pub mod Echo
pub mod Lifecycle
pub mod Stops
pub mod Alone
pub mod Tests
use go_stream.Prelude.{
  not, ℕ, Bool, true, false, List, [], ◌∷◌, ◌++◌, Option, none, some, Text, text_eq, text_beq, ◌==◌,
  codes, is_empty, take, drop, length, if◌then◌else◌,
}
use go_stream.Errors.{Error, Result, ok, err, empty_channel, not_started}
use go_stream.Wire.{Frame}
use go_stream.Hub.{World}
use go_stream.Hub.Members.{Done}
use go_stream.Hub.Sending.{publish_from_bridge, broadcast_from_bridge}

-- `Bridge`, the fields that the modelled code reads.
pub record Bridge : Type 0 where
  pub prefix : Text
  pub source_id : Text
  pub running : Bool

pub record Envelope : Type 0 where
  pub source_id : Text
  pub frame : Frame

-- `NewBridge`'s default prefix.
abbrev pub prefix_or_default : Text → Text
prefix_or_default prefix = if is_empty prefix then codes "stream" else prefix

-- `broadcastChannel`.
pub broadcast_channel : Bridge → Text
broadcast_channel bridge = bridge.prefix ++ codes ":broadcast"

-- What the keys of channels begin with.
abbrev pub key_prefix : Bridge → Text
key_prefix bridge = bridge.prefix ++ codes ":channel:"

-- `channelKey` and `channelPattern`.
pub channel_key : Bridge → Text → Text
channel_key bridge channel = key_prefix bridge ++ channel

abbrev channel_pattern : Bridge → Text
channel_pattern bridge = key_prefix bridge ++ codes "*"

-- `core.TrimPrefix`, as `strings.TrimPrefix` trims.
abbrev pub trim_prefix : Text → Text → Text
trim_prefix s prefix =
    if text_beq (take (length prefix) s) prefix then drop (length prefix) s else s

-- `channelFromRedis`.
pub channel_from_redis : Bridge → Text → Text
channel_from_redis bridge channel =
    if channel == broadcast_channel bridge then [] else trim_prefix channel (key_prefix bridge)

-- `publishWithClient`: the channel and the envelope that are handed to the client. The client is never nil
-- here, and the JSON of a string and bytes does not fail; what the client's `Publish` answers is left out.
pub publish_with_client : Bridge → Text → Frame → Text × Envelope
publish_with_client bridge channel frame =
    (channel, record { source_id = bridge.source_id; frame = frame })

-- `publish`.
pub publish_on : Bridge → Text → Frame → Result (Text × Envelope)
publish_on bridge channel frame =
    if not bridge.running then err not_started else ok (publish_with_client bridge channel frame)

-- `PublishToChannel`.
pub publish_to_channel : Bridge → Text → Frame → Result (Text × Envelope)
publish_to_channel bridge channel frame =
    if is_empty channel
    then err empty_channel
    else publish_on bridge (channel_key bridge channel) frame

-- `PublishBroadcast`.
pub publish_broadcast : Bridge → Frame → Result (Text × Envelope)
publish_broadcast bridge frame = publish_on bridge (broadcast_channel bridge) frame

-- The loop of `Start` from `decoded` on; an envelope that does not decode is `none`.
pub take_message : Bridge → World → Text → Option Envelope → World × Done
take_message bridge w channel none = (w, ok tt)
take_message bridge w channel (some decoded) =
    let name = channel_from_redis bridge channel in
    if decoded.source_id == bridge.source_id
    then (w, ok tt)
    else if is_empty name
    then broadcast_from_bridge w decoded.frame
    else publish_from_bridge w name decoded.frame

abbrev then_take : World × Done → (World → World × Done) → World × Done
then_take (w, ok _) further = further w
then_take (w, err e) further = (w, err e)

-- The loop over the messages that arrive, each with its Redis channel.
abbrev receive_messages : Bridge → World → List (Text × Option Envelope) → World × Done
receive_messages bridge w [] = (w, ok tt)
receive_messages bridge w ((channel, message) ∷ messages) =
    then_take (take_message bridge w channel message) (λ u. receive_messages bridge u messages)
