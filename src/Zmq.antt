-- ===== src/Zmq.antt =====
-- go/adapter/zmq/zmq.go: the message codec and the role tables of the ZeroMQ adapter. Zmq/Adapter models
-- its starting, stopping and publishing, and Zmq/Receiving what a started adapter does.
pub mod Codec
pub mod Adapter
pub mod Receiving
pub mod Lifecycle
pub mod Serving
pub mod Tests
use go_stream.Prelude.{
  ℕ, Bool, true, false, List, [], ◌∷◌, ◌++◌, Option, none, some, ◌||◌, ◌&&◌, not, Text, nat_eq,
  ◌==◌, is_empty, if◌then◌else◌, codes,
}
use go_stream.Errors.{Error, Result, ok, err}
use go_stream.Wire.{Frame}

-- `Mode` and `Role` are ints with named values.
abbrev pub Mode : Type 0
Mode = ℕ

abbrev pub Role : Type 0
Role = ℕ

abbrev pub mode_pub_sub : Mode
mode_pub_sub = 0

abbrev pub mode_push_pull : Mode
mode_push_pull = 1

abbrev pub role_publisher : Role
role_publisher = 0

abbrev pub role_subscriber : Role
role_subscriber = 1

abbrev pub role_pusher : Role
role_pusher = 2

abbrev pub role_puller : Role
role_puller = 3

-- `encodeMessage`.
pub encode_message : Text → Frame → Frame
encode_message channel frame = channel ++ 0 ∷ frame

-- The loop of `decodeMessage`: the bytes it has passed, in reverse, are `before`'s.
pub decode_from : Text → Frame → Option (Text × Frame)
decode_from before [] = none
decode_from before (value ∷ rest) =
    let further = decode_from (before ++ value ∷ []) rest in
    if value == 0 then some (before, rest) else further

-- `decodeMessage`.
pub decode_message : Frame → Option (Text × Frame)
decode_message payload = decode_from [] payload

-- `validateRole`.
pub validate_role : Mode → Role → Result (Unit {0})
validate_role mode role =
    if mode == mode_pub_sub
    then if role == role_publisher || role == role_subscriber then ok tt else err Error.invalid_role
    else if mode == mode_push_pull
    then if role == role_pusher || role == role_puller then ok tt else err Error.invalid_role
    else err Error.invalid_mode

-- `shouldListen`.
pub should_listen : Mode → Role → Bool
should_listen mode role =
    if mode == mode_push_pull then role == role_pusher else role == role_publisher

-- `isSender`.
pub is_sender : Role → Bool
is_sender role = role == role_publisher || role == role_pusher

-- `isReceiver`.
pub is_receiver : Role → Bool
is_receiver role = role == role_subscriber || role == role_puller
