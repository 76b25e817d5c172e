-- ===== src/Message.antt =====
-- go/message.go: the messages that WebSocket clients exchange with a hub. The data of a message is opaque,
-- except in the answers that the adapter makes; a time is a number. JSON is a library: the text of a
-- message is an argument where it is needed.
use go_stream.Prelude.{ℕ, Text, codes}
use go_stream.Errors.{Error}

-- `MessageType` and its values that the adapter tells apart or makes.
abbrev pub MessageType : Type 0
MessageType = Text

abbrev pub type_error : MessageType
type_error = codes "error"

abbrev pub type_ping : MessageType
type_ping = codes "ping"

abbrev pub type_pong : MessageType
type_pong = codes "pong"

abbrev pub type_subscribe : MessageType
type_subscribe = codes "subscribe"

abbrev pub type_unsubscribe : MessageType
type_unsubscribe = codes "unsubscribe"

-- No data, a client's value, or the text of an error under the key `message`.
pub data Data : Type 0 where
  no_data : Data
  value : ℕ → Data
  error_text : Error → Data

pub record Message : Type 0 where
  pub kind : MessageType
  pub channel : Text
  pub process_id : Text
  pub content : Data
  pub timestamp : ℕ
