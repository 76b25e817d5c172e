-- ===== src/Wire.antt =====
-- The TCP wire format: `encodeTCPFrame` of go/stream.go (used by the hub), its copy in
-- go/adapter/tcp/tcp.go, and `readTCPFrame` of the latter. A frame is a four-byte length, a
-- four-byte channel length, the channel and the payload; the integers are big-endian uint32.
pub mod Encode
pub mod Decode
pub mod Sound
pub mod Tests
pub mod Writing
use go_stream.Prelude.{
  ℕ, ◌+◌, ◌-◌, ◌*◌, ◌/◌, ◌%◌, ◌^◌, ◌≤◌, ◌<◌, Bool, true, false, ◌&&◌, List, [], ◌∷◌, ◌++◌, Option,
  none, some, Text, length, take, drop, replicate, leb, ltb, if◌then◌else◌,
}
use go_stream.Errors.{
  Error, handshake_timeout, frame_too_large, invalid_frame, conn_error, deadline_error,
}

abbrev pub Frame : Type 0
Frame = List ℕ

abbrev pub IsByte : ℕ → Type 0
IsByte b = b < 256

-- `uint32(n)`.
abbrev pub u32 : ℕ → ℕ
u32 n = n % 2 ^ 32

-- `binary.BigEndian.PutUint32` into four bytes, for a value below 2 ^ 32.
pub be32 : ℕ → List ℕ
be32 n = (n / 2 ^ 24) ∷ (n / 2 ^ 16 % 256) ∷ (n / 2 ^ 8 % 256) ∷ (n % 256) ∷ []

-- `binary.BigEndian.Uint32` of the first four bytes.
pub from_be32 : List ℕ → ℕ
from_be32 (a ∷ b ∷ c ∷ d ∷ rest) = a * 2 ^ 24 + b * 2 ^ 16 + c * 2 ^ 8 + d
from_be32 _ = 0

infixl 5 ◌>>=◌
abbrev ◌>>=◌ {ℓ κ} : {A : Type ℓ} {B : Type κ} → Option A → (A → Option B) → Option B
none >>= f = none
some a >>= f = f a

-- `make([]byte, n)`.
abbrev pub zeros : ℕ → List ℕ
zeros n = replicate n 0

-- The buffer with `src` written at `off`, where it fits.
pub overwrite : ℕ → List ℕ → List ℕ → List ℕ
overwrite off src buf = take off buf ++ (src ++ drop (off + length src) buf)

-- `copy(buf[lo:hi], src)`; `none` is the panic of a slice that is out of range.
pub copy_into : ℕ → ℕ → List ℕ → List ℕ → Option (List ℕ)
copy_into lo hi src buf =
    if leb lo hi && leb hi (length buf) then some (overwrite lo (take (hi - lo) src) buf) else none

-- `encodeTCPFrame` of stream.go; the lengths wrap as uint32.
pub encode_tcp_frame : Text → Frame → Option (List ℕ)
encode_tcp_frame channel frame = do
  let payload_length = u32 (4 + length channel + length frame)
  let output = zeros (u32 (4 + payload_length))
  sized ← copy_into 0 4 (be32 payload_length) output
  headed ← copy_into 4 8 (be32 (u32 (length channel))) sized
  named ← copy_into 8 (8 + length channel) channel headed
  copy_into (8 + length channel) (length named) frame named

-- The copy in adapter/tcp/tcp.go, which leaves the channel's slice open at the end.
pub encode_adapter_frame : Text → Frame → Option (List ℕ)
encode_adapter_frame channel frame = do
  let payload_length = u32 (4 + length channel + length frame)
  let buffer = zeros (u32 (4 + payload_length))
  sized ← copy_into 0 4 (be32 payload_length) buffer
  headed ← copy_into 4 8 (be32 (u32 (length channel))) sized
  named ← copy_into 8 (length headed) channel headed
  copy_into (8 + length channel) (length named) frame named

-- What a read meets behind the bytes that have arrived: the other side is gone, it is silent, or the
-- connection is broken.
pub data ReadEnd : Type 0 where
  closed silent broken : ReadEnd

pub record Conn : Type 0 where
  pub input : List ℕ
  pub after : ReadEnd
  -- Whether `SetReadDeadline` succeeds, and whether a deadline is set.
  pub can_set_deadline : Bool
  pub has_deadline : Bool

-- `waiting`: the call blocks, with no deadline to end it.
pub data Read {ℓ} (A : Type ℓ) : Type ℓ where
  done : A → Read A
  failed : Error → Read A
  waiting : Read A

-- What a read of more bytes than there are returns; only the read of the length turns a timeout
-- into `ErrHandshakeTimeout`.
unfoldable pub cut_short {ℓ} : {A : Type ℓ} → Error → ReadEnd → Bool → Read A
cut_short on_timeout silent true = failed on_timeout
cut_short on_timeout silent false = waiting
cut_short on_timeout _ deadline = failed conn_error

-- The payload of `readTCPFrame`, after `io.ReadFull`.
unfoldable pub split_payload : List ℕ → Read (Text × Frame)
split_payload payload =
    if ltb (length payload) 4
    then failed invalid_frame
    else if ltb (length payload - 4) (from_be32 payload)
    then failed invalid_frame
    else done (take (from_be32 payload) (drop 4 payload), drop (4 + from_be32 payload) payload)

-- The read of `io.ReadFull(conn, payload)` and what follows it.
unfoldable pub read_payload : Conn → ℕ → Read (Text × Frame) × Conn
read_payload conn size =
    if leb size (length conn.input)
    then (split_payload (take size conn.input), record conn { input = drop size conn.input })
    else (cut_short conn_error conn.after conn.has_deadline, record conn { input = [] })

-- `binary.Read` of the length, and its check against the limit.
unfoldable pub read_sized : Conn → ℕ → Read (Text × Frame) × Conn
read_sized conn max_frame_size =
    if ltb (length conn.input) 4
    then (cut_short handshake_timeout conn.after conn.has_deadline, record conn { input = [] })
    else let size = from_be32 conn.input in
      let rest = record conn { input = drop 4 conn.input } in
      if ltb 0 max_frame_size && ltb (u32 max_frame_size) size
      then (failed frame_too_large, rest)
      else read_payload rest size

-- `readTCPFrame(conn, timeout, maxFrameSize)`. The clock enters by `after`.
unfoldable pub read_tcp_frame : Conn → ℕ → ℕ → Read (Text × Frame) × Conn
read_tcp_frame conn timeout max_frame_size =
    if conn.can_set_deadline
    then read_sized (record conn { has_deadline = ltb 0 timeout }) max_frame_size
    else (failed deadline_error, conn)
