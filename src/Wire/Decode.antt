-- ===== src/Wire/Decode.antt =====
-- `readTCPFrame` reads back what `encodeTCPFrame` writes, and accepts nothing else.
use go_stream.Prelude.{
  ℕ, suc, ◌+◌, ◌-◌, ◌^◌, ◌≤◌, ◌<◌, ◌≡◌, refl, true, false, ◌&&◌, List, [], ◌∷◌, ◌++◌, arith, Text,
  length, take, drop, leb, ltb, take-append_self, drop-append_self, length-append, All, ◌⊎◌,
}
use go_stream.Wire.{
  Frame, IsByte, u32, be32, from_be32, Conn, done, split_payload, read_payload, read_sized,
  read_tcp_frame,
}
use go_stream.Wire.Encode.{wire, Fits}

from_be32-be32 : (n : ℕ) (rest : List ℕ) → n < 2 ^ 32 → from_be32 (be32 n ++ rest) ≡ n
unfolding from_be32 be32
from_be32-be32 n rest h = omega arith

pub be32-from_be32 :
    (a b c d : ℕ) (rest : List ℕ)
    → All IsByte (a ∷ b ∷ c ∷ d ∷ rest)
    → be32 (from_be32 (a ∷ b ∷ c ∷ d ∷ rest)) ≡ a ∷ b ∷ c ∷ d ∷ []
unfolding from_be32 be32
be32-from_be32 a b c d rest h = ground arith

pub drop_four : (n : ℕ) (a b c d : ℕ) (xs : List ℕ) → drop (4 + n) (a ∷ b ∷ c ∷ d ∷ xs) ≡ drop n xs
drop_four n a b c d xs = rw four
  where
    four : 4 + n ≡ suc (suc (suc (suc n)))
    four = omega arith

split_payload-wire :
    (channel : Text) (frame : Frame)
    → Fits channel frame
    → split_payload (be32 (length channel) ++ (channel ++ frame)) ≡ done (channel, frame)
unfolding split_payload be32
split_payload-wire channel frame fits = rw (name_size, drop_four, long, enough, name, rest)
  where
    payload : List ℕ
    payload = be32 (length channel) ++ (channel ++ frame)

    name_size : from_be32 payload ≡ length channel
    name_size = from_be32-be32 (length channel) (channel ++ frame) (omega arith)

    long : ltb (length payload) 4 ≡ false
    long = ground arith

    enough : ltb (length payload - 4) (length channel) ≡ false
    enough = ground (arith, length-append channel frame)

    name : take (length channel) (channel ++ frame) ≡ channel
    name = take-append_self channel frame

    rest : drop (length channel) (channel ++ frame) ≡ frame
    rest = drop-append_self channel frame

pub length-wire_payload :
    (channel : Text) (frame : Frame)
    → length (be32 (length channel) ++ (channel ++ frame)) ≡ 4 + length channel + length frame
unfolding be32
length-wire_payload channel frame = omega (arith, length-append channel frame)

read_payload-wire :
    (conn : Conn) (channel : Text) (frame : Frame) (rest : List ℕ)
    → Fits channel frame
    → conn.input ≡ (be32 (length channel) ++ (channel ++ frame)) ++ rest
    → read_payload conn (4 + length channel + length frame)
      ≡ (done (channel, frame), record conn { input = rest })
unfolding read_payload
read_payload-wire conn channel frame rest fits e = rw (
  e,
  ← length-wire_payload channel frame,
  enough,
  take-append_self payload rest,
  drop-append_self payload rest,
  split_payload-wire channel frame fits,
)
  where
    payload : List ℕ
    payload = be32 (length channel) ++ (channel ++ frame)

    enough : leb (length payload) (length (payload ++ rest)) ≡ true
    enough = ground (arith, length-append payload rest)

pub wire_input :
    (channel : Text) (frame : Frame) (rest : List ℕ)
    → wire channel frame ++ rest
      ≡ be32 (4 + length channel + length frame)
        ++ ((be32 (length channel) ++ (channel ++ frame)) ++ rest)
unfolding wire be32
wire_input channel frame rest = refl

-- A frame that the limit admits; 0 is no limit.
abbrev Admits : ℕ → Text → Frame → Type 0
Admits limit channel frame =
    (limit ≡ 0) ⊎ (4 + length channel + length frame ≤ limit) × (limit < 2 ^ 32)

read_sized-wire :
    (conn : Conn) (limit : ℕ) (channel : Text) (frame : Frame) (rest : List ℕ)
    → Fits channel frame
    → Admits limit channel frame
    → conn.input ≡ wire channel frame ++ rest
    → read_sized conn limit ≡ (done (channel, frame), record conn { input = rest })
unfolding read_sized
read_sized-wire conn limit channel frame rest fits small e =
    rw (e, wire_input channel frame rest, long, size, admitted, behind)
      (read_payload-wire _ channel frame rest fits refl)
  where
    body : List ℕ
    body = (be32 (length channel) ++ (channel ++ frame)) ++ rest

    head : List ℕ
    head = be32 (4 + length channel + length frame)

    long : ltb (length (head ++ body)) 4 ≡ false
    long = unfold be32 in ground arith

    size : from_be32 (head ++ body) ≡ 4 + length channel + length frame
    size = from_be32-be32 _ body (omega arith)

    behind : drop 4 (head ++ body) ≡ body
    behind = unfold be32 in refl

    admitted : ltb 0 limit && ltb (u32 limit) (4 + length channel + length frame) ≡ false
    admitted = ground arith

-- A frame that fits its length fields and the reader's limit is read back from the front of the
-- connection, whatever follows it, and exactly its bytes are consumed.
pub read_tcp_frame-wire :
    (conn : Conn) (timeout limit : ℕ) (channel : Text) (frame : Frame) (rest : List ℕ)
    → Fits channel frame
    → Admits limit channel frame
    → conn.can_set_deadline ≡ true
    → conn.input ≡ wire channel frame ++ rest
    → read_tcp_frame conn timeout limit
      ≡ (done (channel, frame), record conn { input = rest; has_deadline = ltb 0 timeout })
unfolding read_tcp_frame
read_tcp_frame-wire conn timeout limit channel frame rest fits small settable e =
    rw settable (read_sized-wire _ limit channel frame rest fits small e)
