-- ===== src/Wire/Tests.antt =====
-- The wire format on small frames.
use go_stream.Prelude.{
  ℕ, ◌≡◌, ◌⊎◌, ◌≤◌, ◌+◌, refl, true, false, List, [], ◌∷◌, ◌++◌, Text, codes, length, arith,
}
use go_stream.Errors.{Result, ok, err, conn_error}
use go_stream.Wire.{
  Frame, Conn, silent, done, read_tcp_frame, u32, read_sized, read_payload, split_payload,
  from_be32,
}
use go_stream.Wire.Encode.{wire}
use go_stream.Wire.Decode.{read_tcp_frame-wire}
use go_stream.Wire.Sound.{read_tcp_frame_sound}

abbrev block : Text
block = codes "block"

abbrev hello : Frame
hello = codes "hi"

abbrev limit : ℕ
limit = 65_535

-- The wire form of the frame, then one byte.
abbrev arrived : Conn
arrived = record {
  input = 0 ∷ 0 ∷ 0 ∷ 11 ∷ 0 ∷ 0 ∷ 0 ∷ 5 ∷ 98 ∷ 108 ∷ 111 ∷ 99 ∷ 107 ∷ 104 ∷ 105 ∷ 9 ∷ [];
  after = silent;
  can_set_deadline = true;
  has_deadline = false;
}

abbrev sent : Conn
sent = record {
  input = wire block hello ++ 9 ∷ [];
  after = silent;
  can_set_deadline = true;
  has_deadline = false;
}

read_tcp_frame-wire_example :
    read_tcp_frame sent 0 65_535
    ≡ (done (block, hello), record sent { input = 9 ∷ []; has_deadline = false })
read_tcp_frame-wire_example =
    read_tcp_frame-wire sent 0 65_535 block hello (9 ∷ []) (omega arith) (omega arith) refl refl

read_tcp_frame_sound_example :
    (arrived.input ≡ wire block hello ++ 9 ∷ [])
    × ((limit ≡ 0) ⊎ (4 + length block + length hello ≤ u32 limit))
unfolding read_tcp_frame read_sized read_payload split_payload from_be32
read_tcp_frame_sound_example =
    read_tcp_frame_sound arrived (record arrived { input = 9 ∷ [] }) 0 65_535 block hello
      (ground arith) refl

abbrev answers : List (Result ℕ)
answers = ok 3 ∷ ok 1 ∷ err conn_error ∷ []
