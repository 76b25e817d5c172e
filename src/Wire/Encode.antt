-- ===== src/Wire/Encode.antt =====
-- What `encodeTCPFrame` writes, and that its two copies agree.
use mathlib.Core.List.{append_assoc, append-nil}
use go_stream.Prelude.{
  ℕ, zero, suc, ◌+◌, ◌-◌, ◌^◌, ◌≤◌, ◌<◌, ◌≡◌, refl, sym, ap, ◌∙◌, true, List, [], ◌∷◌, ◌++◌, some,
  arith, Text, length, take, drop, leb, take_all, take-append_self, length-append, length-replicate,
}
use go_stream.Wire.{
  Frame, u32, zeros, be32, overwrite, copy_into, encode_tcp_frame, encode_adapter_frame,
}

-- The frame as it stands on the wire.
unfoldable pub wire : Text → Frame → List ℕ
wire channel frame =
    be32 (4 + length channel + length frame) ++ (be32 (length channel) ++ (channel ++ frame))

length-zeros : (n : ℕ) → length (zeros n) ≡ n
length-zeros n = length-replicate n 0

drop-append_more : (xs ys : List ℕ) (k : ℕ) → drop (length xs + k) (xs ++ ys) ≡ drop k ys
drop-append_more [] ys k = rw zero-add
  where
    zero-add : 0 + k ≡ k
    zero-add = omega arith
drop-append_more (x ∷ xs) ys k = rw suc-add (drop-append_more xs ys k)
  where
    suc-add : suc (length xs) + k ≡ suc (length xs + k)
    suc-add = omega arith

drop-replicate : (n k : ℕ) → drop n (zeros (n + k)) ≡ zeros k
drop-replicate zero k = ap zeros (omega arith)
drop-replicate (suc n) k = rw suc-add (drop-replicate n k)
  where
    suc-add : suc n + k ≡ suc (n + k)
    suc-add = omega arith

-- A copy into the untouched rest of a buffer, where there is room.
copy_fresh :
    (front src : List ℕ) (hi k : ℕ)
    → length front + length src ≤ hi
    → hi ≤ length front + (length src + k)
    → copy_into (length front) hi src (front ++ zeros (length src + k))
      ≡ some ((front ++ src) ++ zeros k)
unfolding copy_into overwrite
copy_fresh front src hi k lo_fits hi_fits = rw (lower, upper, whole, start, rest, append_assoc)
  where
    lower : leb (length front) hi ≡ true
    lower = ground arith

    upper : leb hi (length (front ++ zeros (length src + k))) ≡ true
    upper =
        rw (length-append front (zeros (length src + k)), length-zeros (length src + k))
          (ground arith)

    whole : take (hi - length front) src ≡ src
    whole = take_all (hi - length front) src (omega arith)

    start : take (length front) (front ++ zeros (length src + k)) ≡ front
    start = take-append_self front (zeros (length src + k))

    rest : drop (length front + length src) (front ++ zeros (length src + k)) ≡ zeros k
    rest = drop-append_more front _ (length src) ∙ drop-replicate (length src) k

copy_at :
    (front src : List ℕ) (lo hi m k : ℕ)
    → lo ≡ length front
    → m ≡ length src + k
    → length front + length src ≤ hi
    → hi ≤ length front + m
    → copy_into lo hi src (front ++ zeros m) ≡ some ((front ++ src) ++ zeros k)
copy_at front src lo hi m k at_lo at_m lo_fits hi_fits =
    rw (at_lo, at_m) (copy_fresh front src hi k lo_fits (omega arith))

-- The four copies that fill the frame, one after the other.
module _ (size name channel frame : List ℕ) (is_size : length size ≡ 4)
    (is_name : length name ≡ 4) where
  sized_lem :
      (n : ℕ)
      → n ≡ 8 + length channel + length frame
      → copy_into 0 4 size (zeros n) ≡ some (size ++ zeros (4 + (length channel + length frame)))
  sized_lem n e =
      copy_at [] size 0 4 n (4 + (length channel + length frame)) refl (omega arith) (omega arith)
        (omega arith)

  headed_lem :
      copy_into 4 8 name (size ++ zeros (4 + (length channel + length frame)))
      ≡ some ((size ++ name) ++ zeros (length channel + length frame))
  headed_lem =
      copy_at size name 4 8 _ (length channel + length frame) (omega arith) (omega arith)
        (omega arith) (omega arith)

  eight : length (size ++ name) ≡ 8
  eight = omega (arith, length-append size name)

  named_lem :
      (hi : ℕ)
      → 8 + length channel ≤ hi
      → hi ≤ 8 + (length channel + length frame)
      → copy_into 8 hi channel ((size ++ name) ++ zeros (length channel + length frame))
        ≡ some (((size ++ name) ++ channel) ++ zeros (length frame))
  named_lem hi lo_fits hi_fits =
      copy_at (size ++ name) channel 8 hi _ (length frame) (sym eight) refl (omega (arith, eight))
        (omega (arith, eight))

  filled_lem :
      (hi : ℕ)
      → hi ≡ length (((size ++ name) ++ channel) ++ zeros (length frame))
      → copy_into
          (8 + length channel)
          hi
          frame
          (((size ++ name) ++ channel) ++ zeros (length frame))
        ≡ some (size ++ (name ++ (channel ++ frame)))
  filled_lem hi e =
      copy_at ((size ++ name) ++ channel) frame (8 + length channel) hi (length frame) 0
        (omega (arith, eight, length-append (size ++ name) channel)) (omega arith)
        (omega (arith, total)) (omega (arith, total))
      ∙ ap some (
          append-nil _
          ∙ append_assoc (size ++ name) channel frame
          ∙ append_assoc size name (channel ++ frame))
    where
      total : hi ≡ length ((size ++ name) ++ channel) + length frame
      total =
          e
          ∙ length-append ((size ++ name) ++ channel) (zeros (length frame))
          ∙ ap (◌+◌ (length ((size ++ name) ++ channel))) (length-zeros (length frame))

-- The lengths of a frame fit their four bytes.
abbrev pub Fits : Text → Frame → Type 0
Fits channel frame = 8 + length channel + length frame < 2 ^ 32

length-be32 : (n : ℕ) → length (be32 n) ≡ 4
unfolding be32
length-be32 n = refl

module _ (channel : Text) (frame : Frame) (fits : Fits channel frame) where
  payload_size : u32 (4 + length channel + length frame) ≡ 4 + length channel + length frame
  payload_size = omega arith

  total_size : u32 (4 + (4 + length channel + length frame)) ≡ 8 + length channel + length frame
  total_size = omega arith

  channel_size : u32 (length channel) ≡ length channel
  channel_size = omega arith

  abbrev head_bytes : List ℕ
  head_bytes = be32 (4 + length channel + length frame) ++ be32 (length channel)

  length-headed :
      length (head_bytes ++ zeros (length channel + length frame))
      ≡ 8 + length channel + length frame
  length-headed = omega (
    arith,
    length-append head_bytes (zeros (length channel + length frame)),
    eight (be32 (4 + length channel + length frame)) (be32 (length channel)) channel frame
        (length-be32 _) (length-be32 _),
    length-zeros (length channel + length frame),
  )

  size_length : length (be32 (4 + length channel + length frame)) ≡ 4
  size_length = length-be32 _

  -- The four copies, the third for any end of the channel's slice.
  first_copy :
      (copy_into 0 4
        (be32 (4 + length channel + length frame))
        (zeros (8 + length channel + length frame)))
      ≡ some
          (be32 (4 + length channel + length frame) ++ zeros (4 + (length channel + length frame)))
  first_copy = sized_lem _ (be32 (length channel)) channel frame size_length (length-be32 _) _ refl

  second_copy :
      copy_into 4 8
        (be32 (length channel))
        (be32 (4 + length channel + length frame) ++ zeros (4 + (length channel + length frame)))
      ≡ some (head_bytes ++ zeros (length channel + length frame))
  second_copy = headed_lem _ (be32 (length channel)) channel frame size_length (length-be32 _)

  third_copy :
      (hi : ℕ)
      → 8 + length channel ≤ hi
      → hi ≤ 8 + (length channel + length frame)
      → copy_into 8 hi channel (head_bytes ++ zeros (length channel + length frame))
        ≡ some ((head_bytes ++ channel) ++ zeros (length frame))
  third_copy = named_lem _ (be32 (length channel)) channel frame size_length (length-be32 _)

  last_copy :
      copy_into
        (8 + length channel)
        (length ((head_bytes ++ channel) ++ zeros (length frame)))
        frame
        ((head_bytes ++ channel) ++ zeros (length frame))
      ≡ some (wire channel frame)
  unfolding wire
  last_copy = filled_lem _ (be32 (length channel)) channel frame size_length (length-be32 _) _ refl

  -- Where the lengths fit, the hub's encoder returns the frame's wire form; it does not panic.
  pub encode_tcp_frame-wire : encode_tcp_frame channel frame ≡ some (wire channel frame)
  unfolding encode_tcp_frame wire
  encode_tcp_frame-wire = rw (
    payload_size,
    total_size,
    channel_size,
    first_copy,
    second_copy,
    third_copy (8 + length channel) (omega arith) (omega arith),
    last_copy,
  )

  -- So does the TCP adapter's.
  pub encode_adapter_frame-wire : encode_adapter_frame channel frame ≡ some (wire channel frame)
  unfolding encode_adapter_frame wire
  encode_adapter_frame-wire = rw (
    payload_size,
    total_size,
    channel_size,
    first_copy,
    second_copy,
    third_copy (length (head_bytes ++ zeros (length channel + length frame)))
        (omega (arith, length-headed)) (omega (arith, length-headed)),
    last_copy,
  )
