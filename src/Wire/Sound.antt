-- ===== src/Wire/Sound.antt =====
-- What `readTCPFrame` accepts is a frame's wire form, within the limit.
use go_stream.Prelude.{
  ℕ, zero, suc, ◌+◌, ◌≤◌, ◌≡◌, refl, sym, ap, ◌∙◌, Bool, true, false, ◌&&◌, List, [], ◌∷◌, ◌++◌,
  arith, Text, length, take, drop, leb, ltb, if◌then◌else◌, take-append-drop, All, length-take, inl,
  inr, Bool-cases, ◌⊎◌, ◌≢◌, leb→le,
}
use go_stream.Errors.{Error, frame_too_large}
use go_stream.Wire.{
  Frame, IsByte, u32, be32, from_be32, Conn, Read, done, failed, split_payload, read_payload,
  read_sized, read_tcp_frame, cut_short, ReadEnd, closed, silent, broken,
}
use go_stream.Wire.Encode.{wire}
use go_stream.Wire.Decode.{be32-from_be32, drop_four, length-wire_payload, wire_input}

All-take : (n : ℕ) (xs : List ℕ) → All IsByte xs → All IsByte (take n xs)
All-take zero xs h = tt
All-take (suc n) [] h = tt
All-take (suc n) (x ∷ xs) h = (h.0, All-take n xs h.1)

split_payload_sound :
    (payload : List ℕ) {channel : Text} {frame : Frame}
    → All IsByte payload
    → split_payload payload ≡ done (channel, frame)
    → payload ≡ be32 (length channel) ++ (channel ++ frame)
unfolding split_payload
split_payload_sound [] h e = ground arith
split_payload_sound (a ∷ []) h e = ground arith
split_payload_sound (a ∷ b ∷ []) h e = ground arith
split_payload_sound (a ∷ b ∷ c ∷ []) h e = ground arith
split_payload_sound (a ∷ b ∷ c ∷ d ∷ xs) {channel} {frame} h e =
    rw (parts.1, parts.2, take-append-drop n xs, name_length)
      (ap (λ (t : List ℕ). t ++ xs) (sym whole))
  where
    n : ℕ
    n = from_be32 (a ∷ b ∷ c ∷ d ∷ xs)

    parts : (n ≤ length xs) × (channel ≡ take n xs) × (frame ≡ drop n xs)
    parts = ground (arith, drop_four n a b c d xs)

    name_length : length (take n xs) ≡ n
    name_length = omega (arith, length-take n xs, parts.0)

    whole : be32 n ≡ a ∷ b ∷ c ∷ d ∷ []
    whole = be32-from_be32 a b c d xs h

cut_short-ne-done {ℓ} :
    {A : Type ℓ} (on_timeout : Error) (after : ReadEnd) (deadline : Bool) {a : A}
    → cut_short on_timeout after deadline ≢ done a
unfolding cut_short
cut_short-ne-done x closed deadline e = cc
cut_short-ne-done x silent true e = cc
cut_short-ne-done x silent false e = cc
cut_short-ne-done x broken deadline e = cc

read_payload_sound :
    (conn conn' : Conn) (size : ℕ) (channel : Text) (frame : Frame)
    → All IsByte conn.input
    → read_payload conn size ≡ (done (channel, frame), conn')
    → (conn.input ≡ (be32 (length channel) ++ (channel ++ frame)) ++ conn'.input)
      × (size ≡ 4 + length channel + length frame)
unfolding read_payload
read_payload_sound conn conn' size channel frame bytes e =
    elim (Bool-cases (leb size (length conn.input))) [
      | inr short ↦
          absurd
            (cut_short-ne-done _ _ _ (ap (λ (r : Read (Text × Frame) × Conn). r.0) (rw short at e)))
      | inl long ↦
          let e' = rw long at e in
          let payload =
            split_payload_sound (take size conn.input) (All-take size conn.input bytes)
              (ap (λ (r : Read (Text × Frame) × Conn). r.0) e') in
          let rest : drop size conn.input ≡ conn'.input =
            ap (λ (r : Read (Text × Frame) × Conn). r.1.input) e' in
          (
            sym (take-append-drop size conn.input)
                ∙ ap (λ (t : List ℕ). t ++ drop size conn.input) payload
                ∙ ap (◌++◌ (be32 (length channel) ++ (channel ++ frame))) rest,
            omega (
              arith,
              ap length payload,
              length-wire_payload channel frame,
              length-take size conn.input,
              leb→le _ _ long,
            ),
          )
    ]

-- The part of `readTCPFrame` behind the length, for an input of at least four bytes.
read_sized_long :
    (conn conn' : Conn) (limit a b c d : ℕ) (xs : List ℕ) (channel : Text) (frame : Frame)
    → conn.input ≡ a ∷ b ∷ c ∷ d ∷ xs
    → All IsByte (a ∷ b ∷ c ∷ d ∷ xs)
    → read_sized conn limit ≡ (done (channel, frame), conn')
    → (conn.input ≡ wire channel frame ++ conn'.input)
      × ((limit ≡ 0) ⊎ (4 + length channel + length frame ≤ u32 limit))
unfolding read_sized
read_sized_long conn conn' limit a b c d xs channel frame same bytes e =
    elim (Bool-cases (ltb 0 limit && ltb (u32 limit) size)) [
      | inl big ↦
          absurd (failed-ne-done (ap (λ (r : Read (Text × Frame) × Conn). r.0) (rw big at opened)))
      | inr small ↦
          let (input, length_size) =
            read_payload_sound (record conn { input = xs }) conn' size channel frame (bytes.1.1.1.1)
              (rw small at opened) in
          (
            same
                ∙ ap (λ (t : List ℕ). t ++ xs) (sym whole)
                ∙ ap (λ (n : ℕ). be32 n ++ xs) length_size
                ∙ ap (◌++◌ (be32 (4 + length channel + length frame))) input
                ∙ sym (wire_input channel frame conn'.input),
            ground arith,
          )
    ]
  where
    size : ℕ
    size = from_be32 (a ∷ b ∷ c ∷ d ∷ xs)

    whole : be32 size ≡ a ∷ b ∷ c ∷ d ∷ []
    whole = be32-from_be32 a b c d xs bytes

    long : ltb (length (a ∷ b ∷ c ∷ d ∷ xs)) 4 ≡ false
    long = ground arith

    failed-ne-done :
        {x : Error} {r : Text × Frame} → ◌≢◌ {A = Read (Text × Frame)} (failed x) (done r)
    failed-ne-done h = cc

    opened :
        (if ltb 0 limit && ltb (u32 limit) size
          then (failed frame_too_large, record conn { input = xs })
          else read_payload (record conn { input = xs }) size)
        ≡ (done (channel, frame), conn')
    opened = rw (same, long) at e

four_bytes :
    (input : List ℕ)
    → ltb (length input) 4 ≡ false
    → (a : ℕ) × (b : ℕ) × (c : ℕ) × (d : ℕ) × (xs : List ℕ) × (input ≡ a ∷ b ∷ c ∷ d ∷ xs)
four_bytes [] h = absurd (ground arith)
four_bytes (a ∷ []) h = absurd (ground arith)
four_bytes (a ∷ b ∷ []) h = absurd (ground arith)
four_bytes (a ∷ b ∷ c ∷ []) h = absurd (ground arith)
four_bytes (a ∷ b ∷ c ∷ d ∷ xs) h = (a, b, c, d, xs, refl)

read_sized_sound :
    (conn conn' : Conn) (limit : ℕ) (channel : Text) (frame : Frame)
    → All IsByte conn.input
    → read_sized conn limit ≡ (done (channel, frame), conn')
    → (conn.input ≡ wire channel frame ++ conn'.input)
      × ((limit ≡ 0) ⊎ (4 + length channel + length frame ≤ u32 limit))
unfolding read_sized
read_sized_sound conn conn' limit channel frame bytes e =
    elim (Bool-cases (ltb (length conn.input) 4)) [
      | inl short ↦
          absurd
            (cut_short-ne-done _ _ _ (ap (λ (r : Read (Text × Frame) × Conn). r.0) (rw short at e)))
      | inr long ↦
          let (a, b, c, d, xs, same) = four_bytes conn.input long in
          read_sized_long conn conn' limit a b c d xs channel frame same (rw same at bytes) e
    ]

-- Whatever bytes arrive, a frame that `readTCPFrame` returns stood on the wire in its encoded form,
-- followed by exactly what is left to read, and no longer than the limit, if there is one.
pub read_tcp_frame_sound :
    (conn conn' : Conn) (timeout limit : ℕ) (channel : Text) (frame : Frame)
    → All IsByte conn.input
    → read_tcp_frame conn timeout limit ≡ (done (channel, frame), conn')
    → (conn.input ≡ wire channel frame ++ conn'.input)
      × ((limit ≡ 0) ⊎ (4 + length channel + length frame ≤ u32 limit))
unfolding read_tcp_frame
read_tcp_frame_sound conn conn' timeout limit channel frame bytes e =
    elim (Bool-cases conn.can_set_deadline) [
      | inl good ↦ read_sized_sound _ conn' limit channel frame bytes (rw good at e)
      | inr bad ↦ absurd (failed_first (rw bad at e))
    ]
  where
    failed_first :
        {x : Error} {r : Text × Frame} {k : Conn}
        → ◌≢◌ {A = Read (Text × Frame) × Conn} (failed x, k) (done r, conn')
    failed_first h = cc (ap (λ (r : Read (Text × Frame) × Conn). r.0) h)
