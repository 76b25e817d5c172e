-- ===== src/Zmq/Codec.antt =====
-- The codec and the role tables of go/adapter/zmq/zmq.go.
use go_stream.Prelude.{
  append_assoc, append_nil, ℕ, [], ◌∷◌, ◌++◌, Option, none, some, not, Text, nat_eq, All, ◌≡◌, ◌≢◌,
  subst, sym, ap, ◌∙◌, arith, nat_beq_iff, if_cases, nat_beq,
}
use go_stream.Errors.{ok}
use go_stream.Wire.{Frame}
use go_stream.Zmq.{
  Mode, Role, encode_message, decode_from, decode_message, validate_role, should_listen, is_sender,
  is_receiver,
}

decode_from-encode :
    (before channel : Text) (frame : Frame)
    → All (λ b. b ≢ 0) channel
    → decode_from before (channel ++ 0 ∷ frame) ≡ some (before ++ channel, frame)
unfolding decode_from
decode_from-encode before [] frame h = ap (λ s. some (s, frame)) (sym (append_nil before))
decode_from-encode before (b ∷ channel) frame h =
    if_cases (λ r. r ≡ some (before ++ b ∷ channel, frame)) (nat_beq b 0)
      (λ e. absurd (h.0 ((nat_beq_iff b 0).0 e)))
      (λ e.
        decode_from-encode (before ++ b ∷ []) channel frame h.1
        ∙ ap (λ s. some (s, frame)) (append_assoc before (b ∷ []) channel))

-- A message that `encodeMessage` makes is decoded to its channel and frame, when the channel has no
-- zero byte; the frame may have any bytes.
pub decode_message-encode :
    (channel : Text) (frame : Frame)
    → All (λ b. b ≢ 0) channel
    → decode_message (encode_message channel frame) ≡ some (channel, frame)
unfolding decode_message encode_message
decode_message-encode channel frame h = decode_from-encode [] channel frame h

-- A channel and frame that come out of the loop are the payload's, parted at its first zero byte.
abbrev Parted : Frame → Text → Option (Text × Frame) → Type 0
Parted payload before none = All (λ b. b ≢ 0) payload
Parted payload before (some (channel, frame)) =
    (rest : Text) × (channel ≡ before ++ rest)
    × (payload ≡ encode_message rest frame)
    × All (λ b. b ≢ 0) rest

further :
    (b : ℕ) (before : Text) (payload : Frame)
    → b ≢ 0
    → (r : Option (Text × Frame)) → Parted payload (before ++ b ∷ []) r
    → Parted (b ∷ payload) before r
unfolding encode_message
further b before payload n none h = (n, h)
further b before payload n (some (channel, frame)) (rest, c, p, a) =
    (b ∷ rest, c ∙ append_assoc before (b ∷ []) rest, ap (◌∷◌ b) p, (n, a))

decode_from-Parted :
    (before : Text) (payload : Frame) → Parted payload before (decode_from before payload)
unfolding decode_from encode_message
decode_from-Parted before [] = tt
decode_from-Parted before (b ∷ payload) =
    if_cases (Parted (b ∷ payload) before) (nat_beq b 0)
      (λ e. ([], sym (append_nil before), ap (λ x. x ∷ payload) ((nat_beq_iff b 0).0 e), tt))
      (λ e.
        further b before payload (λ q. absurd (ground (arith, nat_beq_iff b 0)))
          (decode_from (before ++ b ∷ []) payload) (decode_from-Parted (before ++ b ∷ []) payload))

-- What `decodeMessage` accepts is what `encodeMessage` makes of the channel and frame it returns, the
-- channel without a zero byte; a payload that it refuses has no zero byte.
abbrev pub IsDecoded : Frame → Option (Text × Frame) → Type 0
IsDecoded payload none = All (λ b. b ≢ 0) payload
IsDecoded payload (some (channel, frame)) =
    (payload ≡ encode_message channel frame) × All (λ b. b ≢ 0) channel

Parted-IsDecoded :
    (payload : Frame) (r : Option (Text × Frame)) → Parted payload [] r → IsDecoded payload r
Parted-IsDecoded payload none h = h
Parted-IsDecoded payload (some (channel, frame)) (rest, c, p, a) =
    (p ∙ ap (λ s. encode_message s frame) (sym c), subst (All (λ b. b ≢ 0)) (sym c) a)

-- Whatever the payload, `decodeMessage` answers with a channel without a zero byte and a frame that
-- `encodeMessage` makes the payload of again, or refuses a payload that has no zero byte.
pub decode_message-IsDecoded : (payload : Frame) → IsDecoded payload (decode_message payload)
unfolding decode_message
decode_message-IsDecoded payload = Parted-IsDecoded payload _ (decode_from-Parted [] payload)

-- A configuration that `validateRole` lets through has exactly one of the two ends of its socket, a
-- sender or a receiver, and it is the sender that listens.
pub validate_role-sender :
    (mode : Mode) (role : Role)
    → validate_role mode role ≡ ok tt
    → (is_receiver role ≡ not (is_sender role)) × (should_listen mode role ≡ is_sender role)
unfolding validate_role is_receiver is_sender should_listen
validate_role-sender mode role h = ground arith
