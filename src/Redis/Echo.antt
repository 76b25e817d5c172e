-- ===== src/Redis/Echo.antt =====
-- The names round trip, and the bridge of go/adapter/redis/redis.go does not feed its own messages back.
use go_stream.Prelude.{
  false, not, subst, ◌⊎◌, inl, inr, append_assoc, [], ◌∷◌, ◌++◌, some, Text, text_eq, text_beq,
  text_beq_iff, codes, is_empty, take, length, if◌then◌else◌, if_cases, ◌≡◌, ◌≢◌, refl, sym, ap,
  ◌∙◌, arith, take-append_self, drop-append_self,
}
use go_stream.Errors.{Result, ok}
use go_stream.Wire.{Frame}
use go_stream.Hub.{World}
use go_stream.Hub.Sending.{publish_from_bridge, broadcast_from_bridge}
use go_stream.Redis.{
  publish_on, publish_with_client, Bridge, Envelope, broadcast_channel, channel_key,
  channel_from_redis, key_prefix, trim_prefix, publish_to_channel, publish_broadcast, take_message,
}

-- The parts of two texts with the same front are equal when the texts are.
append-cancel : (p : Text) {a b : Text} → p ++ a ≡ p ++ b → a ≡ b
append-cancel [] h = h
append-cancel (x ∷ p) h = append-cancel p (cc)

colon_c_b : (channel : Text) → codes ":channel:" ++ channel ≢ codes ":broadcast"
colon_c_b channel e = absurd (ground arith)

key_ne_broadcast :
    (bridge : Bridge) (channel : Text) → channel_key bridge channel ≢ broadcast_channel bridge
unfolding channel_key broadcast_channel
key_ne_broadcast bridge channel e = absurd (
    colon_c_b channel (
      append-cancel bridge.prefix
        (sym (append_assoc bridge.prefix (codes ":channel:") channel) ∙ e)))

trimmed :
    (bridge : Bridge) (channel : Text)
    → trim_prefix (channel_key bridge channel) (key_prefix bridge) ≡ channel
unfolding channel_key
trimmed bridge channel =
    if_cases (λ s. s ≡ channel)
      (text_beq (take (length (key_prefix bridge)) (channel_key bridge channel))
        (key_prefix bridge))
      (λ e. drop-append_self (key_prefix bridge) channel)
      (λ e. absurd (
        ground (
          arith,
          take-append_self (key_prefix bridge) channel,
          text_beq_iff (take (length (key_prefix bridge)) (channel_key bridge channel))
              (key_prefix bridge),
        )))

-- The name of a channel comes back from its Redis key, whatever the prefix, and the key is never taken
-- for the broadcast channel, whose name comes back empty.
pub channel_from_redis-key :
    (bridge : Bridge) (channel : Text)
    → (channel_from_redis bridge (channel_key bridge channel) ≡ channel)
      × (channel_from_redis bridge (broadcast_channel bridge) ≡ [])
unfolding channel_from_redis
channel_from_redis-key bridge channel = (
  if_cases (λ s. s ≡ channel) (text_beq (channel_key bridge channel) (broadcast_channel bridge))
      (λ e.
        absurd (key_ne_broadcast bridge channel ((text_beq_iff _ (broadcast_channel bridge)).0 e)))
      (λ e. trimmed bridge channel),
  if_cases (λ s. s ≡ []) (text_beq (broadcast_channel bridge) (broadcast_channel bridge))
      (λ e. refl)
      (λ e.
        absurd
          (ground (arith, text_beq_iff (broadcast_channel bridge) (broadcast_channel bridge)))),
)

-- What a bridge hands to Redis, where it does.
publish_on-ok :
    (bridge : Bridge) (on : Text) (frame : Frame) (message : Text × Envelope)
    → publish_on bridge on frame ≡ ok message
    → publish_with_client bridge on frame ≡ message
unfolding publish_on
publish_on-ok bridge on frame message =
    if_cases
      (λ (r : Result (Text × Envelope)).
        r ≡ ok message → publish_with_client bridge on frame ≡ message)
      (not bridge.running) (λ e h. absurd (ground arith)) (λ e h. cc)

publish_to_channel-ok :
    (bridge : Bridge) (channel : Text) (frame : Frame) (message : Text × Envelope)
    → publish_to_channel bridge channel frame ≡ ok message
    → (is_empty channel ≡ false)
      × (publish_with_client bridge (channel_key bridge channel) frame ≡ message)
unfolding publish_to_channel
publish_to_channel-ok bridge channel frame message =
    if_cases
      (λ (r : Result (Text × Envelope)).
        r ≡ ok message
        → (is_empty channel ≡ false)
          × (publish_with_client bridge (channel_key bridge channel) frame ≡ message))
      (is_empty channel) (λ e h. absurd (ground arith))
      (λ e h. (e, publish_on-ok bridge (channel_key bridge channel) frame message h))

take_message-dropped :
    (bridge : Bridge) (w : World) (on : Text) (sent : Envelope)
    → sent.source_id ≡ bridge.source_id
    → take_message bridge w on (some sent) ≡ (w, ok tt)
unfolding take_message
take_message-dropped bridge w on sent h =
    if_cases (λ r. r ≡ (w, ok tt)) (text_beq sent.source_id bridge.source_id) (λ e. refl)
      (λ e. absurd (ground (arith, text_beq_iff sent.source_id bridge.source_id)))

-- A bridge drops what it has sent itself: a message that its `PublishToChannel` or `PublishBroadcast`
-- has handed to Redis leaves the hub as it was when it comes back.
pub take_message-own :
    (bridge : Bridge) (w : World) (channel : Text) (frame : Frame) (message : Text × Envelope)
    → (publish_to_channel bridge channel frame ≡ ok message)
      ⊎ (publish_broadcast bridge frame ≡ ok message)
    → take_message bridge w message.0 (some message.1) ≡ (w, ok tt)
unfolding publish_broadcast publish_with_client
take_message-own bridge w channel frame message (inl h) =
    take_message-dropped bridge w message.0 message.1 (
      ap (λ (m : Text × Envelope). m.1.source_id)
        (sym (publish_to_channel-ok bridge channel frame message h).1))
take_message-own bridge w channel frame message (inr h) =
    take_message-dropped bridge w message.0 message.1 (
      ap (λ (m : Text × Envelope). m.1.source_id)
        (sym (publish_on-ok bridge (broadcast_channel bridge) frame message h)))

take_message-foreign :
    (bridge : Bridge) (w : World) (on name : Text) (sent : Envelope)
    → bridge.source_id ≢ sent.source_id
    → channel_from_redis bridge on ≡ name
    → take_message bridge w on (some sent) ≡ (
        if is_empty name
        then broadcast_from_bridge w sent.frame
        else publish_from_bridge w name sent.frame)
unfolding take_message
take_message-foreign bridge w on name sent s h =
    if_cases
      (λ r. r ≡ (
        if is_empty name
        then broadcast_from_bridge w sent.frame
        else publish_from_bridge w name sent.frame))
      (text_beq sent.source_id bridge.source_id)
      (λ e. absurd (s (sym ((text_beq_iff sent.source_id bridge.source_id).0 e))))
      (λ e.
        ap
          (λ n.
            if is_empty n
            then broadcast_from_bridge w sent.frame
            else publish_from_bridge w n sent.frame)
          h)

-- What another bridge with the same prefix has handed to Redis for a channel is published here on that
-- channel, as a bridge's.
pub take_message-channel :
    (here there : Bridge) (w : World) (channel : Text) (frame : Frame) (message : Text × Envelope)
    → here.prefix ≡ there.prefix
    → here.source_id ≢ there.source_id
    → publish_to_channel there channel frame ≡ ok message
    → take_message here w message.0 (some message.1) ≡ publish_from_bridge w channel frame
unfolding publish_with_client channel_key
take_message-channel here there w channel frame message p s h =
    let (named, made) = publish_to_channel-ok there channel frame message h in
    let sent : Envelope = record { source_id = there.source_id; frame = frame } in
    let name =
      ap (λ q. channel_from_redis here ((q ++ codes ":channel:") ++ channel)) (sym p)
      ∙ (channel_from_redis-key here channel).0 in
    subst
      (λ (m : Text × Envelope).
        take_message here w m.0 (some m.1) ≡ publish_from_bridge w channel frame)
      made
      (take_message-foreign here w (channel_key there channel) channel sent s name
        ∙ ap (λ b. if b then broadcast_from_bridge w frame else publish_from_bridge w channel frame)
            named)

-- What it has handed to Redis for everyone is broadcast here, as a bridge's.
pub take_message-broadcast :
    (here there : Bridge) (w : World) (frame : Frame) (message : Text × Envelope)
    → here.prefix ≡ there.prefix
    → here.source_id ≢ there.source_id
    → publish_broadcast there frame ≡ ok message
    → take_message here w message.0 (some message.1) ≡ broadcast_from_bridge w frame
unfolding publish_with_client publish_broadcast broadcast_channel
take_message-broadcast here there w frame message p s h =
    let sent : Envelope = record { source_id = there.source_id; frame = frame } in
    let name =
      ap (λ q. channel_from_redis here (q ++ codes ":broadcast")) (sym p)
      ∙ (channel_from_redis-key here []).1 in
    subst
      (λ (m : Text × Envelope). take_message here w m.0 (some m.1) ≡ broadcast_from_bridge w frame)
      (publish_on-ok there (broadcast_channel there) frame message h)
      (take_message-foreign here w (broadcast_channel there) [] sent s name)
