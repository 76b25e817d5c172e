-- ===== src/Hub/Members/Laws.antt =====
-- Who may join a channel in go/hub.go, and what a removal leaves behind.
use go_stream.Prelude.{
  text_beq, ℕ, ◌≡◌, ◌≢◌, ◌⊎◌, refl, ◌∙◌, sym, Bool, true, false, not, ◌&&◌, ◌||◌, [], Option, none,
  some, Text, arith, is_empty, ◌==◌, text_eq, nat_eq, text_beq_iff, nat_beq_iff, inl, inr,
  Bool-cases, if_cases,
}
use go_stream.Prelude.GoMap.{Map, lookup-erase}
use go_stream.Prelude.GoMap.Nested.{at, at-put, at-drop_inner, put}
use go_stream.Errors.{Error, ok, err}
use go_stream.Peer.{Peer, SendQueue, peer_close, peer_send, send_to, shut}
use go_stream.Wire.{Frame}
use go_stream.Hub.{World, star}
use go_stream.Hub.Members.{
  Done, is_member, remove_peer_now, subscribe_peer, can_subscribe_peer, is_denied,
  without_subscriptions,
}
use go_stream.Hub.Sending.Collect.{listens, has}
use go_stream.Hub.Members.InStep.{IsInStep}

-- `CanSubscribePeer` predicts `SubscribePeer`: they give the same result, which is a success, or the
-- world is unchanged.
pub subscribe_peer-can :
    (w : World) (peer : Option ℕ) (channel : Text)
    → ((subscribe_peer w peer channel).1 ≡ can_subscribe_peer w peer channel)
      × ((can_subscribe_peer w peer channel ≡ ok tt) ⊎ ((subscribe_peer w peer channel).0 ≡ w))
unfolding subscribe_peer can_subscribe_peer
subscribe_peer-can w none channel = (refl, inr refl)
subscribe_peer-can w (some peer) channel = elim (Bool-cases (is_empty channel)) [
  | inl empty ↦ rw empty (refl, inr refl)
  | inr named ↦ elim (Bool-cases (is_denied w.config.channel_authoriser (w.heap peer) channel)) [
    | inl denied ↦ rw (named, denied) (refl, inr refl)
    | inr granted ↦ rw (named, granted) (refl, inl refl)
  ]
]

ok-ne-err : {e : Error} → ◌≢◌ {A = Done} (err e) (ok tt)
ok-ne-err h = cc

denied-false :
    (w : World) (peer : ℕ) (channel : Text)
    → can_subscribe_peer w (some peer) channel ≡ ok tt
    → (is_empty channel ≡ false)
      × (is_denied w.config.channel_authoriser (w.heap peer) channel ≡ false)
unfolding can_subscribe_peer
denied-false w peer channel =
    if_cases
      (λ (r : Done).
        r ≡ ok tt
        → (is_empty channel ≡ false)
          × (is_denied w.config.channel_authoriser (w.heap peer) channel ≡ false))
      (is_empty channel) (λ _ h. absurd (ok-ne-err h))
      λ named.
        if_cases
          (λ (r : Done).
            r ≡ ok tt
            → (is_empty channel ≡ false)
              × (is_denied w.config.channel_authoriser (w.heap peer) channel ≡ false))
          (is_denied w.config.channel_authoriser (w.heap peer) channel)
          (λ _ h. absurd (ok-ne-err h)) λ granted _. (named, granted)

-- A successful `SubscribePeer` enters the peer in the channel; and where there is an authoriser, the
-- channel is the wildcard, or the authoriser has said yes of the peer as it stood.
pub subscribe_peer-authorised :
    (w : World) (peer : ℕ) (channel : Text) (authorise : Peer → Text → Bool)
    → w.config.channel_authoriser ≡ some authorise
    → (subscribe_peer w (some peer) channel).1 ≡ ok tt
    → (at channel peer ((subscribe_peer w (some peer) channel).0).channels ≡ some true)
      × ((channel ≡ star) ⊎ (authorise (w.heap peer) channel ≡ true))
unfolding subscribe_peer
subscribe_peer-authorised w peer channel authorise e success =
    let (named, granted) =
      denied-false w peer channel (sym ((subscribe_peer-can w (some peer) channel).0) ∙ success) in
    (
      rw (named, granted) (entered (w.channels)),
      elim (Bool-cases (channel == star)) [
        | inl same ↦ inl ((text_beq_iff channel star).0 same)
        | inr other ↦ inr (
            unfold is_denied in
            asked (channel == star) (authorise (w.heap peer) channel)
              (λ same. absurd (ground arith)) (rw e at granted))
      ],
    )
  where
    entered : (m : Map Text (Map ℕ Bool)) → at channel peer (put channel peer true m) ≡ some true
    entered m = ground (
      arith,
      at-put channel channel peer peer true m,
      text_beq_iff channel channel,
      nat_beq_iff peer peer,
    )

    asked :
        (wild yes_said : Bool) → (wild ≢ true) → not wild && not yes_said ≡ false → yes_said ≡ true
    asked wild yes_said h k = ground arith

-- The authoriser is not asked about the wildcard: whatever it denies, any peer may subscribe to `*`,
-- and then listens to every channel.
pub subscribe_peer-star :
    (w : World) (peer : ℕ) (channel : Text)
    → ((subscribe_peer w (some peer) star).1 ≡ ok tt)
      × (listens ((subscribe_peer w (some peer) star).0) channel peer ≡ true)
unfolding listens subscribe_peer
subscribe_peer-star w peer channel =
    rw (granted w.config.channel_authoriser) (refl, heard _ _ (entered w.channels))
  where
    granted : (a : Option (Peer → Text → Bool)) → is_denied a (w.heap peer) star ≡ false
    granted none = unfold is_denied in refl
    granted (some a) = unfold is_denied text_beq in refl

    entered : (m : Map Text (Map ℕ Bool)) → at star peer (put star peer true m) ≡ some true
    entered m =
        ground
          (arith, at-put star star peer peer true m, text_beq_iff star star, nat_beq_iff peer peer)

    heard : (c d : Option Bool) → d ≡ some true → (has c || has d) ≡ true
    heard c d h = ground arith

send_to-shut :
    (peer : Peer) (send : Option SendQueue) (frame : Frame)
    → (send_to peer (shut send) frame).1 ≡ false
unfolding send_to shut
send_to-shut peer none frame = refl
send_to-shut peer (some queue) frame = ground arith

closed_fields :
    (peer : Peer) (frame : Frame)
    → (((peer_close peer).0).subscriptions ≡ peer.subscriptions)
      × (peer.close_done ≡ false → (peer_send ((peer_close peer).0) frame).1 ≡ false)
unfolding peer_close peer_send
closed_fields peer frame = (ground arith, λ fresh. rw fresh (send_to-shut _ peer.send frame))

-- Where channels and subscriptions agree, `removePeer` of a member whose `Close` has not run: it is no
-- member any more, no channel lists it, its subscriptions are gone, and nothing can be queued for it.
pub remove_peer_now-gone :
    (w : World) (peer : ℕ) (channel : Text) (frame : Frame)
    → IsInStep w
    → is_member w.hub peer ≡ true
    → (w.heap peer).close_done ≡ false
    → let u = remove_peer_now w peer in
      (is_member u.hub peer ≡ false)
      × (at channel peer u.channels ≡ none)
      × ((u.heap peer).subscriptions ≡ [])
      × ((peer_send (u.heap peer) frame).1 ≡ false)
unfolding remove_peer_now
remove_peer_now-gone w peer channel frame s member fresh =
    rw (member, remove_peer_now)
      (
        ground (arith, lookup-erase peer peer w.peers, nat_beq_iff peer peer),
        ground
            (arith, at-drop_inner peer peer channel w.channels s.distinct, nat_beq_iff peer peer),
        ground (
          arith,
          nat_beq_iff peer peer,
          closed_fields (without_subscriptions (w.heap peer)) frame,
        ),
        ground (
          arith,
          nat_beq_iff peer peer,
          closed_fields (without_subscriptions (w.heap peer)) frame,
        ),
      )
