-- ===== src/Hub/Loop/Shutdown.antt =====
-- A removal in go/hub.go that overtakes its registration.
use go_stream.Prelude.{
  ℕ, ◌≡◌, refl, subst, true, false, List, ◌∷◌, arith, nat_eq, nat_beq_iff, if_cases,
}
use go_stream.Prelude.GoMap.{lookup-insert}
use go_stream.Hub.{World}
use go_stream.Hub.Members.{is_member, add_peer_now, remove_peer_now}
use go_stream.Hub.Loop.{with_hub, Reach, here, next, take_register, take_unregister}

remove_peer_now_absent :
    (w : World) (peer : ℕ) → is_member w.hub peer ≡ false → remove_peer_now w peer ≡ w
unfolding remove_peer_now
remove_peer_now_absent w peer absent =
    if_cases (λ (u : World). u ≡ w) (is_member w.hub peer) (λ member. cc) (λ _. refl)

add_peer_now-joins :
    (w : World) (peer : ℕ)
    → is_member w.hub peer ≡ false
    → (is_member (add_peer_now w peer).hub peer ≡ true)
      × ((add_peer_now w peer).register ≡ w.register)
      × ((add_peer_now w peer).unregister ≡ w.unregister)
unfolding add_peer_now
add_peer_now-joins w peer absent =
    ground (arith, lookup-insert peer peer true w.peers, nat_beq_iff peer peer)

-- With a peer waiting in both `register` and `unregister`, as after `AddPeer` and then `RemovePeer`, the
-- loop's `select` may take the removal first. It finds no member, and the registration that follows makes
-- one: the peer stays in the hub, with both requests consumed.
pub removal_overtakes :
    (w : World) (peer : ℕ) (adding removing : List ℕ)
    → w.running ≡ true
    → w.register ≡ peer ∷ adding
    → w.unregister ≡ peer ∷ removing
    → is_member w.hub peer ≡ false
    → (u : World) × Reach w u
      × (is_member u.hub peer ≡ true)
      × (u.register ≡ adding)
      × (u.unregister ≡ removing)
removal_overtakes w peer adding removing running ea er absent = (
  add_peer_now (with_hub popped (record (popped.hub) { register = adding })) peer,
  next removed (take_register peer adding running ea),
  joins.0,
  joins.1,
  joins.2,
)
  where
    popped : World
    popped = with_hub w (record (w.hub) { unregister = removing })

    joins :
        (is_member
            (add_peer_now (with_hub popped (record (popped.hub) { register = adding })) peer).hub
            peer
          ≡ true)
        × ((add_peer_now
              (with_hub popped (record (popped.hub) { register = adding }))
              peer).register
            ≡ adding)
        × ((add_peer_now
              (with_hub popped (record (popped.hub) { register = adding }))
              peer).unregister
            ≡ removing)
    joins =
        add_peer_now-joins (with_hub popped (record (popped.hub) { register = adding })) peer absent

    removed : Reach w popped
    removed =
        subst (Reach w) (remove_peer_now_absent popped peer absent)
          (next here (take_unregister peer removing running er))
