-- ===== src/Hub/Spec/Views.antt =====
-- What the changes of go/hub.go to its peers and channels do to the view of a hub.
use go_stream.Prelude.{ℕ, ◌≡◌, refl, true, Text, text_eq, nat_eq, if_cases, arith, nat_beq_iff}
use go_stream.Prelude.GoMap.{lookup-insert, lookup-erase}
use go_stream.Prelude.GoMap.Nested.{at, at-put, at-delete, at-drop_inner}
use go_stream.Hub.{Hub, World}
use go_stream.Hub.Members.{is_member, add_peer_now, remove_peer_now, joined, left}
use go_stream.Hub.Members.InStep.{IsInStep}
use go_stream.Hub.Sending.Collect.{has}
use go_stream.Hub.Spec.{View, apply, joins, leaves, subscribes, unsubscribes}

-- The hub seen as a `View`.
abbrev pub view_of : Hub → View
view_of hub = record { member = is_member hub; on = λ c p. has (at c p hub.channels) }

View-ext :
    (v u : View)
    → ((p : ℕ) → v.member p ≡ u.member p)
    → ((c : Text) (p : ℕ) → v.on c p ≡ u.on c p)
    → v ≡ u
View-ext v u h k = λ i. record { member = λ p. h p i; on = λ c p. k c p i }

pub same-view : (h k : Hub) → k.peers ≡ h.peers → k.channels ≡ h.channels → view_of k ≡ view_of h
same-view h k p c = rw (p, c) refl

pub add_peer_now-view :
    (w : World) (peer : ℕ) → view_of (add_peer_now w peer).hub ≡ apply (view_of w.hub) (joins peer)
unfolding add_peer_now
add_peer_now-view w peer =
    View-ext _ _ (λ p. ground (arith, lookup-insert peer p true w.peers, nat_beq_iff peer p))
      (λ c p. ground arith)

pub joined-view :
    (w : World) (peer : ℕ) (channel : Text)
    → view_of (joined w peer channel).hub ≡ apply (view_of w.hub) (subscribes channel peer)
joined-view w peer channel =
    View-ext _ _ (λ p. refl) (λ c p. ground (arith, at-put channel c peer p true w.channels))

pub left-view :
    (w : World) (peer : ℕ) (channel : Text)
    → view_of (left w peer channel).hub ≡ apply (view_of w.hub) (unsubscribes channel peer)
left-view w peer channel =
    View-ext _ _ (λ p. refl) (λ c p. ground (arith, at-delete channel c peer p w.channels))

pub remove_peer_now-view :
    (w : World) (peer : ℕ)
    → IsInStep w
    → view_of (remove_peer_now w peer).hub ≡ apply (view_of w.hub) (leaves peer)
unfolding remove_peer_now
remove_peer_now-view w peer s =
    if_cases (λ (u : World). view_of u.hub ≡ apply (view_of w.hub) (leaves peer))
      (is_member w.hub peer)
      (λ present. rw present (
        View-ext _ _ (λ p. ground (arith, lookup-erase peer p w.peers, nat_beq_iff peer p))
          (λ c p.
            ground (arith, at-drop_inner peer p c w.channels s.distinct, nat_beq_iff peer p))))
      (λ absent. rw absent refl)
