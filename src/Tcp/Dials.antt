-- ===== src/Tcp/Dials.antt =====
-- What `Dial` and `Listen` of go/adapter/tcp/tcp.go leave behind.
use go_stream.Prelude.{
  nat_eq, nat_beq_iff, Bool-cases, ◌==◌, Option, sym, ap, ◌∙◌, ℕ, ◌≡◌, refl, Bool, true, false, not,
  some, Text, if_cases, ◌⊎◌, inl, inr, arith,
}
use go_stream.Errors.{Error, Result, ok, err}
use go_stream.Peer.{Func}
use go_stream.Hub.{World}
use go_stream.Hub.Members.{Done, add_peer}
use go_stream.Hub.Members.Laws.{subscribe_peer-star}
use go_stream.Hub.Sending.Collect.{listens}
use go_stream.Tcp.Dialling.{
  with_dialled, after_star, dial_hub, obtain, release, closing, Listening, ListenStep, obtains,
  context_closes, releases, ListenReach, at_once, then_step,
}

-- A dial that has joined the hub, with its connection open.
abbrev pub HasJoined : ℕ → Text → World × Result ℕ × Bool → Type 0
HasJoined peer channel r = (r.1 ≡ ok peer) × (r.2 ≡ false) × (listens r.0 channel peer ≡ true)

-- A dial that has left the hub as it was, with its connection closed if there was one.
abbrev pub HasFailed : World → Done → World × Result ℕ × Bool → Type 0
HasFailed w dialled r = (r.0 ≡ w) × ((r.2 ≡ true) ⊎ ((e : Error) × (dialled ≡ err e)))

joined_star :
    (peer : ℕ) (channel : Text) (r : World × Done)
    → r.1 ≡ ok tt
    → listens r.0 channel peer ≡ true
    → HasJoined peer channel (after_star peer r)
joined_star peer channel (w, ok d) h k = (refl, refl, k)
joined_star peer channel (w, err e) h k = absurd (ground arith)

-- `Dial` either succeeds, and the new peer listens to every channel over an open connection, or it leaves the
-- hub as it was and no connection open, whichever of the dial, the handshake and the test of the hub fails.
-- It succeeds only if the hub runs.
pub dial_hub-outcome :
    (w : World) (dialled written closed : Done) (peer : ℕ) (uuid : Text) (hook : Func)
    (channel : Text)
    → let r = dial_hub w dialled written closed peer uuid hook in
      ((w.running ≡ true) × HasJoined peer channel r) ⊎ HasFailed w dialled r
unfolding dial_hub
dial_hub-outcome w (err e) written closed peer uuid hook channel = inr (refl, inr (e, refl))
dial_hub-outcome w (ok d) (err e) closed peer uuid hook channel = inr (refl, inl refl)
dial_hub-outcome w (ok d) (ok k) closed peer uuid hook channel =
    if_cases
      (λ (r : World × Result ℕ × Bool).
        ((w.running ≡ true) × HasJoined peer channel r) ⊎ HasFailed w (ok d) r)
      (not w.running) (λ _. inr (refl, inl refl))
      (λ runs.
        let both =
          subscribe_peer-star ((add_peer (with_dialled w peer uuid hook) (some peer)).0) peer
            channel in
        inl (ground arith, joined_star peer channel _ both.0 both.1))

-- The adapter holds this listener, which is closed.
abbrev pub Holds : ℕ → Listening → Type 0
Holds l s = (s.field ≡ some l) × (s.is_closed l ≡ true)

-- A close that fails, and one of another listener, leave the field.
release-kept :
    (field : Option ℕ) (k l : ℕ) (answer : Done) (e : Error)
    → field ≡ some l
    → (answer ≡ err e) ⊎ ((l == k) ≡ false)
    → release field k answer ≡ some l
release-kept field k l (err x) e held why = held
release-kept field k l (ok u) e held (inl fails) = absurd (ground (arith, fails))
release-kept field k l (ok u) e held (inr other) = rw (held, other) refl

release_closed :
    (closes : Bool → Done) (e : Error) (k l : ℕ) (is_closed : ℕ → Bool)
    → closes true ≡ err e
    → is_closed l ≡ true
    → (closes (is_closed k) ≡ err e) ⊎ ((l == k) ≡ false)
release_closed closes e k l is_closed twice closed = elim (Bool-cases (l == k)) [
  | inl same ↦ inl (ap closes (ap is_closed (sym ((nat_beq_iff l k).0 same)) ∙ closed) ∙ twice)
  | inr other ↦ inr other
]

Step-Holds :
    (closes : Bool → Done) (e : Error) (l : ℕ) {s t : Listening}
    → closes true ≡ err e
    → ListenStep closes s t
    → Holds l s
    → Holds l t
Step-Holds closes e l twice (obtains made) (held, closed) = rw held (refl, closed)
Step-Holds closes e l twice (context_closes k) (held, closed) = (held, ground (arith, closed))
Step-Holds closes e l {s} twice (releases k) (held, closed) = (
  release-kept s.field k l (closes (s.is_closed k)) e held
      (release_closed closes e k l s.is_closed twice closed),
  ground (arith, closed),
)

reach-Holds :
    (closes : Bool → Done) (e : Error) (l : ℕ) {s t : Listening}
    → closes true ≡ err e
    → ListenReach closes s t
    → Holds l s
    → Holds l t
reach-Holds closes e l twice at_once h = h
reach-Holds closes e l twice (then_step r st) h =
    Step-Holds closes e l twice st (reach-Holds closes e l twice r h)

-- Where `Close` fails on a listener that is closed already, as package `net` documents, an adapter whose
-- listener has been closed by the end of a context is never given another one: whatever the calls of
-- `Listen` do from then on, a further `Listen` obtains the closed listener.
pub listen-stale :
    (closes : Bool → Done) (e : Error) (l : ℕ) (s : Listening) {t : Listening} (fresh : Result ℕ)
    → closes true ≡ err e
    → s.field ≡ some l
    → ListenReach closes (record s { is_closed = closing s.is_closed l }) t
    → (obtain t.field fresh ≡ (some l, ok l)) × (t.is_closed l ≡ true)
listen-stale closes e l s {t} fresh twice held r =
    let h = reach-Holds closes e l twice r (held, ground (arith, nat_beq_iff l l)) in
    (rw h.0 refl, h.1)
