-- ===== src/Tcp/Dialling.antt =====
-- `New`, `Listen`, `Dial` and `pipePeer` of go/adapter/tcp/tcp.go. A listener and a connection are numbers;
-- what the network answers is an argument.
use go_stream.Prelude.{
  ℕ, suc, Bool, true, false, not, ◌||◌, List, [], Option, none, some, Text, is_empty, length,
  nat_eq, ◌==◌, if◌then◌else◌,
}
use go_stream.Errors.{Error, Result, ok, err, hub_not_running, not_mounted, empty_address}
use go_stream.Wire.{Conn}
use go_stream.Config.{Duration, or_default, seconds}
use go_stream.Peer.{Func, new_peer}
use go_stream.Hub.{World, star, update}
use go_stream.Hub.Members.{Done, add_peer, remove_peer, subscribe_peer}
use go_stream.Hub.Sending.{tcp}
use go_stream.Tcp.{serve_frames, then_remove}

-- `New`'s default of the handshake timeout.
abbrev handshake_timeout_or_default : Duration → Duration
handshake_timeout_or_default timeout = or_default timeout (seconds 5)

-- `listen`: the adapter's listener if it has one, or a new one, as `net.Listen` answers; with the field
-- afterwards.
abbrev pub obtain : Option ℕ → Result ℕ → Option ℕ × Result ℕ
obtain (some l) made = (some l, ok l)
obtain none (ok l) = (some l, ok l)
obtain none (err e) = (none, err e)

abbrev is_listener : Option ℕ → ℕ → Bool
is_listener none l = false
is_listener (some own) l = own == l

-- The deferred function of `Listen`, given what `Close` answers: the field afterwards.
abbrev pub release : Option ℕ → ℕ → Done → Option ℕ
release field l (err e) = field
release field l (ok _) = if is_listener field l then none else field

-- How `Accept` fails at last.
pub data AcceptEnd : Type 0 where
  context_over closed_network : AcceptEnd
  accept_error : Error → AcceptEnd

abbrev pub accept_result : AcceptEnd → Done
accept_result context_over = ok tt
accept_result closed_network = ok tt
accept_result (accept_error e) = err e

-- The loop of `Listen` on a listener that has been obtained: the field, the connections that are handed to
-- `handleConn`, and the result.
abbrev pub accept_on : Option ℕ × Result ℕ → List ℕ → AcceptEnd → Done → Option ℕ × List ℕ × Done
accept_on (field, err e) conns end_of closed = (field, [], err e)
accept_on (field, ok l) conns end_of closed = (release field l closed, conns, accept_result end_of)

-- `Listen`, over the adapter's listener, with the connections that come in before `Accept` fails.
unfoldable pub listen :
    Bool → Text → Option ℕ → Result ℕ → List ℕ → AcceptEnd → Done → Option ℕ × List ℕ × Done
listen mounted addr field made conns end_of closed =
    if not mounted
    then (field, [], err not_mounted)
    else if is_empty addr
    then (field, [], err empty_address)
    else accept_on (obtain field made) conns end_of closed

-- The adapter's field, and which listeners have been closed.
pub record Listening : Type 0 where
  pub field : Option ℕ
  pub is_closed : ℕ → Bool

abbrev pub closing : (ℕ → Bool) → ℕ → ℕ → Bool
closing is_closed l k = (k == l) || is_closed k

-- What the calls of `Listen` on one adapter do to its listeners, in any order: they obtain one, the goroutine
-- of a call closes its listener when the context ends, and its deferred function closes it and releases
-- the field. `closes` is what `Close` answers on a listener, by whether that one is closed already.
pub data ListenStep (closes : Bool → Done) (s : Listening) : Listening → Type 0 where
  obtains : (made : Result ℕ) → ListenStep closes s (record s { field = (obtain s.field made).0 })
  context_closes : (l : ℕ) → ListenStep closes s (record s { is_closed = closing s.is_closed l })
  releases :
      (l : ℕ)
      → ListenStep closes s (record {
        field = release s.field l (closes (s.is_closed l));
        is_closed = closing s.is_closed l;
      })

pub data ListenReach (closes : Bool → Done) (s : Listening) : Listening → Type 0 where
  at_once : ListenReach closes s s
  then_step :
      {t u : Listening} → ListenReach closes s t → ListenStep closes t u → ListenReach closes s u

-- The peer of a dialled connection.
abbrev pub with_dialled : World → ℕ → Text → Func → World
with_dialled w peer uuid hook = record w {
  heap = update w.heap peer (record (new_peer uuid tcp) { close_hook = some hook });
}

-- `if err := conn.Close(); err != nil { return err }; return ErrHubNotRunning`.
abbrev not_running_or : Done → Error
not_running_or (ok _) = hub_not_running
not_running_or (err e) = e

-- After `AddPeer`: the world, the result, and whether `Close` has been called on the connection.
abbrev pub after_star : ℕ → World × Done → World × Result ℕ × Bool
after_star peer (w, ok _) = (w, ok peer, false)
after_star peer (w, err e) = (remove_peer w (some peer), err e, true)

-- After the handshake has been written. Where the hub does not run, the peer that `NewPeer` made is reachable
-- from nowhere, and its struct is left out of the world.
abbrev pub after_writing : World → ℕ → Text → Func → Done → Done → World × Result ℕ × Bool
after_writing w peer uuid hook closed (err e) = (w, err e, true)
after_writing w peer uuid hook closed (ok _) =
    if not w.running
    then (w, err (not_running_or closed), true)
    else after_star peer
        (subscribe_peer ((add_peer (with_dialled w peer uuid hook) (some peer)).0) (some peer) star)

-- `Dial` on a hub, `peer` being the pointer and `uuid` the identifier that `NewPeer` makes, given what the dial, the writing of the handshake and a close answer. An error of the
-- close is joined to the first one.
unfoldable pub dial_hub : World → Done → Done → Done → ℕ → Text → Func → World × Result ℕ × Bool
dial_hub w (err e) written closed peer uuid hook = (w, err e, false)
dial_hub w (ok _) written closed peer uuid hook = after_writing w peer uuid hook closed written

-- `pipePeer`, over what the connection delivers; the write pump runs beside it.
pipe_peer : World → ℕ → Conn → World
pipe_peer w peer conn = then_remove peer (serve_frames (suc (length conn.input)) w peer conn)
