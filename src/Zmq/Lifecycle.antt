-- ===== src/Zmq/Lifecycle.antt =====
-- The state of the ZeroMQ adapter (go/adapter/zmq/zmq.go) under any interleaving of `Start` and `Stop`.
use go_stream.Prelude.{
  ◌≡◌, refl, sym, ◌∙◌, true_ne_false, Bool, true, false, List, [], none, some, Text, ◌⊎◌, inl, inr,
  if_cases,
}
use mathlib.Core.List.{Memᴰ}
use go_stream.Errors.{Error, Result, ok, err, not_started}
use go_stream.Wire.{Frame}
use go_stream.Hub.Members.{Done}
use go_stream.Zmq.{is_sender, encode_message}
use go_stream.Zmq.Adapter.{
  ZmqConfig, ZmqAdapter, Run, ZmqAct, cancels, closes_socket, failed_socket, new_zmq_adapter,
  install, cleanup, stop, begin_start, after_guards, after_socket, after_connect, gave_way,
  check_start, new_socket, connect_socket, SocketKind, publish_zmq, gives_way, ZmqStep, ZmqReach,
  installs, ends, stops, fresh, after,
}

-- The adapter is at rest, or holds the socket and the cancel function of one call of `Start` that has run it.
abbrev pub IsWhole : ZmqAdapter → List Run → Type 0
IsWhole adapter runs =
    ((adapter.running ≡ false) × (adapter.socket ≡ none) × (adapter.cancel ≡ none))
    ⊎ ((run : Run) × (adapter.running ≡ true)
        × (adapter.socket ≡ some run.socket)
        × (adapter.cancel ≡ some run.cancel)
        × Memᴰ run runs)

step-IsWhole :
    {a b : ZmqAdapter} {xs ys : List Run} → ZmqStep a xs b ys → IsWhole a xs → IsWhole b ys
unfolding install cleanup stop
step-IsWhole {xs = xs} (installs run e) h = rw e (inr (run, refl, refl, refl, Memᴰ.head refl))
step-IsWhole {a} {xs = xs} (gives_way run e) h =
    if_cases (λ (r : ZmqAdapter × Bool × List ZmqAct). IsWhole r.0 xs) a.running (λ _. h)
      (λ no. absurd (true_ne_false (sym e ∙ no)))
step-IsWhole (ends run l) h = inl (refl, refl, refl)
step-IsWhole stops h = inl (refl, refl, refl)

reach-IsWhole : {a b : ZmqAdapter} {xs : List Run} → ZmqReach a b xs → IsWhole a [] → IsWhole b xs
reach-IsWhole fresh h = h
reach-IsWhole (after r s) h = step-IsWhole s (reach-IsWhole r h)

-- However the calls of `Start` and `Stop` on a new adapter interleave, mounted or not, it is at rest, without a socket and
-- without a cancel function, or it runs with the socket and the cancel function of one and the same call of
-- `Start`.
pub new_zmq_adapter-IsWhole :
    (config : ZmqConfig) (mounted : Bool) {adapter : ZmqAdapter} {runs : List Run}
    → ZmqReach (record (new_zmq_adapter config) { mounted = mounted }) adapter runs
    → IsWhole adapter runs
new_zmq_adapter-IsWhole config mounted r = reach-IsWhole r (inl (refl, refl, refl))

-- The call runs the adapter, which was at rest, with its own socket, and nothing has been ended or closed.
abbrev pub Runs : ZmqAdapter → Run → ZmqAdapter × Bool × List ZmqAct × Done → Type 0
Runs adapter run r =
    (r.1 ≡ true) × (adapter.running ≡ false) × ((r.0).socket ≡ some run.socket) × (r.2 ≡ [])

-- The call leaves the adapter as it was. If the guards let it through, it has cancelled its context; and if
-- `newSocket` then made a socket, it has closed that one.
abbrev pub GaveUp : ZmqAdapter → Run → Done → ZmqAdapter × Bool × List ZmqAct × Done → Type 0
GaveUp adapter run options r =
    (r.1 ≡ false)
    × (r.0 ≡ adapter)
    × (((e : Error) × (check_start adapter ≡ err e) × (r.2 ≡ []))
        ⊎ ((check_start adapter ≡ ok tt)
            × Memᴰ (cancels run.cancel) r.2
            × (((e : Error) × (new_socket adapter.config options ≡ err e))
                ⊎ Memᴰ (closes_socket run.socket) r.2)))

failed-GaveUp :
    (adapter : ZmqAdapter) (run : Run) (options result : Done)
    → check_start adapter ≡ ok tt
    → GaveUp adapter run options (adapter, false, failed_socket run, result)
failed-GaveUp adapter run options result checked =
    (refl, refl, inr (checked, Memᴰ.tail (Memᴰ.head refl), inr (Memᴰ.head refl)))

install-RunsOrNot :
    (adapter : ZmqAdapter) (run : Run) (options closed : Done)
    → check_start adapter ≡ ok tt
    → let r = gave_way closed (install adapter run) in
      Runs adapter run r ⊎ GaveUp adapter run options r
unfolding install
install-RunsOrNot adapter run options closed checked =
    if_cases
      (λ (r : ZmqAdapter × Bool × List ZmqAct).
        Runs adapter run (gave_way closed r) ⊎ GaveUp adapter run options (gave_way closed r))
      adapter.running (λ _. inr (failed-GaveUp adapter run options closed checked))
      (λ rest. inl (refl, rest, refl, refl))

-- A call of `Start`, whatever fails in it, either runs an adapter that was at rest, with its own socket, or
-- leaves the adapter as it was. In the latter case a guard has refused it and it has done nothing, or it has
-- cancelled its own context, and closed its socket unless `newSocket` failed.
pub begin_start-RunsOrNot :
    (adapter : ZmqAdapter) (run : Run) (options closed listened dialled : Done)
    → let r = begin_start adapter run options closed listened dialled in
      Runs adapter run r ⊎ GaveUp adapter run options r
unfolding begin_start
begin_start-RunsOrNot adapter run options closed listened dialled =
    guards (check_start adapter) refl
  where
    Ends : ZmqAdapter × Bool × List ZmqAct × Done → Type 0
    Ends r = Runs adapter run r ⊎ GaveUp adapter run options r

    connects :
        (connected : Done)
        → check_start adapter ≡ ok tt
        → Ends (after_connect adapter run closed connected)
    connects (err e) checked = inr (failed-GaveUp adapter run options (err e) checked)
    connects (ok u) checked = install-RunsOrNot adapter run options closed checked

    sockets :
        (made : Result SocketKind)
        → new_socket adapter.config options ≡ made
        → check_start adapter ≡ ok tt
        → Ends (after_socket adapter run closed listened dialled made)
    sockets (err e) is checked = inr (refl, refl, inr (checked, Memᴰ.head refl, inl (e, is)))
    sockets (ok kind) is checked = connects (connect_socket adapter.config listened dialled) checked

    guards :
        (checked : Done)
        → check_start adapter ≡ checked
        → Ends (after_guards adapter run options closed listened dialled checked)
    guards (err e) is = inr (refl, refl, inl (e, is, refl))
    guards (ok u) is = sockets (new_socket adapter.config options) refl is

-- A call of `Start` that ends after a `Stop` and a second call of `Start` takes the second one's adapter down
-- with it: on a sender at rest, the second call has installed its socket, nothing has stopped it, and yet
-- `Publish` reports that the adapter is not started, and a further `Stop` closes and cancels nothing.
pub cleanup_clobbers :
    (adapter : ZmqAdapter) (one two : Run) (channel : Text) (frame : Frame) (sent : Done)
    → adapter.running ≡ false
    → is_sender adapter.config.role ≡ true
    → let begun = (install adapter one).0 in
      let again = install ((stop begun).0) two in
      let left = (cleanup again.0 one).0 in
      (again.1 ≡ true)
      × ((publish_zmq again.0 channel frame sent).0
          ≡ some (two.socket, encode_message channel frame))
      × ((publish_zmq left channel frame sent) ≡ (none, err not_started))
      × ((stop left).1 ≡ [])
unfolding install stop cleanup publish_zmq
cleanup_clobbers adapter one two channel frame sent rest sender =
    rw (rest, sender) (refl, refl, refl, refl)
