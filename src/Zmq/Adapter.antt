-- ===== src/Zmq/Adapter.antt =====
-- `New`, `Start`, `Publish` and `Stop` of go/adapter/zmq/zmq.go. A socket and the cancel function of a
-- context are numbers; the library github.com/go-zeromq/zmq4 makes the sockets, and what it answers is an
-- argument. The three critical sections of the adapter's mutex that change it are one function each, so that
-- several calls of `Start` and `Stop` interleave.
use go_stream.Prelude.{
  ◌≡◌, ℕ, Bool, true, false, not, List, [], ◌∷◌, ◌++◌, Option, none, some, Text, nat_eq, ◌==◌,
  is_empty, if◌then◌else◌,
}
use mathlib.Core.List.{Memᴰ}
use go_stream.Errors.{
  Result, ok, err, not_started, not_publishing, no_endpoint, not_mounted, invalid_role,
}
use go_stream.Wire.{Frame}
use go_stream.Config.{Duration, or_default, seconds}
use go_stream.Hub.Members.{Done}
use go_stream.Zmq.{
  Mode, Role, role_publisher, role_subscriber, role_pusher, role_puller, validate_role,
  should_listen, is_sender, encode_message,
}

pub record ZmqConfig : Type 0 where
  pub mode : Mode
  pub endpoint : Text
  pub role : Role
  pub topics : List Text
  pub handshake_timeout : Duration

-- One call of `Start`: its socket and the cancel function of its context.
pub record Run : Type 0 where
  pub socket : ℕ
  pub cancel : ℕ

-- `Adapter`; the hub is mounted or not.
pub record ZmqAdapter : Type 0 where
  pub config : ZmqConfig
  pub mounted : Bool
  pub running : Bool
  pub socket : Option ℕ
  pub cancel : Option ℕ

-- `New`.
abbrev pub new_zmq_adapter : ZmqConfig → ZmqAdapter
new_zmq_adapter config = record {
  config = record config { handshake_timeout = or_default config.handshake_timeout (seconds 5) };
  mounted = false;
  running = false;
  socket = none;
  cancel = none;
}

-- What the adapter does to the library's objects.
pub data ZmqAct : Type 0 where
  cancels closes_socket : ℕ → ZmqAct

abbrev pub cancel_acts : Option ℕ → List ZmqAct
cancel_acts none = []
cancel_acts (some c) = cancels c ∷ []

abbrev pub socket_acts : Option ℕ → List ZmqAct
socket_acts none = []
socket_acts (some s) = closes_socket s ∷ []

-- The guards of `Start`.
pub check_start : ZmqAdapter → Done
check_start adapter =
    if is_empty adapter.config.endpoint
    then err no_endpoint
    else if not adapter.mounted
    then err not_mounted
    else validate_role adapter.config.mode adapter.config.role

-- The kinds of socket that `newSocket` asks for; a subscriber's has its topics, all where none is named.
pub data SocketKind : Type 0 where
  pub_socket push_socket pull_socket : SocketKind
  sub_socket : List Text → SocketKind

abbrev topics_or_all : List Text → List Text
topics_or_all [] = [] ∷ []
topics_or_all (topic ∷ topics) = topic ∷ topics

abbrev with_topics : List Text → Done → Result SocketKind
with_topics topics (ok _) = ok (sub_socket (topics_or_all topics))
with_topics topics (err e) = err e

-- `newSocket`, given what `SetOption` answers for the topics.
pub new_socket : ZmqConfig → Done → Result SocketKind
new_socket config options =
    if config.role == role_publisher
    then ok pub_socket
    else if config.role == role_subscriber
    then with_topics config.topics options
    else if config.role == role_pusher
    then ok push_socket
    else if config.role == role_puller
    then ok pull_socket
    else err invalid_role

-- `connectSocket`, given what `Listen` and `Dial` would answer.
pub connect_socket : ZmqConfig → Done → Done → Done
connect_socket config listened dialled =
    if should_listen config.mode config.role then listened else dialled

-- After a socket that could not be connected: it is closed, then the context ends. The error of the close is
-- joined to that of the connection.
abbrev pub failed_socket : Run → List ZmqAct
failed_socket run = closes_socket run.socket ∷ cancels run.cancel ∷ []

-- The critical section in the middle of `Start`: whether this call runs the adapter now. Another call that
-- runs it makes this one close its socket and end its context.
unfoldable pub install : ZmqAdapter → Run → ZmqAdapter × Bool × List ZmqAct
install adapter run = if adapter.running then (adapter, false, failed_socket run) else (
  record adapter { running = true; socket = some run.socket; cancel = some run.cancel },
  true,
  [],
)

-- A call of `Start` that another has come before closes its socket; its result is that of the close.
abbrev pub gave_way :
    Done → ZmqAdapter × Bool × List ZmqAct → ZmqAdapter × Bool × List ZmqAct × Done
gave_way closed (adapter, true, acts) = (adapter, true, acts, ok tt)
gave_way closed (adapter, false, acts) = (adapter, false, acts, closed)

abbrev pub after_connect : ZmqAdapter → Run → Done → Done → ZmqAdapter × Bool × List ZmqAct × Done
after_connect adapter run closed (err e) = (adapter, false, failed_socket run, err e)
after_connect adapter run closed (ok _) = gave_way closed (install adapter run)

abbrev pub after_socket :
    ZmqAdapter
    → Run
    → Done
    → Done
    → Done
    → Result SocketKind
    → ZmqAdapter × Bool × List ZmqAct × Done
after_socket adapter run closed listened dialled (err e) =
    (adapter, false, cancels run.cancel ∷ [], err e)
after_socket adapter run closed listened dialled (ok kind) =
    after_connect adapter run closed (connect_socket adapter.config listened dialled)

abbrev pub after_guards :
    ZmqAdapter → Run → Done → Done → Done → Done → Done → ZmqAdapter × Bool × List ZmqAct × Done
after_guards adapter run options closed listened dialled (err e) = (adapter, false, [], err e)
after_guards adapter run options closed listened dialled (ok _) =
    after_socket adapter run closed listened dialled (new_socket adapter.config options)

-- `Start` up to the deferred function: the adapter, whether this call runs it now, what it does to its own
-- socket and context, and the result where it does not run the adapter.
unfoldable pub begin_start :
    ZmqAdapter → Run → Done → Done → Done → Done → ZmqAdapter × Bool × List ZmqAct × Done
begin_start adapter run options closed listened dialled =
    after_guards adapter run options closed listened dialled (check_start adapter)

abbrev idle : ZmqAdapter → ZmqAdapter
idle adapter = record adapter { running = false; socket = none; cancel = none }

-- The deferred function of `Start`.
unfoldable pub cleanup : ZmqAdapter → Run → ZmqAdapter × List ZmqAct
cleanup adapter run = (idle adapter, cancels run.cancel ∷ closes_socket run.socket ∷ [])

-- `Stop`.
unfoldable pub stop : ZmqAdapter → ZmqAdapter × List ZmqAct
stop adapter = (idle adapter, cancel_acts adapter.cancel ++ socket_acts adapter.socket)

-- `Publish`, given what the socket's `Send` answers: the socket and the bytes that it is given, and the
-- result.
publish_started : Bool → Option ℕ → Text → Frame → Done → Option (ℕ × Frame) × Done
publish_started false socket channel frame sent = (none, err not_started)
publish_started true none channel frame sent = (none, err not_started)
publish_started true (some s) channel frame sent = (some (s, encode_message channel frame), sent)

unfoldable pub publish_zmq : ZmqAdapter → Text → Frame → Done → Option (ℕ × Frame) × Done
unfolding publish_started
publish_zmq adapter channel frame sent =
    if not (is_sender adapter.config.role)
    then (none, err not_publishing)
    else publish_started adapter.running adapter.socket channel frame sent

-- The calls of `Start` and `Stop` on one adapter, by any number of goroutines, with the calls of `Start` that
-- have run the adapter: one that has its socket takes its turn at the mutex and runs the adapter or not, and
-- one that runs it, or did until a `Stop`, ends at any time.
pub data ZmqStep (adapter : ZmqAdapter) (runs : List Run) : ZmqAdapter → List Run → Type 0 where
  installs :
      (run : Run)
      → adapter.running ≡ false
      → ZmqStep adapter runs ((install adapter run).0) (run ∷ runs)
  gives_way :
      (run : Run) → adapter.running ≡ true → ZmqStep adapter runs ((install adapter run).0) runs
  ends : (run : Run) → Memᴰ run runs → ZmqStep adapter runs ((cleanup adapter run).0) runs
  stops : ZmqStep adapter runs ((stop adapter).0) runs

pub data ZmqReach (adapter : ZmqAdapter) : ZmqAdapter → List Run → Type 0 where
  fresh : ZmqReach adapter adapter []
  after :
      {u v : ZmqAdapter} {xs ys : List Run}
      → ZmqReach adapter u xs
      → ZmqStep u xs v ys
      → ZmqReach adapter v ys
