-- ===== src/Redis/Lifecycle.antt =====
-- `NewBridge`, `Start` and `Stop` of go/adapter/redis/redis.go: the guards, the critical sections of the
-- bridge's mutex, and the hub's handlers that a started bridge holds. A context, a subscription and a client
-- of the Redis library are numbers; what their calls answer is an argument.
use go_stream.Prelude.{
  ◌≡◌, ℕ, Bool, true, false, not, List, [], ◌∷◌, ◌++◌, Option, none, some, Text, is_empty,
  if◌then◌else◌,
}
use go_stream.Errors.{Result, ok, err, nil_hub, empty_address, ping_failed}
use go_stream.Peer.{Func}
use go_stream.Hub.{Hub}
use go_stream.Hub.Handlers.{Stop, subscribe_broadcast, subscribe_published, call_stop}
use go_stream.Hub.Members.{Done}
use go_stream.Redis.{Bridge, prefix_or_default}

-- `NewBridge`, for a hub that is nil or not, given what the ping answers.
new_bridge : Bool → Text → Text → Text → Done → Result Bridge
new_bridge has_hub addr prefix source_id (err e) =
    if not has_hub
    then err nil_hub
    else if is_empty addr
    then err empty_address
    else err ping_failed
new_bridge has_hub addr prefix source_id (ok _) =
    if not has_hub
    then err nil_hub
    else if is_empty addr
    then err empty_address
    else ok (record { prefix = prefix_or_default prefix; source_id = source_id; running = false })

-- The fields of a bridge under its mutex.
pub record Session : Type 0 where
  pub running : Bool
  pub cancel : Option ℕ
  pub pubsub : Option ℕ
  pub client : Option ℕ
  pub publish_stop : Option Stop
  pub broadcast_stop : Option Stop

abbrev pub at_rest : Session
at_rest = record {
  running = false;
  cancel = none;
  pubsub = none;
  client = none;
  publish_stop = none;
  broadcast_stop = none;
}

-- What one call of `Start` makes.
pub record Made : Type 0 where
  pub context : ℕ
  pub subscription : ℕ
  pub connection : ℕ

pub data RedisAct : Type 0 where
  ends_context closes_pubsub closes_client : ℕ → RedisAct

-- The first critical section of `Start`: whether this call goes on.
unfoldable pub begin : Session → Session × Bool
begin session =
    if session.running then (session, false) else (record session { running = true }, true)

-- From there to the second one: the handlers are put on the hub, and the fields are set.
unfoldable pub connect_bridge : Hub → Session → Made → Func → Func → Hub × Session
connect_bridge hub session made f g =
    let published = subscribe_published hub (some f) in
    let both = subscribe_broadcast published.0 (some g) in
    (
      both.0,
      record session {
        cancel = some made.context;
        client = some made.connection;
        pubsub = some made.subscription;
        publish_stop = some published.1;
        broadcast_stop = some both.1;
      },
    )

-- `if stop != nil { stop() }`.
abbrev pub call_if_set : Hub → Option Stop → Hub × Option Stop
call_if_set hub none = (hub, none)
call_if_set hub (some s) = let called = call_stop hub s in (called.0, some called.1)

abbrev close_both : Made → Done → List RedisAct
close_both made (err e) = closes_pubsub made.subscription ∷ []
close_both made (ok _) = closes_pubsub made.subscription ∷ closes_client made.connection ∷ []

-- The deferred function of `Start`, given what the subscription's `Close` answers.
unfoldable pub finish : Hub → Session → Made → Done → Hub × Session × List RedisAct
finish hub session made closed =
    let published = call_if_set hub session.publish_stop in
    let both = call_if_set published.0 session.broadcast_stop in
    (both.0, at_rest, ends_context made.context ∷ close_both made closed)

abbrev act_on : Option ℕ → (ℕ → RedisAct) → List RedisAct
act_on none act = []
act_on (some n) act = act n ∷ []

-- The result of `Stop`, from those of the two closes.
abbrev close_result : Option ℕ → Option ℕ → Done → Done → Done
close_result pubsub (some c) p (err e) = err e
close_result (some s) client (err e) c = err e
close_result pubsub client p c = ok tt

-- `Stop`, given what the two closes answer. A stop function keeps its `sync.Once` in the bridge's field.
unfoldable pub stop_bridge : Hub → Session → Done → Done → Hub × Session × List RedisAct × Done
stop_bridge hub session pubsub_closed client_closed =
    let published = call_if_set hub session.publish_stop in
    let both = call_if_set published.0 session.broadcast_stop in
    if not session.running then (hub, session, [], ok tt) else (
      both.0,
      record session { publish_stop = published.1; broadcast_stop = both.1 },
      act_on session.cancel ends_context
          ++ (act_on session.pubsub closes_pubsub ++ act_on session.client closes_client),
      close_result session.pubsub session.client pubsub_closed client_closed,
    )

-- A call of `Start` that the first critical section has let through, before and after the second one.
pub data Starting : Type 0 where
  begun connected : Made → Starting

-- The calls of `Start` and `Stop` on one bridge, in any order of their critical sections, with the calls of
-- `Start` between the first section and that of their deferred function; what they do to the hub does not
-- change the bridge's fields.
pub data RedisStep (session : Session) (calls : List Starting)
    : Session → List Starting → Type 0 where
  begins :
      (made : Made)
      → (begin session).1 ≡ true
      → RedisStep session calls ((begin session).0) (begun made ∷ calls)
  is_refused : (begin session).1 ≡ false → RedisStep session calls ((begin session).0) calls
  connects :
      (front back : List Starting) (hub : Hub) (made : Made) (f g : Func)
      → calls ≡ front ++ (begun made ∷ back)
      → RedisStep session calls
          ((connect_bridge hub session made f g).1)
          (front ++ (connected made ∷ back))
  finishes :
      (front back : List Starting) (hub : Hub) (made : Made) (closed : Done)
      → calls ≡ front ++ (connected made ∷ back)
      → RedisStep session calls ((finish hub session made closed).1) (front ++ back)
  stops : (hub : Hub) (p c : Done) → RedisStep session calls ((stop_bridge hub session p c).1) calls

pub data RedisReach (session : Session) : Session → List Starting → Type 0 where
  untouched : RedisReach session session []
  after_step :
      {s t : Session} {xs ys : List Starting}
      → RedisReach session s xs
      → RedisStep s xs t ys
      → RedisReach session t ys
