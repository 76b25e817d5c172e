-- ===== src/Lib.antt =====
-- A verification library for go-stream: a hub that publishes frames to peers over several transports.
--
-- The parts, and how they interact. A hub (go/hub.go) keeps peers, their channels and the handlers of
-- the program; it queues frames on the peers' send queues (go/stream.go) and runs an event loop. The
-- adapters register peers, hand what they receive to the hub and write what the queues hold. The
-- authenticators (go/auth.go) decide whom an adapter lets in.
--
-- Which module models what:
--   Prelude        lists, Go maps, sorting, byte strings and int64, shared by all
--   Errors         go/errors.go and the errors made in place; `core.Result`
--   Config         go/hub_config.go
--   Peer           `Peer` of go/stream.go
--   Wire           both `encodeTCPFrame`s, `readTCPFrame` and `writeAll` (go/stream.go,
--                  go/adapter/tcp/tcp.go); Wire/Encode, Decode, Sound and Writing prove
--   Hub            the state of go/hub.go; Hub/Members `AddPeer` to `UnsubscribePeer`, Hub/Handlers the
--                  handler tables, Hub/Sending publishing and broadcasting, Hub/Counts the statistics,
--                  Hub/Loop `Run` and what happens beside it as a step relation, Hub/Spec an abstract
--                  membership without queues, heap and order, which Hub/Loop/Refines relates to the hub
--   Pipe           `Pipe` of go/stream.go
--   Service        go/service.go, over the hub
--   Auth           go/auth.go
--   Tcp            go/adapter/tcp/tcp.go: `handleConn`, and Tcp/Dialling `Listen`, `Dial`, `pipePeer`
--   Reconnect      go/adapter/tcp/reconnect.go, the loop of `Connect` in Reconnect/Connecting
--   Message        go/message.go
--   Ws             go/adapter/ws/ws.go: `serveHTTP`, and `writePump` in Ws/Pump; Ws/Client is
--                  go/adapter/ws/reconnect.go, which Ws/Client/Shape and AsTcp read as Reconnect
--   Zmq            go/adapter/zmq/zmq.go: the codec and the roles, `Start`, `Stop` and `Publish` in
--                  Zmq/Adapter, what a started adapter does in Zmq/Receiving
--   Redis          go/adapter/redis/redis.go: the names, the publishing and the receive loop, and the
--                  start and the stop in Redis/Lifecycle
--   Sse            `serve` of go/adapter/sse/sse.go, and in Sse/Stream its streaming loop
-- A definition has the name of its Go function in snake case, or a name of its own where two modules share
-- one, and its comment names the function. The
-- modules named Tests hold the laws at concrete values.
--
-- How the program is modelled. A `*Peer` is a number and the hub's world holds a heap from numbers to
-- structs, so that aliasing is kept. A method that holds the mutex is one function from worlds to
-- worlds; the goroutines interleave in `Step`, which takes from any queue that has an item. Callbacks
-- are opaque: their calls are recorded in a trace. A Go map is an association list in the order of a
-- `range`, a string its bytes, a slice a list; uint32 and int64 wrap where the source can.
--
-- Several calls on one adapter are modelled by the critical sections of its mutex, one function each
-- (Zmq/Adapter, Redis/Lifecycle, `ListenStep` of Tcp/Dialling). Where a loop reads a socket, others
-- run between two reads (`Incoming.meanwhile` of Ws), or do not (Tcp, Zmq/Receiving), as each module
-- says.
--
-- Fuel and bounds. `Tcp.serve_frames` is the one function on fuel; it is given one more than the
-- length of the connection's input, and each turn but the last takes a byte at least. Queues have 256
-- places and the TCP limits are 65535 and 4096 bytes, as in the source. `attempt` of `Connect` does
-- not reach 2 ^ 63.
--
-- Parameters, for what is not in the repository: the answers of dialler, listener, socket, clock and
-- context, the float product of the backoff (`scale`), the upgrade and the reads of a WebSocket, JSON
-- (`encode`, `decode`), `core.Split`, decoded Redis envelopes, the options of the core framework,
-- random identifiers, HTTP requests by the header and query token that are read, authenticators and
-- authorisers that the program is given. An authoriser answers by the peer's struct and the channel, an
-- authenticator by what it is shown; that they may answer otherwise the next time, or call the hub, is
-- left out.
--
-- Not modelled: the aliases and forwarding functions of go/ws/compat.go and go/adapter/ws/compat.go,
-- `randomUUID` of go/stream.go, `dial` and `writePump` of the TCP adapter, `listenEndpoint` of the
-- ZeroMQ adapter, `newRedisClient` and what the Redis client's `Publish` answers, and the routes and
-- headers of the event stream. They rename, or hand text and bytes to libraries.
pub mod Prelude
pub mod Errors
pub mod Wire
pub mod Peer
pub mod Config
pub mod Hub
pub mod Auth
pub mod Zmq
pub mod Reconnect
pub mod Tcp
pub mod Redis
pub mod Sse
pub mod Service
pub mod Message
pub mod Ws
pub mod Pipe
