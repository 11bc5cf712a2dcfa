-- ===== src/Lib.antt =====
-- A model of the chat server gochat: the layers connect, logic, task and api, and the TCP framing,
-- with what makes them correct. It follows the Go code function by function.
--
-- The program. A client registers and logs in through the logic layer (logic/rpc.go), which keeps
-- users in a table and sessions in Redis. With its token the client opens a websocket or a TCP
-- connection to a connect server (connect/), whose reader asks the logic layer for the user and
-- puts the connection's channel into a bucket and a room. What clients send is published by the
-- logic layer to a queue; the task layer (task/) takes it from there and calls the connect servers,
-- which offer it to the channels of a user or of a room.
--
-- The files.
--   Prelude: shared names, lists, Go's `int` as an integer, decimal notation (Prelude/Decimal).
--   Proto: the messages of proto/*.go and the constants of config/config.go. Config: its records,
--     and Init in Config/Load.
--   StickPackage: pkg/stickpackage/stickpackage.go and the split function of connect/server_tcp.go.
--     Frames and Overflow hold its proofs.
--   Connect/Heap, Connect/Room: connect/channel.go and connect/room.go over a heap of channels and
--     rooms; a pointer is an address. Room/Links has the pointer writes, Room/Chain, Room/Unlink,
--     Room/Members and Room/Delivery the proofs. Room/Interleaved has two calls of DeleteChannel
--     that hold the room's lock for reading at once.
--   Connect/Bucket: connect/bucket.go, with its invariant in Bucket/Invariant, and the proofs of
--     Put (Opened, Joined, Put), of DeleteChannel (Leaving, Delete) and of the push routines
--     (Routines). Bucket/Raced puts another user's steps between the two parts of a Put.
--   Connect/Server: NewServer and Server.Bucket of connect/server.go. Connect/Push: the methods of
--     RpcConnectPush in connect/rpc.go. Connect/Session: readPump of connect/server.go and the
--     reader of connect/server_tcp.go, one message at a time, and their deferred function.
--     Session/Reader: the loops of readDataFromTcp over the scanner's packages. Session/Whole: both
--     readers from the first read to the end of the deferred function (Whole/Ended, Whole/Sessions
--     for websockets, Whole/Sockets for TCP). Whole/Rejoined has a websocket that joins as two
--     users.
--   Connect/Start: Run and RunTcp of connect/connect.go from the configuration. Connect/Listener:
--     the TCP listeners of connect/server_tcp.go and serveWs of connect/websocket.go, with the
--     numbers of connections in Listener/Numbered.
--   Registry: how a logic or a connect server takes its addresses apart (Registry/Binds), and
--     announces them: InitRpcServer, createRpcServer and addRegistryPlugin of logic/publish.go and
--     connect/rpc.go.
--   Connect/Writer: writePump of connect/server.go and writeDataToTcp of connect/server_tcp.go over
--     what `select` chooses, with proofs in Writer/Frames and Writer/Messages.
--   Connect/System: a connect server as a whole, its buckets over one heap, as a relation of the
--     steps that its readers, its RPC methods and its push goroutines take in any order, and the
--     states that these steps lead to from the start of connect/connect.go (System/Start). These
--     are not all the states of the Go program: see the conventions. The invariant is kept by each
--     step (Frame, Effect, Leaves, Joins, Replaced, Quiet, Queued, Reachable); Closing shows what
--     the readers do in these states, Pushing what PushRoomMsg does, and Admission a join over the
--     logic layer's sessions.
--   Logic/Exec, Logic/Redis, Logic/World, Logic/Keys: the stores of the logic layer, the data
--     access of logic/dao/user.go, the publishing functions and keys of logic/publish.go and
--     tools/commom.go. Logic/Start: Run of logic/logic.go. Logic/Account: Register, Login,
--     GetUserInfoByUserId, CheckAuth and Logout of logic/rpc.go. Logic/Room: Push, PushRoom, Count,
--     GetRoomInfo, Connect and DisConnect. Their proofs are in Logic/Account (Saved, Sessions,
--     Renewed, Registered) and Logic/Room (Online, Admitted, Counting).
--   Task: Push of task/push.go and the calls of task/rpc.go. Task/Queue: the push channels of
--     task/push.go. Task/Published: from the logic layer's handlers through the queue to those
--     calls. Task/Running: the subscriber of task/subscribe.go and the goroutines, in any order,
--     with the order of the channels in Running/Sent and Running/Fifo. Task/Clients:
--     InitConnectRpcClient, with the client of a server id (Found, Listed), a load that is not 0
--     (Loaded), and the way from the connect servers' announcements (Announced). Task/Start: Run of
--     task/task.go.
--   Api: the HTTP layer. Api/Rpc is api/rpc/rpc.go, Api/Response tools/response.go, Api/User and
--     Api/Push the handlers of api/handler, Api/Session the session check of api/router/router.go,
--     Api/Session/Guard that check over the logic layer, Api/Router the routes and the answer to a
--     request, Api/Router/Guarded the routes behind that check.
--   Network: ParseNetwork of tools/network.go. RedisInstance: GetRedisInstance of tools/redis.go.
--   Tests: concrete inputs.
--
-- Conventions. A Go `int` is an integer, since the program's are identifiers and counters; the
-- int16 of a package and the uint32 and uint64 of a server and a bucket wrap around as they do in
-- Go. A function that holds one lock throughout is one step. Both DeleteChannel and Room.Push hold
-- theirs for reading only, a Put holds the room's lock only in its second part, and a round of
-- Bucket.PushRoom takes a request, looks the room up and pushes to it under locks of their own. In
-- Connect/System each of these is one step, and a channel joins only while it has no Room and no
-- user, so that the theorems on the states that a new server reaches are about runs of that kind
-- only. What lies outside has theorems of its own: Room/Interleaved and Bucket/Raced have what can
-- happen between the parts, Room/Delivery a second join for one room, and Session/Whole/Rejoined a
-- second join as another user. A map is a function or a list of pairs. A panic, a full or empty Go
-- channel and logrus.Fatalf are results (Outcome, Turn). A handler that returns an error keeps what
-- it wrote before it.
--
-- Fuel. Room.Push runs on the fuel that it is given, at least the number of members; the scanner on
-- more than the number of frames; `digits` on the number itself.
--
-- Parameters. CityHash32 (tools/cityhash.go is a copy of another project's library), encoding/json,
-- gorm, Redis, the RPC clients, rpcx with its etcd plugin, the net package and gin's matching of a
-- path are arguments. IsHealthy states what Redis documents of the commands used, for a server that
-- every call reaches by one connection; expiry by time is not part of it. IsRegistry states what
-- rpcx documents of its etcd plugin where etcd answers: a service stands under its key, and the
-- order of a listing is not said. The largest sizes that Go's make allows are a parameter
-- (MakeLimits). The random token, the snowflake id, uuid and the time are arguments too.
--
-- Not modelled: the deadlines of a connection's reads and writes, the start of the processes and of
-- the HTTP server, and the database connection, which are input and output; the time at which Redis
-- drops a key; and logging.
pub mod Prelude
pub mod Proto
pub mod StickPackage
pub mod Config
pub mod Network
pub mod Registry
pub mod RedisInstance
pub mod Connect
pub mod Logic
pub mod Task
pub mod Api
pub mod Tests
