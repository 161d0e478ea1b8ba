-- ===== src/Lib.antt =====
-- gotd/contrib: helpers of a Telegram client written in Go.
--
-- The parts that are modelled, and their files:
--   * Storage/Key: storage/key.go, the key of a peer in a storage (`PeerKey`, `Bytes`, `String`,
--     `Parse`). A receiver that a method writes is part of its result.
--   * Storage/Peer: storage/peer.go and storage/peer_as.go, the peer, its constructors, keys and
--     views. The objects of Telegram's API are the parameter `Api`.
--   * Storage/Json: the `Marshal` and `Unmarshal` of storage/peer.go. The JSON library and the binary
--     encoding of the objects are the parameter `Wire`.
--   * Storage/Store: storage/peer_storage.go, the interface of a peer storage, which Storage/Pebble,
--     Storage/Redis and Storage/Bbolt (pebble, redis and bbolt, each peer_storage.go) implement on
--     the operations of their databases. Storage/Written is what the three share: the reads behind
--     a batch of writes. They take a peer by its `Codec`, which Storage/Json fills.
--   * Storage/Prefix: the bounds of an iteration of pebble/peer_storage.go (`keyUpperBound`).
--   * Storage/Iterate: the iterators of the three peer storages and `ForEach` of storage/find.go, on
--     what the cursor of the database still has to give. Storage/Iterate/Strict holds pebble and
--     redis, which stop at a value that they cannot read, Storage/Iterate/Backends bbolt, which
--     passes over it.
--   * Storage/Clients: storage/resolver_cache.go, collector.go, find.go and hook.go, which use a peer
--     storage by its interface.
--   * State: bbolt/state_storage.go, the storage of the updates state. State/Tree is the interface of
--     bbolt's nested buckets and its laws, State/Words the little-endian numbers of its values,
--     State/Ops the methods, and State/Calls the specification: what each write does to the states
--     and the channels that are read. State/Refine says that the methods implement it.
--   * HttpRange: http_range/range.go, the parser of the `Range` header (`ParseRange`).
--   * HttpIo: http_io/io.go, the handler of ranged requests (`ServeHTTP`), a client of HttpRange.
--   * Partio: partio/streamer.go and tg_io/download.go, the stream of a file that is served in aligned
--     chunks (`StreamAt`, `writeFull`, `Chunk`). A writer, a source and a context are parameters.
--   * Flood: middleware/floodwait. Heap is Go's container/heap, which Queue (queue.go, request.go)
--     uses; Scheduler (scheduler.go) keeps the delays of the keys and a queue; Waiter (waiter.go)
--     sends what the scheduler gathers; Simple (simple_waiter.go) waits and calls again by itself.
--     Calls (waiter.go) has the calls of `Handle` and the loop of `Run` as steps of one system, in
--     any order: a request, its result channel and its caller are followed by one number.
--   * Auth: auth/kv (`Credentials`, `Session`, over the interface `Kv`) and the storages of that
--     interface: Auth/Vault (vault/client.go, whose requests are in
--     Auth/Vault/Requests), Auth/Bucket (bbolt/client.go), and Auth/Clients
--     (pebble/client.go, redis/client.go, s3/session.go, with the constructors of every session.go
--     and auth.go). Auth/Ask is the part that both authenticators share (auth/ask.go, signup.go,
--     build.go, credentials.go); Auth/Terminal (auth/terminal/code.go) and Auth/Dialog
--     (auth/dialog/dialog.go) ask the user by a terminal and by windows, which are parameters;
--     Auth/Catalog is the English catalog (auth/localization).
--   * Invoke: the middlewares round one call. Invoke/RateLimit (middleware/ratelimit), Invoke/Prom
--     (middleware/tg_prom), Invoke/Otel (oteltg), Invoke/Hooks (invoker), and Invoke/Clock
--     (clock/ntp.go). The calls of a metric or a span are the trace of the middleware.
--   * Bg: bg/connect.go, the client in the background. The steps of `Connect`, of its goroutine and of
--     the returned function are events, in any order that the code allows. `Run` of the client is
--     assumed to call its function once at most.
--   * Suites: internal/tests/storage.go, the suites of a storage as Boolean tests.
-- Base holds what the parts share; Tests holds runs and the theorems at concrete inputs.
--
-- An int64 is a number in ℕ, where the code keeps it from being negative, or else in ℤ; times are
-- nanoseconds, from 1970 on where they are written to a peer, without a zone. An error is a
-- constructor of its own type. Calls of what stands outside the repository (invokers, writers,
-- clocks, the API) are arguments. Where a mutex is held a call is one step. Scheduler's `flood`
-- holds two, one behind the other, and is two steps in Flood/Scheduler/Steps; the steps of
-- Flood/Calls leave out a call that comes between the two.
--
-- Databases: a database is a state and operations on it. The laws that a theorem uses are named
-- records beside the operations; Tests fills them by lists. What is assumed of the JSON library and
-- the encoders is for the one peer of the theorem. The iterators take the reading of a text into a
-- peer as a parameter of which nothing is assumed, like Invoke/RateLimit its limiter. For bbolt's
-- iterator a key is assumed to stand before the prefix, since what `Prev` gives at the beginning is
-- not documented. The callback of `ForEachChannels` is assumed not to use the storage that calls
-- it. A text that the user enters is a list of code points, and lower case is that of the ASCII
-- letters.
--
-- Fuel: `gather` runs on one more round than the queue has entries, `write_full` on two rounds,
-- since the second never writes. `down` and `up` of the heap run on the length of the slice.
-- `stream_at`, the `handle` of the simple waiter, the questions of Auth/Terminal and Auth/Dialog
-- and `for_each` take the number of rounds as an argument, and tell apart that they ran out.
--
-- Not modelled: `Close` of the iterators; the constructors of tg_io, the terminal and the dialog, which
-- only store their arguments; the printer of messages; `RetryUntilAvailable` of the test helpers, which
-- is a loop of a library.
pub mod Auth
pub mod Base
pub mod Bg
pub mod Flood
pub mod HttpIo
pub mod HttpRange
pub mod Invoke
pub mod Partio
pub mod State
pub mod Storage
pub mod Suites
pub mod Tests
