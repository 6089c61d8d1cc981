-- ===== src/Lib.antt =====
-- Verification of katamari, a key-value server whose clients subscribe to keys over websockets and
-- get a snapshot of their data first and then JSON patches.
--
-- How the program works. A server (katamari.go, rest.go, ws.go) takes requests on keys, paths whose
-- segments may be `*`. A request to store a value passes the write filters, then the storage; the
-- storage sends an event, a worker of the server takes it and broadcasts: for each pool of
-- connections whose key matches, the data are read again, pass the read filters and are sent as a
-- patch against what the pool holds, or as a snapshot. A client applies the patches to its cache.
--
-- Which file models which part.
--   Base       what the modules share: Boolean tests, lists measured by native numbers, byte strings
--              (Base/Text), signed integers (Base/Int), what is picked
--              from a list (Base/Picked), a result with an error and a call that may
--              return, panic or wait for ever (Base/Results).
--   Key        key/key.go: IsValid, Match, Peer, LastIndex, Build, Decode, Contains. Key/Glob is
--              filepath.Match of the Go library, Key/Number the numbers of base 16 of strconv. Key/
--              Segments and Key/Covers relate Match to a relation on segments, Key/Build and Key/
--              Roundtrip are about built keys and the times in them.
--   Objects    objects/objects.go: the stored object, its order and its decoders.
--   Storage    storage.go: events, options and the `Database` interface, a record of operations, and
--              WatchStorageNoop. Storage/Suite is StorageObjectTest of storageTest.go.
--   Memory     memory.go: every method of MemoryStorage. Memory/Map is sync.Map, Memory/Sorting
--              sort.Slice; Memory/Spec is the abstract storage, a partial function from keys to values
--              with the events sent; Memory/Refine and Memory/Runs relate the two; Memory/Order,
--              Memory/Queries and Memory/Answers are about reads, Memory/Stamps about timestamps,
--              Memory/Keeping and Memory/Unrelated about what a call leaves alone.
--   Filters    filters.go: the lists of filters, their registration and checks (Filters/Choice,
--              Filters/Checks).
--   Messages   messages/messages.go: encoding, decoding and patching a client's cache.
--   Stream     stream/stream.go, stream/clock.go: the pools (Stream/Pools), New, Close, Broadcast,
--              BroadcastClock, Patch, setCache, GetCacheVersion and Refresh. Stream/Operations,
--              Stream/Refreshing and Stream/Broadcasts are about single calls, Stream/Sync and
--              Stream/Mirror about a pool and the cache of a client over many broadcasts. Stream/Sound,
--              Stream/Extending and Stream/Histories are about what holds of the pools between any two
--              calls, Stream/Joining about a connection that is new, Stream/Coherent about what the caches
--              are known to hold, Stream/Attached, Stream/Receiving and Stream/Attending about a connection that stays
--              and what it receives. Stream/Writing is the sockets, with Write, WriteClock and Read;
--              Stream/Leaving is about a connection whose write failed.
--   Server     katamari.go (fetch, getFilteredData, watch, Active, Close); Server/Rest is rest.go, ws.go
--              and clock.go: publish, read, unpublish, getStats, ws and clock. Server/InMemory fills the
--              interface of Storage with Memory. Server/Publishing, Server/Accepting, Server/Serving, Server/Removing
--              and Server/Sockets are about the handlers, Server/Delivery about the way from a request
--              that stores data to the subscribers, Server/Following about a client that opens a
--              websocket. Server/Lifecycle is Start, defaults, waitListen, waitStart and tick;
--              Server/Defaults, Server/Starting and Server/Running are about servers that are started
--              and closed. Server/Queue is a running server with the events that its workers have yet
--              to take; Server/Waiting, Server/Reading, Server/Steady, Server/Consistency, Server/Globs and Server/Settling are
--              about what its streams hold of the storage, Server/Watching, Server/Opening and
--              Server/Subscribing about a client that stays subscribed, Server/Beginning about both
--              from `Start` on. Server/Entering and Server/Sessions are about a websocket from its request to its end,
--              Server/Conformance the storage in memory under the test of Storage/Suite.
--   Client     client/subscribeMultiple.go: the goroutine that holds the states of two, three or four
--              subscriptions (Client/Latest, Client/Width), and the channels before it
--              (Client/Channels, Client/Ordering, Client/Drained, Client/Draining), of two, three or
--              four paths. Client/Subscribe
--              is client/subscribe.go, the loop that dials, reads and calls back; Client/Lifetime,
--              Client/Closing and Client/Endings are about how it waits and ends, Client/Tracking about what it calls
--              back with.
--   Io         io/local.go: GetList, Get, Set and Push of typed values. Io/Remote is io/remote.go, the
--              same over HTTP. Io/Local, Io/Lists and Io/Posting relate them to the storage.
--   Samples    tests, a codec and a patcher in small, and the theorems at concrete inputs.
--
-- How state and code correspond. State is passed explicitly, one record for each Go struct. The
-- time is an argument wherever the code reads the clock. What a call sends on the storage's channel
-- is added to a list of events; what it writes to websockets is a list of frames in its result. A
-- slice index of -1, a nil pointer and a send on a nil channel are the outcomes `panics` and
-- `blocks`. Strings are lists of bytes. A call is one step, and interleavings of the calls of
-- different goroutines are their orders. The mutexes make it so for a call of the storage and of
-- the streams; a handler, a round of a worker and Refresh make several such calls, between which
-- others may run, and are taken as one step here. ws writes its first message in a goroutine, so a
-- frame of a broadcast may overtake it; the theorems about a subscriber say that it reads this
-- message first.
--
-- Fuel. The parser of glob patterns takes the length of what it reads as fuel, and each round drops
-- at least one byte; the printer of numbers of base 16 takes sixteen rounds, enough for 64 bits.
--
-- Parameters. JSON and base64 are the record `Codec`, JSON patches and the JSON of a message the
-- record `Patcher`, sort.Slice the record `SortSlice` with its law, that it permutes the slice into
-- an ordered one. `RoundTrips` says that JSON decodes what it encoded; `IsFaithful` says what is
-- known of patches: one that was created from two documents takes the first to the second.
-- The JSON of a type is the record `Json`, that of a post `PostBody`, and the HTTP client the record
-- `Http`; `IsLossless` and `ListsTrip` say that JSON and base64 read what they wrote, `Routes` that
-- the network brings a post to the server and its response back. Listening on an address is an
-- argument of Start. Audit, OnSubscribe, OnClose and the filters are functions of
-- the application.
--
-- Steps. What the network, the server and the context do to a subscription is a step relation
-- (Client/Lifetime), as are the starts, requests and closes of a server (Server/Running), and the
-- requests to a running server with the rounds of its workers, any of which may take any event that
-- waits (Server/Queue). The steps of the goroutines around the channels are a list of events, each
-- no step where it has to wait.
--
-- Not modelled: the HTTP server with its routes, its time-outs and cors; the loops that wait on
-- sockets and channels, of which single rounds are modelled (watch, tick, the loop of Subscribe),
-- but for Read; how Serve and Shutdown serve and end, of which only the outcome is an argument; in
-- the histories of a running server, the removals by a glob that Peer does not announce to every
-- pool that they concern; the wait for a signal (WaitClose); logging, and the other helpers of
-- tests.
pub mod Base
pub mod Key
pub mod Objects
pub mod Storage
pub mod Memory
pub mod Filters
pub mod Messages
pub mod Stream
pub mod Server
pub mod Client
pub mod Io
pub mod Samples
