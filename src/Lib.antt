-- ===== src/Lib.antt =====
-- SimpleCache: a versioned read-through cache in front of a source of truth. This library models the
-- core of the cache engine (geecache-engine/internal/cache), the protocol of its cluster, the source of
-- truth and its outbox, and proves what makes it correct.
--
-- The parts and their files:
--
-- - Lru.antt, with Lru/: geecache-engine/internal/cache/lru/lru.go. `Cache` has the list, the index by
--   key, the wrapping byte count and the pruning cursor. Get, Peek, Remove, RemoveOldest, AddUntil, Add
--   and PruneExpired are `get`, `peek`, `remove`, `remove_oldest`, `add_until`, `add` and
--   `prune_expired`. An element of container/list has an identity, which the index and the cursor hold.
-- - Area.antt, with Area/: the struct `cache` of geecache-engine/internal/cache/cache.go, an LRU behind
--   a byte limit, and ByteView. Each method runs under the mutex and is one function.
-- - Bloom.antt, with Bloom/: geecache-engine/internal/cache/bloomfilter.go. The floating-point sizing
--   formulas are the parameters `ideal_bits` and `ideal_hashes`.
-- - Errors.antt: geecache-engine/internal/cache/errors.go.
-- - Group.antt, with Group/: the state of geecache-engine/internal/cache/group.go and the version
--   floors, the epochs and the invalidation of geecache-engine/internal/cache/versions.go.
-- - Load.antt, with Load/: geecache-engine/internal/cache/load.go. What the limiter, the context and the
--   getter answer is a `Run`.
-- - Read.antt, with Read/: the lookups of geecache-engine/internal/cache/read.go. Read/History.antt has
--   the critical sections of a group as events, and sequences of them. Read/Flight.antt is the function
--   that Group.Get hands to DoChan: a lookup, a load, and one retry after a stale answer. Read/Get.antt has
--   Get around it, with the waiter slot and the wait.
-- - Admission.antt, with Admission/: geecache-engine/internal/cache/admission.go, the source limiter as a
--   step relation over two buffered channels.
-- - Protocol.antt, with Protocol/: geecache-engine/internal/cluster/protocol.go, the version header of an
--   invalidation, the bearer token and the status codes.
-- - Store.antt, with Store/: geecache-engine/internal/source/postgres/postgres.go, and Store/Queue.antt
--   geecache-engine/internal/source/postgres/outbox.go. A method of Store is one SQL statement, a function
--   on the two tables. `Trip` says whether it and its answer arrive.
-- - Outbox.antt, with Outbox/: geecache-engine/internal/outbox/worker.go, the retry delay, the step of a
--   worker and the purge loop. Outbox/Worker/System.antt has any number of workers over one outbox.
-- - Cluster.antt, with Cluster/: geecache-engine/internal/cluster. Cluster.antt has the client of
--   invalidation.go and the handler of server.go, Cluster/Groups.antt the table of groups that the handler is
--   made with, Cluster/Directory.antt the members of directory.go, and
--   Cluster/Broadcast.antt the fan-out of an invalidation. The network is the parameter `exchange`.
-- - App.antt, with App/: geecache-engine/internal/app. App/Mutations.antt has executeMutation of
--   mutations.go over any source and any router, and App/Writes.antt gives it the source and the directory.
--   App/Tags.antt has the version tags and App/Handlers.antt the handlers of mutations_http.go and api.go,
--   with the request key in App/Keys.antt.
-- - Prelude.antt, with Prelude/: words of 64 bits, bits, lists, byte strings, maps and decimal text.
-- - Tests.antt, with Tests/: runs at fixed inputs.
--
-- A Group is an area, a filter, a bounded table of version floors and striped epochs. A flight reads a
-- fence (`read_barrier`), asks the source, and publishes (`publish`) in a critical section that compares
-- the fence with the epoch and the version with the floors. An invalidation (`invalidate_version`) raises
-- the floor, bumps the epoch and drops an older value. Concurrency is a sequence of critical sections:
-- a flight is its fence and, later, its publication, with any events between.
--
-- A write to the source commits the next version of a row and its message in the outbox, in one statement.
-- A worker leases a message (`claim`), sends the invalidation and completes the lease (`finish`). SQL is
-- read as PostgreSQL documents it: a statement happens whole or not at all, it raises an error where a
-- bigint would overflow, a comparison with NULL does not hold, and `SKIP LOCKED` passes over held rows.
--
-- A mutation writes to the source, then announces the version to its own group and to every other member
-- (`notify`); where the source failed it announces version zero, which forces the key out. Workers ask the
-- members at the same time; each writes its own slot of the report, so a schedule is the order of the slots.
-- What a member answers is a function of the request: the deadline of a second that all jobs share may
-- end any of them as `expired`, but two equal requests, to two members at one address, get one answer.
--
-- Conventions. An instant is a number of nanoseconds from the zero Time, which is 0; each reading of the
-- clock is an argument, and no order between them is assumed. int64 and uint64 wrap where the code adds
-- to them: byte counts (`add64`, `sub64`, compared as signed by `ltb64`), epochs, evictions and hashes.
-- Only the database adds to versions; a negative one is `negsuc`. Lengths do not wrap. The eviction loop
-- runs on fuel, one round for each element and one more, and is proved to end; `none` is a loop that did
-- not, or a panic. The purge loop has fuel for one round more than the outbox has rows. The limit of a
-- cache is taken below 2 ^ 62 bytes, so that the signed byte count never wraps. An epoch has 64 bits, so a
-- flight is compared with it over fewer than 2 ^ 60 critical sections. The handlers of the API take what
-- Group.Get gives as a parameter, and whether a body is JSON and a write slot is free as inputs. The options
-- of a group are natural numbers, so the panics on a negative TTL, timeout, interval, queue or batch are left
-- out with those values.
--
-- Not modelled: metrics and observers, the maintenance goroutine around CleanExpired, copying of byte
-- slices, the singleflight library, the encoding of JSON, the statistics of the outbox and the
-- connection pool of the source, configuration and start-up, discovery, the operator, and the tools that
-- measure and validate.
pub mod Prelude
pub mod Lru
pub mod Area
pub mod Bloom
pub mod Errors
pub mod Group
pub mod Admission
pub mod Load
pub mod Read
pub mod Protocol
pub mod Store
pub mod Outbox
pub mod Cluster
pub mod App
mod Tests
