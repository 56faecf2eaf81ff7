-- ===== src/Lib.antt =====
-- A model of the Go programs of this repository, and of what makes them correct.
--
-- The repository holds a web framework, networking and remote calls, an object-relational mapper
-- and caches. They do not call one another: each part below stands for itself.
--
-- Common: byte texts, lists measured by native numbers, and Go maps as association lists.
--
-- Web/Router: the route trees of web/router.go. `Node` is `node`, `Trees` is `router`, and
-- `add_route`, `find_route`, `child_of` and `child_or_create` are the methods of those names. A tree
-- is a value: a change through a pointer is the tree with the node changed, also beside a panic,
-- which is the outcome `panic`. The loop over the segments of a path is recursion on them, so there
-- is no fuel. A lookup answers whether there was a node; the Go function also returns true then.
--
-- Web/Context, Web/Server, Web/Middlewares: web/context.go, web/serve.go and the middlewares of
-- web/middlewares. A handler takes a context to one that has finished or panicked; `W` is what lies
-- outside of the context, such as the response writer and logs. `serve_http` is `ServeHTTP`, whose
-- loop over the middlewares, `wrap_from` of Common/Chain, counts an index down. A middleware does not
-- panic when it is applied to the next function. Requests are given as
-- net/http parsed them, and encoding/json, strconv and the template engine are parameters.
--
-- Web/Session, Web/Files: web/session with its stores in memory and in Redis and its cookies, and
-- web/file.go. go-cache, Redis, the file system and the lru cache are parameters; what the code relies
-- on of them is named in records such as `KeepsEntries`. A pointer to a session is a number.
--
-- Micro/Message: the wire format of micro/rpc/message. `encode_req`, `decode_req`, `encode_resp` and
-- `decode_resp` are the functions of those names on lists of bytes; `none` is a panic on an index or
-- a slice. 32-bit lengths are taken modulo 2^32. A map of metadata is the list of its pairs in the
-- order in which the loop meets them; nil differs from what is empty. The decoding loop has as much fuel as there are bytes, and
-- each round takes one byte at least; the round trip holds with this fuel.
--
-- Micro/Pool: the connection pool of micro/net/pool.go. Connections are of any type; what the
-- factory returns and what the clock shows are arguments. `Get` is two steps, `get_at` and `enter`,
-- since the code looks into the idle queue before it takes the lock. A context that is done is not
-- modelled.
--
-- Micro/Frames, Micro/Rpc: the messages of micro/rpc/tcp.go on a connection, the server and the client
-- of micro/net over them, and the remote calls of micro/rpc/server.go and client.go. A connection is
-- the list of the pieces that arrive. A server's loop has fuel: as many rounds as messages arrive and
-- one for the end. JSON and reflection are parameters.
--
-- Orm: the builders of SQL text. Meta has the metadata of orm/model/model.go as records, with
-- positions for pointers to fields; the registry is a function from entities to metadata. Query has
-- the values of orm/table.go, column.go, predicate.go, expression.go and aggregate.go. Builder is
-- orm/builder.go, Selector is `Build` of orm/select.go with all that it calls, Dialect is
-- orm/dialect.go, and Inserter is `Build` of orm/insert.go. A builder is passed on explicitly; an
-- error returns the builder as it was then. Render gives the specification: an output is a text,
-- arguments and perhaps an error, and the operations of the builders append outputs. Reading a row's
-- fields is a parameter of the inserter.
--
-- Orm/Registry, Orm/Values, Orm/Session: the registry of orm/model/model.go, on reflection's view of an
-- entity and names of ASCII; the two ways of orm/internal/valuer to fill a value from a row; and
-- queries, statements and transactions of orm/core.go, db.go, transaction.go, result.go and
-- raw_query.go over a database that is a parameter. A transaction is a number that leads to its record;
-- `Wait` takes the answers of the database as a list.
--
-- Cache: Cache/Local is the map cache of cache/local_cache.go and Cache/MaxCount the one with a limit
-- of cache/max_cnt_cache.go. An operation is one step under the mutex; a time is a number, 0 is the
-- zero time, and the callback changes a state of any type. The count is an int32 in two's
-- complement. The order in which a tick of the polling goroutine meets the keys is an argument.
--
-- Cache/Layers: the caches over another cache, in cache/read_through.go, singleflight.go,
-- bloom_cache.go and write_through.go, over an interface of its operations; OnMap puts the map cache
-- behind it. A flight group is taken where no other call of the key is under way. A
-- goroutine that a variant starts is a value, which runs in any later state.
--
-- Cache/Redis: the cache of cache/redis_cache.go over a client, and the layers over it.
--
-- Cache/Lock: the distributed lock of cache/redis_lock.go, cache/retry.go and the scripts under
-- cache/lua. The commands of Redis are the record `Redis`, and what Redis documents of them is `Laws`. A
-- script runs as one step. A call is answered, lost, late or broken, as its `Link` says; the loop of
-- `Lock` goes over the turns that its surroundings give it, and the loop of `AutoRefresh` over what
-- its `select` receives.
--
-- Cache/Shutdown: cache/homework_graceful_shutdown/service/shutdown.go as a step relation: the loop
-- that makes the servers reject, what the goroutines behind each wait do, and the forced exit. `stop`
-- can answer an error, and a callback has a flag that tells whether its call ever returns.
--
-- Cache/Broker, Cache/SafeMap: the queues of cache/concurrency/channel/mq.go, and the map of
-- cache/concurrency/sync/safe_map.go with what comes between the two locks of `LoadOrStore`.
--
-- Not modelled: the task pool, which `NewTaskPool` does not return, so that nothing reaches it;
-- opening connections and databases, listening, the template engine, tracing and metrics,
-- `SingleLock`, the spin lock and other exercises, and generated code.
pub mod Common
pub mod Web
pub mod Micro
pub mod Orm
pub mod Cache
