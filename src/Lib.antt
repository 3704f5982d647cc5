-- ===== src/Lib.antt =====
-- cf-local serves the CloudFront API on a developer's machine: it stores policies and
-- distributions, renders an nginx configuration from them, and purges nginx's cache on
-- invalidations. This library models its invalidation subsystem, its policy checks, its cache
-- policies, the store of distributions, the renderer and reloader of the nginx configuration, and the
-- bridge to Lambda@Edge, from the Go sources; paths below are from the repository's root.
--
-- Invalidations. A request goes to the handler (internal/api/invalidation/aws_handler.go:
-- Invalidation/Handler.antt), which parses its paths (internal/invalidation/matcher.go:
-- Invalidation/Matcher.antt), stores a record in state InProgress (internal/api/invalidation/store.go
-- and bolt.go: Invalidation/Store.antt) and enqueues a job. The worker
-- (internal/invalidation/worker.go: Invalidation/Worker.antt) takes jobs off a bounded queue, has the
-- cache walker (internal/invalidation/cache.go: Invalidation/Cache.antt) remove the files whose keys
-- the paths match, and marks the record Completed. At startup the store completes what was left in
-- progress.
--
-- Cache policies. A request goes to the handler (internal/api/cachepolicy/handler.go:
-- CachePolicy/Handler.antt), which converts its XML (internal/api/xml/cache_policy_convert.go:
-- Xml/CachePolicy.antt), has it checked (internal/api/validate/policy.go: Validate/Names.antt,
-- Validate/Policy.antt, Validate/Headers.antt) and stores it (internal/api/cachepolicy/bolt.go:
-- CachePolicy/Store.antt), where the managed policies (managed.go: CachePolicy/Managed.antt) are
-- seeded. Error codes and statuses are those of internal/api/xml/codes.go and error.go
-- (Xml/Codes.antt).
--
-- Distributions. The SDK's distribution configuration is in Distribution.antt, and the store
-- (internal/api/distribution/store.go and bolt.go) in Distribution/Store.antt; Store/Registry.antt is
-- what it promises, without the order of its maps, and Store/Refines.antt relates the two.
--
-- nginx. When a store has changed, it calls the reloader (internal/nginx/reloader.go:
-- Nginx/Reloader.antt), which after a pause renders what the stores hold (renderer.go:
-- Nginx/Render.antt) and replaces two files (writer.go: Nginx/Writer.antt). The configuration
-- (conf.go) is written from views of the origins and behaviors (Nginx/Conf/Names.antt,
-- Nginx/Conf/Views.antt), by the functions of Nginx/Conf/Writers.antt; the lines of a response headers
-- policy are those of response_headers.go (Nginx/Headers.antt). Nginx/Conf/Hops.antt lists the
-- locations of the inner server, and Hops/Opened.antt finds them in the written text. In the reloader's model a step is a choice of
-- Run's select, a change of a store, or a call of Trigger; time is not counted.
--
-- Lambda@Edge. A hook of the configuration has nginx call the edge proxy, whose pipeline
-- (internal/edgefunc/server.go: EdgeFunction/Server.antt) finds the function bound to the event, in a
-- cache or by the control plane (internal/api/edgefunc/handler.go: EdgeFunction/Bindings.antt), builds
-- the event and translates the function's answer (internal/edgefunc/event.go:
-- EdgeFunction/Events.antt, EdgeFunction/Translate.antt; types.go: EdgeFunction.antt).
--
-- The definitions stand in the modules named above, under the source's names in snake_case; a child
-- module of one holds proofs and is named for what it proves. Go's (value, error) is Result, a map is
-- an association list, a string is a list of bytes (Prelude.antt), a nil pointer is none, a method
-- under a mutex is one step from state to state. Go's range over a string is in Prelude/Runes.antt.
-- Machine integers of a fixed width are bit patterns. All loops are structural recursions, so no fuel
-- is used, but for the client that pages through a list (Invalidation/Handler/Walk.antt), whose number
-- of requests is bounded by the number of records; Invalidation.Handler.Bolt.collect-list states that
-- this is enough.
--
-- Parameters, with their documented behaviour as laws: bbolt and encoding/json (Storage.antt; a bucket
-- in memory that meets the laws is in Storage/Memory.antt), encoding/xml, time.Format, the ETag hash,
-- and random bytes for IDs, which reach an operation as the argument `minted`. The file system's
-- answers to the cache walk are data of the walk, and those to the file writer are the record Calls.
-- strconv's table of printable runes behind ASCII, strings.ToLower, and the answers of the control
-- plane and of the Lambda function are arguments. What else the code uses of Go's library is defined:
-- fmt's verbs and strconv (Prelude/Format.antt, Prelude/Quote.antt, Prelude/Numbers.antt), sort.Slice
-- and sort.Strings (Prelude/Sort.antt), filepath.Base and http.CanonicalHeaderKey.
--
-- The edge proxy's cache is looked up in one step: what other requests do while server.go has released
-- its mutex for the control plane is not modelled.
--
-- Not modelled: message texts, log lines, request IDs, and the XML encoding of responses; the
-- handler of distributions; the stores and handlers of origin request policies and response headers
-- policies; the loader of configuration files; the HTTP clients and handlers of the edge proxy, and
-- the parser of its function map; routing, middleware and the commands, which are wiring and I/O; the
-- MemoryStores, which stand in for BoltStore in tests.
pub mod Prelude
pub mod Storage
pub mod Xml
pub mod Invalidation
pub mod Validate
pub mod CachePolicy
pub mod Distribution
pub mod Nginx
pub mod EdgeFunction
