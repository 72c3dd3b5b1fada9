-- ===== src/Lib.antt =====
-- The OpenCTI middleware: a service that answers whether a value of a log line (an address, a domain, a
-- URL, a file hash) is an indicator of an OpenCTI instance, and with which score, labels and validity.
--
-- How the parts work together. A value is looked up in the split backend. While its membership set is
-- complete and current, a value that is not in the set is a miss, answered without any request. Every
-- other value goes to the live backend, which reads the payload cache, and on a miss of the cache asks
-- OpenCTI through the client and its circuit breaker; concurrent requests of one key share one fetch.
-- The mapper turns OpenCTI's answer into a flat payload. The membership set is built by the bootstrap
-- from the pages of OpenCTI, lies in shared memory for all workers, and is kept current by the live
-- stream, whose updates go into an overlay of each process. One of the workers holds a lock, builds the
-- set and publishes it; the others attach to the published one and follow its generations. The builder's
-- reconciler rebuilds the set on a request or after an interval, and swaps the new set in with the overlay
-- of the old one carried over. The HTTP API checks the key of a request before it looks its value up.
--
-- Which module models which file (paths from the repository's root, under src/opencti_lookup/):
--   Settings      config.py: the fields with their defaults, the validators, the derived URLs and types.
--   Membership    backends/membership.py: fingerprints, build, attach, search, overlay, close. The table of
--                 shared memory segments is an explicit state. blake2b, numpy.unique and the padding of a
--                 page are arguments.
--   Breaker       opencti/client.py, CircuitBreaker: state, allows, record_success, record_failure, each at
--                 the clock reading that it is given.
--   Client        opencti/client.py, OpenCTIClient: execute with its retry and all its error paths, and
--                 health. What httpx comes to is an argument (Outcome).
--   Cache         cache/payload.py: get, set, eviction, expiry, invalidate, stats, at a clock reading.
--   SingleFlight  cache/singleflight.py: do, cut at its awaits, as a step relation on tasks and futures.
--   Mapper        opencti/mapper.py: policy, ranking, labels, marking, build_payload.
--   Stream        opencti/stream.py: extract_values, _handle, _consume_once and run. What the consumer
--                 calls is the record Hooks.
--   Indicators    indicators.py: the whole of normalize, from the defanging to the skip rules, with the regular
--                 expressions written out; opencti/queries.py: the filters.
--   Live          backends/live.py: lookup, _fetch, _query. OpenCTI is a function from the variables of a
--                 query and the number of requests sent so far to an outcome.
--   Split         backends/split.py: lookup, swap_membership, mark_ready, mark_stale, stream_health.
--   Bootstrap     bootstrap.py: counts, pages, values, build_membership.
--   Memory        memory.py: the cgroup's limit and detect; main.py: _resolve_budgets.
--   Shared        backends/shared_state.py: the builder's lock, the published state, the wait for it and the
--                 sweep of old segments.
--   Loader        membership_loader.py: load with each of its branches, and the watcher of the generations.
--                 Loader.Workers has the steps of several workers in any order.
--   Reconcile     reconcile.py: the requests, the rebuild and the loop.
--   Api           api/lookup.py and api/deps.py: the key check, one lookup and a batch.
--   Ops           api/ops.py: readyz, the gauges of metrics, and config/validate; with the describe methods
--                 of backends/live.py, backends/split.py and reconcile.py, and the gauges of obs/metrics.py.
--   Lifespan      main.py, lifespan: the first load and its retries, what runs after a load, the
--                 callbacks of the stream and the check of its health, and the stop.
--   Wazuh         wazuh/custom-opencti.py (from the root): the indicators of an alert, the request to the
--                 middleware, the events of the hits and main.
--   Base          The shared types and lemmas: results with exceptions as values, texts, decoded JSON,
--                 association lists, sets of numbers, integers.
--
-- How Python is modelled. A method that changes its object returns the changed record. An exception is a
-- value of Base.Result; a chain of calls is its bind. A dictionary of the program is an association list
-- in insertion order; decoded JSON is the data type Json, without numbers that have a fraction. Times are
-- whole numbers, read once for each reading of the clock in the source and given as arguments. Only the
-- mapper takes one time for all the dates it compares, as the functions of mapper.py do where they are
-- given `now`; where they are not, they read the clock at each date. str of an
-- arbitrary value, int of a text and datetime.fromisoformat are fields of the record Python.
--
-- Fuel. bisect_left gets the length of the view as its fuel, one round for each unit. The bootstrap gets a
-- number of pages as its fuel, since OpenCTI could serve pages for ever. The wait for the builder gets a
-- number of looks; one more than there are quarters of a second in the timeout is enough, since the sleep
-- between two looks takes a quarter of a second at least. Defanging gets twice the length of the text,
-- which is enough for a text without the two letters that str.lower does not change on their own (the
-- capital I with a dot and the capital sigma); with the first of them the loop of the program may not end.
-- All other loops are structural.
--
-- Concurrency. The single flight is a step relation over every interleaving of its awaits, and the workers
-- of one machine are one over every interleaving of their steps on the lock and the state file. What other
-- tasks do between two awaits of the reconciler and of the retry of a load is an argument. The other
-- components run one operation at a time: between two awaits the event loop runs one task, and the locks
-- of the membership set and of the breaker make their operations single steps.
--
-- Not modelled: healthz and the text format of metrics, the construction of the client and of the cache in
-- main.py, the hint that stream.py prints on a refusal, the hit ratio of the cache (a fraction), the texts of the
-- query documents, and an alert that is no object in wazuh/custom-opencti.py. Log lines and counters that only call libraries are left out.
pub mod Base
pub mod Settings
pub mod Membership
pub mod Breaker
pub mod Client
pub mod Cache
pub mod SingleFlight
pub mod Mapper
pub mod Stream
pub mod Indicators
pub mod Live
pub mod Split
pub mod Bootstrap
pub mod Memory
pub mod Wazuh
pub mod Shared
pub mod Loader
pub mod Reconcile
pub mod Api
pub mod Lifespan
pub mod Ops
