-- ===== src/Lib.antt =====
-- A model of the engine of go-kitsune: the stage loops of its operators, what the engine does
-- around an item's function (retries, error handlers, supervision, the circuit breaker), the
-- goroutines of its concurrent maps, its state (Refs, keyed Refs, stores, the memory cache,
-- deduplication sets), its overflow outboxes and its drain protocol.
--
-- A pipeline is a graph of stages. Each stage runs one goroutine with a `for` loop around a
-- `select` on its input channel, its context, its drain channel and perhaps a timer or a second
-- input, and sends to its output channel by an outbox. Stage models that loop: a list of events
-- says what the `select`s pick, so a theorem over every list is one over every interleaving, and a
-- Room says how many sends find a reader and what interrupts the next. Every operator is a Loop,
-- whose handlers are the cases of its `select`; `run` executes it, `ideal` is the same loop when
-- every send finds a reader, and `cut` relates the two.
--
--   Prelude    the libraries' names, Boolean tests, list lemmas
--   Errors     Go's error values and WrapStageErr (internal/process.go)
--   Keys       comparable keys and maps
--   Stage      the stage loop, blockingOutbox.Send (internal/outbox.go), two rules for loops, and the
--              bursts of the fast paths
--   Take       operator_take.go: Take, Drop, TakeWhile, DropWhile, DropLast, TakeUntil, DropUntil
--   Transform  operator_transform.go: WithIndex, Pairwise, TakeEvery, DropEvery, MapEvery, Intersperse;
--              aggregate.go: Scan, Reduce; operator_map.go: mapSerial, mapSerialFastPath
--   Batch      batch.go: Batch, BufferWith, Unbatch, SlidingWindow, SessionWindow, ChunkBy, ChunkWhile
--   Dedup      internal/ttldedup.go, internal/bloom.go, and DistinctBy and DedupeBy of aggregate.go
--   Handlers   the error handlers of config.go
--   Process    internal/process.go: ProcessItem, ProcessFlatMapItem
--   Supervisor  internal/process.go: Supervise
--   Breaker    the circuit breaker of middleware.go
--   Outbox     the dropping outboxes of internal/outbox.go, step by step
--   Resubscribe  Retry of operator_retry.go
--   Cache      the memory cache of internal/hooks.go
--   Values     memoryStore of internal/hooks.go
--   Ref        state_ref.go: Ref in memory, on an InProcessStore, and on a Store with a codec
--   Keyed      state_withkey.go: keyedRefMap, mapWithKeySerial
--   Ordered    operator_map.go: mapOrdered, step by step
--   Concurrent  operator_map.go: mapConcurrent, step by step
--   FanOut     fan_out.go: Partition, Broadcast, Balance, KeyedBalance
--   Groups     aggregate.go: GroupBy, FrequenciesBy and the running aggregates
--   Filter     operator_filter.go: Filter with filterFastPath, and Tap
--   FlatMap    operator_flatmap.go: flatMapSerial, flatMapSerialFastPath
--   Expand     operator_filter.go: ExpandMap
--   Sharded    state_withkey.go: mapWithKeyConcurrent
--   Pool       pool.go
--   Merging    fan_out.go: Merge
--   Timed      time_op.go: Throttle, Sample, Debounce
--   Effects    effect.go: runEffectAttempts, Effect; idempotency.go
--   Collect    collect.go: ReduceWhile, TakeRandom, ToMap; misc.go: DefaultIfEmpty, Timestamp, TimeInterval,
--              Sort; advanced.go: MapResult, MapRecover
--   Terminals  collect.go: Collect, First, Last, Single, Count, Any, All, Find, Sum, Min, Max, MinMax,
--              SequenceEqual
--   Notification  notification.go: Materialize, Dematerialize
--   Drain      pipeline.go: the drain signals of runCtx
--   Examples   concrete runs
--
-- A stage with several goroutines is a step relation: a state names where each goroutine stands,
-- one operation on a channel is one step, and a sequence of steps is an interleaving. Ordered and
-- Concurrent do that for the maps, Sharded for the keyed map, Merging for Merge, Outbox for the
-- dropping outboxes (there as a function of a schedule).
--
-- A stage function's name in snake case, with `_loop`, is its model. The retry loops of ProcessItem
-- and ProcessFlatMapItem have no bound in the source and run on fuel, one unit for an attempt; one
-- more than the retry budget is enough for a handler whose fallback does not retry. The passes of
-- mapSerialFastPath and filterFastPath run on fuel too; one more than there are items is enough.
-- ExpandMap runs on fuel, one unit for a pipeline of its queue, of which two more than MaxItems is
-- enough, and one unit for an item of a run, of which enough for the items of any one pipeline is,
-- or, for pipelines without an end, as many as come before and after cancel(); without a cap it
-- need not end. runEffectAttempts runs on fuel, one unit for an attempt; the number of attempts
-- that its policy allows is enough. Supervise consumes a list of runs and Retry a list of attempts.
-- All other loops are structural.
--
-- Not modelled: the construction of the pipeline graph, stages that wait on several inputs (Zip,
-- CombineLatest, LatestFrom, SampleWith), the concurrent forms of FlatMap and ForEach, the other
-- keyed forms, sources, hooks and logging, the context's values, the contents of durations. The
-- clock, the hashes of the Bloom filter (hash/maphash), its sizes (computed in floating point),
-- codecs, stores other than memoryStore and every user function are parameters. Counters and
-- indices do not wrap around, but for the drain's reference counts.
pub mod Prelude
pub mod Errors
pub mod Keys
pub mod Stage
pub mod Take
pub mod Transform
pub mod Batch
pub mod Dedup
pub mod Handlers
pub mod Process
pub mod Supervisor
pub mod Breaker
pub mod Outbox
pub mod Resubscribe
pub mod Cache
pub mod Values
pub mod Ref
pub mod Keyed
pub mod Ordered
pub mod Concurrent
pub mod FanOut
pub mod Groups
pub mod Filter
pub mod FlatMap
pub mod Expand
pub mod Sharded
pub mod Pool
pub mod Effects
pub mod Merging
pub mod Timed
pub mod Collect
pub mod Terminals
pub mod Notification
pub mod Drain
pub mod Examples
