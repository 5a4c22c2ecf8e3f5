-- ===== src/Lib.antt =====
-- A model of the core of the futures order book recorder (its order book, trades, analytics,
-- recording and replay), with the theorems that make it correct.
--
-- The program keeps a local copy of the order book of a Binance Futures symbol. A loop reads depth
-- events and trades from web sockets. A synchronizer buffers depth events while a REST snapshot is
-- fetched, finds the event that bridges the snapshot, and then checks each live event against the
-- one before it. The events that pass are applied to the book, and each change is sent on an
-- unbounded channel, from which the analytics engine keeps a second, shadow book. Trades are
-- normalised to integer ticks, passed through a filter of duplicates and late trades, grouped
-- into clusters, and summed by price and by time; a heatmap keeps the same trades, and the changes of
-- the shadow book, in a grid of prices by time. The analytics engine drives these parts and, at each
-- interval, takes a snapshot of them. What the sockets deliver is also recorded: rows go
-- through a bounded queue to a worker that stores them in batches, and a replay reads them back and
-- runs them through the same components.
--
-- Which file models what (paths are from the root of the repository):
--   Level, Level/Floats   src/orderbook/level.rs: `price_str_to_ticks`, `quantity_str_to_ticks`, ...
--   Error                 src/error.rs, and the other errors of the order book
--   Binance               src/binance/types.rs: the payloads, `tick_size`, `step_size`
--   Sync/State, Sync/Defs src/orderbook/synchronizer.rs: `Synchronizer` and its methods
--   Book/Defs             src/orderbook/book.rs: `OrderBook`, its small methods
--   Book/Apply            src/orderbook/book.rs: `apply_snapshot`, `apply_depth_update`
--   Book/View             src/orderbook/book.rs: `spread`, `mid_price`, `snapshot`,
--                         `verify_invariants`, the lists of levels
--   Events                src/events/market.rs: `MarketEvent`
--   Engine/Defs           src/main.rs, `cmd_record`: the depth messages of the loop and the two kinds
--                         of snapshot task
--   Engine/Trades         src/main.rs, `cmd_record`: the trade messages of the loop
--   Trades/Trade          src/trades/trade.rs
--   Trades/Normalizer     src/trades/normalizer.rs, and `FuturesTrade` of src/binance/trade_types.rs
--   Trades/Processor      src/trades/processor.rs
--   Analytics/Shadow      src/analytics/book.rs: `ShadowBook`
--   Analytics/Clusters    src/analytics/clusters.rs: `ClusterTracker`
--   Analytics/Flow, Analytics/Buckets
--                         src/analytics/flow.rs: `TradeFlow`, and its time buckets
--   Analytics/Derived     src/analytics/events.rs: `AnalyticsEvent`
--   Analytics/LargeTrades src/analytics/large_trades.rs: `LargeTradeDetector`
--   Analytics/Liquidity   src/analytics/liquidity.rs: `LiquidityTracker`
--   Analytics/Heatmap, Analytics/Heatmap/Digest, Analytics/Heatmap/Frame, Analytics/Heatmap/Patch
--                         src/analytics/heatmap.rs: `Heatmap`, its digest, `HeatmapFrame` and
--                         `HeatmapDelta`
--   Analytics/Config      src/analytics/config.rs: `AnalyticsConfig`
--   Analytics/Sweeps, Analytics/Absorption
--                         src/analytics/sweeps.rs and src/analytics/absorption.rs: the detectors
--   Analytics/Snapshot    src/analytics/snapshot.rs, and the reads that it takes of the book and the
--                         flow
--   Analytics/Engine, Analytics/Engine/Updates, Analytics/Engine/Trading, Analytics/Engine/Process
--                         src/analytics/engine.rs: `AnalyticsEngine`
--   Recording/Host        the times of src/storage/mod.rs, and what the recorder uses of other
--                         packages
--   Recording/Rows        the rows of src/storage/mod.rs, `SessionRecord` of
--                         src/recording/session.rs, and `Record` of src/recording/worker.rs
--   Recording/Metrics     src/recording/metrics.rs
--   Recording/Recorder    src/recording/recorder.rs: `Recorder`
--   Recording/Worker      src/recording/worker.rs: `StorageWorker`, `retry_insert`
--   Recording/Run         src/recording/recorder.rs: `start_recorder`, `run_worker`
--   Storage/Analytics     src/storage/analytics.rs: the rows and batches; and src/main.rs:
--                         `analytics_batch_from_output`, `liquidity_row_from_event`
--   Storage/Sink          src/storage/analytics.rs: `AnalyticsSink`, `start_analytics_sink`
--   Storage/Lane          src/main.rs: the events that go to the engine and on to the sink, and the
--                         end of the analytics
--   Storage/Memory        src/storage/memory.rs: `MemoryStorage`; Storage/Sorts has its stable sort
--   Verify                src/verify/mod.rs: `verify_session`
--   Replay/Reader         src/replay/reader.rs
--   Replay/Engine         src/replay/engine.rs: `run_replay`
--   TreeMap               `BTreeMap` of the standard library, with the laws of its operations
--   Prelude               tests, lists, results and words that the parts share
-- The other files below these hold specifications and proofs. Examples holds concrete data and, for
-- each theorem of the list below, an application of it.
--
-- How state and operations correspond. A struct is a record with the fields of the source, and a
-- method with `&mut self` is a function that takes the record and returns the new one, beside what
-- the method returns. A method that fails returns its error together with the state that it leaves
-- behind, since `?` returns after the statements before it took effect. Unsigned 64-bit integers
-- are natural numbers, and additions and subtractions on them wrap (`% 2 ^ 64`), as in a release
-- build; 128-bit sums wrap at 2 ^ 128. The width of a heatmap cell and the intervals of the flow are
-- not 0, at which the source's `%` panics and the model goes on. Binary64 arithmetic is a parameter, the record `F64`, whose
-- only law is that the cast to `u64` is in range; `Level/Whole` is an instance on whole numbers for
-- the examples.
--
-- Concurrency. The loop and the spawned tasks share the book and the synchronizer under locks. Each
-- stretch of code between two lock operations is one step of `Engine.Defs.advance`; a step that
-- would wait for a lock leaves the system as it is. A history is a list of inputs: messages of the
-- socket, answers of the REST endpoint, and which task moves. All loops are structural recursion on
-- the lists that the source iterates over, so that no fuel is needed; the retry loop of a task is
-- its counter, bounded by `max_retries`, and that of an insert is structural in the attempts left.
-- The recorder and the worker share the queue: a call of the recorder is one step, and so is a
-- branch of the worker's `select!` with the flush in it, which touches neither the queue nor what a
-- call does. Whether an insert succeeds, attempt by attempt, is an input; the store of the model is
-- what the storage acknowledged.
--
-- Other packages. `Recording.Host` has the dates of chrono, UUIDs, the JSON of levels and the length
-- of a string in bytes as a parameter; what is documented of dates is the hypothesis `IsClock`,
-- and Examples/Recorders has an instance. The replay returns its first error without the state,
-- as `run_replay` does. The comparison of UUIDs and of dates, the JSON text of an event's evidence,
-- and whether a text is JSON are arguments of what uses them.
--
-- Not modelled: logging; the ClickHouse storage and the storage wrapper of the tests, and the HTTP and
-- web socket servers; sleeping and the clock, which are inputs; deserialisation, which is serde's;
-- displays and ratios in floats; the front end.
pub mod Prelude
pub mod TreeMap
pub mod Level
pub mod Error
pub mod Binance
pub mod Sync
pub mod Book
pub mod Trades
pub mod Events
pub mod Engine
pub mod Analytics
pub mod Recording
pub mod Storage
pub mod Verify
pub mod Replay
pub mod Examples
