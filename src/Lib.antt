-- ===== src/Lib.antt =====
-- Flameping pings targets on a schedule, publishes what it measures over a bounded event bus,
-- keeps latency histograms in a local database and probes faster for a while when a target
-- deteriorates. This library models its core and proves what makes it correct.
--
-- The parts, and where they are modelled:
--
-- - internal/eventbus/eventbus.go: `Eventbus`. The bus is the record `Bus`; a goroutine that
--   calls `Reserve`, `Publish`, `Cancel` or `Next` is a `Point`, the place where the call stands,
--   and `act` makes its next communication. `Run` ranges over all interleavings. The probe
--   engines publish to it and the storage writer reads from it.
-- - internal/histogram/histogram.go: `Histogram`, with `Histogram.Codec` (`MarshalBinary`,
--   `UnmarshalBinary`), `Histogram.Quantiles` (`Quantiles`, `Quantile`) and `Histogram.TopBins`.
-- - internal/scheduler/scheduler.go: `Scheduler` (`submitDue`, `applyUpdates`, `observeGap`,
--   `addGap`) and `Scheduler.Run` (`Run`, `UpdateInterval`, `phaseFor`). Its sink, the echo
--   engine, and the clock are an arbitrary environment whose answers may depend on all earlier
--   calls.
--
-- - internal/trace/checksum.go: `Checksum` (`parisPayload`, `udpChecksum`, `udpPseudoSum`,
--   `fold`). The traceroute engine gives each UDP probe a checksum of its own, by which replies
--   are told apart.
-- - internal/obsess/controller.go: `Obsess`, with `Obsess.Samples` (`addSample`, `makeRoom`,
--   `pruneHistory`, `interrupt`, `average`, `limit`), `Obsess.Settle` (`fault`, `finish`,
--   `changed`), `Obsess.Requests` (`New`, the rounds of `expire`) and `Obsess.Api` (`BeginProbe`,
--   `CompleteProbe`, `ObserveReply`, `ObserveGap`, `UpdateEndpoint`). The probe engine calls it
--   around each probe, and the scheduler with each gap; what it tells the scheduler, the probe
--   interval of a target, is the list `changes`.
-- - internal/echo/engine.go and internal/echo/payload.go: `Echo`, with `Echo.Loops` (`TrySubmit`,
--   `UpdateEndpoint`, `RecordGap`, `DrainInputs`, `sendLoop`, `publishUnsentGap`), `Echo.Replies`
--   (`receiveLoop`) and `Echo.Payload` (`EncodePayload`, `DecodePayload`). It is the scheduler's
--   sink, and it tells the obsess controller of each probe; an order of the steps of its
--   goroutines is a list.
-- - internal/resolver/resolver.go: `Resolver` (`Resolve`, `familyMatches`). The application gives the
--   engines the address that it returns.
-- - internal/config/config.go: `Config` (the settings), `Config.Effective` (`EffectiveInterval`,
--   `EffectiveTimeout`, `EffectiveMinInterval`, `EffectiveObsess`, `Threshold`, `Defaults`),
--   `Config.Slots` (`durationSlots` and the slots counted by `Validate`) and `Config.Validate`
--   (`Validate`, `validateListen`). Every other part is started with what `Validate` accepts.
-- - internal/trace/runner.go and internal/trace/raw.go: `Trace`, with `Trace.Probes`
--   (`traceOnce`, `traceHasReply`, `Trace`), `Trace.Ports` (`stableFlowPorts`, the claims of
--   `waitRate`), `Trace.Signature` (`routeSignature`) and `Trace.Quoted` (`quotedUDP`). What a
--   socket, the clock and the deadlines do is an environment: a turn for each probe and a list of
--   what is heard in each window.
-- - internal/store/sqlite/writer.go, rollup.go and retention.go: `Store`, with
--   `Store.Writer` (`applyReply`, `markDirty` and the row that `insertProbe` writes),
--   `Store.Writer.Batch` (`insertProbe`, `insertGap`, `applyBatch`, `applyRetainedBatch`),
--   `Store.Periodic` (`countPeriodic`), `Store.Pings` (`aggregateRawMinute`), `Store.Pings.Rollup`
--   (the stored row and the loop of `recomputePingHour`), `Store.Recompute`
--   (`recomputePingMinute`, `recomputePingHour`, `storePingAggregate`), `Store.Retention` (the
--   statements of `pruneWithRaw` on samples, gaps and rollups of targets, which an emergency prune
--   repeats with other cutoffs), and `Store.Interfaces` (`aggregateInterfaceRows`,
--   `interfaceRate`). A table is the list of its rows, and each SQL
--   statement is the function on lists that it stands for. The writer takes its events from the
--   bus. `Store.Fresh` relates the rollups to the rows, and its `Reaches` is the relation of
--   the states that batches, recomputed rollups and the statements of retention lead to; a floor
--   bounds the cutoffs of that retention, and `IsFresh` speaks of the minutes from the floor on,
--   since older ones may have lost their rows.
--
-- Numbers are natural numbers, with the wrap of fixed-width integers written out; the settings
-- are signed. Times are nanoseconds. Maps are association lists; the map of histogram buckets is
-- kept in the order of its keys, and a heap of deadlines is a list from which the least deadline
-- is taken. Functions of float64 are parameters, since their rounding is not modelled.
--
-- Bounds: a variable-length integer has ten groups, so nine rounds of its loop are enough; the
-- loop of `submitDue` gets one round more than there are entries, and the theorem on it shows
-- that no due entry is left; folding a 32-bit sum takes two rounds. The loop over the windows of
-- a trace gets as many rounds as there may be hops, and each window has at least one hop.
--
-- A time of the store is microseconds. The clock is read once in a batch, and the time up to which
-- rows were pruned does not change in it. The insertion of a gap gets a round for each minute from
-- the epoch to its last slot.
--
-- Simplified: a round of a send loop of the echo engine is one step, so that an endpoint changes
-- before the round or after it; and where the obsess controller takes the first target of a map in
-- Go's random order, the model takes the first of its list.
--
-- Not modelled: of the obsess controller its timer and the status that it reports; of the settings
-- the YAML decoder and the texts of sizes; of the engines the sockets, their failure and the
-- schedule of traces; the interface statistics; of the store its interface, trace and endpoint
-- events, the queries of the interface rollups, the recovery of a full disk, the retention of
-- interfaces, traces and routes, the choice of which dirty buckets to recompute and the order of the
-- steps of maintenance, and the queries; the HTTP interface, the browser code, start-up and logging. Sockets, DNS and
-- the database themselves are libraries outside this repository.
pub mod Checksum
pub mod Config
pub mod Echo
pub mod Eventbus
pub mod Histogram
pub mod Obsess
pub mod Prelude
pub mod Resolver
pub mod Scheduler
pub mod Store
pub mod Trace
