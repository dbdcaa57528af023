-- ===== src/Store/Fresh/Reach.antt =====
-- internal/store/sqlite: what the store reaches by batches of events, by recomputed rollups and by
-- retention, in any order.
use flameping.Prelude.{
  inr, subst, ℕ, ◌+◌, ◌*◌, ◌%◌, ◌≤◌, ◌≡◌, refl, List, [], Bool, true, false, ltb, if◌then◌else◌,
  arith, if_cases, length,
}
use flameping.Histogram.{Floats}
use flameping.Histogram.Codec.{Result, ok, err, max_pairs}
use flameping.Store.Fresh.{IsFresh, IsSound, IsTable, find_rollup}
use flameping.Store.Fresh.Events.{apply_retained_batch-IsSound}
use flameping.Store.Fresh.Hours.{recompute_ping_hour_lem}
use flameping.Store.Fresh.Pruned.{prune_stage-IsSound}
use flameping.Store.Fresh.Rollups.{
  FreshResult, recompute_ping_hour-IsFresh, recompute_ping_minute-IsFresh,
}
use flameping.Store.Fresh.Tables.{upsert-IsTable}
use flameping.Store.Pings.{PingAggregate, add_gaps, aggregate_raw, hour_us, minute_us, select}
use flameping.Store.Pings.Rollup.{aggregate_hour, rollup}
use flameping.Store.Recompute.{
  any_dirty_minute, any_pending, minutes_between, recompute_ping_hour, recompute_ping_minute,
  store_ping_aggregate,
}
use flameping.Store.Retention.{
  Stage, hour_rollups, minute_rollups, prune_stage, prune_with_raw, raw_gaps, raw_rows,
}
use flameping.Store.Writer.{Database, ping_hour, ping_minute}
use flameping.Store.Writer.Batch.{Event, WriterState, apply_retained_batch}

abbrev pub new_database : Database
new_database = record {
  ping_samples = [];
  scheduler_gaps = [];
  ping_rollups = [];
  dirty_rollups = [];
  reply_source_mismatch = 0;
  late_reply_evicted = 0;
}

-- What the store goes through from its start: batches of events, recomputed minutes and hours, and
-- the stages of a prune, whose cutoffs are at most the floor.
pub data Reaches (floats : Floats) (floor : ℕ) : WriterState → Type 0 where
  at_start : Reaches floats floor (new_database, [])
  batch :
      (pruned now : ℕ) (s : WriterState) (es : List Event)
      → Reaches floats floor s
      → Reaches floats floor (apply_retained_batch pruned now s es).0
  minute_done :
      (s : WriterState) (entity k as_of : ℕ)
      → Reaches floats floor s
      → Reaches floats floor
          (recompute_ping_minute floats s.0 (ping_minute entity (k * minute_us)) as_of, s.1)
  hour_done :
      (s : WriterState) (db : Database) (entity h as_of : ℕ)
      → Reaches floats floor s
      → recompute_ping_hour s.0 (ping_hour entity (h * hour_us)) as_of ≡ ok db
      → Reaches floats floor (db, s.1)
  stage_done :
      (s : WriterState) (stage : Stage) (cutoff : ℕ)
      → Reaches floats floor s
      → cutoff ≤ floor
      → Reaches floats floor (prune_stage stage cutoff s.0, s.1)

store-IsTable :
    (db : Database) (entity resolution bucket as_of : ℕ) (a : PingAggregate) (flag : Bool)
    → (resolution ≡ 60 → bucket % minute_us ≡ 0)
    → IsTable db.ping_rollups
    → IsTable
        (store_ping_aggregate db
          (record (ping_minute entity bucket) { resolution_s = resolution })
          a
          as_of
          flag).ping_rollups
unfolding store_ping_aggregate
store-IsTable db entity resolution bucket as_of a flag aligned table =
    upsert-IsTable (rollup entity resolution bucket a as_of) db.ping_rollups
      (unfold rollup in aligned) table

recompute_ping_minute-IsTable :
    (floats : Floats) (db : Database) (entity k as_of : ℕ)
    → IsTable db.ping_rollups
    → IsTable
        (recompute_ping_minute floats db (ping_minute entity (k * minute_us)) as_of).ping_rollups
unfolding recompute_ping_minute
recompute_ping_minute-IsTable floats db entity k as_of table =
    let start : ℕ = k * minute_us in
    let a : PingAggregate =
      aggregate_raw floats db.ping_samples db.scheduler_gaps entity start (start + minute_us) in
    let stored : Database = store_ping_aggregate db (ping_minute entity start) a as_of true in
    let pending : Bool = any_pending entity start (start + minute_us) as_of db.ping_samples in
    let P : Database → Type 0 = λ d. IsTable d.ping_rollups in
    if_cases P (ltb as_of (start + minute_us)) db (if pending then db else stored) (λ e. table)
      (λ e.
        if_cases P pending db stored (λ e'. table)
          (λ e'. store-IsTable db entity 60 start as_of a true (λ h. omega arith) table))

abbrev TableResult : Result Database → Type 0
TableResult (ok db) = IsTable db.ping_rollups
TableResult (err e) = Unit

stored_hour_table :
    (db : Database) (entity bucket as_of : ℕ) (o : Result PingAggregate)
    → IsTable db.ping_rollups
    → TableResult (elim o [
      | err e ↦ err e
      | ok a ↦ ok (store_ping_aggregate db (ping_hour entity bucket) a as_of false)
    ])
stored_hour_table db entity bucket as_of (err e) table = tt
stored_hour_table db entity bucket as_of (ok a) table =
    store-IsTable db entity 3600 bucket as_of a false (λ h. absurd (omega (arith, h))) table

recompute_ping_hour-IsTable :
    (db : Database) (entity bucket as_of : ℕ)
    → IsTable db.ping_rollups
    → TableResult (recompute_ping_hour db (ping_hour entity bucket) as_of)
unfolding recompute_ping_hour
recompute_ping_hour-IsTable db entity bucket as_of table =
    let o : Result PingAggregate =
      aggregate_hour (minutes_between entity bucket (bucket + hour_us) db.ping_rollups) in
    let hourly : Result Database = elim o [
      | err e ↦ err e
      | ok a ↦ ok (store_ping_aggregate db (ping_hour entity bucket) a as_of false)
    ] in
    let dirty : Bool = any_dirty_minute entity bucket (bucket + hour_us) db.dirty_rollups in
    if_cases TableResult (ltb as_of (bucket + hour_us)) (ok db) (if dirty then ok db else hourly)
      (λ e. table)
      (λ e.
        if_cases TableResult dirty (ok db) hourly (λ e'. table)
          (λ e'. stored_hour_table db entity bucket as_of o table))

-- A whole prune is its stages one after the other.
pub prune_with_raw-Reaches :
    (floats : Floats) (floor raw minute hour : ℕ) (s : WriterState)
    → Reaches floats floor s
    → raw ≤ floor
    → minute ≤ floor
    → hour ≤ floor
    → Reaches floats floor (prune_with_raw raw minute hour s.0, s.1)
unfolding prune_with_raw
prune_with_raw-Reaches floats floor raw minute hour s before a b c =
    stage_done _ hour_rollups hour
      (stage_done _ minute_rollups minute
        (stage_done _ raw_gaps raw (stage_done s raw_rows raw before a) a) b)
      c

new_database-IsFresh : (floats : Floats) (floor : ℕ) → IsFresh floats floor new_database
unfolding find_rollup select add_gaps
new_database-IsFresh floats floor target k above = inr (inr (refl, refl, refl))

-- In every state that the store reaches from its start by batches of probes, replies and gaps, by
-- recomputed minutes and hours, and by retention with cutoffs up to a floor, in any order, every
-- minute of every target from the floor on is marked dirty or has the rollup of its rows and gaps,
-- and the rollups stand in the order of their keys.
pub Reaches-IsSound :
    (floats : Floats) (floor : ℕ) (s : WriterState)
    → Reaches floats floor s
    → IsSound floats floor s.0
Reaches-IsSound floats floor _ (at_start) = (new_database-IsFresh floats floor, tt)
Reaches-IsSound floats floor _ (batch pruned now s es before) =
    apply_retained_batch-IsSound floats floor pruned now s es
      (Reaches-IsSound floats floor s before)
Reaches-IsSound floats floor _ (minute_done s entity k as_of before) =
    let (fresh, table) = Reaches-IsSound floats floor s before in
    (
      recompute_ping_minute-IsFresh floats floor s.0 entity (k * minute_us) as_of fresh,
      recompute_ping_minute-IsTable floats s.0 entity k as_of table,
    )
Reaches-IsSound floats floor _ (hour_done s db entity h as_of before done) =
    let (fresh, table) = Reaches-IsSound floats floor s before in
    (
      subst (FreshResult floats floor) done
          (recompute_ping_hour-IsFresh floats floor s.0 entity (h * hour_us) as_of fresh),
      subst TableResult done (recompute_ping_hour-IsTable s.0 entity (h * hour_us) as_of table),
    )
Reaches-IsSound floats floor _ (stage_done s stage cutoff before low) =
    prune_stage-IsSound floats floor cutoff stage s.0 low (Reaches-IsSound floats floor s before)

-- In every state that the store reaches by batches of probes, replies and gaps, by recomputed minutes
-- and hours, and by retention with cutoffs up to a floor, in any order: for an hour
-- that starts at the floor or later, is over and has no dirty minute, recomputePingHour stores the
-- aggregate of all rows and gaps of the hour, if these are at most 2^20 rows.
pub recompute_ping_hour-Reaches :
    (floats : Floats) (floor : ℕ) (s : WriterState) (target h as_of : ℕ)
    → Reaches floats floor s
    → floor ≤ h * hour_us
    → h * hour_us + hour_us ≤ as_of
    → any_dirty_minute target (h * hour_us) (h * hour_us + hour_us) s.0.dirty_rollups ≡ false
    → length (select target (h * hour_us) (h * hour_us + hour_us) s.0.ping_samples) ≤ max_pairs
    → recompute_ping_hour s.0 (ping_hour target (h * hour_us)) as_of
      ≡ ok (
          store_ping_aggregate s.0
            (ping_hour target (h * hour_us))
            (aggregate_raw floats s.0.ping_samples s.0.scheduler_gaps target
              (h * hour_us)
              (h * hour_us + hour_us))
            as_of
            false)
recompute_ping_hour-Reaches floats floor s target h as_of reached above over clean few =
    let (fresh, table) = Reaches-IsSound floats floor s reached in
    recompute_ping_hour_lem floats floor s.0 target h as_of above fresh table over clean few
