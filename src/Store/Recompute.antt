-- ===== src/Store/Recompute.antt =====
-- internal/store/sqlite/rollup.go: the recomputation of a dirty minute and of a dirty hour of a target.
-- The rows of ping_rollups stand in the order of its primary key.
use flameping.Prelude.{
  ℕ, ◌+◌, ◌-◌, ◌/◌, ◌%◌, List, [], ◌∷◌, Bool, true, false, ltb, leb, ◌==◌, ◌&&◌, ◌||◌, not,
  if◌then◌else◌,
}
use flameping.Histogram.{Floats}
use flameping.Histogram.Codec.{Result, ok, err}
use flameping.Store.Pings.{PingAggregate, PingSample, aggregate_raw, hour_us, is_between, minute_us}
use flameping.Store.Pings.Rollup.{PingRollup, aggregate_hour, rollup}
use flameping.Store.Writer.{
  Database, DirtyKey, is_unanswered, mark_dirty, ping_hour, ping_minute, same_key,
}

-- The primary key of ping_rollups.
unfoldable pub has_bucket : ℕ → ℕ → ℕ → PingRollup → Bool
has_bucket target resolution bucket r =
    (target == r.target_id) && (resolution == r.resolution_s) && (bucket == r.bucket_start_us)

-- The row `r` comes before the row of the key.
unfoldable pub is_before : PingRollup → ℕ → ℕ → ℕ → Bool
is_before r target resolution bucket =
    ltb r.target_id target
    || (r.target_id == target)
      && (ltb r.resolution_s resolution
          || (r.resolution_s == resolution) && ltb r.bucket_start_us bucket)

-- `INSERT ... ON CONFLICT(...) DO UPDATE` of a whole row.
unfoldable pub upsert : PingRollup → List PingRollup → List PingRollup
unfolding has_bucket is_before
upsert r [] = r ∷ []
upsert r (x ∷ xs) =
    if has_bucket r.target_id r.resolution_s r.bucket_start_us x
    then r ∷ xs
    else if is_before x r.target_id r.resolution_s r.bucket_start_us
    then x ∷ upsert r xs
    else r ∷ x ∷ xs

unfoldable pub delete_dirty : DirtyKey → List DirtyKey → List DirtyKey
unfolding same_key
delete_dirty k [] = []
delete_dirty k (l ∷ ls) = let rest = delete_dirty k ls in if same_key k l then rest else l ∷ rest

-- `storePingAggregate`, for a key of kind `ping`.
unfoldable pub store_ping_aggregate : Database → DirtyKey → PingAggregate → ℕ → Bool → Database
unfolding upsert delete_dirty mark_dirty
store_ping_aggregate db key a as_of dirty_hour = record db {
  ping_rollups =
      upsert (rollup key.entity_id key.resolution_s key.bucket_start_us a as_of) db.ping_rollups;
  dirty_rollups =
      let rest = delete_dirty key db.dirty_rollups in
      if dirty_hour
      then mark_dirty
          (ping_hour key.entity_id (key.bucket_start_us - key.bucket_start_us % hour_us)) rest
      else rest;
}

-- A probe of the range whose reply may still come: the condition that `recomputePingMinute` counts.
unfoldable pub is_pending : ℕ → ℕ → ℕ → ℕ → PingSample → Bool
unfolding is_between is_unanswered
is_pending target start end as_of x =
    is_between target start end x
    && not x.is_local
    && is_unanswered x
    && ltb as_of (x.sent_at_us + x.timeout_ns / 1000)

unfoldable pub any_pending : ℕ → ℕ → ℕ → ℕ → List PingSample → Bool
unfolding is_pending
any_pending target start end as_of [] = false
any_pending target start end as_of (x ∷ xs) =
    is_pending target start end as_of x || any_pending target start end as_of xs

unfoldable pub recompute_ping_minute : Floats → Database → DirtyKey → ℕ → Database
unfolding any_pending store_ping_aggregate
recompute_ping_minute floats db key as_of =
    let start = key.bucket_start_us in
    let end = start + minute_us in
    if ltb as_of end
    then db
    else if any_pending key.entity_id start end as_of db.ping_samples
    then db
    else store_ping_aggregate db key
        (aggregate_raw floats db.ping_samples db.scheduler_gaps key.entity_id start end) as_of true

-- A dirty minute of the target in the range.
unfoldable pub any_dirty_minute : ℕ → ℕ → ℕ → List DirtyKey → Bool
any_dirty_minute target start end [] = false
any_dirty_minute target start end (l ∷ ls) =
    same_key (ping_minute target l.bucket_start_us) l
      && leb start l.bucket_start_us
      && ltb l.bucket_start_us end
    || any_dirty_minute target start end ls

-- The rollups of the target's minutes in the range.
unfoldable pub minutes_between : ℕ → ℕ → ℕ → List PingRollup → List PingRollup
minutes_between target start end [] = []
minutes_between target start end (r ∷ rs) =
    let rest = minutes_between target start end rs in
    if (target == r.target_id)
      && (60 == r.resolution_s)
      && leb start r.bucket_start_us
      && ltb r.bucket_start_us end
    then r ∷ rest
    else rest

unfoldable pub recompute_ping_hour : Database → DirtyKey → ℕ → Result Database
unfolding any_dirty_minute minutes_between
recompute_ping_hour db key as_of =
    let start = key.bucket_start_us in
    let end = start + hour_us in
    if ltb as_of end
    then ok db
    else if any_dirty_minute key.entity_id start end db.dirty_rollups
    then ok db
    else elim (aggregate_hour (minutes_between key.entity_id start end db.ping_rollups)) [
      | err e ↦ err e
      | ok a ↦ ok (store_ping_aggregate db key a as_of false)
    ]
