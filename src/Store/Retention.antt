-- ===== src/Store/Retention.antt =====
-- internal/store/sqlite/retention.go: what maintenance deletes of the rows, gaps and rollups of targets.
-- A stage is one DELETE statement; its cutoff is the statement's argument. The statements of an
-- emergency prune are the same ones with other cutoffs.
use flameping.Prelude.{
  ℕ, ◌+◌, ◌-◌, ◌*◌, ◌/◌, ◌%◌, List, [], ◌∷◌, ◌++◌, Bool, false, ltb, leb, ◌==◌, ◌&&◌, ◌||◌, not,
  if◌then◌else◌,
}
use flameping.Store.Pings.{GapRow, PingSample, hour_us}
use flameping.Store.Pings.Rollup.{PingRollup}
use flameping.Store.Recompute.{has_bucket}
use flameping.Store.Writer.{
  Database, DirtyKey, is_dirty, minute_bucket, ping, ping_hour, ping_minute, same_kind,
}

-- `LIMIT 10000`.
abbrev pub prune_batch : ℕ
prune_batch = 10000

module _ {A : Type 0} where
  unfoldable pub count : (A → Bool) → List A → ℕ
  count test [] = 0
  count test (x ∷ xs) = (if test x then 1 else 0) + count test xs

  -- The chosen rows are deleted, in their order and up to the limit. Of rows that the order does not
  -- tell apart, the one that was inserted first comes first.
  unfoldable pub delete_oldest : (A → Bool) → (A → A → Bool) → List A → List A → List A → List A
  unfolding count
  delete_oldest chosen before rows earlier [] = []
  delete_oldest chosen before rows earlier (x ∷ xs) =
      let rest = delete_oldest chosen before rows (earlier ++ x ∷ []) xs in
      let older = count (λ y. chosen y && before y x) rows in
      let tied = count (λ y. chosen y && not (before y x) && not (before x y)) earlier in
      if chosen x && ltb (older + tied) prune_batch then rest else x ∷ rest

-- `EXISTS (SELECT 1 FROM ping_rollups ...)`.
unfoldable pub has_rollup : ℕ → ℕ → ℕ → List PingRollup → Bool
unfolding has_bucket
has_rollup target resolution bucket [] = false
has_rollup target resolution bucket (r ∷ rs) =
    has_bucket target resolution bucket r || has_rollup target resolution bucket rs

-- The rows of the statement "ping raw", and their order.
unfoldable pub is_spent_row : ℕ → Database → PingSample → Bool
unfolding has_rollup is_dirty minute_bucket
is_spent_row cutoff db p =
    ltb p.scheduled_at_us cutoff
    && ltb p.sent_at_us cutoff
    && has_rollup p.target_id 60 (minute_bucket p.scheduled_at_us) db.ping_rollups
    && not (is_dirty (ping_minute p.target_id (minute_bucket p.scheduled_at_us)) db.dirty_rollups)

unfoldable pub is_older_row : PingSample → PingSample → Bool
is_older_row p q =
    ltb p.scheduled_at_us q.scheduled_at_us
    || (p.scheduled_at_us == q.scheduled_at_us)
      && (ltb p.run_id q.run_id || (p.run_id == q.run_id) && ltb p.sequence q.sequence)

-- The last slot of a gap, as the statement "scheduler gaps" computes it.
unfoldable pub last_slot_us : GapRow → ℕ
last_slot_us g = g.first_scheduled_at_us + (g.missed_count - 1) * (g.interval_ns / 1000)

-- A dirty minute of the target between two buckets, both included.
unfoldable pub any_dirty_between : ℕ → ℕ → ℕ → List DirtyKey → Bool
unfolding same_kind
any_dirty_between target first last [] = false
any_dirty_between target first last (d ∷ ds) =
    let rest = any_dirty_between target first last ds in
    same_kind ping d.kind
      && (d.entity_id == target)
      && (d.resolution_s == 60)
      && leb first d.bucket_start_us
      && leb d.bucket_start_us last
    || rest

unfoldable pub is_spent_gap : ℕ → Database → GapRow → Bool
unfolding last_slot_us any_dirty_between minute_bucket
is_spent_gap cutoff db g =
    ltb (last_slot_us g) cutoff
    && not (
        any_dirty_between g.target_id (minute_bucket g.first_scheduled_at_us)
          (minute_bucket (last_slot_us g)) db.dirty_rollups)

unfoldable pub is_older_gap : GapRow → GapRow → Bool
unfolding last_slot_us
is_older_gap g h = ltb (last_slot_us g) (last_slot_us h)

-- The rows of the statements "ping minute" and "ping hour", and their order.
unfoldable pub is_spent_minute : ℕ → Database → PingRollup → Bool
unfolding has_rollup is_dirty
is_spent_minute cutoff db m =
    let hour = m.bucket_start_us - m.bucket_start_us % hour_us in
    (m.resolution_s == 60)
    && ltb m.bucket_start_us cutoff
    && has_rollup m.target_id 3600 hour db.ping_rollups
    && not (is_dirty (ping_hour m.target_id hour) db.dirty_rollups)

unfoldable pub is_spent_hour : ℕ → PingRollup → Bool
is_spent_hour cutoff r = (r.resolution_s == 3600) && ltb r.bucket_start_us cutoff

unfoldable pub is_older_rollup : PingRollup → PingRollup → Bool
is_older_rollup r x =
    ltb r.bucket_start_us x.bucket_start_us
    || (r.bucket_start_us == x.bucket_start_us) && ltb r.target_id x.target_id

pub data Stage : Type 0 where
  raw_rows raw_gaps minute_rollups hour_rollups : Stage

unfoldable pub prune_stage : Stage → ℕ → Database → Database
unfolding delete_oldest is_spent_row is_older_row is_spent_gap is_older_gap is_spent_minute
    is_spent_hour is_older_rollup
prune_stage raw_rows cutoff db = record db {
  ping_samples =
      delete_oldest (is_spent_row cutoff db) is_older_row db.ping_samples [] db.ping_samples;
}
prune_stage raw_gaps cutoff db = record db {
  scheduler_gaps =
      delete_oldest (is_spent_gap cutoff db) is_older_gap db.scheduler_gaps [] db.scheduler_gaps;
}
prune_stage minute_rollups cutoff db = record db {
  ping_rollups =
      delete_oldest (is_spent_minute cutoff db) is_older_rollup db.ping_rollups [] db.ping_rollups;
}
prune_stage hour_rollups cutoff db = record db {
  ping_rollups =
      delete_oldest (is_spent_hour cutoff) is_older_rollup db.ping_rollups [] db.ping_rollups;
}

-- The statements of `pruneWithRaw` that concern targets, in their order.
unfoldable pub prune_with_raw : ℕ → ℕ → ℕ → Database → Database
unfolding prune_stage
prune_with_raw raw_cutoff minute_cutoff hour_cutoff db =
    let samples = prune_stage raw_rows raw_cutoff db in
    let gaps = prune_stage raw_gaps raw_cutoff samples in
    let minutes = prune_stage minute_rollups minute_cutoff gaps in
    prune_stage hour_rollups hour_cutoff minutes
