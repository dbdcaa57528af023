-- ===== src/Store/Fresh/Spared.antt =====
-- internal/store/sqlite/retention.go: what a dirty minute or hour still needs is not deleted.
use flameping.Prelude.{
  ℕ, ◌+◌, ◌-◌, ◌*◌, ◌/◌, ◌%◌, ◌≤◌, ◌≡◌, refl, sym, List, [], ◌∷◌, ◌++◌, Bool, true, false, ltb, leb,
  ◌==◌, ◌&&◌, inl, inr, Bool-cases, ◌∙◌, arith,
}
use flameping.Histogram.{Floats}
use flameping.Store.Fresh.Pruned.{add_gaps-delete_oldest, select-delete_oldest}
use flameping.Store.Fresh.Rows.{bucket_lem}
use flameping.Store.Pings.{
  GapRow, PingSample, add_rows, aggregate_raw, empty, hour_us, is_between, minute_us, missed_slots,
  select,
}
use flameping.Store.Pings.Rollup.{PingRollup}
use flameping.Store.Recompute.{minutes_between}
use flameping.Store.Retention.{
  any_dirty_between, delete_oldest, is_older_gap, is_older_rollup, is_older_row, is_spent_gap,
  is_spent_hour, is_spent_minute, is_spent_row, last_slot_us, minute_rollups, prune_stage,
  prune_with_raw, raw_gaps, raw_rows,
}
use flameping.Store.Writer.{
  Database, DirtyKey, is_dirty, minute_bucket, ping_hour, ping_minute, same_key,
}

dirty_row :
    (cutoff target k : ℕ) (db : Database) (x : PingSample)
    → is_dirty (ping_minute target (k * minute_us)) db.dirty_rollups ≡ true
    → is_spent_row cutoff db x ≡ true
    → is_between target (k * minute_us) (k * minute_us + minute_us) x ≡ false
unfolding is_spent_row
dirty_row cutoff target k db x dirty h =
    elim (Bool-cases (is_between target (k * minute_us) (k * minute_us + minute_us) x)) [
      | inl inside ↦
          let (same, at) = bucket_lem target k x inside in
          let marked : is_dirty (ping_minute x.target_id (minute_bucket x.scheduled_at_us))
                db.dirty_rollups
              ≡ true =
            rw (sym same, at) dirty in
          absurd (ground (arith, h, marked))
      | inr outside ↦ outside
    ]

any_dirty_between-is_dirty :
    (target first last bucket : ℕ) (ds : List DirtyKey)
    → first ≤ bucket
    → bucket ≤ last
    → is_dirty (ping_minute target bucket) ds ≡ true
    → any_dirty_between target first last ds ≡ true
unfolding any_dirty_between is_dirty same_key
any_dirty_between-is_dirty target first last bucket [] a b h = ground (arith, h)
any_dirty_between-is_dirty target first last bucket (d ∷ ds) a b h =
    ground (arith, h, any_dirty_between-is_dirty target first last bucket ds a b)

buckets_around :
    (first last k : ℕ)
    → first + 1 ≤ k * minute_us + minute_us
    → k * minute_us ≤ last
    → (minute_bucket first ≤ k * minute_us) × (k * minute_us ≤ minute_bucket last)
unfolding minute_bucket
buckets_around first last k a b = (omega (arith, a), omega (arith, b))

dirty_gap :
    (cutoff target k : ℕ) (db : Database) (g : GapRow)
    → is_dirty (ping_minute target (k * minute_us)) db.dirty_rollups ≡ true
    → is_spent_gap cutoff db g ≡ true
    → missed_slots target (k * minute_us) (k * minute_us + minute_us) g ≡ 0
unfolding is_spent_gap missed_slots last_slot_us
dirty_gap cutoff target k db g dirty h =
    let last : ℕ = g.first_scheduled_at_us + (g.missed_count - 1) * (g.interval_ns / 1000) in
    let low = minute_bucket g.first_scheduled_at_us in
    let high = minute_bucket last in
    ground (
      arith,
      h,
      dirty,
      buckets_around g.first_scheduled_at_us last k,
      any_dirty_between-is_dirty target low high (k * minute_us) db.dirty_rollups,
    )

minutes_between-delete_oldest :
    (target start end : ℕ) (chosen : PingRollup → Bool) (before : PingRollup → PingRollup → Bool)
    (rows earlier rs : List PingRollup)
    → ((r : PingRollup)
        → chosen r ≡ true
        → ((target == r.target_id)
            && (60 == r.resolution_s)
            && leb start r.bucket_start_us
            && ltb r.bucket_start_us end)
          ≡ false)
    → minutes_between target start end (delete_oldest chosen before rows earlier rs)
      ≡ minutes_between target start end rs
unfolding minutes_between delete_oldest
minutes_between-delete_oldest target start end chosen before rows earlier [] old = refl
minutes_between-delete_oldest target start end chosen before rows earlier (r ∷ rs) old = ground (
  arith,
  old r,
  minutes_between-delete_oldest target start end chosen before rows (earlier ++ r ∷ []) rs old,
)

-- A rollup in the hour has the hour's key.
hour_bucket :
    (h bucket : ℕ)
    → h * hour_us ≤ bucket
    → bucket + 1 ≤ h * hour_us + hour_us
    → bucket - bucket % hour_us ≡ h * hour_us
hour_bucket h bucket a b = omega (arith, a, b)

dirty_minute :
    (cutoff target h : ℕ) (db : Database) (r : PingRollup)
    → is_dirty (ping_hour target (h * hour_us)) db.dirty_rollups ≡ true
    → is_spent_minute cutoff db r ≡ true
    → ((target == r.target_id)
        && (60 == r.resolution_s)
        && leb (h * hour_us) r.bucket_start_us
        && ltb r.bucket_start_us (h * hour_us + hour_us))
      ≡ false
unfolding is_spent_minute
dirty_minute cutoff target h db r dirty spent =
    ground (arith, spent, dirty, hour_bucket h r.bucket_start_us)

-- A prune, whatever its cutoffs, does not change what the recomputation of a dirty minute will store:
-- the aggregate of the rows and gaps of the minute is that of before.
pub prune_with_raw-aggregate_raw :
    (floats : Floats) (raw minute hour target k : ℕ) (db : Database)
    → is_dirty (ping_minute target (k * minute_us)) db.dirty_rollups ≡ true
    → let db' = prune_with_raw raw minute hour db in
      let start : ℕ = k * minute_us in
      let end : ℕ = k * minute_us + minute_us in
      aggregate_raw floats db'.ping_samples db'.scheduler_gaps target start end
      ≡ aggregate_raw floats db.ping_samples db.scheduler_gaps target start end
unfolding prune_with_raw prune_stage aggregate_raw
prune_with_raw-aggregate_raw floats raw minute hour target k db dirty =
    let start : ℕ = k * minute_us in
    let end : ℕ = k * minute_us + minute_us in
    let samples : Database = prune_stage raw_rows raw db in
    let rows =
      select-delete_oldest target start end (is_spent_row raw db) is_older_row db.ping_samples []
        db.ping_samples (λ x. dirty_row raw target k db x dirty) in
    let gaps =
      add_gaps-delete_oldest target start end
        (add_rows floats empty (select target start end db.ping_samples)).scheduler_missed
        (is_spent_gap raw samples) is_older_gap db.scheduler_gaps [] db.scheduler_gaps
        (λ g. dirty_gap raw target k samples g dirty) in
    rw (rows, gaps) refl

-- A prune, whatever its cutoffs, takes away no minute's rollup of a dirty hour: the rollups from which
-- that hour will be recomputed are those of before.
pub prune_with_raw-minutes_between :
    (raw minute hour target h : ℕ) (db : Database)
    → is_dirty (ping_hour target (h * hour_us)) db.dirty_rollups ≡ true
    → minutes_between target
        (h * hour_us)
        (h * hour_us + hour_us)
        (prune_with_raw raw minute hour db).ping_rollups
      ≡ minutes_between target (h * hour_us) (h * hour_us + hour_us) db.ping_rollups
unfolding prune_with_raw prune_stage is_spent_hour
prune_with_raw-minutes_between raw minute hour target h db dirty =
    let start : ℕ = h * hour_us in
    let end : ℕ = h * hour_us + hour_us in
    let gaps : Database = prune_stage raw_gaps raw (prune_stage raw_rows raw db) in
    let minutes : Database = prune_stage minute_rollups minute gaps in
    minutes_between-delete_oldest target start end (is_spent_hour hour) is_older_rollup
      minutes.ping_rollups [] minutes.ping_rollups (λ r. λ spent. ground (arith, spent))
    ∙ minutes_between-delete_oldest target start end (is_spent_minute minute gaps) is_older_rollup
        db.ping_rollups [] db.ping_rollups (λ r. dirty_minute minute target h gaps r dirty)
