-- ===== src/Store/Fresh/Rollups.antt =====
-- internal/store/sqlite/rollup.go: recomputing a minute or an hour keeps every minute marked or current.
use flameping.Prelude.{
  ℕ, ◌+◌, ◌-◌, ◌*◌, ◌%◌, ◌≡◌, refl, subst, ◌∙◌, ◌⊎◌, inl, inr, List, [], ◌∷◌, Bool, true, false,
  ltb, ◌==◌, ◌&&◌, if◌then◌else◌, some, arith, Bool-cases, if_cases,
}
use flameping.Histogram.{Floats}
use flameping.Histogram.Codec.{Result, ok, err}
use flameping.Store.Fresh.{IsCurrent, IsFresh, find_rollup, is_dirty_stays}
use flameping.Store.Pings.{PingAggregate, aggregate_raw, hour_us, minute_us}
use flameping.Store.Pings.Rollup.{PingRollup, aggregate_hour, rollup}
use flameping.Store.Recompute.{
  any_dirty_minute, any_pending, delete_dirty, has_bucket, minutes_between, recompute_ping_hour,
  recompute_ping_minute, store_ping_aggregate, upsert,
}
use flameping.Store.Writer.{
  Database, DirtyKey, Kind, interface, is_dirty, mark_dirty, ping, ping_hour, ping_minute, same_key,
  same_kind,
}

find_rollup-upsert :
    (target resolution bucket : ℕ) (r : PingRollup) (rs : List PingRollup)
    → find_rollup target resolution bucket (upsert r rs) ≡ (
        if has_bucket target resolution bucket r
        then some r
        else find_rollup target resolution bucket rs)
unfolding find_rollup upsert has_bucket
find_rollup-upsert target resolution bucket r [] = refl
find_rollup-upsert target resolution bucket r (x ∷ xs) =
    ground (arith, find_rollup-upsert target resolution bucket r xs)

same_kind_lem : (k l : Kind) → same_kind k l ≡ true → k ≡ l
unfolding same_kind
same_kind_lem ping ping h = refl
same_kind_lem interface interface h = refl
same_kind_lem ping interface h = cc
same_kind_lem interface ping h = cc

same_key_lem : (k l : DirtyKey) → same_key k l ≡ true → k ≡ l
unfolding same_key
same_key_lem k l h = ground (arith, same_kind_lem k.kind l.kind)

-- A deletion takes away the marks of its own key only.
is_dirty-delete_dirty :
    (k key : DirtyKey) (ls : List DirtyKey)
    → same_key key k ≡ false
    → is_dirty k ls ≡ true
    → is_dirty k (delete_dirty key ls) ≡ true
unfolding is_dirty delete_dirty
is_dirty-delete_dirty k key [] d h = h
is_dirty-delete_dirty k key (l ∷ ls) d h =
    ground (arith, d, h, same_key_lem key l, same_key_lem k l, is_dirty-delete_dirty k key ls d)

-- A minute that is not the one stored stays marked or current.
other_minute :
    (floats : Floats) (db : Database) (key : DirtyKey) (a : PingAggregate) (as_of : ℕ)
    (dirty_hour : Bool) (target start : ℕ)
    → has_bucket target 60 start (rollup key.entity_id key.resolution_s key.bucket_start_us a as_of)
      ≡ false
    → same_key key (ping_minute target start) ≡ false
    → (is_dirty (ping_minute target start) db.dirty_rollups ≡ true)
      ⊎ IsCurrent floats db target start
    → (is_dirty
          (ping_minute target start)
          (store_ping_aggregate db key a as_of dirty_hour).dirty_rollups
        ≡ true)
      ⊎ IsCurrent floats (store_ping_aggregate db key a as_of dirty_hour) target start
unfolding store_ping_aggregate
other_minute floats db key a as_of dirty_hour target start apart other (inl marked) =
    let k : DirtyKey = ping_minute target start in
    let rest : List DirtyKey = delete_dirty key db.dirty_rollups in
    let still = is_dirty-delete_dirty k key db.dirty_rollups other marked in
    let hourly : DirtyKey =
      ping_hour key.entity_id (key.bucket_start_us - key.bucket_start_us % hour_us) in
    inl (
      if_cases (λ (m : List DirtyKey). is_dirty k m ≡ true) dirty_hour (mark_dirty hourly rest) rest
        (λ e. is_dirty_stays k hourly rest still) (λ e. still))
other_minute floats db key a as_of dirty_hour target start apart other (inr current) =
    let r : PingRollup = rollup key.entity_id key.resolution_s key.bucket_start_us a as_of in
    let same = find_rollup-upsert target 60 start r db.ping_rollups in
    inr (elim current [
      | inl (at, found) ↦ inl (at, same ∙ rw apart found)
      | inr (lost, no_rows, no_slots) ↦ inr (same ∙ rw apart lost, no_rows, no_slots)
    ])

-- The row has its own bucket.
has_bucket-rollup :
    (target start bucket resolution entity as_of : ℕ) (a : PingAggregate)
    → has_bucket target 60 start (rollup entity resolution bucket a as_of)
      ≡ ((target == entity) && (60 == resolution) && (start == bucket))
unfolding has_bucket rollup
has_bucket-rollup target start bucket resolution entity as_of a = refl

same_key-minute_us :
    (key : DirtyKey) (target start : ℕ)
    → ((target == key.entity_id) && (60 == key.resolution_s) && (start == key.bucket_start_us))
      ≡ false
    → same_key key (ping_minute target start) ≡ false
unfolding same_key
same_key-minute_us key target start h = ground (arith, h)

-- The minute that is stored is current.
own_minute :
    (floats : Floats) (db : Database) (entity bucket as_of : ℕ)
    → IsCurrent floats
        (store_ping_aggregate db
          (ping_minute entity bucket)
          (aggregate_raw floats db.ping_samples db.scheduler_gaps entity bucket
            (bucket + minute_us))
          as_of
          true)
        entity
        bucket
unfolding store_ping_aggregate
own_minute floats db entity bucket as_of =
    let a : PingAggregate =
      aggregate_raw floats db.ping_samples db.scheduler_gaps entity bucket (bucket + minute_us) in
    let found =
      find_rollup-upsert entity 60 bucket (rollup entity 60 bucket a as_of) db.ping_rollups in
    let own : has_bucket entity 60 bucket (rollup entity 60 bucket a as_of) ≡ true =
      has_bucket-rollup entity bucket bucket 60 entity as_of a ∙ ground arith in
    inl (as_of, found ∙ rw own refl)

store_minute-IsFresh :
    (floats : Floats) (floor : ℕ) (db : Database) (entity bucket as_of : ℕ)
    → IsFresh floats floor db
    → IsFresh floats floor (
        store_ping_aggregate db
          (ping_minute entity bucket)
          (aggregate_raw floats db.ping_samples db.scheduler_gaps entity bucket
            (bucket + minute_us))
          as_of
          true)
store_minute-IsFresh floats floor db entity bucket as_of fresh target k above =
    let a : PingAggregate =
      aggregate_raw floats db.ping_samples db.scheduler_gaps entity bucket (bucket + minute_us) in
    let key : DirtyKey = ping_minute entity bucket in
    let start : ℕ = k * minute_us in
    let row = has_bucket-rollup target start bucket 60 entity as_of a in
    elim (Bool-cases ((target == entity) && (60 == 60) && (start == bucket))) [
      | inl here ↦
          let stored : Database = store_ping_aggregate db key a as_of true in
          let same : entity ≡ target = ground (arith, here) in
          let at : bucket ≡ start = ground (arith, here) in
          inr (
            subst (λ (t : ℕ). IsCurrent floats stored t start) same
              (subst (λ (b : ℕ). IsCurrent floats stored entity b) at
                (own_minute floats db entity bucket as_of)))
      | inr apart ↦
          other_minute floats db key a as_of true target start (row ∙ apart)
            (same_key-minute_us key target start apart) (fresh target k above)
    ]

store_hour-IsFresh :
    (floats : Floats) (floor : ℕ) (db : Database) (entity bucket as_of : ℕ) (a : PingAggregate)
    → IsFresh floats floor db
    → IsFresh floats floor (store_ping_aggregate db (ping_hour entity bucket) a as_of false)
store_hour-IsFresh floats floor db entity bucket as_of a fresh target k above =
    let start : ℕ = k * minute_us in
    let key : DirtyKey = ping_hour entity bucket in
    let apart : ((target == entity) && (60 == 3600) && (start == bucket)) ≡ false = ground arith in
    other_minute floats db key a as_of false target start
      (has_bucket-rollup target start bucket 3600 entity as_of a ∙ apart)
      (same_key-minute_us key target start apart) (fresh target k above)

-- Recomputing a dirty minute keeps every minute marked or current.
pub recompute_ping_minute-IsFresh :
    (floats : Floats) (floor : ℕ) (db : Database) (entity bucket as_of : ℕ)
    → IsFresh floats floor db
    → IsFresh floats floor (recompute_ping_minute floats db (ping_minute entity bucket) as_of)
unfolding recompute_ping_minute
recompute_ping_minute-IsFresh floats floor db entity bucket as_of fresh =
    let a : PingAggregate =
      aggregate_raw floats db.ping_samples db.scheduler_gaps entity bucket (bucket + minute_us) in
    let stored : Database = store_ping_aggregate db (ping_minute entity bucket) a as_of true in
    let pending : Bool = any_pending entity bucket (bucket + minute_us) as_of db.ping_samples in
    if_cases (IsFresh floats floor) (ltb as_of (bucket + minute_us)) db
      (if pending then db else stored) (λ e. fresh)
      (λ e.
        if_cases (IsFresh floats floor) pending db stored (λ e'. fresh)
          (λ e'. store_minute-IsFresh floats floor db entity bucket as_of fresh))

abbrev pub FreshResult : Floats → ℕ → Result Database → Type 0
FreshResult floats floor (ok db) = IsFresh floats floor db
FreshResult floats floor (err e) = Unit

stored_hour :
    (floats : Floats) (floor : ℕ) (db : Database) (entity bucket as_of : ℕ)
    (o : Result PingAggregate)
    → IsFresh floats floor db
    → FreshResult floats floor (elim o [
      | err e ↦ err e
      | ok a ↦ ok (store_ping_aggregate db (ping_hour entity bucket) a as_of false)
    ])
stored_hour floats floor db entity bucket as_of (err e) fresh = tt
stored_hour floats floor db entity bucket as_of (ok a) fresh =
    store_hour-IsFresh floats floor db entity bucket as_of a fresh

-- So does recomputing a dirty hour, where it does not fail.
pub recompute_ping_hour-IsFresh :
    (floats : Floats) (floor : ℕ) (db : Database) (entity bucket as_of : ℕ)
    → IsFresh floats floor db
    → FreshResult floats floor (recompute_ping_hour db (ping_hour entity bucket) as_of)
unfolding recompute_ping_hour
recompute_ping_hour-IsFresh floats floor db entity bucket as_of fresh =
    let o : Result PingAggregate =
      aggregate_hour (minutes_between entity bucket (bucket + hour_us) db.ping_rollups) in
    let hourly : Result Database = elim o [
      | err e ↦ err e
      | ok a ↦ ok (store_ping_aggregate db (ping_hour entity bucket) a as_of false)
    ] in
    let dirty : Bool = any_dirty_minute entity bucket (bucket + hour_us) db.dirty_rollups in
    if_cases (FreshResult floats floor) (ltb as_of (bucket + hour_us)) (ok db)
      (if dirty then ok db else hourly) (λ e. fresh)
      (λ e.
        if_cases (FreshResult floats floor) dirty (ok db) hourly (λ e'. fresh)
          (λ e'. stored_hour floats floor db entity bucket as_of o fresh))
