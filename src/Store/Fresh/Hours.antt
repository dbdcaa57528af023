-- ===== src/Store/Fresh/Hours.antt =====
-- internal/store/sqlite/rollup.go, `recomputePingHour`: what the store keeps makes an hour's rollup that
-- of its rows and gaps.
use flameping.Prelude.{
  ℕ, zero, suc, ◌+◌, ◌*◌, ◌%◌, ◌≤◌, ◌<◌, ◌≡◌, refl, subst, inl, inr, List, [], ◌∷◌, true, false,
  ltb, leb, ◌==◌, ◌&&◌, none, some, arith, All, length, le→ltb,
}
use flameping.Histogram.{Floats}
use flameping.Histogram.Codec.{ok, max_pairs}
use flameping.Store.Fresh.{IsAligned, IsBefore, IsCurrent, IsFresh, IsTable, find_rollup}
use flameping.Store.Pings.{aggregate_raw, hour_us, minute_us, select}
use flameping.Store.Pings.Hours.{IsRolled, aggregate_hour-aggregate_raw, finished, quiet, stored}
use flameping.Store.Pings.Rollup.{PingRollup, aggregate_hour}
use flameping.Store.Recompute.{
  any_dirty_minute, has_bucket, is_before, minutes_between, recompute_ping_hour,
  store_ping_aggregate,
}
use flameping.Store.Writer.{Database, DirtyKey, is_dirty, ping_hour, ping_minute, same_key}

-- A row with the target's minute at `start`, or within that minute.
module _ (target start : ℕ) where
  abbrev Elsewhere : PingRollup → Type 0
  Elsewhere r =
      ((target == r.target_id)
        && (60 == r.resolution_s)
        && leb start r.bucket_start_us
        && ltb r.bucket_start_us (start + minute_us))
      ≡ false

  none_here : (rs : List PingRollup) → All Elsewhere rs → find_rollup target 60 start rs ≡ none
  unfolding find_rollup has_bucket
  none_here [] h = refl
  none_here (r ∷ rs) h = ground (arith, none_here rs h.1)

  none_within :
      (end : ℕ) (rs : List PingRollup)
      → All Elsewhere rs
      → minutes_between target start end rs ≡ minutes_between target (start + minute_us) end rs
  unfolding minutes_between
  none_within end [] h = refl
  none_within end (r ∷ rs) h = ground (arith, none_within end rs h.1)

  -- The rows behind one that is in that minute or later.
  behind :
      (r : PingRollup) (rs : List PingRollup)
      → start % minute_us ≡ 0
      → target ≡ r.target_id
      → 60 ≡ r.resolution_s
      → start ≤ r.bucket_start_us
      → IsAligned r
      → All (IsBefore r) rs
      → IsTable rs
      → All Elsewhere rs
  unfolding is_before
  behind r [] s t u v w before table = tt
  behind r (x ∷ xs) s t u v w before table =
      (ground (arith, before.0, table.0, w), behind r xs s t u v w before.1 table.2)

  -- The rows of a range are the row of its first minute, if any, and those of the rest.
  first_minute :
      (end : ℕ) (rs : List PingRollup)
      → start % minute_us ≡ 0
      → start + minute_us ≤ end
      → IsTable rs
      → minutes_between target start end rs ≡ (elim (find_rollup target 60 start rs) [
        | none ↦ minutes_between target (start + minute_us) end rs
        | some r ↦ r ∷ minutes_between target (start + minute_us) end rs
      ])
  unfolding minutes_between find_rollup has_bucket
  first_minute end [] s h table = refl
  first_minute end (r ∷ rs) s h table =
      let lost : target ≡ r.target_id
          → 60 ≡ r.resolution_s
          → start ≤ r.bucket_start_us
          → find_rollup target 60 start rs ≡ none =
        λ t u v. none_here rs (behind r rs s t u v table.0 table.1 table.2) in
      let same : target ≡ r.target_id
          → 60 ≡ r.resolution_s
          → start ≤ r.bucket_start_us
          → minutes_between target start end rs
            ≡ minutes_between target (start + minute_us) end rs =
        λ t u v. none_within end rs (behind r rs s t u v table.0 table.1 table.2) in
      ground (arith, table.0, first_minute end rs s h table.2, lost, same)

none_between :
    (target start : ℕ) (rs : List PingRollup) → minutes_between target start start rs ≡ []
unfolding minutes_between
none_between target start [] = refl
none_between target start (r ∷ rs) = ground (arith, none_between target start rs)

same_key_lem :
    (target bucket : ℕ) (l : DirtyKey)
    → same_key (ping_minute target bucket) l ≡ true
    → (l.bucket_start_us ≡ bucket) × (same_key (ping_minute target l.bucket_start_us) l ≡ true)
unfolding same_key
same_key_lem target bucket l h = ground (arith, h)

-- No minute of the range is dirty.
clean :
    (target start end bucket : ℕ) (ls : List DirtyKey)
    → any_dirty_minute target start end ls ≡ false
    → start ≤ bucket
    → bucket < end
    → is_dirty (ping_minute target bucket) ls ≡ false
unfolding any_dirty_minute is_dirty
clean target start end bucket [] h a b = refl
clean target start end bucket (l ∷ ls) h a b =
    ground (arith, h, same_key_lem target bucket l, clean target start end bucket ls)

still_clean :
    (target start later end : ℕ) (ls : List DirtyKey)
    → start ≤ later
    → any_dirty_minute target start end ls ≡ false
    → any_dirty_minute target later end ls ≡ false
unfolding any_dirty_minute
still_clean target start later end [] a h = refl
still_clean target start later end (l ∷ ls) a h =
    ground (arith, h, still_clean target start later end ls a)

module _ (floats : Floats) (floor : ℕ) (db : Database) (target : ℕ) where
  abbrev Rolled : ℕ → ℕ → List PingRollup → Type 0
  Rolled = IsRolled floats db.ping_samples db.scheduler_gaps target

  roll_minute :
      (k n : ℕ) (rest : List PingRollup)
      → IsCurrent floats db target (k * minute_us)
      → Rolled (k * minute_us + minute_us) n rest
      → Rolled
          (k * minute_us)
          (suc n)
          (elim (find_rollup target 60 (k * minute_us) db.ping_rollups) [
            | none ↦ rest
            | some r ↦ r ∷ rest
          ])
  roll_minute k n rest (inl (as_of, found)) more =
      rw found (stored (k * minute_us) n as_of rest more)
  roll_minute k n rest (inr (lost, no_rows, no_slots)) more =
      rw lost (quiet (k * minute_us) n rest no_rows no_slots more)

  -- A clean minute is current.
  clean_minute :
      (k end : ℕ)
      → IsFresh floats floor db
      → any_dirty_minute target (k * minute_us) end db.dirty_rollups ≡ false
      → k * minute_us < end
      → floor ≤ k * minute_us
      → IsCurrent floats db target (k * minute_us)
  clean_minute k end fresh no_dirty h above = elim (fresh target k above) [
    | inl marked ↦
        let unmarked =
          clean target (k * minute_us) end (k * minute_us) db.dirty_rollups no_dirty (omega arith)
            h in
        absurd (ground (arith, marked, unmarked))
    | inr current ↦ current
  ]

  -- The rows of clean minutes, all of them current.
  minutes_between-IsRolled :
      (k n end : ℕ)
      → end ≡ k * minute_us + n * minute_us
      → floor ≤ k * minute_us
      → IsFresh floats floor db
      → IsTable db.ping_rollups
      → any_dirty_minute target (k * minute_us) end db.dirty_rollups ≡ false
      → Rolled (k * minute_us) n (minutes_between target (k * minute_us) end db.ping_rollups)
  minutes_between-IsRolled k zero end at above fresh table no_dirty =
      let at_start : end ≡ k * minute_us = omega (arith, at) in
      rw (at_start, none_between target (k * minute_us) db.ping_rollups) (finished (k * minute_us))
  minutes_between-IsRolled k (suc n) end at above fresh table no_dirty =
      let rest : List PingRollup =
        minutes_between target (k * minute_us + minute_us) end db.ping_rollups in
      let next : (k + 1) * minute_us ≡ k * minute_us + minute_us = omega arith in
      let later : any_dirty_minute target ((k + 1) * minute_us) end db.dirty_rollups ≡ false =
        still_clean target (k * minute_us) ((k + 1) * minute_us) end db.dirty_rollups (omega arith)
          no_dirty in
      let more : Rolled (k * minute_us + minute_us) n rest =
        subst (λ (s : ℕ). Rolled s n (minutes_between target s end db.ping_rollups)) next
          (minutes_between-IsRolled (k + 1) n end (omega (arith, at)) (omega arith) fresh table
            later) in
      rw
        (first_minute target (k * minute_us) end db.ping_rollups (omega arith) (omega (arith, at))
          table)
        (roll_minute k n rest (clean_minute k end fresh no_dirty (omega (arith, at)) above) more)

  hour_lem :
      (start k : ℕ)
      → k * minute_us ≡ start
      → floor ≤ start
      → IsFresh floats floor db
      → IsTable db.ping_rollups
      → any_dirty_minute target start (start + hour_us) db.dirty_rollups ≡ false
      → length (select target start (start + hour_us) db.ping_samples) ≤ max_pairs
      → aggregate_hour (minutes_between target start (start + hour_us) db.ping_rollups)
        ≡ ok (aggregate_raw floats db.ping_samples db.scheduler_gaps target start (start + hour_us))
  hour_lem start k at above fresh table no_dirty few =
      let clean_from : any_dirty_minute target (k * minute_us) (start + hour_us) db.dirty_rollups
          ≡ false =
        rw at no_dirty in
      let rolled : Rolled start 60
          (minutes_between target start (start + hour_us) db.ping_rollups) =
        subst (λ (s : ℕ). Rolled s 60 (minutes_between target s (start + hour_us) db.ping_rollups))
          at
          (minutes_between-IsRolled k 60 (start + hour_us) (omega (arith, at)) (omega (arith, at))
            fresh table clean_from) in
      aggregate_hour-aggregate_raw floats db.ping_samples db.scheduler_gaps target start 60
        (minutes_between target start (start + hour_us) db.ping_rollups) rolled few

  -- Where every minute from the floor on is marked or current and none of the hour, after the floor, is marked, the hour's rollup is
  -- stored, and it is the aggregate of all rows and gaps of the hour.
  pub recompute_ping_hour_lem :
      (h as_of : ℕ)
      → floor ≤ h * hour_us
      → IsFresh floats floor db
      → IsTable db.ping_rollups
      → h * hour_us + hour_us ≤ as_of
      → any_dirty_minute target (h * hour_us) (h * hour_us + hour_us) db.dirty_rollups ≡ false
      → length (select target (h * hour_us) (h * hour_us + hour_us) db.ping_samples) ≤ max_pairs
      → recompute_ping_hour db (ping_hour target (h * hour_us)) as_of
        ≡ ok (
            store_ping_aggregate db
              (ping_hour target (h * hour_us))
              (aggregate_raw floats db.ping_samples db.scheduler_gaps target
                (h * hour_us)
                (h * hour_us + hour_us))
              as_of
              false)
  unfolding recompute_ping_hour
  recompute_ping_hour_lem h as_of above fresh table old no_dirty few =
      rw
        (
          le→ltb as_of (h * hour_us + hour_us) old,
          no_dirty,
          hour_lem (h * hour_us) (h * 60) (omega arith) above fresh table no_dirty few,
        )
        refl
