-- ===== src/Store/Fresh/Gaps.antt =====
-- internal/store/sqlite/writer.go, `insertGap`: every minute in which a slot was missed is marked.
use flameping.Prelude.{
  ℕ, zero, suc, ◌+◌, ◌-◌, ◌*◌, ◌/◌, ◌≤◌, ◌<◌, ◌≡◌, refl, ap, subst, ◌⊎◌, inl, inr, List, [], ◌∷◌,
  ◌++◌, true, ltb, ◌==◌, ◌||◌, arith, Bool-cases, if_cases,
}
use native.Mathlib.Nat.{div-add-mod}
use flameping.Histogram.{Floats}
use flameping.Store.Fresh.{
  Holds, IsKept, IsSound, is_dirty-mark_dirty, is_dirty_stays, kept-IsSound,
}
use flameping.Store.Pings.{GapRow, add_gaps, minute_us, missed_slots}
use flameping.Store.Writer.{
  Database, DirtyKey, done, failed, invalid_gap, is_dirty, mark_dirty, minute_bucket, ping_minute,
}
use flameping.Store.Writer.Batch.{
  SchedulerGap, first_us, gap_row, insert_gap, last_us, mark_minutes, record_missed,
}

mark_minutes_stays :
    (fuel target bucket last : ℕ) (k : DirtyKey) (ls : List DirtyKey)
    → is_dirty k ls ≡ true
    → is_dirty k (mark_minutes fuel target bucket last ls) ≡ true
unfolding mark_minutes
mark_minutes_stays zero target bucket last k ls h = h
mark_minutes_stays (suc fuel) target bucket last k ls h =
    let later =
      mark_minutes_stays fuel target (bucket + minute_us) last k
        (mark_dirty (ping_minute target bucket) ls)
        (is_dirty_stays k (ping_minute target bucket) ls h) in
    if_cases (λ (m : List DirtyKey). is_dirty k m ≡ true) (ltb last bucket) ls
      (mark_minutes fuel target (bucket + minute_us) last
        (mark_dirty (ping_minute target bucket) ls))
      (λ e. h) (λ e. later)

-- With a round for each minute up to the last, the loop marks all of them.
mark_minutes_marks :
    (fuel target j l k : ℕ) (ls : List DirtyKey)
    → j ≤ k
    → k ≤ l
    → l < j + fuel
    → is_dirty
        (ping_minute target (k * minute_us))
        (mark_minutes fuel target (j * minute_us) (l * minute_us) ls)
      ≡ true
unfolding mark_minutes
mark_minutes_marks zero target j l k ls a b c = absurd (omega arith)
mark_minutes_marks (suc fuel) target j l k ls a b c =
    let marked : List DirtyKey = mark_dirty (ping_minute target (j * minute_us)) ls in
    let next : j * minute_us + minute_us ≡ (j + 1) * minute_us = omega arith in
    if_cases (λ (m : List DirtyKey). is_dirty (ping_minute target (k * minute_us)) m ≡ true)
      (ltb (l * minute_us) (j * minute_us)) ls
      (mark_minutes fuel target (j * minute_us + minute_us) (l * minute_us) marked)
      (λ e. absurd (ground (arith, e)))
      (λ e. elim (Bool-cases (j == k)) [
        | inl here ↦
            mark_minutes_stays fuel target (j * minute_us + minute_us) (l * minute_us)
              (ping_minute target (k * minute_us)) marked
              (subst (λ (t : ℕ). is_dirty (ping_minute target (t * minute_us)) marked ≡ true)
                (ground (arith, here))
                (is_dirty-mark_dirty (ping_minute target (j * minute_us)) ls))
        | inr later ↦ rw next (
            mark_minutes_marks fuel target (j + 1) l k marked (ground (arith, later)) b
              (omega arith))
      ])

minute_bucket_lem : (us : ℕ) → minute_bucket us ≡ us / minute_us * minute_us
unfolding minute_bucket
minute_bucket_lem us = omega arith

add_gaps-snoc :
    (target start end m : ℕ) (g : GapRow) (gs : List GapRow)
    → missed_slots target start end g ≡ 0
    → add_gaps target start end m (gs ++ g ∷ []) ≡ add_gaps target start end m gs
unfolding add_gaps
add_gaps-snoc target start end m g [] h = omega (arith, h)
add_gaps-snoc target start end m g (x ∷ gs) h =
    add_gaps-snoc target start end (m + missed_slots target start end x) g gs h

-- The slots as the rollup counts them, with a step cut to microseconds, end by the last one.
last_slot :
    (g : SchedulerGap) → first_us g + (g.missed_count - 1) * (g.interval_ns / 1000) ≤ last_us g
unfolding first_us last_us
last_slot g =
    let n : ℕ = g.missed_count - 1 in
    omega (arith, ap (λ (t : ℕ). n * t) (div-add-mod g.interval_ns 1000))

-- A minute that takes in a slot of the gap lies between the first and the last that are marked.
missed_within :
    (target k : ℕ) (g : SchedulerGap)
    → (missed_slots target (k * minute_us) (k * minute_us + minute_us) (gap_row g) ≡ 0)
      ⊎ ((target ≡ g.target_id) × (first_us g / minute_us ≤ k) × (k ≤ last_us g / minute_us))
unfolding missed_slots gap_row
missed_within target k g = ground (arith, last_slot g)

gap-IsKept :
    (floats : Floats) (db : Database) (g : SchedulerGap) (target k : ℕ)
    → IsKept floats db (record_missed db g) target (k * minute_us)
unfolding record_missed
gap-IsKept floats db g target k = elim (missed_within target k g) [
  | inl none_missed ↦ inr (
    mark_minutes_stays (last_us g / minute_us + 1) g.target_id (minute_bucket (first_us g))
        (minute_bucket (last_us g)) (ping_minute target (k * minute_us)) db.dirty_rollups,
    (λ a. refl, λ h. h),
    λ m.
        add_gaps-snoc target (k * minute_us) (k * minute_us + minute_us) m (gap_row g)
          db.scheduler_gaps none_missed,
  )
  | inr (same, low, high) ↦ inl (
      rw (same, minute_bucket_lem (first_us g), minute_bucket_lem (last_us g))
        (mark_minutes_marks (last_us g / minute_us + 1) g.target_id (first_us g / minute_us)
          (last_us g / minute_us) k db.dirty_rollups low high (omega arith)))
]

pub insert_gap-IsSound :
    (floats : Floats) (floor : ℕ) (db : Database) (g : SchedulerGap)
    → IsSound floats floor db
    → Holds (IsSound floats floor) (insert_gap db g)
unfolding insert_gap
insert_gap-IsSound floats floor db g fresh =
    if_cases (Holds (IsSound floats floor)) (g.missed_count == 0 || g.interval_ns == 0)
      (failed invalid_gap) (done (record_missed db g)) (λ e. tt)
      (λ e.
        kept-IsSound floats floor db (record_missed db g) (unfold record_missed in refl)
          (gap-IsKept floats db g) fresh)
