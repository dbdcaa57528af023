-- ===== src/Store/Fresh.antt =====
-- internal/store/sqlite/writer.go and rollup.go: every minute whose rows or gaps have changed since its
-- rollup was stored is marked.
pub mod Rows
pub mod Gaps
pub mod Events
pub mod Rollups
pub mod Hours
pub mod Tables
pub mod Pruned
pub mod Spared
pub mod Reach
use flameping.Prelude.{
  ℕ, zero, suc, ◌+◌, ◌-◌, ◌*◌, ◌/◌, ◌%◌, ◌≤◌, ◌<◌, ◌≡◌, refl, ap, sym, subst, ◌∙◌, ◌⊎◌, inl, inr,
  List, [], ◌∷◌, ◌++◌, Bool, true, false, ltb, leb, ◌==◌, ◌&&◌, ◌||◌, not, All, if◌then◌else◌,
  Option, none, some, arith,
}
use flameping.Histogram.{Floats}
use flameping.Store.Pings.{
  PingAggregate, PingSample, add_gaps, add_rows, aggregate_raw, empty, minute_us, select,
}
use flameping.Store.Pings.Rollup.{PingRollup, rollup}
use flameping.Store.Recompute.{has_bucket, is_before}
use flameping.Store.Writer.{
  Applied, Database, DirtyKey, Kind, done, failed, interface, is_dirty, mark_dirty, ping,
  ping_minute, same_key, same_kind,
}

-- The row with the key.
unfoldable pub find_rollup : ℕ → ℕ → ℕ → List PingRollup → Option PingRollup
unfolding has_bucket
find_rollup target resolution bucket [] = none
find_rollup target resolution bucket (r ∷ rs) =
    if has_bucket target resolution bucket r
    then some r
    else find_rollup target resolution bucket rs

-- The rollup of a minute is that of the rows and gaps of now, or it is missing and there are none.
abbrev pub IsCurrent : Floats → Database → ℕ → ℕ → Type 0
IsCurrent floats db target start =
    ((as_of : ℕ) × (find_rollup target 60 start db.ping_rollups
        ≡ some (
            rollup target 60 start
              (aggregate_raw floats db.ping_samples db.scheduler_gaps target start
                (start + minute_us))
              as_of)))
    ⊎ ((find_rollup target 60 start db.ping_rollups ≡ none)
        × (select target start (start + minute_us) db.ping_samples ≡ [])
        × (add_gaps target start (start + minute_us) 0 db.scheduler_gaps ≡ 0))

-- Each minute of each target from the floor on is marked or current.
abbrev pub IsFresh : Floats → ℕ → Database → Type 0
IsFresh floats floor db =
    (target k : ℕ)
    → floor ≤ k * minute_us
    → (is_dirty (ping_minute target (k * minute_us)) db.dirty_rollups ≡ true)
      ⊎ IsCurrent floats db target (k * minute_us)

-- The rows stand in the order of their keys, and a minute's bucket starts with a minute.
abbrev pub IsBefore : PingRollup → PingRollup → Type 0
IsBefore r x = is_before r x.target_id x.resolution_s x.bucket_start_us ≡ true

abbrev pub IsAligned : PingRollup → Type 0
IsAligned r = (r.resolution_s ≡ 60) → (r.bucket_start_us % minute_us ≡ 0)

abbrev pub IsTable : List PingRollup → Type 0
IsTable [] = Unit
IsTable (r ∷ rs) = IsAligned r × All (IsBefore r) rs × IsTable rs

abbrev pub IsSound : Floats → ℕ → Database → Type 0
IsSound floats floor db = IsFresh floats floor db × IsTable db.ping_rollups

-- A property of what an operation returns, where it does not fail.
abbrev pub Holds : {A : Type 0} → (A → Type 0) → Applied A → Type 0
Holds P (done a) = P a
Holds P (failed e) = Unit

is_dirty-append :
    (k : DirtyKey) (ls ms : List DirtyKey)
    → is_dirty k (ls ++ ms) ≡ (is_dirty k ls || is_dirty k ms)
unfolding is_dirty
is_dirty-append k [] ms = refl
is_dirty-append k (l ∷ ls) ms = ground (arith, is_dirty-append k ls ms)

same_kind_refl : (k : Kind) → same_kind k k ≡ true
unfolding same_kind
same_kind_refl ping = refl
same_kind_refl interface = refl

same_key_refl : (k : DirtyKey) → same_key k k ≡ true
unfolding same_key
same_key_refl k = ground (arith, same_kind_refl k.kind)

-- A mark is made, and those that are there stay.
pub is_dirty-mark_dirty : (k : DirtyKey) (ls : List DirtyKey) → is_dirty k (mark_dirty k ls) ≡ true
unfolding mark_dirty is_dirty
is_dirty-mark_dirty k ls = ground (arith, is_dirty-append k ls (k ∷ []), same_key_refl k)

pub is_dirty_stays :
    (k l : DirtyKey) (ls : List DirtyKey)
    → is_dirty k ls ≡ true
    → is_dirty k (mark_dirty l ls) ≡ true
unfolding mark_dirty
is_dirty_stays k l ls h = ground (arith, is_dirty-append k ls (l ∷ []))

-- What a rollup reads of the rows of a range is the same.
abbrev pub AggregatesAs : Floats → ℕ → ℕ → ℕ → List PingSample → List PingSample → Type 0
AggregatesAs floats target start end xs ys =
    ((a : PingAggregate)
      → add_rows floats a (select target start end ys)
        ≡ add_rows floats a (select target start end xs))
    × (select target start end xs ≡ [] → select target start end ys ≡ [])

-- A minute is marked, or nothing that its rollup depends on changes.
abbrev pub IsKept : Floats → Database → Database → ℕ → ℕ → Type 0
IsKept floats db db' target start =
    (is_dirty (ping_minute target start) db'.dirty_rollups ≡ true)
    ⊎ ((is_dirty (ping_minute target start) db.dirty_rollups ≡ true
          → is_dirty (ping_minute target start) db'.dirty_rollups ≡ true)
        × AggregatesAs floats target start (start + minute_us) db.ping_samples db'.ping_samples
        × ((m : ℕ)
            → add_gaps target start (start + minute_us) m db'.scheduler_gaps
              ≡ add_gaps target start (start + minute_us) m db.scheduler_gaps))

IsCurrent-kept :
    (floats : Floats) (db db' : Database) (target start : ℕ)
    → db'.ping_rollups ≡ db.ping_rollups
    → AggregatesAs floats target start (start + minute_us) db.ping_samples db'.ping_samples
    → ((m : ℕ)
        → add_gaps target start (start + minute_us) m db'.scheduler_gaps
          ≡ add_gaps target start (start + minute_us) m db.scheduler_gaps)
    → IsCurrent floats db target start
    → IsCurrent floats db' target start
unfolding aggregate_raw find_rollup rollup
IsCurrent-kept floats db db' target start same (rows, none_left) slots (inl (as_of, found)) = inl (
  as_of,
  rw
      (
        same,
        aggregate_raw,
        rows empty,
        slots
            (add_rows floats empty
              (select target start (start + minute_us) db.ping_samples)).scheduler_missed,
      )
      found,
)
IsCurrent-kept floats db db' target start same (rows, none_left) slots
      (inr (lost, no_rows, no_slots)) =
    inr (ap (find_rollup target 60 start) same ∙ lost, none_left no_rows, slots 0 ∙ no_slots)

kept-IsFresh :
    (floats : Floats) (floor : ℕ) (db db' : Database)
    → db'.ping_rollups ≡ db.ping_rollups
    → ((target k : ℕ) → floor ≤ k * minute_us → IsKept floats db db' target (k * minute_us))
    → IsFresh floats floor db
    → IsFresh floats floor db'
kept-IsFresh floats floor db db' same kept fresh target k above = elim (kept target k above) [
  | inl marked ↦ inl marked
  | inr (stays, rows, slots) ↦ elim (fresh target k above) [
    | inl marked ↦ inl (stays marked)
    | inr current ↦
        inr (IsCurrent-kept floats db db' target (k * minute_us) same rows slots current)
  ]
]

pub kept_from-IsSound :
    (floats : Floats) (floor : ℕ) (db db' : Database)
    → db'.ping_rollups ≡ db.ping_rollups
    → ((target k : ℕ) → floor ≤ k * minute_us → IsKept floats db db' target (k * minute_us))
    → IsSound floats floor db
    → IsSound floats floor db'
kept_from-IsSound floats floor db db' same kept (fresh, table) =
    (kept-IsFresh floats floor db db' same kept fresh, subst IsTable (sym same) table)

pub kept-IsSound :
    (floats : Floats) (floor : ℕ) (db db' : Database)
    → db'.ping_rollups ≡ db.ping_rollups
    → ((target k : ℕ) → IsKept floats db db' target (k * minute_us))
    → IsSound floats floor db
    → IsSound floats floor db'
kept-IsSound floats floor db db' same kept =
    kept_from-IsSound floats floor db db' same (λ target k above. kept target k)

-- Where only rollups are lost, and none of a minute from the floor on.
pub lost-IsFresh :
    (floats : Floats) (floor : ℕ) (db : Database) (rs : List PingRollup)
    → ((target k : ℕ)
        → floor ≤ k * minute_us
        → find_rollup target 60 (k * minute_us) rs
          ≡ find_rollup target 60 (k * minute_us) db.ping_rollups)
    → IsFresh floats floor db
    → IsFresh floats floor (record db { ping_rollups = rs })
lost-IsFresh floats floor db rs same fresh target k above = elim (fresh target k above) [
  | inl marked ↦ inl marked
  | inr (inl (as_of, found)) ↦ inr (inl (as_of, same target k above ∙ found))
  | inr (inr (lost, no_rows, no_slots)) ↦ inr (inr (same target k above ∙ lost, no_rows, no_slots))
]
