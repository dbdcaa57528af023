-- ===== src/Store/Fresh/Pruned.antt =====
-- internal/store/sqlite/retention.go: what retention deletes is older than its cutoffs.
use flameping.Prelude.{
  ℕ, ◌+◌, ◌*◌, ◌≤◌, ◌≡◌, refl, ap, ◌∙◌, inr, List, [], ◌∷◌, ◌++◌, Bool, true, false, ltb, ◌&&◌, All,
  arith, if_cases,
}
use flameping.Histogram.{Floats}
use flameping.Store.Fresh.{IsBefore, IsSound, IsTable, find_rollup, kept_from-IsSound, lost-IsFresh}
use flameping.Store.Pings.{
  GapRow, PingSample, add_gaps, add_rows, is_between, minute_us, missed_slots, select,
}
use flameping.Store.Pings.Rollup.{PingRollup}
use flameping.Store.Recompute.{has_bucket}
use flameping.Store.Retention.{
  Stage, delete_oldest, hour_rollups, is_spent_gap, is_spent_hour, is_spent_minute, is_spent_row,
  last_slot_us, minute_rollups, prune_batch, prune_stage, raw_gaps, raw_rows,
}
use flameping.Store.Writer.{Database}

pub select-delete_oldest :
    (target start end : ℕ) (chosen : PingSample → Bool) (before : PingSample → PingSample → Bool)
    (rows earlier xs : List PingSample)
    → ((x : PingSample) → chosen x ≡ true → is_between target start end x ≡ false)
    → select target start end (delete_oldest chosen before rows earlier xs)
      ≡ select target start end xs
unfolding select delete_oldest
select-delete_oldest target start end chosen before rows earlier [] old = refl
select-delete_oldest target start end chosen before rows earlier (x ∷ xs) old = ground (
  arith,
  old x,
  select-delete_oldest target start end chosen before rows (earlier ++ x ∷ []) xs old,
)

pub add_gaps-delete_oldest :
    (target start end m : ℕ) (chosen : GapRow → Bool) (before : GapRow → GapRow → Bool)
    (rows earlier gs : List GapRow)
    → ((g : GapRow) → chosen g ≡ true → missed_slots target start end g ≡ 0)
    → add_gaps target start end m (delete_oldest chosen before rows earlier gs)
      ≡ add_gaps target start end m gs
unfolding add_gaps delete_oldest
add_gaps-delete_oldest target start end m chosen before rows earlier [] old = refl
add_gaps-delete_oldest target start end m chosen before rows earlier (g ∷ gs) old =
    let later : ℕ → Type 0 = λ n.
      add_gaps target start end n (delete_oldest chosen before rows (earlier ++ g ∷ []) gs)
      ≡ add_gaps target start end n gs in
    let rest : (n : ℕ) → later n = λ n.
      add_gaps-delete_oldest target start end n chosen before rows (earlier ++ g ∷ []) gs old in
    let same : chosen g ≡ true → m + missed_slots target start end g ≡ m =
      λ e. omega (arith, old g e) in
    ground (arith, rest m, rest (m + missed_slots target start end g), same)

find_rollup-delete_oldest :
    (target start : ℕ) (chosen : PingRollup → Bool) (before : PingRollup → PingRollup → Bool)
    (rows earlier rs : List PingRollup)
    → ((r : PingRollup) → chosen r ≡ true → has_bucket target 60 start r ≡ false)
    → find_rollup target 60 start (delete_oldest chosen before rows earlier rs)
      ≡ find_rollup target 60 start rs
unfolding find_rollup delete_oldest
find_rollup-delete_oldest target start chosen before rows earlier [] old = refl
find_rollup-delete_oldest target start chosen before rows earlier (r ∷ rs) old = ground (
  arith,
  old r,
  find_rollup-delete_oldest target start chosen before rows (earlier ++ r ∷ []) rs old,
)

All-delete_oldest :
    (P : PingRollup → Type 0) (chosen : PingRollup → Bool) (before : PingRollup → PingRollup → Bool)
    (rows earlier rs : List PingRollup)
    → All P rs
    → All P (delete_oldest chosen before rows earlier rs)
unfolding delete_oldest
All-delete_oldest P chosen before rows earlier [] h = tt
All-delete_oldest P chosen before rows earlier (r ∷ rs) h =
    let rest = All-delete_oldest P chosen before rows (earlier ++ r ∷ []) rs h.1 in
    if_cases (All P) (chosen r && ltb (_ + _) prune_batch) _ _ (λ gone. rest) (λ stays. (h.0, rest))

delete_oldest-IsTable :
    (chosen : PingRollup → Bool) (before : PingRollup → PingRollup → Bool)
    (rows earlier rs : List PingRollup)
    → IsTable rs
    → IsTable (delete_oldest chosen before rows earlier rs)
unfolding delete_oldest
delete_oldest-IsTable chosen before rows earlier [] h = tt
delete_oldest-IsTable chosen before rows earlier (r ∷ rs) (aligned, after, table) =
    let rest = delete_oldest-IsTable chosen before rows (earlier ++ r ∷ []) rs table in
    let still = All-delete_oldest (IsBefore r) chosen before rows (earlier ++ r ∷ []) rs after in
    if_cases IsTable (chosen r && ltb (_ + _) prune_batch) _ _ (λ gone. rest)
      (λ stays. (aligned, still, rest))

-- The rows, gaps and rollups that are deleted do not belong to a minute from the cutoff on.
spent_row_apart :
    (cutoff target start : ℕ) (db : Database) (x : PingSample)
    → cutoff ≤ start
    → is_spent_row cutoff db x ≡ true
    → is_between target start (start + minute_us) x ≡ false
unfolding is_spent_row is_between
spent_row_apart cutoff target start db x low h = ground (arith, h)

spent_gap_apart :
    (cutoff target start : ℕ) (db : Database) (g : GapRow)
    → cutoff ≤ start
    → is_spent_gap cutoff db g ≡ true
    → missed_slots target start (start + minute_us) g ≡ 0
unfolding is_spent_gap missed_slots last_slot_us
spent_gap_apart cutoff target start db g low h = ground (arith, h)

spent_minute_apart :
    (cutoff target start : ℕ) (db : Database) (r : PingRollup)
    → cutoff ≤ start
    → is_spent_minute cutoff db r ≡ true
    → has_bucket target 60 start r ≡ false
unfolding is_spent_minute has_bucket
spent_minute_apart cutoff target start db r low h = ground (arith, h)

spent_hour_apart :
    (cutoff target start : ℕ) (r : PingRollup)
    → is_spent_hour cutoff r ≡ true
    → has_bucket target 60 start r ≡ false
unfolding is_spent_hour has_bucket
spent_hour_apart cutoff target start r h = ground (arith, h)

-- So a stage with a cutoff up to the floor keeps every minute from the floor on marked or current.
pub prune_stage-IsSound :
    (floats : Floats) (floor cutoff : ℕ) (stage : Stage) (db : Database)
    → cutoff ≤ floor
    → IsSound floats floor db
    → IsSound floats floor (prune_stage stage cutoff db)
unfolding prune_stage
prune_stage-IsSound floats floor cutoff (raw_rows) db low sound =
    kept_from-IsSound floats floor db (prune_stage raw_rows cutoff db) refl
      (λ target k above.
        let start : ℕ = k * minute_us in
        let same =
          select-delete_oldest target start (start + minute_us) (is_spent_row cutoff db) _
            db.ping_samples [] db.ping_samples
            (λ x. spent_row_apart cutoff target start db x (omega arith)) in
        inr (λ h. h, (λ a. ap (add_rows floats a) same, λ none_left. same ∙ none_left), λ m. refl))
      sound
prune_stage-IsSound floats floor cutoff (raw_gaps) db low sound =
    kept_from-IsSound floats floor db (prune_stage raw_gaps cutoff db) refl
      (λ target k above.
        let start : ℕ = k * minute_us in
        inr (
          λ h. h,
          (λ a. refl, λ none_left. none_left),
          λ m.
              add_gaps-delete_oldest target start (start + minute_us) m (is_spent_gap cutoff db) _
                db.scheduler_gaps [] db.scheduler_gaps
                (λ g. spent_gap_apart cutoff target start db g (omega arith)),
        ))
      sound
prune_stage-IsSound floats floor cutoff (minute_rollups) db low (fresh, table) = (
  lost-IsFresh floats floor db _
      (λ target k above.
        find_rollup-delete_oldest target (k * minute_us) (is_spent_minute cutoff db) _
          db.ping_rollups [] db.ping_rollups
          (λ r. spent_minute_apart cutoff target (k * minute_us) db r (omega arith)))
      fresh,
  delete_oldest-IsTable _ _ db.ping_rollups [] db.ping_rollups table,
)
prune_stage-IsSound floats floor cutoff (hour_rollups) db low (fresh, table) = (
  lost-IsFresh floats floor db _
      (λ target k above.
        find_rollup-delete_oldest target (k * minute_us) (is_spent_hour cutoff) _ db.ping_rollups []
          db.ping_rollups (λ r. spent_hour_apart cutoff target (k * minute_us) r))
      fresh,
  delete_oldest-IsTable _ _ db.ping_rollups [] db.ping_rollups table,
)
