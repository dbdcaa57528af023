-- ===== src/Store/Pings/Missed.antt =====
-- internal/store/sqlite/rollup.go: missed slots and rows of adjacent ranges of time.
use flameping.Prelude.{
  ℕ, ◌+◌, ◌/◌, ◌≤◌, ◌≡◌, refl, ap, ◌∙◌, List, [], ◌∷◌, ltb, ◌==◌, ◌&&◌, if◌then◌else◌, arith,
  length,
}
use flameping.Store.Periodic.{
  count_periodic-slots, count_periodic_still, slots, slots-adjacent, slots_after, slots_before,
  slots_empty,
}
use flameping.Store.Pings.{GapRow, PingSample, add_gaps, is_between, missed_slots, select}

-- A gap's missed slots in a range.
abbrev in_range : ℕ → ℕ → ℕ → GapRow → ℕ
in_range target start end g =
    if (target == g.target_id) && ltb 0 (g.interval_ns / 1000)
    then slots g.first_scheduled_at_us (g.interval_ns / 1000) g.missed_count start end
    else 0

missed_slots-in_range :
    (target start end : ℕ) (g : GapRow)
    → missed_slots target start end g ≡ in_range target start end g
unfolding missed_slots
missed_slots-in_range target start end g =
    let first : ℕ = g.first_scheduled_at_us in
    let step : ℕ = g.interval_ns / 1000 in
    let count : ℕ = g.missed_count in
    ground (
      arith,
      count_periodic-slots first step count start end,
      count_periodic_still first count start end,
      slots_before first step count start end,
      slots_after first step count start end,
    )

pub add_gaps-adjacent :
    (target start middle end m n : ℕ) (gs : List GapRow)
    → start ≤ middle
    → middle ≤ end
    → add_gaps target start end (m + n) gs
      ≡ add_gaps target start middle m gs + add_gaps target middle end n gs
unfolding add_gaps
add_gaps-adjacent target start middle end m n [] h k = refl
add_gaps-adjacent target start middle end m n (g ∷ gs) h k =
    let whole : ℕ = missed_slots target start end g in
    let first : ℕ = missed_slots target start middle g in
    let second : ℕ = missed_slots target middle end g in
    let split : whole ≡ first + second = ground (
      arith,
      missed_slots-in_range target start end g,
      missed_slots-in_range target start middle g,
      missed_slots-in_range target middle end g,
      slots-adjacent g.first_scheduled_at_us (g.interval_ns / 1000) g.missed_count start middle end,
    ) in
    ap (λ (t : ℕ). add_gaps target start end t gs) (omega (arith, split))
    ∙ add_gaps-adjacent target start middle end (m + first) (n + second) gs h k

-- No slot lies in an empty range.
pub add_gaps_none : (target start m : ℕ) (gs : List GapRow) → add_gaps target start start m gs ≡ m
unfolding add_gaps
add_gaps_none target start m [] = refl
add_gaps_none target start m (g ∷ gs) =
    let none_missed : missed_slots target start start g ≡ 0 = ground (
      arith,
      missed_slots-in_range target start start g,
      slots_empty g.first_scheduled_at_us (g.interval_ns / 1000) g.missed_count start start,
    ) in
    ap (λ (t : ℕ). add_gaps target start start t gs) (omega (arith, none_missed))
    ∙ add_gaps_none target start m gs

pub select_none : (target start : ℕ) (xs : List PingSample) → select target start start xs ≡ []
unfolding select is_between
select_none target start [] = refl
select_none target start (x ∷ xs) = ground (arith, select_none target start xs)

pub length-select :
    (target start middle end : ℕ) (xs : List PingSample)
    → start ≤ middle
    → middle ≤ end
    → length (select target start end xs)
      ≡ length (select target start middle xs) + length (select target middle end xs)
unfolding select is_between
length-select target start middle end [] h k = refl
length-select target start middle end (x ∷ xs) h k =
    ground (arith, length-select target start middle end xs h k)
