-- ===== src/Store/Pings/Hours.antt =====
-- internal/store/sqlite/rollup.go, `recomputePingHour`: the hour that the rollups of its minutes give
-- against the hour that its rows and gaps give.
use flameping.Prelude.{
  ℕ, suc, ◌+◌, ◌*◌, ◌≤◌, ◌≡◌, refl, ap, sym, subst, ◌∙◌, List, [], ◌∷◌, arith, length,
}
use flameping.Histogram.{Floats, new}
use flameping.Histogram.Codec.{ok, max_pairs}
use flameping.Store.Pings.{
  GapRow, PingAggregate, PingSample, add_gaps, add_row, add_rows, add_sent, aggregate_raw, empty,
  minute_us, observe_rtt, observe_timeout, select, settle_min,
}
use flameping.Store.Pings.Missed.{add_gaps-adjacent, add_gaps_none, length-select, select_none}
use flameping.Store.Pings.Ranges.{add_rows-IsTallied, add_rows-adjacent}
use flameping.Store.Pings.Rollup.{PingRollup, add_rollup, add_rollups, aggregate_hour, rollup}
use flameping.Store.Pings.Stored.{add_rollup-rollup, plus-empty}
use flameping.Store.Pings.Sums.{IsTallied, empty-IsTallied, plus}

-- The rows leave the missed slots alone.
add_row-missed :
    (floats : Floats) (a : PingAggregate) (x : PingSample)
    → (add_row floats a x).scheduler_missed ≡ a.scheduler_missed
unfolding add_row add_sent observe_rtt observe_timeout
add_row-missed floats a x = ground arith

add_rows-missed :
    (floats : Floats) (a : PingAggregate) (xs : List PingSample)
    → (add_rows floats a xs).scheduler_missed ≡ a.scheduler_missed
unfolding add_rows
add_rows-missed floats a [] = refl
add_rows-missed floats a (x ∷ xs) =
    add_rows-missed floats (add_row floats a x) xs ∙ add_row-missed floats a x

-- The missed slots and the sum of all slots, put in.
unfoldable closed : PingAggregate → ℕ → PingAggregate
closed a missed = record a { scheduler_missed = missed; scheduled = a.attempted + missed }

closed-IsTallied : (a : PingAggregate) (missed : ℕ) → IsTallied a → IsTallied (closed a missed)
unfolding closed
closed-IsTallied a missed v = ground (arith, v.none_seen, v.no_timeout)

plus-closed :
    (a b : PingAggregate) (m n : ℕ) → plus (closed a m) (closed b n) ≡ closed (plus a b) (m + n)
unfolding plus closed
plus-closed a b m n = ground arith

module _ (floats : Floats) (samples : List PingSample) (gaps : List GapRow) (target : ℕ) where
  rows : ℕ → ℕ → PingAggregate
  rows start end = add_rows floats empty (select target start end samples)

  -- The aggregate of a range before its last step.
  unfoldable gathered : ℕ → ℕ → PingAggregate
  gathered start end =
      closed (add_rows floats empty (select target start end samples))
        (add_gaps target start end 0 gaps)

  gathered-IsTallied :
      (start end : ℕ)
      → length (select target start end samples) ≤ max_pairs
      → IsTallied (gathered start end)
        × ((gathered start end).hist.count ≤ length (select target start end samples))
        × (length (gathered start end).hist.buckets ≤ max_pairs)
  unfolding gathered closed empty new
  gathered-IsTallied start end few =
      let (valid, (count, buckets)) =
        add_rows-IsTallied floats empty (select target start end samples) empty-IsTallied
          (omega (arith, few)) in
      (closed-IsTallied _ _ valid, omega (arith, count), omega (arith, buckets))

  gathered-adjacent :
      (start middle end : ℕ)
      → start ≤ middle
      → middle ≤ end
      → length (select target start end samples) ≤ max_pairs
      → gathered start end ≡ plus (gathered start middle) (gathered middle end)
  unfolding gathered
  gathered-adjacent start middle end h k few =
      let both =
        ap (λ (a : PingAggregate). add_rows floats a (select target start end samples))
          (sym (plus-empty empty empty-IsTallied))
        ∙ add_rows-adjacent floats target start middle end samples empty empty h k empty-IsTallied
            empty-IsTallied (unfold empty new in omega (arith, few)) in
      rw (both, add_gaps-adjacent target start middle end 0 0 gaps h k) (sym (plus-closed _ _ _ _))

  gathered_none : (start : ℕ) → gathered start start ≡ empty
  unfolding gathered closed empty add_rows
  gathered_none start =
      rw (select_none target start samples, add_gaps_none target start 0 gaps) refl

  -- The rollups of `n` minutes from `start` on, each of them that of its rows and gaps. A minute
  -- without rows and missed slots may have no rollup.
  pub data IsRolled : ℕ → ℕ → List PingRollup → Type 0 where
    finished : (start : ℕ) → IsRolled start 0 []
    stored :
        (start n as_of : ℕ) (rs : List PingRollup)
        → IsRolled (start + minute_us) n rs
        → IsRolled start (suc n) (
            rollup target 60 start
              (aggregate_raw floats samples gaps target start (start + minute_us))
              as_of
            ∷ rs)
    quiet :
        (start n : ℕ) (rs : List PingRollup)
        → select target start (start + minute_us) samples ≡ []
        → add_gaps target start (start + minute_us) 0 gaps ≡ 0
        → IsRolled (start + minute_us) n rs
        → IsRolled start (suc n) rs

  aggregate_raw-gathered :
      (start end : ℕ)
      → aggregate_raw floats samples gaps target start end ≡ settle_min (gathered start end)
  unfolding aggregate_raw gathered closed empty
  aggregate_raw-gathered start end =
      rw (add_rows-missed floats empty (select target start end samples)) refl

  gathered_quiet :
      (start end : ℕ)
      → select target start end samples ≡ []
      → add_gaps target start end 0 gaps ≡ 0
      → gathered start end ≡ empty
  unfolding gathered closed empty add_rows
  gathered_quiet start end h k = rw (h, k) refl

  -- One more minute's rollup.
  add_rollup-gathered :
      (start from as_of : ℕ)
      → start ≤ from
      → length (select target start (from + minute_us) samples) ≤ max_pairs
      → add_rollup (gathered start from) (
          rollup target 60 from
            (aggregate_raw floats samples gaps target from (from + minute_us))
            as_of)
        ≡ ok (gathered start (from + minute_us))
  add_rollup-gathered start from as_of h few =
      let split = length-select target start from (from + minute_us) samples h (omega arith) in
      let before = (gathered-IsTallied start from (omega (arith, split, few))).0 in
      let (now, _, buckets) =
        gathered-IsTallied from (from + minute_us) (omega (arith, split, few)) in
      rw
        (
          aggregate_raw-gathered from (from + minute_us),
          add_rollup-rollup (gathered start from) (gathered from (from + minute_us)) target 60 from
              as_of before now buckets,
          gathered-adjacent start from (from + minute_us) h (omega arith) few,
        )
        refl

  -- A minute with nothing in it.
  gathered-quiet :
      (start from : ℕ)
      → start ≤ from
      → length (select target start (from + minute_us) samples) ≤ max_pairs
      → select target from (from + minute_us) samples ≡ []
      → add_gaps target from (from + minute_us) 0 gaps ≡ 0
      → gathered start from ≡ gathered start (from + minute_us)
  gathered-quiet start from h few none_rows none_missed =
      let split = length-select target start from (from + minute_us) samples h (omega arith) in
      let before = (gathered-IsTallied start from (omega (arith, split, few))).0 in
      rw
        (
          gathered-adjacent start from (from + minute_us) h (omega arith) few,
          gathered_quiet from (from + minute_us) none_rows none_missed,
          plus-empty (gathered start from) before,
        )
        refl

  fewer :
      (start from n : ℕ)
      → start ≤ from
      → length (select target start (from + suc n * minute_us) samples) ≤ max_pairs
      → (length (select target start (from + minute_us) samples) ≤ max_pairs)
        × (length (select target start (from + minute_us + n * minute_us) samples) ≤ max_pairs)
  fewer start from n h few =
      let same : from + suc n * minute_us ≡ from + minute_us + n * minute_us = omega arith in
      let few' : length (select target start (from + minute_us + n * minute_us) samples)
          ≤ max_pairs =
        subst (λ (t : ℕ). length (select target start t samples) ≤ max_pairs) same few in
      let split =
        length-select target start (from + minute_us) (from + minute_us + n * minute_us) samples
          (omega arith) (omega arith) in
      (omega (arith, split, few'), few')

  add_rollups-gathered :
      (start from n : ℕ) (rs : List PingRollup)
      → start ≤ from
      → length (select target start (from + n * minute_us) samples) ≤ max_pairs
      → IsRolled from n rs
      → add_rollups (gathered start from) rs ≡ ok (gathered start (from + n * minute_us))
  unfolding add_rollups
  add_rollups-gathered start _ _ _ h few (finished from) =
      ap (λ (t : ℕ). ok (gathered start t)) (omega arith)
  add_rollups-gathered start _ _ _ h few (stored from n as_of rs more) =
      let (now, later) = fewer start from n h few in
      rw (add_rollups, add_rollup-gathered start from as_of h now)
        (add_rollups-gathered start (from + minute_us) n rs (omega arith) later more
          ∙ ap (λ (t : ℕ). ok (gathered start t)) (omega arith))
  add_rollups-gathered start _ _ _ h few (quiet from n rs none_rows none_missed more) =
      let (now, later) = fewer start from n h few in
      rw (gathered-quiet start from h now none_rows none_missed) (
        add_rollups-gathered start (from + minute_us) n rs (omega arith) later more
        ∙ ap (λ (t : ℕ). ok (gathered start t)) (omega arith))

  -- The hour of the rollups is the aggregate of all rows and gaps of the hour.
  pub aggregate_hour-aggregate_raw :
      (start n : ℕ) (rs : List PingRollup)
      → IsRolled start n rs
      → length (select target start (start + n * minute_us) samples) ≤ max_pairs
      → aggregate_hour rs
        ≡ ok (aggregate_raw floats samples gaps target start (start + n * minute_us))
  unfolding aggregate_hour
  aggregate_hour-aggregate_raw start n rs rolled few =
      let all = add_rollups-gathered start start n rs (omega arith) few rolled in
      let from_empty : add_rollups empty rs ≡ ok (gathered start (start + n * minute_us)) =
        ap (λ (a : PingAggregate). add_rollups a rs) (sym (gathered_none start)) ∙ all in
      rw (aggregate_hour, from_empty, aggregate_raw-gathered start (start + n * minute_us)) refl
