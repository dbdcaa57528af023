-- ===== src/Store/Pings/Counts.antt =====
-- internal/store/sqlite/rollup.go: the counts of an aggregate against one another.
use flameping.Prelude.{ℕ, ◌+◌, ◌≤◌, ◌≡◌, refl, List, [], ◌∷◌, arith, length}
use flameping.Histogram.{Floats}
use flameping.Store.Pings.{
  GapRow, PingAggregate, PingSample, add_row, add_rows, add_sent, aggregate_raw, empty, observe_rtt,
  observe_timeout, select, settle_min,
}

-- Every attempt is sent or failed, and every sent probe is answered on time, late or not at all; a
-- round trip is counted for replies only.
pub record AddsUp (a : PingAggregate) : Type 0 where
  pub attempts : a.attempted ≡ a.sent + a.send_error
  pub sent_probes : a.sent ≡ a.on_time + a.late + a.unanswered
  pub round_trips : a.rtt_count ≤ a.on_time + a.late

add_row-AddsUp :
    (floats : Floats) (a : PingAggregate) (x : PingSample) → AddsUp a → AddsUp (add_row floats a x)
unfolding add_row observe_timeout add_sent observe_rtt
add_row-AddsUp floats a x v = ground (arith, v.attempts, v.sent_probes, v.round_trips)

add_row-attempted :
    (floats : Floats) (a : PingAggregate) (x : PingSample)
    → (add_row floats a x).attempted ≡ a.attempted + 1
unfolding add_row observe_timeout add_sent observe_rtt
add_row-attempted floats a x = ground arith

add_rows-AddsUp :
    (floats : Floats) (a : PingAggregate) (xs : List PingSample)
    → AddsUp a
    → AddsUp (add_rows floats a xs) × ((add_rows floats a xs).attempted ≡ a.attempted + length xs)
unfolding add_rows
add_rows-AddsUp floats a [] v = (v, omega arith)
add_rows-AddsUp floats a (x ∷ xs) v =
    let (w, n) = add_rows-AddsUp floats (add_row floats a x) xs (add_row-AddsUp floats a x v) in
    (w, omega (arith, n, add_row-attempted floats a x))

-- The counts that a rollup of any range of a target has: one attempt for each row, and the missed
-- slots on top of them.
pub aggregate_raw-AddsUp :
    (floats : Floats) (samples : List PingSample) (gaps : List GapRow) (target start end : ℕ)
    → let a = aggregate_raw floats samples gaps target start end in
      AddsUp a
      × (a.attempted ≡ length (select target start end samples))
      × (a.scheduled ≡ a.attempted + a.scheduler_missed)
unfolding aggregate_raw settle_min empty
aggregate_raw-AddsUp floats samples gaps target start end =
    let (v, n) =
      add_rows-AddsUp floats empty (select target start end samples)
        (record { attempts = refl; sent_probes = refl; round_trips = omega arith }) in
    ground (arith, v.attempts, v.sent_probes, v.round_trips, n)
