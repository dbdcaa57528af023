-- ===== src/Store/Pings.antt =====
-- internal/store/sqlite/rollup.go: the rollups of a target's minutes and hours. The rows are those of
-- migrations/0001_core.sql that the rollups read. A duration there is not negative, a timeout and a
-- step are positive. The sum of round trips is kept as the 64 bits of the int64 that it wraps to; the
-- other counts are numbers of rows or of slots, far below 2^63.
pub mod Rollup
pub mod Sums
pub mod Steps
pub mod Ranges
pub mod Stored
pub mod Missed
pub mod Hours
pub mod Counts
use flameping.Prelude.{
  ℕ, ◌+◌, ◌-◌, ◌*◌, ◌/◌, ◌%◌, ◌^◌, List, [], ◌∷◌, Bool, true, false, ltb, leb, ◌==◌, ◌&&◌, not,
  if◌then◌else◌, Option, none, some,
}
use flameping.Histogram.{Histogram, Floats, new, observe, merge, u64}
use flameping.Histogram.Codec.{Result, ok, err, marshal, unmarshal}
use flameping.Store.Periodic.{count_periodic}

abbrev pub max_int64 : ℕ
max_int64 = 2 ^ 63 - 1

-- Microseconds.
abbrev pub minute_us : ℕ
minute_us = 60000000

abbrev pub hour_us : ℕ
hour_us = 3600000000

-- A row of ping_samples. In place of its `endpoint_id` stands that endpoint's address.
pub record PingSample : Type 0 where
  pub run_id : ℕ
  pub sequence : ℕ
  pub target_id : ℕ
  pub address : ℕ
  pub scheduled_at_us : ℕ
  pub sent_at_us : ℕ
  pub timeout_ns : ℕ
  -- `local_outcome` is not NULL.
  pub is_local : Bool
  pub reply_at_us : Option ℕ
  pub rtt_ns : Option ℕ
  -- `reply_class` is "late".
  pub is_late : Bool
  pub duplicate_count : ℕ

pub record GapRow : Type 0 where
  pub target_id : ℕ
  pub first_scheduled_at_us : ℕ
  pub interval_ns : ℕ
  pub missed_count : ℕ

pub record PingAggregate : Type 0 where
  pub scheduled : ℕ
  pub attempted : ℕ
  pub sent : ℕ
  pub on_time : ℕ
  pub late : ℕ
  pub unanswered : ℕ
  pub send_error : ℕ
  pub scheduler_missed : ℕ
  pub rtt_count : ℕ
  pub rtt_sum : ℕ
  pub rtt_min : ℕ
  pub rtt_max : ℕ
  pub timeout_min : ℕ
  pub timeout_max : ℕ
  pub hist : Histogram

-- `pingAggregate{hist: histogram.New(), rttMin: math.MaxInt64}`.
unfoldable pub empty : PingAggregate
unfolding new
empty = record {
  scheduled = 0;
  attempted = 0;
  sent = 0;
  on_time = 0;
  late = 0;
  unanswered = 0;
  send_error = 0;
  scheduler_missed = 0;
  rtt_count = 0;
  rtt_sum = 0;
  rtt_min = max_int64;
  rtt_max = 0;
  timeout_min = 0;
  timeout_max = 0;
  hist = new;
}

-- `WHERE target_id=? AND scheduled_at_us>=? AND scheduled_at_us<?`.
unfoldable pub is_between : ℕ → ℕ → ℕ → PingSample → Bool
is_between target start end x =
    (target == x.target_id) && leb start x.scheduled_at_us && ltb x.scheduled_at_us end

unfoldable pub select : ℕ → ℕ → ℕ → List PingSample → List PingSample
unfolding is_between
select target start end [] = []
select target start end (x ∷ xs) =
    if is_between target start end x
    then x ∷ select target start end xs
    else select target start end xs

unfoldable pub observe_timeout : PingAggregate → ℕ → PingAggregate
observe_timeout a timeout = if timeout == 0 then a else record a {
  timeout_min =
      if a.timeout_min == 0
      then timeout
      else if ltb timeout a.timeout_min
      then timeout
      else a.timeout_min;
  timeout_max = if ltb a.timeout_max timeout then timeout else a.timeout_max;
}

module _ (floats : Floats) where
  unfoldable pub observe_rtt : PingAggregate → Option ℕ → PingAggregate
  observe_rtt a none = a
  observe_rtt a (some rtt) = record a {
    rtt_count = a.rtt_count + 1;
    rtt_sum = u64 (a.rtt_sum + rtt);
    rtt_min = if ltb rtt a.rtt_min then rtt else a.rtt_min;
    rtt_max = if ltb a.rtt_max rtt then rtt else a.rtt_max;
    hist = observe floats a.hist rtt;
  }

  -- A row whose probe was sent.
  unfoldable pub add_sent : PingAggregate → PingSample → PingAggregate
  unfolding observe_rtt
  add_sent a x = elim x.reply_at_us [
    | none ↦ record a { unanswered = a.unanswered + 1 }
    | some at ↦
        observe_rtt
          (if x.is_late
            then record a { late = a.late + 1 }
            else record a { on_time = a.on_time + 1 })
          x.rtt_ns
  ]

  -- One round of the loop over the rows.
  unfoldable pub add_row : PingAggregate → PingSample → PingAggregate
  unfolding observe_timeout add_sent
  add_row a x =
      let b = observe_timeout (record a { attempted = a.attempted + 1 }) x.timeout_ns in
      if x.is_local
      then record b { send_error = b.send_error + 1 }
      else add_sent (record b { sent = b.sent + 1 }) x

  unfoldable pub add_rows : PingAggregate → List PingSample → PingAggregate
  unfolding add_row
  add_rows a [] = a
  add_rows a (x ∷ xs) = add_rows (add_row a x) xs

-- The slots of one gap that the minute takes in, under the query's two conditions.
unfoldable pub missed_slots : ℕ → ℕ → ℕ → GapRow → ℕ
missed_slots target start end g =
    let step = g.interval_ns / 1000 in
    if (target == g.target_id)
      && ltb g.first_scheduled_at_us end
      && leb start (g.first_scheduled_at_us + (g.missed_count - 1) * step)
    then count_periodic g.first_scheduled_at_us step g.missed_count start end
    else 0

unfoldable pub add_gaps : ℕ → ℕ → ℕ → ℕ → List GapRow → ℕ
unfolding missed_slots
add_gaps target start end missed [] = missed
add_gaps target start end missed (g ∷ gs) =
    add_gaps target start end (missed + missed_slots target start end g) gs

-- `if agg.rttCount == 0 { agg.rttMin = 0 }`.
unfoldable pub settle_min : PingAggregate → PingAggregate
settle_min a = if a.rtt_count == 0 then record a { rtt_min = 0 } else a

unfoldable pub aggregate_raw : Floats → List PingSample → List GapRow → ℕ → ℕ → ℕ → PingAggregate
aggregate_raw floats samples gaps target start end =
    let a = add_rows floats empty (select target start end samples) in
    let missed = add_gaps target start end a.scheduler_missed gaps in
    settle_min (record a { scheduler_missed = missed; scheduled = a.attempted + missed })
