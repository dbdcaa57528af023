-- ===== src/Store/Pings/Rollup.antt =====
-- internal/store/sqlite/rollup.go: the row of ping_rollups, and the hour from the rows of its minutes.
use flameping.Prelude.{ℕ, ◌+◌, List, [], ◌∷◌, ltb, if◌then◌else◌, Option, none, some}
use flameping.Histogram.{merge, u64}
use flameping.Histogram.Codec.{Result, ok, err, marshal, unmarshal}
use flameping.Store.Pings.{PingAggregate, empty, observe_timeout, settle_min}

pub record PingRollup : Type 0 where
  pub target_id : ℕ
  pub resolution_s : ℕ
  pub bucket_start_us : ℕ
  pub scheduled_count : ℕ
  pub attempted_count : ℕ
  pub sent_count : ℕ
  pub on_time_count : ℕ
  pub late_count : ℕ
  pub unanswered_count : ℕ
  pub send_error_count : ℕ
  pub scheduler_missed_count : ℕ
  pub rtt_count : ℕ
  pub rtt_sum_ns : ℕ
  pub rtt_min_ns : Option ℕ
  pub rtt_max_ns : Option ℕ
  pub histogram : List ℕ
  pub updated_at_us : ℕ
  pub timeout_min_ns : ℕ
  pub timeout_max_ns : ℕ

-- The row that `storePingAggregate` writes.
unfoldable pub rollup : ℕ → ℕ → ℕ → PingAggregate → ℕ → PingRollup
rollup target resolution bucket a as_of = record {
  target_id = target;
  resolution_s = resolution;
  bucket_start_us = bucket;
  scheduled_count = a.scheduled;
  attempted_count = a.attempted;
  sent_count = a.sent;
  on_time_count = a.on_time;
  late_count = a.late;
  unanswered_count = a.unanswered;
  send_error_count = a.send_error;
  scheduler_missed_count = a.scheduler_missed;
  rtt_count = a.rtt_count;
  rtt_sum_ns = a.rtt_sum;
  rtt_min_ns = if ltb 0 a.rtt_count then some a.rtt_min else none;
  rtt_max_ns = if ltb 0 a.rtt_count then some a.rtt_max else none;
  histogram = marshal a.hist;
  updated_at_us = as_of;
  timeout_min_ns = a.timeout_min;
  timeout_max_ns = a.timeout_max;
}

-- `if min.Valid && min.Int64 < agg.rttMin`, and the same for the largest.
unfoldable pub lower : ℕ → Option ℕ → ℕ
lower n none = n
lower n (some v) = if ltb v n then v else n

unfoldable pub raise : ℕ → Option ℕ → ℕ
raise n none = n
raise n (some v) = if ltb n v then v else n

-- One round of the hour's loop over the rollups of its minutes.
unfoldable pub add_rollup : PingAggregate → PingRollup → Result PingAggregate
unfolding observe_timeout lower raise
add_rollup a r =
    let b = record a {
      scheduled = a.scheduled + r.scheduled_count;
      attempted = a.attempted + r.attempted_count;
      sent = a.sent + r.sent_count;
      on_time = a.on_time + r.on_time_count;
      late = a.late + r.late_count;
      unanswered = a.unanswered + r.unanswered_count;
      send_error = a.send_error + r.send_error_count;
      scheduler_missed = a.scheduler_missed + r.scheduler_missed_count;
      rtt_count = a.rtt_count + r.rtt_count;
      rtt_sum = u64 (a.rtt_sum + r.rtt_sum_ns);
    } in
    let c = observe_timeout (observe_timeout b r.timeout_min_ns) r.timeout_max_ns in
    let d = record c {
      rtt_min = lower c.rtt_min r.rtt_min_ns;
      rtt_max = raise c.rtt_max r.rtt_max_ns;
    } in
    elim (unmarshal r.histogram) [ err e ↦ err e | ok h ↦ ok (record d { hist = merge d.hist h }) ]

unfoldable pub add_rollups : PingAggregate → List PingRollup → Result PingAggregate
add_rollups a [] = ok a
add_rollups a (r ∷ rs) = elim (add_rollup a r) [ err e ↦ err e | ok b ↦ add_rollups b rs ]

-- What `recomputePingHour` stores for these rollups.
unfoldable pub aggregate_hour : List PingRollup → Result PingAggregate
aggregate_hour rows = elim (add_rollups empty rows) [ err e ↦ err e | ok a ↦ ok (settle_min a) ]
