-- ===== src/Store/Pings/Stored.antt =====
-- internal/store/sqlite/rollup.go: a rollup that is read back.
use flameping.Prelude.{ℕ, ◌+◌, ◌≤◌, ◌<◌, ◌≡◌, ltb, if◌then◌else◌, none, some, arith, length}
use flameping.Histogram.{u64}
use flameping.Histogram.Codec.{ok, max_pairs}
use flameping.Histogram.Codec.RoundTrip.{unmarshal-marshal}
use flameping.Histogram.Canonical.{merge-new}
use flameping.Store.Pings.{PingAggregate, empty, max_int64, observe_timeout, settle_min}
use flameping.Store.Pings.Rollup.{add_rollup, lower, raise, rollup}
use flameping.Store.Pings.Sums.{IsTallied, greater, lesser, lesser_timeout, plus}

-- An aggregate adds nothing where it has no rows.
pub plus-empty : (a : PingAggregate) → IsTallied a → plus a empty ≡ a
unfolding plus empty lesser greater lesser_timeout
plus-empty a v = ground (arith, merge-new a.hist v.hist_valid, v.min_fits, v.sum_fits)

-- Observing the shortest and the longest timeout of a minute is observing all its timeouts.
observe_both :
    (a : PingAggregate) (low high : ℕ)
    → low ≤ high
    → (low ≡ 0 → high ≡ 0)
    → observe_timeout (observe_timeout a low) high ≡ record a {
      timeout_min = lesser_timeout a.timeout_min low;
      timeout_max = greater a.timeout_max high;
    }
unfolding observe_timeout lesser greater lesser_timeout
observe_both a low high h k = ground arith

settle_none : (m : PingAggregate) → m.rtt_count ≡ 0 → settle_min m ≡ record m { rtt_min = 0 }
unfolding settle_min
settle_none m h = ground arith

settle_some : (m : PingAggregate) → 0 < m.rtt_count → settle_min m ≡ m
unfolding settle_min
settle_some m h = ground arith

-- The sums of the hour's loop over the counts.
abbrev counted : PingAggregate → PingAggregate → PingAggregate
counted a m = record a {
  scheduled = a.scheduled + m.scheduled;
  attempted = a.attempted + m.attempted;
  sent = a.sent + m.sent;
  on_time = a.on_time + m.on_time;
  late = a.late + m.late;
  unanswered = a.unanswered + m.unanswered;
  send_error = a.send_error + m.send_error;
  scheduler_missed = a.scheduler_missed + m.scheduler_missed;
  rtt_count = a.rtt_count + m.rtt_count;
  rtt_sum = u64 (a.rtt_sum + m.rtt_sum);
}

-- The smallest and the largest round trip come back from their columns.
lower-stored :
    (n : ℕ) (m : PingAggregate)
    → n ≤ max_int64
    → IsTallied m
    → lower n (if ltb 0 (settle_min m).rtt_count then some (settle_min m).rtt_min else none)
      ≡ lesser n m.rtt_min
unfolding lower settle_min lesser
lower-stored n m h w = ground (arith, w.none_seen)

raise-stored :
    (n : ℕ) (m : PingAggregate)
    → IsTallied m
    → raise n (if ltb 0 (settle_min m).rtt_count then some (settle_min m).rtt_max else none)
      ≡ greater n m.rtt_max
unfolding raise settle_min greater
raise-stored n m w = ground (arith, w.none_seen)

-- The other columns are not changed by the last step.
settled_columns : (m : PingAggregate) → settle_min m ≡ record m { rtt_min = (settle_min m).rtt_min }
unfolding settle_min
settled_columns m = ground arith

-- The hour's loop adds what was stored of a minute, as if it had the aggregate itself.
pub add_rollup-rollup :
    (a m : PingAggregate) (target resolution bucket as_of : ℕ)
    → IsTallied a
    → IsTallied m
    → length m.hist.buckets ≤ max_pairs
    → add_rollup a (rollup target resolution bucket (settle_min m) as_of) ≡ ok (plus a m)
unfolding add_rollup rollup plus
add_rollup-rollup a m target resolution bucket as_of v w few = ground (
  arith,
  settled_columns m,
  lower-stored a.rtt_min m v.min_fits w,
  raise-stored a.rtt_max m w,
  unmarshal-marshal m.hist w.hist_valid few,
  observe_both (counted a m) m.timeout_min m.timeout_max w.timeouts_ordered w.no_timeout,
)
