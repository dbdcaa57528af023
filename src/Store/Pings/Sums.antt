-- ===== src/Store/Pings/Sums.antt =====
-- internal/store/sqlite/rollup.go: aggregates of rows add up, in any order of the rows.
use flameping.Prelude.{
  ℕ, ◌+◌, ◌^◌, ◌≤◌, ◌<◌, ◌≡◌, refl, ltb, ◌==◌, if◌then◌else◌, Option, none, some, arith,
}
use flameping.Histogram.{Floats, merge, u64}
use flameping.Histogram.Invariant.{IsValid, new-IsValid}
use flameping.Histogram.Canonical.{merge_comm, observe-merge}
use flameping.Store.Pings.{PingAggregate, empty, max_int64, observe_rtt, observe_timeout}

-- What holds of an aggregate between two rows.
pub record IsTallied (a : PingAggregate) : Type 0 where
  pub hist_valid : IsValid a.hist
  pub rtt_counted : a.hist.count ≡ a.rtt_count
  pub sum_fits : a.rtt_sum < 2 ^ 64
  pub min_fits : a.rtt_min ≤ max_int64
  pub none_seen : a.rtt_count ≡ 0 → (a.rtt_min ≡ max_int64) × (a.rtt_max ≡ 0)
  pub timeouts_ordered : a.timeout_min ≤ a.timeout_max
  pub no_timeout : a.timeout_min ≡ 0 → a.timeout_max ≡ 0

unfoldable pub lesser : ℕ → ℕ → ℕ
lesser m n = if ltb n m then n else m

unfoldable pub greater : ℕ → ℕ → ℕ
greater m n = if ltb m n then n else m

-- 0 stands for no timeout.
unfoldable pub lesser_timeout : ℕ → ℕ → ℕ
unfolding lesser
lesser_timeout m n = if n == 0 then m else if m == 0 then n else lesser m n

lesser_comm : (m n : ℕ) → lesser m n ≡ lesser n m
unfolding lesser
lesser_comm m n = ground arith

greater_comm : (m n : ℕ) → greater m n ≡ greater n m
unfolding greater
greater_comm m n = ground arith

lesser_timeout_comm : (m n : ℕ) → lesser_timeout m n ≡ lesser_timeout n m
unfolding lesser_timeout
lesser_timeout_comm m n = ground (arith, lesser_comm m n)

-- One more value on the left of a sum.
lesser-seen :
    (m n v : ℕ)
    → (if ltb v (lesser m n) then v else lesser m n) ≡ lesser (if ltb v m then v else m) n
unfolding lesser
lesser-seen m n v = ground arith

greater-seen :
    (m n v : ℕ)
    → (if ltb (greater m n) v then v else greater m n) ≡ greater (if ltb m v then v else m) n
unfolding greater
greater-seen m n v = ground arith

-- Two aggregates of different rows, taken together.
unfoldable pub plus : PingAggregate → PingAggregate → PingAggregate
plus a b = record {
  scheduled = a.scheduled + b.scheduled;
  attempted = a.attempted + b.attempted;
  sent = a.sent + b.sent;
  on_time = a.on_time + b.on_time;
  late = a.late + b.late;
  unanswered = a.unanswered + b.unanswered;
  send_error = a.send_error + b.send_error;
  scheduler_missed = a.scheduler_missed + b.scheduler_missed;
  rtt_count = a.rtt_count + b.rtt_count;
  rtt_sum = u64 (a.rtt_sum + b.rtt_sum);
  rtt_min = lesser a.rtt_min b.rtt_min;
  rtt_max = greater a.rtt_max b.rtt_max;
  timeout_min = lesser_timeout a.timeout_min b.timeout_min;
  timeout_max = greater a.timeout_max b.timeout_max;
  hist = merge a.hist b.hist;
}

-- Both histograms and `n` more values can be counted in 64 bits.
abbrev pub HasRoom : PingAggregate → PingAggregate → ℕ → Type 0
HasRoom a b n = a.hist.count + b.hist.count + n < 2 ^ 64

pub empty-IsTallied : IsTallied empty
unfolding empty
empty-IsTallied = ground (arith, new-IsValid)

pub plus_comm :
    (a b : PingAggregate) → IsTallied a → IsTallied b → HasRoom a b 0 → plus a b ≡ plus b a
unfolding plus
plus_comm a b v w room = ground (
  arith,
  merge_comm a.hist b.hist v.hist_valid w.hist_valid (omega arith),
  lesser_comm a.rtt_min b.rtt_min,
  greater_comm a.rtt_max b.rtt_max,
  lesser_timeout_comm a.timeout_min b.timeout_min,
  greater_comm a.timeout_max b.timeout_max,
)

pub observe_timeout-plus :
    (a b : PingAggregate) (t : ℕ) → observe_timeout (plus a b) t ≡ plus (observe_timeout a t) b
unfolding observe_timeout plus lesser_timeout lesser greater
observe_timeout-plus a b t = ground arith

pub observe_rtt-plus :
    (floats : Floats) (a b : PingAggregate) (rtt : Option ℕ)
    → IsTallied a
    → IsTallied b
    → HasRoom a b 1
    → observe_rtt floats (plus a b) rtt ≡ plus (observe_rtt floats a rtt) b
unfolding observe_rtt plus
observe_rtt-plus floats a b none v w room = refl
observe_rtt-plus floats a b (some rtt) v w room = ground (
  arith,
  observe-merge floats a.hist b.hist rtt v.hist_valid w.hist_valid room,
  lesser-seen a.rtt_min b.rtt_min rtt,
  greater-seen a.rtt_max b.rtt_max rtt,
)
