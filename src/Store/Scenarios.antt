-- ===== src/Store/Scenarios.antt =====
-- A store with one target, tests of its operations, and the theorems at them. The float functions are
-- linear ones.
use flameping.Prelude.{
  ℕ, All, ◌-◌, ◌+◌, ◌*◌, ◌/◌, ◌≡◌, refl, List, [], ◌∷◌, true, false, some, arith, length,
}
use flameping.Prelude.Int.{pos}
use flameping.Histogram.{Floats}
use flameping.Histogram.Codec.{ok}
use flameping.Store.Fresh.{IsSound}
use flameping.Store.Fresh.Reach.{
  Reaches, Reaches-IsSound, at_start, batch, minute_done, new_database, recompute_ping_hour-Reaches,
  stage_done,
}
use flameping.Store.Fresh.Spared.{prune_with_raw-aggregate_raw, prune_with_raw-minutes_between}
use flameping.Store.Interfaces.{
  InterfaceAggregate, InterfaceRow, add_deltas, add_interface_row, add_interface_rows,
  aggregate_interface_rows, counter, interface_rate, no_interface, peak, summed, with_pair,
  zero_counters,
}
use flameping.Store.Interfaces.Telescope.{IsFull, IsSteady, aggregate_interface_rows_lem}
use flameping.Store.Periodic.{count_periodic, count_periodic-slots, numbers, quotient, slots}
use flameping.Store.Pings.{aggregate_raw, hour_us, is_between, minute_us, select}
use flameping.Store.Pings.Counts.{AddsUp, aggregate_raw-AddsUp}
use flameping.Store.Pings.Rollup.{rollup}
use flameping.Store.Recompute.{
  any_dirty_minute, any_pending, delete_dirty, has_bucket, is_before, is_pending, minutes_between,
  recompute_ping_hour, recompute_ping_minute, store_ping_aggregate, upsert,
}
use flameping.Store.Retention.{
  count, delete_oldest, has_rollup, is_spent_row, prune_stage, raw_rows, prune_with_raw,
}
use flameping.Store.Writer.{
  Database, ProbeInsert, ProbeReply, apply_reply, apply_to, bucket_unix_micro, find_sample, has_key,
  is_dirty, is_unanswered, mark_dirty, minute_bucket, ping_hour, ping_minute, record_reply, replied,
  same_key, same_kind, update_sample,
}
use flameping.Store.Writer.Batch.{
  Event, SchedulerGap, WriterState, apply_event, apply_events, apply_retained_batch, bind_done,
  delete_orphan, find_orphan, finish_orphan, first_us, gap_row, insert_gap, insert_probe,
  insert_row, is_pruned, keep_reply, last_us, mark_minutes, new_row, probe_reply, probe_sent,
  record_missed, record_probe, release_orphan, scheduler_gap, settle_batch, take_reply,
}

abbrev linear : Floats
linear = record { log_floor = λ v. pos (v / 1000); exp_floor = λ i. i; exp_round = λ i. i }

-- Slots at 10, 14, 18, 22, 26, of which three lie from 12 on and before 23.
counted_slots : count_periodic 10 4 5 12 23 ≡ 3
unfolding count_periodic numbers quotient
counted_slots = refl

count_periodic-slots_example : count_periodic 10 4 5 12 23 ≡ slots 10 4 5 12 23
count_periodic-slots_example = count_periodic-slots 10 4 5 12 23 (omega arith) (omega arith)

-- A probe of the first hour's second minute, its reply, and a gap of two slots in the fourth minute.
abbrev probe : ProbeInsert
probe = record {
  run_id = 7;
  sequence = 1;
  target_id = 3;
  endpoint = some 9;
  scheduled_at_us = 61000000;
  sent_at_us = 61000100;
  timeout_ns = 1000000000;
  is_send_error = false;
}

abbrev reply : ProbeReply
reply = record {
  run_id = 7;
  sequence = 1;
  responder = 9;
  sent_at_us = some 61000100;
  reply_at_us = 61020100;
  rtt_ns = 20000;
  is_late = false;
}

abbrev gap : SchedulerGap
gap = record {
  target_id = 3;
  first_scheduled_ns = 200000000000;
  interval_ns = 1000000000;
  missed_count = 2;
}

-- The reply comes first.
abbrev events : List Event
events = probe_reply reply ∷ probe_sent probe ∷ scheduler_gap gap ∷ []

abbrev after_batch : WriterState
after_batch = (apply_retained_batch 0 5 (new_database, []) events).0

abbrev after_first : WriterState
after_first = (
  recompute_ping_minute linear after_batch.0 (ping_minute 3 (1 * minute_us)) hour_us,
  after_batch.1,
)

abbrev after_second : WriterState
after_second = (
  recompute_ping_minute linear after_first.0 (ping_minute 3 (3 * minute_us)) hour_us,
  after_first.1,
)

after_second-Reaches : Reaches linear 0 after_second
after_second-Reaches =
    minute_done after_first 3 3 hour_us
      (minute_done after_batch 3 1 hour_us (batch 0 5 (new_database, []) events at_start))

-- Both minutes are rolled up, and the row of the first is pruned.
abbrev after_prune : WriterState
after_prune = (prune_stage raw_rows (2 * minute_us) after_second.0, after_second.1)

after_prune-Reaches : Reaches linear (2 * minute_us) after_prune
after_prune-Reaches =
    stage_done after_second raw_rows (2 * minute_us)
      (minute_done after_first 3 3 hour_us
        (minute_done after_batch 3 1 hour_us (batch 0 5 (new_database, []) events at_start)))
      (omega arith)

Reaches-IsSound_example : IsSound linear (2 * minute_us) after_prune.0
Reaches-IsSound_example = Reaches-IsSound linear (2 * minute_us) after_prune after_prune-Reaches

-- Both minutes of the batch are marked, and no minute is once both are stored.
marked : any_dirty_minute 3 0 hour_us after_batch.0.dirty_rollups ≡ true
unfolding any_dirty_minute apply_retained_batch settle_batch apply_events apply_event bind_done
    take_reply apply_reply find_sample keep_reply is_pruned delete_orphan insert_probe insert_row
    record_probe new_row mark_dirty is_dirty same_key same_kind release_orphan find_orphan has_key
    apply_to is_unanswered record_reply update_sample replied finish_orphan insert_gap record_missed
    mark_minutes gap_row first_us last_us minute_bucket bucket_unix_micro
marked = refl

clean : any_dirty_minute 3 0 hour_us after_second.0.dirty_rollups ≡ false
unfolding any_dirty_minute apply_retained_batch settle_batch apply_events apply_event bind_done
    take_reply apply_reply find_sample keep_reply is_pruned delete_orphan insert_probe insert_row
    record_probe new_row mark_dirty is_dirty same_key same_kind release_orphan find_orphan has_key
    apply_to is_unanswered record_reply update_sample replied finish_orphan insert_gap record_missed
    mark_minutes gap_row first_us last_us minute_bucket bucket_unix_micro recompute_ping_minute
    any_pending is_pending is_between store_ping_aggregate delete_dirty
clean = refl

one_row : length (select 3 0 hour_us after_second.0.ping_samples) ≡ 1
unfolding any_dirty_minute apply_retained_batch settle_batch apply_events apply_event bind_done
    take_reply apply_reply find_sample keep_reply is_pruned delete_orphan insert_probe insert_row
    record_probe new_row mark_dirty is_dirty same_key same_kind release_orphan find_orphan has_key
    apply_to is_unanswered record_reply update_sample replied finish_orphan insert_gap record_missed
    mark_minutes gap_row first_us last_us minute_bucket bucket_unix_micro recompute_ping_minute
    any_pending is_pending is_between store_ping_aggregate delete_dirty select upsert
one_row = refl

abbrev hour_stored : Database
hour_stored =
    store_ping_aggregate after_second.0 (ping_hour 3 (0 * hour_us))
      (aggregate_raw linear after_second.0.ping_samples after_second.0.scheduler_gaps 3
        (0 * hour_us) (0 * hour_us + hour_us))
      hour_us false

recompute_ping_hour-Reaches_example :
    recompute_ping_hour after_second.0 (ping_hour 3 (0 * hour_us)) hour_us ≡ ok hour_stored
recompute_ping_hour-Reaches_example =
    recompute_ping_hour-Reaches linear 0 after_second 3 0 hour_us after_second-Reaches (omega arith)
      (omega arith) clean (omega (arith, one_row))

-- The first minute is dirty after the batch, and the hour once both minutes are rolled up.
dirty_first : is_dirty (ping_minute 3 (1 * minute_us)) after_batch.0.dirty_rollups ≡ true
unfolding any_dirty_minute apply_retained_batch settle_batch apply_events apply_event bind_done
    take_reply apply_reply find_sample keep_reply is_pruned delete_orphan insert_probe insert_row
    record_probe new_row mark_dirty is_dirty same_key same_kind release_orphan find_orphan has_key
    apply_to is_unanswered record_reply update_sample replied finish_orphan insert_gap record_missed
    mark_minutes gap_row first_us last_us minute_bucket bucket_unix_micro
dirty_first = refl

dirty_hour : is_dirty (ping_hour 3 (0 * hour_us)) after_second.0.dirty_rollups ≡ true
unfolding any_dirty_minute apply_retained_batch settle_batch apply_events apply_event bind_done
    take_reply apply_reply find_sample keep_reply is_pruned delete_orphan insert_probe insert_row
    record_probe new_row mark_dirty is_dirty same_key same_kind release_orphan find_orphan has_key
    apply_to is_unanswered record_reply update_sample replied finish_orphan insert_gap record_missed
    mark_minutes gap_row first_us last_us minute_bucket bucket_unix_micro recompute_ping_minute
    any_pending is_pending is_between store_ping_aggregate delete_dirty
dirty_hour = refl

prune_with_raw-aggregate_raw_example :
    let db' = prune_with_raw hour_us 0 0 after_batch.0 in
    let start : ℕ = 1 * minute_us in
    aggregate_raw linear db'.ping_samples db'.scheduler_gaps 3 start (start + minute_us)
    ≡ aggregate_raw linear after_batch.0.ping_samples after_batch.0.scheduler_gaps 3 start
        (start + minute_us)
prune_with_raw-aggregate_raw_example =
    prune_with_raw-aggregate_raw linear hour_us 0 0 3 1 after_batch.0 dirty_first

prune_with_raw-minutes_between_example :
    minutes_between 3
      (0 * hour_us)
      (0 * hour_us + hour_us)
      (prune_with_raw hour_us hour_us 0 after_second.0).ping_rollups
    ≡ minutes_between 3 (0 * hour_us) (0 * hour_us + hour_us) after_second.0.ping_rollups
prune_with_raw-minutes_between_example =
    prune_with_raw-minutes_between hour_us hour_us 0 3 0 after_second.0 dirty_hour

-- The clean minute's row is pruned, the dirty minute's row is not.
rows_before : length after_second.0.ping_samples ≡ 1
unfolding any_dirty_minute apply_retained_batch settle_batch apply_events apply_event bind_done
    take_reply apply_reply find_sample keep_reply is_pruned delete_orphan insert_probe insert_row
    record_probe new_row mark_dirty is_dirty same_key same_kind release_orphan find_orphan has_key
    apply_to is_unanswered record_reply update_sample replied finish_orphan insert_gap record_missed
    mark_minutes gap_row first_us last_us minute_bucket bucket_unix_micro recompute_ping_minute
    any_pending is_pending is_between store_ping_aggregate delete_dirty
rows_before = refl

rows_after : length after_prune.0.ping_samples ≡ 0
unfolding any_dirty_minute apply_retained_batch settle_batch apply_events apply_event bind_done
    take_reply apply_reply find_sample keep_reply is_pruned delete_orphan insert_probe insert_row
    record_probe new_row mark_dirty is_dirty same_key same_kind release_orphan find_orphan has_key
    apply_to is_unanswered record_reply update_sample replied finish_orphan insert_gap record_missed
    mark_minutes gap_row first_us last_us minute_bucket bucket_unix_micro recompute_ping_minute
    any_pending is_pending is_between store_ping_aggregate delete_dirty prune_stage delete_oldest
    is_spent_row has_rollup has_bucket upsert is_before rollup count
rows_after = refl

aggregate_raw-AddsUp_example :
    let a =
      aggregate_raw linear after_batch.0.ping_samples after_batch.0.scheduler_gaps 3 0 hour_us in
    AddsUp a
    × (a.attempted ≡ length (select 3 0 hour_us after_batch.0.ping_samples))
    × (a.scheduled ≡ a.attempted + a.scheduler_missed)
aggregate_raw-AddsUp_example =
    aggregate_raw-AddsUp linear after_batch.0.ping_samples after_batch.0.scheduler_gaps 3 0 hour_us

-- Fifteen counters, the first two of them the bytes.
abbrev bytes : ℕ → ℕ → List ℕ
bytes rx tx = rx ∷ tx ∷ zero_counters 13

abbrev first_row : InterfaceRow
first_row = record { at = 1000; counters = bytes 10 20 }

abbrev later_rows : List InterfaceRow
later_rows =
    record { at = 2000; counters = bytes 15 20 } ∷ record { at = 4000; counters = bytes 40 25 } ∷ []

later_rows-IsFull : All IsFull (first_row ∷ later_rows)
unfolding zero_counters
later_rows-IsFull = (refl, (refl, (refl, tt)))

abbrev per_second : ℕ → ℕ → ℕ
per_second delta elapsed = delta * 1000000 / elapsed

-- The peaks are 12500 and 2500 bytes a second.
peaks :
    aggregate_interface_rows per_second (first_row ∷ later_rows)
    ≡ summed (record {
      elapsed = 3000000;
      samples = 3;
      resets = 0;
      delta = bytes 30 5;
      peak_rx_bytes = 12500;
      peak_tx_bytes = 2500;
    })
unfolding aggregate_interface_rows add_interface_rows add_interface_row add_deltas with_pair
    interface_rate peak counter no_interface zero_counters
peaks = refl

aggregate_interface_rows_lem_example :
    (IsSteady first_row later_rows
      → (a : InterfaceAggregate) × (aggregate_interface_rows per_second (first_row ∷ later_rows)
          ≡ summed a))
    × ((a : InterfaceAggregate)
        → aggregate_interface_rows per_second (first_row ∷ later_rows) ≡ summed a
        → IsSteady first_row later_rows
          × (a.elapsed ≡ (4000 - 1000) * 1000)
          × (a.samples ≡ 3)
          × ((j : ℕ) → counter j a.delta + counter j first_row.counters ≡ counter j (bytes 40 25)))
aggregate_interface_rows_lem_example =
    aggregate_interface_rows_lem per_second first_row later_rows later_rows-IsFull
