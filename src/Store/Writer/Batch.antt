-- ===== src/Store/Writer/Batch.antt =====
-- internal/store/sqlite/writer.go: batches of events, with the replies that come before their rows.
use flameping.Prelude.{
  ℕ, zero, suc, ◌+◌, ◌-◌, ◌*◌, ◌/◌, List, [], ◌∷◌, ◌++◌, Bool, true, false, ltb, leb, ◌==◌, ◌&&◌,
  ◌||◌, if◌then◌else◌, Option, none, some, length,
}
use flameping.Store.Pings.{GapRow, PingSample, max_int64, minute_us}
use flameping.Store.Writer.{
  Applied, Database, DirtyKey, ProbeInsert, ProbeReply, StoreError, apply_reply, done,
  duplicate_key, failed, find_sample, invalid_endpoint, invalid_gap, mark_dirty, minute_bucket,
  orphan_without_row, ping_minute, sequence_out_of_range, too_many_orphans,
}

pub record Orphan : Type 0 where
  pub event : ProbeReply
  pub added_at : ℕ

-- The orphans, by the key of their probe.
unfoldable pub find_orphan : ℕ → ℕ → List Orphan → Option Orphan
find_orphan run sequence [] = none
find_orphan run sequence (o ∷ os) =
    if (run == o.event.run_id) && (sequence == o.event.sequence)
    then some o
    else find_orphan run sequence os

unfoldable pub delete_orphan : ℕ → ℕ → List Orphan → List Orphan
delete_orphan run sequence [] = []
delete_orphan run sequence (o ∷ os) =
    let rest = delete_orphan run sequence os in
    if (run == o.event.run_id) && (sequence == o.event.sequence) then rest else o ∷ rest

unfoldable pub new_row : ProbeInsert → ℕ → PingSample
new_row p address = record {
  run_id = p.run_id;
  sequence = p.sequence;
  target_id = p.target_id;
  address = address;
  scheduled_at_us = p.scheduled_at_us;
  sent_at_us = p.sent_at_us;
  timeout_ns = p.timeout_ns;
  is_local = p.is_send_error;
  reply_at_us = none;
  rtt_ns = none;
  is_late = false;
  duplicate_count = 0;
}

abbrev pub WriterState : Type 0
WriterState = Database × List Orphan

unfoldable pub bind_done : {A B : Type 0} → Applied A → (A → Applied B) → Applied B
bind_done (done a) next = next a
bind_done (failed e) next = failed e

-- The end of `insertProbe`: a reply that came before the row.
unfoldable pub finish_orphan : List Orphan → ProbeInsert → Database × Bool → Applied WriterState
unfolding delete_orphan
finish_orphan orphans p (db, true) = done (db, delete_orphan p.run_id p.sequence orphans)
finish_orphan orphans p (db, false) = failed orphan_without_row

unfoldable pub release_orphan : Database → List Orphan → ProbeInsert → Applied WriterState
release_orphan db orphans p = elim (find_orphan p.run_id p.sequence orphans) [
  | none ↦ done (db, orphans)
  | some o ↦ bind_done (apply_reply db o.event) (finish_orphan orphans p)
]

-- The row and its mark.
unfoldable pub record_probe : Database → PingSample → Database
unfolding minute_bucket mark_dirty
record_probe db x = record db {
  ping_samples = db.ping_samples ++ x ∷ [];
  dirty_rollups =
      mark_dirty (ping_minute x.target_id (minute_bucket x.scheduled_at_us)) db.dirty_rollups;
}

-- The primary key refuses a second row of one probe.
unfoldable pub insert_row : Database → ProbeInsert → ℕ → Applied Database
unfolding new_row
insert_row db p address = elim (find_sample p.run_id p.sequence db.ping_samples) [
  | some x ↦ failed duplicate_key
  | none ↦ done (record_probe db (new_row p address))
]

unfoldable pub insert_probe : Database → List Orphan → ProbeInsert → Applied WriterState
insert_probe db orphans p =
    if ltb max_int64 p.sequence then failed sequence_out_of_range else elim p.endpoint [
      | none ↦ failed invalid_endpoint
      | some address ↦
          bind_done (insert_row db p address) (λ (db' : Database). release_orphan db' orphans p)
    ]

-- A `model.SchedulerGap`, with its first slot in nanoseconds.
pub record SchedulerGap : Type 0 where
  pub target_id : ℕ
  pub first_scheduled_ns : ℕ
  pub interval_ns : ℕ
  pub missed_count : ℕ

-- The loop of `insertGap` over the minutes from `bucket` to `last`.
unfoldable pub mark_minutes : ℕ → ℕ → ℕ → ℕ → List DirtyKey → List DirtyKey
unfolding mark_dirty
mark_minutes zero target bucket last ls = ls
mark_minutes (suc fuel) target bucket last ls =
    let rest =
      mark_minutes fuel target (bucket + minute_us) last
        (mark_dirty (ping_minute target bucket) ls) in
    if ltb last bucket then ls else rest

unfoldable pub first_us : SchedulerGap → ℕ
first_us g = g.first_scheduled_ns / 1000

-- The last missed slot, in microseconds.
unfoldable pub last_us : SchedulerGap → ℕ
last_us g = (g.first_scheduled_ns + (g.missed_count - 1) * g.interval_ns) / 1000

unfoldable pub gap_row : SchedulerGap → GapRow
unfolding first_us
gap_row g = record {
  target_id = g.target_id;
  first_scheduled_at_us = first_us g;
  interval_ns = g.interval_ns;
  missed_count = g.missed_count;
}

-- The row and the marks; the loop runs once for each minute up to the last.
unfoldable pub record_missed : Database → SchedulerGap → Database
unfolding minute_bucket mark_minutes gap_row first_us last_us
record_missed db g = record db {
  scheduler_gaps = db.scheduler_gaps ++ gap_row g ∷ [];
  dirty_rollups =
      mark_minutes (last_us g / minute_us + 1) g.target_id (minute_bucket (first_us g))
        (minute_bucket (last_us g)) db.dirty_rollups;
}

unfoldable pub insert_gap : Database → SchedulerGap → Applied Database
insert_gap db g =
    if g.missed_count == 0 || g.interval_ns == 0
    then failed invalid_gap
    else done (record_missed db g)

abbrev pub max_orphan_replies : ℕ
max_orphan_replies = 4096

-- `!SentAt.IsZero() && SentAt.UnixMicro() <= d.prunedThrough.Load()`.
unfoldable pub is_pruned : ℕ → ProbeReply → Bool
is_pruned pruned_through p = elim p.sent_at_us [ none ↦ false | some at ↦ leb at pruned_through ]

-- The case of `EventProbeReply` of `applyBatch`, after its `applyReply`.
unfoldable pub keep_reply : ℕ → ℕ → List Orphan → ProbeReply → Database × Bool → Applied WriterState
unfolding delete_orphan is_pruned
keep_reply pruned_through now orphans p (db, true) = done (db, orphans)
keep_reply pruned_through now orphans p (db, false) =
    if is_pruned pruned_through p
    then done (record db { late_reply_evicted = db.late_reply_evicted + 1 }, orphans)
    else if leb max_orphan_replies (length orphans)
    then failed too_many_orphans
    else done (db, record { event = p; added_at = now } ∷ delete_orphan p.run_id p.sequence orphans)

unfoldable pub take_reply : ℕ → ℕ → Database → List Orphan → ProbeReply → Applied WriterState
take_reply pruned_through now db orphans p =
    bind_done (apply_reply db p) (keep_reply pruned_through now orphans p)

pub data Event : Type 0 where
  probe_sent : ProbeInsert → Event
  probe_reply : ProbeReply → Event
  scheduler_gap : SchedulerGap → Event

unfoldable pub apply_event : ℕ → ℕ → WriterState → Event → Applied WriterState
apply_event pruned now (db, orphans) (probe_sent p) = insert_probe db orphans p
apply_event pruned now (db, orphans) (probe_reply p) = take_reply pruned now db orphans p
apply_event pruned now (db, orphans) (scheduler_gap g) =
    bind_done (insert_gap db g) (λ (db' : Database). done (db', orphans))

-- The loop of `applyBatch` inside its transaction.
unfoldable pub apply_events : ℕ → ℕ → WriterState → List Event → Applied WriterState
apply_events pruned now s [] = done s
apply_events pruned now s (e ∷ es) =
    bind_done (apply_event pruned now s e) (λ (s' : WriterState). apply_events pruned now s' es)

-- Where the batch fails, the transaction is rolled back and the orphans are those from before. With
-- the state comes the error, if any.
unfoldable pub settle_batch : WriterState → Applied WriterState → WriterState × Option StoreError
settle_batch s (failed x) = (s, some x)
settle_batch s (done s') = (s', none)

-- `applyRetainedBatch`.
unfoldable pub apply_retained_batch :
    ℕ → ℕ → WriterState → List Event → WriterState × Option StoreError
unfolding settle_batch
apply_retained_batch pruned now s es = settle_batch s (apply_events pruned now s es)
