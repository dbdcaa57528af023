-- ===== src/Store/Writer.antt =====
-- internal/store/sqlite/writer.go: the statements with which the writer keeps probes, replies and
-- scheduler gaps, and marks the minutes whose rollups they change. The insertion of an endpoint and
-- the columns that no rollup and no reply reads are left out.
pub mod Batch
pub mod Early
use flameping.Prelude.{
  ℕ, zero, suc, ◌+◌, ◌-◌, ◌*◌, ◌/◌, ◌%◌, ◌^◌, List, [], ◌∷◌, ◌++◌, Bool, true, false, ltb, leb,
  ◌==◌, ◌&&◌, ◌||◌, not, if◌then◌else◌, Option, none, some, length,
}
use flameping.Store.Pings.{GapRow, PingSample, minute_us}
use flameping.Store.Pings.Rollup.{PingRollup}

pub data Kind : Type 0 where
  ping interface : Kind

unfoldable pub same_kind : Kind → Kind → Bool
same_kind ping ping = true
same_kind interface interface = true
same_kind ping interface = false
same_kind interface ping = false

-- A row of dirty_rollups.
pub record DirtyKey : Type 0 where
  pub kind : Kind
  pub entity_id : ℕ
  pub resolution_s : ℕ
  pub bucket_start_us : ℕ

pub record Database : Type 0 where
  pub ping_samples : List PingSample
  pub scheduler_gaps : List GapRow
  pub ping_rollups : List PingRollup
  pub dirty_rollups : List DirtyKey
  -- The rows `reply_source_mismatch` and `late_reply_evicted` of diagnostics.
  pub reply_source_mismatch : ℕ
  pub late_reply_evicted : ℕ

pub data StoreError : Type 0 where
  sequence_out_of_range invalid_endpoint duplicate_key invalid_gap : StoreError
  reply_not_applied orphan_without_row too_many_orphans orphan_expired : StoreError

pub data Applied (A : Type 0) : Type 0 where
  done : A → Applied A
  failed : StoreError → Applied A

unfoldable pub same_key : DirtyKey → DirtyKey → Bool
unfolding same_kind
same_key k l =
    same_kind k.kind l.kind
    && (k.entity_id == l.entity_id)
    && (k.resolution_s == l.resolution_s)
    && (k.bucket_start_us == l.bucket_start_us)

unfoldable pub is_dirty : DirtyKey → List DirtyKey → Bool
unfolding same_key
is_dirty k [] = false
is_dirty k (l ∷ ls) = same_key k l || is_dirty k ls

-- `INSERT ... ON CONFLICT DO NOTHING`.
unfoldable pub mark_dirty : DirtyKey → List DirtyKey → List DirtyKey
unfolding is_dirty
mark_dirty k ls = if is_dirty k ls then ls else ls ++ k ∷ []

-- `bucketUnixMicro` for a resolution in seconds.
unfoldable pub bucket_unix_micro : ℕ → ℕ → ℕ
bucket_unix_micro us resolution = us - us % (resolution * 1000000)

-- `minuteBucket`, in microseconds.
unfoldable pub minute_bucket : ℕ → ℕ
minute_bucket us = us - us % minute_us

abbrev pub ping_minute : ℕ → ℕ → DirtyKey
ping_minute target bucket = record {
  kind = ping;
  entity_id = target;
  resolution_s = 60;
  bucket_start_us = bucket;
}

abbrev pub ping_hour : ℕ → ℕ → DirtyKey
ping_hour target bucket = record {
  kind = ping;
  entity_id = target;
  resolution_s = 3600;
  bucket_start_us = bucket;
}

-- `WHERE run_id=? AND sequence=?`.
unfoldable pub has_key : ℕ → ℕ → PingSample → Bool
has_key run sequence x = (run == x.run_id) && (sequence == x.sequence)

unfoldable pub find_sample : ℕ → ℕ → List PingSample → Option PingSample
unfolding has_key
find_sample run sequence [] = none
find_sample run sequence (x ∷ xs) =
    if has_key run sequence x then some x else find_sample run sequence xs

-- The key is the primary key, so the first row with it is the only one.
unfoldable pub update_sample : ℕ → ℕ → (PingSample → PingSample) → List PingSample → List PingSample
unfolding has_key
update_sample run sequence f [] = []
update_sample run sequence f (x ∷ xs) =
    if has_key run sequence x then f x ∷ xs else x ∷ update_sample run sequence f xs

-- What `applyReply` reads of a `model.ProbeEvent`.
pub record ProbeReply : Type 0 where
  pub run_id : ℕ
  pub sequence : ℕ
  pub responder : ℕ
  -- `none` where the time is zero.
  pub sent_at_us : Option ℕ
  pub reply_at_us : ℕ
  pub rtt_ns : ℕ
  pub is_late : Bool

unfoldable pub replied : ProbeReply → PingSample → PingSample
replied p x = record x {
  reply_at_us = some p.reply_at_us;
  rtt_ns = some p.rtt_ns;
  is_late = p.is_late;
}

unfoldable pub duplicated : PingSample → PingSample
duplicated x = record x { duplicate_count = x.duplicate_count + 1 }

-- `reply_at_us IS NULL`.
unfoldable pub is_unanswered : PingSample → Bool
is_unanswered x = elim x.reply_at_us [ none ↦ true | some at ↦ false ]

-- The statements of `applyReply`: the reply and its mark, the diagnostic, and the count.
unfoldable pub record_reply : Database → ProbeReply → PingSample → Database
unfolding update_sample bucket_unix_micro mark_dirty replied
record_reply db p x = record db {
  ping_samples = update_sample p.run_id p.sequence (replied p) db.ping_samples;
  dirty_rollups =
      mark_dirty (ping_minute x.target_id (bucket_unix_micro x.scheduled_at_us 60))
        db.dirty_rollups;
}

unfoldable pub record_mismatch : Database → Database
record_mismatch db = record db { reply_source_mismatch = db.reply_source_mismatch + 1 }

unfoldable pub record_duplicate : Database → ProbeReply → Database
unfolding update_sample duplicated
record_duplicate db p = record db {
  ping_samples = update_sample p.run_id p.sequence duplicated db.ping_samples;
}

-- What `applyReply` does where the row of the reply's probe is `x`.
unfoldable pub apply_to : Database → ProbeReply → PingSample → Applied (Database × Bool)
unfolding is_unanswered
apply_to db p x =
    if is_unanswered x && (p.responder == x.address)
    then done (record_reply db p x, true)
    else if not (p.responder == x.address)
    then done (record_mismatch db, true)
    else if is_unanswered x
    then failed reply_not_applied
    else done (record_duplicate db p, true)

unfoldable pub apply_reply : Database → ProbeReply → Applied (Database × Bool)
apply_reply db p = elim (find_sample p.run_id p.sequence db.ping_samples) [
  | none ↦ done (db, false)
  | some x ↦ apply_to db p x
]

-- What `insertProbe` reads of an event; `endpoint` is `none` where the address is invalid.
pub record ProbeInsert : Type 0 where
  pub run_id : ℕ
  pub sequence : ℕ
  pub target_id : ℕ
  pub endpoint : Option ℕ
  pub scheduled_at_us : ℕ
  pub sent_at_us : ℕ
  pub timeout_ns : ℕ
  -- The event is `EventProbeSendError`.
  pub is_send_error : Bool
