-- ===== src/Store/Fresh/Rows.antt =====
-- internal/store/sqlite/writer.go: the writes of probes and replies mark the minute that they change.
use flameping.Prelude.{
  ℕ, ◌+◌, ◌*◌, ◌≡◌, refl, ap, sym, ◌∙◌, inl, inr, List, [], ◌∷◌, ◌++◌, Bool, true, false, ◌==◌,
  ◌&&◌, not, if◌then◌else◌, some, arith, option_cases, if_cases, Bool-cases,
}
use flameping.Histogram.{Floats}
use flameping.Store.Fresh.{
  AggregatesAs, Holds, IsKept, IsSound, is_dirty-mark_dirty, is_dirty_stays, kept-IsSound,
}
use flameping.Store.Pings.{
  PingAggregate, PingSample, add_row, add_rows, add_sent, is_between, minute_us, select,
}
use flameping.Store.Writer.{
  Applied, Database, DirtyKey, ProbeInsert, ProbeReply, apply_reply, apply_to, bucket_unix_micro,
  done, duplicate_key, duplicated, failed, find_sample, is_unanswered, minute_bucket, ping_minute,
  record_duplicate, record_mismatch, record_reply, replied, reply_not_applied, update_sample,
}
use flameping.Store.Writer.Batch.{insert_row, new_row, record_probe}

-- A row's minute is the one that is marked for it.
pub bucket_lem :
    (target k : ℕ) (x : PingSample)
    → is_between target (k * minute_us) (k * minute_us + minute_us) x ≡ true
    → (target ≡ x.target_id) × (minute_bucket x.scheduled_at_us ≡ k * minute_us)
unfolding is_between minute_bucket
bucket_lem target k x h = ground arith

select-snoc :
    (target start end : ℕ) (x : PingSample) (xs : List PingSample)
    → is_between target start end x ≡ false
    → select target start end (xs ++ x ∷ []) ≡ select target start end xs
unfolding select
select-snoc target start end x [] h = rw h refl
select-snoc target start end x (y ∷ ys) h = ground (arith, select-snoc target start end x ys h)

snoc_aggregates :
    (floats : Floats) (target start end : ℕ) (x : PingSample) (xs : List PingSample)
    → is_between target start end x ≡ false
    → AggregatesAs floats target start end xs (xs ++ x ∷ [])
snoc_aggregates floats target start end x xs h =
    let same = select-snoc target start end x xs h in
    (λ a. ap (add_rows floats a) same, λ k. same ∙ k)

-- A new row and its mark.
inserted-IsKept :
    (floats : Floats) (db : Database) (x : PingSample) (target k : ℕ)
    → IsKept floats db (record_probe db x) target (k * minute_us)
unfolding record_probe
inserted-IsKept floats db x target k =
    let key : DirtyKey = ping_minute x.target_id (minute_bucket x.scheduled_at_us) in
    elim (Bool-cases (is_between target (k * minute_us) (k * minute_us + minute_us) x)) [
      | inl inside ↦
          let (same, at) = bucket_lem target k x inside in
          inl (rw (same, sym at) (is_dirty-mark_dirty key db.dirty_rollups))
      | inr outside ↦ inr (
        is_dirty_stays (ping_minute target (k * minute_us)) key db.dirty_rollups,
        snoc_aggregates floats target (k * minute_us) (k * minute_us + minute_us) x db.ping_samples
            outside,
        λ m. refl,
      )
    ]

pub insert_row-IsSound :
    (floats : Floats) (floor : ℕ) (db : Database) (p : ProbeInsert) (address : ℕ)
    → IsSound floats floor db
    → Holds (IsSound floats floor) (insert_row db p address)
unfolding insert_row
insert_row-IsSound floats floor db p address fresh =
    option_cases (Holds (IsSound floats floor)) (find_sample p.run_id p.sequence db.ping_samples)
      (done (record_probe db (new_row p address))) (λ x. failed duplicate_key)
      (λ e.
        kept-IsSound floats floor db (record_probe db (new_row p address))
          (unfold record_probe in refl) (inserted-IsKept floats db (new_row p address)) fresh)
      (λ x e. tt)

-- A row that is changed but not moved.
module _ (f : PingSample → PingSample) (run sequence : ℕ) where
  unfoldable Stays : Type 0
  Stays =
      (x : PingSample)
      → ((f x).target_id ≡ x.target_id) × ((f x).scheduled_at_us ≡ x.scheduled_at_us)

  select-update_sample :
      (target start end : ℕ) (x : PingSample) (xs : List PingSample)
      → Stays
      → find_sample run sequence xs ≡ some x
      → is_between target start end x ≡ false
      → select target start end (update_sample run sequence f xs) ≡ select target start end xs
  unfolding select find_sample update_sample is_between Stays
  select-update_sample target start end x [] s h k = refl
  select-update_sample target start end x (y ∷ ys) s h k =
      ground (arith, s y, select-update_sample target start end x ys s)

bucket_unix_micro-minute_bucket : (us : ℕ) → bucket_unix_micro us 60 ≡ minute_bucket us
unfolding bucket_unix_micro minute_bucket
bucket_unix_micro-minute_bucket us = refl

replied_stays : (p : ProbeReply) → Stays (replied p) p.run_id p.sequence
unfolding Stays replied
replied_stays p x = (refl, refl)

add_row-duplicated :
    (floats : Floats) (a : PingAggregate) (x : PingSample)
    → add_row floats a (duplicated x) ≡ add_row floats a x
unfolding add_row add_sent duplicated
add_row-duplicated floats a x = refl

duplicated_rows :
    (floats : Floats) (run sequence target start end : ℕ) (xs : List PingSample) (a : PingAggregate)
    → add_rows floats a (select target start end (update_sample run sequence duplicated xs))
      ≡ add_rows floats a (select target start end xs)
unfolding select update_sample is_between add_rows duplicated
duplicated_rows floats run sequence target start end [] a = refl
duplicated_rows floats run sequence target start end (x ∷ xs) a = ground (
  arith,
  add_row-duplicated floats a x,
  duplicated_rows floats run sequence target start end xs a,
  duplicated_rows floats run sequence target start end xs (add_row floats a x),
)

duplicated_none :
    (run sequence target start end : ℕ) (xs : List PingSample)
    → select target start end xs ≡ []
    → select target start end (update_sample run sequence duplicated xs) ≡ []
unfolding select update_sample is_between duplicated
duplicated_none run sequence target start end [] h = refl
duplicated_none run sequence target start end (x ∷ xs) h =
    ground (arith, h, duplicated_none run sequence target start end xs)

duplicated-IsKept :
    (floats : Floats) (db : Database) (p : ProbeReply) (target k : ℕ)
    → IsKept floats db (record_duplicate db p) target (k * minute_us)
unfolding record_duplicate
duplicated-IsKept floats db p target k = inr (
  λ h. h,
  (
    duplicated_rows floats p.run_id p.sequence target (k * minute_us) (k * minute_us + minute_us)
        db.ping_samples,
    duplicated_none p.run_id p.sequence target (k * minute_us) (k * minute_us + minute_us)
        db.ping_samples,
  ),
  λ m. refl,
)

-- The row of a reply and its mark.
replied-IsKept :
    (floats : Floats) (db : Database) (p : ProbeReply) (x : PingSample) (target k : ℕ)
    → find_sample p.run_id p.sequence db.ping_samples ≡ some x
    → IsKept floats db (record_reply db p x) target (k * minute_us)
unfolding record_reply
replied-IsKept floats db p x target k found =
    let key : DirtyKey = ping_minute x.target_id (minute_bucket x.scheduled_at_us) in
    let start : ℕ = k * minute_us in
    let end : ℕ = k * minute_us + minute_us in
    rw (bucket_unix_micro-minute_bucket x.scheduled_at_us)
      (elim (Bool-cases (is_between target start end x)) [
        | inl inside ↦
            let (same, at) = bucket_lem target k x inside in
            inl (rw (same, sym at) (is_dirty-mark_dirty key db.dirty_rollups))
        | inr outside ↦
            let rows =
              select-update_sample (replied p) p.run_id p.sequence target start end x
                db.ping_samples (replied_stays p) found outside in
            inr (
              is_dirty_stays (ping_minute target start) key db.dirty_rollups,
              (λ a. ap (add_rows floats a) rows, λ none_left. rows ∙ none_left),
              λ m. refl,
            )
      ])

pub apply_to-IsSound :
    (floats : Floats) (floor : ℕ) (db : Database) (p : ProbeReply) (x : PingSample)
    → find_sample p.run_id p.sequence db.ping_samples ≡ some x
    → IsSound floats floor db
    → Holds (λ (r : Database × Bool). IsSound floats floor r.0) (apply_to db p x)
unfolding apply_to
apply_to-IsSound floats floor db p x found fresh =
    let P : Applied (Database × Bool) → Type 0 = Holds (λ r. IsSound floats floor r.0) in
    let duplicate : IsSound floats floor (record_duplicate db p) =
      kept-IsSound floats floor db (record_duplicate db p) (unfold record_duplicate in refl)
        (duplicated-IsKept floats db p) fresh in
    let mismatch : IsSound floats floor (record_mismatch db) = unfold record_mismatch in fresh in
    let reply : IsSound floats floor (record_reply db p x) =
      kept-IsSound floats floor db (record_reply db p x) (unfold record_reply in refl)
        (λ target k. replied-IsKept floats db p x target k found) fresh in
    if_cases P (is_unanswered x && (p.responder == x.address)) (done (record_reply db p x, true))
      (if not (p.responder == x.address)
        then done (record_mismatch db, true)
        else if is_unanswered x
        then failed reply_not_applied
        else done (record_duplicate db p, true))
      (λ e. reply)
      (λ e.
        if_cases P (not (p.responder == x.address)) (done (record_mismatch db, true))
          (if is_unanswered x then failed reply_not_applied else done (record_duplicate db p, true))
          (λ e'. mismatch)
          (λ e'.
            if_cases P (is_unanswered x) (failed reply_not_applied)
              (done (record_duplicate db p, true)) (λ e''. tt) (λ e''. duplicate)))

pub apply_reply-IsSound :
    (floats : Floats) (floor : ℕ) (db : Database) (p : ProbeReply)
    → IsSound floats floor db
    → Holds (λ (r : Database × Bool). IsSound floats floor r.0) (apply_reply db p)
unfolding apply_reply
apply_reply-IsSound floats floor db p fresh =
    option_cases (Holds (λ (r : Database × Bool). IsSound floats floor r.0))
      (find_sample p.run_id p.sequence db.ping_samples) (done (db, false)) (apply_to db p)
      (λ e. fresh) (λ x found. apply_to-IsSound floats floor db p x found fresh)
