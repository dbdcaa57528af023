-- ===== src/Store/Fresh/Events.antt =====
-- internal/store/sqlite/writer.go: a batch of events keeps every minute marked or current.
use flameping.Prelude.{
  ◌+◌, ℕ, List, [], ◌∷◌, Bool, true, false, leb, ltb, if◌then◌else◌, none, some, length, if_cases,
  option_cases,
}
use flameping.Histogram.{Floats}
use flameping.Store.Fresh.{Holds, IsSound}
use flameping.Store.Fresh.Gaps.{insert_gap-IsSound}
use flameping.Store.Fresh.Rows.{apply_reply-IsSound, insert_row-IsSound}
use flameping.Store.Pings.{max_int64}
use flameping.Store.Writer.{
  Applied, Database, ProbeInsert, ProbeReply, apply_reply, done, failed, invalid_endpoint,
  sequence_out_of_range, too_many_orphans,
}
use flameping.Store.Writer.Batch.{
  Event, Orphan, WriterState, apply_event, apply_events, apply_retained_batch, bind_done,
  delete_orphan, find_orphan, finish_orphan, insert_gap, insert_probe, insert_row, is_pruned,
  keep_reply, max_orphan_replies, probe_reply, probe_sent, release_orphan, scheduler_gap,
  settle_batch, take_reply,
}

-- What follows an operation that does not fail.
bind_done-Holds :
    {A B : Type 0} (P : A → Type 0) (Q : B → Type 0) (o : Applied A) (next : A → Applied B)
    → ((a : A) → P a → Holds Q (next a))
    → Holds P o
    → Holds Q (bind_done o next)
unfolding bind_done
bind_done-Holds P Q (done a) next good h = good a h
bind_done-Holds P Q (failed e) next good h = tt

module _ (floats : Floats) (floor : ℕ) where
  abbrev Fresh : WriterState → Type 0
  Fresh s = IsSound floats floor s.0

  abbrev FreshReply : Database × Bool → Type 0
  FreshReply r = IsSound floats floor r.0

  finish_orphan-IsSound :
      (orphans : List Orphan) (p : ProbeInsert) (r : Database × Bool)
      → FreshReply r
      → Holds Fresh (finish_orphan orphans p r)
  unfolding finish_orphan
  finish_orphan-IsSound orphans p (db, true) fresh = fresh
  finish_orphan-IsSound orphans p (db, false) fresh = tt

  release_orphan-IsSound :
      (db : Database) (orphans : List Orphan) (p : ProbeInsert)
      → IsSound floats floor db
      → Holds Fresh (release_orphan db orphans p)
  unfolding release_orphan
  release_orphan-IsSound db orphans p fresh =
      option_cases (Holds Fresh) (find_orphan p.run_id p.sequence orphans) (done (db, orphans))
        (λ o. bind_done (apply_reply db o.event) (finish_orphan orphans p)) (λ e. fresh)
        (λ o e.
          bind_done-Holds FreshReply Fresh (apply_reply db o.event) (finish_orphan orphans p)
            (finish_orphan-IsSound orphans p) (apply_reply-IsSound floats floor db o.event fresh))

  insert_probe-IsSound :
      (db : Database) (orphans : List Orphan) (p : ProbeInsert)
      → IsSound floats floor db
      → Holds Fresh (insert_probe db orphans p)
  unfolding insert_probe
  insert_probe-IsSound db orphans p fresh =
      let insert : ℕ → Applied WriterState =
        λ address. bind_done (insert_row db p address) (λ db'. release_orphan db' orphans p) in
      if_cases (Holds Fresh) (ltb max_int64 p.sequence) (failed sequence_out_of_range)
        (elim p.endpoint [ none ↦ failed invalid_endpoint | some address ↦ insert address ])
        (λ e. tt)
        (λ e.
          option_cases (Holds Fresh) p.endpoint (failed invalid_endpoint) insert (λ e'. tt)
            (λ address e'.
              bind_done-Holds (IsSound floats floor) Fresh (insert_row db p address)
                (λ db'. release_orphan db' orphans p)
                (λ db' h. release_orphan-IsSound db' orphans p h)
                (insert_row-IsSound floats floor db p address fresh)))

  keep_reply-IsSound :
      (pruned now : ℕ) (orphans : List Orphan) (p : ProbeReply) (r : Database × Bool)
      → FreshReply r
      → Holds Fresh (keep_reply pruned now orphans p r)
  unfolding keep_reply
  keep_reply-IsSound pruned now orphans p (db, true) fresh = fresh
  keep_reply-IsSound pruned now orphans p (db, false) fresh =
      let orphan : Applied WriterState =
        done
          (db, record { event = p; added_at = now } ∷ delete_orphan p.run_id p.sequence orphans) in
      let evicted : Applied WriterState =
        done (record db { late_reply_evicted = db.late_reply_evicted + 1 }, orphans) in
      if_cases (Holds Fresh) (is_pruned pruned p) evicted
        (if leb max_orphan_replies (length orphans) then failed too_many_orphans else orphan)
        (λ e. fresh)
        (λ e.
          if_cases (Holds Fresh) (leb max_orphan_replies (length orphans)) (failed too_many_orphans)
            orphan (λ e'. tt) (λ e'. fresh))

  apply_event-IsSound :
      (pruned now : ℕ) (s : WriterState) (e : Event)
      → Fresh s
      → Holds Fresh (apply_event pruned now s e)
  unfolding apply_event take_reply
  apply_event-IsSound pruned now (db, orphans) (probe_sent p) fresh =
      insert_probe-IsSound db orphans p fresh
  apply_event-IsSound pruned now (db, orphans) (probe_reply p) fresh =
      bind_done-Holds FreshReply Fresh (apply_reply db p) (keep_reply pruned now orphans p)
        (keep_reply-IsSound pruned now orphans p) (apply_reply-IsSound floats floor db p fresh)
  apply_event-IsSound pruned now (db, orphans) (scheduler_gap g) fresh =
      bind_done-Holds (IsSound floats floor) Fresh (insert_gap db g) (λ db'. done (db', orphans))
        (λ db' h. h) (insert_gap-IsSound floats floor db g fresh)

  apply_events-IsSound :
      (pruned now : ℕ) (s : WriterState) (es : List Event)
      → Fresh s
      → Holds Fresh (apply_events pruned now s es)
  unfolding apply_events
  apply_events-IsSound pruned now s [] fresh = fresh
  apply_events-IsSound pruned now s (e ∷ es) fresh =
      bind_done-Holds Fresh Fresh (apply_event pruned now s e) (λ s'. apply_events pruned now s' es)
        (λ s' h. apply_events-IsSound pruned now s' es h) (apply_event-IsSound pruned now s e fresh)

  after_batch :
      (s : WriterState) (o : Applied WriterState)
      → Fresh s
      → Holds Fresh o
      → Fresh (settle_batch s o).0
  unfolding settle_batch
  after_batch s (done s') fresh h = h
  after_batch s (failed x) fresh h = fresh

  -- After a batch, whether it fails or not, every minute of every target is marked dirty or its
  -- stored rollup is that of the rows and gaps of now.
  pub apply_retained_batch-IsSound :
      (pruned now : ℕ) (s : WriterState) (es : List Event)
      → Fresh s
      → Fresh (apply_retained_batch pruned now s es).0
  unfolding apply_retained_batch
  apply_retained_batch-IsSound pruned now s es fresh =
      after_batch s (apply_events pruned now s es) fresh
        (apply_events-IsSound pruned now s es fresh)
