-- ===== src/Obsess/Calls.antt =====
-- internal/obsess/controller.go: every call of the controller keeps its counters right and within
-- capacity.
use flameping.Prelude.{
  ℕ, ◌+◌, ◌-◌, ◌<◌, List, [], ◌∷◌, Bool, true, false, ltb, ◌==◌, ◌||◌, some, not, length,
  length-append, arith, ◌≡◌, refl, if_cases, option_cases,
}
use flameping.Prelude.Int.{pos_part}
use flameping.Obsess.{
  Floats, Net, Policy, loss, latency, ProbeEvent, Probe, TargetState, Transition, Controller, find,
  deadline, max_tracked_samples,
}
use flameping.Obsess.Samples.{clear_history, prune_history, make_room}
use flameping.Obsess.Settle.{changed, fifo_of, exceeds}
use flameping.Obsess.Api.{
  find_probe, observe_gap, snapshot, relocated, update_endpoint, new_probe, track, lose_track,
  admit, present, begin_probe, answered, reply_time, limit_for, reply, accept, arm, complete,
  complete_own, complete_probe, keep_early, is_negative, observe_own, observe_reply, expire_one,
}
use flameping.Obsess.Store.{find_id, fifo_of-some, find-total}
use flameping.Obsess.Books.{
  IsCounted, Stands, interrupt_target-Stands, interrupt-Stands, prune_history-Stands,
  make_room-Stands, probes_of, samples_of, store-IsCounted,
}
use flameping.Obsess.Probes.{
  relabel, requeue-Stands, write_probe-Stands, fault-Stands, finish-Stands,
}

module _ {F : Type 0} where
  -- Counters that are right, after a call that may report transitions.
  abbrev pub CountedAfter : Controller F × List (Transition F) → Type 0
  CountedAfter (c, changes) = IsCounted c

  stand : (id : ℕ) (c : Controller F) → IsCounted c → Stands id (fifo_of id c.targets) c
  stand id c h = record { counted = h; queue = refl }

  -- `ObserveGap`.
  pub observe_gap-IsCounted :
      (id missed now : ℕ) (c : Controller F) → IsCounted c → IsCounted (observe_gap id missed now c)
  unfolding observe_gap
  observe_gap-IsCounted id missed now c h =
      option_cases IsCounted (find id c.targets) _ _ (λ e. h)
        (λ t e.
          option_cases IsCounted t.policy _ _ (λ plain. h)
            (λ policy set_up.
              if_cases IsCounted (missed == 0) _ _ (λ none_missed. h)
                (λ some_missed.
                  (interrupt_target-Stands id _ now c t t (stand id c h)
                    (ground (arith, e, find_id id c.targets t e)) refl refl).counted)))

  -- `Snapshot`.
  pub snapshot-IsCounted :
      (id now : ℕ) (c : Controller F) → IsCounted c → IsCounted (snapshot id now c)
  unfolding snapshot
  snapshot-IsCounted id now c h =
      option_cases IsCounted (find id c.targets) _ _ (λ e. h)
        (λ t e.
          option_cases IsCounted t.policy _ _ (λ plain. h)
            (λ policy set_up.
              (prune_history-Stands id _ policy now c t (stand id c h)
                (ground (arith, e, find_id id c.targets t e))).counted))

module _ {F : Type 0} (floats : Floats F) where
  reply-IsCounted :
      (policy : Policy) (t : TargetState F) (p : Probe F) (event : ProbeEvent) (now : ℕ)
      (c : Controller F)
      → IsCounted c
      → CountedAfter (reply floats policy t p event now c)
  unfolding reply
  reply-IsCounted policy t p event now c h =
      let written = write_probe-Stands t.id p.ref (answered event now) _ c (stand t.id c h) in
      let p' = answered event now p in
      if_cases CountedAfter (event.late || ltb p.event.timeout (pos_part event.rtt)) _ _
        (λ late.
          (finish-Stands floats policy t.id now p' false _ _ _
            (fault-Stands t.id _ floats policy t.id p' loss (deadline p'.event) _ written)).counted)
        (λ timely.
          if_cases CountedAfter
            (exceeds floats (limit_for t p) (floats.of_nat (pos_part event.rtt))) _ _
            (λ slow.
              (finish-Stands floats policy t.id now p' false _ _ _ (
                fault-Stands t.id _ floats policy t.id p' latency (reply_time event now) _
                  written)).counted)
            (λ quick. (finish-Stands floats policy t.id now p' true _ _ _ written).counted))

  complete-IsCounted :
      (policy : Policy) (t : TargetState F) (p : Probe F) (success : Bool) (now : ℕ)
      (c : Controller F)
      → IsCounted c
      → CountedAfter (complete floats policy t p success now c)
  unfolding complete
  complete-IsCounted policy t p success now c h =
      let written = write_probe-Stands t.id p.ref accept _ c (stand t.id c h) in
      let armed = write_probe-Stands t.id p.ref arm _ c (stand t.id c h) in
      if_cases CountedAfter (not success) _ _
        (λ failed.
          (finish-Stands floats policy t.id now (accept p) false _ _ _
            (interrupt-Stands t.id _ t.id now _ written)).counted)
        (λ done.
          option_cases CountedAfter p.early _ _ (λ pending. (relabel t.id _ _ _ _ _ armed).counted)
            (λ event replied. reply-IsCounted policy t (accept p) event now _ written.counted))

  -- CompleteProbe, for any key and whether or not the write succeeded, keeps the targets distinct,
  -- `tracked` the number of probes in the FIFOs, `samples` the number of samples in the histories, and
  -- their sum within the capacity.
  pub complete_probe-IsCounted :
      (key : ℕ) (success : Bool) (now : ℕ) (c : Controller F)
      → IsCounted c
      → CountedAfter (complete_probe floats key success now c)
  unfolding complete_probe complete_own
  complete_probe-IsCounted key success now c h =
      option_cases CountedAfter (find_probe key c.targets) _ _ (λ unknown. h)
        (λ (t, p) known.
          option_cases CountedAfter t.policy _ _ (λ plain. h)
            (λ policy set_up.
              if_cases CountedAfter p.accepted _ _ (λ again. h)
                (λ first. complete-IsCounted policy t p success now c h)))

  -- ObserveReply, for any reply, keeps the targets distinct, `tracked` the number of probes in the
  -- FIFOs, `samples` the number of samples in the histories, and their sum within the capacity; that
  -- includes the samples which a chain of settled probes adds, and what is evicted for them.
  pub observe_reply-IsCounted :
      (net : Net) (event : ProbeEvent) (now : ℕ) (c : Controller F)
      → IsCounted c
      → CountedAfter (observe_reply floats net event now c)
  unfolding observe_reply observe_own
  observe_reply-IsCounted net event now c h =
      option_cases CountedAfter (find_probe event.key c.targets) _ _ (λ unknown. h)
        (λ (t, p) known.
          option_cases CountedAfter t.policy _ _ (λ plain. h)
            (λ policy set_up.
              if_cases CountedAfter
                (not (net.plain p.event.endpoint == net.plain event.responder)
                  || is_negative event.rtt)
                _ _ (λ foreign. h)
                (λ own.
                  if_cases CountedAfter p.accepted _ _
                    (λ armed. reply-IsCounted policy t p event now c h)
                    (λ early.
                      (write_probe-Stands t.id p.ref (keep_early event) _ c
                        (stand t.id c h)).counted))))

  -- A round of `expire`.
  pub expire_one-IsCounted :
      (policy : Policy) (id now : ℕ) (p : Probe F) (c : Controller F)
      → IsCounted c
      → CountedAfter (expire_one floats policy id now p c)
  unfolding expire_one
  expire_one-IsCounted policy id now p c h =
      (finish-Stands floats policy id now p false _ _ _
        (fault-Stands id _ floats policy id p loss (deadline p.event) c (stand id c h))).counted

  track-IsCounted :
      (policy : Policy) (event : ProbeEvent) (t : TargetState F) (c : Controller F)
      → IsCounted c
      → find t.id c.targets ≡ some t
      → c.tracked + c.samples < max_tracked_samples
      → IsCounted (track floats policy event t c)
  unfolding track
  track-IsCounted policy event t c h found room =
      (relabel t.id _ _ _ _ _ (
        requeue-Stands t.id _ _ c t (c.tracked + 1) (stand t.id c h) found
          (ground (
            arith,
            fifo_of-some t.id c.targets t found,
            length-append t.fifo (new_probe floats policy event t c.next_ref ∷ []),
          ))
          (ground (arith, room)))).counted

  admit-IsCounted :
      (policy : Policy) (event : ProbeEvent) (now : ℕ) (t : TargetState F) (c : Controller F)
      → IsCounted c
      → find t.id c.targets ≡ some t
      → IsCounted (admit floats policy event now t c)
  unfolding admit lose_track
  admit-IsCounted policy event now t c h found =
      let id = event.target_id in
      let pruned = prune_history-Stands id _ policy event.sent_at c t (stand id c h) found in
      let (kept, room) = make_room-Stands id _ now _ pruned in
      let c' = (make_room now (prune_history policy event.sent_at t c)).0 in
      option_cases IsCounted (find id c'.targets) _ _ (λ gone. kept.counted)
        (λ t' e.
          let here : find t'.id c'.targets ≡ some t' =
            ground (arith, e, find_id id c'.targets t' e) in
          if_cases IsCounted (make_room now (prune_history policy event.sent_at t c)).1 _ _
            (λ free. track-IsCounted policy event t' c' kept.counted here (room free))
            (λ full.
              (interrupt_target-Stands id _ (event.sent_at + event.timeout) c' t'
                (record t' { tracking_limited = true }) kept here refl refl).counted))

  -- BeginProbe, for any event, keeps the targets distinct, `tracked` the number of probes in the
  -- FIFOs, `samples` the number of samples in the histories, and their sum within the capacity, also
  -- where a sample is evicted for the probe or the probe is refused for want of room.
  pub begin_probe-IsCounted :
      (net : Net) (event : ProbeEvent) (now : ℕ) (c : Controller F)
      → IsCounted c
      → IsCounted (begin_probe floats net event now c)
  unfolding begin_probe
  begin_probe-IsCounted net event now c h =
      option_cases IsCounted (find event.target_id c.targets) _ _ (λ unknown. h)
        (λ t e.
          option_cases IsCounted t.policy _ _ (λ plain. h)
            (λ policy set_up.
              if_cases IsCounted
                (not (event.endpoint == t.endpoint)
                  || not (net.is_valid event.endpoint)
                  || (event.timeout == 0 || present (find_probe event.key c.targets)))
                _ _ (λ refused. h)
                (λ taken.
                  admit-IsCounted policy event now t c h
                    (ground (arith, e, find_id event.target_id c.targets t e)))))

  -- UpdateEndpoint, for any address, keeps the targets distinct, `tracked` the number of probes in the
  -- FIFOs, `samples` the number of samples in the histories, and their sum within the capacity.
  pub update_endpoint-IsCounted :
      (id endpoint now : ℕ) (c : Controller F)
      → IsCounted c
      → CountedAfter (update_endpoint floats id endpoint now c)
  unfolding update_endpoint relocated clear_history changed
  update_endpoint-IsCounted id endpoint now c h =
      option_cases CountedAfter (find id c.targets) _ _ (λ unknown. h)
        (λ t e.
          let here : find t.id c.targets ≡ some t = ground (arith, e, find_id id c.targets t e) in
          let probes = find-total probes_of t.id c.targets t here in
          let held = find-total samples_of t.id c.targets t here in
          let moved =
            store-IsCounted c t (record (relocated floats endpoint t) { history = [] })
              (c.tracked - length t.fifo) (c.samples - length t.history) h here
              (ground (arith, probes, h.tracks)) (ground (arith, held, h.holds))
              (ground (arith, h.fits)) in
          let signalled = (relabel id _ _ true _ _ (stand id _ moved)).counted in
          if_cases CountedAfter (endpoint == t.endpoint) _ _ (λ same. h)
            (λ new.
              if_cases CountedAfter t.active _ _
                (λ on.
                  option_cases CountedAfter t.policy _ _ (λ plain. signalled)
                    (λ policy set_up. (relabel id _ _ true _ _ (stand id _ moved)).counted))
                (λ off. signalled)))
