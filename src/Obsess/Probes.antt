-- ===== src/Obsess/Probes.antt =====
-- internal/obsess/controller.go: the counters against the FIFOs and histories, where faults are raised
-- and probes settle.
use flameping.Prelude.{
  ℕ, ◌+◌, ◌-◌, ◌≤◌, List, [], ◌∷◌, Bool, ltb, leb, if◌then◌else◌, some, not, length, arith, ◌≡◌,
  ◌∙◌, refl, sym, ap, subst, if_cases, if_cases_both, Option-cases, inl, inr,
}
use flameping.Obsess.{
  Floats, Policy, Reason, latency, Probe, TargetState, Transition, Controller, find, put, store,
  max_tracked_samples,
}
use flameping.Obsess.Samples.{interrupt}
use flameping.Obsess.Settle.{
  changed, discontinuous, extended, mark_healthy, healthy_span, calmed, recover, sample_of,
  replied_at, drop_head, update_probe, write_probe, opened, fault_target, fault, exceeds,
  judge_active, judge, settle, settled, finish,
}
use flameping.Obsess.Store.{find_id, find-put, fifo_of-some, fifo_of-none, find-total}
use flameping.Obsess.Books.{
  Stands, probes_of, store-IsCounted, store-Stands, interrupt_target-Stands, interrupt-Stands,
  add_sample-Stands,
}

-- The FIFO from its first probe that is not done.
unfoldable pub unsettled : {F : Type 0} → List (Probe F) → List (Probe F)
unsettled [] = []
unsettled (p ∷ ps) = let rest = unsettled ps in if p.done then rest else p ∷ ps

-- The same of the controller that a call leaves, whatever transitions it reports.
abbrev pub StandsAfter :
    {F : Type 0} → ℕ → List (Probe F) → Controller F × List (Transition F) → Type 0
StandsAfter id ps (c, changes) = Stands id ps c

module _ {F : Type 0} (id : ℕ) where
  -- The books do not read the channel and the calls made.
  pub relabel :
      (ps : List (Probe F)) (c : Controller F) (wake : Bool) (next_ref : ℕ) (changes : List (ℕ × ℕ))
      → Stands id ps c
      → Stands id ps (record c { wake = wake; next_ref = next_ref; changes = changes })
  relabel ps c wake next_ref changes h = record {
    counted = record {
      distinct = h.counted.distinct;
      tracks = h.counted.tracks;
      holds = h.counted.holds;
      fits = h.counted.fits;
    };
    queue = h.queue;
  }

  -- A new FIFO, with `tracked` moved as its length is.
  pub requeue-Stands :
      (ps qs : List (Probe F)) (c : Controller F) (t : TargetState F) (tracked : ℕ)
      → Stands id ps c
      → find id c.targets ≡ some t
      → tracked + length ps ≡ c.tracked + length qs
      → tracked + c.samples ≤ max_tracked_samples
      → Stands id qs (store (record t { fifo = qs }) (record c { tracked = tracked }))
  requeue-Stands ps qs c t tracked h found moved fits =
      let same = find_id id c.targets t found in
      let queued = sym h.queue ∙ fifo_of-some id c.targets t found in
      let new : TargetState F = record t { fifo = qs } in
      let here : find new.id c.targets ≡ some t = ground (arith, same, found) in
      let stored = find-put c.targets t new here in
      record {
        counted =
            store-IsCounted c t new tracked c.samples h.counted here
              (ground (arith, moved, ap length queued)) refl fits;
        queue = fifo_of-some id (put new c.targets) new (rw (sym same) stored);
      }

  pub drop_head-Stands :
      (p : Probe F) (ps : List (Probe F)) (c : Controller F)
      → Stands id (p ∷ ps) c
      → Stands id ps (drop_head id ps c)
  unfolding drop_head
  drop_head-Stands p ps c h = elim (Option-cases (find id c.targets)) [
    | inl e ↦ ground (arith, h.queue, fifo_of-none id c.targets e)
    | inr (t, e) ↦
        let some_tracked = find-total probes_of id c.targets t e in
        let queued = sym h.queue ∙ fifo_of-some id c.targets t e in
        rw (e, drop_head)
          (requeue-Stands (p ∷ ps) ps c t (c.tracked - 1) h e
            (ground (arith, some_tracked, ap length queued, h.counted.tracks))
            (ground (arith, h.counted.fits)))
  ]

  length-update_probe :
      (ref : ℕ) (f : Probe F → Probe F) (ps : List (Probe F))
      → length (update_probe ref f ps) ≡ length ps
  unfolding update_probe
  length-update_probe ref f [] = refl
  length-update_probe ref f (p ∷ ps) = ground (arith, length-update_probe ref f ps)

  pub write_probe-Stands :
      (ref : ℕ) (f : Probe F → Probe F) (ps : List (Probe F)) (c : Controller F)
      → Stands id ps c
      → Stands id (update_probe ref f ps) (write_probe id ref f c)
  unfolding write_probe update_probe
  write_probe-Stands ref f ps c h = elim (Option-cases (find id c.targets)) [
    | inl e ↦
        let empty = sym h.queue ∙ fifo_of-none id c.targets e in
        rw (e, write_probe, empty) (subst (λ l. Stands id l c) empty h)
    | inr (t, e) ↦
        let queued = sym h.queue ∙ fifo_of-some id c.targets t e in
        rw (e, write_probe, sym queued)
          (requeue-Stands ps (update_probe ref f ps) c t c.tracked h e
            (ground (arith, length-update_probe ref f ps)) h.counted.fits)
  ]

  module _ (ps : List (Probe F)) where
    mark_healthy-Stands :
        (policy : Policy) (key sent_at : ℕ) (t : TargetState F) (c : Controller F)
        → Stands id ps c
        → Stands id ps (mark_healthy policy key sent_at t c)
    unfolding mark_healthy extended
    mark_healthy-Stands policy key sent_at t c h =
        let c' = if discontinuous policy sent_at t then interrupt key sent_at c else c in
        let h' : Stands id ps c' =
          if_cases (Stands id ps) (discontinuous policy sent_at t) _ _
            (λ gap. interrupt-Stands id ps key sent_at c h) (λ steady. h) in
        elim (Option-cases (find key c'.targets)) [
          | inl e ↦ rw (e, mark_healthy) h'
          | inr (u, e) ↦
              rw (e, mark_healthy)
                (store-Stands id ps c' u (extended sent_at u) c'.samples h'
                  (ground (arith, e, find_id key c'.targets u e)) refl refl h'.counted.fits)
        ]

    recover-Stands :
        (policy : Policy) (key now : ℕ) (c : Controller F)
        → Stands id ps c
        → Stands id ps (recover policy key now c).0
    unfolding recover changed calmed
    recover-Stands policy key now c h = elim (Option-cases (find key c.targets)) [
      | inl e ↦ rw (e, recover) h
      | inr (t, e) ↦
          let ended =
            store-Stands id ps c t (calmed t) c.samples h
              (ground (arith, e, find_id key c.targets t e)) refl refl h.counted.fits in
          rw (e, recover)
            (if_cases (StandsAfter id ps) (leb policy.recover_after (healthy_span t)) _ _
              (λ long. relabel ps _ _ _ _ ended) (λ short. h))
    ]

    module _ (floats : Floats F) where
      fault_target-Stands :
          (policy : Policy) (p : Probe F) (reason : Reason) (at : ℕ) (t : TargetState F)
          (c : Controller F)
          → Stands id ps c
          → find t.id c.targets ≡ some t
          → Stands id ps (fault_target floats policy p reason at t c).0
      unfolding fault_target opened changed
      fault_target-Stands policy p reason at t c h found =
          if_cases (StandsAfter id ps) t.active _ _
            (λ on. interrupt_target-Stands id ps at c t t h found refl refl)
            (λ off. relabel ps _ _ _ _ (
              interrupt_target-Stands id ps at c t (opened floats policy p reason at t) h found refl
                refl))

      pub fault-Stands :
          (policy : Policy) (key : ℕ) (p : Probe F) (reason : Reason) (at : ℕ) (c : Controller F)
          → Stands id ps c
          → Stands id ps (fault floats policy key p reason at c).0
      unfolding fault
      fault-Stands policy key p reason at c h = elim (Option-cases (find key c.targets)) [
        | inl e ↦ rw (e, fault) h
        | inr (t, e) ↦
            rw (e, fault)
              (fault_target-Stands policy p reason at t c h
                (ground (arith, e, find_id key c.targets t e)))
      ]

      judge_active-Stands :
          (policy : Policy) (key now : ℕ) (p : Probe F) (t : TargetState F) (c : Controller F)
          → Stands id ps c
          → Stands id ps (judge_active floats policy key now p t c).0
      unfolding judge_active
      judge_active-Stands policy key now p t c h =
          if_cases (StandsAfter id ps) (exceeds floats t.threshold p.rtt) _ _
            (λ slow. fault-Stands policy key p latency (replied_at p) c h)
            (λ quick.
              if_cases (StandsAfter id ps) (ltb p.event.sent_at t.last_bad) _ _ (λ before. h)
                (λ after. recover-Stands policy key now _ (
                  add_sample-Stands id ps policy key now (sample_of p) _
                    (mark_healthy-Stands policy key p.event.sent_at t c h))))

      judge-Stands :
          (policy : Policy) (key now : ℕ) (p : Probe F) (c : Controller F)
          → Stands id ps c
          → Stands id ps (judge floats policy key now p c).0
      unfolding judge
      judge-Stands policy key now p c h = elim (Option-cases (find key c.targets)) [
        | inl e ↦ rw (e, judge) h
        | inr (t, e) ↦
            rw (e, judge)
              (if_cases (StandsAfter id ps) (not p.good) _ _ (λ bad. h)
                (λ good.
                  if_cases (StandsAfter id ps) t.active _ _
                    (λ on. judge_active-Stands policy key now p t c h)
                    (λ off. add_sample-Stands id ps policy key now (sample_of p) c h)))
      ]

module _ {F : Type 0} (floats : Floats F) (policy : Policy) (id now : ℕ) where
  -- The loop of `finish` takes the probes that are done off the head of the FIFO, no other, and
  -- keeps the books.
  pub settle-Stands :
      (ps : List (Probe F)) (c : Controller F)
      → Stands id ps c
      → Stands id (unsettled ps) (settle floats policy id now ps c).0
  unfolding settle unsettled
  settle-Stands [] c h = h
  settle-Stands (p ∷ ps) c h =
      if_cases_both (StandsAfter id) p.done _ _ _ _
        (λ over.
          settle-Stands ps _
            (judge-Stands id ps floats policy id now p _ (drop_head-Stands id p ps c h)))
        (λ open_yet. h)

  -- finish, for a target with the given FIFO and counters that are right and within capacity: the FIFO
  -- that is left is the old one, with the probe marked as done, from its first probe that is not done
  -- on; and the counters are right and within capacity again.
  pub finish-Stands :
      (p : Probe F) (good : Bool) (rtt : F) (ps : List (Probe F)) (c : Controller F)
      → Stands id ps c
      → Stands id
          (unsettled (update_probe p.ref (settled good rtt) ps))
          (finish floats policy id now p good rtt c).0
  unfolding finish
  finish-Stands p good rtt ps c h =
      let h' = write_probe-Stands id p.ref (settled good rtt) ps c h in
      rw (h'.queue) (settle-Stands _ _ (relabel id _ _ _ _ _ h'))
