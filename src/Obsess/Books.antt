-- ===== src/Obsess/Books.antt =====
-- internal/obsess/controller.go: the counters `tracked` and `samples` against the FIFOs and histories
-- that they count, and their shared capacity, under the operations on samples.
use flameping.Prelude.{
  ℕ, max, ◌+◌, ◌-◌, ◌≤◌, ◌<◌, List, [], ◌∷◌, ◌++◌, true, false, ltb, none, some, length,
  length-append, total, arith, ◌≡◌, ◌∙◌, refl, Bool-cases, Option-cases, inl, inr,
}
use flameping.Obsess.{
  Policy, Sample, Probe, TargetState, Controller, find, store, max_tracked_samples,
}
use flameping.Obsess.Samples.{
  interrupt_target, interrupt, pruned, prune_history, prune, find_history, make_room, append_sample,
  add_sample,
}
use flameping.Obsess.Settle.{fifo_of}
use flameping.Obsess.Store.{
  IsDistinct, find_id, total-put, put-IsDistinct, fifo_of-put, find_history-find, find-total,
}

module _ {F : Type 0} where
  abbrev pub probes_of : TargetState F → ℕ
  probes_of t = length t.fifo

  abbrev pub samples_of : TargetState F → ℕ
  samples_of t = length t.history

  -- The targets are distinct, `tracked` counts the probes of all FIFOs and `samples` the samples of
  -- all histories, and both together are within capacity.
  pub record IsCounted (c : Controller F) : Type 0 where
    pub distinct : IsDistinct c.targets
    pub tracks : c.tracked ≡ total probes_of c.targets
    pub holds : c.samples ≡ total samples_of c.targets
    pub fits : c.tracked + c.samples ≤ max_tracked_samples

  -- The books are right, and the FIFO under the id is the given one.
  pub record Stands (id : ℕ) (ps : List (Probe F)) (c : Controller F) : Type 0 where
    pub counted : IsCounted c
    pub queue : fifo_of id c.targets ≡ ps

-- A write to a target, with the counters moved as its FIFO and its history are.
pub store-IsCounted :
    {F : Type 0} (c : Controller F) (old t : TargetState F) (tracked samples : ℕ)
    → IsCounted c
    → find t.id c.targets ≡ some old
    → tracked + length old.fifo ≡ c.tracked + length t.fifo
    → samples + length old.history ≡ c.samples + length t.history
    → tracked + samples ≤ max_tracked_samples
    → IsCounted (store t (record c { tracked = tracked; samples = samples }))
store-IsCounted c old t tracked samples h found queued moved fits = record {
  distinct = put-IsDistinct c.targets t h.distinct;
  tracks = ground (arith, h.tracks, queued, total-put probes_of c.targets old t found);
  holds = ground (arith, h.holds, moved, total-put samples_of c.targets old t found);
  fits = fits;
}

-- A write that keeps the target's FIFO, with `samples` moved as its history is.
pub store-Stands :
    {F : Type 0} (id : ℕ) (ps : List (Probe F)) (c : Controller F) (old t : TargetState F)
    (samples : ℕ)
    → Stands id ps c
    → find t.id c.targets ≡ some old
    → t.fifo ≡ old.fifo
    → samples + length old.history ≡ c.samples + length t.history
    → c.tracked + samples ≤ max_tracked_samples
    → Stands id ps (store t (record c { samples = samples }))
store-Stands id ps c old t samples h found same moved fits = record {
  counted =
      store-IsCounted c old t c.tracked samples h.counted found (ground (arith, same)) moved fits;
  queue = fifo_of-put id c.targets old t found same ∙ h.queue;
}

module _ {F : Type 0} (id : ℕ) (ps : List (Probe F)) where
  pub interrupt_target-Stands :
      (at : ℕ) (c : Controller F) (old t : TargetState F)
      → Stands id ps c
      → find t.id c.targets ≡ some old
      → t.fifo ≡ old.fifo
      → t.history ≡ old.history
      → Stands id ps (interrupt_target at t c)
  unfolding interrupt_target
  interrupt_target-Stands at c old t h found same kept =
      let held = find-total samples_of t.id c.targets old found in
      elim (Bool-cases t.active) [
        | inl e ↦ rw (e) (
            store-Stands id ps c old
              (record t {
                active = true;
                last_bad = max t.last_bad at;
                healthy_since = none;
                healthy_through = none;
                history = [];
              })
              (c.samples - length t.history) h found same
              (ground (arith, held, h.counted.holds, kept)) (ground (arith, h.counted.fits)))
        | inr e ↦ rw (e) (
            store-Stands id ps c old (record t { active = false; last_bad = max t.last_bad at })
              c.samples h found same (ground (arith, kept)) h.counted.fits)
      ]

  pub interrupt-Stands :
      (key at : ℕ) (c : Controller F) → Stands id ps c → Stands id ps (interrupt key at c)
  unfolding interrupt
  interrupt-Stands key at c h = elim (Option-cases (find key c.targets)) [
    | inl e ↦ rw (e, interrupt) h
    | inr (t, e) ↦
        rw (e, interrupt)
          (interrupt_target-Stands at c t t h (ground (arith, e, find_id key c.targets t e)) refl
            refl)
  ]

  -- An interruption tracks as many probes as before, and holds no more samples.
  interrupt_le :
      (key at : ℕ) (c : Controller F)
      → ((interrupt key at c).tracked ≡ c.tracked) × ((interrupt key at c).samples ≤ c.samples)
  unfolding interrupt interrupt_target
  interrupt_le key at c = ground arith

  length-pruned : (cutoff : ℕ) (ss : List (Sample F)) → length (pruned cutoff ss) ≤ length ss
  unfolding pruned
  length-pruned cutoff [] = ground arith
  length-pruned cutoff (s ∷ ss) = ground (arith, length-pruned cutoff ss)

  pub prune_history-Stands :
      (policy : Policy) (now : ℕ) (c : Controller F) (t : TargetState F)
      → Stands id ps c
      → find t.id c.targets ≡ some t
      → Stands id ps (prune_history policy now t c)
  unfolding prune_history
  prune_history-Stands policy now c t h found =
      let kept = pruned (now - policy.baseline_window) t.history in
      let fewer = length-pruned (now - policy.baseline_window) t.history in
      let held = find-total samples_of t.id c.targets t found in
      store-Stands id ps c t (record t { history = kept })
        (c.samples - (length t.history - length kept)) h found refl
        (ground (arith, fewer, held, h.counted.holds)) (ground (arith, h.counted.fits))

  pub prune-Stands :
      (policy : Policy) (key now : ℕ) (c : Controller F)
      → Stands id ps c
      → Stands id ps (prune policy key now c)
  unfolding prune
  prune-Stands policy key now c h = elim (Option-cases (find key c.targets)) [
    | inl e ↦ rw (e, prune) h
    | inr (t, e) ↦
        rw (e, prune)
          (prune_history-Stands policy now c t h (ground (arith, e, find_id key c.targets t e)))
  ]

  -- Where there is room after `makeRoom`, the capacity is not exhausted.
  pub make_room-Stands :
      (now : ℕ) (c : Controller F)
      → Stands id ps c
      → Stands id ps (make_room now c).0
        × ((make_room now c).1 ≡ true
            → (make_room now c).0.tracked + (make_room now c).0.samples < max_tracked_samples)
  unfolding make_room
  make_room-Stands now c h = elim (Bool-cases (ltb (c.tracked + c.samples) max_tracked_samples)) [
    | inl e ↦ rw (e) (h, (λ free. ground (arith, e)))
    | inr e ↦ elim (Option-cases (find_history c.targets)) [
      | inl none_left ↦ rw (e, none_left) (h, (λ full. ground (arith, full)))
      | inr ((t, rest), oldest) ↦
          let (found, one) = find_history-find c.targets t rest h.counted.distinct oldest in
          let held = find-total samples_of t.id c.targets t found in
          rw (e, oldest)
            (
              interrupt-Stands t.id now _ (
                  store-Stands id ps c t (record t { history = rest; tracking_limited = true })
                    (c.samples - 1) h found refl (ground (arith, held, one, h.counted.holds))
                    (ground (arith, h.counted.fits))),
              (λ free. ground (
                arith,
                held,
                one,
                h.counted.holds,
                h.counted.fits,
                interrupt_le t.id now (
                    store (record t { history = rest; tracking_limited = true })
                      (record c { samples = c.samples - 1 })),
              )),
            )
    ]
  ]

  pub append_sample-Stands :
      (key : ℕ) (value : Sample F) (c : Controller F)
      → Stands id ps c
      → c.tracked + c.samples < max_tracked_samples
      → Stands id ps (append_sample key value c)
  unfolding append_sample
  append_sample-Stands key value c h room = elim (Option-cases (find key c.targets)) [
    | inl e ↦ rw (e, append_sample) h
    | inr (t, e) ↦
        rw (e, append_sample)
          (store-Stands id ps c t (record t { history = t.history ++ value ∷ [] }) (c.samples + 1) h
            (ground (arith, e, find_id key c.targets t e)) refl
            (ground (arith, length-append t.history (value ∷ []))) (ground (arith, room)))
  ]

  pub add_sample-Stands :
      (policy : Policy) (key now : ℕ) (value : Sample F) (c : Controller F)
      → Stands id ps c
      → Stands id ps (add_sample policy key now value c)
  unfolding add_sample
  add_sample-Stands policy key now value c h =
      let pruned_h = prune-Stands policy key now c h in
      let (kept, room) = make_room-Stands now (prune policy key now c) pruned_h in
      elim (Bool-cases (ltb value.sent_at (now - policy.baseline_window))) [
        | inl e ↦ rw (e) pruned_h
        | inr e ↦ elim (Bool-cases (make_room now (prune policy key now c)).1) [
          | inl free ↦ rw (e, free) (append_sample-Stands key value _ kept (room free))
          | inr full ↦ rw (e, full) kept
        ]
      ]
