-- ===== src/Eventbus/Order.antt =====
-- internal/eventbus/eventbus.go: no event is lost, duplicated or reordered between publishers and
-- readers.
use flameping.Prelude.{
  ℕ, ◌≡◌, refl, ◌∙◌, some, List, [], ◌∷◌, ◌++◌, arith, append-nil, append_assoc, true, All,
  All-append, All-set, All-get_elem?, get_elem?,
}
use flameping.Eventbus.{
  Bus, new, Point, publishing, draining, Action, act, close, System, Step, Run, sent, taken,
  proceed, spent, err_closed,
}

-- One move appends what it sends to the queue and takes what it receives from the front.
act_queue :
    {E : Type 0} (a : Action E) (b b' : Bus E) (p p' : Point E)
    → act a b p ≡ some (b', p')
    → b.queue ++ sent p p' ≡ taken p p' ++ b'.queue
unfolding act
act_queue a b b' (publishing e) p' h = ground (arith, append-nil b.queue)
act_queue a b b' _ p' h = ground (arith, append-nil b.queue)

new-queue : {E : Type 0} (capacity : ℕ) (b : Bus E) → some b ≡ new E capacity → b.queue ≡ []
unfolding new
new-queue capacity b h = ground arith

Step-queue :
    {E : Type 0} {s t : System E} {ins outs : List E}
    → Step s t ins outs
    → s.bus.queue ++ ins ≡ outs ++ t.bus.queue
unfolding close
Step-queue {s = s} (Step.move i a p p' b' _ acts e from to) =
    ground (arith, act_queue a s.bus b' p p' acts)
Step-queue {s = s} (Step.reserve e from to) = ground (arith, append-nil s.bus.queue)
Step-queue {s = s} (Step.next e from to) = ground (arith, append-nil s.bus.queue)
Step-queue {s = s} (Step.shut e from to) = ground (arith, append-nil s.bus.queue)

-- In every interleaving the events sent so far are, in the order of their sends, the events taken so
-- far in the order of their receives, followed by the queue.
pub Run_lossless :
    {E : Type 0} (capacity : ℕ) (s : System E) (ins outs : List E)
    → Run capacity s ins outs
    → ins ≡ outs ++ s.bus.queue
Run_lossless capacity s ins outs (Run.start _ _ _ fresh _ from to) =
    ground (arith, new-queue capacity s.bus fresh)
Run_lossless capacity t ins outs (Run.turn s _ i i' o o' _ _ run step from to) = ground (
  arith,
  Run_lossless capacity s i o run,
  Step-queue step,
  append_assoc o s.bus.queue i',
  append_assoc o o' t.bus.queue,
)

draining-act_closed :
    {E : Type 0} (b b' : Bus E)
    → act proceed b draining ≡ some (b', spent err_closed)
    → b.queue ≡ []
unfolding act
draining-act_closed b b' h = ground arith

-- A goroutine is past the `closed` case of `Next` only on a closed bus.
abbrev pub SawClosed : {E : Type 0} → Bus E → Point E → Type 0
SawClosed b draining = b.closed ≡ true
SawClosed b _ = Unit

closed_stays :
    {E : Type 0} (a : Action E) (b b' : Bus E) (p p' : Point E)
    → act a b p ≡ some (b', p')
    → (b'.closed ≡ b.closed) × SawClosed b' p'
unfolding act
closed_stays a b b' p p' h = ground arith

SawClosed-All :
    {E : Type 0} (b b' : Bus E) (ps : List (Point E))
    → (b.closed ≡ true → b'.closed ≡ true)
    → All (SawClosed b) ps
    → All (SawClosed b') ps
SawClosed-All b b' [] k h = tt
SawClosed-All b b' (draining ∷ ps) k h = (k h.0, SawClosed-All b b' ps k h.1)
SawClosed-All b b' (p ∷ ps) k h = (tt, SawClosed-All b b' ps k h.1)

Step-SawClosed :
    {E : Type 0} {s t : System E} {ins outs : List E}
    → Step s t ins outs
    → All (SawClosed s.bus) s.points
    → All (SawClosed t.bus) t.points
unfolding close
Step-SawClosed {s = s} (Step.move i a p p' b' at_i acts e _ _) h =
    let (same, here) = closed_stays a s.bus b' p p' acts in
    let after = SawClosed-All s.bus b' s.points (λ c. same ∙ c) h in
    rw e (All-set (SawClosed b') s.points i p' after here)
Step-SawClosed {s = s} (Step.reserve e _ _) h =
    rw e (All-append (SawClosed s.bus) s.points _ h (tt, tt))
Step-SawClosed {s = s} (Step.next e _ _) h =
    rw e (All-append (SawClosed s.bus) s.points _ h (tt, tt))
Step-SawClosed {s = s} (Step.shut e _ _) h =
    rw e (SawClosed-All s.bus (close s.bus) s.points (λ c. refl) h)

Run-SawClosed :
    {E : Type 0} (capacity : ℕ) (s : System E) (ins outs : List E)
    → Run capacity s ins outs
    → All (SawClosed s.bus) s.points
Run-SawClosed capacity s ins outs (Run.start _ _ _ _ e _ _) = rw e tt
Run-SawClosed capacity t ins outs (Run.turn s _ i i' o o' _ _ run step _ _) =
    Step-SawClosed step (Run-SawClosed capacity s i o run)

-- `Next` answers `ErrClosed` only when the bus is closed and every event that was sent before has
-- been taken: closing the bus drops nothing that is queued.
pub closed_is_drained :
    {E : Type 0} (capacity : ℕ) (s : System E) (ins outs : List E) (b' : Bus E) (i : ℕ)
    → Run capacity s ins outs
    → get_elem? s.points i ≡ some draining
    → act proceed s.bus draining ≡ some (b', spent err_closed)
    → (s.bus.closed ≡ true) × (ins ≡ outs)
closed_is_drained capacity s ins outs b' i run at_i h = (
  All-get_elem? (SawClosed s.bus) s.points i draining (Run-SawClosed capacity s ins outs run) at_i,
  ground (
    arith,
    Run_lossless capacity s ins outs run,
    draining-act_closed s.bus b' h,
    append-nil outs,
  ),
)
