-- ===== src/Eventbus/Invariant.antt =====
-- internal/eventbus/eventbus.go: which goroutine or event owns each slot of the bus, in every
-- interleaving.
use flameping.Prelude.{
  ℕ, ◌+◌, ◌≤◌, ◌≡◌, some, List, [], ◌∷◌, arith, length, length-append, total, total-set,
  total-append,
}
use flameping.Prelude.Int.{pos, pos_part, neg_part, ◌+ℤ◌}
use flameping.Eventbus.{
  Bus, new, Point, reserving, checking, holding, publishing, counting, refunding, waiting,
  discounting, releasing, Action, act, close, System, Step, Run,
}

-- A goroutine owns a slot from its send on `slots` until the slot is released or passes to the
-- event on the queue, and from the receive of an event until its slot is released.
abbrev pub owned : {E : Type 0} → Point E → ℕ
owned checking = 1
owned holding = 1
owned (publishing e) = 1
owned (refunding o) = 1
owned (discounting e) = 1
owned (releasing e) = 1
owned _ = 0

-- Updates of `depth` that are still to come, by sign.
abbrev pub uncounted : {E : Type 0} → Point E → ℕ
uncounted counting = 1
uncounted _ = 0

abbrev pub undiscounted : {E : Type 0} → Point E → ℕ
undiscounted (discounting e) = 1
undiscounted _ = 0

pub record IsSound {E : Type 0} (s : System E) : Type 0 where
  pub slots_owned : s.bus.slots ≡ total owned s.points + length s.bus.queue
  pub slots_bounded : s.bus.slots ≤ s.bus.capacity
  pub depth_owed :
      pos_part s.bus.depth + total uncounted s.points
      ≡ length s.bus.queue + total undiscounted s.points + neg_part s.bus.depth

-- What one move does to the books.
record Balance {E : Type 0} (b b' : Bus E) (p p' : Point E) : Type 0 where
  slots_move : b'.slots + owned p + length b.queue ≡ b.slots + owned p' + length b'.queue
  depth_moves :
      pos_part b'.depth + neg_part b.depth + uncounted p' + length b.queue + undiscounted p
      ≡ pos_part b.depth + neg_part b'.depth + uncounted p + length b'.queue + undiscounted p'
  bound_kept : b.slots ≤ b.capacity → b'.slots ≤ b'.capacity
  capacity_kept : b'.capacity ≡ b.capacity

act-Balance :
    {E : Type 0} (a : Action E) (b b' : Bus E) (p p' : Point E)
    → act a b p ≡ some (b', p')
    → Balance b b' p p'
unfolding act ◌+ℤ◌
act-Balance a b b' (publishing e) p' h = ground (arith, length-append b.queue (e ∷ []))
act-Balance a b b' _ p' h = ground arith

new-slots :
    {E : Type 0} (capacity : ℕ) (b : Bus E)
    → some b ≡ new E capacity
    → (b.slots ≡ 0) × (b.queue ≡ []) × (b.depth ≡ pos 0) × (b.capacity ≡ capacity)
unfolding new
new-slots capacity b h = ground arith

Step-IsSound :
    {E : Type 0} {s t : System E} {ins outs : List E} → Step s t ins outs → IsSound s → IsSound t
unfolding close
Step-IsSound {s = s} (Step.move i a p p' b' at_i acts e _ _) v = ground (
  arith,
  act-Balance a s.bus b' p p' acts,
  total-set owned s.points i p p' at_i,
  total-set uncounted s.points i p p' at_i,
  total-set undiscounted s.points i p p' at_i,
)
Step-IsSound {s = s} (Step.reserve e _ _) v = ground (
  arith,
  total-append owned s.points (reserving ∷ []),
  total-append uncounted s.points (reserving ∷ []),
  total-append undiscounted s.points (reserving ∷ []),
)
Step-IsSound {s = s} (Step.next e _ _) v = ground (
  arith,
  total-append owned s.points (waiting ∷ []),
  total-append uncounted s.points (waiting ∷ []),
  total-append undiscounted s.points (waiting ∷ []),
)
Step-IsSound (Step.shut e _ _) v = ground arith

-- In every interleaving of any number of goroutines each slot in use has exactly one owner, an
-- event on the queue or a goroutine that holds it; there are never more than the capacity; and
-- `depth` is the number of queued events but for the updates that goroutines still have to make.
pub Run-IsSound :
    {E : Type 0} (capacity : ℕ) (s : System E) (ins outs : List E)
    → Run capacity s ins outs
    → IsSound s
Run-IsSound capacity s ins outs (Run.start _ _ _ fresh empty _ _) =
    ground (arith, new-slots capacity s.bus fresh)
Run-IsSound capacity t ins outs (Run.turn s _ i i' o o' _ _ run step _ _) =
    Step-IsSound step (Run-IsSound capacity s i o run)
