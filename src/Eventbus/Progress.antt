-- ===== src/Eventbus/Progress.antt =====
-- internal/eventbus/eventbus.go: the communications that a reservation guarantees never block, and
-- what the bus looks like when nothing is under way.
use flameping.Prelude.{
  ℕ, ◌+◌, ◌≤◌, ◌≡◌, refl, ◌≢◌, some, none, List, [], ◌∷◌, arith, length, get_elem?, total, le-total,
  All,
}
use flameping.Prelude.Int.{pos}
use flameping.Eventbus.{
  Bus, Point, reserving, checking, holding, publishing, refunding, waiting, releasing, spent,
  proceed, act, System, Run,
}
use flameping.Eventbus.Invariant.{Run-IsSound, owned, uncounted, undiscounted}

-- A goroutine that holds a reservation or a received event.
abbrev pub IsCommitted : {E : Type 0} → Point E → Type 0
IsCommitted (publishing e) = Unit
IsCommitted (refunding o) = Unit
IsCommitted (releasing e) = Unit
IsCommitted _ = ⊥

act_ready :
    {E : Type 0} (b : Bus E) (p : Point E)
    → IsCommitted p
    → owned p + length b.queue ≤ b.slots
    → b.slots ≤ b.capacity
    → act proceed b p ≢ none
unfolding act
act_ready b (publishing e) c h k = ground arith
act_ready b _ c h k = ground arith

-- The send of a reserved event and the release of a slot never block: whatever the others do, a
-- goroutine at one of these communications can make it at once.
pub committed_never_blocks :
    {E : Type 0} (capacity : ℕ) (s : System E) (ins outs : List E) (i : ℕ) (p : Point E)
    → Run capacity s ins outs
    → get_elem? s.points i ≡ some p
    → IsCommitted p
    → act proceed s.bus p ≢ none
committed_never_blocks capacity s ins outs i p run at_i c =
    act_ready s.bus p c
      (omega (arith, Run-IsSound capacity s ins outs run, le-total owned s.points i p at_i))
      (Run-IsSound capacity s ins outs run).slots_bounded

-- A goroutine whose call has not begun, has ended, or has only returned a reservation.
abbrev pub IsIdle : {E : Type 0} → Point E → Type 0
IsIdle reserving = Unit
IsIdle holding = Unit
IsIdle waiting = Unit
IsIdle (spent o) = Unit
IsIdle _ = ⊥

abbrev pub reserved : {E : Type 0} → Point E → ℕ
reserved holding = 1
reserved _ = 0

idle_totals :
    {E : Type 0} (ps : List (Point E))
    → All IsIdle ps
    → (total owned ps ≡ total reserved ps) × (total uncounted ps ≡ 0) × (total undiscounted ps ≡ 0)
idle_totals [] h = (refl, refl, refl)
idle_totals (checking ∷ ps) h = absurd h.0
idle_totals (p ∷ ps) h = ground (arith, idle_totals ps h.1)

-- When every goroutine is between two calls, `depth` is the length of the queue, and the slots in
-- use are the unused reservations and the queued events: none has leaked.
pub idle_accounts :
    {E : Type 0} (capacity : ℕ) (s : System E) (ins outs : List E)
    → Run capacity s ins outs
    → All IsIdle s.points
    → (s.bus.depth ≡ pos (length s.bus.queue))
      × (s.bus.slots ≡ total reserved s.points + length s.bus.queue)
idle_accounts capacity s ins outs run idle =
    ground (arith, Run-IsSound capacity s ins outs run, idle_totals s.points idle)
