-- ===== src/Eventbus.antt =====
-- internal/eventbus/eventbus.go: the bounded event bus. `slots` and `queue` are buffered channels of
-- the same capacity, `closed` a channel that `Close` closes, `depth` an atomic counter.
-- A goroutine that calls the bus is a `Point`, the place where its call stands; `act` makes the next
-- communication of the call, and is `none` where that communication blocks. A `select` with several
-- ready cases is several actions. The event type is a parameter.
pub mod Invariant
pub mod Order
pub mod Progress
mod Scenarios
use flameping.Prelude.{
  ℕ, suc, ◌+◌, ◌-◌, Bool, true, false, Option, none, some, List, [], ◌∷◌, ◌++◌, ltb, length,
  if◌then◌else◌, get_elem?, set, ◌≡◌,
}
use flameping.Prelude.Int.{ℤ, pos, negsuc, ◌+ℤ◌}

-- `slots` counts the tokens in the slot channel.
pub record Bus (E : Type 0) : Type 0 where
  pub capacity : ℕ
  pub slots : ℕ
  pub queue : List E
  pub closed : Bool
  pub depth : ℤ

-- `New`: the panic on a capacity below 1 is `none`.
unfoldable pub new : (E : Type 0) → ℕ → Option (Bus E)
new E capacity =
    if ltb capacity 1
    then none
    else some (record { capacity = capacity; slots = 0; queue = []; closed = false; depth = pos 0 })

-- What a call returned.
pub data Outcome (E : Type 0) : Type 0 where
  success : Outcome E
  received : E → Outcome E
  err_closed : Outcome E
  err_context : Outcome E

-- Where a goroutine stands: at the two selects of `Reserve`, with an unused `Reservation`, at the
-- select of `Reservation.Publish`, between a communication and the bookkeeping behind it, at the two
-- selects of `Next`, with a reservation whose `once` has fired (`spent`), or with a call that ended.
pub data Point (E : Type 0) : Type 0 where
  reserving : Point E
  checking : Point E
  holding : Point E
  publishing : E → Point E
  counting : Point E
  refunding : Outcome E → Point E
  waiting : Point E
  draining : Point E
  discounting : E → Point E
  releasing : E → Point E
  spent : Outcome E → Point E

pub data Action (E : Type 0) : Type 0 where
  proceed : Action E
  publish : E → Action E
  cancel : Action E
  see_closed : Action E
  see_done : Action E

module _ {E : Type 0} where
  -- `slots <- struct{}{}`
  abbrev acquire : Bus E → Option (Bus E × Point E)
  acquire b =
      if ltb b.slots b.capacity then some (record b { slots = suc b.slots }, checking) else none

  -- `<-slots`
  abbrev release : Bus E → Outcome E → Option (Bus E × Point E)
  release b o = if ltb 0 b.slots then some (record b { slots = b.slots - 1 }, spent o) else none

  -- `queue <- event`
  abbrev send : Bus E → E → Option (Bus E × Point E)
  send b e =
      if ltb (length b.queue) b.capacity
      then some (record b { queue = b.queue ++ e ∷ [] }, counting)
      else none

  -- `<-queue`; what stands where the queue is empty is given.
  abbrev receive_from : List E → Bus E → Option (Bus E × Point E) → Option (Bus E × Point E)
  receive_from [] b empty = empty
  receive_from (e ∷ q) b empty = some (record b { queue = q }, discounting e)

  -- The next communication of a call, by the place where the call stands and the case of the select
  -- that is taken; `see_closed` receives from `closed`, `see_done` from the context's channel.
  unfoldable pub act : Action E → Bus E → Point E → Option (Bus E × Point E)
  act proceed b reserving = acquire b
  act see_closed b reserving = if b.closed then some (b, spent err_closed) else none
  act see_done b reserving = some (b, spent err_context)
  act proceed b checking = some (b, if b.closed then refunding err_closed else holding)
  act (publish e) b holding = some (b, publishing e)
  act cancel b holding = some (b, refunding success)
  act proceed b (publishing e) = send b e
  act see_closed b (publishing e) = if b.closed then some (b, refunding err_closed) else none
  act proceed b counting = some (record b { depth = b.depth +ℤ pos 1 }, spent success)
  act proceed b (refunding o) = release b o
  act proceed b waiting = receive_from b.queue b none
  act see_closed b waiting = if b.closed then some (b, draining) else none
  act see_done b waiting = some (b, spent err_context)
  act proceed b draining = receive_from b.queue b (some (b, spent err_closed))
  act proceed b (discounting e) = some (record b { depth = b.depth +ℤ negsuc 0 }, releasing e)
  act proceed b (releasing e) = release b (received e)
  act (publish e) b (spent o) = some (b, spent err_closed)
  act cancel b (spent o) = some (b, spent o)
  act _ b _ = none

  -- `Close`, under its `closeOnce`.
  unfoldable pub close : Bus E → Bus E
  close b = record b { closed = true }

-- The bus and every goroutine that uses it.
pub record System (E : Type 0) : Type 0 where
  pub bus : Bus E
  pub points : List (Point E)

-- The event that a move puts on the queue, and the event that it takes off.
abbrev pub sent : {E : Type 0} → Point E → Point E → List E
sent (publishing e) counting = e ∷ []
sent _ _ = []

abbrev pub taken : {E : Type 0} → Point E → Point E → List E
taken waiting (discounting e) = e ∷ []
taken draining (discounting e) = e ∷ []
taken _ _ = []

-- A goroutine moves, one calls `Reserve` or `Next`, or the bus is closed; `ins` and `outs` are what
-- the step puts on the queue and takes off.
pub data Step {E : Type 0} (s t : System E) (ins outs : List E) : Type 0 where
  move :
      (i : ℕ) (a : Action E) (p p' : Point E) (b' : Bus E)
      → get_elem? s.points i ≡ some p
      → act a s.bus p ≡ some (b', p')
      → t ≡ record { bus = b'; points = set s.points i p' }
      → ins ≡ sent p p'
      → outs ≡ taken p p'
      → Step s t ins outs
  reserve :
      t ≡ record s { points = s.points ++ reserving ∷ [] }
      → ins ≡ []
      → outs ≡ []
      → Step s t ins outs
  next :
      t ≡ record s { points = s.points ++ waiting ∷ [] } → ins ≡ [] → outs ≡ [] → Step s t ins outs
  shut : t ≡ record s { bus = close s.bus } → ins ≡ [] → outs ≡ [] → Step s t ins outs

-- A run from a fresh bus of the given capacity, with all events sent and all taken, oldest first.
pub data Run {E : Type 0} (capacity : ℕ) : System E → List E → List E → Type 0 where
  start :
      (s : System E) (ins outs : List E)
      → some s.bus ≡ new E capacity
      → s.points ≡ []
      → ins ≡ []
      → outs ≡ []
      → Run capacity s ins outs
  turn :
      (s t : System E) (sent_before sent_now taken_before taken_now ins outs : List E)
      → Run capacity s sent_before taken_before
      → Step s t sent_now taken_now
      → ins ≡ sent_before ++ sent_now
      → outs ≡ taken_before ++ taken_now
      → Run capacity t ins outs
