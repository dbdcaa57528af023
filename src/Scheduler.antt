-- ===== src/Scheduler.antt =====
-- internal/scheduler/scheduler.go: when each target is probed, and what becomes of missed slots.
-- Times and durations are natural numbers of nanoseconds, the zero `time.Time` being `none`. The
-- heap of deadlines, which is Go's container/heap, is the list of its entries, from which the least
-- deadline is taken; of equal deadlines the first in the list. The sink and the clock are the
-- program's environment: an answer may depend on all the calls made before it.
pub mod Run
pub mod Entries
pub mod Deadlines
pub mod Gaps
pub mod Accounts
pub mod Updates
mod Scenarios
use flameping.Prelude.{
  ℕ, zero, suc, ◌+◌, ◌-◌, ◌*◌, ◌/◌, ◌%◌, ◌^◌, List, [], ◌∷◌, ◌++◌, Bool, true, false, ltb, leb,
  ◌==◌, ◌&&◌, ◌||◌, not, if◌then◌else◌, Option, none, some, length, max,
}

-- `Value`, which the scheduler only passes on, is of the type `V`.
pub record Target (V : Type 0) : Type 0 where
  pub id : ℕ
  pub interval : ℕ
  pub value : V

pub record Job (V : Type 0) : Type 0 where
  pub target : Target V
  pub scheduled_at : ℕ

-- `model.SchedulerGap`; `missed_count` is a uint64.
pub record Gap : Type 0 where
  pub target_id : ℕ
  pub first_scheduled : ℕ
  pub interval : ℕ
  pub missed_count : ℕ

pub record Entry (V : Type 0) : Type 0 where
  pub target : Target V
  pub next : ℕ
  pub last_submitted : Option ℕ

-- The calls of the sink, newest first in a log.
pub data Call (V : Type 0) : Type 0 where
  submitted : Job V → Call V
  refused : Job V → Call V
  recorded : Gap → Call V
  observed : Gap → Call V

-- `accepts` is the answer of `TrySubmit`, `clock` of `clock.Now()`; `observes` says whether the sink
-- has the optional method `ObserveGap`.
pub record Env (V : Type 0) : Type 0 where
  pub accepts : List (Call V) → Job V → Bool
  pub clock : List (Call V) → ℕ
  pub observes : Bool

-- What `Run` holds: the heap, the map of pending gaps by target, and the calls made so far.
pub record State (V : Type 0) : Type 0 where
  pub entries : List (Entry V)
  pub pending : List Gap
  pub log : List (Call V)

-- The map `pending`: its keys are the gaps' targets.
unfoldable pub find_gap : ℕ → List Gap → Option Gap
find_gap id [] = none
find_gap id (g ∷ gs) = if id == g.target_id then some g else find_gap id gs

unfoldable pub delete_gap : ℕ → List Gap → List Gap
delete_gap id [] = []
delete_gap id (g ∷ gs) = let rest = delete_gap id gs in if id == g.target_id then rest else g ∷ rest

-- `addGap`.
unfoldable pub add_gap : ℕ → ℕ → ℕ → ℕ → List Gap → List Gap
add_gap id interval first n [] =
    if n == 0
    then []
    else record { target_id = id; first_scheduled = first; interval = interval; missed_count = n }
      ∷ []
add_gap id interval first n (g ∷ gs) =
    if n == 0
    then g ∷ gs
    else if id == g.target_id
    then record g { missed_count = (g.missed_count + n) % 2 ^ 64 } ∷ gs
    else g ∷ add_gap id interval first n gs

module _ {V : Type 0} where
  -- The least deadline: the entry with it, and the others.
  unfoldable pub pop : Entry V → List (Entry V) → Entry V × List (Entry V)
  pop e [] = (e, [])
  pop e (f ∷ es) =
      let (least, others) = pop f es in
      if leb e.next least.next then (e, f ∷ es) else (least, e ∷ others)

  -- A gap of the target that is pending is handed to the sink and dropped.
  unfoldable pub flush_target : ℕ → State V → State V
  flush_target id s = elim (find_gap id s.pending) [
    | none ↦ s
    | some gap ↦ record s { pending = delete_gap id s.pending; log = recorded gap ∷ s.log }
  ]

  unfoldable pub push : Entry V × State V → State V
  push (item, s) = record s { entries = s.entries ++ item ∷ [] }

module _ {V : Type 0} (env : Env V) where
  -- `observeGap`.
  unfoldable pub observe_gap : Target V → ℕ → ℕ → State V → State V
  observe_gap target first n s =
      let gap : Gap = record {
        target_id = target.id;
        first_scheduled = first;
        interval = target.interval;
        missed_count = n;
      } in
      record s {
        pending = add_gap target.id target.interval first n s.pending;
        log = if env.observes then observed gap ∷ s.log else s.log;
      }

  -- The slots of a delayed entry before its latest one are reported as missed and skipped.
  unfoldable pub catch_up : ℕ → Entry V → State V → Entry V × State V
  catch_up now item s =
      let behind = now - item.next in
      let skipped = behind / item.target.interval in
      if leb item.target.interval behind
      then (
        record item { next = item.next + skipped * item.target.interval },
        observe_gap item.target item.next skipped s,
      )
      else (item, s)

  -- The latest slot is submitted, or reported as missed; then the entry waits for the next slot.
  unfoldable pub submit : Entry V → State V → Entry V × State V
  submit item s =
      let job : Job V = record { target = item.target; scheduled_at = item.next } in
      let asked : State V = record s { log = submitted job ∷ s.log } in
      if env.accepts s.log job
      then (
        record item {
          next = item.next + item.target.interval;
          last_submitted = some (env.clock asked.log);
        },
        flush_target item.target.id asked,
      )
      else (
        record item { next = item.next + item.target.interval },
        observe_gap item.target item.next 1 (record s { log = refused job ∷ s.log }),
      )

  -- One round of the loop of `submitDue`, for the entry that was popped.
  unfoldable pub serve : ℕ → Entry V → State V → Entry V × State V
  serve now item s = let (item', s') = catch_up now item s in submit item' s'

  -- `submitDue`; the fuel is the number of rounds, one for each due entry.
  unfoldable pub submit_due_from : ℕ → ℕ → State V → List (Entry V) → State V
  submit_due_from fuel now s [] = s
  submit_due_from zero now s (e ∷ es) = s
  submit_due_from (suc fuel) now s (e ∷ es) =
      let (item, others) = pop e es in
      let s' = push (serve now item (record s { entries = others })) in
      let rest = submit_due_from fuel now s' s'.entries in if leb item.next now then rest else s

  unfoldable pub submit_due : ℕ → State V → State V
  submit_due now s = submit_due_from (length s.entries + 1) now s s.entries

-- `updates[id]`.
unfoldable pub find_update : ℕ → List (ℕ × ℕ) → Option ℕ
find_update id [] = none
find_update id ((key, interval) ∷ more) = if id == key then some interval else find_update id more

module _ {V : Type 0} where
  -- The first deadline of an entry under a new interval.
  unfoldable pub rescheduled : ℕ → ℕ → Entry V → ℕ
  rescheduled now interval item =
      let next : ℕ = elim item.last_submitted [
        | none ↦
            if ltb interval item.target.interval && ltb item.next (now + interval)
            then item.next
            else now + interval
        | some at ↦ at + interval
      ] in
      if ltb next now then now else next

  -- One round of the loop of `applyUpdates`.
  unfoldable pub apply_update : List (ℕ × ℕ) → ℕ → Entry V → State V → Entry V × State V
  apply_update updates now item s = elim (find_update item.target.id updates) [
    | none ↦ (item, s)
    | some interval ↦ if interval == item.target.interval then (item, s) else (
      record item {
        target = record item.target { interval = interval };
        next = rescheduled now interval item;
      },
      flush_target item.target.id s,
    )
  ]

  unfoldable pub apply_updates_from :
      List (ℕ × ℕ) → ℕ → List (Entry V) → State V → List (Entry V) × State V
  apply_updates_from updates now [] s = ([], s)
  apply_updates_from updates now (e ∷ es) s =
      let (e', s') = apply_update updates now e s in
      let (es', s'') = apply_updates_from updates now es s' in (e' ∷ es', s'')

  -- `applyUpdates`, with the updates that it took.
  unfoldable pub apply_updates : List (ℕ × ℕ) → ℕ → State V → State V
  apply_updates updates now s =
      let (es, s') = apply_updates_from updates now s.entries s in record s' { entries = es }
