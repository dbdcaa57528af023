-- ===== src/Scheduler/Run.antt =====
-- internal/scheduler/scheduler.go: the loop of `Run`, the mailbox of `UpdateInterval`, and the phase of
-- a target. One round of the loop is `tick`; what wakes it, the timer or an update, makes no
-- difference to what it does.
pub mod Mail
use Prim.Native.Nat.{bit_xor}
use flameping.Prelude.{
  ℕ, zero, suc, ◌+◌, ◌-◌, ◌*◌, ◌/◌, ◌%◌, ◌^◌, List, [], ◌∷◌, ◌++◌, Bool, true, false, ltb, leb,
  ◌==◌, ◌&&◌, ◌||◌, not, if◌then◌else◌, Option, none, some, length, map,
}
use flameping.Scheduler.{
  Target, Gap, Entry, Call, recorded, Env, State, submit_due, apply_updates, pop,
}

abbrev pub gap_flush_interval : ℕ
gap_flush_interval = 5 * 10 ^ 9

-- hash/fnv, 64-bit FNV-1a over the bytes of the stable id.
unfoldable pub fnv64a : ℕ → List ℕ → ℕ
fnv64a h [] = h
fnv64a h (b ∷ bs) = fnv64a (bit_xor h b * 1099511628211 % 2 ^ 64) bs

-- `phaseFor`.
unfoldable pub phase_for : List ℕ → ℕ → ℕ
phase_for id interval = if interval == 0 then 0 else fnv64a 14695981039346656037 id % interval

-- What `UpdateInterval` shares with `Run` under `updateMu`; `wake` is the channel of capacity 1.
pub record Mailbox : Type 0 where
  pub known : List ℕ
  pub updates : List (ℕ × ℕ)
  pub wake : Bool
  pub stopped : Bool

unfoldable pub contains : ℕ → List ℕ → Bool
contains id [] = false
contains id (k ∷ ks) = id == k || contains id ks

-- `updates[id] = interval`.
unfoldable pub set_update : ℕ → ℕ → List (ℕ × ℕ) → List (ℕ × ℕ)
set_update id interval [] = (id, interval) ∷ []
set_update id interval ((key, old) ∷ more) =
    if id == key then (id, interval) ∷ more else (key, old) ∷ set_update id interval more

-- `UpdateInterval`; an interval that is not positive is 0.
unfoldable pub update_interval : ℕ → ℕ → Mailbox → Mailbox × Bool
update_interval id interval m =
    if interval == 0
    then (m, false)
    else if not (contains id m.known) || m.stopped
    then (m, false)
    else (record m { updates = set_update id interval m.updates; wake = true }, true)

-- The swap of the map at the head of `applyUpdates`.
unfoldable pub take_updates : Mailbox → List (ℕ × ℕ) × Mailbox
take_updates m = (m.updates, record m { updates = [] })

-- The deferred end of `Run`.
unfoldable pub stop : Mailbox → Mailbox
stop m = record m { stopped = true; updates = [] }

module _ {V : Type 0} where
  -- The heap before the first round; a target's stable id stands beside it.
  unfoldable pub start : ℕ → List (List ℕ × Target V) → State V
  start now targets = record {
    entries =
        map
          (λ (t : List ℕ × Target V). record {
            target = t.1;
            next = now + phase_for t.0 t.1.interval;
            last_submitted = none;
          })
          targets;
    pending = [];
    log = [];
  }

  -- All pending gaps are handed to the sink.
  unfoldable pub record_all : List Gap → List (Call V) → List (Call V)
  record_all [] log = log
  record_all (g ∷ gs) log = record_all gs (recorded g ∷ log)

  unfoldable pub flush_all : State V → State V
  flush_all s = record s { pending = []; log = record_all s.pending s.log }

  -- When the timer is set to fire: the least deadline, or the next flush where a gap is pending.
  unfoldable pub next_wake : ℕ → Entry V → State V → ℕ
  next_wake last_flush earliest s =
      let flush_at = last_flush + gap_flush_interval in
      elim s.pending [
        | [] ↦ earliest.next
        | g ∷ gs ↦ if ltb flush_at earliest.next then flush_at else earliest.next
      ]

module _ {V : Type 0} (env : Env V) where
  abbrev pub Loop : Type 0
  Loop = State V × ℕ × Mailbox

  -- One round of `Run` at the time `now`: the state, the time of the last flush and the mailbox.
  unfoldable pub tick : ℕ → Loop → Loop
  tick now (s, last_flush, m) =
      let served = submit_due env now s in
      let (updates, m') = take_updates m in
      let updated = apply_updates updates now served in
      let again = submit_due env now updated in
      if leb gap_flush_interval (now - last_flush)
      then (flush_all again, now, m')
      else (again, last_flush, m')
