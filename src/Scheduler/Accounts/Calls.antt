-- ===== src/Scheduler/Accounts/Calls.antt =====
-- internal/scheduler/scheduler.go: the slots of a target that the calls of the sink dispose of, and
-- what each part of a round of `submitDue` does to them.
use flameping.Prelude.{
  ℕ, ◌+◌, ◌-◌, ◌*◌, ◌/◌, ◌^◌, ◌≤◌, ◌<◌, ◌≡◌, ◌≢◌, List, [], ◌∷◌, ◌==◌, ◌&&◌, if◌then◌else◌, none,
  some, arith, inl, inr, total, Option-cases,
}
use mathlib.Core.Path.{subst}
use native.Mathlib.Nat.{div-mul-le_self, div-eq_of_lt}
use flameping.Scheduler.{
  Target, Job, Gap, Entry, Call, submitted, refused, recorded, observed, Env, State, find_gap,
  observe_gap, flush_target, catch_up, submit,
}
use flameping.Scheduler.Entries.{IsReady}
use flameping.Scheduler.Gaps.{
  Covers, hits, missed, find_gap-add_gap, find_gap-delete_gap, add_gap-Covers,
}

find_gap-target : (id : ℕ) (gs : List Gap) (g : Gap) → find_gap id gs ≡ some g → id ≡ g.target_id
unfolding find_gap
find_gap-target id [] g h = cc
find_gap-target id (x ∷ gs) g h = ground (arith, find_gap-target id gs g)

no_quotient : (n m : ℕ) → n < m → n / m ≡ 0
no_quotient n m h = div-eq_of_lt h

module _ {V : Type 0} where
  -- How often a call of the sink disposes of the slot of the target at the time: a job that is
  -- submitted is for the slot it was scheduled at, a gap for its missed slots.
  abbrev pub settled : ℕ → ℕ → Call V → ℕ
  settled id t (submitted job) = if id == job.target.id && t == job.scheduled_at then 1 else 0
  settled id t (recorded gap) =
      if id == gap.target_id then hits gap.first_scheduled gap.interval gap.missed_count t else 0
  settled id t (refused job) = 0
  settled id t (observed gap) = 0

  -- How often the slot of the target at the time was submitted or recorded as missed, or is pending
  -- as missed.
  abbrev pub account : ℕ → ℕ → List Gap → List (Call V) → ℕ
  account id t pending log = missed t (find_gap id pending) + total (settled id t) log

  pub flush_own :
      (id t : ℕ) (s : State V)
      → (find_gap id (flush_target id s).pending ≡ none)
        × (account id t (flush_target id s).pending (flush_target id s).log
            ≡ account id t s.pending s.log)
  unfolding flush_target
  flush_own id t s = elim (Option-cases (find_gap id s.pending)) [
    | inl e ↦ ground (arith, e)
    | inr (g, e) ↦
        ground (arith, e, find_gap-delete_gap id id s.pending, find_gap-target id s.pending g e)
  ]

  pub flush_other :
      (id j t : ℕ) (s : State V)
      → id ≢ j
      → (find_gap j (flush_target id s).pending ≡ find_gap j s.pending)
        × (total (settled j t) (flush_target id s).log ≡ total (settled j t) s.log)
  unfolding flush_target
  flush_other id j t s h = elim (Option-cases (find_gap id s.pending)) [
    | inl e ↦ ground (arith, e)
    | inr (g, e) ↦
        ground (arith, e, find_gap-delete_gap j id s.pending, find_gap-target id s.pending g e)
  ]

module _ {V : Type 0} (env : Env V) where
  observe_own :
      (target : Target V) (next n t : ℕ) (s : State V)
      → 0 < target.interval
      → next + n * target.interval < 2 ^ 64
      → Covers target.interval next (find_gap target.id s.pending)
      → let s' = observe_gap env target next n s in
        Covers target.interval (next + n * target.interval) (find_gap target.id s'.pending)
        × (account target.id t s'.pending s'.log
            ≡ account target.id t s.pending s.log + hits next target.interval n t)
  unfolding observe_gap
  observe_own target next n t s pos room c =
      ground (arith, add_gap-Covers target.id target.interval next n t s.pending pos room c)

  observe_other :
      (target : Target V) (next n j t : ℕ) (s : State V)
      → target.id ≢ j
      → let s' = observe_gap env target next n s in
        (find_gap j s'.pending ≡ find_gap j s.pending)
        × (total (settled j t) s'.log ≡ total (settled j t) s.log)
  unfolding observe_gap
  observe_other target next n j t s h =
      ground (arith, find_gap-add_gap j target.id target.interval next n s.pending)

  -- What catching up does to the books.
  pub catch_up_own :
      (now t : ℕ) (item : Entry V) (s : State V)
      → IsReady now item
      → item.next ≤ now
      → Covers item.target.interval item.next (find_gap item.target.id s.pending)
      → let (item', s') = catch_up env now item s in
        let skipped = (now - item.next) / item.target.interval in
        Covers item.target.interval item'.next (find_gap item.target.id s'.pending)
        × (account item.target.id t s'.pending s'.log
            ≡ account item.target.id t s.pending s.log
              + hits item.next item.target.interval skipped t)
  unfolding catch_up hits
  catch_up_own now t item s ready h c =
      let skipped : ℕ = (now - item.next) / item.target.interval in
      ground (
        arith,
        observe_own item.target item.next skipped t s ready.0
            (omega (arith, div-mul-le_self (now - item.next) item.target.interval)) c,
        no_quotient (now - item.next) item.target.interval,
      )

  submit_own :
      (item : Entry V) (t : ℕ) (s : State V)
      → 0 < item.target.interval
      → item.next + item.target.interval < 2 ^ 64
      → Covers item.target.interval item.next (find_gap item.target.id s.pending)
      → let (item', s') = submit env item s in
        Covers item.target.interval item'.next (find_gap item.target.id s'.pending)
        × (account item.target.id t s'.pending s'.log
            ≡ account item.target.id t s.pending s.log + hits item.next item.target.interval 1 t)
  unfolding submit hits
  submit_own item t s pos room c =
      let job : Job V = record { target = item.target; scheduled_at = item.next } in
      ground (
        arith,
        observe_own item.target item.next 1 t (record s { log = refused job ∷ s.log }) pos
            (omega arith) c,
        flush_own item.target.id t (record s { log = submitted job ∷ s.log }),
      )

  pub submit_of :
      (target : Target V) (item : Entry V) (t : ℕ) (s : State V)
      → item.target ≡ target
      → 0 < target.interval
      → item.next + target.interval < 2 ^ 64
      → Covers target.interval item.next (find_gap target.id s.pending)
      → let (item', s') = submit env item s in
        Covers target.interval item'.next (find_gap target.id s'.pending)
        × (account target.id t s'.pending s'.log
            ≡ account target.id t s.pending s.log + hits item.next target.interval 1 t)
  submit_of target item t s e =
      subst
        (λ (u : Target V).
          0 < u.interval
          → item.next + u.interval < 2 ^ 64
          → Covers u.interval item.next (find_gap u.id s.pending)
          → let (item', s') = submit env item s in
            Covers u.interval item'.next (find_gap u.id s'.pending)
            × (account u.id t s'.pending s'.log
                ≡ account u.id t s.pending s.log + hits item.next u.interval 1 t))
        e (submit_own item t s)

  pub catch_up_other :
      (now j t : ℕ) (item : Entry V) (s : State V)
      → item.target.id ≢ j
      → let s' = (catch_up env now item s).1 in
        (find_gap j s'.pending ≡ find_gap j s.pending)
        × (total (settled j t) s'.log ≡ total (settled j t) s.log)
  unfolding catch_up
  catch_up_other now j t item s h = ground (
    arith,
    observe_other item.target item.next ((now - item.next) / item.target.interval) j t s h,
  )

  pub submit_other :
      (j t : ℕ) (item : Entry V) (s : State V)
      → item.target.id ≢ j
      → let s' = (submit env item s).1 in
        (find_gap j s'.pending ≡ find_gap j s.pending)
        × (total (settled j t) s'.log ≡ total (settled j t) s.log)
  unfolding submit
  submit_other j t item s h =
      let job : Job V = record { target = item.target; scheduled_at = item.next } in
      ground (
        arith,
        observe_other item.target item.next 1 j t (record s { log = refused job ∷ s.log }) h,
        flush_other item.target.id j t (record s { log = submitted job ∷ s.log }) h,
      )
