-- ===== src/Scheduler/Scenarios.antt =====
-- Two targets, one of them delayed, with a sink that refuses the first job; tests of the operations
-- and the theorems at these states.
use flameping.Prelude.{
  ℕ, ◌+◌, ◌*◌, ◌≤◌, ◌<◌, ◌≡◌, refl, ◌⊎◌, [], ◌∷◌, true, false, ltb, ◌==◌, if◌then◌else◌, none, some,
  arith, length, All,
}
use mathlib.Core.List.{Perm}
use flameping.Scheduler.{
  Target, Gap, Entry, refused, Env, State, find_gap, add_gap, pop, push, observe_gap, flush_target,
  catch_up, submit, serve, submit_due_from, submit_due, find_update, rescheduled, apply_update,
  apply_updates_from, apply_updates,
}
use flameping.Scheduler.Entries.{IsReady, IsDistinct, targets}
use flameping.Scheduler.Deadlines.{slots, serve_grid, submit_due-later}
use flameping.Scheduler.Gaps.{Covers, hits}
use flameping.Scheduler.Accounts.{account, serve_settles, Balances, submit_due-Balances}
use flameping.Scheduler.Updates.{IsCovered, ids}
use flameping.Scheduler.Run.{
  Mailbox, update_interval, contains, take_updates, phase_for, fnv64a, tick,
}
use flameping.Scheduler.Run.Mail.{IsSound, tick-IsSound, update_interval_lem}

abbrev near : Target ℕ
near = record { id = 1; interval = 10; value = 0 }

abbrev far : Target ℕ
far = record { id = 2; interval = 100; value = 0 }

-- The sink refuses its first job.
abbrev env : Env ℕ
env = record { accepts = λ log job. ltb 0 (length log); clock = λ log. 1036; observes = false }

abbrev near_entry : Entry ℕ
near_entry = record { target = near; next = 1000; last_submitted = none }

abbrev far_entry : Entry ℕ
far_entry = record { target = far; next = 1050; last_submitted = some 950 }

abbrev begun : State ℕ
begun = record { entries = near_entry ∷ far_entry ∷ []; pending = []; log = [] }

-- At 1035 three slots of the first target are skipped and the fourth is refused.
abbrev delayed : Gap
delayed = record { target_id = 1; first_scheduled = 1000; interval = 10; missed_count = 4 }

abbrev served : State ℕ
served = record {
  entries = far_entry ∷ record near_entry { next = 1040 } ∷ [];
  pending = delayed ∷ [];
  log = refused (record { target = near; scheduled_at = 1030 }) ∷ [];
}

submit_due-begun : submit_due env 1035 begun ≡ served
unfolding submit_due submit_due_from pop push serve catch_up submit observe_gap add_gap
submit_due-begun = refl

-- A shorter interval for the second target takes effect at once, after its last submission.
apply_updates-begun :
    (apply_updates ((2, 20) ∷ []) 1035 begun).entries
    ≡ near_entry
      ∷ record { target = record far { interval = 20 }; next = 1035; last_submitted = some 950 }
      ∷ []
unfolding apply_updates apply_updates_from apply_update find_update rescheduled flush_target
    find_gap
apply_updates-begun = refl

phase_below : phase_for (b'a' ∷ b'b' ∷ []) 1000 ≡ 762
unfolding phase_for fnv64a
phase_below = refl

begun-IsDistinct : IsDistinct begun.entries
begun-IsDistinct = omega arith

begun-IsReady : All (IsReady 1035) begun.entries
begun-IsReady = omega arith

serve_grid_example :
    let next = (serve env 1035 near_entry begun).0.next in
    (next ≡ 1000 + slots 1035 near_entry * 10) × (1035 < next) × (next ≤ 1035 + 10)
serve_grid_example = serve_grid env 1035 near_entry begun (omega arith) (omega arith)

submit_due-later_example : All (λ (f : Entry ℕ). 1035 < f.next) (submit_due env 1035 begun).entries
submit_due-later_example = submit_due-later env 1035 begun begun-IsReady

serve_settles_example :
    let (item', s') = serve env 1035 near_entry begun in
    Covers 10 item'.next (find_gap 1 s'.pending)
    × (account 1 1030 s'.pending s'.log
        ≡ account 1 1030 begun.pending begun.log + hits 1000 10 (slots 1035 near_entry) 1030)
unfolding find_gap
serve_settles_example = serve_settles env 1035 1030 near_entry begun (omega arith) (omega arith) tt

-- The deadlines and the account before any slot was settled.
abbrev origin : ℕ → ℕ
origin id = if id == 1 then 1000 else 1050

abbrev nothing_settled : ℕ → ℕ → ℕ
nothing_settled id t = 0

begun-Balances : All (Balances origin nothing_settled begun.pending begun.log) begun.entries
unfolding find_gap hits
begun-Balances = ((tt, (0, refl, λ t. refl)), ((tt, (0, refl, λ t. refl)), tt))

submit_due-Balances_example :
    let s' = submit_due env 1035 begun in
    Perm (targets s'.entries) (targets begun.entries)
    × All (Balances origin nothing_settled s'.pending s'.log) s'.entries
submit_due-Balances_example =
    submit_due-Balances env 1035 begun origin nothing_settled begun-IsDistinct begun-IsReady
      begun-Balances

served-IsCovered : All (IsCovered served.pending) served.entries
unfolding find_gap
served-IsCovered = (tt, ((refl, refl), tt))

abbrev mailbox : Mailbox
mailbox = record { known = 1 ∷ 2 ∷ []; updates = (1, 5) ∷ []; wake = true; stopped = false }

update_unknown : (update_interval 3 5 mailbox).1 ≡ false
unfolding update_interval contains
update_unknown = refl

tick-IsSound_example :
    let s' = (tick env 1038 (served, 0, mailbox)).0 in
    IsSound s' × Perm (ids s'.entries) (ids served.entries)
tick-IsSound_example =
    tick-IsSound env 1038 0 served mailbox ((omega arith), served-IsCovered) (omega arith)
      (omega arith)

update_interval_lem_example :
    let (m', done) = update_interval 2 7 mailbox in
    ((done ≡ true)
      × (0 < 7)
      × (contains 2 mailbox.known ≡ true)
      × (mailbox.stopped ≡ false)
      × (m'.wake ≡ true)
      × (find_update 1 (take_updates m').0
          ≡ (if 1 == 2 then some 7 else find_update 1 mailbox.updates)))
    ⊎ ((done ≡ false)
        × (m' ≡ mailbox)
        × (◌≡◌ {A = ℕ} 7 0 ⊎ (contains 2 mailbox.known ≡ false) ⊎ (mailbox.stopped ≡ true)))
update_interval_lem_example = update_interval_lem 2 7 1 mailbox
