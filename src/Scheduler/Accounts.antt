-- ===== src/Scheduler/Accounts.antt =====
-- internal/scheduler/scheduler.go: every slot of a target is submitted or counted as missed, once.
mod Calls
pub use Calls.*
use flameping.Prelude.{
  ℕ, zero, suc, ◌+◌, ◌-◌, ◌*◌, ◌/◌, ◌%◌, ◌^◌, ◌≤◌, ◌<◌, ◌≡◌, ◌≢◌, refl, sym, ap, List, [], ◌∷◌,
  ◌++◌, Bool, true, false, ltb, leb, ◌==◌, if◌then◌else◌, Option, none, some, arith, Bool-cases,
  inl, inr, ◌∙◌, total, All, Option-cases,
}
use mathlib.Core.List.{Perm}
use mathlib.Core.Path.{subst}
use native.Mathlib.Nat.{div-mul-le_self, div-eq_of_lt}
use flameping.Scheduler.{
  Target, Job, Gap, Entry, Call, submitted, refused, recorded, observed, Env, State, find_gap,
  delete_gap, add_gap, observe_gap, flush_target, catch_up, submit, serve, submit_due,
}
use flameping.Scheduler.Entries.{
  IsReady, IsDistinct, submit_due-keeps, serve_target, targets, submit_due-targets,
}
use flameping.Scheduler.Deadlines.{slots, catch_up-next, serve-next}
use flameping.Scheduler.Gaps.{Covers, hits, hits-add}

-- The books of an entry since an earlier account, in which its deadline was `origin`: the deadline is
-- now some number of intervals later, and each of the slots in between, and no other, has been added
-- to the account once; the pending gap covers the missed slots before the deadline.
abbrev pub Balances :
    {V : Type 0} → (ℕ → ℕ) → (ℕ → ℕ → ℕ) → List Gap → List (Call V) → Entry V → Type 0
Balances origin before pending log e =
    Covers e.target.interval e.next (find_gap e.target.id pending)
    × ((n : ℕ) × (e.next ≡ origin e.target.id + n * e.target.interval)
        × ((t : ℕ)
            → account e.target.id t pending log
              ≡ before e.target.id t + hits (origin e.target.id) e.target.interval n t))

module _ {V : Type 0} (env : Env V) where
  -- Serving a due entry settles every slot that passes, each exactly once and no other: at every time
  -- the slots that were submitted, recorded as missed or are pending as missed grow by those that
  -- pass then, and the pending gap covers exactly the missed slots up to the new deadline.
  pub serve_settles :
      (now t : ℕ) (item : Entry V) (s : State V)
      → IsReady now item
      → item.next ≤ now
      → Covers item.target.interval item.next (find_gap item.target.id s.pending)
      → let (item', s') = serve env now item s in
        Covers item.target.interval item'.next (find_gap item.target.id s'.pending)
        × (account item.target.id t s'.pending s'.log
            ≡ account item.target.id t s.pending s.log
              + hits item.next item.target.interval (slots now item) t)
  unfolding serve slots
  serve_settles now t item s ready h c =
      let (item', s') = catch_up env now item s in
      let (same, caught) = catch_up-next env now item s in
      let (covered, counted) = catch_up_own env now t item s ready h c in
      let room : item'.next + item.target.interval < 2 ^ 64 =
        omega (arith, caught, div-mul-le_self (now - item.next) item.target.interval, h, ready.1) in
      let (covers, accounts) = submit_of env item.target item' t s' same ready.0 room covered in
      let skipped : ℕ = (now - item.next) / item.target.interval in
      let parts = hits-add skipped 1 item.next item.target.interval t in
      let one = ap (λ z. hits z item.target.interval 1 t) caught in
      (covers, omega (arith, accounts, one, counted, parts))

  -- Serving an entry leaves the gaps and the log of other targets alone.
  pub serve_apart :
      (now : ℕ) (item : Entry V) (s : State V) (j t : ℕ)
      → item.target.id ≢ j
      → let s' = (serve env now item s).1 in
        (find_gap j s'.pending ≡ find_gap j s.pending)
        × (total (settled j t) s'.log ≡ total (settled j t) s.log)
  unfolding serve
  serve_apart now item s j t h =
      let (item', s') = catch_up env now item s in
      let (same, _) = catch_up-next env now item s in
      ground (arith, catch_up_other env now j t item s h, submit_other env j t item' s' (rw same h))

  serve_other :
      (now : ℕ) (item other : Entry V) (s : State V) (origin : ℕ → ℕ) (before : ℕ → ℕ → ℕ)
      → item.target.id ≢ other.target.id
      → Balances origin before s.pending s.log other
      → let s' = (serve env now item s).1 in Balances origin before s'.pending s'.log other
  serve_other now item other s origin before h (covers, (n, at, books)) =
      let found = (serve_apart now item s other.target.id 0 h).0 in
      (
        rw found covers,
        (n, at, λ t. rw (found, (serve_apart now item s other.target.id t h).1) (books t)),
      )

  serve_own :
      (now : ℕ) (item : Entry V) (s : State V) (origin : ℕ → ℕ) (before : ℕ → ℕ → ℕ)
      → IsReady now item
      → item.next ≤ now
      → Balances origin before s.pending s.log item
      → let (item', s') = serve env now item s in Balances origin before s'.pending s'.log item'
  serve_own now item s origin before ready h (covers, (n, at, books)) =
      let (same, _) = serve_target env now item s in
      let start : ℕ = origin item.target.id in
      let interval : ℕ = item.target.interval in
      rw same (
        (serve_settles now 0 item s ready h covers).0,
        (
          n + slots now item,
          omega (arith, serve-next env now item s, at),
          λ t.
              (serve_settles now t item s ready h covers).1
              ∙ omega (
                arith,
                books t,
                hits-add n (slots now item) start interval t,
                ap (λ z. hits z interval (slots now item) t) at,
              ),
        ),
      )

  -- `submitDue` keeps one entry for each target, and the books of every one: from any account and
  -- deadlines at which they balance, each deadline moves on by whole intervals, and each slot in
  -- between, and no other, is submitted, recorded as missed or pending as missed exactly once; the
  -- pending gap covers exactly the missed slots before the deadline. So no target and no slot is lost
  -- and no slot counted twice, whatever the sink answers. The targets are distinct, their intervals
  -- positive, and times in range.
  pub submit_due-Balances :
      (now : ℕ) (s : State V) (origin : ℕ → ℕ) (before : ℕ → ℕ → ℕ)
      → IsDistinct s.entries
      → All (IsReady now) s.entries
      → All (Balances origin before s.pending s.log) s.entries
      → let s' = submit_due env now s in
        Perm (targets s'.entries) (targets s.entries)
        × All (Balances origin before s'.pending s'.log) s'.entries
  submit_due-Balances now s origin before distinct ready b = (
    submit_due-targets env now s,
    (submit_due-keeps env now (Balances origin before)
        (λ item t r h p. serve_own now item t origin before r h p)
        (λ item other t h p. serve_other now item other t origin before h p) s distinct ready b).2,
  )
