-- ===== src/Scheduler/Deadlines.antt =====
-- internal/scheduler/scheduler.go: where the deadlines stand after `submitDue`.
use mathlib.Core.Path.{subst}
use flameping.Prelude.{
  ℕ, zero, suc, ◌+◌, ◌-◌, ◌*◌, ◌/◌, ◌≤◌, ◌<◌, ◌≡◌, refl, sym, List, [], ◌∷◌, leb, if◌then◌else◌,
  All, All-append, arith, length, Bool-cases, inl, inr, total, total-append, leb→le, leb→lt, ◌∙◌,
}
use native.Mathlib.Nat.{div-add-mod, div-eq_of_lt}
use flameping.Scheduler.{
  Entry, Env, State, pop, push, serve, catch_up, submit, submit_due_from, submit_due,
}
use flameping.Scheduler.Entries.{IsReady, All-pop, pop_least, serve_target}

-- The slots that pass when an entry is served at the time `now`: the missed ones and the latest.
unfoldable pub slots : {V : Type 0} → ℕ → Entry V → ℕ
slots now item = (now - item.next) / item.target.interval + 1

none_missed : (behind interval : ℕ) → behind < interval → behind / interval * interval ≡ 0
none_missed behind interval h =
    let none_whole : behind / interval ≡ 0 = div-eq_of_lt h in rw none_whole (omega arith)

module _ {V : Type 0} where
  slots-pass :
      (now : ℕ) (item : Entry V)
      → 0 < item.target.interval
      → item.next ≤ now
      → (now < item.next + slots now item * item.target.interval)
        × (item.next + slots now item * item.target.interval ≤ now + item.target.interval)
  unfolding slots
  slots-pass now item pos h = grind (arith, div-add-mod (now - item.next) item.target.interval)

  abbrev due : ℕ → Entry V → ℕ
  due now e = if leb e.next now then 1 else 0

  total-pop :
      (w : Entry V → ℕ) (e : Entry V) (es : List (Entry V))
      → total w (pop e es).1 + w (pop e es).0 ≡ w e + total w es
  unfolding pop
  total-pop w e [] = omega arith
  total-pop w e (f ∷ es) = ground (arith, total-pop w f es)

  due_le_length : (now : ℕ) (es : List (Entry V)) → total (due now) es ≤ length es
  due_le_length now [] = omega arith
  due_le_length now (e ∷ es) = ground (arith, due_le_length now es)

  All-later :
      (now low : ℕ) (es : List (Entry V))
      → now < low
      → All (λ (f : Entry V). low ≤ f.next) es
      → All (λ (f : Entry V). now < f.next) es
  All-later now low [] h k = tt
  All-later now low (e ∷ es) h k = (omega arith, All-later now low es h k.1)

module _ {V : Type 0} (env : Env V) (now : ℕ) where
  pub catch_up-next :
      (item : Entry V) (s : State V)
      → ((catch_up env now item s).0.target ≡ item.target)
        × ((catch_up env now item s).0.next
            ≡ item.next + (now - item.next) / item.target.interval * item.target.interval)
  unfolding catch_up
  catch_up-next item s = ground (arith, none_missed (now - item.next) item.target.interval)

  submit-next :
      (item : Entry V) (s : State V) → (submit env item s).0.next ≡ item.next + item.target.interval
  unfolding submit
  submit-next item s = ground arith

  pub serve-next :
      (item : Entry V) (s : State V)
      → (serve env now item s).0.next ≡ item.next + slots now item * item.target.interval
  unfolding serve slots
  serve-next item s =
      let (same, caught) = catch_up-next item s in
      submit-next (catch_up env now item s).0 (catch_up env now item s).1
      ∙ rw (caught, same) (omega arith)

  -- A due entry that is served moves by a whole number of intervals, to the first slot of its old
  -- cadence after the present, which is at most one interval away.
  pub serve_grid :
      (item : Entry V) (s : State V)
      → item.next ≤ now
      → 0 < item.target.interval
      → let next = (serve env now item s).0.next in
        (next ≡ item.next + slots now item * item.target.interval)
        × (now < next)
        × (next ≤ now + item.target.interval)
  serve_grid item s h pos =
      let (after, within) = slots-pass now item pos h in
      rw (serve-next item s) (refl, after, within)

  submit_due_from-later :
      (fuel : ℕ) (s : State V) (es : List (Entry V))
      → s.entries ≡ es
      → All (IsReady now) es
      → total (due now) es < fuel
      → All (λ (f : Entry V). now < f.next) (submit_due_from env fuel now s es).entries
  unfolding submit_due_from push
  submit_due_from-later fuel s [] e r enough = rw e tt
  submit_due_from-later zero s (x ∷ es) e r enough = absurd (omega arith)
  submit_due_from-later (suc fuel) s (x ∷ es) e r enough =
      let item : Entry V = (pop x es).0 in
      let others : List (Entry V) = (pop x es).1 in
      let start : State V = record s { entries = others } in
      let item' : Entry V = (serve env now item start).0 in
      let (ready, readies) = All-pop (IsReady now) x es r.0 r.1 in
      let (same, kept) = serve_target env now item start in
      elim (Bool-cases (leb item.next now)) [
        | inl late ↦
            let (_, after, _) = serve_grid item start (leb→le _ _ late) ready.0 in
            rw late (
              submit_due_from-later fuel (push (serve env now item start)) _ refl
                (rw kept (All-append (IsReady now) others (item' ∷ []) readies (rw same ready, tt)))
                (rw kept (
                  ground
                    (arith, total-append (due now) others (item' ∷ []), total-pop (due now) x es))))
        | inr early ↦ rw early (
            subst (λ l. All (λ (f : Entry V). now < f.next) l) (sym e)
              (All-later now item.next (x ∷ es) (leb→lt _ _ early) (pop_least x es)))
      ]

  -- `submitDue` ends with every deadline in the future: its rounds are enough for all due entries.
  pub submit_due-later :
      (s : State V)
      → All (IsReady now) s.entries
      → All (λ (f : Entry V). now < f.next) (submit_due env now s).entries
  unfolding submit_due
  submit_due-later s r =
      submit_due_from-later _ s s.entries refl r (omega (arith, due_le_length now s.entries))
