-- ===== src/Scheduler/Run/Mail.antt =====
-- internal/scheduler/scheduler.go: what `UpdateInterval` hands over to `Run`, and what a whole round
-- of `Run` keeps.
use flameping.Prelude.{
  ℕ, ◌+◌, ◌-◌, ◌^◌, ◌<◌, ◌≡◌, refl, List, [], ◌∷◌, true, false, leb, ◌==◌, if◌then◌else◌, some,
  arith, Bool-cases, inl, inr, All, Option-cases, ◌⊎◌,
}
use mathlib.Core.List.{Perm}
use mathlib.Core.List.Perm
use flameping.Scheduler.{
  Entry, Env, State, find_gap, submit_due, find_update, apply_update, apply_updates_from,
  apply_updates,
}
use flameping.Scheduler.Entries.{IsReady, IsDistinct}
use flameping.Scheduler.Updates.{
  IsCovered, submit_due-IsCovered, apply_updates-IsCovered, ids, submit_due-ids, apply_updates-ids,
}
use flameping.Scheduler.Run.{
  Mailbox, update_interval, take_updates, set_update, contains, tick, flush_all, gap_flush_interval,
}

find_update-set_update :
    (j id interval : ℕ) (us : List (ℕ × ℕ))
    → find_update j (set_update id interval us)
      ≡ (if j == id then some interval else find_update j us)
unfolding find_update set_update
find_update-set_update j id interval [] = ground arith
find_update-set_update j id interval ((key, old) ∷ more) =
    ground (arith, find_update-set_update j id interval more)

-- `UpdateInterval` answers true exactly for a positive interval of a known target while `Run` has
-- not stopped. Then the next round takes this interval for the target and all others as before,
-- and is woken; otherwise nothing has changed.
pub update_interval_lem :
    (id interval j : ℕ) (m : Mailbox)
    → let (m', done) = update_interval id interval m in
      ((done ≡ true)
        × (0 < interval)
        × (contains id m.known ≡ true)
        × (m.stopped ≡ false)
        × (m'.wake ≡ true)
        × (find_update j (take_updates m').0
            ≡ (if j == id then some interval else find_update j m.updates)))
      ⊎ ((done ≡ false)
          × (m' ≡ m)
          × ((interval ≡ 0) ⊎ (contains id m.known ≡ false) ⊎ (m.stopped ≡ true)))
unfolding update_interval take_updates
update_interval_lem id interval j m = ground (arith, find_update-set_update j id interval m.updates)

-- Updates that keep intervals positive and times in range.
abbrev pub AreFit : ℕ → List (ℕ × ℕ) → Type 0
AreFit now [] = Unit
AreFit now ((id, interval) ∷ more) = (0 < interval) × (now + interval < 2 ^ 64) × AreFit now more

find_update-fit :
    (now j interval : ℕ) (us : List (ℕ × ℕ))
    → AreFit now us
    → find_update j us ≡ some interval
    → (0 < interval) × (now + interval < 2 ^ 64)
unfolding find_update
find_update-fit now j interval [] f h = cc
find_update-fit now j interval ((key, v) ∷ more) f h =
    ground (arith, find_update-fit now j interval more f.2)

module _ {V : Type 0} where
  apply_update-IsReady :
      (updates : List (ℕ × ℕ)) (now : ℕ) (item : Entry V) (s : State V)
      → AreFit now updates
      → IsReady now item
      → IsReady now (apply_update updates now item s).0
  unfolding apply_update
  apply_update-IsReady updates now item s f r =
      elim (Option-cases (find_update item.target.id updates)) [
        | inl e ↦ ground (arith, e)
        | inr (interval, e) ↦
            ground (arith, e, find_update-fit now item.target.id interval updates f e)
      ]

  updates-IsReady :
      (updates : List (ℕ × ℕ)) (now : ℕ) (es : List (Entry V)) (s : State V)
      → AreFit now updates
      → All (IsReady now) es
      → All (IsReady now) (apply_updates_from updates now es s).0
  unfolding apply_updates_from
  updates-IsReady updates now [] s f r = tt
  updates-IsReady updates now (e ∷ es) s f r =
      (apply_update-IsReady updates now e s f r.0, updates-IsReady updates now es _ f r.1)

  apply_updates-IsReady :
      (updates : List (ℕ × ℕ)) (now : ℕ) (s : State V)
      → AreFit now updates
      → All (IsReady now) s.entries
      → All (IsReady now) (apply_updates updates now s).entries
  unfolding apply_updates
  apply_updates-IsReady updates now s f r = updates-IsReady updates now s.entries s f r

  none-IsCovered : (es : List (Entry V)) → All (IsCovered []) es
  unfolding find_gap
  none-IsCovered [] = tt
  none-IsCovered (e ∷ es) = (tt, none-IsCovered es)

  flush_all-IsCovered : (s : State V) → All (IsCovered (flush_all s).pending) (flush_all s).entries
  unfolding flush_all
  flush_all-IsCovered s = none-IsCovered s.entries

  flush_all-IsDistinct : (s : State V) → IsDistinct s.entries → IsDistinct (flush_all s).entries
  unfolding flush_all
  flush_all-IsDistinct s d = d

-- What holds between two rounds: no two entries are of one target, and the pending gap of each
-- covers exactly the missed slots before the deadline, at the present cadence.
abbrev pub IsSound : {V : Type 0} → State V → Type 0
IsSound s = IsDistinct s.entries × All (IsCovered s.pending) s.entries

flush_all-ids : {V : Type 0} (s : State V) → ids (flush_all s).entries ≡ ids s.entries
unfolding flush_all
flush_all-ids s = refl

-- A whole round of `Run`, with its two passes over the due entries, the updates and the flush of
-- the pending gaps, keeps the state sound, and keeps exactly one entry for each target that had one.
-- The intervals, those of the updates too, are positive, and times in range.
pub tick-IsSound :
    {V : Type 0} (env : Env V) (now last_flush : ℕ) (s : State V) (m : Mailbox)
    → IsSound s
    → All (IsReady now) s.entries
    → AreFit now m.updates
    → let s' = (tick env now (s, last_flush, m)).0 in
      IsSound s' × Perm (ids s'.entries) (ids s.entries)
unfolding tick take_updates
tick-IsSound env now last_flush s m sound ready fit =
    let served : State _ = submit_due env now s in
    let updated : State _ = apply_updates m.updates now served in
    let again : State _ = submit_due env now updated in
    let (d, r, c) = submit_due-IsCovered env now s sound.0 ready sound.1 in
    let (d', c') = apply_updates-IsCovered m.updates now served d c in
    let r' = apply_updates-IsReady m.updates now served fit r in
    let (d'', _, c'') = submit_due-IsCovered env now updated d' r' c' in
    let kept : Perm (ids again.entries) (ids s.entries) =
      Perm.trans (submit_due-ids env now updated)
        (rw (apply_updates-ids m.updates now served) (submit_due-ids env now s)) in
    elim (Bool-cases (leb gap_flush_interval (now - last_flush))) [
      | inl late ↦
          rw (late, flush_all-ids again) ((flush_all-IsDistinct _ d'', flush_all-IsCovered _), kept)
      | inr early ↦ rw early ((d'', c''), kept)
    ]
