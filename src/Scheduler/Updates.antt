-- ===== src/Scheduler/Updates.antt =====
-- internal/scheduler/scheduler.go, `applyUpdates`: how a new interval moves a deadline, and what
-- becomes of the gap of the old cadence.
use flameping.Prelude.{ℕ, ◌≤◌, ◌≡◌, ◌≢◌, refl, sym, List, [], ◌∷◌, arith, ◌∙◌, All, map}
use mathlib.Core.List.{Perm}
use mathlib.Core.List.Perm
use mathlib.Core.Path.{subst}
use flameping.Scheduler.{
  Gap, Target, Entry, Env, State, find_gap, serve, submit_due, apply_update, apply_updates_from,
  apply_updates,
}
use flameping.Scheduler.Entries.{
  IsReady, IsDistinct, Others, submit_due-keeps, serve_target, targets, submit_due-targets,
}
use flameping.Scheduler.Gaps.{Covers}
use flameping.Scheduler.Accounts.{flush_own, flush_other, serve_settles, serve_apart}

-- The pending gap of an entry's target covers exactly the missed slots before its deadline.
abbrev pub IsCovered : {V : Type 0} → List Gap → Entry V → Type 0
IsCovered pending e = Covers e.target.interval e.next (find_gap e.target.id pending)

module _ {V : Type 0} where
  apply_update_own :
      (updates : List (ℕ × ℕ)) (now : ℕ) (item : Entry V) (s : State V)
      → IsCovered s.pending item
      → let (item', s') = apply_update updates now item s in IsCovered s'.pending item'
  unfolding apply_update
  apply_update_own updates now item s c = ground (arith, flush_own item.target.id 0 s)

  apply_update_id :
      (updates : List (ℕ × ℕ)) (now : ℕ) (item : Entry V) (s : State V)
      → (apply_update updates now item s).0.target.id ≡ item.target.id
  unfolding apply_update
  apply_update_id updates now item s = ground arith

  -- The ids of the entries' targets.
  abbrev pub ids : List (Entry V) → List ℕ
  ids = map (λ (e : Entry V). e.target.id)

  pub ids_of : (es : List (Entry V)) → map (λ (t : Target V). t.id) (targets es) ≡ ids es
  ids_of [] = refl
  ids_of (e ∷ es) = rw (ids_of es) refl

  updates_from-ids :
      (updates : List (ℕ × ℕ)) (now : ℕ) (es : List (Entry V)) (s : State V)
      → ids (apply_updates_from updates now es s).0 ≡ ids es
  unfolding apply_updates_from
  updates_from-ids updates now [] s = refl
  updates_from-ids updates now (e ∷ es) s =
      rw
        (
          apply_update_id updates now e s,
          updates_from-ids updates now es (apply_update updates now e s).1,
        )
        refl

  -- `applyUpdates` keeps the targets' ids, in their order.
  pub apply_updates-ids :
      (updates : List (ℕ × ℕ)) (now : ℕ) (s : State V)
      → ids (apply_updates updates now s).entries ≡ ids s.entries
  unfolding apply_updates
  apply_updates-ids updates now s = updates_from-ids updates now s.entries s

  still-IsCovered :
      (e : Entry V) (pending pending' : List Gap)
      → find_gap e.target.id pending' ≡ find_gap e.target.id pending
      → IsCovered pending e
      → IsCovered pending' e
  still-IsCovered e pending pending' h c = rw h c

  apply_update_other :
      (updates : List (ℕ × ℕ)) (now : ℕ) (item : Entry V) (s : State V) (j : ℕ)
      → item.target.id ≢ j
      → find_gap j (apply_update updates now item s).1.pending ≡ find_gap j s.pending
  unfolding apply_update
  apply_update_other updates now item s j h = ground (arith, flush_other item.target.id j 0 s h)

  Others-IsCovered :
      (updates : List (ℕ × ℕ)) (now : ℕ) (item : Entry V) (s : State V) (es : List (Entry V))
      → Others item.target.id es
      → All (IsCovered s.pending) es
      → All (IsCovered (apply_update updates now item s).1.pending) es
  Others-IsCovered updates now item s [] h k = tt
  Others-IsCovered updates now item s (e ∷ es) h k = (
    rw (apply_update_other updates now item s e.target.id h.0) k.0,
    Others-IsCovered updates now item s es h.1 k.1,
  )

  -- Updates of other entries leave the gap of a target alone.
  updates_other :
      (updates : List (ℕ × ℕ)) (now j : ℕ) (es : List (Entry V)) (s : State V)
      → Others j es
      → (find_gap j (apply_updates_from updates now es s).1.pending ≡ find_gap j s.pending)
        × Others j (apply_updates_from updates now es s).0
  unfolding apply_updates_from
  updates_other updates now j [] s h = (refl, tt)
  updates_other updates now j (e ∷ es) s h =
      let s' : State V = (apply_update updates now e s).1 in
      let (found, others) = updates_other updates now j es s' h.1 in
      (
        found ∙ apply_update_other updates now e s j (λ p. h.0 (sym p)),
        (rw (apply_update_id updates now e s) h.0, others),
      )

  updates-IsCovered :
      (updates : List (ℕ × ℕ)) (now : ℕ) (es : List (Entry V)) (s : State V)
      → IsDistinct es
      → All (IsCovered s.pending) es
      → let (es', s') = apply_updates_from updates now es s in
        IsDistinct es' × All (IsCovered s'.pending) es'
  unfolding apply_updates_from
  updates-IsCovered updates now [] s d c = (tt, tt)
  updates-IsCovered updates now (e ∷ es) s d c =
      let s' : State V = (apply_update updates now e s).1 in
      let (found, others) = updates_other updates now e.target.id es s' d.0 in
      let (distinct, covered) =
        updates-IsCovered updates now es s' d.1 (Others-IsCovered updates now e s es d.0 c.1) in
      let same = apply_update_id updates now e s in
      (
        (rw same others, distinct),
        (
          still-IsCovered (apply_update updates now e s).0 _ _ (rw same found)
              (apply_update_own updates now e s c.0),
          covered,
        ),
      )

  pub apply_updates-IsCovered :
      (updates : List (ℕ × ℕ)) (now : ℕ) (s : State V)
      → IsDistinct s.entries
      → All (IsCovered s.pending) s.entries
      → let s' = apply_updates updates now s in
        IsDistinct s'.entries × All (IsCovered s'.pending) s'.entries
  unfolding apply_updates
  apply_updates-IsCovered updates now s d c = updates-IsCovered updates now s.entries s d c

module _ {V : Type 0} (env : Env V) (now : ℕ) where
  -- `submitDue` keeps the targets' ids.
  pub submit_due-ids : (s : State V) → Perm (ids (submit_due env now s).entries) (ids s.entries)
  submit_due-ids s =
      subst (λ (xs : List ℕ). Perm xs (ids s.entries)) (ids_of (submit_due env now s).entries)
        (subst
          (λ (xs : List ℕ).
            Perm (map (λ (t : Target V). t.id) (targets (submit_due env now s).entries)) xs)
          (ids_of s.entries) (Perm.map (λ (t : Target V). t.id) (submit_due-targets env now s)))

  serve_covers :
      (item : Entry V) (s : State V)
      → IsReady now item
      → item.next ≤ now
      → IsCovered s.pending item
      → let (item', s') = serve env now item s in IsCovered s'.pending item'
  serve_covers item s ready h c =
      let (same, _) = serve_target env now item s in
      rw same (serve_settles env now 0 item s ready h c).0

  serve_leaves :
      (item other : Entry V) (s : State V)
      → item.target.id ≢ other.target.id
      → IsCovered s.pending other
      → IsCovered (serve env now item s).1.pending other
  serve_leaves item other s h c =
      still-IsCovered other s.pending _ (serve_apart env now item s other.target.id 0 h).0 c

  -- `submitDue` keeps every pending gap exact.
  pub submit_due-IsCovered :
      (s : State V)
      → IsDistinct s.entries
      → All (IsReady now) s.entries
      → All (IsCovered s.pending) s.entries
      → let s' = submit_due env now s in
        IsDistinct s'.entries × All (IsReady now) s'.entries × All (IsCovered s'.pending) s'.entries
  submit_due-IsCovered s d r c =
      submit_due-keeps env now (λ pending log e. IsCovered pending e)
        (λ item t r h p. serve_covers item t r h p)
        (λ item other t h p. serve_leaves item other t h p) s d r c
