-- ===== src/Obsess/Samples.antt =====
-- internal/obsess/controller.go: the retained baseline samples, the threshold that they give, and the
-- capacity that they share with the tracked probes.
use flameping.Prelude.{
  ℕ, ◌+◌, ◌-◌, ◌^◌, List, [], ◌∷◌, ◌++◌, Bool, true, false, ltb, if◌then◌else◌, Option, none, some,
  length, max, ◌||◌,
}
use flameping.Obsess.{
  Floats, Policy, Sample, TargetState, Controller, find, store, max_tracked_samples,
}

module _ {F : Type 0} (floats : Floats F) where
  open floats use {of_nat, add, sub, mul, div, above, is_inf}

  -- `average`: the incremental mean, after `i` values.
  unfoldable pub mean_from : ℕ → F → List (Sample F) → F
  mean_from i mean [] = mean
  mean_from i mean (s ∷ ss) =
      mean_from (i + 1) (add mean (div (sub s.rtt mean) (of_nat (i + 1)))) ss

  unfoldable pub average : TargetState F → F × ℕ
  average t = (mean_from 0 (of_nat 0) t.history, length t.history)

  -- `limit`, for a policy.
  unfoldable pub limit : Policy → TargetState F → F → ℕ → Option F
  limit policy t mean count =
      let threshold = mul mean (add (of_nat 1) (div t.percent (of_nat 100))) in
      let largest = of_nat (2 ^ 63 - 1) in
      if ltb 0 t.absolute
      then some (of_nat t.absolute)
      else if ltb count policy.min_samples
      then none
      else some (if is_inf threshold || above threshold largest then largest else threshold)

module _ {F : Type 0} where
  -- `clearHistory`.
  unfoldable pub clear_history : TargetState F → Controller F → Controller F
  clear_history t c =
      store (record t { history = [] }) (record c { samples = c.samples - length t.history })

  -- `interrupt`, for the target found under the id.
  unfoldable pub interrupt_target : ℕ → TargetState F → Controller F → Controller F
  unfolding clear_history
  interrupt_target at t c =
      let t' : TargetState F = record t { last_bad = max t.last_bad at } in
      if t.active
      then clear_history (record t' { healthy_since = none; healthy_through = none }) c
      else store t' c

  unfoldable pub interrupt : ℕ → ℕ → Controller F → Controller F
  interrupt id at c = elim (find id c.targets) [ none ↦ c | some t ↦ interrupt_target at t c ]

  -- The samples that are not older than the cutoff, and how many were dropped before them.
  unfoldable pub pruned : ℕ → List (Sample F) → List (Sample F)
  pruned cutoff [] = []
  pruned cutoff (s ∷ ss) =
      let rest = pruned cutoff ss in if ltb s.sent_at cutoff then rest else s ∷ ss

  -- `pruneHistory`.
  unfoldable pub prune_history : Policy → ℕ → TargetState F → Controller F → Controller F
  prune_history policy now t c =
      let kept = pruned (now - policy.baseline_window) t.history in
      store (record t { history = kept })
        (record c { samples = c.samples - (length t.history - length kept) })

  unfoldable pub prune : Policy → ℕ → ℕ → Controller F → Controller F
  prune policy id now c = elim (find id c.targets) [
    | none ↦ c
    | some t ↦ prune_history policy now t c
  ]

  -- The first target with a sample; Go's order of the map may be any.
  unfoldable pub find_history : List (TargetState F) → Option (TargetState F × List (Sample F))
  find_history [] = none
  find_history (t ∷ ts) = elim t.history [ [] ↦ find_history ts | s ∷ ss ↦ some (t, ss) ]

  -- `makeRoom`.
  unfoldable pub make_room : ℕ → Controller F → Controller F × Bool
  make_room now c =
      if ltb (c.tracked + c.samples) max_tracked_samples
      then (c, true)
      else elim (find_history c.targets) [
        | none ↦ (c, false)
        | some (t, rest) ↦ (
          interrupt t.id now (
              store (record t { history = rest; tracking_limited = true })
                (record c { samples = c.samples - 1 })),
          true,
        )
      ]

  -- The append at the end of `addSample`.
  unfoldable pub append_sample : ℕ → Sample F → Controller F → Controller F
  append_sample id value c = elim (find id c.targets) [
    | none ↦ c
    | some t ↦
        store (record t { history = t.history ++ value ∷ [] })
          (record c { samples = c.samples + 1 })
  ]

  -- `addSample`.
  unfoldable pub add_sample : Policy → ℕ → ℕ → Sample F → Controller F → Controller F
  add_sample policy id now value c =
      let c' = prune policy id now c in
      let (roomy, room) = make_room now c' in
      if ltb value.sent_at (now - policy.baseline_window)
      then c'
      else if room
      then append_sample id value roomy
      else roomy
