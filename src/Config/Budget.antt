-- ===== src/Config/Budget.antt =====
-- internal/config/config.go: the slots of obsess state that a configuration may use.
use native.Mathlib.Nat.{div-add-mod}
use flameping.Prelude.{
  ℕ, ◌+◌, ◌*◌, ◌%◌, ◌≤◌, ◌<◌, ◌≡◌, ◌∙◌, min, true, ◌&&◌, if◌then◌else◌, List, [], ◌∷◌, none, some,
  arith, Bool-cases, Option-cases, inl, inr, ap, ◌==◌,
}
use flameping.Prelude.Int.{ℤ, pos, pos_part, ◌+ℤ◌, +ℤ_parts, ltb_ℤ, ◌≤ℤ◌}
use flameping.Config.{ObsessConfig, TargetConfig, Config}
use flameping.Config.Effective.{Go, effective_timeout, effective_obsess, min_ℤ}
use flameping.Config.Slots.{
  duration_slots, add_slots, obsess_slots, obsess_enabled, max_obsess_state_slots,
}
use flameping.Config.Validate.{ping_problems, total_problems, validate}
use flameping.Config.Sound.{reported_nil, validate_nil}

-- The slots of one target, with no clamping: as many intervals as its timeout and its window take up,
-- and four.
unfoldable pub slots_of : ℤ → ObsessConfig → ℕ
slots_of timeout o =
    if ltb_ℤ (pos 0) o.interval && (ltb_ℤ (pos 0) timeout && ltb_ℤ (pos 0) o.baseline_window)
    then duration_slots (pos_part timeout) (pos_part o.interval)
      + duration_slots (pos_part o.baseline_window) (pos_part o.interval)
      + 4
    else 0

unfoldable pub slots_needed : Config → List TargetConfig → ℕ
slots_needed c [] = 0
slots_needed c (t ∷ ts) =
    (elim (effective_obsess t c) [ none ↦ 0 | some o ↦ slots_of (effective_timeout t c) o ])
    + slots_needed c ts

abbrev full : ℕ
full = max_obsess_state_slots + 1

add_slots_exact :
    (timeout : ℤ) (o : ObsessConfig) (s : ℕ)
    → add_slots timeout o (min s full) ≡ min (s + slots_of timeout o) full
unfolding add_slots slots_of
add_slots_exact timeout o s = ground arith

obsess_slots_exact :
    (c : Config) (ts : List TargetConfig) (s : ℕ)
    → obsess_slots c ts (min s full) ≡ min (s + slots_needed c ts) full
unfolding obsess_slots slots_needed
obsess_slots_exact c [] s = omega arith
obsess_slots_exact c (t ∷ ts) s = elim (Option-cases (effective_obsess t c)) [
  | inl e ↦ rw (e) (obsess_slots_exact c ts s ∙ ap (λ n. min n full) (omega arith))
  | inr (o, e) ↦
      rw (e, add_slots_exact (effective_timeout t c) o s)
        (obsess_slots_exact c ts (s + slots_of (effective_timeout t c) o)
          ∙ ap (λ n. min n full) (omega arith))
]

-- durationSlots, for a positive interval, is the number of intervals that cover the window: so many
-- do, and one fewer does not.
pub duration_slots_lem :
    (window interval : ℕ)
    → 0 < interval
    → (window ≤ duration_slots window interval * interval)
      × (duration_slots window interval * interval < window + interval)
unfolding duration_slots
duration_slots_lem window interval h = elim (Bool-cases (window % interval == 0)) [
  | inl e ↦ rw (e) (grind (arith, e, div-add-mod window interval))
  | inr e ↦ rw (e) (grind (arith, e, div-add-mod window interval))
]

module _ {F : Type 0} (go : Go F) (c : Config) where
  queues : ping_problems go c ≡ [] → pos 1 ≤ℤ c.ping.send_queue
  unfolding ping_problems
  queues h = ground (arith, reported_nil _ h)

  totals_fit :
      total_problems go c ≡ []
      → obsess_enabled c c.targets ≡ true
      → pos (obsess_slots c c.targets 0)
          +ℤ (min_ℤ c.ping.send_queue (pos full) +ℤ min_ℤ c.ping.send_queue (pos full))
        ≤ℤ pos max_obsess_state_slots
  unfolding total_problems
  totals_fit h enabled = ground (arith, enabled, reported_nil _ h)

  -- Validate, where it reports nothing and a target has opted in to obsess: the slots that all targets
  -- need, counted without the clamps that keep the code's sum in range, and the queued sends of both
  -- families are at most 100000.
  pub validate_slots :
      validate go c ≡ []
      → obsess_enabled c c.targets ≡ true
      → slots_needed c c.targets + 2 * pos_part c.ping.send_queue ≤ max_obsess_state_slots
  validate_slots h enabled =
      let (pinging, targets, totals) = validate_nil go c h in
      let fit = totals_fit totals enabled in
      let exact : obsess_slots c c.targets 0 ≡ min (0 + slots_needed c c.targets) full =
        obsess_slots_exact c c.targets 0 in
      let queue = min_ℤ c.ping.send_queue (pos full) in
      ground (
        arith,
        fit,
        exact,
        queues pinging,
        +ℤ_parts (pos (obsess_slots c c.targets 0)) (queue +ℤ queue),
        +ℤ_parts queue queue,
      )
