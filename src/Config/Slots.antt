-- ===== src/Config/Slots.antt =====
-- internal/config/config.go: the slots of obsess state that a target may need.
use flameping.Prelude.{
  ℕ, ◌+◌, ◌/◌, ◌%◌, min, Bool, true, false, ◌&&◌, ◌==◌, if◌then◌else◌, List, [], ◌∷◌, none, some,
}
use flameping.Prelude.Int.{ℤ, pos, pos_part, ltb_ℤ}
use flameping.Config.{ObsessConfig, TargetConfig, Config}
use flameping.Config.Effective.{effective_interval, effective_timeout, effective_obsess, min_ℤ}

abbrev pub max_obsess_state_slots : ℕ
max_obsess_state_slots = 100000

-- `durationSlots`, for a positive interval.
unfoldable pub duration_slots : ℕ → ℕ → ℕ
duration_slots window interval =
    let count = window / interval in if window % interval == 0 then count else count + 1

abbrev pub clamp : ℕ → ℕ
clamp n = min (max_obsess_state_slots + 1) n

-- What a target adds to `obsessSlots`: nothing where its settings are not positive.
unfoldable pub add_slots : ℤ → ObsessConfig → ℕ → ℕ
add_slots timeout o slots =
    if ltb_ℤ (pos 0) o.interval && (ltb_ℤ (pos 0) timeout && ltb_ℤ (pos 0) o.baseline_window)
    then min
        (slots
          + (clamp (duration_slots (pos_part timeout) (pos_part o.interval))
              + clamp (duration_slots (pos_part o.baseline_window) (pos_part o.interval))
              + 4))
        (max_obsess_state_slots + 1)
    else slots

unfoldable pub obsess_slots : Config → List TargetConfig → ℕ → ℕ
obsess_slots c [] slots = slots
obsess_slots c (t ∷ ts) slots = obsess_slots c ts (elim (effective_obsess t c) [
  | none ↦ slots
  | some o ↦ add_slots (effective_timeout t c) o slots
])

-- `obsessEnabled`.
unfoldable pub obsess_enabled : Config → List TargetConfig → Bool
obsess_enabled c [] = false
obsess_enabled c (t ∷ ts) = elim (effective_obsess t c) [
  | none ↦ obsess_enabled c ts
  | some o ↦ true
]

-- The shortest interval at which a target is probed.
unfoldable pub fastest : TargetConfig → Config → ℤ
fastest t c = elim (effective_obsess t c) [
  | none ↦ effective_interval t c
  | some o ↦
      if ltb_ℤ (pos 0) o.interval
      then min_ℤ (effective_interval t c) o.interval
      else effective_interval t c
]
