-- ===== src/Config/Retention.antt =====
-- internal/config/config.go: the retention of raw data against the targets' timeouts.
use flameping.Prelude.{◌^◌, ◌-◌, ◌≡◌, subst, List, [], ◌∷◌, All, arith}
use flameping.Prelude.Int.{ℤ, pos, ◌+ℤ◌, +ℤ_parts, ◌≤ℤ◌, ◌<ℤ◌, wrap_64}
use flameping.Config.{TargetConfig, Config}
use flameping.Config.Effective.{Go, minute, effective_timeout}
use flameping.Config.Validate.{ping_problems, largest_timeout, total_problems, validate}
use flameping.Config.Sound.{
  reported_nil, validate_nil, IsUsable, IsUsable-from, le-largest_timeout, largest_timeout-lt,
}

wrap_small : (a : ℤ) → pos 0 ≤ℤ a → a <ℤ pos (2 ^ 63) → wrap_64 a ≡ a
unfolding wrap_64
wrap_small a h k = ground (arith, h, k)

module _ {F : Type 0} (go : Go F) (c : Config) where
  timeouts :
      (ts : List TargetConfig)
      → All (IsUsable go c) ts
      → All (λ (t : TargetConfig). effective_timeout t c <ℤ c.storage.raw_retention) ts
  timeouts [] h = tt
  timeouts (t ∷ ts) (first, h) = (first.retained, timeouts ts h)

  default_timeout :
      ping_problems go c ≡ []
      → (pos 0 <ℤ c.ping.timeout) × (c.ping.timeout <ℤ c.storage.raw_retention)
  unfolding ping_problems
  default_timeout h = ground (arith, reported_nil _ h)

  largest_fits :
      total_problems go c ≡ []
      → wrap_64 (largest_timeout go c c.ping.timeout c.targets +ℤ pos minute)
        ≤ℤ c.storage.raw_retention
  unfolding total_problems
  largest_fits h = ground (arith, reported_nil _ h)

  below :
      (largest : ℤ) (ts : List TargetConfig)
      → All (λ (t : TargetConfig). effective_timeout t c ≤ℤ largest) ts
      → largest +ℤ pos minute ≤ℤ c.storage.raw_retention
      → All
          (λ (t : TargetConfig). effective_timeout t c +ℤ pos minute ≤ℤ c.storage.raw_retention)
          ts
  below largest [] h fits = tt
  below largest (t ∷ ts) (first, h) fits = (
    omega (
      arith,
      first,
      fits,
      +ℤ_parts largest (pos minute),
      +ℤ_parts (effective_timeout t c) (pos minute),
    ),
    below largest ts h fits,
  )

  -- Validate, where it reports nothing and the retention of raw data leaves room for one minute in an
  -- int64: that retention exceeds the timeout of every target by a minute or more.
  pub validate_retention :
      validate go c ≡ []
      → c.storage.raw_retention ≤ℤ pos (2 ^ 63 - 1 - minute)
      → All
          (λ (t : TargetConfig). effective_timeout t c +ℤ pos minute ≤ℤ c.storage.raw_retention)
          c.targets
  validate_retention h room =
      let (pinging, targets, totals) = validate_nil go c h in
      let (positive, short) = default_timeout pinging in
      let largest = largest_timeout go c c.ping.timeout c.targets in
      let (least, all) = le-largest_timeout go c c.ping.timeout c.targets in
      let most =
        largest_timeout-lt go c c.storage.raw_retention c.ping.timeout c.targets short
          (timeouts c.targets (IsUsable-from go c [] c.targets targets).1) in
      let sum = +ℤ_parts largest (pos minute) in
      below largest c.targets all (
        subst (λ z. z ≤ℤ c.storage.raw_retention)
          (wrap_small (largest +ℤ pos minute) (omega (arith, least, positive, sum))
            (omega (arith, most, room, sum)))
          (largest_fits totals))
