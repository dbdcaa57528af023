-- ===== src/Config/Sound.antt =====
-- internal/config/config.go: what a configuration without problems promises.
use Prim.Native.String.{String}
use text.Mathlib.TextPositions.{eq_refl}
use flameping.Prelude.{
  ◌≢◌, ◌*◌, ◌≡◌, refl, Bool, true, false, List, [], ◌∷◌, ◌++◌, Option, none, some, All, arith, map,
}
use flameping.Prelude.Int.{ℤ, pos, ◌≤ℤ◌, ◌<ℤ◌}
use flameping.Config.{ObsessConfig, TargetConfig, Config}
use flameping.Config.Effective.{
  Go, threshold, millisecond, max_ℤ, effective_interval, effective_timeout, effective_min_interval,
  effective_obsess, contains,
}
use flameping.Config.Validate.{
  Problem, reported, target_problems, obsess_problems, threshold_problems, targets_problems,
  listen_problems, storage_problems, ping_problems, largest_timeout, total_problems, validate,
}

-- No test holds.
abbrev pub AllFalse : List (Bool × Problem) → Type 0
AllFalse [] = Unit
AllFalse ((holds, problem) ∷ rest) = (holds ≡ false) × AllFalse rest

pub reported_nil : (checks : List (Bool × Problem)) → reported checks ≡ [] → AllFalse checks
unfolding reported
reported_nil [] h = tt
reported_nil ((true, problem) ∷ rest) h = ground (arith, h)
reported_nil ((false, problem) ∷ rest) h = (refl, reported_nil rest h)

pub append_nil_iff : (xs ys : List Problem) → xs ++ ys ≡ [] → (xs ≡ []) × (ys ≡ [])
append_nil_iff [] ys h = (refl, h)
append_nil_iff (x ∷ xs) ys h = ground (arith, h)

-- The names are different.
abbrev pub AreDistinct : List String → Type 0
AreDistinct [] = Unit
AreDistinct (n ∷ ns) = All (λ (m : String). n ≢ m) ns × AreDistinct ns

-- No name is among those before it.
abbrev pub IsFresh : List String → List String → Type 0
IsFresh seen [] = Unit
IsFresh seen (n ∷ ns) = (contains seen n ≡ false) × IsFresh (n ∷ seen) ns

IsFresh-All :
    (name : String) (seen ns : List String)
    → contains seen name ≡ true
    → IsFresh seen ns
    → All (λ (m : String). name ≢ m) ns
unfolding contains
IsFresh-All name seen [] h fresh = tt
IsFresh-All name seen (n ∷ ns) h (new, fresh) =
    (λ same. cc (new, h, same), IsFresh-All name (n ∷ seen) ns (ground (arith, h)) fresh)

pub IsFresh-AreDistinct : (seen ns : List String) → IsFresh seen ns → AreDistinct ns
unfolding contains
IsFresh-AreDistinct seen [] fresh = tt
IsFresh-AreDistinct seen (n ∷ ns) (new, fresh) = (
  IsFresh-All n (n ∷ seen) ns (ground (arith, eq_refl n)) fresh,
  IsFresh-AreDistinct (n ∷ seen) ns fresh,
)

module _ {F : Type 0} (go : Go F) (c : Config) where
  target_problems_nil :
      (seen : List String) (t : TargetConfig)
      → target_problems go c seen t ≡ []
      → (contains seen t.id ≡ false)
        × (pos (100 * millisecond) ≤ℤ effective_min_interval t c)
        × (effective_min_interval t c ≤ℤ effective_interval t c)
        × (pos 0 <ℤ effective_timeout t c)
        × (effective_timeout t c <ℤ c.storage.raw_retention)
  unfolding target_problems
  target_problems_nil seen t h = ground (arith, reported_nil _ h)

  -- What holds of the obsess settings of a target, if it has any.
  abbrev pub IsTunable : TargetConfig → Option ObsessConfig → Type 0
  IsTunable t none = Unit
  IsTunable t (some o) =
      (effective_min_interval t c ≤ℤ o.interval)
      × (pos 0 <ℤ o.interval)
      × (o.interval <ℤ effective_interval t c)
      × ((limit : ℤ × F) × (threshold go o ≡ some limit))
      × (pos 0 <ℤ o.baseline_window)
      × (pos 0 <ℤ o.recover_after)
      × (pos 0 <ℤ o.min_samples)

  -- What holds of a target.
  pub record IsUsable (t : TargetConfig) : Type 0 where
    pub floor : pos (100 * millisecond) ≤ℤ effective_min_interval t c
    pub paced : effective_min_interval t c ≤ℤ effective_interval t c
    pub waits : pos 0 <ℤ effective_timeout t c
    pub retained : effective_timeout t c <ℤ c.storage.raw_retention
    pub tuned : IsTunable t (effective_obsess t c)

  threshold_problems_nil :
      (timeout : ℤ) (limit : Option (ℤ × F))
      → threshold_problems go timeout limit ≡ []
      → (l : ℤ × F) × (limit ≡ some l)
  unfolding threshold_problems
  threshold_problems_nil timeout none h = ground (arith, h)
  threshold_problems_nil timeout (some l) h = (l, refl)

  obsess_problems_nil :
      (t : TargetConfig) (o : ObsessConfig) → obsess_problems go c t o ≡ [] → IsTunable t (some o)
  unfolding obsess_problems
  obsess_problems_nil t o h =
      let (timing, rest) = append_nil_iff _ _ h in
      let (limit, positive) = append_nil_iff _ _ rest in
      let (found, known) = threshold_problems_nil (effective_timeout t c) (threshold go o) limit in
      let (in_time, slower) = reported_nil _ timing in
      let (all_positive, fitting) = reported_nil _ positive in
      (
        ground (arith, in_time),
        ground (arith, in_time),
        ground (arith, slower),
        (found, known),
        ground (arith, all_positive),
        ground (arith, all_positive),
        ground (arith, all_positive),
      )

  tuned_nil :
      (t : TargetConfig) (settings : Option ObsessConfig)
      → (elim settings [ none ↦ [] | some o ↦ obsess_problems go c t o ]) ≡ []
      → IsTunable t settings
  tuned_nil t none h = tt
  tuned_nil t (some o) h = obsess_problems_nil t o h

  pub IsUsable-from :
      (seen : List String) (ts : List TargetConfig)
      → targets_problems go c seen ts ≡ []
      → IsFresh seen (map (λ (t : TargetConfig). t.id) ts) × All IsUsable ts
  unfolding targets_problems
  IsUsable-from seen [] h = (tt, tt)
  IsUsable-from seen (t ∷ ts) h =
      let (own, more) = append_nil_iff _ _ h in
      let (settings, rest) = append_nil_iff _ _ more in
      let (new, floor, paced, waits, retained) = target_problems_nil seen t own in
      let (fresh, usable) = IsUsable-from (t.id ∷ seen) ts rest in
      let first : IsUsable t = record {
        floor = floor;
        paced = paced;
        waits = waits;
        retained = retained;
        tuned = tuned_nil t (effective_obsess t c) settings;
      } in
      ((new, fresh), (first, usable))

  -- The parts of `Validate` that say something of the targets.
  pub validate_nil :
      validate go c ≡ []
      → (ping_problems go c ≡ [])
        × (targets_problems go c [] c.targets ≡ [])
        × (total_problems go c ≡ [])
  unfolding validate
  validate_nil h =
      let (listening, h1) = append_nil_iff (listen_problems go c.server) _ h in
      let (stored, h2) = append_nil_iff (storage_problems go c) _ h1 in
      let (pinging, h3) = append_nil_iff (ping_problems go c) _ h2 in
      let (targets, h4) = append_nil_iff (targets_problems go c [] c.targets) _ h3 in
      (pinging, targets, (append_nil_iff (total_problems go c) _ h4).0)

  -- The greatest timeout is not below any.
  pub le-largest_timeout :
      (largest : ℤ) (ts : List TargetConfig)
      → (largest ≤ℤ largest_timeout go c largest ts)
        × All (λ (t : TargetConfig). effective_timeout t c ≤ℤ largest_timeout go c largest ts) ts
  unfolding largest_timeout
  le-largest_timeout largest [] = (ground arith, tt)
  le-largest_timeout largest (t ∷ ts) =
      let (above, others) = le-largest_timeout (max_ℤ largest (effective_timeout t c)) ts in
      (ground (arith, above), (ground (arith, above), others))

  pub largest_timeout-lt :
      (bound largest : ℤ) (ts : List TargetConfig)
      → largest <ℤ bound
      → All (λ (t : TargetConfig). effective_timeout t c <ℤ bound) ts
      → largest_timeout go c largest ts <ℤ bound
  unfolding largest_timeout
  largest_timeout-lt bound largest [] h all = h
  largest_timeout-lt bound largest (t ∷ ts) h (first, all) =
      largest_timeout-lt bound (max_ℤ largest (effective_timeout t c)) ts (ground (arith, h, first))
        all
