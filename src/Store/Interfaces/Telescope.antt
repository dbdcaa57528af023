-- ===== src/Store/Interfaces/Telescope.antt =====
-- internal/store/sqlite/rollup.go, `aggregateInterfaceRows`: the sums over pairs of neighbours are
-- differences of the last row and the first.
use flameping.Prelude.{
  ◌∙◌, All, ℕ, zero, suc, ◌+◌, ◌-◌, ◌*◌, ◌≤◌, ◌<◌, ◌≡◌, refl, ap, List, [], ◌∷◌, false, leb, arith,
  length, Option-cases, inl, inr, ◌⊎◌,
}
use flameping.Store.Interfaces.{
  InterfaceAggregate, InterfaceRow, RowError, Summed, add_deltas, add_interface_row,
  add_interface_rows, aggregate_interface_rows, counter, counter_count, no_interface, refused,
  summed, with_pair, zero_counters,
}
use flameping.Store.Interfaces.Deltas.{HasGrown, NotLower, add_deltas-some, add_deltas_grown}

-- The array of a row.
abbrev pub IsFull : InterfaceRow → Type 0
IsFull r = length r.counters ≡ counter_count

-- Row by row, time goes on and no counter goes down.
abbrev pub IsSteady : InterfaceRow → List InterfaceRow → Type 0
IsSteady previous [] = Unit
IsSteady previous (row ∷ rows) =
    (previous.at < row.at) × NotLower previous.counters row.counters × IsSteady row rows

abbrev pub last_row : InterfaceRow → List InterfaceRow → InterfaceRow
last_row previous [] = previous
last_row previous (row ∷ rows) = last_row row rows

counter-zero_counters : (j n : ℕ) → counter j (zero_counters n) ≡ 0
unfolding counter zero_counters
counter-zero_counters j zero = refl
counter-zero_counters zero (suc n) = refl
counter-zero_counters (suc j) (suc n) = counter-zero_counters j n

below : (a b : ℕ) → b < a → leb a b ≡ false
below a b h = ground arith

-- What a round adds where it does not fail.
pub record IsStep (a : InterfaceAggregate) (previous row : InterfaceRow) (b : InterfaceAggregate)
    : Type 0 where
  pub later : previous.at ≤ row.at
  pub elapsed_grown : b.elapsed ≡ a.elapsed + (row.at - previous.at) * 1000
  pub samples_same : b.samples ≡ a.samples
  pub width : length b.delta ≡ counter_count
  pub grown : HasGrown a.delta previous.counters row.counters b.delta

Summed-cases :
    {A : Type 0} (o : Summed A) → ((e : RowError) × (o ≡ refused e)) ⊎ ((a : A) × (o ≡ summed a))
Summed-cases (refused e) = inl (e, refl)
Summed-cases (summed a) = inr (a, refl)

-- The rows between cancel out.
together :
    (a c b : InterfaceAggregate) (p q r : InterfaceRow)
    → IsStep a p q c
    → IsStep c q r b
    → IsStep a p r b
unfolding HasGrown
together a c b p q r s t = record {
  later = omega (arith, s.later, t.later);
  elapsed_grown = omega (arith, s.elapsed_grown, t.elapsed_grown, s.later, t.later);
  samples_same = t.samples_same ∙ s.samples_same;
  width = t.width;
  grown = λ j. omega (arith, s.grown j, t.grown j);
}

module _ (rate_of : ℕ → ℕ → ℕ) where
  add_interface_row-some :
      (a : InterfaceAggregate) (previous row : InterfaceRow)
      → length a.delta ≡ counter_count
      → IsFull previous
      → IsFull row
      → previous.at < row.at
      → NotLower previous.counters row.counters
      → (b : InterfaceAggregate) × (add_interface_row rate_of a previous row ≡ summed b)
  unfolding add_interface_row
  add_interface_row-some a previous row w p r later h =
      let (sums, done) =
        add_deltas-some a.delta previous.counters row.counters (omega (arith, p, w))
          (omega (arith, r, w)) h in
      (with_pair rate_of a previous row sums, rw (below row.at previous.at later, done) refl)

  add_interface_row-IsStep :
      (a b : InterfaceAggregate) (previous row : InterfaceRow)
      → length a.delta ≡ counter_count
      → IsFull previous
      → IsFull row
      → add_interface_row rate_of a previous row ≡ summed b
      → (previous.at < row.at) × NotLower previous.counters row.counters × IsStep a previous row b
  unfolding add_interface_row
  add_interface_row-IsStep a b previous row w p r h =
      elim (Option-cases (add_deltas a.delta previous.counters row.counters)) [
        | inl bad ↦ absurd (ground (arith, h, bad))
        | inr (sums, good) ↦
            let (width, low, grown) =
              add_deltas_grown a.delta previous.counters row.counters sums (omega (arith, p, w))
                (omega (arith, r, w)) good in
            let later : previous.at < row.at = ground (arith, h) in
            let delta : b.delta ≡ sums = ground (arith, h, good) in
            (
              later,
              low,
              record {
                later = omega (arith, later);
                elapsed_grown = ground (arith, h, good);
                samples_same = ground (arith, h, good);
                width = ap length delta ∙ width ∙ w;
                grown = rw delta grown;
              },
            )
      ]

  add_interface_rows-some :
      (a : InterfaceAggregate) (previous : InterfaceRow) (rows : List InterfaceRow)
      → length a.delta ≡ counter_count
      → IsFull previous
      → All IsFull rows
      → IsSteady previous rows
      → (b : InterfaceAggregate) × (add_interface_rows rate_of a previous rows ≡ summed b)
  unfolding add_interface_rows
  add_interface_rows-some a previous [] w p full steady = (a, refl)
  add_interface_rows-some a previous (row ∷ rows) w p (r, full) (later, low, steady) =
      let (b, one) = add_interface_row-some a previous row w p r later low in
      let (_, _, step) = add_interface_row-IsStep a b previous row w p r one in
      let (c, all) = add_interface_rows-some b row rows step.width r full steady in
      (c, rw (add_interface_rows, one) all)

  add_interface_rows-IsStep :
      (a b : InterfaceAggregate) (previous : InterfaceRow) (rows : List InterfaceRow)
      → length a.delta ≡ counter_count
      → IsFull previous
      → All IsFull rows
      → add_interface_rows rate_of a previous rows ≡ summed b
      → IsSteady previous rows × IsStep a previous (last_row previous rows) b
  unfolding add_interface_rows
  add_interface_rows-IsStep a b previous [] w p full h =
      let same : b ≡ a = ground (arith, h) in
      rw same (
        tt,
        record {
          later = omega arith;
          elapsed_grown = omega arith;
          samples_same = refl;
          width = w;
          grown = unfold HasGrown in λ j. refl;
        },
      )
  add_interface_rows-IsStep a b previous (row ∷ rows) w p (r, full) h =
      elim (Summed-cases (add_interface_row rate_of a previous row)) [
        | inl (e, bad) ↦ absurd (ground (arith, h, bad))
        | inr (c, one) ↦
            let (later, low, step) = add_interface_row-IsStep a c previous row w p r one in
            let rest : add_interface_rows rate_of c row rows ≡ summed b = ground (arith, h, one) in
            let (steady, steps) = add_interface_rows-IsStep c b row rows step.width r full rest in
            ((later, low, steady), together a c b previous row (last_row row rows) step steps)
      ]

  -- On rows of fifteen counters, aggregateInterfaceRows succeeds exactly where the time of each row is
  -- later than that of the row before and no counter goes down. Its deltas are then the counters of
  -- the last row less those of the first, its elapsed time is that between these two, and its samples
  -- are the rows.
  pub aggregate_interface_rows_lem :
      (first : InterfaceRow) (rows : List InterfaceRow)
      → All IsFull (first ∷ rows)
      → (IsSteady first rows
          → (a : InterfaceAggregate) × (aggregate_interface_rows rate_of (first ∷ rows) ≡ summed a))
        × ((a : InterfaceAggregate)
            → aggregate_interface_rows rate_of (first ∷ rows) ≡ summed a
            → IsSteady first rows
              × (a.elapsed ≡ ((last_row first rows).at - first.at) * 1000)
              × (a.samples ≡ length (first ∷ rows))
              × ((j : ℕ)
                  → counter j a.delta + counter j first.counters
                    ≡ counter j (last_row first rows).counters))
  unfolding aggregate_interface_rows no_interface
  aggregate_interface_rows_lem first rows (f, full) =
      let start : InterfaceAggregate = record no_interface { samples = length (first ∷ rows) } in
      (
        λ steady. add_interface_rows-some start first rows refl f full steady,
        λ a h.
            let (steady, step) = add_interface_rows-IsStep start a first rows refl f full h in
            (
              steady,
              omega (arith, step.elapsed_grown),
              step.samples_same,
              λ j.
                  unfold HasGrown in
                  omega (arith, step.grown j, counter-zero_counters j counter_count),
            ),
      )
