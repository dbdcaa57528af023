-- ===== src/Store/Interfaces.antt =====
-- internal/store/sqlite/rollup.go: the rollups of an interface's minutes and hours. What the float64
-- division of a rate returns is a parameter, and the fifteen counters of a row are a list. Sums of
-- int64 are far below 2^63, as the counters themselves are int64 in their columns.
pub mod Deltas
pub mod Telescope
use flameping.Prelude.{
  ℕ, zero, suc, ◌+◌, ◌-◌, ◌*◌, ◌^◌, List, [], ◌∷◌, Bool, true, false, ltb, leb, ◌==◌, ◌||◌,
  if◌then◌else◌, Option, none, some, length,
}
use flameping.Store.Pings.{max_int64}

pub record InterfaceRow : Type 0 where
  pub at : ℕ
  pub counters : List ℕ

pub record InterfaceAggregate : Type 0 where
  pub elapsed : ℕ
  pub samples : ℕ
  pub resets : ℕ
  pub delta : List ℕ
  pub peak_rx_bytes : ℕ
  pub peak_tx_bytes : ℕ

pub data RowError : Type 0 where
  not_ordered counter_decreased : RowError

pub data Summed (A : Type 0) : Type 0 where
  summed : A → Summed A
  refused : RowError → Summed A

abbrev pub counter_count : ℕ
counter_count = 15

unfoldable pub zero_counters : ℕ → List ℕ
zero_counters zero = []
zero_counters (suc n) = 0 ∷ zero_counters n

-- `var agg interfaceAggregate`.
unfoldable pub no_interface : InterfaceAggregate
unfolding zero_counters
no_interface = record {
  elapsed = 0;
  samples = 0;
  resets = 0;
  delta = zero_counters counter_count;
  peak_rx_bytes = 0;
  peak_tx_bytes = 0;
}

-- The loop over the counters: `none` where one has decreased. The three arrays have one length.
unfoldable pub add_deltas : List ℕ → List ℕ → List ℕ → Option (List ℕ)
add_deltas [] previous current = some []
add_deltas (d ∷ ds) [] current = some (d ∷ ds)
add_deltas (d ∷ ds) (p ∷ ps) [] = some (d ∷ ds)
add_deltas (d ∷ ds) (p ∷ ps) (c ∷ cs) =
    if ltb c p
    then none
    else elim (add_deltas ds ps cs) [ none ↦ none | some rest ↦ some ((d + (c - p)) ∷ rest) ]

unfoldable pub counter : ℕ → List ℕ → ℕ
counter i [] = 0
counter zero (c ∷ cs) = c
counter (suc i) (c ∷ cs) = counter i cs

-- `rate_of delta elapsed` is `float64(delta) * 1_000_000 / float64(elapsed)` without its fraction, or
-- any number from 2^63 on where it is that large.
module _ (rate_of : ℕ → ℕ → ℕ) where
  unfoldable pub interface_rate : ℕ → ℕ → ℕ
  interface_rate delta elapsed_us =
      if delta == 0 || elapsed_us == 0
      then 0
      else if leb (max_int64 + 1) (rate_of delta elapsed_us)
      then max_int64
      else rate_of delta elapsed_us

  unfoldable pub peak : ℕ → ℕ → ℕ
  peak highest rate = if ltb highest rate then rate else highest

  -- The aggregate with one more pair of neighbours.
  unfoldable pub with_pair :
      InterfaceAggregate → InterfaceRow → InterfaceRow → List ℕ → InterfaceAggregate
  unfolding interface_rate peak counter
  with_pair a previous row delta =
      let elapsed_us = row.at - previous.at in
      let rate = λ (i : ℕ).
        interface_rate (counter i row.counters - counter i previous.counters) elapsed_us in
      record a {
        elapsed = a.elapsed + elapsed_us * 1000;
        delta = delta;
        peak_rx_bytes = peak a.peak_rx_bytes (rate 0);
        peak_tx_bytes = peak a.peak_tx_bytes (rate 1);
      }

  -- One round of the loop of `aggregateInterfaceRows`.
  unfoldable pub add_interface_row :
      InterfaceAggregate → InterfaceRow → InterfaceRow → Summed InterfaceAggregate
  unfolding add_deltas with_pair
  add_interface_row a previous row =
      if leb row.at previous.at
      then refused not_ordered
      else elim (add_deltas a.delta previous.counters row.counters) [
        | none ↦ refused counter_decreased
        | some delta ↦ summed (with_pair a previous row delta)
      ]

  unfoldable pub add_interface_rows :
      InterfaceAggregate → InterfaceRow → List InterfaceRow → Summed InterfaceAggregate
  add_interface_rows a previous [] = summed a
  add_interface_rows a previous (row ∷ rows) = elim (add_interface_row a previous row) [
    | refused e ↦ refused e
    | summed b ↦ add_interface_rows b row rows
  ]

  unfoldable pub aggregate_interface_rows : List InterfaceRow → Summed InterfaceAggregate
  unfolding no_interface
  aggregate_interface_rows [] = summed no_interface
  aggregate_interface_rows (first ∷ rows) =
      add_interface_rows (record no_interface { samples = length (first ∷ rows) }) first rows
