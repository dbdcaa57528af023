-- ===== src/Histogram.antt =====
-- internal/histogram/histogram.go: the latency histogram. The map `buckets` is kept as the list of
-- its entries, an index and a count, in increasing order of the index, so `indices` reads the
-- indices off in the order that the code sorts them into. A uint64 sum wraps.
-- What the float64 functions of Go's `math` package return is a parameter, `Floats`.
pub mod Codec
pub mod Quantiles
pub mod TopBins
pub mod Invariant
pub mod Merge
pub mod Canonical
mod Scenarios
use flameping.Prelude.{
  ℕ, ◌+◌, ◌-◌, ◌%◌, ◌^◌, List, [], ◌∷◌, Bool, true, false, ltb, leb, ◌==◌, if◌then◌else◌, map,
}
use flameping.Prelude.Int.{ℤ, pos, negsuc}

abbrev pub u64 : ℕ → ℕ
u64 n = n % 2 ^ 64

abbrev pub max_uint32 : ℕ
max_uint32 = 2 ^ 32 - 1

abbrev pub max_uint64 : ℕ
max_uint64 = 2 ^ 64 - 1

-- `log_floor v` is `math.Floor(math.Log(float64(v)) / logGamma)`, `exp_floor i` the floor of
-- `math.Exp(float64(i) * logGamma)`, and `exp_round i` `math.Round` of
-- `math.Exp((float64(i) + 0.5) * logGamma)`; where these pass 2^64, any number from 2^64 on.
pub record Floats : Type 0 where
  pub log_floor : ℕ → ℤ
  pub exp_floor : ℕ → ℕ
  pub exp_round : ℕ → ℕ

pub record Entry : Type 0 where
  pub index : ℕ
  pub count : ℕ

pub record Histogram : Type 0 where
  pub buckets : List Entry
  pub count : ℕ

unfoldable pub new : Histogram
new = record { buckets = []; count = 0 }

-- `buckets[index] += n`, with the wrap of uint64.
unfoldable pub add_at : ℕ → ℕ → List Entry → List Entry
add_at index n [] = record { index = index; count = u64 n } ∷ []
add_at index n (e ∷ es) =
    if index == e.index
    then record e { count = u64 (e.count + n) } ∷ es
    else if ltb index e.index
    then record { index = index; count = u64 n } ∷ e ∷ es
    else e ∷ add_at index n es

-- `buckets[index]`, 0 where the key is missing.
unfoldable pub count_at : ℕ → List Entry → ℕ
count_at index [] = 0
count_at index (e ∷ es) = if index == e.index then e.count else count_at index es

-- The conversion of the float index to uint32, with its two clamps.
unfoldable pub clamp_index : ℤ → ℕ
clamp_index (negsuc n) = 0
clamp_index (pos n) = if leb max_uint32 n then max_uint32 else n

module _ (floats : Floats) where
  unfoldable pub bucket : ℕ → ℕ
  unfolding clamp_index
  bucket value = clamp_index (floats.log_floor value)

  unfoldable pub bin_low : ℕ → ℕ
  bin_low index =
      if leb (2 ^ 64) (floats.exp_floor index) then max_uint64 else floats.exp_floor index

  unfoldable pub bin_value : ℕ → ℕ
  bin_value index =
      if leb (2 ^ 64) (floats.exp_round index) then max_uint64 else floats.exp_round index

  unfoldable pub observe : Histogram → ℕ → Histogram
  unfolding bucket
  observe h value =
      let index = bucket (if value == 0 then 1 else value) in
      record { buckets = add_at index 1 h.buckets; count = u64 (h.count + 1) }

-- The loop of `Merge` over the other histogram's buckets.
unfoldable pub add_all : List Entry → List Entry → List Entry
add_all [] es = es
add_all (o ∷ os) es = add_all os (add_at o.index o.count es)

unfoldable pub merge : Histogram → Histogram → Histogram
unfolding add_all
merge h other = record {
  buckets = add_all other.buckets h.buckets;
  count = u64 (h.count + other.count);
}

unfoldable pub indices : Histogram → List ℕ
indices h = map (λ e. e.index) h.buckets
