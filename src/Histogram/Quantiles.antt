-- ===== src/Histogram/Quantiles.antt =====
-- internal/histogram/histogram.go, `Quantiles` and `Quantile`: all ranks in one scan. What float64
-- does is a parameter, `Ranks`: a quantile `q` is clamped between `zero_q` and `one_q` by the
-- comparison `less`, and `rank_of q n` is `uint64(math.Ceil(q * float64(n)))`.
pub mod Scan
pub mod Sorting
use flameping.Prelude.{
  ℕ, zero, suc, ◌+◌, List, [], ◌∷◌, Bool, true, false, ltb, leb, ◌==◌, if◌then◌else◌, length, set,
  Option, none, some, get_elem?,
}
use flameping.Histogram.{Histogram, Entry, Floats, u64, bin_value}

pub record Request : Type 0 where
  pub rank : ℕ
  pub index : ℕ

-- `sort.SliceStable` by rank: requests of one rank keep their order, which fixes its result.
unfoldable pub insert : Request → List Request → List Request
insert r [] = r ∷ []
insert r (s ∷ rs) = if leb r.rank s.rank then r ∷ s ∷ rs else s ∷ insert r rs

unfoldable pub sort : List Request → List Request
sort [] = []
sort (r ∷ rs) = insert r (sort rs)

unfoldable pub replicate : ℕ → List ℕ
replicate zero = []
replicate (suc n) = 0 ∷ replicate n

-- The inner loop: every request whose rank has been reached gets the value. What is returned is the
-- requests that are left and the values.
unfoldable pub settle : ℕ → ℕ → List Request → List ℕ → List Request × List ℕ
settle seen value [] values = ([], values)
settle seen value (r ∷ rs) values =
    let rest = settle seen value rs (set values r.index value) in
    if leb r.rank seen then rest else (r ∷ rs, values)

module _ (floats : Floats) where
  -- The scan over the buckets, which stops when no request is left.
  unfoldable pub scan : List Entry → ℕ → List Request → List ℕ → List ℕ
  scan [] seen rs values = values
  scan (e ∷ es) seen [] values = values
  scan (e ∷ es) seen (r ∷ rs) values =
      let seen' = u64 (seen + e.count) in
      let (left, values') = settle seen' (bin_value floats e.index) (r ∷ rs) values in
      scan es seen' left values'

-- float64: the ends of the range of quantiles, the comparison, and the rank of a quantile.
pub record Ranks (F : Type 0) : Type 0 where
  pub zero_q : F
  pub one_q : F
  pub less : F → F → Bool
  pub rank_of : F → ℕ → ℕ

module _ {F : Type 0} (ranks : Ranks F) where
  unfoldable pub rank : ℕ → F → ℕ
  rank count q =
      let clamped = if less q zero_q then zero_q else if less one_q q then one_q else q in
      let r = rank_of clamped count in if ltb r 1 then 1 else r
    where
      open ranks use {zero_q, one_q, less, rank_of}

  unfoldable pub requests : ℕ → ℕ → List F → List Request
  requests count i [] = []
  requests count i (q ∷ qs) = record { rank = rank count q; index = i } ∷ requests count (i + 1) qs

module _ {F : Type 0} (floats : Floats) (ranks : Ranks F) where
  unfoldable pub quantiles : Histogram → List F → List ℕ
  quantiles h qs =
      if h.count == 0
      then replicate (length qs)
      else scan floats h.buckets 0 (sort (requests ranks h.count 0 qs)) (replicate (length qs))

  -- `Quantiles([]float64{q})[0]`; the list is never empty.
  unfoldable pub quantile : Histogram → F → Option ℕ
  quantile h q = get_elem? (quantiles h (q ∷ [])) 0
