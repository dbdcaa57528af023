-- ===== src/Histogram/Scenarios.antt =====
-- A histogram of three buckets, tests of its operations, and the theorems at it. The float functions
-- are linear ones: index v / 10, lower bound 10 i, midpoint 10 i + 5.
use mathlib.Core.List.{reverse}
use flameping.Prelude.{
  ℕ, ◌+◌, ◌-◌, ◌*◌, ◌/◌, ◌≡◌, refl, List, [], ◌∷◌, ◌++◌, true, ltb, map, arith, length, some,
}
use flameping.Prelude.Int.{pos}
use flameping.Histogram.{
  Histogram, Floats, new, u64, add_at, count_at, bucket, observe, merge, bin_value,
}
use flameping.Histogram.Codec.{
  put_uvarint, uvarint_from, uvarint, marshal_from, marshal, ok, err, read_pair, read_pairs, put_at,
  unmarshal, trailing_bytes,
}
use flameping.Histogram.Codec.RoundTrip.{unmarshal-marshal}
use flameping.Histogram.Codec.Decoded.{unmarshal-stepping_back, stepping_back}
use flameping.Histogram.Invariant.{IsValid}
use flameping.Histogram.Quantiles.{
  Ranks, rank, requests, insert, sort, replicate, settle, scan, quantiles, quantile,
}
use flameping.Histogram.Quantiles.Scan.{quantile_of, quantiles_lem}
use flameping.Histogram.TopBins.{top_from, top_bins, top_bins_lem, qualifying, take, IsMonotone}

abbrev linear : Floats
linear = record {
  log_floor = λ v. pos (v / 10);
  exp_floor = λ i. i * 10;
  exp_round = λ i. i * 10 + 5;
}

-- Quantiles in per cent.
abbrev percent : Ranks ℕ
percent = record { zero_q = 0; one_q = 100; less = ltb; rank_of = λ q n. (q * n + 99) / 100 }

abbrev sample : Histogram
sample = record {
  buckets =
      record { index = 1; count = 3 }
      ∷ record { index = 2; count = 200 }
      ∷ record { index = 700; count = 1 }
      ∷ [];
  count = 204;
}

sample-IsValid : IsValid sample
sample-IsValid = omega arith

observe_zero :
    observe linear sample 0
    ≡ record { buckets = record { index = 0; count = 1 } ∷ sample.buckets; count = 205 }
unfolding observe add_at bucket
observe_zero = refl

merged_twice : (merge sample sample).count ≡ 408
unfolding merge
merged_twice = refl

abbrev sample_bytes : List ℕ
sample_bytes = 1 ∷ 3 ∷ 1 ∷ 3 ∷ 1 ∷ 0xc8 ∷ 0x01 ∷ 0xba ∷ 0x05 ∷ 1 ∷ []

marshal-sample : marshal sample ≡ sample_bytes
unfolding marshal marshal_from put_uvarint count_at
marshal-sample = refl

unmarshal-sample : unmarshal sample_bytes ≡ ok sample
unfolding unmarshal read_pairs read_pair put_at uvarint uvarint_from new
unmarshal-sample = refl

unmarshal_trailing : unmarshal (sample_bytes ++ 0 ∷ []) ≡ err trailing_bytes
unfolding unmarshal read_pairs read_pair put_at uvarint uvarint_from new
unmarshal_trailing = refl

quantiles-sample :
    quantiles linear percent sample (100 ∷ 50 ∷ 0 ∷ 1 ∷ []) ≡ 7005 ∷ 25 ∷ 15 ∷ 15 ∷ []
unfolding quantiles requests rank sort insert replicate scan settle bin_value
quantiles-sample = refl

quantile_above_range : quantile linear percent sample 250 ≡ some 7005
unfolding quantile quantiles requests rank sort insert replicate scan settle bin_value
quantile_above_range = refl

top_bins-sample : (top_bins linear sample 20 1).1 ≡ true
unfolding top_bins top_from bin_value
top_bins-sample = refl

unmarshal-marshal_example : unmarshal (marshal sample) ≡ ok sample
unmarshal-marshal_example = unmarshal-marshal sample sample-IsValid (omega arith)

unmarshal-stepping_back_example :
    unmarshal (stepping_back 5 1 7 9)
    ≡ ok (record {
      buckets = record { index = 5 - 1; count = 9 } ∷ record { index = 5; count = 7 } ∷ [];
      count = u64 (7 + 9);
    })
unmarshal-stepping_back_example =
    unmarshal-stepping_back 5 1 7 9 (omega arith) (omega arith) (omega arith) (omega arith)
      (omega arith) (omega arith) (omega arith)

quantiles_lem_example :
    quantiles linear percent sample (100 ∷ 50 ∷ [])
    ≡ map (quantile_of linear percent sample) (100 ∷ 50 ∷ [])
quantiles_lem_example = quantiles_lem linear percent sample (100 ∷ 50 ∷ []) sample-IsValid

linear-IsMonotone : IsMonotone linear
unfolding bin_value
linear-IsMonotone i j h = ground arith

top_bins_lem_example :
    let all = qualifying linear 20 (reverse sample.buckets) in
    top_bins linear sample 20 1 ≡ (take 1 all, ltb 1 (length all))
top_bins_lem_example = top_bins_lem linear sample 20 1 sample-IsValid linear-IsMonotone
