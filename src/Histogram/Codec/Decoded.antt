-- ===== src/Histogram/Codec/Decoded.antt =====
-- internal/histogram/histogram.go, `UnmarshalBinary`: what it accepts.
use flameping.Prelude.{
  ℕ, zero, suc, ◌+◌, ◌-◌, ◌^◌, ◌≤◌, ◌<◌, ◌≡◌, List, [], ◌∷◌, ◌++◌, arith, All, length, Option-cases,
  inl, inr,
}
use flameping.Histogram.{Histogram, Entry, new, u64, max_uint32}
use flameping.Histogram.Codec.{
  put_uvarint, rounds, uvarint, put_at, ok, read_pair, read_pairs, unmarshal, max_pairs,
  format_version, Result-cases,
}
use flameping.Histogram.Codec.RoundTrip.{uvarint-put_uvarint}
use flameping.Histogram.Invariant.{IsFilled}

read_pair_fits :
    (i previous : ℕ) (bytes : List ℕ) (index count : ℕ) (rest : List ℕ)
    → read_pair i previous bytes ≡ ok (index, count, rest)
    → (index ≤ max_uint32) × (0 < count)
unfolding read_pair
read_pair_fits i previous bytes index count rest h = ground arith

put_at-IsFilled :
    (index count : ℕ) (es : List Entry)
    → index ≤ max_uint32
    → 0 < count
    → All IsFilled es
    → All IsFilled (put_at index count es)
unfolding put_at
put_at-IsFilled index count [] a b h = ground arith
put_at-IsFilled index count (e ∷ es) a b h = ground (arith, put_at-IsFilled index count es a b h.1)

length-put_at : (index count : ℕ) (es : List Entry) → length (put_at index count es) ≤ length es + 1
unfolding put_at
length-put_at index count [] = omega arith
length-put_at index count (e ∷ es) = ground (arith, length-put_at index count es)

read_pairs_fits :
    (n i previous : ℕ) (h : Histogram) (bytes : List ℕ) (g : Histogram) (rest : List ℕ)
    → All IsFilled h.buckets
    → read_pairs n i previous h bytes ≡ ok (g, rest)
    → All IsFilled g.buckets × (length g.buckets ≤ length h.buckets + n)
unfolding read_pairs
read_pairs_fits zero i previous h bytes g rest f e = ground arith
read_pairs_fits (suc n) i previous h bytes g rest f e =
    elim (Result-cases (read_pair i previous bytes)) [
      | inl (x, bad) ↦ ground (arith, bad)
      | inr ((index, count, left), good) ↦
          let (fits, positive) = read_pair_fits i previous bytes index count left good in
          ground (
            arith,
            good,
            put_at-IsFilled index count h.buckets fits positive f,
            length-put_at index count h.buckets,
            read_pairs_fits n (i + 1) index
                (record { buckets = put_at index count h.buckets; count = u64 (h.count + count) })
                left g rest,
          )
    ]

-- What `UnmarshalBinary` accepts has at most 2^20 buckets, each of them with an index that fits
-- uint32 and a positive count.
pub unmarshal_fits :
    (bytes : List ℕ) (h : Histogram)
    → unmarshal bytes ≡ ok h
    → All IsFilled h.buckets × (length h.buckets ≤ max_pairs)
unfolding unmarshal new
unmarshal_fits [] h e = cc
unmarshal_fits (version ∷ bytes) h e = elim (Option-cases (uvarint bytes)) [
  | inl bad ↦ ground (arith, bad)
  | inr ((pairs, rest), good) ↦ elim (Result-cases (read_pairs pairs 0 0 new rest)) [
    | inl (x, bad) ↦ ground (arith, good, bad)
    | inr ((g, []), done) ↦ ground (arith, good, done, read_pairs_fits pairs 0 0 new rest g [] tt)
    | inr ((g, b ∷ bs), done) ↦ ground (arith, good, done)
  ]
]

-- Two buckets on the wire whose second delta stands for a step back of `d`.
abbrev pub stepping_back : ℕ → ℕ → ℕ → ℕ → List ℕ
stepping_back index d first second =
    format_version
    ∷ (put_uvarint rounds 2
        ++ (put_uvarint rounds index
            ++ (put_uvarint rounds first
                ++ (put_uvarint rounds (2 ^ 64 - d) ++ (put_uvarint rounds second ++ [])))))

-- The sum of the previous index and a delta wraps as uint64 before it is checked, so a histogram
-- whose second bucket lies `d` below its first is accepted, though the code means to reject buckets
-- that are not strictly increasing.
pub unmarshal-stepping_back :
    (index d first second : ℕ)
    → 0 < d
    → d ≤ index
    → index ≤ max_uint32
    → 0 < first
    → first < 2 ^ 64
    → 0 < second
    → second < 2 ^ 64
    → unmarshal (stepping_back index d first second)
      ≡ ok (record {
        buckets =
            record { index = index - d; count = second }
            ∷ record { index = index; count = first }
            ∷ [];
        count = u64 (first + second);
      })
unfolding unmarshal read_pairs read_pair put_at new
unmarshal-stepping_back index d first second a b c e f g h =
    let back : ℕ = 2 ^ 64 - d in
    let r4 : List ℕ = put_uvarint rounds second ++ [] in
    let r3 : List ℕ = put_uvarint rounds back ++ r4 in
    let r2 : List ℕ = put_uvarint rounds first ++ r3 in
    let r1 : List ℕ = put_uvarint rounds index ++ r2 in
    ground (
      arith,
      uvarint-put_uvarint 2 r1,
      uvarint-put_uvarint index r2,
      uvarint-put_uvarint first r3,
      uvarint-put_uvarint back r4,
      uvarint-put_uvarint second [],
    )
