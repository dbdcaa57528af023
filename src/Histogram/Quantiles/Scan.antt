-- ===== src/Histogram/Quantiles/Scan.antt =====
-- internal/histogram/histogram.go, `Quantiles`: the single scan answers every request as a scan of
-- its own would.
use flameping.Prelude.{
  ℕ, ◌+◌, ◌^◌, ◌≤◌, ◌<◌, ◌≡◌, refl, ap, sym, ◌∙◌, List, [], ◌∷◌, ◌++◌, true, false, leb, ◌==◌,
  if◌then◌else◌, set, Option, none, some, All, arith, length, map, total, Bool-cases, append_assoc,
  length-append, inl, inr,
}
use mathlib.Core.Path.{fun_ext}
use flameping.Histogram.{Histogram, Entry, Floats, u64, bin_value}
use flameping.Histogram.Invariant.{IsValid, weight}
use flameping.Histogram.Quantiles.{
  Request, Ranks, sort, settle, scan, rank, requests, quantiles, replicate,
}
use flameping.Histogram.Quantiles.Sorting.{
  assign, write, assign-cons, IsSorted, IsDistinct, Fresh, sort-IsSorted, assign-sort,
}

module _ (floats : Floats) where
  -- The value of one rank: the midpoint of the first bucket at which the counts seen reach it.
  unfoldable pub value_at : List Entry → ℕ → ℕ → Option ℕ
  value_at [] seen rank = none
  value_at (e ∷ es) seen rank =
      if leb rank (seen + e.count)
      then some (bin_value floats e.index)
      else value_at es (seen + e.count) rank

  assign-none :
      (seen : ℕ) (rs : List Request) (values : List ℕ)
      → assign rs (value_at [] seen) values ≡ values
  unfolding assign value_at
  assign-none seen [] values = refl
  assign-none seen (r ∷ rs) values = assign-none seen rs values

  value_at-late :
      (e : Entry) (es : List Entry) (seen rank : ℕ)
      → seen + e.count < rank
      → value_at (e ∷ es) seen rank ≡ value_at es (seen + e.count) rank
  unfolding value_at
  value_at-late e es seen rank h = ground arith

  value_at-now :
      (e : Entry) (es : List Entry) (seen rank : ℕ)
      → rank ≤ seen + e.count
      → value_at (e ∷ es) seen rank ≡ some (bin_value floats e.index)
  unfolding value_at
  value_at-now e es seen rank h = ground arith

  -- Requests that the bucket does not reach are answered by the buckets behind it.
  assign-late :
      (e : Entry) (es : List Entry) (seen : ℕ) (rs : List Request) (values : List ℕ)
      → All (λ (r : Request). seen + e.count < r.rank) rs
      → assign rs (value_at es (seen + e.count)) values ≡ assign rs (value_at (e ∷ es) seen) values
  assign-late e es seen [] values h = unfold assign in refl
  assign-late e es seen (r ∷ rs) values h = ground (
    arith,
    assign-cons r rs (value_at es (seen + e.count)) values,
    assign-cons r rs (value_at (e ∷ es) seen) values,
    value_at-late e es seen r.rank h.0,
    assign-late e es seen rs (write r (value_at (e ∷ es) seen) values) h.1,
  )

  All-later :
      (n m : ℕ) (rs : List Request)
      → n < m
      → All (λ (s : Request). m ≤ s.rank) rs
      → All (λ (s : Request). n < s.rank) rs
  All-later n m [] h k = tt
  All-later n m (r ∷ rs) h k = (omega arith, All-later n m rs h k.1)

  -- What `settle` leaves, written out by the other buckets, is what the whole scan writes.
  settle-assign :
      (e : Entry) (es : List Entry) (seen : ℕ) (rs : List Request) (values : List ℕ)
      → IsSorted rs
      → let (left, values') = settle (seen + e.count) (bin_value floats e.index) rs values in
        IsSorted left
        × (assign left (value_at es (seen + e.count)) values'
            ≡ assign rs (value_at (e ∷ es) seen) values)
  unfolding settle
  settle-assign e es seen [] values h = (tt, unfold assign in refl)
  settle-assign e es seen (r ∷ rs) values h = elim (Bool-cases (leb r.rank (seen + e.count))) [
    | inl now ↦ rw now (
        ground (
          arith,
          assign-cons r rs (value_at (e ∷ es) seen) values,
          value_at-now e es seen r.rank (ground arith),
          settle-assign e es seen rs (set values r.index (bin_value floats e.index)) h.1,
        ))
    | inr late ↦
        let beyond : seen + e.count < r.rank = ground arith in
        rw late (
          h,
          assign-late e es seen (r ∷ rs) values
              (beyond, All-later (seen + e.count) r.rank rs beyond h.0),
        )
  ]

  -- The scan writes, for every request, the value that the request has on its own.
  scan-assign :
      (es : List Entry) (seen : ℕ) (rs : List Request) (values : List ℕ)
      → IsSorted rs
      → seen + total weight es < 2 ^ 64
      → scan floats es seen rs values ≡ assign rs (value_at es seen) values
  unfolding scan
  scan-assign [] seen rs values h room = sym (assign-none seen rs values)
  scan-assign (e ∷ es) seen [] values h room = unfold assign in refl
  scan-assign (e ∷ es) seen (r ∷ rs) values h room =
      let value : ℕ = bin_value floats e.index in
      let after : List Request × List ℕ = settle (seen + e.count) value (r ∷ rs) values in
      let (sorted, same) = settle-assign e es seen (r ∷ rs) values h in
      let exact : u64 (seen + e.count) ≡ seen + e.count = omega arith in
      rw exact (scan-assign es (seen + e.count) after.0 after.1 sorted (omega arith) ∙ same)

abbrev pub or_zero : Option ℕ → ℕ
or_zero none = 0
or_zero (some v) = v

-- A write just behind a list goes to the first place of what follows it.
set-append :
    (done : List ℕ) (x v : ℕ) (more : List ℕ)
    → set (done ++ x ∷ more) (length done) v ≡ done ++ v ∷ more
set-append [] x v more = refl
set-append (d ∷ done) x v more = ap (λ l. d ∷ l) (set-append done x v more)

write_next :
    (rank : ℕ) (f : ℕ → Option ℕ) (done more : List ℕ)
    → write (record { rank = rank; index = length done }) f (done ++ 0 ∷ more)
      ≡ done ++ or_zero (f rank) ∷ more
write_next rank f done more = ground (arith, set-append done 0 (or_zero (f rank)) more)

module _ {F : Type 0} (ranks : Ranks F) where
  requests-Fresh : (count i j : ℕ) (qs : List F) → i < j → Fresh i (requests ranks count j qs)
  unfolding requests
  requests-Fresh count i j [] h = tt
  requests-Fresh count i j (q ∷ qs) h =
      (omega arith, requests-Fresh count i (j + 1) qs (omega arith))

  requests-IsDistinct : (count i : ℕ) (qs : List F) → IsDistinct (requests ranks count i qs)
  unfolding requests
  requests-IsDistinct count i [] = tt
  requests-IsDistinct count i (q ∷ qs) =
      (requests-Fresh count i (i + 1) qs (omega arith), requests-IsDistinct count (i + 1) qs)

  -- The requests write one value after the other.
  assign-requests :
      (count i : ℕ) (qs : List F) (f : ℕ → Option ℕ) (done : List ℕ)
      → length done ≡ i
      → assign (requests ranks count i qs) f (done ++ replicate (length qs))
        ≡ done ++ map (λ q. or_zero (f (rank ranks count q))) qs
  unfolding requests replicate
  assign-requests count i [] f done e = unfold assign in refl
  assign-requests count i (q ∷ qs) f done e =
      let v : ℕ = or_zero (f (rank ranks count q)) in
      ground (
        arith,
        assign-cons (record { rank = rank ranks count q; index = i })
            (requests ranks count (i + 1) qs) f (done ++ 0 ∷ replicate (length qs)),
        write_next (rank ranks count q) f done (replicate (length qs)),
        assign-requests count (i + 1) qs f (done ++ v ∷ [])
            (omega (arith, length-append done (v ∷ []))),
        append_assoc done (v ∷ []) (replicate (length qs)),
        append_assoc done (v ∷ []) (map (λ q. or_zero (f (rank ranks count q))) qs),
      )

-- A quantile on its own: the midpoint of the first bucket at which the counts reach its rank.
unfoldable pub quantile_of : {F : Type 0} → Floats → Ranks F → Histogram → F → ℕ
quantile_of floats ranks h q =
    if h.count == 0 then 0 else or_zero (value_at floats h.buckets 0 (rank ranks h.count q))

module _ {F : Type 0} (floats : Floats) (ranks : Ranks F) (h : Histogram) where
  quantile_of_empty : (h.count == 0) ≡ true → (q : F) → quantile_of floats ranks h q ≡ 0
  unfolding quantile_of
  quantile_of_empty e q = rw e

  pub quantile_of_full :
      (h.count == 0) ≡ false
      → (q : F)
      → quantile_of floats ranks h q ≡ or_zero (value_at floats h.buckets 0 (rank ranks h.count q))
  unfolding quantile_of
  quantile_of_full e q = rw e

zeros :
    {F : Type 0} (f : F → ℕ) (qs : List F) → ((q : F) → f q ≡ 0) → replicate (length qs) ≡ map f qs
unfolding replicate
zeros f [] h = refl
zeros f (q ∷ qs) h = rw (h q, zeros f qs h)

-- The single scan over the buckets returns, for quantiles in any order and number, the value that
-- each has on its own, in the order in which they were asked for.
pub quantiles_lem :
    {F : Type 0} (floats : Floats) (ranks : Ranks F) (h : Histogram) (qs : List F)
    → IsValid h
    → quantiles floats ranks h qs ≡ map (quantile_of floats ranks h) qs
unfolding quantiles
quantiles_lem floats ranks h qs v = elim (Bool-cases (h.count == 0)) [
  | inl empty ↦
      rw empty (zeros (quantile_of floats ranks h) qs (quantile_of_empty floats ranks h empty))
  | inr more ↦
      let asked : List Request = requests ranks h.count 0 qs in
      rw (more, fun_ext (quantile_of_full floats ranks h more))
        (scan-assign floats h.buckets 0 (sort asked) (replicate (length qs)) (sort-IsSorted asked)
            (omega (arith, v.no_wrap))
          ∙ assign-sort asked (value_at floats h.buckets 0) (replicate (length qs))
              (requests-IsDistinct ranks h.count 0 qs)
          ∙ assign-requests ranks h.count 0 qs (value_at floats h.buckets 0) [] refl)
]
