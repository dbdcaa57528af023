-- ===== src/Histogram/Merge.antt =====
-- internal/histogram/histogram.go: what `Observe` and `Merge` do to each bucket.
use flameping.Prelude.{ℕ, ◌+◌, ◌^◌, ◌<◌, ◌≡◌, List, [], ◌∷◌, ◌==◌, if◌then◌else◌, arith, total}
use flameping.Histogram.{
  Histogram, Entry, Floats, add_at, add_all, count_at, bucket, observe, merge,
}
use flameping.Histogram.Invariant.{
  IsIncreasing, IsValid, weight, total-add_at, add_at-IsIncreasing, count_at-Above, count_at-add_at,
}

count_at-add_all :
    (i : ℕ) (os es : List Entry)
    → IsIncreasing os
    → IsIncreasing es
    → total weight es + total weight os < 2 ^ 64
    → count_at i (add_all os es) ≡ count_at i es + count_at i os
unfolding add_all count_at
count_at-add_all i [] es a b room = omega arith
count_at-add_all i (o ∷ os) es a b room =
    let t : total weight (add_at o.index o.count es) ≡ total weight es + o.count =
      total-add_at o.index o.count es (omega arith) in
    ground (
      arith,
      count_at-add_all i os (add_at o.index o.count es) a.1
          (add_at-IsIncreasing o.index o.count es b) (omega (arith, t)),
      count_at-add_at i o.index o.count es b (omega arith),
      count_at-Above i o.index os,
    )

-- Each bucket of a merge counts the values of that bucket in both histograms.
pub count_at-merge :
    (i : ℕ) (h other : Histogram)
    → IsValid h
    → IsValid other
    → h.count + other.count < 2 ^ 64
    → count_at i (merge h other).buckets ≡ count_at i h.buckets + count_at i other.buckets
unfolding merge
count_at-merge i h other v w room =
    count_at-add_all i other.buckets h.buckets w.increasing v.increasing
      (omega (arith, v.count_total, w.count_total))

-- An observation is counted in its own bucket, where 0 is taken for 1, and in no other.
pub count_at-observe :
    (floats : Floats) (i value : ℕ) (h : Histogram)
    → IsValid h
    → h.count + 1 < 2 ^ 64
    → count_at i (observe floats h value).buckets
      ≡ count_at i h.buckets
        + (if i == bucket floats (if value == 0 then 1 else value) then 1 else 0)
unfolding observe
count_at-observe floats i value h v room = ground (
  arith,
  count_at-add_at i (bucket floats (if value == 0 then 1 else value)) 1 h.buckets v.increasing
      (omega (arith, v.count_total)),
)
