-- ===== src/Histogram/Invariant.antt =====
-- internal/histogram/histogram.go: what holds of a histogram between two calls.
use flameping.Prelude.{
  ℕ, ◌+◌, ◌^◌, ◌≤◌, ◌<◌, ◌≡◌, refl, List, [], ◌∷◌, ◌==◌, arith, total, All, if◌then◌else◌,
}
use flameping.Histogram.{
  Histogram, Entry, Floats, max_uint32, add_at, add_all, count_at, bucket, observe, merge, new,
}

abbrev pub weight : Entry → ℕ
weight e = e.count

-- Every index is larger than `low`.
abbrev pub Above : ℕ → List Entry → Type 0
Above low = All (λ (f : Entry). low < f.index)

-- The indices increase strictly.
abbrev pub IsIncreasing : List Entry → Type 0
IsIncreasing [] = Unit
IsIncreasing (e ∷ es) = Above e.index es × IsIncreasing es

pub record IsFilled (e : Entry) : Type 0 where
  pub index_fits : e.index ≤ max_uint32
  pub count_positive : 0 < e.count

-- `count` is the sum of the buckets, no bucket is empty, and no sum of counts has wrapped.
pub record IsValid (h : Histogram) : Type 0 where
  pub increasing : IsIncreasing h.buckets
  pub filled : All IsFilled h.buckets
  pub count_total : h.count ≡ total weight h.buckets
  pub no_wrap : total weight h.buckets < 2 ^ 64

pub Above-mono : (low low' : ℕ) (es : List Entry) → low ≤ low' → Above low' es → Above low es
Above-mono low low' [] h k = tt
Above-mono low low' (e ∷ es) h k = (omega arith, Above-mono low low' es h k.1)

pub add_at-Above :
    (low index n : ℕ) (es : List Entry) → low < index → Above low es → Above low (add_at index n es)
unfolding add_at
add_at-Above low index n [] h k = (h, tt)
add_at-Above low index n (e ∷ es) h k = ground (arith, add_at-Above low index n es h k.1)

pub add_at-IsIncreasing :
    (index n : ℕ) (es : List Entry) → IsIncreasing es → IsIncreasing (add_at index n es)
unfolding add_at
add_at-IsIncreasing index n [] h = (tt, tt)
add_at-IsIncreasing index n (e ∷ es) h = ground (
  arith,
  add_at-Above e.index index n es,
  Above-mono index e.index es,
  add_at-IsIncreasing index n es h.1,
)

pub total-add_at :
    (index n : ℕ) (es : List Entry)
    → total weight es + n < 2 ^ 64
    → total weight (add_at index n es) ≡ total weight es + n
unfolding add_at
total-add_at index n [] h = ground arith
total-add_at index n (e ∷ es) h = ground (arith, total-add_at index n es)

pub add_at-IsFilled :
    (index n : ℕ) (es : List Entry)
    → index ≤ max_uint32
    → 0 < n
    → total weight es + n < 2 ^ 64
    → All IsFilled es
    → All IsFilled (add_at index n es)
unfolding add_at
add_at-IsFilled index n [] i p t h = ground arith
add_at-IsFilled index n (e ∷ es) i p t h = ground (arith, add_at-IsFilled index n es i p)

-- The clamps keep a bucket index in uint32, whatever the float functions return.
pub bucket_fits : (floats : Floats) (value : ℕ) → bucket floats value ≤ max_uint32
unfolding bucket
bucket_fits floats value = ground arith

pub new-IsValid : IsValid new
unfolding new
new-IsValid = omega arith

-- `Observe` keeps the histogram valid as long as fewer than 2^64 - 1 values were counted.
pub observe-IsValid :
    (floats : Floats) (h : Histogram) (value : ℕ)
    → IsValid h
    → h.count + 1 < 2 ^ 64
    → IsValid (observe floats h value)
unfolding observe
observe-IsValid floats h value v room =
    let index : ℕ = bucket floats (if value == 0 then 1 else value) in
    record {
      increasing = add_at-IsIncreasing index 1 h.buckets v.increasing;
      filled =
          add_at-IsFilled index 1 h.buckets (bucket_fits floats _) (omega arith)
            (omega (arith, v.count_total)) v.filled;
      count_total = omega (arith, total-add_at index 1 h.buckets, v.count_total);
      no_wrap = omega (arith, total-add_at index 1 h.buckets, v.count_total);
    }

-- What a run of `Merge`'s loop keeps.
add_all_keeps :
    (os es : List Entry)
    → All IsFilled os
    → total weight es + total weight os < 2 ^ 64
    → IsIncreasing es
    → All IsFilled es
    → IsIncreasing (add_all os es)
      × All IsFilled (add_all os es)
      × (total weight (add_all os es) ≡ total weight es + total weight os)
unfolding add_all
add_all_keeps [] es fo room inc fe = (inc, fe, omega arith)
add_all_keeps (o ∷ os) es fo room inc fe =
    let t : total weight (add_at o.index o.count es) ≡ total weight es + o.count =
      total-add_at o.index o.count es (omega arith) in
    let (inc', fe', t') =
      add_all_keeps os (add_at o.index o.count es) fo.1 (omega (arith, t))
        (add_at-IsIncreasing o.index o.count es inc)
        (add_at-IsFilled o.index o.count es fo.0.index_fits fo.0.count_positive (omega arith) fe) in
    (inc', fe', omega (arith, t, t'))

-- `Merge` of two valid histograms is valid and counts the values of both, unless the sum of the two
-- counts passes uint64.
pub merge-IsValid :
    (h other : Histogram)
    → IsValid h
    → IsValid other
    → h.count + other.count < 2 ^ 64
    → IsValid (merge h other) × ((merge h other).count ≡ h.count + other.count)
unfolding merge
merge-IsValid h other v w room =
    let (inc, filled, sum) =
      add_all_keeps other.buckets h.buckets w.filled (omega (arith, v.count_total, w.count_total))
        v.increasing v.filled in
    (
      record {
        increasing = inc;
        filled = filled;
        count_total = omega (arith, sum, v.count_total, w.count_total);
        no_wrap = omega (arith, sum, v.count_total, w.count_total);
      },
      omega arith,
    )

pub count_at-Above : (i low : ℕ) (es : List Entry) → i ≤ low → Above low es → count_at i es ≡ 0
unfolding count_at
count_at-Above i low [] h k = refl
count_at-Above i low (e ∷ es) h k = ground (arith, count_at-Above i low es h k.1)

pub count_at-add_at :
    (i index n : ℕ) (es : List Entry)
    → IsIncreasing es
    → total weight es + n < 2 ^ 64
    → count_at i (add_at index n es) ≡ (if i == index then count_at i es + n else count_at i es)
unfolding count_at add_at
count_at-add_at i index n [] inc room = ground arith
count_at-add_at i index n (e ∷ es) inc room =
    ground (arith, count_at-add_at i index n es inc.1, count_at-Above i e.index es)
