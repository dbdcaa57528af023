-- ===== src/Histogram/Canonical.antt =====
-- internal/histogram/histogram.go: a valid histogram is determined by what each bucket counts, so
-- observations and merges can be made in any order.
use flameping.Prelude.{ℕ, ◌+◌, ◌^◌, ◌<◌, ◌≡◌, refl, subst, List, [], ◌∷◌, arith, All}
use flameping.Histogram.{Histogram, Entry, Floats, new, count_at, observe, merge}
use flameping.Histogram.Invariant.{
  IsIncreasing, IsFilled, IsValid, count_at-Above, observe-IsValid, merge-IsValid,
}
use flameping.Histogram.Merge.{count_at-merge, count_at-observe}

count_at-head : (e : Entry) (es : List Entry) → count_at e.index (e ∷ es) ≡ e.count
unfolding count_at
count_at-head e es = ground arith

-- Behind equal heads the tails count the same.
count_at-tail :
    (e : Entry) (es fs : List Entry)
    → IsIncreasing (e ∷ es)
    → IsIncreasing (e ∷ fs)
    → ((i : ℕ) → count_at i (e ∷ es) ≡ count_at i (e ∷ fs))
    → (i : ℕ) → count_at i es ≡ count_at i fs
unfolding count_at
count_at-tail e es fs v w h i =
    ground (arith, h i, count_at-Above i e.index es, count_at-Above i e.index fs)

same_head :
    (e f : Entry) (es fs : List Entry)
    → IsIncreasing (e ∷ es)
    → IsIncreasing (f ∷ fs)
    → 0 < e.count
    → 0 < f.count
    → ((i : ℕ) → count_at i (e ∷ es) ≡ count_at i (f ∷ fs))
    → (e.index ≡ f.index) × (e.count ≡ f.count)
unfolding count_at
same_head e f es fs v w p q h = ground (
  arith,
  h e.index,
  h f.index,
  count_at-Above e.index f.index fs,
  count_at-Above f.index e.index es,
)

count_at-extensional :
    (es fs : List Entry)
    → IsIncreasing es
    → IsIncreasing fs
    → All IsFilled es
    → All IsFilled fs
    → ((i : ℕ) → count_at i es ≡ count_at i fs)
    → es ≡ fs
count_at-extensional [] [] v w p q h = refl
count_at-extensional [] (f ∷ fs) v w p q h =
    absurd (unfold count_at in ground (arith, h f.index, q.0.count_positive))
count_at-extensional (e ∷ es) [] v w p q h =
    absurd (unfold count_at in ground (arith, h e.index, p.0.count_positive))
count_at-extensional (e ∷ es) (f ∷ fs) v w p q h =
    let (at, n) = same_head e f es fs v w p.0.count_positive q.0.count_positive h in
    let same : f ≡ e = ground (arith, at, n) in
    let w' : IsIncreasing (e ∷ fs) = subst (λ (x : Entry). IsIncreasing (x ∷ fs)) same w in
    let h' : (i : ℕ) → count_at i (e ∷ es) ≡ count_at i (e ∷ fs) =
      subst (λ (x : Entry). (i : ℕ) → count_at i (e ∷ es) ≡ count_at i (x ∷ fs)) same h in
    let tails : es ≡ fs =
      count_at-extensional es fs v.1 w.1 p.1 q.1 (count_at-tail e es fs v w' h') in
    ground (arith, same, tails)

-- Two valid histograms that agree on every bucket are equal.
pub extensional :
    (h g : Histogram)
    → IsValid h
    → IsValid g
    → ((i : ℕ) → count_at i h.buckets ≡ count_at i g.buckets)
    → h ≡ g
extensional h g v w same =
    let buckets : h.buckets ≡ g.buckets =
      count_at-extensional h.buckets g.buckets v.increasing w.increasing v.filled w.filled same in
    ground (arith, buckets, v.count_total, w.count_total)

pub merge_comm :
    (h g : Histogram) → IsValid h → IsValid g → h.count + g.count < 2 ^ 64 → merge h g ≡ merge g h
merge_comm h g v w room =
    extensional (merge h g) (merge g h) (merge-IsValid h g v w room).0
      (merge-IsValid g h w v (omega arith)).0
      (λ i. omega (arith, count_at-merge i h g v w room, count_at-merge i g h w v (omega arith)))

-- A value can be observed before or after a merge.
pub observe-merge :
    (floats : Floats) (h g : Histogram) (value : ℕ)
    → IsValid h
    → IsValid g
    → h.count + g.count + 1 < 2 ^ 64
    → observe floats (merge h g) value ≡ merge (observe floats h value) g
observe-merge floats h g value v w room =
    let (valid, count) = merge-IsValid h g v w (omega arith) in
    let seen = observe-IsValid floats h value v (omega arith) in
    let more : (observe floats h value).count ≡ h.count + 1 = unfold observe in omega arith in
    extensional (observe floats (merge h g) value) (merge (observe floats h value) g)
      (observe-IsValid floats (merge h g) value valid (omega (arith, count)))
      (merge-IsValid (observe floats h value) g seen w (omega (arith, more))).0
      (λ i. omega (
        arith,
        count_at-observe floats i value (merge h g) valid (omega (arith, count)),
        count_at-observe floats i value h v (omega arith),
        count_at-merge i h g v w (omega arith),
        count_at-merge i (observe floats h value) g seen w (omega (arith, more)),
      ))

-- The empty histogram adds nothing.
pub merge-new : (h : Histogram) → IsValid h → merge h new ≡ h
unfolding merge new
merge-new h v = ground (arith, v.count_total, v.no_wrap)
