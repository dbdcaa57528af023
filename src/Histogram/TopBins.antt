-- ===== src/Histogram/TopBins.antt =====
-- internal/histogram/histogram.go, `TopBins`: the highest buckets, which the overview draws as embers.
use mathlib.Core.List.{reverse, reverse-cons}
use flameping.Prelude.{
  ℕ, zero, suc, ◌+◌, ◌≤◌, ◌<◌, ◌≡◌, refl, List, [], ◌∷◌, ◌++◌, Bool, true, false, ltb, leb,
  if◌then◌else◌, length, length-append, All, All-append, arith, append_assoc, append-nil,
}
use flameping.Histogram.{Histogram, Entry, Floats, bin_value, bin_low}
use flameping.Histogram.Invariant.{IsIncreasing, IsValid}

pub record Bin : Type 0 where
  pub value : ℕ
  pub low : ℕ
  pub count : ℕ

abbrev pub take : ℕ → List Bin → List Bin
take zero bs = []
take (suc n) [] = []
take (suc n) (b ∷ bs) = b ∷ take n bs

-- The indices fall strictly.
abbrev pub IsFalling : List Entry → Type 0
IsFalling [] = Unit
IsFalling (e ∷ es) = All (λ (f : Entry). f.index < e.index) es × IsFalling es

module _ (floats : Floats) where
  abbrev bin : Entry → Bin
  bin e = record { value = bin_value floats e.index; low = bin_low floats e.index; count = e.count }

  -- The loop over the indices from the highest down. A negative limit acts as 0.
  unfoldable pub top_from : ℕ → ℕ → List Entry → List Bin → List Bin × Bool
  top_from min_value limit [] bins = (bins, false)
  top_from min_value limit (e ∷ es) bins =
      let rest = top_from min_value limit es (bins ++ bin e ∷ []) in
      if ltb (bin_value floats e.index) min_value
      then (bins, false)
      else if leb limit (length bins)
      then (bins, true)
      else rest

  unfoldable pub top_bins : Histogram → ℕ → ℕ → List Bin × Bool
  top_bins h min_value limit = top_from min_value limit (reverse h.buckets) []

  -- Every bucket whose midpoint reaches the minimum, in the given order.
  unfoldable pub qualifying : ℕ → List Entry → List Bin
  qualifying min_value [] = []
  qualifying min_value (e ∷ es) =
      if ltb (bin_value floats e.index) min_value
      then qualifying min_value es
      else bin e ∷ qualifying min_value es

  -- Larger indices have larger midpoints, as `math.Exp` has it.
  abbrev pub IsMonotone : Type 0
  IsMonotone = (i j : ℕ) → i ≤ j → bin_value floats i ≤ bin_value floats j

  qualifying_none :
      (mono : IsMonotone) (min_value index : ℕ) (es : List Entry)
      → All (λ (f : Entry). f.index < index) es
      → bin_value floats index < min_value
      → qualifying min_value es ≡ []
  unfolding qualifying
  qualifying_none mono min_value index [] h low = refl
  qualifying_none mono min_value index (e ∷ es) h low =
      ground
        (arith, mono e.index index (omega arith), qualifying_none mono min_value index es h.1 low)

  -- With `room` places left, the loop adds the first `room` qualifying bins, and reports whether
  -- there are more.
  top_from_lem :
      (mono : IsMonotone) (min_value room limit : ℕ) (es : List Entry) (bins : List Bin)
      → length bins + room ≡ limit
      → IsFalling es
      → top_from min_value limit es bins
        ≡ (bins ++ take room (qualifying min_value es), ltb room (length (qualifying min_value es)))
  unfolding top_from qualifying
  top_from_lem mono min_value zero limit [] bins e f = ground (arith, append-nil bins)
  top_from_lem mono min_value (suc room) limit [] bins e f = ground (arith, append-nil bins)
  top_from_lem mono min_value zero limit (x ∷ es) bins e f =
      ground (arith, append-nil bins, qualifying_none mono min_value x.index es f.0)
  top_from_lem mono min_value (suc room) limit (x ∷ es) bins e f = ground (
    arith,
    append-nil bins,
    length-append bins (bin x ∷ []),
    append_assoc bins (bin x ∷ []) (take room (qualifying min_value es)),
    qualifying_none mono min_value x.index es f.0,
    top_from_lem mono min_value room limit es (bins ++ bin x ∷ []),
  )

IsFalling-append :
    (es : List Entry) (e : Entry)
    → IsFalling es
    → All (λ (f : Entry). e.index < f.index) es
    → IsFalling (es ++ e ∷ [])
IsFalling-append [] e h a = (tt, tt)
IsFalling-append (x ∷ es) e h a = (
  All-append (λ (f : Entry). f.index < x.index) es (e ∷ []) h.0 (a.0, tt),
  IsFalling-append es e h.1 a.1,
)

All-reverse : (P : Entry → Type 0) (es : List Entry) → All P es → All P (reverse es)
All-reverse P [] h = tt
All-reverse P (e ∷ es) h =
    rw reverse-cons (All-append P (reverse es) (e ∷ []) (All-reverse P es h.1) (h.0, tt))

reverse-IsFalling : (es : List Entry) → IsIncreasing es → IsFalling (reverse es)
reverse-IsFalling [] h = tt
reverse-IsFalling (e ∷ es) h = rw reverse-cons (
    IsFalling-append (reverse es) e (reverse-IsFalling es h.1)
      (All-reverse (λ (f : Entry). e.index < f.index) es h.0))

-- `TopBins` returns the highest `limit` buckets whose midpoint reaches the minimum, highest first,
-- and reports exactly whether there are more of them; the midpoints must not fall as indices grow.
pub top_bins_lem :
    (floats : Floats) (h : Histogram) (min_value limit : ℕ)
    → IsValid h
    → IsMonotone floats
    → let all = qualifying floats min_value (reverse h.buckets) in
      top_bins floats h min_value limit ≡ (take limit all, ltb limit (length all))
unfolding top_bins
top_bins_lem floats h min_value limit v mono =
    top_from_lem floats mono min_value limit limit (reverse h.buckets) [] (omega arith)
      (reverse-IsFalling h.buckets v.increasing)
