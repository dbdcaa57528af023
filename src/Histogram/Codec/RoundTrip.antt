-- ===== src/Histogram/Codec/RoundTrip.antt =====
-- internal/histogram/histogram.go: `UnmarshalBinary` after `MarshalBinary`.
use flameping.Prelude.{
  ℕ, zero, suc, ◌+◌, ◌-◌, ◌*◌, ◌/◌, ◌%◌, ◌^◌, ◌≤◌, ◌<◌, ◌≡◌, refl, List, [], ◌∷◌, ◌++◌, ltb, ap,
  if◌then◌else◌, some, length, arith, map, append_assoc, append-nil, All, All-append, total,
}
use native.Mathlib.Nat.{div-add-mod}
use flameping.Histogram.{Histogram, Entry, new, max_uint32, count_at, indices}
use flameping.Histogram.Codec.{
  put_uvarint, rounds, uvarint_from, uvarint, marshal_from, marshal, ok, put_at, read_pair,
  read_pairs, unmarshal, max_pairs,
}
use flameping.Histogram.Invariant.{IsIncreasing, IsFilled, IsValid, weight, Above}

-- The value of `w` by its lowest group and the rest.
split_group : (w scale acc : ℕ) → acc + w % 128 * scale + w / 128 * (scale * 128) ≡ acc + w * scale
split_group w scale acc = omega (arith, ap (λ (t : ℕ). t * scale) (div-add-mod w 128))

uvarint_from-put_uvarint :
    (k i scale acc w : ℕ) (rest : List ℕ)
    → i + k ≡ 9
    → w < 2 * 128 ^ k
    → uvarint_from i scale acc (put_uvarint k w ++ rest) ≡ some (acc + w * scale, rest)
unfolding uvarint_from put_uvarint
uvarint_from-put_uvarint zero i scale acc w rest e h = ground arith
uvarint_from-put_uvarint (suc k) i scale acc w rest e h = ground (
  arith,
  split_group w scale acc,
  uvarint_from-put_uvarint k (i + 1) (scale * 128) (acc + w % 128 * scale) (w / 128) rest,
)

-- A uint64 is read back, and what follows it is left.
pub uvarint-put_uvarint :
    (v : ℕ) (rest : List ℕ) → v < 2 ^ 64 → uvarint (put_uvarint rounds v ++ rest) ≡ some (v, rest)
unfolding uvarint
uvarint-put_uvarint v rest h = ground (arith, uvarint_from-put_uvarint 9 0 1 0 v rest)

-- What the buckets look like on the wire, with each count read from its own entry.
wire : ℕ → ℕ → List Entry → List ℕ
wire i previous [] = []
wire i previous (e ∷ es) =
    put_uvarint rounds (if ltb 0 i then (e.index + 2 ^ 32 - previous) % 2 ^ 32 else e.index)
    ++ (put_uvarint rounds e.count ++ wire (i + 1) e.index es)

abbrev Found : List Entry → Entry → Type 0
Found es e = count_at e.index es ≡ e.count

marshal_from-wire :
    (i previous : ℕ) (es part : List Entry)
    → All (Found es) part
    → marshal_from i previous es (map (λ e. e.index) part) ≡ wire i previous part
unfolding marshal_from wire
marshal_from-wire i previous es [] h = refl
marshal_from-wire i previous es (e ∷ part) h =
    rw (h.0, marshal_from-wire (i + 1) e.index es part h.1)

Found-cons :
    (e : Entry) (es part : List Entry)
    → All (λ (f : Entry). e.index < f.index) part
    → All (Found es) part
    → All (Found (e ∷ es)) part
unfolding count_at
Found-cons e es [] a h = tt
Found-cons e es (p ∷ part) a h = (ground arith, Found-cons e es part a.1 h.1)

Found-self : (es : List Entry) → IsIncreasing es → All (Found es) es
Found-self [] h = tt
Found-self (e ∷ es) h =
    (unfold count_at in ground arith, Found-cons e es es h.0 (Found-self es h.1))

-- One bucket is read back behind the one before it.
read_pair-wire :
    (i previous index count : ℕ) (rest : List ℕ)
    → index ≤ max_uint32
    → 0 < count
    → count < 2 ^ 64
    → (0 < i → previous < index)
    → read_pair i previous (
        put_uvarint rounds (if ltb 0 i then (index + 2 ^ 32 - previous) % 2 ^ 32 else index)
        ++ (put_uvarint rounds count ++ rest))
      ≡ ok (index, count, rest)
unfolding read_pair
read_pair-wire i previous index count rest fits pos small later =
    let delta : ℕ = if ltb 0 i then (index + 2 ^ 32 - previous) % 2 ^ 32 else index in
    ground (
      arith,
      uvarint-put_uvarint delta (put_uvarint rounds count ++ rest),
      uvarint-put_uvarint count rest,
    )

-- A bucket beyond all others goes to the end.
put_at-last :
    (index count : ℕ) (es : List Entry)
    → All (λ (f : Entry). f.index < index) es
    → put_at index count es ≡ es ++ record { index = index; count = count } ∷ []
unfolding put_at
put_at-last index count [] h = refl
put_at-last index count (e ∷ es) h = ground (arith, put_at-last index count es h.1)

abbrev Below : ℕ → List Entry → Type 0
Below high = All (λ (f : Entry). f.index < high)

abbrev UpTo : ℕ → List Entry → Type 0
UpTo high = All (λ (f : Entry). f.index ≤ high)

UpTo-Below :
    (previous index : ℕ) (es : List Entry) → previous < index → UpTo previous es → Below index es
UpTo-Below previous index [] h k = tt
UpTo-Below previous index (e ∷ es) h k = (omega arith, UpTo-Below previous index es h k.1)

Below-UpTo : (index : ℕ) (es : List Entry) → Below index es → UpTo index es
Below-UpTo index [] k = tt
Below-UpTo index (e ∷ es) k = (omega arith, Below-UpTo index es k.1)

-- The buckets read so far lie below the next one.
front-Below :
    (i previous index : ℕ) (es : List Entry)
    → (0 < i → previous < index)
    → (i ≡ 0 → es ≡ [])
    → UpTo previous es
    → Below index es
front-Below zero previous index es later first front = rw (first refl) tt
front-Below (suc i) previous index es later first front =
    UpTo-Below previous index es (later (omega arith)) front

-- The whole loop: what was decoded stands in front of what is still on the wire.
read_pairs-wire :
    (part : List Entry) (i previous : ℕ) (h : Histogram) (rest : List ℕ)
    → IsIncreasing part
    → All IsFilled part
    → (0 < i → Above previous part)
    → All (λ (f : Entry). f.index ≤ previous) h.buckets
    → (i ≡ 0 → h.buckets ≡ [])
    → h.count + total weight part < 2 ^ 64
    → read_pairs (length part) i previous h (wire i previous part ++ rest)
      ≡ ok (record { buckets = h.buckets ++ part; count = h.count + total weight part }, rest)
unfolding read_pairs wire
read_pairs-wire [] i previous h rest inc filled later front first room =
    ground (arith, append-nil h.buckets)
read_pairs-wire (e ∷ part) i previous h rest inc filled later front first room =
    let below : Below e.index h.buckets =
      front-Below i previous e.index h.buckets (λ p. (later p).0) first front in
    let next : Histogram = record { buckets = h.buckets ++ e ∷ []; count = h.count + e.count } in
    let ih =
      read_pairs-wire part (i + 1) e.index next rest inc.1 filled.1 (λ p. inc.0)
        (All-append (λ (f : Entry). f.index ≤ e.index) h.buckets (e ∷ [])
          (Below-UpTo e.index h.buckets below) (omega arith, tt))
        (λ p. absurd (omega arith)) (omega arith) in
    let delta : ℕ = if ltb 0 i then (e.index + 2 ^ 32 - previous) % 2 ^ 32 else e.index in
    let after : List ℕ = wire (i + 1) e.index part in
    let count : ℕ = e.count in
    ground (
      arith,
      append_assoc (put_uvarint rounds delta) (put_uvarint rounds count ++ after) rest,
      append_assoc (put_uvarint rounds count) after rest,
      read_pair-wire i previous e.index count (after ++ rest) filled.0.index_fits
          filled.0.count_positive (omega arith) (λ p. (later p).0),
      put_at-last e.index count h.buckets below,
      ih,
      append_assoc h.buckets (e ∷ []) part,
    )

length-map : (es : List Entry) → length (map (λ (e : Entry). e.index) es) ≡ length es
length-map [] = refl
length-map (e ∷ es) = ap suc (length-map es)

-- `UnmarshalBinary` reads back exactly the histogram that `MarshalBinary` wrote, for every valid
-- histogram of at most 2^20 buckets.
pub unmarshal-marshal :
    (h : Histogram) → IsValid h → length h.buckets ≤ max_pairs → unmarshal (marshal h) ≡ ok h
unfolding unmarshal marshal new
unmarshal-marshal h v few = ground (
  arith,
  length-map h.buckets,
  v.count_total,
  uvarint-put_uvarint (length (indices h)) (marshal_from 0 0 h.buckets (indices h)),
  marshal_from-wire 0 0 h.buckets h.buckets (Found-self h.buckets v.increasing),
  append-nil (wire 0 0 h.buckets),
  read_pairs-wire h.buckets 0 0 new [] v.increasing v.filled (λ p. absurd (omega arith)) tt
      (λ p. refl) (omega (arith, v.no_wrap)),
)
