-- ===== src/Histogram/Codec.antt =====
-- internal/histogram/histogram.go, `MarshalBinary` and `UnmarshalBinary`, with the variable-length
-- integers of Go's encoding/binary. A slice that is read from the front is the list of what is left.
pub mod RoundTrip
pub mod Decoded
use flameping.Prelude.{
  ℕ, zero, suc, ◌+◌, ◌-◌, ◌*◌, ◌/◌, ◌%◌, ◌^◌, List, [], ◌∷◌, ◌++◌, Bool, true, false, ltb, leb,
  ◌==◌, ◌&&◌, not, if◌then◌else◌, Option, none, some, length, ◌≡◌, refl, ◌⊎◌, inl, inr,
}
use flameping.Histogram.{Histogram, Entry, new, u64, max_uint32, count_at, indices}

-- `binary.AppendUvarint`: seven bits a byte, lowest first. A uint64 has at most ten groups, so nine
-- rounds of the loop are enough.
unfoldable pub put_uvarint : ℕ → ℕ → List ℕ
put_uvarint zero v = v ∷ []
put_uvarint (suc k) v =
    let rest = put_uvarint k (v / 128) in if ltb v 128 then v ∷ [] else (v % 128 + 128) ∷ rest

abbrev pub rounds : ℕ
rounds = 9

-- `binary.Uvarint`, from byte `i` on, with `scale` for `1 << s`: `none` stands for `n <= 0`, on a
-- truncated number and on one that passes 64 bits.
unfoldable pub uvarint_from : ℕ → ℕ → ℕ → List ℕ → Option (ℕ × List ℕ)
uvarint_from i scale acc [] = none
uvarint_from i scale acc (b ∷ bs) =
    let rest = uvarint_from (i + 1) (scale * 128) (acc + b % 128 * scale) bs in
    if i == 10
    then none
    else if ltb b 128
    then if i == 9 && ltb 1 b then none else some (acc + b * scale, bs)
    else rest

unfoldable pub uvarint : List ℕ → Option (ℕ × List ℕ)
uvarint bytes = uvarint_from 0 1 0 bytes

abbrev pub format_version : ℕ
format_version = 1

abbrev pub max_pairs : ℕ
max_pairs = 2 ^ 20

-- The loop of `MarshalBinary` over the sorted indices; the subtraction is of uint32.
unfoldable pub marshal_from : ℕ → ℕ → List Entry → List ℕ → List ℕ
marshal_from i previous es [] = []
marshal_from i previous es (index ∷ more) =
    put_uvarint rounds (if ltb 0 i then (index + 2 ^ 32 - previous) % 2 ^ 32 else index)
    ++ (put_uvarint rounds (count_at index es) ++ marshal_from (i + 1) index es more)

unfoldable pub marshal : Histogram → List ℕ
unfolding indices
marshal h =
    format_version
    ∷ (put_uvarint rounds (length (indices h)) ++ marshal_from 0 0 h.buckets (indices h))

pub data Error : Type 0 where
  unsupported_version invalid_pair_count invalid_bucket invalid_count not_increasing : Error
  bucket_overflows trailing_bytes : Error

pub data Result (A : Type 0) : Type 0 where
  ok : A → Result A
  err : Error → Result A

pub Result-cases :
    {A : Type 0} (r : Result A) → ((e : Error) × (r ≡ err e)) ⊎ ((a : A) × (r ≡ ok a))
Result-cases (err e) = inl (e, refl)
Result-cases (ok a) = inr (a, refl)

-- `buckets[index] = count`.
unfoldable pub put_at : ℕ → ℕ → List Entry → List Entry
put_at index n [] = record { index = index; count = n } ∷ []
put_at index n (e ∷ es) =
    if index == e.index
    then record { index = index; count = n } ∷ es
    else if ltb index e.index
    then record { index = index; count = n } ∷ e ∷ es
    else e ∷ put_at index n es

-- One round of the loop of `UnmarshalBinary`: the bucket's index and count, and the rest.
unfoldable pub read_pair : ℕ → ℕ → List ℕ → Result (ℕ × ℕ × List ℕ)
read_pair i previous bytes = elim (uvarint bytes) [
  | none ↦ err invalid_bucket
  | some (delta, after_delta) ↦ elim (uvarint after_delta) [
    | none ↦ err invalid_count
    | some (count, rest) ↦
        if count == 0
        then err invalid_count
        else if ltb 0 i && delta == 0
        then err not_increasing
        else (let index = if ltb 0 i then u64 (previous + delta) else delta in
            if ltb max_uint32 index then err bucket_overflows else ok (index, count, rest))
  ]
]

-- `n` rounds are left, and `i` are done.
unfoldable pub read_pairs : ℕ → ℕ → ℕ → Histogram → List ℕ → Result (Histogram × List ℕ)
read_pairs zero i previous h bytes = ok (h, bytes)
read_pairs (suc n) i previous h bytes = elim (read_pair i previous bytes) [
  | err e ↦ err e
  | ok (index, count, rest) ↦
      read_pairs n (i + 1) index
        (record { buckets = put_at index count h.buckets; count = u64 (h.count + count) }) rest
]

abbrev pub finish : Result (Histogram × List ℕ) → Result Histogram
finish (err e) = err e
finish (ok (h, [])) = ok h
finish (ok (h, b ∷ bs)) = err trailing_bytes

abbrev pub counted : Option (ℕ × List ℕ) → Result Histogram
counted none = err invalid_pair_count
counted (some (pairs, rest)) =
    if ltb max_pairs pairs then err invalid_pair_count else finish (read_pairs pairs 0 0 new rest)

unfoldable pub unmarshal : List ℕ → Result Histogram
unmarshal [] = err unsupported_version
unmarshal (version ∷ bytes) =
    if version == format_version then counted (uvarint bytes) else err unsupported_version
