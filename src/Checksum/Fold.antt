-- ===== src/Checksum/Fold.antt =====
-- internal/trace/checksum.go: one's-complement arithmetic.
use flameping.Prelude.{
  zero, suc, ℕ, ◌+◌, ◌-◌, ◌/◌, ◌%◌, ◌^◌, ◌<◌, ◌≡◌, refl, ◌==◌, if◌then◌else◌, arith,
}
use flameping.Checksum.{fold_from, fold, complement, ones_subtract, checksum_of}

-- One round of `fold`: no wrap, the same remainder, and fewer bits.
round_lem :
    (sum : ℕ)
    → sum < 2 ^ 32
    → ((sum % 2 ^ 16 + sum / 2 ^ 16) % 2 ^ 32 ≡ sum % 2 ^ 16 + sum / 2 ^ 16)
      × ((sum % 2 ^ 16 + sum / 2 ^ 16) % 65535 ≡ sum % 65535)
      × (sum % 2 ^ 16 + sum / 2 ^ 16 < 2 ^ 17 - 1)
round_lem sum h = omega (arith, h)

last_lem :
    (sum : ℕ)
    → sum < 2 ^ 17 - 1
    → (sum % 2 ^ 16 + sum / 2 ^ 16 < 2 ^ 16) × ((sum % 2 ^ 16 + sum / 2 ^ 16) % 65535 ≡ sum % 65535)
last_lem sum h = omega (arith, h)

-- The second round of `fold` ends it.
fold_from_one :
    (sum : ℕ)
    → sum < 2 ^ 17 - 1
    → (fold_from 1 sum % 65535 ≡ sum % 65535) × (fold_from 1 sum < 2 ^ 16)
unfolding fold_from
fold_from_one sum h = ground (arith, last_lem sum h)

fold_rounds :
    (sum : ℕ)
    → fold sum ≡ (
        if sum / 2 ^ 16 == 0
        then sum % 2 ^ 16
        else fold_from 1 ((sum % 2 ^ 16 + sum / 2 ^ 16) % 2 ^ 32))
unfolding fold fold_from
fold_rounds sum = refl

-- fold, for any 32-bit sum, returns a number of 16 bits that is the sum up to multiples of 65535.
pub fold_lem : (sum : ℕ) → sum < 2 ^ 32 → (fold sum % 65535 ≡ sum % 65535) × (fold sum < 2 ^ 16)
fold_lem sum h = ground (
  arith,
  h,
  fold_rounds sum,
  round_lem sum h,
  fold_from_one ((sum % 2 ^ 16 + sum / 2 ^ 16) % 2 ^ 32),
)

-- The remainders modulo 65535 of what `onesSubtract` adds back.
remainders :
    (sum m t c f : ℕ)
    → m % 65535 ≡ sum % 65535
    → m < 2 ^ 16
    → c % 65535 ≡ (t + (65535 - m)) % 65535
    → f % 65535 ≡ (sum + c) % 65535
    → f % 65535 ≡ t % 65535
remainders sum m t c f hm small hc hf = omega (arith, hm, small, hc, hf)

complement_lem :
    (f desired : ℕ)
    → f % 65535 ≡ (65535 - desired) % 65535
    → f < 2 ^ 16
    → 0 < desired
    → desired < 2 ^ 16
    → (if 65535 - f == 0 then 65535 else 65535 - f) ≡ desired
complement_lem f desired h small lo hi = ground (arith, h, small, lo, hi)

pub ones_subtract_lem :
    (a b : ℕ)
    → a < 2 ^ 16
    → (ones_subtract a b % 65535 ≡ (a + (65535 - b)) % 65535) × (ones_subtract a b < 2 ^ 16)
unfolding ones_subtract
ones_subtract_lem a b h = ground (arith, h, fold_lem ((a + (65535 - b)) % 2 ^ 32))

-- What `parisPayload` puts into the last word, for any sum of the other words that leaves room for it
-- in 32 bits and any checksum that is not 0, makes the checksum the one that is asked for.
pub compensation_lem :
    (sum desired : ℕ)
    → sum < 2 ^ 32 - 2 ^ 16
    → 0 < desired
    → desired < 2 ^ 16
    → checksum_of (sum + ones_subtract (complement desired) (fold sum)) ≡ desired
unfolding checksum_of
compensation_lem sum desired h lo hi =
    let (hm, small) = fold_lem sum (omega (arith, h)) in
    let (hc, fits) = ones_subtract_lem (complement desired) (fold sum) (omega arith) in
    let comp = ones_subtract (complement desired) (fold sum) in
    let (hf, last) = fold_lem (sum + comp) (omega (arith, h, fits)) in
    complement_lem (fold (sum + comp)) desired
      (remainders sum (fold sum) (complement desired) comp (fold (sum + comp)) hm small hc hf) last
      lo hi

fold_from-suc :
    (fuel sum : ℕ)
    → fold_from (suc fuel) sum ≡ (
        if sum / 2 ^ 16 == 0
        then sum % 2 ^ 16
        else fold_from fuel ((sum % 2 ^ 16 + sum / 2 ^ 16) % 2 ^ 32))
unfolding fold_from
fold_from-suc fuel sum = refl

fold_from_word : (fuel sum : ℕ) → sum < 2 ^ 16 → fold_from fuel sum ≡ sum
unfolding fold_from
fold_from_word zero sum h = omega (arith, h)
fold_from_word (suc fuel) sum h = ground (arith, h)

fold_from_more : (fuel sum : ℕ) → sum < 2 ^ 17 - 1 → fold_from (suc fuel) sum ≡ fold_from 1 sum
fold_from_more fuel sum h =
    let next = (sum % 2 ^ 16 + sum / 2 ^ 16) % 2 ^ 32 in
    ground (
      arith,
      h,
      last_lem sum h,
      fold_from-suc fuel sum,
      fold_from-suc 0 sum,
      fold_from_word fuel next,
      fold_from_word 0 next,
    )

-- fold, for any 32-bit sum: two rounds of its loop are enough, since it returns the same with any
-- number of further rounds.
pub fold_from_enough : (fuel sum : ℕ) → sum < 2 ^ 32 → fold_from (suc (suc fuel)) sum ≡ fold sum
fold_from_enough fuel sum h = ground (
  arith,
  round_lem sum h,
  fold_rounds sum,
  fold_from-suc (suc fuel) sum,
  fold_from_more fuel ((sum % 2 ^ 16 + sum / 2 ^ 16) % 2 ^ 32),
)
