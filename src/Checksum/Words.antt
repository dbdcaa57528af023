-- ===== src/Checksum/Words.antt =====
-- internal/trace/checksum.go: sums of 16-bit words, and the headers that are summed.
use flameping.Prelude.{
  ℕ, zero, suc, ◌+◌, ◌*◌, ◌%◌, ◌^◌, ◌≤◌, ◌<◌, ◌≡◌, refl, if◌then◌else◌, List, [], ◌∷◌, ◌++◌, Bool,
  true, false, length, length-append, All, All-append, arith,
}
use flameping.Checksum.{Addr, word_sum, after_addresses, headers}

pub word_sum-append :
    (n sum : ℕ) (xs ys : List ℕ)
    → length xs ≡ n + n
    → word_sum sum (xs ++ ys) ≡ word_sum (word_sum sum xs) ys
unfolding word_sum
word_sum-append n sum [] ys h = refl
word_sum-append n sum (x ∷ []) ys h = ground (arith, h)
word_sum-append zero sum (x ∷ y ∷ xs) ys h = ground (arith, h)
word_sum-append (suc n) sum (x ∷ y ∷ xs) ys h =
    word_sum-append n ((sum + (2 ^ 8 * x + y)) % 2 ^ 32) xs ys (ground (arith, h))

-- A byte.
abbrev pub IsByte : ℕ → Type 0
IsByte b = b < 2 ^ 8

pub word_sum_le :
    (sum : ℕ) (xs : List ℕ) → All IsByte xs → word_sum sum xs ≤ sum + 2 ^ 16 * length xs
unfolding word_sum
word_sum_le sum [] h = ground arith
word_sum_le sum (x ∷ []) h = ground (arith, h)
word_sum_le sum (x ∷ y ∷ xs) (hx, (hy, h)) =
    ground (arith, hx, hy, word_sum_le ((sum + (2 ^ 8 * x + y)) % 2 ^ 32) xs h)

-- What `netip.Addr` holds: 4 bytes or 16.
pub record IsAddr (a : Addr) : Type 0 where
  pub sized : length a.bytes ≡ (if a.is_4 then 4 else 16)
  pub small : All IsByte a.bytes

after_addresses_size :
    (is_4 : Bool) (source_port destination_port size : ℕ)
    → length (after_addresses is_4 source_port destination_port size) ≡ (if is_4 then 12 else 16)
after_addresses_size true source_port destination_port size = refl
after_addresses_size false source_port destination_port size = refl

after_addresses-All :
    (is_4 : Bool) (source_port destination_port size : ℕ)
    → All IsByte (after_addresses is_4 source_port destination_port size)
after_addresses-All true source_port destination_port size = ground arith
after_addresses-All false source_port destination_port size = ground arith

pub headers_size :
    (source destination : Addr) (source_port destination_port size : ℕ)
    → IsAddr source
    → IsAddr destination
    → source.is_4 ≡ destination.is_4
    → length (headers source destination source_port destination_port size)
      ≡ (if source.is_4 then 20 else 48)
headers_size source destination source_port destination_port size hs hd same =
    let rest = after_addresses source.is_4 source_port destination_port size in
    ground (
      arith,
      hs.sized,
      hd.sized,
      same,
      after_addresses_size source.is_4 source_port destination_port size,
      length-append source.bytes (destination.bytes ++ rest),
      length-append destination.bytes rest,
    )

pub headers-All :
    (source destination : Addr) (source_port destination_port size : ℕ)
    → IsAddr source
    → IsAddr destination
    → All IsByte (headers source destination source_port destination_port size)
headers-All source destination source_port destination_port size hs hd =
    All-append IsByte source.bytes _ hs.small (
      All-append IsByte destination.bytes _ hd.small
        (after_addresses-All source.is_4 source_port destination_port size))
