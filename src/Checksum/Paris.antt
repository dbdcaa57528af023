-- ===== src/Checksum/Paris.antt =====
-- internal/trace/checksum.go: the payload that forces the checksum of a probe.
use flameping.Prelude.{
  ℕ, ◌+◌, ◌^◌, ◌≤◌, ◌<◌, ◌≡◌, refl, sym, ap, subst, ◌∙◌, ◌==◌, if◌then◌else◌, List, ◌++◌, Bool,
  true, false, some, arith,
}
use flameping.Checksum.{
  Addr, fold, complement, ones_subtract, checksum_of, word_sum, headers, same_family,
  udp_pseudo_sum, udp_checksum, magic, paris_payload,
}
use flameping.Checksum.Fold.{compensation_lem, ones_subtract_lem}
use flameping.Checksum.Words.{word_sum-append, word_sum_le, IsAddr, headers_size, headers-All}

magic_sum :
    (sum word : ℕ) → sum < 2 ^ 22 → word < 2 ^ 16 → word_sum sum (magic word) ≡ sum + 37788 + word
unfolding word_sum
magic_sum sum word h small = omega (arith, h, small)

headers_even :
    (is_4 : Bool) (size : ℕ)
    → size ≡ (if is_4 then 20 else 48)
    → (size ≡ (if is_4 then 10 else 24) + (if is_4 then 10 else 24)) × (size ≤ 48)
headers_even is_4 size h = ground (arith, h)

module _ (source destination : Addr) (source_port destination_port : ℕ) (hs : IsAddr source)
    (hd : IsAddr destination) (same : source.is_4 ≡ destination.is_4) where
  header_sum_le : word_sum 0 (headers source destination source_port destination_port 8) < 2 ^ 22
  header_sum_le =
      let size = headers_size source destination source_port destination_port 8 hs hd same in
      omega (
        arith,
        (headers_even source.is_4 _ size).1,
        word_sum_le 0 (headers source destination source_port destination_port 8)
            (headers-All source destination source_port destination_port 8 hs hd),
      )

  pseudo_sum_magic :
      (word : ℕ)
      → word < 2 ^ 16
      → udp_pseudo_sum source destination source_port destination_port (magic word)
        ≡ some
            (word_sum 0 (headers source destination source_port destination_port 8) + 37788 + word)
  unfolding udp_pseudo_sum
  pseudo_sum_magic word small =
      let front = headers source destination source_port destination_port 8 in
      let size = headers_size source destination source_port destination_port 8 hs hd same in
      let family : same_family source destination ≡ true = ground (arith, same) in
      let sum : word_sum 0 (front ++ magic word) ≡ word_sum 0 front + 37788 + word =
        word_sum-append (if source.is_4 then 10 else 24) 0 front (magic word)
          (headers_even source.is_4 _ size).0
        ∙ magic_sum (word_sum 0 front) word header_sum_le small in
      rw (family) (ap some sum)

  -- The checksum with the compensating word.
  compensated :
      (desired sum comp : ℕ)
      → sum ≡ word_sum 0 (headers source destination source_port destination_port 8) + 37788
      → comp ≡ ones_subtract (complement desired) (fold sum)
      → 0 < desired
      → desired < 2 ^ 16
      → udp_checksum source destination source_port destination_port (magic comp) ≡ some desired
  unfolding udp_checksum
  compensated desired sum comp hsum hcomp lo hi =
      let (rest, fits) = ones_subtract_lem (complement desired) (fold sum) (omega arith) in
      let asked : checksum_of (sum + comp) ≡ desired =
        subst (λ c. checksum_of (sum + c) ≡ desired) (sym hcomp)
          (compensation_lem sum desired (omega (arith, hsum, header_sum_le)) lo hi) in
      rw (udp_checksum, pseudo_sum_magic comp (omega (arith, hcomp, fits)), sym hsum)
        (ap some asked)

  -- parisPayload, for two addresses of one family, any ports and any checksum of 16 bits that is not 0:
  -- it returns a payload, and the checksum of the datagram with that payload is the one asked for.
  pub paris_payload_lem :
      (desired : ℕ)
      → 0 < desired
      → desired < 2 ^ 16
      → (payload : List ℕ) × ((paris_payload source destination source_port destination_port desired
            ≡ some payload)
          × (udp_checksum source destination source_port destination_port payload ≡ some desired))
  unfolding paris_payload
  paris_payload_lem desired lo hi =
      let sum = word_sum 0 (headers source destination source_port destination_port 8) + 37788 in
      let comp = ones_subtract (complement desired) (fold sum) in
      let first : udp_pseudo_sum source destination source_port destination_port (magic 0)
          ≡ some sum =
        pseudo_sum_magic 0 (omega arith) ∙ ap some (omega arith) in
      let got = compensated desired sum comp refl refl lo hi in
      let some_desired : (desired == 0) ≡ false = ground (arith, lo) in
      let itself : (desired == desired) ≡ true = ground arith in
      (magic comp, (rw (paris_payload, some_desired, first, got, itself) refl, got))
