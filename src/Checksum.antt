-- ===== src/Checksum.antt =====
-- internal/trace/checksum.go: the UDP checksum of a probe, and the payload that forces it to a chosen
-- value. An address gives its bytes; bytes, 16-bit words and 32-bit sums are natural numbers.
pub mod Fold
pub mod Words
pub mod Paris
mod Scenarios
use flameping.Prelude.{
  ℕ, zero, suc, ◌+◌, ◌-◌, ◌*◌, ◌/◌, ◌%◌, ◌^◌, List, [], ◌∷◌, ◌++◌, Bool, true, false, ltb, ◌==◌,
  not, if◌then◌else◌, Option, none, some, length,
}

-- `netip.Addr`: `Is4`, and `As4` or `As16`.
pub record Addr : Type 0 where
  pub is_4 : Bool
  pub bytes : List ℕ

-- `fold`; the fuel is the number of rounds.
unfoldable pub fold_from : ℕ → ℕ → ℕ
fold_from zero sum = sum % 2 ^ 16
fold_from (suc fuel) sum =
    let rest = fold_from fuel ((sum % 2 ^ 16 + sum / 2 ^ 16) % 2 ^ 32) in
    if sum / 2 ^ 16 == 0 then sum % 2 ^ 16 else rest

unfoldable pub fold : ℕ → ℕ
fold sum = fold_from 2 sum

-- `^x` of a uint16.
abbrev pub complement : ℕ → ℕ
complement x = 2 ^ 16 - 1 - x

-- `onesSubtract`.
unfoldable pub ones_subtract : ℕ → ℕ → ℕ
ones_subtract a b = fold ((a + complement b) % 2 ^ 32)

-- The end of `udpChecksum`.
unfoldable pub checksum_of : ℕ → ℕ
checksum_of sum = let result = complement (fold sum) in if result == 0 then 65535 else result

-- `binary.BigEndian.AppendUint16` and `AppendUint32`.
abbrev pub be_16 : ℕ → List ℕ
be_16 x = x / 2 ^ 8 % 2 ^ 8 ∷ x % 2 ^ 8 ∷ []

abbrev pub be_32 : ℕ → List ℕ
be_32 x = be_16 (x / 2 ^ 16) ++ be_16 x

-- The loop of `udpPseudoSum`; a last byte is padded with 0.
unfoldable pub word_sum : ℕ → List ℕ → ℕ
word_sum sum [] = sum
word_sum sum (hi ∷ []) = (sum + (2 ^ 8 * hi + 0)) % 2 ^ 32
word_sum sum (hi ∷ lo ∷ bytes) = word_sum ((sum + (2 ^ 8 * hi + lo)) % 2 ^ 32) bytes

-- The protocol and the length in the pseudo-header, then the UDP header.
abbrev pub after_addresses : Bool → ℕ → ℕ → ℕ → List ℕ
after_addresses true source_port destination_port size =
    (0 ∷ 17 ∷ be_16 (8 + size))
    ++ (be_16 source_port ++ (be_16 destination_port ++ (be_16 (8 + size) ++ 0 ∷ 0 ∷ [])))
after_addresses false source_port destination_port size =
    (be_32 (8 + size) ++ 0 ∷ 0 ∷ 0 ∷ 17 ∷ [])
    ++ (be_16 source_port ++ (be_16 destination_port ++ (be_16 (8 + size) ++ 0 ∷ 0 ∷ [])))

-- What is summed before a payload of the given length.
abbrev pub headers : Addr → Addr → ℕ → ℕ → ℕ → List ℕ
headers source destination source_port destination_port size =
    source.bytes
    ++ (destination.bytes ++ after_addresses source.is_4 source_port destination_port size)

abbrev pub same_family : Addr → Addr → Bool
same_family a b = if a.is_4 then b.is_4 else not b.is_4

-- `udpPseudoSum`; its error is `none`.
unfoldable pub udp_pseudo_sum : Addr → Addr → ℕ → ℕ → List ℕ → Option ℕ
udp_pseudo_sum source destination source_port destination_port payload =
    if same_family source destination
    then some (
        word_sum 0
          (headers source destination source_port destination_port (length payload) ++ payload))
    else none

-- `udpChecksum`.
unfoldable pub udp_checksum : Addr → Addr → ℕ → ℕ → List ℕ → Option ℕ
udp_checksum source destination source_port destination_port payload =
    elim (udp_pseudo_sum source destination source_port destination_port payload) [
      | none ↦ none
      | some sum ↦ some (checksum_of sum)
    ]

-- The payload of `parisPayload`, "FLMP", with its last two words.
abbrev pub magic : ℕ → List ℕ
magic word = 70 ∷ 76 ∷ 77 ∷ 80 ∷ 0 ∷ 0 ∷ be_16 word

-- `parisPayload`; its errors are `none`.
unfoldable pub paris_payload : Addr → Addr → ℕ → ℕ → ℕ → Option (List ℕ)
paris_payload source destination source_port destination_port desired =
    if desired == 0
    then none
    else elim (udp_pseudo_sum source destination source_port destination_port (magic 0)) [
      | none ↦ none
      | some sum ↦
          let payload = magic (ones_subtract (complement desired) (fold sum)) in
          elim (udp_checksum source destination source_port destination_port payload) [
            | none ↦ none
            | some got ↦ if got == desired then some payload else none
          ]
    ]
