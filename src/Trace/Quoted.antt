-- ===== src/Trace/Quoted.antt =====
-- internal/trace/raw.go: the UDP header that an ICMP message quotes.
use flameping.Prelude.{
  ℕ, ◌+◌, ◌*◌, ◌/◌, ◌%◌, ◌^◌, ◌≡◌, List, [], ◌∷◌, ◌++◌, Bool, true, false, Option, none, some,
  length, ltb, ◌==◌, not, ◌||◌, if◌then◌else◌, get_elem?, drop, drop-append, ap, subst, ◌∙◌,
  length-append, arith, suc, zero,
}

-- The two ports and the checksum; the length is skipped.
unfoldable pub header_fields : List ℕ → Option (ℕ × ℕ × ℕ)
header_fields (a ∷ b ∷ c ∷ d ∷ e ∷ f ∷ g ∷ h ∷ rest) =
    some (2 ^ 8 * a + b, 2 ^ 8 * c + d, 2 ^ 8 * g + h)
header_fields _ = none

abbrev pub at_least : ℕ → Option ℕ → ℕ
at_least otherwise none = otherwise
at_least otherwise (some b) = b

-- `quotedUDP`; `ipv4_header` is the length that `icmp.ParseIPv4Header` finds.
unfoldable pub quoted_udp : (List ℕ → Option ℕ) → Bool → List ℕ → Option (ℕ × ℕ × ℕ)
quoted_udp ipv4_header true bytes = elim (ipv4_header bytes) [
  | none ↦ none
  | some offset ↦
      if ltb (length bytes) (offset + 8) then none else header_fields (drop offset bytes)
]
quoted_udp ipv4_header false bytes =
    if ltb (length bytes) 40 || not (at_least 0 (get_elem? bytes 6) == 17)
    then none
    else if ltb (length bytes) (40 + 8)
    then none
    else header_fields (drop 40 bytes)

abbrev pub be_word : ℕ → List ℕ → List ℕ
be_word x rest = x / 2 ^ 8 ∷ x % 2 ^ 8 ∷ rest

-- A UDP header with its ports, length and checksum.
abbrev pub udp_header : ℕ → ℕ → ℕ → ℕ → List ℕ
udp_header source destination size checksum =
    be_word source (be_word destination (be_word size (be_word checksum [])))

get_elem?-append :
    (i : ℕ) (xs ys : List ℕ) {x : ℕ} → get_elem? xs i ≡ some x → get_elem? (xs ++ ys) i ≡ some x
get_elem?-append i [] ys h = ground (arith, h)
get_elem?-append zero (x ∷ xs) ys h = h
get_elem?-append (suc i) (x ∷ xs) ys h = get_elem?-append i xs ys h

header_fields-udp_header :
    (source destination size checksum : ℕ) (rest : List ℕ)
    → header_fields (udp_header source destination size checksum ++ rest)
      ≡ some (source, destination, checksum)
unfolding header_fields
header_fields-udp_header source destination size checksum rest = ground arith

-- quotedUDP reads back the ports and the checksum of a UDP header that follows the IP header, with any
-- more bytes after it: an IPv4 header of the length that is parsed, or an IPv6 header of 40 bytes that
-- names UDP as the next one.
pub quoted_udp-udp_header :
    (ipv4_header : List ℕ → Option ℕ) (is_4 : Bool) (front rest : List ℕ)
    (source destination size checksum : ℕ)
    → (if is_4
        then ipv4_header (front ++ (udp_header source destination size checksum ++ rest))
        else some 40)
      ≡ some (length front)
    → (if is_4 then some 17 else get_elem? front 6) ≡ some 17
    → quoted_udp ipv4_header is_4 (front ++ (udp_header source destination size checksum ++ rest))
      ≡ some (source, destination, checksum)
unfolding quoted_udp
quoted_udp-udp_header ipv4_header true front rest source destination size checksum h k =
    let packet = udp_header source destination size checksum ++ rest in
    let back = header_fields-udp_header source destination size checksum rest in
    ground (arith, h, length-append front packet, drop-append front packet, back)
quoted_udp-udp_header ipv4_header false front rest source destination size checksum h k =
    let packet = udp_header source destination size checksum ++ rest in
    let back = header_fields-udp_header source destination size checksum rest in
    let forty : length front ≡ 40 = ground (arith, h) in
    let rest_of : drop 40 (front ++ packet) ≡ packet =
      subst (λ n. drop n (front ++ packet) ≡ packet) forty (drop-append front packet) in
    ground (
      arith,
      forty,
      k,
      length-append front packet,
      get_elem?-append 6 front packet k,
      ap header_fields rest_of ∙ back,
    )
