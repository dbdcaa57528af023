-- ===== src/Echo/Payload.antt =====
-- internal/echo/payload.go: the payload of a probe. `mac` is HMAC-SHA-256, of a secret and a message;
-- it is a parameter. A byte is a number below 256.
pub mod RoundTrip
use flameping.Prelude.{
  ℕ, zero, suc, ◌+◌, ◌-◌, ◌*◌, ◌/◌, ◌%◌, ◌^◌, Bool, true, false, not, ◌&&◌, ◌||◌, ◌==◌, ltb,
  if◌then◌else◌, List, [], ◌∷◌, ◌++◌, Option, none, some, length, take, drop,
}
use flameping.Prelude.Int.{ℤ, pos, negsuc, ltb_ℤ, leb_ℤ}

abbrev pub payload_size : ℕ
payload_size = 56

abbrev pub tag_offset : ℕ
tag_offset = 40

abbrev pub payload_magic : List ℕ
payload_magic = b'F' ∷ b'L' ∷ b'M' ∷ b'P' ∷ []

pub record Identity : Type 0 where
  pub run_id : List ℕ
  pub sequence : ℕ
  pub send_offset : ℤ
  pub timeout : ℤ

-- A number as that many bytes, the highest first, and the number that bytes stand for.
unfoldable pub put_bytes : ℕ → ℕ → List ℕ
put_bytes zero n = []
put_bytes (suc k) n = put_bytes k (n / 256) ++ n % 256 ∷ []

unfoldable pub number_from : ℕ → List ℕ → ℕ
number_from n [] = n
number_from n (b ∷ bs) = number_from (256 * n + b) bs

-- The conversions between int64 and uint64.
abbrev pub to_unsigned : ℤ → ℕ
to_unsigned (pos n) = n % 2 ^ 64
to_unsigned (negsuc n) = 2 ^ 64 - 1 - n % 2 ^ 64

abbrev pub to_signed : ℕ → ℤ
to_signed w = if ltb w (2 ^ 63) then pos w else negsuc (2 ^ 64 - 1 - w)

-- The part of the payload before the tag.
unfoldable pub head_of : Identity → List ℕ
head_of id =
    payload_magic
    ++ (1 ∷ 0 ∷ [])
    ++ put_bytes 2 payload_size
    ++ id.run_id
    ++ put_bytes 8 id.sequence
    ++ put_bytes 8 (to_unsigned id.send_offset)
    ++ put_bytes 8 (to_unsigned id.timeout)

abbrev pub is_equal : List ℕ → List ℕ → Bool
is_equal [] [] = true
is_equal (x ∷ xs) (y ∷ ys) = x == y && is_equal xs ys
is_equal [] (y ∷ ys) = false
is_equal (x ∷ xs) [] = false

abbrev pub slice : ℕ → ℕ → List ℕ → List ℕ
slice from to bytes = take (to - from) (drop from bytes)

-- The checks of the header: the size, the magic bytes, the version and the size that is written.
unfoldable pub is_headed : List ℕ → Bool
is_headed buf =
    length buf == payload_size
    && (is_equal (slice 0 4 buf) payload_magic
        && (is_equal (slice 4 5 buf) (1 ∷ []) && number_from 0 (slice 6 8 buf) == payload_size))

unfoldable pub identity_of : List ℕ → Identity
identity_of buf = record {
  run_id = slice 8 16 buf;
  sequence = number_from 0 (slice 16 24 buf);
  send_offset = to_signed (number_from 0 (slice 24 32 buf));
  timeout = to_signed (number_from 0 (slice 32 40 buf));
}

module _ (mac : List ℕ → List ℕ → List ℕ) where
  abbrev pub tag : List ℕ → List ℕ → List ℕ
  tag secret bytes = take 16 (mac secret bytes)

  -- `EncodePayload`.
  unfoldable pub encode_payload : Identity → List ℕ → Option (List ℕ)
  encode_payload id secret =
      if ltb (length secret) 16 then none else some (head_of id ++ tag secret (head_of id))

  -- `DecodePayload`.
  unfoldable pub decode_payload : List ℕ → List ℕ → Option Identity
  decode_payload buf secret =
      let id = identity_of buf in
      if not (is_headed buf)
      then none
      else if not (is_equal (drop tag_offset buf) (tag secret (take tag_offset buf)))
      then none
      else if leb_ℤ id.timeout (pos 0) || ltb_ℤ id.send_offset (pos 0)
      then none
      else some id
