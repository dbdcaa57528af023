-- ===== src/Echo/Payload/RoundTrip.antt =====
-- internal/echo/payload.go: DecodePayload after EncodePayload.
use flameping.Prelude.{
  ℕ, zero, suc, ◌+◌, ◌*◌, ◌/◌, ◌%◌, ◌^◌, ◌≤◌, ◌<◌, ◌≡◌, refl, ◌∙◌, subst, true, false, List, [],
  ◌∷◌, ◌++◌, some, length, take, drop, take-append, drop-append, length-append, length-take, arith,
}
use flameping.Prelude.Int.{ℤ, pos, negsuc, pos_part, ltb_ℤ, leb_ℤ}
use native.Mathlib.Nat.{div-add-mod}
use flameping.Echo.Payload.{
  Identity, put_bytes, number_from, to_unsigned, to_signed, head_of, is_equal, is_headed,
  identity_of, encode_payload, decode_payload, tag,
}

number_from-append :
    (n : ℕ) (xs : List ℕ) (b : ℕ) → number_from n (xs ++ b ∷ []) ≡ 256 * number_from n xs + b
unfolding number_from
number_from-append n [] b = refl
number_from-append n (x ∷ xs) b = number_from-append (256 * n + x) xs b

-- As many bytes as a number fits in stand for it.
number_from-put_bytes : (k n : ℕ) → n < 256 ^ k → number_from 0 (put_bytes k n) ≡ n
unfolding put_bytes number_from
number_from-put_bytes zero n h = omega (arith, h)
number_from-put_bytes (suc k) n h =
    rw
      (
        number_from-append 0 (put_bytes k (n / 256)) (n % 256),
        number_from-put_bytes k (n / 256) (omega (arith, h)),
      )
      (div-add-mod n 256)

pub is_equal_refl : (xs : List ℕ) → is_equal xs xs ≡ true
is_equal_refl [] = refl
is_equal_refl (x ∷ xs) = ground (arith, is_equal_refl xs)

-- A property of lists of eight bytes.
of_eight :
    (P : List ℕ → Type 0)
    → ((a b c d e f g h : ℕ) → P (a ∷ b ∷ c ∷ d ∷ e ∷ f ∷ g ∷ h ∷ []))
    → (bytes : List ℕ) → length bytes ≡ 8
    → P bytes
of_eight P each [] sized = ground (arith, sized)
of_eight P each (a ∷ []) sized = ground (arith, sized)
of_eight P each (a ∷ b ∷ []) sized = ground (arith, sized)
of_eight P each (a ∷ b ∷ c ∷ []) sized = ground (arith, sized)
of_eight P each (a ∷ b ∷ c ∷ d ∷ []) sized = ground (arith, sized)
of_eight P each (a ∷ b ∷ c ∷ d ∷ e ∷ []) sized = ground (arith, sized)
of_eight P each (a ∷ b ∷ c ∷ d ∷ e ∷ f ∷ []) sized = ground (arith, sized)
of_eight P each (a ∷ b ∷ c ∷ d ∷ e ∷ f ∷ g ∷ []) sized = ground (arith, sized)
of_eight P each (a ∷ b ∷ c ∷ d ∷ e ∷ f ∷ g ∷ h ∷ []) sized = each a b c d e f g h
of_eight P each (a ∷ b ∷ c ∷ d ∷ e ∷ f ∷ g ∷ h ∷ i ∷ bytes) sized = ground (arith, sized)

-- An identity that the engine can have: eight bytes of run id, and numbers within int64 and uint64.
pub record IsSendable (id : Identity) : Type 0 where
  pub run : length id.run_id ≡ 8
  pub counted : id.sequence < 2 ^ 64
  pub offset : ltb_ℤ id.send_offset (pos 0) ≡ false
  pub offset_fits : pos_part id.send_offset < 2 ^ 63
  pub patient : leb_ℤ id.timeout (pos 0) ≡ false
  pub timeout_fits : pos_part id.timeout < 2 ^ 63

signed_back :
    (v : ℤ)
    → ltb_ℤ v (pos 0) ≡ false
    → pos_part v < 2 ^ 63
    → (to_signed (to_unsigned v) ≡ v) × (to_unsigned v < 2 ^ 64)
signed_back (pos n) sign h = ground (arith, h)
signed_back (negsuc n) sign h = ground (arith, sign)

module _ (id : Identity) (t : List ℕ) where
  abbrev with_run : List ℕ → Identity
  with_run bytes = record id { run_id = bytes }

  -- What DecodePayload looks at in a header followed by a tag.
  abbrev Reads : List ℕ → Type 0
  Reads bytes =
      (length (head_of (with_run bytes)) ≡ 40)
      × (is_headed (head_of (with_run bytes) ++ t) ≡ true)
      × (identity_of (head_of (with_run bytes) ++ t) ≡ record {
        run_id = bytes;
        sequence = number_from 0 (put_bytes 8 id.sequence);
        send_offset = to_signed (number_from 0 (put_bytes 8 (to_unsigned id.send_offset)));
        timeout = to_signed (number_from 0 (put_bytes 8 (to_unsigned id.timeout)));
      })

  reads : length t ≡ 16 → (bytes : List ℕ) → length bytes ≡ 8 → Reads bytes
  unfolding head_of is_headed identity_of put_bytes number_from
  reads sized = of_eight Reads (λ a b c d e f g h. (refl, ground (arith, sized), refl))

module _ (mac : List ℕ → List ℕ → List ℕ)
    (mac_size : (secret bytes : List ℕ) → length (mac secret bytes) ≡ 32) where
  -- DecodePayload reads back the identity that EncodePayload wrote under the same secret of at least 16
  -- bytes, where the sum that authenticates it has 32 bytes, and the payload has 56 bytes: for an identity
  -- with a run id of eight bytes, a sequence number of 64 bits, an offset that is not negative and a
  -- timeout that is positive, both within int64.
  pub decode_payload-encode_payload :
      (id : Identity) (secret : List ℕ)
      → IsSendable id
      → 16 ≤ length secret
      → (payload : List ℕ) × ((encode_payload mac id secret ≡ some payload)
          × (length payload ≡ 56)
          × (decode_payload mac payload secret ≡ some id))
  unfolding encode_payload decode_payload
  decode_payload-encode_payload id secret ok long =
      let t = tag mac secret (head_of id) in
      let sized : length t ≡ 16 =
        length-take 16 (mac secret (head_of id)) (omega (arith, mac_size secret (head_of id))) in
      let (head_size, headed, identity) = reads id t sized id.run_id ok.run in
      let (offset_back, offset_small) = signed_back id.send_offset ok.offset ok.offset_fits in
      let late : ltb_ℤ id.timeout (pos 0) ≡ false = ground (arith, ok.patient) in
      let (timeout_back, timeout_small) = signed_back id.timeout late ok.timeout_fits in
      let offset =
        number_from-put_bytes 8 (to_unsigned id.send_offset) (omega (arith, offset_small)) in
      let timeout =
        number_from-put_bytes 8 (to_unsigned id.timeout) (omega (arith, timeout_small)) in
      let counted = number_from-put_bytes 8 id.sequence (omega (arith, ok.counted)) in
      let same : identity_of (head_of id ++ t) ≡ id =
        identity ∙ ground (arith, offset, timeout, counted, offset_back, timeout_back) in
      let front : take 40 (head_of id ++ t) ≡ head_of id =
        subst (λ n. take n (head_of id ++ t) ≡ head_of id) head_size (take-append (head_of id) t) in
      let back : drop 40 (head_of id ++ t) ≡ t =
        subst (λ n. drop n (head_of id ++ t) ≡ t) head_size (drop-append (head_of id) t) in
      (
        head_of id ++ t,
        (
          ground (arith, long),
          length-append (head_of id) t ∙ omega (arith, head_size, sized),
          rw (headed, front, back, is_equal_refl t, same) (ground (arith, ok.patient, ok.offset)),
        ),
      )
