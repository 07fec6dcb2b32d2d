-- ===== src/Nip19/Keys/RoundTrip.antt =====
-- Encoding and decoding of keys by src/nip19/npub.cpp and src/nip19/nsec.cpp.
use monitostr.Prelude.{
  ℕ, true, false, ◌||◌, ◌&&◌, List, [], ◌∷◌, ◌++◌, Option, none, some, Text, codes, ◌==◌, ◌≤◌, ◌<◌,
  ◌/◌, ◌%◌, ◌≡◌, ◌≢◌, ◌⊎◌, inl, inr, refl, All, arith, length, take, ◌-◌, text_eq, ltb, is_empty,
  Bool-cases,
}
use monitostr.StringUtils.{to_lower_copy}
use monitostr.Nip19.Hex.{hex_digit, bytes_to_hex}
use monitostr.Nip19.Hex.RoundTrip.{hex_to_bytes-bytes_to_hex, length-bytes_to_hex}
use monitostr.Nip19.Convert.{convert_bits}
use monitostr.Nip19.Convert.Value.{Fits}
use monitostr.Nip19.Convert.Bytes.{AreBytes, convert_bits-AreBytes}
use monitostr.Nip19.Convert.RoundTrip.{convert_bits_round_trip}
use monitostr.Nip19.Bech32.{
  has_upper, has_lower, write_bech32, encode_bech32_32_bytes, decode_bech32_32_bytes, check_parts,
  check_values, check_bytes, read_symbols, verify_checksum, split_last_one, Decoded, decoded,
  refused,
}
use monitostr.Nip19.Bech32.RoundTrip.{decode-encode}
use monitostr.Nip19.Keys.{
  DecodeResult, decode_result, decode_npub_to_hex, decode_nsec_to_hex, encode_npub_from_hex,
}

abbrev pub npub_prefix : Text
npub_prefix = codes "npub"

encode-full :
    (bytes : List ℕ)
    → length bytes ≡ 32
    → All (Fits 8) bytes
    → is_empty (encode_bech32_32_bytes npub_prefix bytes) ≡ false
unfolding encode_bech32_32_bytes write_bech32
encode-full bytes size fit = let c = convert_bits_round_trip bytes fit in rw (size, c.1) refl

-- For any 32 bytes, encoding their hex text as an npub succeeds, and decoding that npub succeeds,
-- without an error text, with the same hex text.
pub decode_npub-encode_npub :
    (bytes : List ℕ)
    → length bytes ≡ 32
    → All (Fits 8) bytes
    → ((encode_npub_from_hex (bytes_to_hex bytes)).ok ≡ true)
      × (decode_npub_to_hex (encode_npub_from_hex (bytes_to_hex bytes)).npub
          ≡ record { ok = true; hex = bytes_to_hex bytes; error = [] })
unfolding encode_npub_from_hex decode_npub_to_hex decode_result has_upper
    monitostr.StringUtils.is_upper
decode_npub-encode_npub bytes size fit =
    let back = hex_to_bytes-bytes_to_hex bytes fit in
    let full = encode-full bytes size fit in
    let same = decode-encode npub_prefix bytes (λ e. cc) refl size fit in
    let nonempty : is_empty bytes ≡ false = ground (arith, size) in
    (rw (back, size, full) refl, rw (back, size, full, same, nonempty) refl)

-- The bech32 text of any 32 bytes under the prefix of an nsec is decoded into them.
pub decode_nsec_lem :
    (bytes : List ℕ)
    → length bytes ≡ 32
    → All (Fits 8) bytes
    → decode_nsec_to_hex (encode_bech32_32_bytes (codes "nsec") bytes)
      ≡ record { ok = true; hex = bytes_to_hex bytes; error = [] }
unfolding decode_nsec_to_hex decode_result has_upper monitostr.StringUtils.is_upper
decode_nsec_lem bytes size fit =
    let same = decode-encode (codes "nsec") bytes (λ e. cc) refl size fit in
    let nonempty : is_empty bytes ≡ false = ground (arith, size) in rw (same, nonempty) refl

not_nil : (hrp : Text) (c : ℕ) (t : Text) → hrp ++ c ∷ t ≢ []
not_nil [] c t = λ e. cc
not_nil (d ∷ hrp) c t = λ e. cc

-- Refused with a text, or 32 bytes.
IsAnswer : Decoded → Type 0
IsAnswer (refused error) = error ≢ []
IsAnswer (decoded bytes) = (length bytes ≡ 32) × All (Fits 8) bytes

check_bytes-IsAnswer :
    (hrp : Text) (o : Option (List ℕ)) → AreBytes o → IsAnswer (check_bytes hrp o)
unfolding IsAnswer check_bytes
check_bytes-IsAnswer hrp none h = λ e. cc
check_bytes-IsAnswer hrp (some bytes) h = elim (Bool-cases (length bytes == 32)) [
  | inl e ↦ rw e (grind (arith, e), h)
  | inr e ↦ rw e (not_nil hrp _ _)
]

check_values-IsAnswer : (hrp : Text) (o : Option (List ℕ)) → IsAnswer (check_values hrp o)
unfolding IsAnswer check_values
check_values-IsAnswer hrp none = λ e. cc
check_values-IsAnswer hrp (some values) = elim (Bool-cases (verify_checksum hrp values)) [
  | inl e ↦
      let kept = take (length values - 6) values in
      rw e (
        check_bytes-IsAnswer hrp (convert_bits 5 8 false kept)
          (convert_bits-AreBytes 5 8 false kept))
  | inr e ↦ rw e (λ q. cc)
]

check_parts-IsAnswer : (hrp : Text) (o : Option (Text × Text)) → IsAnswer (check_parts hrp o)
unfolding IsAnswer check_parts
check_parts-IsAnswer hrp none = λ e. cc
check_parts-IsAnswer hrp (some parts) =
    let short = is_empty parts.0 || ltb (length parts.1) 6 in
    elim (Bool-cases short) [
      | inl e ↦ rw e (λ q. cc)
      | inr e ↦ rw e (elim (Bool-cases (text_eq parts.0 hrp)) [
        | inl e' ↦ rw e' (check_values-IsAnswer hrp (read_symbols parts.1))
        | inr e' ↦ rw e' (λ q. cc)
      ])
    ]

decode-IsAnswer : (input hrp : Text) → IsAnswer (decode_bech32_32_bytes input hrp)
unfolding IsAnswer decode_bech32_32_bytes
decode-IsAnswer [] hrp = not_nil hrp _ _
decode-IsAnswer (c ∷ input) hrp =
    elim (Bool-cases (has_lower (c ∷ input) && has_upper (c ∷ input))) [
      | inl e ↦ rw e (λ q. cc)
      | inr e ↦ rw e (check_parts-IsAnswer hrp (split_last_one (to_lower_copy (c ∷ input))))
    ]

-- A digit that std::hex prints.
abbrev pub IsHexDigit : ℕ → Type 0
IsHexDigit c = ((b'0' ≤ c) × (c ≤ b'9')) ⊎ ((b'a' ≤ c) × (c ≤ b'f'))

hex_digit-IsHexDigit : (n : ℕ) → n < 16 → IsHexDigit (hex_digit n)
unfolding hex_digit
hex_digit-IsHexDigit n h = ground arith

bytes_to_hex-IsHexDigit :
    (bytes : List ℕ) → All (Fits 8) bytes → All IsHexDigit (bytes_to_hex bytes)
unfolding bytes_to_hex
bytes_to_hex-IsHexDigit [] h = tt
bytes_to_hex-IsHexDigit (b ∷ bytes) h = (
  hex_digit-IsHexDigit (b / 16) (omega (arith, h.0)),
  (hex_digit-IsHexDigit (b % 16) (omega arith), bytes_to_hex-IsHexDigit bytes h.1),
)

-- `ok` with 64 hex digits and no error, or not `ok` with no digits and an error.
abbrev pub IsResult : DecodeResult → Type 0
IsResult r =
    ((r.ok ≡ true) × (length r.hex ≡ 64) × All IsHexDigit r.hex × (r.error ≡ []))
    ⊎ ((r.ok ≡ false) × (r.hex ≡ []) × (r.error ≢ []))

decode_result-IsResult : (d : Decoded) → IsAnswer d → IsResult (decode_result d)
unfolding IsAnswer decode_result
decode_result-IsResult (refused error) h = inr (refl, refl, h)
decode_result-IsResult (decoded []) h = absurd (omega (arith, h.0))
decode_result-IsResult (decoded (b ∷ bytes)) h = inl (
  refl,
  omega (arith, h.0, length-bytes_to_hex (b ∷ bytes)),
  bytes_to_hex-IsHexDigit (b ∷ bytes) h.1,
  refl,
)

-- Decoding any text as an npub or as an nsec either succeeds with 64 digits, each from 0 to 9 or
-- from a to f, and no error text, or fails with no digits and an error text.
pub decode-IsResult :
    (key : Text) → IsResult (decode_npub_to_hex key) × IsResult (decode_nsec_to_hex key)
unfolding decode_npub_to_hex decode_nsec_to_hex
decode-IsResult key = (
  decode_result-IsResult (decode_bech32_32_bytes key (codes "npub"))
      (decode-IsAnswer key (codes "npub")),
  decode_result-IsResult (decode_bech32_32_bytes key (codes "nsec"))
      (decode-IsAnswer key (codes "nsec")),
)
