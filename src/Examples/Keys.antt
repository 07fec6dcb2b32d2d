-- ===== src/Examples/Keys.antt =====
-- Instances of the theorems on NIP-19 keys.
use monitostr.Prelude.{
  ◌<◌, ◌+◌, ◌-◌, ◌*◌, ◌%◌, ◌≡◌, ◌≢◌, refl, true, false, List, [], ◌∷◌, ◌++◌, some, codes, length,
  All, arith, ℕ,
}
use monitostr.Nip19.Hex.{bytes_to_hex}
use monitostr.Nip19.Convert.{convert_bits, emit}
use monitostr.Nip19.Convert.Enough.{emit_enough}
use monitostr.Nip19.Convert.Value.{Fits}
use monitostr.Nip19.Convert.RoundTrip.{convert_bits_round_trip}
use monitostr.Nip19.Bech32.{
  decode_bech32_32_bytes, encode_bech32_32_bytes, decoded, verify_checksum, create_checksum,
}
use monitostr.Nip19.Bech32.Checksum.{verify_checksum-create_checksum}
use monitostr.Nip19.Bech32.RoundTrip.{decode-encode}
use monitostr.Nip19.Keys.{encode_npub_from_hex, decode_npub_to_hex, decode_nsec_to_hex}
use monitostr.Nip19.Keys.RoundTrip.{decode_npub-encode_npub, decode-IsResult, IsResult}
use monitostr.Examples.Fixtures.{key_bytes}

key_bytes-Fits : All (Fits 8) key_bytes
key_bytes-Fits = grind arith

decode_npub-encode_npub_example :
    ((encode_npub_from_hex (bytes_to_hex key_bytes)).ok ≡ true)
    × (decode_npub_to_hex (encode_npub_from_hex (bytes_to_hex key_bytes)).npub
        ≡ record { ok = true; hex = bytes_to_hex key_bytes; error = [] })
decode_npub-encode_npub_example = decode_npub-encode_npub key_bytes refl key_bytes-Fits

no_capital : monitostr.Nip19.Bech32.has_upper (codes "nsec") ≡ false
unfolding monitostr.Nip19.Bech32.has_upper monitostr.StringUtils.is_upper
no_capital = refl

not_empty : codes "nsec" ≢ []
not_empty = λ e. cc

decode-encode_example :
    decode_bech32_32_bytes (encode_bech32_32_bytes (codes "nsec") key_bytes) (codes "nsec")
    ≡ decoded key_bytes
decode-encode_example =
    decode-encode (codes "nsec") key_bytes not_empty no_capital refl key_bytes-Fits

verify_checksum-create_checksum_example :
    verify_checksum (codes "npub") ((3 ∷ 17 ∷ []) ++ create_checksum (codes "npub") (3 ∷ 17 ∷ []))
    ≡ true
verify_checksum-create_checksum_example =
    verify_checksum-create_checksum (codes "npub") (3 ∷ 17 ∷ [])

convert_bits_round_trip_example :
    (data5 : List ℕ) × (convert_bits 8 5 true key_bytes ≡ some data5)
    × All (Fits 5) data5
    × (5 * length data5 ≡ 8 * length key_bytes + (5 - 8 * length key_bytes % 5) % 5)
    × (convert_bits 5 8 false data5 ≡ some key_bytes)
convert_bits_round_trip_example = convert_bits_round_trip key_bytes key_bytes-Fits

decode-IsResult_example :
    IsResult (decode_npub_to_hex (codes "npub1")) × IsResult (decode_nsec_to_hex (codes "npub1"))
decode-IsResult_example = decode-IsResult (codes "npub1")

emit_enough_example : ((emit 14 5 4095 13).1 < 5) × (emit 14 5 4095 13 ≡ emit 15 5 4095 13)
emit_enough_example = emit_enough 5 4095 13 14 (omega arith) (omega arith)
