-- ===== src/Nip19/Keys.antt =====
-- The public functions of src/nip19/npub.cpp and src/nip19/nsec.cpp.
pub mod RoundTrip
use monitostr.Prelude.{
  ℕ, Bool, true, false, List, [], ◌∷◌, Text, codes, ◌==◌, if◌then◌else◌, is_empty, length, ◌≡◌,
  refl,
}
use monitostr.Nip19.Hex.{bytes_to_hex, hex_to_bytes}
use monitostr.Nip19.Bech32.{
  Decoded, refused, decoded, decode_bech32_32_bytes, encode_bech32_32_bytes,
}

-- DecodeResult of npub.hpp and NsecDecodeResult of nsec.hpp; `hex` is hex_pubkey or hex_privkey.
pub record DecodeResult : Type 0 where
  pub ok : Bool
  pub hex : Text
  pub error : Text

pub record EncodeResult : Type 0 where
  pub ok : Bool
  pub npub : Text
  pub error : Text

-- `bytes.empty()` is the test for failure.
unfoldable pub decode_result : Decoded → DecodeResult
decode_result (refused error) = record { ok = false; hex = []; error = error }
decode_result (decoded bytes) =
    if is_empty bytes
    then record { ok = false; hex = []; error = [] }
    else record { ok = true; hex = bytes_to_hex bytes; error = [] }

unfoldable pub decode_npub_to_hex : Text → DecodeResult
unfolding decode_result
decode_npub_to_hex npub = decode_result (decode_bech32_32_bytes npub (codes "npub"))

unfoldable pub decode_nsec_to_hex : Text → DecodeResult
unfolding decode_result
decode_nsec_to_hex nsec = decode_result (decode_bech32_32_bytes nsec (codes "nsec"))

unfoldable pub encode_npub_from_hex : Text → EncodeResult
encode_npub_from_hex hex_pubkey =
    let bytes = hex_to_bytes hex_pubkey in
    let encoded = encode_bech32_32_bytes (codes "npub") bytes in
    if length bytes == 32
    then if is_empty encoded
      then record { ok = false; npub = []; error = codes "bech32 encoding failed" }
      else record { ok = true; npub = encoded; error = [] }
    else record {
      ok = false;
      npub = [];
      error = codes "hex_pubkey must be 64 lowercase hex chars (32 bytes)";
    }
