-- ===== src/Nip19/Hex.antt =====
-- BytesToHex and HexToBytes of src/nip19/bech32_internal.hpp.
pub mod RoundTrip
use monitostr.Prelude.{
  ℕ, ◌+◌, ◌-◌, ◌*◌, ◌/◌, ◌%◌, Bool, true, false, ◌&&◌, List, [], ◌∷◌, ◌++◌, Option, none, some,
  Text, codes, leb, ltb, length, ◌==◌, if◌then◌else◌, ◌≡◌, refl,
}

-- One digit as the stream prints it under std::hex.
unfoldable pub hex_digit : ℕ → ℕ
hex_digit n = if ltb n 10 then b'0' + n else b'a' + (n - 10)

-- `width(2)` and `fill('0')`: a byte is two digits.
unfoldable pub bytes_to_hex : List ℕ → Text
unfolding hex_digit
bytes_to_hex [] = []
bytes_to_hex (b ∷ bytes) = hex_digit (b / 16) ∷ hex_digit (b % 16) ∷ bytes_to_hex bytes

-- -1 is `none`.
unfoldable pub nibble : ℕ → Option ℕ
nibble c =
    if leb b'0' c && leb c b'9'
    then some (c - b'0')
    else if leb b'a' c && leb c b'f'
    then some (c - b'a' + 10)
    else if leb b'A' c && leb c b'F'
    then some (c - b'A' + 10)
    else none

-- `(hi << 4) | lo` of two digits.
pub join_nibbles : Option ℕ → Option ℕ → Option ℕ
join_nibbles (some hi) (some lo) = some (hi * 16 + lo)
join_nibbles (some hi) none = none
join_nibbles none lo = none

prepend : Option ℕ → Option (List ℕ) → Option (List ℕ)
prepend (some b) (some out) = some (b ∷ out)
prepend (some b) none = none
prepend none out = none

-- The loop over pairs of digits; `none` is the early return.
unfoldable pub read_pairs : Text → Option (List ℕ)
unfolding nibble join_nibbles prepend
read_pairs [] = some []
read_pairs (c ∷ []) = none
read_pairs (c ∷ d ∷ s) = prepend (join_nibbles (nibble c) (nibble d)) (read_pairs s)

-- Malformed text gives the empty vector.
unfoldable pub hex_to_bytes : Text → List ℕ
hex_to_bytes hex =
    if length hex % 2 == 0 then elim (read_pairs hex) [ none ↦ [] | some out ↦ out ] else []
