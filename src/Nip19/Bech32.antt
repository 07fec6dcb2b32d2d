-- ===== src/Nip19/Bech32.antt =====
-- src/nip19/bech32_internal.hpp, src/nip19/npub.cpp and nsec.cpp. Zeroing the buffers that held a
-- key (OPENSSL_cleanse, SecureZero) has no value to return and is left out.
pub mod Checksum
pub mod RoundTrip
use monitostr.Prelude.{
  ℕ, zero, suc, ◌+◌, ◌-◌, ◌*◌, ◌/◌, ◌%◌, ◌^◌, Bool, true, false, ◌||◌, ◌&&◌, not, List, [], ◌∷◌,
  ◌++◌, map, Option, none, some, Text, codes, ltb, ◌==◌, if◌then◌else◌, is_empty, length, take,
  text_eq, get_elem?, ◌≡◌, refl,
}
use Prim.Native.Nat.{bit_xor}
use monitostr.StringUtils.{is_lower, is_upper, to_lower_copy}
use monitostr.Nip19.Hex.{bytes_to_hex, hex_to_bytes}
use monitostr.Nip19.Convert.{convert_bits}

-- kBech32Gen.
abbrev pub gen : List ℕ
gen = 0x3b6a57b2 ∷ 0x26508e6d ∷ 0x1ea119fa ∷ 0x3d4233dd ∷ 0x2a1462b3 ∷ []

abbrev pub charset : Text
charset = codes "qpzry9x8gf2tvdw0s3jn54khce6mua7l"

-- std::strchr from index `i`: the terminating NUL of the charset is found too.
unfoldable pub index_of : ℕ → Text → ℕ → Option ℕ
index_of c [] i = if c == 0 then some i else none
index_of c (d ∷ s) i = let rest = index_of c s (suc i) in if c == d then some i else rest

-- -1 is `none`.
unfoldable pub char_to_value : ℕ → Option ℕ
unfolding index_of
char_to_value c = index_of c charset 0

-- `for (i = 0; i < 5; ++i)`: the bits of `top`, lowest first, choose the generators.
unfoldable pub mix : ℕ → List ℕ → ℕ → ℕ
mix top [] chk = chk
mix top (g ∷ gs) chk = mix (top / 2) gs (if top % 2 == 0 then chk else bit_xor chk g)

-- One symbol; `chk` is a uint32_t and `top` a uint8_t.
unfoldable pub polymod_step : ℕ → ℕ → ℕ
unfolding mix
polymod_step chk v = mix (chk / 2 ^ 25 % 256) gen (bit_xor (chk % 2 ^ 25 * 32) v)

unfoldable pub polymod_from : ℕ → List ℕ → ℕ
unfolding polymod_step
polymod_from chk [] = chk
polymod_from chk (v ∷ values) = polymod_from (polymod_step chk v) values

unfoldable pub polymod : List ℕ → ℕ
unfolding polymod_from
polymod values = polymod_from 1 values

-- `c >> 5` of a signed char, as a uint8_t.
unfoldable pub high_bits : ℕ → ℕ
high_bits c = if ltb c 128 then c / 32 else c / 32 + 248

unfoldable pub hrp_expand : Text → List ℕ
unfolding high_bits
hrp_expand hrp = map high_bits hrp ++ 0 ∷ map (λ c. c % 32) hrp

unfoldable pub verify_checksum : Text → List ℕ → Bool
unfolding hrp_expand polymod
verify_checksum hrp values = polymod (hrp_expand hrp ++ values) == 1

abbrev pub six_zeros : List ℕ
six_zeros = 0 ∷ 0 ∷ 0 ∷ 0 ∷ 0 ∷ 0 ∷ []

-- `(poly >> (5 * (5 - i))) & 0x1f` for i = 0..5.
unfoldable pub six_symbols : ℕ → List ℕ
six_symbols poly =
    poly / 2 ^ 25 % 32
    ∷ poly / 2 ^ 20 % 32
    ∷ poly / 2 ^ 15 % 32
    ∷ poly / 2 ^ 10 % 32
    ∷ poly / 2 ^ 5 % 32
    ∷ poly % 32
    ∷ []

unfoldable pub create_checksum : Text → List ℕ → List ℕ
unfolding six_symbols
create_checksum hrp values =
    six_symbols (bit_xor (polymod (hrp_expand hrp ++ values ++ six_zeros)) 1)

-- `kCharset[v & 0x1f]`.
unfoldable pub symbol : ℕ → ℕ
symbol v = elim (get_elem? charset (v % 32)) [ none ↦ 0 | some c ↦ c ]

-- The text for 5-bit groups, or "" when the conversion fails.
unfoldable pub write_bech32 : Text → Option (List ℕ) → Text
unfolding symbol create_checksum
write_bech32 hrp none = []
write_bech32 hrp (some data5) =
    hrp ++ b'1' ∷ map symbol data5 ++ map symbol (create_checksum hrp data5)

unfoldable pub encode_bech32_32_bytes : Text → List ℕ → Text
unfolding write_bech32
encode_bech32_32_bytes hrp bytes_32 =
    if length bytes_32 == 32 then write_bech32 hrp (convert_bits 8 5 true bytes_32) else []

-- What DecodeBech32_32Bytes returns: no bytes and `error_out`, or the bytes.
pub data Decoded : Type 0 where
  refused : Text → Decoded
  decoded : List ℕ → Decoded

-- The flags has_lower and has_upper.
unfoldable pub has_lower : Text → Bool
has_lower [] = false
has_lower (c ∷ s) = is_lower c || has_lower s

unfoldable pub has_upper : Text → Bool
has_upper [] = false
has_upper (c ∷ s) = is_upper c || has_upper s

behind : ℕ → Text → Option (Text × Text) → Option (Text × Text)
behind c s (some parts) = some (c ∷ parts.0, parts.1)
behind c s none = if c == b'1' then some ([], s) else none

-- `rfind('1')`: what is before the last '1' and what is after it.
unfoldable pub split_last_one : Text → Option (Text × Text)
unfolding behind
split_last_one [] = none
split_last_one (c ∷ s) = behind c s (split_last_one s)

join : Option ℕ → Option (List ℕ) → Option (List ℕ)
join (some v) (some values) = some (v ∷ values)
join (some v) none = none
join none values = none

-- The loop over the characters; `none` is the early return.
unfoldable pub read_symbols : Text → Option (List ℕ)
unfolding join char_to_value
read_symbols [] = some []
read_symbols (c ∷ s) = join (char_to_value c) (read_symbols s)

unfoldable pub check_bytes : Text → Option (List ℕ) → Decoded
check_bytes expected_hrp none = refused (codes "failed bech32 bit conversion")
check_bytes expected_hrp (some bytes) =
    if length bytes == 32
    then decoded bytes
    else refused (expected_hrp ++ codes " payload is not 32 bytes")

-- From the symbols after the separator on.
unfoldable pub check_values : Text → Option (List ℕ) → Decoded
unfolding check_bytes verify_checksum
check_values expected_hrp none = refused (codes "invalid bech32 character")
check_values expected_hrp (some values) =
    if verify_checksum expected_hrp values
    then check_bytes expected_hrp (convert_bits 5 8 false (take (length values - 6) values))
    else refused (codes "invalid bech32 checksum")

-- From the separator on; `sep + 7 > size` says that fewer than six characters follow it.
unfoldable pub check_parts : Text → Option (Text × Text) → Decoded
unfolding check_values read_symbols
check_parts expected_hrp none = refused (codes "invalid bech32 separator/checksum")
check_parts expected_hrp (some parts) =
    if is_empty parts.0 || ltb (length parts.1) 6
    then refused (codes "invalid bech32 separator/checksum")
    else if text_eq parts.0 expected_hrp
    then check_values expected_hrp (read_symbols parts.1)
    else refused (codes "hrp is not " ++ expected_hrp)

unfoldable pub decode_bech32_32_bytes : Text → Text → Decoded
unfolding has_lower has_upper split_last_one check_parts
decode_bech32_32_bytes input expected_hrp =
    if is_empty input
    then refused (expected_hrp ++ codes " is empty")
    else if has_lower input && has_upper input
    then refused (codes "mixed-case bech32 string")
    else check_parts expected_hrp (split_last_one (to_lower_copy input))
