-- ===== src/Nip19/Hex/RoundTrip.antt =====
-- Hexadecimal text is read back, by HexToBytes of src/nip19/bech32_internal.hpp.
use monitostr.Prelude.{
  none, inl, inr, Option-cases, Text, ℕ, ◌*◌, ◌/◌, ◌%◌, ◌<◌, ◌≡◌, refl, List, [], ◌∷◌, some, arith,
  length, All, ap,
}
use monitostr.Nip19.Hex.{
  prepend, join_nibbles, hex_digit, nibble, read_pairs, bytes_to_hex, hex_to_bytes,
}

abbrev pub IsByte : ℕ → Type 0
IsByte b = b < 256

pub nibble-hex_digit : (n : ℕ) → n < 16 → nibble (hex_digit n) ≡ some n
unfolding nibble hex_digit
nibble-hex_digit n h = ground arith

pub read_pairs-bytes_to_hex :
    (bytes : List ℕ) → All IsByte bytes → read_pairs (bytes_to_hex bytes) ≡ some bytes
unfolding read_pairs bytes_to_hex
read_pairs-bytes_to_hex [] h = refl
read_pairs-bytes_to_hex (b ∷ bytes) h =
    rw
      (
        nibble-hex_digit (b / 16) (omega arith),
        nibble-hex_digit (b % 16) (omega arith),
        read_pairs-bytes_to_hex bytes h.1,
      )
      (ap (λ n. some (n ∷ bytes)) (omega arith))

pub length-bytes_to_hex : (bytes : List ℕ) → length (bytes_to_hex bytes) ≡ 2 * length bytes
unfolding bytes_to_hex
length-bytes_to_hex [] = refl
length-bytes_to_hex (b ∷ bytes) = omega (arith, length-bytes_to_hex bytes)

-- Printing bytes in hex and reading the text gives the bytes.
pub hex_to_bytes-bytes_to_hex :
    (bytes : List ℕ) → All IsByte bytes → hex_to_bytes (bytes_to_hex bytes) ≡ bytes
unfolding hex_to_bytes
hex_to_bytes-bytes_to_hex bytes h =
    ground (arith, length-bytes_to_hex bytes, read_pairs-bytes_to_hex bytes h)

-- Two digits that are read give one byte before the rest.
pub read_pairs-cons :
    (c d : ℕ) (s : Text) (bytes : List ℕ)
    → read_pairs (c ∷ d ∷ s) ≡ some bytes
    → (b : ℕ) × (rest : List ℕ) × (join_nibbles (nibble c) (nibble d) ≡ some b)
      × (read_pairs s ≡ some rest)
      × (bytes ≡ b ∷ rest)
unfolding read_pairs prepend
read_pairs-cons c d s bytes h = elim (Option-cases (join_nibbles (nibble c) (nibble d))) [
  | inl n ↦ let no : prepend none (read_pairs s) ≡ some bytes = rw n at h in cc
  | inr (b, e) ↦ elim (Option-cases (read_pairs s)) [
    | inl n ↦ let no : prepend (some b) none ≡ some bytes = rw (e, n) at h in cc
    | inr (rest, f) ↦
        let same : some (b ∷ rest) ≡ some bytes = rw (e, f) at h in (b, rest, e, f, cc)
  ]
]
