-- ===== src/Nostr/AuthKey/Memory.antt =====
-- The key material that AuthKey::FromHexPrivkey of src/nostr/auth_key.cpp leaves in memory.
use monitostr.Prelude.{
  ℕ, ◌*◌, ◌==◌, ◌≡◌, refl, ap, sym, subst, ◌∙◌, Bool, true, false, List, [], ◌∷◌, Option, none,
  some, Text, length, if◌then◌else◌, inl, inr, Bool-cases, Option-cases, arith,
}
use monitostr.Security.{
  secure_zero, secure_clear_string, IsWiped, Cleanses, secure_zero-IsWiped,
  secure_clear_string-IsWiped,
}
use monitostr.Nip19.Hex.RoundTrip.{read_pairs-cons}
use monitostr.Net.Services.{Services}
use monitostr.Nip19.Hex.{nibble, join_nibbles, read_pairs}
use monitostr.Nostr.Signer.{hex_to_bytes32, derive_hex_pubkey_from_privkey}
use monitostr.Nostr.AuthKey.{AuthKey, make, from_hex_privkey}

-- What a call leaves in the memory that it gives back.
pub record KeyMemory : Type 0 where
  -- The storage of the parameter.
  pub hex_privkey : Text
  -- The local array.
  pub privkey_bytes : List ℕ

-- The loop of HexToBytes32 on the array `out`: what it holds at the return.
unfoldable pub fill_pairs : Text → List ℕ → List ℕ
fill_pairs (c ∷ d ∷ hex) (b ∷ out) =
    let rest = fill_pairs hex out in
    elim (join_nibbles (nibble c) (nibble d)) [ none ↦ b ∷ out | some byte ↦ byte ∷ rest ]
fill_pairs hex out = out

-- `std::array<unsigned char, 32> privkey_bytes{}`.
abbrev pub zeros : List ℕ
zeros =
    0 ∷ 0 ∷ 0 ∷ 0 ∷ 0 ∷ 0 ∷ 0 ∷ 0 ∷ 0 ∷ 0 ∷ 0 ∷ 0 ∷ 0 ∷ 0 ∷ 0 ∷ 0 ∷ 0 ∷ 0 ∷ 0 ∷ 0 ∷ 0 ∷ 0 ∷ 0 ∷ 0
    ∷ 0 ∷ 0 ∷ 0 ∷ 0 ∷ 0 ∷ 0 ∷ 0 ∷ 0 ∷ []

-- HexToBytes32: its answer and the array.
unfoldable pub hex_to_bytes32_into : (List ℕ → List ℕ) → Text → List ℕ → Bool × List ℕ
unfolding fill_pairs
hex_to_bytes32_into cleanse hex out =
    let filled = fill_pairs hex out in
    if length hex == 64
    then elim (read_pairs hex) [
      | none ↦ (false, secure_zero cleanse filled)
      | some bytes ↦ (true, filled)
    ]
    else (false, out)

-- From the derivation of the public key on; the move of a std::array copies its bytes.
unfoldable pub keep_key : (List ℕ → List ℕ) → Text → Text → List ℕ → Option AuthKey × KeyMemory
keep_key cleanse storage [] privkey_bytes =
    (none, record { hex_privkey = storage; privkey_bytes = secure_zero cleanse privkey_bytes })
keep_key cleanse storage (c ∷ hex_pubkey) privkey_bytes = (
  some (record { privkey_bytes = privkey_bytes; hex_pubkey = c ∷ hex_pubkey }),
  record { hex_privkey = storage; privkey_bytes = privkey_bytes },
)

-- AuthKey::FromHexPrivkey with what it leaves in memory.
unfoldable pub from_hex_privkey_memory :
    Services → (List ℕ → List ℕ) → Bool → Text → Option AuthKey × KeyMemory
unfolding hex_to_bytes32_into keep_key
from_hex_privkey_memory lib cleanse context hex_privkey =
    let read = hex_to_bytes32_into cleanse hex_privkey zeros in
    let storage = (secure_clear_string cleanse hex_privkey).1 in
    if read.0
    then keep_key cleanse storage (derive_hex_pubkey_from_privkey lib context read.1) read.1
    else (none, record { hex_privkey = storage; privkey_bytes = read.1 })

zeros-IsWiped : IsWiped zeros
zeros-IsWiped = grind arith

-- An array of the right size that is filled without a failure holds the bytes that are read.
fill_pairs-read_pairs :
    (hex : Text) (out bytes : List ℕ)
    → length hex ≡ 2 * length out
    → read_pairs hex ≡ some bytes
    → fill_pairs hex out ≡ bytes
unfolding fill_pairs read_pairs
fill_pairs-read_pairs [] [] bytes size e = cc
fill_pairs-read_pairs [] (b ∷ out) bytes size e = absurd (omega (arith, size))
fill_pairs-read_pairs (c ∷ []) out bytes size e = cc
fill_pairs-read_pairs (c ∷ d ∷ hex) [] bytes size e = absurd (omega (arith, size))
fill_pairs-read_pairs (c ∷ d ∷ hex) (o ∷ out) bytes size e =
    let (b, rest, digits, read, is) = read_pairs-cons c d hex bytes e in
    let ih = fill_pairs-read_pairs hex out rest (omega (arith, size)) read in
    rw (digits, fill_pairs) (ap (◌∷◌ b) ih ∙ sym is)

-- What the array holds, by what the call gives.
abbrev pub Leaves : Option AuthKey → List ℕ → Type 0
Leaves none privkey_bytes = IsWiped privkey_bytes
Leaves (some key) privkey_bytes = privkey_bytes ≡ key.privkey_bytes

keep_key-Leaves :
    (cleanse : List ℕ → List ℕ) (storage hex_pubkey : Text) (privkey_bytes : List ℕ)
    → Cleanses cleanse
    → let r = keep_key cleanse storage hex_pubkey privkey_bytes in
      (r.0 ≡ make privkey_bytes hex_pubkey)
      × (r.1.hex_privkey ≡ storage)
      × Leaves r.0 r.1.privkey_bytes
unfolding keep_key make
keep_key-Leaves cleanse storage [] privkey_bytes h =
    (refl, refl, secure_zero-IsWiped cleanse privkey_bytes h)
keep_key-Leaves cleanse storage (c ∷ hex_pubkey) privkey_bytes h = (refl, refl, refl)

-- If OPENSSL_cleanse writes zeros: the call with its memory gives what FromHexPrivkey gives; the
-- storage of the hex text holds zeros only; the local array of key bytes holds zeros only if no
-- key is given, and still holds the private key if one is.
pub from_hex_privkey_memory_lem :
    (lib : Services) (cleanse : List ℕ → List ℕ) (context : Bool) (hex : Text)
    → Cleanses cleanse
    → let r = from_hex_privkey_memory lib cleanse context hex in
      (r.0 ≡ from_hex_privkey lib context hex)
      × IsWiped r.1.hex_privkey
      × Leaves r.0 r.1.privkey_bytes
unfolding from_hex_privkey_memory from_hex_privkey hex_to_bytes32_into hex_to_bytes32
from_hex_privkey_memory_lem lib cleanse context hex h =
    let storage = (secure_clear_string cleanse hex).1 in
    let clean = secure_clear_string-IsWiped cleanse hex h in
    elim (Bool-cases (length hex == 64)) [
      | inl e ↦ elim (Option-cases (read_pairs hex)) [
        | inl n ↦
            rw (e, n, from_hex_privkey_memory, from_hex_privkey)
              (refl, clean, secure_zero-IsWiped cleanse (fill_pairs hex zeros) h)
        | inr (bytes, f) ↦
            let same = fill_pairs-read_pairs hex zeros bytes (grind (arith, e)) f in
            let pubkey = derive_hex_pubkey_from_privkey lib context bytes in
            let kept = keep_key-Leaves cleanse storage pubkey bytes h in
            rw (e, f, same, from_hex_privkey_memory, from_hex_privkey)
              (kept.0, subst IsWiped (sym kept.1) clean, kept.2)
      ]
      | inr e ↦ rw (e, from_hex_privkey_memory, from_hex_privkey) (refl, clean, zeros-IsWiped)
    ]
