-- ===== src/Nostr/AuthKey/Derived.antt =====
-- Where the members of an AuthKey come from (src/nostr/auth_key.cpp).
use monitostr.Prelude.{
  ◌≡◌, ◌≢◌, refl, ◌∙◌, Bool, true, false, List, [], ◌∷◌, Option, none, some, Text, Option-cases,
  inl, inr, ℕ,
}
use monitostr.Net.Services.{Services}
use monitostr.Nip19.Hex.{bytes_to_hex}
use monitostr.Nostr.Signer.{hex_to_bytes32, derive_hex_pubkey_from_privkey}
use monitostr.Nostr.AuthKey.{AuthKey, make, from_hex_privkey}

make-some :
    (privkey_bytes : List ℕ) (hex : Text) {key : AuthKey}
    → make privkey_bytes hex ≡ some key
    → (key.privkey_bytes ≡ privkey_bytes) × (key.hex_pubkey ≡ hex) × (hex ≢ [])
unfolding make
make-some privkey_bytes [] h = cc
make-some privkey_bytes (c ∷ hex) h = (cc, cc, λ e. cc)

derive_some :
    (lib : Services) (context : Bool) (privkey_bytes : List ℕ)
    → derive_hex_pubkey_from_privkey lib context privkey_bytes ≢ []
    → (pubkey : List ℕ) × (context ≡ true)
      × (lib.public_key privkey_bytes ≡ some pubkey)
      × (derive_hex_pubkey_from_privkey lib context privkey_bytes ≡ bytes_to_hex pubkey)
unfolding derive_hex_pubkey_from_privkey
derive_some lib false privkey_bytes h = absurd (h refl)
derive_some lib true privkey_bytes h = elim (Option-cases (lib.public_key privkey_bytes)) [
  | inl e ↦ absurd (h (rw (e, derive_hex_pubkey_from_privkey) refl))
  | inr (pubkey, e) ↦ (pubkey, refl, e, rw (e, derive_hex_pubkey_from_privkey) refl)
]

-- A key that is made holds the 32 bytes of the text, and the public key that libsecp256k1 gives for
-- them, in hexadecimal.
pub from_hex_privkey-some :
    (lib : Services) (context : Bool) (hex : Text) (key : AuthKey)
    → from_hex_privkey lib context hex ≡ some key
    → (hex_to_bytes32 hex ≡ some key.privkey_bytes)
      × ((pubkey : List ℕ) × (lib.public_key key.privkey_bytes ≡ some pubkey)
          × (key.hex_pubkey ≡ bytes_to_hex pubkey))
unfolding from_hex_privkey
from_hex_privkey-some lib context hex key h = elim (Option-cases (hex_to_bytes32 hex)) [
  | inl e ↦
      let bad : ◌≡◌ {A = Option AuthKey} none (some key) = rw (e, from_hex_privkey) at h in cc bad
  | inr (bytes, e) ↦
      let made : make bytes (derive_hex_pubkey_from_privkey lib context bytes) ≡ some key =
        rw (e, from_hex_privkey) at h in
      let (same, hex_is, full) = make-some bytes _ made in
      let (pubkey, ok, given, is) = derive_some lib context bytes full in
      rw same (e, (pubkey, given, hex_is ∙ is))
]
