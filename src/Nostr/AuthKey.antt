-- ===== src/Nostr/AuthKey.antt =====
-- src/nostr/auth_key.cpp and include/monitostr/nostr/auth_key.hpp.
pub mod Derived
pub mod Memory
use monitostr.Prelude.{ℕ, Bool, List, [], ◌∷◌, Option, none, some, Text}
use monitostr.Net.Services.{Services}
use monitostr.Nostr.Signer.{hex_to_bytes32, derive_hex_pubkey_from_privkey}

pub record AuthKey : Type 0 where
  pub privkey_bytes : List ℕ
  pub hex_pubkey : Text

make : List ℕ → Text → Option AuthKey
make privkey_bytes [] = none
make privkey_bytes (c ∷ hex) = some (record { privkey_bytes = privkey_bytes; hex_pubkey = c ∷ hex })

-- AuthKey::FromHexPrivkey; `nullptr` is `none`.
unfoldable pub from_hex_privkey : Services → Bool → Text → Option AuthKey
unfolding make
from_hex_privkey lib context hex_privkey = elim (hex_to_bytes32 hex_privkey) [
  | none ↦ none
  | some privkey_bytes ↦
      make privkey_bytes (derive_hex_pubkey_from_privkey lib context privkey_bytes)
]
