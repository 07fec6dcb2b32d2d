-- ===== src/Nostr/Signer.antt =====
-- src/nostr/signer.cpp. libsecp256k1 and OpenSSL are the fields of `Services`; what they draw or
-- refuse in one call is an `Attempt`. What a call leaves in memory is in Signer/Memory.
pub mod Valid
pub mod Memory
use monitostr.Prelude.{
  ℕ, Bool, List, [], Option, none, some, Text, codes, length, ◌==◌, pos, if◌then◌else◌,
}
use monitostr.Net.Json.{Json, integer, string, array, object, nil, item, end, field}
use monitostr.Net.Services.{Services}
use monitostr.Nip19.Hex.{read_pairs, bytes_to_hex}

-- What the environment decides while an event is signed.
pub record Attempt : Type 0 where
  -- `secp256k1_context_create` gives a context.
  pub context : Bool
  -- `RAND_bytes` fills the seed of the context.
  pub seeded : Bool
  -- The auxiliary randomness of the signature, if `RAND_bytes` gives it.
  pub aux_rand : Option (List ℕ)
  -- The wall clock in seconds.
  pub created_at : ℕ

-- HexToBytes32; the empty result of a malformed text is `none`.
unfoldable pub hex_to_bytes32 : Text → Option (List ℕ)
hex_to_bytes32 hex = if length hex == 64 then read_pairs hex else none

-- DeriveHexPubkeyFromPrivkey of key bytes; the empty text is failure.
unfoldable pub derive_hex_pubkey_from_privkey : Services → Bool → List ℕ → Text
derive_hex_pubkey_from_privkey lib context privkey_bytes =
    if context
    then elim (lib.public_key privkey_bytes) [ none ↦ [] | some pubkey ↦ bytes_to_hex pubkey ]
    else []

-- DeriveHexPubkeyFromPrivkey of hexadecimal text.
unfoldable pub derive_hex_pubkey_from_hex : Services → Bool → Text → Text
derive_hex_pubkey_from_hex lib context hex_privkey = elim (hex_to_bytes32 hex_privkey) [
  | none ↦ []
  | some bytes ↦ derive_hex_pubkey_from_privkey lib context bytes
]

abbrev auth_kind : ℕ
auth_kind = 22242

unfoldable pub auth_tags : Text → Text → Json
auth_tags relay_url challenge = array (
    item (array (item (string (codes "relay")) (item (string relay_url) nil)))
      (item (array (item (string (codes "challenge")) (item (string challenge) nil))) nil))

-- SerialiseForId: the text whose digest is the id of the event.
unfoldable pub serialise_for_id : Services → Text → ℕ → ℕ → Json → Text → Text
serialise_for_id lib pubkey_hex created_at kind tags content = lib.dump (
    array (
      item (integer (pos 0)) (
        item (string pubkey_hex) (
          item (integer (pos created_at))
            (item (integer (pos kind)) (item tags (item (string content) nil)))))))

-- The members stand in the order of their keys, as the map of nlohmann::json keeps them.
unfoldable pub event_object : Text → Text → ℕ → Json → Text → Json
event_object id pubkey_hex created_at tags sig = object (
    field (codes "content") (string []) (
      field (codes "created_at") (integer (pos created_at)) (
        field (codes "id") (string id) (
          field (codes "kind") (integer (pos auth_kind)) (
            field (codes "pubkey") (string pubkey_hex)
              (field (codes "sig") (string sig) (field (codes "tags") tags end)))))))

-- The part of BuildAuthEvent that follows the derivation of the public key.
unfoldable pub signed_event : Services → Attempt → Text → Text → List ℕ → List ℕ → List ℕ → Text
signed_event lib now relay_url challenge privkey_bytes pubkey aux_rand =
    let tags = auth_tags relay_url challenge in
    let pubkey_hex = bytes_to_hex pubkey in
    let event_id = lib.sha256 (serialise_for_id lib pubkey_hex now.created_at auth_kind tags []) in
    elim (lib.schnorr_sign privkey_bytes event_id aux_rand) [
      | none ↦ []
      | some sig ↦
          lib.dump
            (event_object (bytes_to_hex event_id) pubkey_hex now.created_at tags (bytes_to_hex sig))
    ]

unfoldable pub with_public_key : Services → Attempt → Text → Text → List ℕ → Option (List ℕ) → Text
unfolding signed_event
with_public_key lib now relay_url challenge privkey_bytes none = []
with_public_key lib now relay_url challenge privkey_bytes (some pubkey) = elim now.aux_rand [
  | none ↦ []
  | some aux_rand ↦ signed_event lib now relay_url challenge privkey_bytes pubkey aux_rand
]

-- BuildAuthEvent of key bytes; the empty text is failure.
unfoldable pub build_auth_event : Services → Attempt → Text → Text → List ℕ → Text
unfolding with_public_key
build_auth_event lib now relay_url challenge privkey_bytes =
    if now.context
    then if now.seeded
      then with_public_key lib now relay_url challenge privkey_bytes (lib.public_key privkey_bytes)
      else []
    else []

-- BuildAuthEvent of hexadecimal text.
unfoldable pub build_auth_event_from_hex : Services → Attempt → Text → Text → Text → Text
build_auth_event_from_hex lib now relay_url challenge hex_privkey =
    elim (hex_to_bytes32 hex_privkey) [
      | none ↦ []
      | some bytes ↦ build_auth_event lib now relay_url challenge bytes
    ]
