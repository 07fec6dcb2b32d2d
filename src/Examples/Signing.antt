-- ===== src/Examples/Signing.antt =====
-- Instances of the theorems on keys in memory and on the event that answers a challenge.
use monitostr.Prelude.{◌≡◌, ◌≢◌, [], codes, ℕ, List, ◌∷◌, refl, true, arith}
use monitostr.Net.Json.{Json}
use monitostr.Nostr.Signer.{build_auth_event}
use monitostr.Nostr.Signer.Valid.{IsSigned, build_auth_event-IsSigned}
use monitostr.Nostr.Signer.Memory.{Fill, Cleans, build_auth_event_memory, build_auth_event-Cleans}
use monitostr.Nostr.AuthKey.{from_hex_privkey}
use monitostr.Nostr.AuthKey.Memory.{Leaves, from_hex_privkey_memory, from_hex_privkey_memory_lem}
use monitostr.Nip19.Hex.{bytes_to_hex}
use monitostr.Security.{IsWiped, Cleanses}
use monitostr.Examples.Fixtures.{services, now, key_bytes}

built :
    build_auth_event services now.signing (codes "wss://relay.example") (codes "c1") key_bytes ≢ []
unfolding build_auth_event monitostr.Nostr.Signer.with_public_key
    monitostr.Nostr.Signer.signed_event
built = λ e. cc

build_auth_event-IsSigned_example :
    (json : Json) × (build_auth_event services now.signing
        (codes "wss://relay.example")
        (codes "c1")
        key_bytes
      ≡ services.dump json)
    × IsSigned services (codes "wss://relay.example") (codes "c1") key_bytes json
build_auth_event-IsSigned_example =
    build_auth_event-IsSigned services now.signing (codes "wss://relay.example") (codes "c1")
      key_bytes built

abbrev wipes : List ℕ → List ℕ
wipes [] = []
wipes (b ∷ bytes) = 0 ∷ wipes bytes

wipes-Cleanses : Cleanses wipes
wipes-Cleanses [] = (refl, tt)
wipes-Cleanses (b ∷ bytes) =
    let rest = wipes-Cleanses bytes in (omega (arith, rest.0), (refl, rest.1))

from_hex_privkey_memory_lem_example :
    let r = from_hex_privkey_memory services wipes true (bytes_to_hex key_bytes) in
    (r.0 ≡ from_hex_privkey services true (bytes_to_hex key_bytes))
    × IsWiped r.1.hex_privkey
    × Leaves r.0 r.1.privkey_bytes
from_hex_privkey_memory_lem_example =
    from_hex_privkey_memory_lem services wipes true (bytes_to_hex key_bytes) wipes-Cleanses

abbrev fill : Fill
fill = record { cleanse = wipes; keypair = λ key. key; ctx_seed = 5 ∷ []; aux_rand = [] }

build_auth_event-Cleans_example :
    let r =
      build_auth_event_memory services fill now.signing
        (codes "wss://relay.example")
        (codes "c1")
        key_bytes in
    (r.0
      ≡ build_auth_event services now.signing (codes "wss://relay.example") (codes "c1") key_bytes)
    × Cleans r.0 r.1
build_auth_event-Cleans_example =
    build_auth_event-Cleans services fill now.signing wipes-Cleanses (codes "wss://relay.example")
      (codes "c1") key_bytes
