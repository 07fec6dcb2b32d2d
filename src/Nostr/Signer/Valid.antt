-- ===== src/Nostr/Signer/Valid.antt =====
-- The NIP-42 event that src/nostr/signer.cpp builds, against a description of the events of NIP-01.
use monitostr.Prelude.{
  ◌≡◌, ◌≢◌, refl, ℕ, List, [], some, Text, codes, pos, Bool-cases, Option-cases, inl, inr, text_eq,
}
use monitostr.Net.Json.{Json, integer, string, array, nil, item, member, get_field}
use monitostr.Net.Services.{Services}
use monitostr.Nip19.Hex.{bytes_to_hex}
use monitostr.Nostr.Signer.{
  Attempt, auth_tags, serialise_for_id, event_object, signed_event, with_public_key,
  build_auth_event,
}

-- The digest of NIP-01, of the members that it covers.
abbrev pub event_digest : Services → List ℕ → ℕ → Json → List ℕ
event_digest lib pubkey created_at tags = lib.sha256 (
    lib.dump (
      array (
        item (integer (pos 0)) (
          item (string (bytes_to_hex pubkey)) (
            item (integer (pos created_at))
              (item (integer (pos 22242)) (item tags (item (string []) nil))))))))

-- The event `json` that the owner of `privkey` signs for a challenge of a relay.
pub record IsSigned (lib : Services) (relay_url challenge : Text) (privkey : List ℕ) (json : Json)
    : Type 0 where
  pub pubkey : List ℕ
  pub created_at : ℕ
  pub tags : Json
  pub sig : List ℕ
  pub aux_rand : List ℕ
  pub owner : lib.public_key privkey ≡ some pubkey
  pub names :
      tags
      ≡ array (
          item
            (array (item (string (codes "relay")) (item (string relay_url) nil)))
            (item (array (item (string (codes "challenge")) (item (string challenge) nil))) nil))
  pub has_pubkey : member (codes "pubkey") json ≡ some (string (bytes_to_hex pubkey))
  pub has_time : member (codes "created_at") json ≡ some (integer (pos created_at))
  pub has_kind : member (codes "kind") json ≡ some (integer (pos 22242))
  pub has_content : member (codes "content") json ≡ some (string [])
  pub has_tags : member (codes "tags") json ≡ some tags
  pub has_id :
      member (codes "id") json
      ≡ some (string (bytes_to_hex (event_digest lib pubkey created_at tags)))
  pub signs : lib.schnorr_sign privkey (event_digest lib pubkey created_at tags) aux_rand ≡ some sig
  pub has_sig : member (codes "sig") json ≡ some (string (bytes_to_hex sig))

signed_event-IsSigned :
    (lib : Services) (now : Attempt) (relay_url challenge : Text) (privkey pubkey aux_rand : List ℕ)
    → lib.public_key privkey ≡ some pubkey
    → signed_event lib now relay_url challenge privkey pubkey aux_rand ≢ []
    → (json : Json) × (signed_event lib now relay_url challenge privkey pubkey aux_rand
        ≡ lib.dump json)
      × IsSigned lib relay_url challenge privkey json
unfolding signed_event auth_tags serialise_for_id event_object member get_field text_eq
signed_event-IsSigned lib now relay_url challenge privkey pubkey aux_rand owner h =
    let tags = auth_tags relay_url challenge in
    let digest = event_digest lib pubkey now.created_at tags in
    elim (Option-cases (lib.schnorr_sign privkey digest aux_rand)) [
      | inl e ↦ absurd (h (rw (e, signed_event) refl))
      | inr (sig, e) ↦ (
        event_object (bytes_to_hex digest) (bytes_to_hex pubkey) now.created_at tags
            (bytes_to_hex sig),
        rw (e, signed_event) refl,
        record {
          pubkey = pubkey;
          created_at = now.created_at;
          tags = tags;
          sig = sig;
          aux_rand = aux_rand;
          owner = owner;
          names = refl;
          has_pubkey = refl;
          has_time = refl;
          has_kind = refl;
          has_content = refl;
          has_tags = refl;
          has_id = refl;
          signs = e;
          has_sig = refl;
        },
      )
    ]

with_public_key-IsSigned :
    (lib : Services) (now : Attempt) (relay_url challenge : Text) (privkey : List ℕ)
    → with_public_key lib now relay_url challenge privkey (lib.public_key privkey) ≢ []
    → (json : Json) × (with_public_key lib now relay_url challenge privkey (lib.public_key privkey)
        ≡ lib.dump json)
      × IsSigned lib relay_url challenge privkey json
unfolding with_public_key
with_public_key-IsSigned lib now relay_url challenge privkey h =
    elim (Option-cases (lib.public_key privkey)) [
      | inl e ↦ absurd (h (rw (e, with_public_key) refl))
      | inr (pubkey, e) ↦ elim (Option-cases now.aux_rand) [
        | inl n ↦ absurd (h (rw (e, n, with_public_key) refl))
        | inr (aux, n) ↦
            rw (e, n, with_public_key)
              (signed_event-IsSigned lib now relay_url challenge privkey pubkey aux e
                (rw (e, n, with_public_key) at h))
      ]
    ]

-- If BuildAuthEvent gives a text, it is the printed text of an event of kind 22242 with the tags
-- of the relay and the challenge and no content, whose pubkey is that of the private key, whose id
-- is the SHA-256 digest of its own members in the order of NIP-01, and whose sig is a signature of
-- that digest by the private key.
pub build_auth_event-IsSigned :
    (lib : Services) (now : Attempt) (relay_url challenge : Text) (privkey : List ℕ)
    → build_auth_event lib now relay_url challenge privkey ≢ []
    → (json : Json) × (build_auth_event lib now relay_url challenge privkey ≡ lib.dump json)
      × IsSigned lib relay_url challenge privkey json
unfolding build_auth_event
build_auth_event-IsSigned lib now relay_url challenge privkey h = elim (Bool-cases now.context) [
  | inl c ↦ elim (Bool-cases now.seeded) [
    | inl s ↦
        rw (c, s, build_auth_event)
          (with_public_key-IsSigned lib now relay_url challenge privkey
            (rw (c, s, build_auth_event) at h))
    | inr s ↦ absurd (h (rw (c, s, build_auth_event) refl))
  ]
  | inr c ↦ absurd (h (rw (c, build_auth_event) refl))
]
