-- ===== src/Nostr/Signer/Memory.antt =====
-- The secrets that BuildAuthEvent and DeriveHexPubkeyFromPrivkey of src/nostr/signer.cpp leave on
-- their stack.
use monitostr.Prelude.{
  ℕ, ◌≡◌, ◌≢◌, refl, List, [], Option, none, some, Text, if◌then◌else◌, inl, inr, Bool-cases,
  Option-cases,
}
use monitostr.Security.{secure_zero, IsWiped, Cleanses, secure_zero-IsWiped}
use monitostr.Net.Services.{Services}
use monitostr.Nip19.Hex.{bytes_to_hex}
use monitostr.Nostr.Signer.{
  Attempt, auth_kind, auth_tags, serialise_for_id, event_object, signed_event, with_public_key,
  build_auth_event,
}

-- What the library functions write into the buffers, beyond their answers.
pub record Fill : Type 0 where
  -- OPENSSL_cleanse.
  pub cleanse : List ℕ → List ℕ
  -- `secp256k1_keypair_create`, whether it succeeds or not.
  pub keypair : List ℕ → List ℕ
  -- `RAND_bytes` on the seed of the context, whether it succeeds or not.
  pub ctx_seed : List ℕ
  -- `RAND_bytes` on the auxiliary randomness when it fails.
  pub aux_rand : List ℕ

-- The buffers at the return; one that is not written yet is empty.
pub record SignMemory : Type 0 where
  pub ctx_seed : List ℕ
  pub keypair : List ℕ
  pub aux_rand : List ℕ
  pub event_id : List ℕ

-- From the digest of the event on, where both random draws have succeeded.
unfoldable pub signed_event_memory :
    Services → Fill → Attempt → Text → Text → List ℕ → List ℕ → List ℕ → Text × SignMemory
signed_event_memory lib fill now relay_url challenge privkey_bytes pubkey aux_rand =
    let tags = auth_tags relay_url challenge in
    let pubkey_hex = bytes_to_hex pubkey in
    let event_id = lib.sha256 (serialise_for_id lib pubkey_hex now.created_at auth_kind tags []) in
    let wiped : SignMemory = record {
      ctx_seed = secure_zero fill.cleanse fill.ctx_seed;
      keypair = secure_zero fill.cleanse (fill.keypair privkey_bytes);
      aux_rand = secure_zero fill.cleanse aux_rand;
      event_id = secure_zero fill.cleanse event_id;
    } in
    elim (lib.schnorr_sign privkey_bytes event_id aux_rand) [
      | none ↦ ([], wiped)
      | some sig ↦ (
        lib.dump (
            event_object (bytes_to_hex event_id) pubkey_hex now.created_at tags (bytes_to_hex sig)),
        wiped,
      )
    ]

-- From the keypair on.
unfoldable pub with_public_key_memory :
    Services → Fill → Attempt → Text → Text → List ℕ → Option (List ℕ) → Text × SignMemory
unfolding signed_event_memory
with_public_key_memory lib fill now relay_url challenge privkey_bytes none = (
  [],
  record {
    ctx_seed = secure_zero fill.cleanse fill.ctx_seed;
    keypair = secure_zero fill.cleanse (fill.keypair privkey_bytes);
    aux_rand = [];
    event_id = [];
  },
)
with_public_key_memory lib fill now relay_url challenge privkey_bytes (some pubkey) =
    elim now.aux_rand [
      | none ↦ (
        [],
        record {
          ctx_seed = secure_zero fill.cleanse fill.ctx_seed;
          keypair = secure_zero fill.cleanse (fill.keypair privkey_bytes);
          aux_rand = fill.aux_rand;
          event_id = lib.sha256 (
              serialise_for_id lib (bytes_to_hex pubkey) now.created_at auth_kind
                (auth_tags relay_url challenge) []);
        },
      )
      | some aux_rand ↦
          signed_event_memory lib fill now relay_url challenge privkey_bytes pubkey aux_rand
    ]

-- BuildAuthEvent of key bytes with what it leaves in memory.
unfoldable pub build_auth_event_memory :
    Services → Fill → Attempt → Text → Text → List ℕ → Text × SignMemory
unfolding with_public_key_memory
build_auth_event_memory lib fill now relay_url challenge privkey_bytes =
    if now.context
    then if now.seeded
      then with_public_key_memory lib fill now relay_url challenge privkey_bytes
          (lib.public_key privkey_bytes)
      else ([], record { ctx_seed = fill.ctx_seed; keypair = []; aux_rand = []; event_id = [] })
    else ([], record { ctx_seed = []; keypair = []; aux_rand = []; event_id = [] })

-- No key material is left; and after an event nothing else.
pub record Cleans (text : Text) (m : SignMemory) : Type 0 where
  pub keypair_wiped : IsWiped m.keypair
  pub seed_wiped : text ≢ [] → IsWiped m.ctx_seed
  pub aux_wiped : text ≢ [] → IsWiped m.aux_rand
  pub id_wiped : text ≢ [] → IsWiped m.event_id

-- A call that fails.
fails-Cleans : (m : SignMemory) → IsWiped m.keypair → Cleans [] m
fails-Cleans m h = record {
  keypair_wiped = h;
  seed_wiped = λ n. absurd (n refl);
  aux_wiped = λ n. absurd (n refl);
  id_wiped = λ n. absurd (n refl);
}

module _ (lib : Services) (fill : Fill) (now : Attempt) (clean : Cleanses fill.cleanse) where
  wipe : (bytes : List ℕ) → IsWiped (secure_zero fill.cleanse bytes)
  wipe bytes = secure_zero-IsWiped fill.cleanse bytes clean

  signed_event-Cleans :
      (relay_url challenge : Text) (privkey pubkey aux_rand : List ℕ)
      → let r = signed_event_memory lib fill now relay_url challenge privkey pubkey aux_rand in
        (r.0 ≡ signed_event lib now relay_url challenge privkey pubkey aux_rand) × Cleans r.0 r.1
  unfolding signed_event_memory signed_event
  signed_event-Cleans relay_url challenge privkey pubkey aux_rand =
      let id = lib.sha256 (
        serialise_for_id lib (bytes_to_hex pubkey) now.created_at auth_kind
          (auth_tags relay_url challenge) []) in
      elim (Option-cases (lib.schnorr_sign privkey id aux_rand)) [
        | inl e ↦ rw (e, signed_event_memory, signed_event) (refl, fails-Cleans _ (wipe _))
        | inr (sig, e) ↦
            rw (e, signed_event_memory, signed_event)
              (
                refl,
                record {
                  keypair_wiped = wipe _;
                  seed_wiped = λ n. wipe _;
                  aux_wiped = λ n. wipe _;
                  id_wiped = λ n. wipe _;
                },
              )
      ]

  with_public_key-Cleans :
      (relay_url challenge : Text) (privkey : List ℕ) (pubkey : Option (List ℕ))
      → let r = with_public_key_memory lib fill now relay_url challenge privkey pubkey in
        (r.0 ≡ with_public_key lib now relay_url challenge privkey pubkey) × Cleans r.0 r.1
  unfolding with_public_key_memory with_public_key
  with_public_key-Cleans relay_url challenge privkey none = (refl, fails-Cleans _ (wipe _))
  with_public_key-Cleans relay_url challenge privkey (some pubkey) =
      elim (Option-cases now.aux_rand) [
        | inl n ↦ rw (n, with_public_key_memory, with_public_key) (refl, fails-Cleans _ (wipe _))
        | inr (aux, n) ↦
            rw (n, with_public_key_memory, with_public_key)
              (signed_event-Cleans relay_url challenge privkey pubkey aux)
      ]

  -- If OPENSSL_cleanse writes zeros: the call with its memory gives what BuildAuthEvent gives; on
  -- every path the buffer of the keypair was not written or holds zeros only; and if an event is
  -- given, so do the seed of the context, the auxiliary randomness and the digest.
  pub build_auth_event-Cleans :
      (relay_url challenge : Text) (privkey : List ℕ)
      → let r = build_auth_event_memory lib fill now relay_url challenge privkey in
        (r.0 ≡ build_auth_event lib now relay_url challenge privkey) × Cleans r.0 r.1
  unfolding build_auth_event_memory build_auth_event
  build_auth_event-Cleans relay_url challenge privkey = elim (Bool-cases now.context) [
    | inl c ↦ elim (Bool-cases now.seeded) [
      | inl s ↦
          simp (c, s, build_auth_event_memory, build_auth_event)
            (with_public_key-Cleans relay_url challenge privkey (lib.public_key privkey))
      | inr s ↦ rw (c, s, build_auth_event_memory, build_auth_event) (refl, fails-Cleans _ tt)
    ]
    | inr c ↦ rw (c, build_auth_event_memory, build_auth_event) (refl, fails-Cleans _ tt)
  ]
