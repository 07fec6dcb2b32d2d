-- ===== src/Program/Keys.antt =====
-- What becomes of a key that is entered (the callbacks of src/main.cpp).
use monitostr.Prelude.{
  ℕ, ◌≡◌, refl, ap, sym, subst, ◌∙◌, true, false, List, [], ◌∷◌, ◌++◌, map, Option, some, Text,
  length, All,
}
use monitostr.Model.RelayStats.{reset}
use monitostr.Nip19.Hex.{bytes_to_hex}
use monitostr.Nip19.Convert.Value.{Fits}
use monitostr.Nip19.Keys.{decode_npub_to_hex, decode_nsec_to_hex, encode_npub_from_hex}
use monitostr.Nip19.Keys.RoundTrip.{decode_npub-encode_npub}
use monitostr.Nostr.AuthKey.{AuthKey, from_hex_privkey}
use monitostr.Nostr.AuthKey.Derived.{from_hex_privkey-some}
use monitostr.Net.Services.{Services}
use monitostr.Net.RelaySession.{Session, Now, log}
use monitostr.Net.SessionManager.{has_active_sessions, update_auth_key, give_key}
use monitostr.Ui.App.{set_header_context}
use monitostr.Program.{
  Program, say, show_key, reset_stats, resolve_relays, monitor_decoded, monitor_encoded, take_key,
  submit_private, submit_nsec,
}

-- The serialised x-only public key of libsecp256k1 is 32 bytes.
abbrev pub Gives32Bytes : Services → Type 0
Gives32Bytes lib =
    (privkey pubkey : List ℕ)
    → lib.public_key privkey ≡ some pubkey
    → (length pubkey ≡ 32) × All (Fits 8) pubkey

-- A program that watches the key `hex` from now on.
pub record Watches (p : Program) (key : AuthKey) (q : Program) : Type 0 where
  pub holds : q.auth_key ≡ some key
  pub asked :
      q.lookups
      ≡ p.lookups ++ record { hex_pubkey = key.hex_pubkey; auth_key_snapshot = some key } ∷ []
  pub shown : q.app.header_context.hex_pubkey ≡ key.hex_pubkey
  pub shown_npub :
      decode_npub_to_hex q.app.header_context.npub
      ≡ record { ok = true; hex = key.hex_pubkey; error = [] }
  pub cleared : q.manager.shared.stats ≡ []
  pub same_sessions : q.manager.sessions ≡ p.manager.sessions

module _ (lib : Services) (now : Now) where
  -- With no session, a key whose public part is 32 bytes.
  take_key-Watches :
      (key : AuthKey) (pubkey : List ℕ) (p : Program)
      → length pubkey ≡ 32
      → All (Fits 8) pubkey
      → key.hex_pubkey ≡ bytes_to_hex pubkey
      → has_active_sessions p.manager ≡ false
      → Watches p key (take_key lib now key p)
  unfolding take_key has_active_sessions monitor_encoded monitor_decoded resolve_relays reset_stats
      show_key say set_header_context log reset
  take_key-Watches key pubkey p size fit is idle =
      let trip = decode_npub-encode_npub pubkey size fit in
      let ok : (encode_npub_from_hex key.hex_pubkey).ok ≡ true =
        ap (λ t. (encode_npub_from_hex t).ok) is ∙ trip.0 in
      let back : decode_npub_to_hex (encode_npub_from_hex key.hex_pubkey).npub
          ≡ record { ok = true; hex = key.hex_pubkey; error = [] } =
        rw is trip.1 in
      rw (idle, take_key, ok, back)
        (record {
          holds = refl;
          asked = refl;
          shown = refl;
          shown_npub = back;
          cleared = refl;
          same_sessions = refl;
        })

  -- From a decoded nsec on.
  pub submit_nsec-takes :
      (nsec hex : Text) (key : AuthKey) (p : Program)
      → decode_nsec_to_hex nsec ≡ record { ok = true; hex = hex; error = [] }
      → from_hex_privkey lib now.signing.context hex ≡ some key
      → submit_nsec lib now nsec p ≡ take_key lib now key p
  unfolding submit_nsec submit_private
  submit_nsec-takes nsec hex key p d k = rw (d, k, submit_private) refl

  -- If libsecp256k1 serialises public keys in 32 bytes, no session runs, and an nsec is decoded
  -- into a private key of which an AuthKey is made: the program then holds the key, shows its
  -- public key and an npub that is decoded into it, has an empty table and the same sessions, and
  -- one lookup more is under way, for the public key with the new key; no branch for a failed npub
  -- is taken.
  pub submit_nsec-Watches :
      (nsec hex : Text) (key : AuthKey) (p : Program)
      → Gives32Bytes lib
      → decode_nsec_to_hex nsec ≡ record { ok = true; hex = hex; error = [] }
      → from_hex_privkey lib now.signing.context hex ≡ some key
      → has_active_sessions p.manager ≡ false
      → Watches p key (submit_nsec lib now nsec p)
  submit_nsec-Watches nsec hex key p gives d k idle =
      let (whole, (pubkey, given, is)) = from_hex_privkey-some lib now.signing.context hex key k in
      let sized = gives key.privkey_bytes pubkey given in
      subst (Watches p key) (sym (submit_nsec-takes nsec hex key p d k))
        (take_key-Watches key pubkey p sized.0 sized.1 is idle)

  Keyed : Option AuthKey → Session → Type 0
  Keyed key s = s.auth_key ≡ key

  give_key-Keyed :
      (key : Option AuthKey) (sessions : List Session)
      → All (Keyed key) (give_key lib now key sessions)
  unfolding give_key Keyed
  give_key-Keyed key [] = tt
  give_key-Keyed key (s ∷ sessions) = (refl, give_key-Keyed key sessions)

  give_key-urls :
      (key : Option AuthKey) (sessions : List Session)
      → map (λ s. s.relay_url) (give_key lib now key sessions) ≡ map (λ s. s.relay_url) sessions
  unfolding give_key
  give_key-urls key [] = refl
  give_key-urls key (s ∷ sessions) = ap (◌∷◌ s.relay_url) (give_key-urls key sessions)

  pub take_key-pushes :
      (key : AuthKey) (p : Program)
      → has_active_sessions p.manager ≡ true
      → let q = take_key lib now key p in
        (q.auth_key ≡ some key)
        × All (λ s. s.auth_key ≡ some key) q.manager.sessions
        × (map (λ s. s.relay_url) q.manager.sessions ≡ map (λ s. s.relay_url) p.manager.sessions)
        × (q.app ≡ p.app)
        × (q.lookups ≡ p.lookups)
        × (q.manager.shared.stats ≡ p.manager.shared.stats)
  unfolding take_key has_active_sessions update_auth_key say log Keyed
  take_key-pushes key p active =
      rw (active, take_key)
        (
          refl,
          give_key-Keyed (some key) p.manager.sessions,
          give_key-urls (some key) p.manager.sessions,
          refl,
          refl,
          refl,
        )

  -- An nsec that is decoded into a private key of which an AuthKey is made, while sessions run: the
  -- program and every session have the new key; the URLs of the sessions, the UI, the lookups and the
  -- table are as they were.
  pub submit_nsec-pushes :
      (nsec hex : Text) (key : AuthKey) (p : Program)
      → decode_nsec_to_hex nsec ≡ record { ok = true; hex = hex; error = [] }
      → from_hex_privkey lib now.signing.context hex ≡ some key
      → has_active_sessions p.manager ≡ true
      → let q = submit_nsec lib now nsec p in
        (q.auth_key ≡ some key)
        × All (λ s. s.auth_key ≡ some key) q.manager.sessions
        × (map (λ s. s.relay_url) q.manager.sessions ≡ map (λ s. s.relay_url) p.manager.sessions)
        × (q.app ≡ p.app)
        × (q.lookups ≡ p.lookups)
        × (q.manager.shared.stats ≡ p.manager.shared.stats)
  submit_nsec-pushes nsec hex key p d k active =
      rw (submit_nsec-takes nsec hex key p d k) (take_key-pushes key p active)
