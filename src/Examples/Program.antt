-- ===== src/Examples/Program.antt =====
-- Instances of the theorems on the program of src/main.cpp.
use monitostr.Prelude.{
  ℕ, ◌≡◌, ◌≢◌, refl, ap, true, false, List, [], ◌∷◌, map, Option, none, some, Text, codes, All,
  subst, length, arith,
}
use monitostr.Nip19.Hex.{bytes_to_hex}
use monitostr.Nip19.Bech32.{encode_bech32_32_bytes}
use monitostr.Nip19.Keys.RoundTrip.{decode_nsec_lem}
use monitostr.Nip19.Convert.Value.{Fits}
use monitostr.Nostr.AuthKey.{AuthKey, from_hex_privkey}
use monitostr.Model.LogBuffer.{LogBuffer}
use monitostr.Net.Services.{Services}
use monitostr.Net.RelayTarget.{ParsedRelayUrl, parse_relay_url}
use monitostr.Net.Bootstrap.{
  Seed, answers, default_seed_relay_url, resolve_work, query_kind_with_ws,
}
use monitostr.Net.Bootstrap.RelayList.{deduplicate}
use monitostr.Net.Bootstrap.Usable.{IsUsable, answering_seed_settles}
use monitostr.Net.SessionManager.{has_active_sessions}
use monitostr.Net.SessionManager.Start.{IsStopped, Runs}
use monitostr.Ui.App.{character}
use monitostr.Ui.App.View.{frame}
use monitostr.Program.{Program, Lookup, initial, host_of, on_terminal, submit_nsec, finish_lookup}
use monitostr.Program.Steps.{ProgramSteps, here, next, terminal, draws}
use monitostr.Program.Invariant.{IsProper}
use monitostr.Program.Reachable.{reachable-IsProper}
use monitostr.Program.Keys.{Gives32Bytes, Watches, submit_nsec-Watches}
use monitostr.Program.Lookups.{finish_lookup-Runs}
use monitostr.Program.Stale.{stale_key}
use monitostr.Examples.Fixtures.{key_bytes, services, now, session, relay, shared}

-- After a key and a frame.
abbrev typing : Program
typing =
    on_terminal services now (host_of now (λ text. false) (λ path text. false))
      (character (codes "i")) (initial now)

abbrev drawn : Program
drawn = record typing { app = (frame 80 24 typing.app typing.manager.shared).0 }

steps : ProgramSteps services (initial now) drawn
steps =
    next
      (next here (
        terminal now (λ text. false) (λ path text. false) (character (codes "i")) (omega arith)
          refl))
      (draws 80 24 refl)

reachable-IsProper_example : IsProper drawn
reachable-IsProper_example = reachable-IsProper services now steps

-- Every key has the same public key, of 32 bytes.
abbrev single : Services
single = record services { public_key = λ key. some key_bytes }

fits : All (Fits 8) key_bytes
fits = grind arith

single-Gives32Bytes : Gives32Bytes single
single-Gives32Bytes privkey pubkey e =
    let same : key_bytes ≡ pubkey = cc in
    subst (λ (bytes : List ℕ). (length bytes ≡ 32) × All (Fits 8) bytes) same (refl, fits)

abbrev nsec : Text
nsec = encode_bech32_32_bytes (codes "nsec") key_bytes

abbrev made : AuthKey
made = record { privkey_bytes = key_bytes; hex_pubkey = bytes_to_hex key_bytes }

key_made : from_hex_privkey single true (bytes_to_hex key_bytes) ≡ some made
unfolding from_hex_privkey monitostr.Nostr.Signer.hex_to_bytes32 bytes_to_hex
    monitostr.Nip19.Hex.read_pairs monitostr.Nostr.Signer.derive_hex_pubkey_from_privkey
key_made = refl

idle : has_active_sessions (initial now).manager ≡ false
unfolding has_active_sessions initial
idle = refl

submit_nsec-Watches_example : Watches (initial now) made (submit_nsec single now nsec (initial now))
submit_nsec-Watches_example =
    submit_nsec-Watches single now nsec (bytes_to_hex key_bytes) made (initial now)
      single-Gives32Bytes (decode_nsec_lem key_bytes refl fits) key_made idle

-- Every seed answers, with nothing.
abbrev quiet : ℕ → Seed
quiet i = answers [] []

abbrev seed_relay : ParsedRelayUrl
seed_relay = record relay { host = codes "relay.damus.io" }

seed_parses : parse_relay_url default_seed_relay_url ≡ some seed_relay
unfolding parse_relay_url monitostr.Prelude.starts_with monitostr.Net.RelayTarget.parse_rest
    monitostr.Net.RelayTarget.split_port monitostr.Net.RelayTarget.split_relay_host_and_target
seed_parses = refl

lists_nothing : (lib : Services) (sub_id : Text) → query_kind_with_ws lib sub_id [] ≡ []
unfolding query_kind_with_ws monitostr.Net.Bootstrap.query_loop deduplicate
lists_nothing lib sub_id = refl

-- A lookup of before the key.
abbrev asked : Lookup
asked = record { hex_pubkey = codes "00"; auth_key_snapshot = none }

asked-named : asked.hex_pubkey ≢ []
asked-named = λ e. cc

settles :
    (lib : Services) (logs : Option LogBuffer)
    → (resolve_work lib now.stamp asked.hex_pubkey default_seed_relay_url quiet logs).0.ok ≡ true
settles lib logs =
    (answering_seed_settles lib now.stamp asked.hex_pubkey default_seed_relay_url quiet logs
      seed_relay [] [] asked-named seed_parses refl (lists_nothing lib (codes "bootstrap-10002"))
      (lists_nothing lib (codes "bootstrap-3"))).succeeds

-- One session runs, and one lookup is under way.
abbrev watching : Program
watching = record (initial now) {
  manager = record { sessions = session [] ∷ []; retired = []; shared = shared };
  lookups = asked ∷ [];
}

finish_lookup-Runs_example :
    let resolved =
      resolve_work services now.stamp asked.hex_pubkey default_seed_relay_url quiet
        watching.manager.shared.logs in
    let q = finish_lookup services now quiet asked [] watching in
    IsUsable resolved.0
    × (map (λ s. s.relay_url) q.manager.sessions ≡ resolved.0.relay_urls)
    × All (Runs asked.auth_key_snapshot asked.hex_pubkey) q.manager.sessions
    × All IsStopped q.manager.retired
    × (q.auth_key ≡ watching.auth_key)
finish_lookup-Runs_example =
    finish_lookup-Runs services now quiet asked [] watching tt (settles services shared.logs)

active : has_active_sessions watching.manager ≡ true
unfolding has_active_sessions
active = refl

keyless : asked.auth_key_snapshot ≢ some made
keyless = λ e. cc

stale_key_example :
    let q = submit_nsec single now nsec watching in
    let r = finish_lookup single now quiet asked [] q in
    All (λ s. s.auth_key ≡ some made) q.manager.sessions
    × (q.lookups ≡ asked ∷ [])
    × All (λ s. s.auth_key ≢ some made) r.manager.sessions
    × (r.auth_key ≡ some made)
stale_key_example =
    stale_key single now nsec (bytes_to_hex key_bytes) made quiet asked [] watching tt
      (decode_nsec_lem key_bytes refl fits) key_made active refl keyless
      (settles single (submit_nsec single now nsec watching).manager.shared.logs)
