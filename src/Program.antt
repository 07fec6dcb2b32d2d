-- ===== src/Program.antt =====
-- src/main.cpp: the two submit callbacks, the completion of a bootstrap, and the program around them.
-- Each callback is one step. The bootstrap's one worker serves the lookups in order, so those that are
-- under way are a queue; the messages on stderr and the threads are left out.
pub mod Steps
pub mod Invariant
pub mod Keys
pub mod Lookups
pub mod Stale
pub mod Reachable
use monitostr.Prelude.{
  ℕ, Bool, true, false, ◌||◌, List, [], ◌∷◌, ◌++◌, Option, none, some, Text, codes, to_string,
  length, take, text_eq, if◌then◌else◌,
}
use monitostr.Model.LogBuffer.{LogBuffer, LogLevel, info, error, default_max_entries}
use monitostr.Model.LogBuffer
use monitostr.Model.RelayStats.{reset}
use monitostr.Nip19.Keys.{
  DecodeResult, EncodeResult, decode_npub_to_hex, decode_nsec_to_hex, encode_npub_from_hex,
}
use monitostr.Nostr.AuthKey.{AuthKey, from_hex_privkey}
use monitostr.Net.Services.{Services}
use monitostr.Net.RelaySession.{Shared, Now, log}
use monitostr.Net.Bootstrap.{
  BootstrapResult, Seed, default_seed_relay_url, announce_start, resolve_work,
}
use monitostr.Net.SessionManager.{
  SessionManager, has_active_sessions, stop_all, start_sessions, update_auth_key,
}
use monitostr.Ui.Command.{Effect, exits, authenticates, copies, saves}
use monitostr.Ui.App.{App, Event, Host, Request, submits, asks, Reaction, set_header_context}
use monitostr.Ui.App
use monitostr.Ui.App.Handler.{on_event}

-- What the arguments ask for.
pub data Start : Type 0 where
  shows_help shows_version runs : Start

unfoldable pub scan_arguments : List Text → Start
scan_arguments [] = runs
scan_arguments (arg ∷ args) =
    let rest = scan_arguments args in
    if text_eq arg (codes "--help") || text_eq arg (codes "-h")
    then shows_help
    else if text_eq arg (codes "--version")
        || (text_eq arg (codes "-v") || text_eq arg (codes "-V"))
    then shows_version
    else rest

-- What a completion callback of the bootstrap captures.
pub record Lookup : Type 0 where
  pub hex_pubkey : Text
  pub auth_key_snapshot : Option AuthKey

pub record Program : Type 0 where
  pub app : App
  pub manager : SessionManager
  pub auth_key : Option AuthKey
  -- The lookups that are under way, the oldest first.
  pub lookups : List Lookup
  -- The exit closure of the screen was called.
  pub exiting : Bool

-- `log_buffer->Info(message)` and `Error`.
unfoldable pub say : Now → LogLevel → Text → Program → Program
say now level message p = record p {
  manager = record (p.manager) { shared = log now level message p.manager.shared };
}

unfoldable pub initial : Now → Program
unfolding say
initial now = say now info (codes "Application started") (record {
  app = App.new;
  manager = record {
    sessions = [];
    retired = [];
    shared = record { stats = []; logs = some (LogBuffer.new default_max_entries) };
  };
  auth_key = none;
  lookups = [];
  exiting = false;
})

-- `app.SetHeaderContext({npub, hex_pubkey})`.
unfoldable pub show_key : Text → Text → Program → Program
show_key npub hex_pubkey p = record p {
  app = set_header_context (record { npub = npub; hex_pubkey = hex_pubkey }) p.app;
}

-- `shared_stats->Reset()` with its log line.
unfoldable pub reset_stats : Now → Program → Program
unfolding say
reset_stats now p = say now info (codes "Relay stats reset") (record p {
  manager = record (p.manager) {
    shared = record (p.manager.shared) { stats = reset p.manager.shared.stats };
  };
})

-- `bootstrap.ResolveRelaysForPubkey`, up to the posting of its work.
unfoldable pub resolve_relays : Now → Text → Program → Program
resolve_relays now hex_pubkey p = record p {
  manager = record (p.manager) {
    shared = record (p.manager.shared) {
      logs = announce_start now.stamp default_seed_relay_url p.manager.shared.logs;
    };
  };
  lookups = p.lookups ++ record { hex_pubkey = hex_pubkey; auth_key_snapshot = p.auth_key } ∷ [];
}

submit_decoded : Now → Text → DecodeResult → Program → Program
unfolding say show_key reset_stats resolve_relays
submit_decoded now npub decode p =
    if decode.ok
    then resolve_relays now decode.hex (
        reset_stats now
          (say now info (codes "npub decoded successfully") (show_key npub decode.hex p)))
    else say now error (codes "Invalid npub: " ++ decode.error) p

-- The NpubSubmit callback.
unfoldable pub submit_npub : Now → Text → Program → Program
unfolding say submit_decoded
submit_npub now npub p =
    submit_decoded now npub (decode_npub_to_hex npub) (say now info (codes "New npub submitted") p)

-- The end of the NsecSubmit callback, from `npub_decode` on.
monitor_decoded : Now → Text → DecodeResult → Program → Program
unfolding say show_key reset_stats resolve_relays
monitor_decoded now npub decode p =
    if decode.ok
    then resolve_relays now decode.hex (reset_stats now (show_key npub decode.hex p))
    else say now error (codes "Invalid npub from nsec: " ++ decode.error) p

monitor_encoded : Now → EncodeResult → Program → Program
unfolding say monitor_decoded
monitor_encoded now encoded p =
    if encoded.ok
    then monitor_decoded now encoded.npub (decode_npub_to_hex encoded.npub)
        (say now info (codes "npub derived from nsec, starting monitoring") p)
    else say now error (codes "Failed to encode npub from nsec: " ++ encoded.error) p

-- From `auth_key = next_auth_key` on.
unfoldable pub take_key : Services → Now → AuthKey → Program → Program
unfolding say monitor_encoded
take_key lib now key p =
    let told =
      say now info
        (codes "NIP-42 auth key set (pubkey: " ++ (take 16 key.hex_pubkey ++ codes "...)"))
        (record p { auth_key = some key }) in
    if has_active_sessions told.manager
    then record told { manager = update_auth_key lib now (some key) told.manager }
    else monitor_encoded now (encode_npub_from_hex key.hex_pubkey) told

submit_private : Services → Now → DecodeResult → Program → Program
unfolding say take_key
submit_private lib now decode p =
    if decode.ok
    then elim (from_hex_privkey lib now.signing.context decode.hex) [
      | none ↦ say now error (codes "nsec key derivation failed") p
      | some key ↦ take_key lib now key p
    ]
    else say now error (codes "Invalid nsec: " ++ decode.error) p

-- The NsecSubmit callback.
unfoldable pub submit_nsec : Services → Now → Text → Program → Program
unfolding submit_private
submit_nsec lib now nsec p = submit_private lib now (decode_nsec_to_hex nsec) p

-- The completion that both callbacks pass to the bootstrap.
unfoldable pub on_resolved : Services → Now → Lookup → BootstrapResult → Program → Program
unfolding say
on_resolved lib now lookup result p =
    if result.ok
    then (let told =
          say now info
            (codes "Bootstrap returned "
              ++ (to_string (length result.relay_urls) ++ codes " relays"))
            p in
        record told {
          manager =
              start_sessions lib now result.relay_urls lookup.hex_pubkey lookup.auth_key_snapshot
                told.manager;
        })
    else say now error (codes "Bootstrap failed: " ++ result.error) p

-- The oldest lookup is worked on and completes; `seeds` says what its queries meet.
unfoldable pub finish_lookup :
    Services → Now → (ℕ → Seed) → Lookup → List Lookup → Program → Program
unfolding on_resolved
finish_lookup lib now seeds lookup rest p =
    let resolved =
      resolve_work lib now.stamp lookup.hex_pubkey default_seed_relay_url seeds
        p.manager.shared.logs in
    on_resolved lib now lookup resolved.0 (record p {
      lookups = rest;
      manager = record (p.manager) { shared = record (p.manager.shared) { logs = resolved.1 } };
    })

-- A request of the UI. Text that is copied or saved leaves the program as it is.
unfoldable pub serve : Services → Now → Request → Program → Program
unfolding submit_npub submit_nsec
serve lib now (submits npub) p = submit_npub now npub p
serve lib now (asks exits) p = record p { exiting = true }
serve lib now (asks (authenticates nsec)) p = submit_nsec lib now nsec p
serve lib now (asks (copies text)) p = p
serve lib now (asks (saves path text)) p = p

unfoldable pub serve_all : Services → Now → List Request → Program → Program
unfolding serve
serve_all lib now [] p = p
serve_all lib now (request ∷ requests) p = serve_all lib now requests (serve lib now request p)

-- The callbacks that main sets: both, and the exit closure while the screen runs.
unfoldable pub host_of : Now → (Text → Bool) → (Text → Text → Bool) → Host
host_of now copy_text save_text = record {
  now = now.stamp;
  steady = now.steady;
  can_exit = true;
  can_auth = true;
  copy_text = copy_text;
  save_text = save_text;
}

-- One event of the terminal, with the callbacks it leads to.
unfoldable pub on_terminal : Services → Now → Host → Event → Program → Program
unfolding serve_all
on_terminal lib now host event p =
    let r = on_event host event p.app p.manager.shared in
    serve_all lib now r.requests (record p {
      app = r.app;
      manager = record (p.manager) { shared = record (p.manager.shared) { logs = r.logs } };
    })

-- After the screen's loop.
unfoldable pub shut_down : Services → Now → Program → Program
unfolding say
shut_down lib now p =
    say now info (codes "Application stopping") (record p { manager = stop_all lib now p.manager })
