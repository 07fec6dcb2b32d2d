-- ===== src/Program/Lookups.antt =====
-- How a lookup of src/main.cpp ends.
use monitostr.Prelude.{ℕ, ◌≡◌, refl, true, List, ◌++◌, map, codes, to_string, length, All}
use monitostr.Model.LogBuffer.{info}
use monitostr.Net.Services.{Services}
use monitostr.Net.RelaySession.{Shared, Now, log}
use monitostr.Net.Bootstrap.{Seed, default_seed_relay_url, resolve_work}
use monitostr.Net.Bootstrap.Usable.{IsUsable, resolve_work-IsUsable}
use monitostr.Net.SessionManager.Start.{IsStopped, Runs, start_sessions_lem}
use monitostr.Program.{Program, Lookup, say, on_resolved, finish_lookup}

module _ (lib : Services) (now : Now) where
  -- If the retired sessions are stopped and a lookup ends well: its URLs, of which there is one at
  -- least, each secure and none twice, have one running session each, in order, with the hex key
  -- and the key snapshot of the lookup; every retired session, those of before with them, is
  -- stopped; and the program's key is as it was.
  pub finish_lookup-Runs :
      (seeds : ℕ → Seed) (lookup : Lookup) (rest : List Lookup) (p : Program)
      → All IsStopped p.manager.retired
      → let resolved =
          resolve_work lib now.stamp lookup.hex_pubkey default_seed_relay_url seeds
            p.manager.shared.logs in
        resolved.0.ok ≡ true
        → let resolved =
            resolve_work lib now.stamp lookup.hex_pubkey default_seed_relay_url seeds
              p.manager.shared.logs in
          let q = finish_lookup lib now seeds lookup rest p in
          IsUsable resolved.0
          × (map (λ s. s.relay_url) q.manager.sessions ≡ resolved.0.relay_urls)
          × All (Runs lookup.auth_key_snapshot lookup.hex_pubkey) q.manager.sessions
          × All IsStopped q.manager.retired
          × (q.auth_key ≡ p.auth_key)
  unfolding finish_lookup on_resolved say log
  finish_lookup-Runs seeds lookup rest p stopped ok =
      let resolved =
        resolve_work lib now.stamp lookup.hex_pubkey default_seed_relay_url seeds
          p.manager.shared.logs in
      let usable =
        resolve_work-IsUsable lib now.stamp lookup.hex_pubkey default_seed_relay_url seeds
          p.manager.shared.logs ok in
      let w : Shared = record (p.manager.shared) { logs = resolved.1 } in
      let told =
        log now info
          (codes "Bootstrap returned "
            ++ (to_string (length resolved.0.relay_urls) ++ codes " relays"))
          w in
      let started =
        start_sessions_lem lib now resolved.0.relay_urls lookup.hex_pubkey lookup.auth_key_snapshot
          (record (p.manager) { shared = told }) stopped in
      rw (ok, on_resolved) (usable, started.0, started.1, started.2, refl)
