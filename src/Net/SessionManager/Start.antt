-- ===== src/Net/SessionManager/Start.antt =====
-- What SessionManager::Start of src/net/session_manager.cpp leaves running.
use monitostr.Prelude.{
  ◌≡◌, refl, ap, ◌⊎◌, inl, inr, codes, to_string, length, ◌∙◌, true, false, List, [], ◌∷◌, ◌++◌,
  map, Option, Text, All, All-append, arith,
}
use monitostr.Model.LogBuffer.{info}
use monitostr.Net.Services.{Services}
use monitostr.Net.RelaySession.{
  Session, Shared, Now, resolve, new, begin, log, parsed_or_empty, set_auth_key,
}
use monitostr.Net.RelaySession.Handlers.{start, start_parsed, stop}
use monitostr.Net.SessionManager.{
  SessionManager, stop_each, stop_all, start_one, start_each, start_sessions,
}
use monitostr.Nostr.AuthKey.{AuthKey}

-- A session that runs for these.
pub record Runs (auth_key : Option AuthKey) (hex_pubkey : Text) (s : Session) : Type 0 where
  pub keyed : s.auth_key ≡ auth_key
  pub for : s.hex_pubkey ≡ hex_pubkey
  pub live : s.stopped ≡ false

abbrev pub IsStopped : Session → Type 0
IsStopped s = s.stopped ≡ true

module _ (lib : Services) (now : Now) where
  start_parsed_cases :
      (s : Session) (w : Shared)
      → ((start_parsed lib now (s, w)).0 ≡ s) ⊎ ((start_parsed lib now (s, w)).0 ≡ begin resolve s)
  unfolding start_parsed
  start_parsed_cases s w = ground arith

  start_one_lem :
      (auth_key : Option AuthKey) (hex_pubkey url : Text) (w : Shared)
      → ((start_one lib now auth_key hex_pubkey url w).0.relay_url ≡ url)
        × Runs auth_key hex_pubkey (start_one lib now auth_key hex_pubkey url w).0
  unfolding start_one start set_auth_key new begin
  start_one_lem auth_key hex_pubkey url w =
      elim (start_parsed_cases
        (record (new url hex_pubkey) {
          auth_key = auth_key;
          stopped = false;
          parsed_relay = parsed_or_empty url;
        })
        w) [
          | inl e ↦ rw e (refl, record { keyed = refl; for = refl; live = refl })
          | inr e ↦ rw e (refl, record { keyed = refl; for = refl; live = refl })
        ]

  start_each_lem :
      (auth_key : Option AuthKey) (hex_pubkey : Text) (urls : List Text) (w : Shared)
      → (map (λ s. s.relay_url) (start_each lib now auth_key hex_pubkey urls w).0 ≡ urls)
        × All (Runs auth_key hex_pubkey) (start_each lib now auth_key hex_pubkey urls w).0
  unfolding start_each
  start_each_lem auth_key hex_pubkey [] w = (refl, tt)
  start_each_lem auth_key hex_pubkey (url ∷ urls) w =
      let started = start_one lib now auth_key hex_pubkey url w in
      let one = start_one_lem auth_key hex_pubkey url w in
      let rest = start_each_lem auth_key hex_pubkey urls started.1 in
      let tail = map (λ s. s.relay_url) (start_each lib now auth_key hex_pubkey urls started.1).0 in
      (ap (λ u. u ∷ tail) one.0 ∙ ap (◌∷◌ url) rest.0, (one.1, rest.1))

  stop-IsStopped : (s : Session) (w : Shared) → IsStopped (stop lib now (s, w)).0
  unfolding stop begin
  stop-IsStopped s w = ground arith

  stop_each-IsStopped :
      (sessions : List Session) (w : Shared) → All IsStopped (stop_each lib now sessions w).0
  unfolding stop_each
  stop_each-IsStopped [] w = tt
  stop_each-IsStopped (s ∷ sessions) w =
      (stop-IsStopped s w, stop_each-IsStopped sessions (stop lib now (s, w)).1)

  -- If the retired sessions are stopped, then after Start the running sessions have the given URLs
  -- in order, each has the given auth key and hex key and is not stopped, and all retired
  -- sessions, those of before the call with them, are stopped.
  pub start_sessions_lem :
      (urls : List Text) (hex_pubkey : Text) (auth_key : Option AuthKey) (m : SessionManager)
      → All IsStopped m.retired
      → (map (λ s. s.relay_url) (start_sessions lib now urls hex_pubkey auth_key m).sessions ≡ urls)
        × All
            (Runs auth_key hex_pubkey)
            (start_sessions lib now urls hex_pubkey auth_key m).sessions
        × All IsStopped (start_sessions lib now urls hex_pubkey auth_key m).retired
  unfolding start_sessions stop_all
  start_sessions_lem urls hex_pubkey auth_key m retired =
      let m' = stop_all lib now m in
      let noted =
        log now info
          (codes "Starting relay sessions for " ++ to_string (length urls) ++ codes " relays")
          m'.shared in
      let started = start_each_lem auth_key hex_pubkey urls noted in
      let stopped = stop_each-IsStopped m.sessions _ in
      (started.0, started.1, All-append IsStopped _ _ stopped retired)
