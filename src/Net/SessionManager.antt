-- ===== src/Net/SessionManager.antt =====
-- src/net/session_manager.cpp. The calls that a session dispatches to its strand run here at once, in
-- the order in which they are made; the sessions that were stopped stay alive in `retired`, as their
-- handlers keep them.
pub mod Start
pub mod Reset
pub mod Table
use monitostr.Prelude.{
  ℕ, Bool, not, List, [], ◌∷◌, ◌++◌, Option, Text, codes, to_string, is_empty, length,
  if◌then◌else◌,
}
use monitostr.Model.LogBuffer.{info}
use monitostr.Net.Services.{Services}
use monitostr.Net.RelaySession.{Session, Shared, Now, State, new, log, set_auth_key}
use monitostr.Net.RelaySession.Handlers.{start, stop}
use monitostr.Nostr.AuthKey.{AuthKey}

pub record SessionManager : Type 0 where
  pub sessions : List Session
  pub retired : List Session
  pub shared : Shared

unfoldable pub has_active_sessions : SessionManager → Bool
has_active_sessions m = not (is_empty m.sessions)

module _ (lib : Services) (now : Now) where
  -- `for (session : sessions_) session->Stop();`
  unfoldable pub stop_each : List Session → Shared → List Session × Shared
  stop_each [] w = ([], w)
  stop_each (s ∷ sessions) w =
      let stopped = stop lib now (s, w) in
      let rest = stop_each sessions stopped.1 in (stopped.0 ∷ rest.0, rest.1)

  unfoldable pub stop_all : SessionManager → SessionManager
  unfolding stop_each has_active_sessions
  stop_all m =
      let noted =
        if has_active_sessions m
        then log now info
            (codes "Stopping " ++ to_string (length m.sessions) ++ codes " relay sessions") m.shared
        else m.shared in
      let stopped = stop_each m.sessions noted in
      record { sessions = []; retired = stopped.0 ++ m.retired; shared = stopped.1 }

  -- One round of the loop of Start: construct, SetAuthKey, Start.
  unfoldable pub start_one : Option AuthKey → Text → Text → Shared → State
  start_one auth_key hex_pubkey relay_url w =
      start lib now (set_auth_key auth_key (new relay_url hex_pubkey, w))

  unfoldable pub start_each : Option AuthKey → Text → List Text → Shared → List Session × Shared
  unfolding start_one
  start_each auth_key hex_pubkey [] w = ([], w)
  start_each auth_key hex_pubkey (relay_url ∷ relay_urls) w =
      let started = start_one auth_key hex_pubkey relay_url w in
      let rest = start_each auth_key hex_pubkey relay_urls started.1 in (started.0 ∷ rest.0, rest.1)

  unfoldable pub start_sessions :
      List Text → Text → Option AuthKey → SessionManager → SessionManager
  unfolding stop_all start_each
  start_sessions relay_urls hex_pubkey auth_key m =
      let m' = stop_all m in
      let noted =
        log now info
          (codes "Starting relay sessions for " ++ to_string (length relay_urls) ++ codes " relays")
          m'.shared in
      let started = start_each auth_key hex_pubkey relay_urls noted in
      record { sessions = started.0; retired = m'.retired; shared = started.1 }

  unfoldable pub give_key : Option AuthKey → List Session → List Session
  give_key auth_key [] = []
  give_key auth_key (s ∷ sessions) = record s { auth_key = auth_key } ∷ give_key auth_key sessions

  unfoldable pub update_auth_key : Option AuthKey → SessionManager → SessionManager
  unfolding give_key
  update_auth_key auth_key m = record m {
    sessions = give_key auth_key m.sessions;
    shared =
        log now info
          (codes "NIP-42 auth key updated on "
            ++ to_string (length m.sessions)
            ++ codes " running sessions")
          m.shared;
  }
