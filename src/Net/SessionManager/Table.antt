-- ===== src/Net/SessionManager/Table.antt =====
-- The calls of src/net/session_manager.cpp on the relay table.
use monitostr.Prelude.{Bool-cases, inl, inr, List, [], ◌∷◌, Option, Text}
use monitostr.Net.Services.{Services}
use monitostr.Net.RelaySession.{Session, Shared, Now, log, new, set_auth_key}
use monitostr.Net.RelaySession.Handlers.{stop}
use monitostr.Net.RelaySession.Table.{Tabled, start-Tabled, stop-Tabled}
use monitostr.Net.SessionManager.{
  SessionManager, has_active_sessions, stop_each, stop_all, start_one, start_each, start_sessions,
}
use monitostr.Nostr.AuthKey.{AuthKey}

module _ (lib : Services) (now : Now) where
  stop_each-Tabled :
      (sessions : List Session) (w : Shared) → Tabled w → Tabled (stop_each lib now sessions w).1
  unfolding stop_each
  stop_each-Tabled [] w h = h
  stop_each-Tabled (s ∷ sessions) w h =
      stop_each-Tabled sessions (stop lib now (s, w)).1 (stop-Tabled lib now (s, w) h)

  pub stop_all-Tabled : (m : SessionManager) → Tabled m.shared → Tabled (stop_all lib now m).shared
  unfolding stop_all log
  stop_all-Tabled m h = elim (Bool-cases (has_active_sessions m)) [
    | inl e ↦ rw e (stop_each-Tabled m.sessions _ h)
    | inr e ↦ rw e (stop_each-Tabled m.sessions m.shared h)
  ]

  start_each-Tabled :
      (auth_key : Option AuthKey) (hex_pubkey : Text) (urls : List Text) (w : Shared)
      → Tabled w
      → Tabled (start_each lib now auth_key hex_pubkey urls w).1
  unfolding start_each start_one set_auth_key
  start_each-Tabled auth_key hex_pubkey [] w h = h
  start_each-Tabled auth_key hex_pubkey (url ∷ urls) w h =
      start_each-Tabled auth_key hex_pubkey urls (start_one lib now auth_key hex_pubkey url w).1
        (start-Tabled lib now (set_auth_key auth_key (new url hex_pubkey, w)) h)

  pub start_sessions-Tabled :
      (urls : List Text) (hex_pubkey : Text) (auth_key : Option AuthKey) (m : SessionManager)
      → Tabled m.shared
      → Tabled (start_sessions lib now urls hex_pubkey auth_key m).shared
  unfolding start_sessions log
  start_sessions-Tabled urls hex_pubkey auth_key m h =
      start_each-Tabled auth_key hex_pubkey urls _ (stop_all-Tabled m h)
