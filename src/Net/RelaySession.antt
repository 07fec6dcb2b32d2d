-- ===== src/Net/RelaySession.antt =====
-- src/net/relay_session.cpp and include/monitostr/net/relay_session.hpp: one relay's connection.
-- A handler that the strand runs is one function from the session and the shared model to the new
-- ones (Net/RelaySession/Handlers). An asynchronous call that is under way is an entry of `pending`;
-- the environment later completes it, with an error or not (Net/RelaySession/Steps).
pub mod Handlers
pub mod Steps
pub mod Budget
pub mod Chain
pub mod Stopping
pub mod Table
pub mod Fetch
pub mod Connecting
pub mod Challenge
use monitostr.Prelude.{
  ℕ, ◌+◌, ◌-◌, ◌/◌, Bool, true, false, not, List, [], ◌∷◌, ◌++◌, Option, none, some, Text, codes,
  to_string, if◌then◌else◌, ℤ, is_empty,
}
use monitostr.Model.LogBuffer.{LogBuffer, LogLevel, info, warn, error, push}
use monitostr.Model.RelayStats
use monitostr.Model.RelayStats.{
  RelayStats, RelayStatus, disconnected, resolving, connecting, tls_handshake, ws_handshake,
  subscribed,
}
use monitostr.Net.RelayTarget.{ParsedRelayUrl, parse_relay_url}
use monitostr.Net.Json.{Json, array, string, item, nil}
use monitostr.Net.Services.{Services}
use monitostr.Net.SessionSupport.{
  RelayMessageEffect, ignore, auth_challenge, event_count, end_of_stored_events,
  max_reconnect_attempts, build_monitor_req_message, parse_relay_message_effect,
  should_reconnect_attempt, compute_reconnect_delay_ms,
}
use monitostr.Nostr.AuthKey.{AuthKey}
use monitostr.Nostr.Signer.{Attempt, build_auth_event}

-- The asynchronous calls: what the completion handler of each is, is said at its handler below.
pub data Op : Type 0 where
  resolve connect tls ws read close fetch_nips : Op
  -- The message that is written stays alive with the entry.
  write_req auth_write : Text → Op
  -- The delay in milliseconds.
  timer : ℕ → Op

pub record Session : Type 0 where
  pub relay_url : Text
  pub hex_pubkey : Text
  pub parsed_relay : ParsedRelayUrl
  pub stopped : Bool
  pub ws_connected : Bool
  pub auth_key : Option AuthKey
  pub reconnect_attempt : ℕ
  pub req_sent_at : ℕ
  pub pending : List Op

-- What the session shares with the rest of the program; a null log buffer is `none`.
pub record Shared : Type 0 where
  pub stats : RelayStats
  pub logs : Option LogBuffer

-- What a handler reads of the clocks and of the signing library. One handler reads one instant.
pub record Now : Type 0 where
  pub stamp : Text
  pub steady : ℕ
  pub signing : Attempt

-- A completion's `error_code`: `none`, or the message of the error.
abbrev pub ErrorCode : Type 0
ErrorCode = Option Text

abbrev pub State : Type 0
State = Session × Shared

-- The UTF-8 bytes of the dash in two log lines.
abbrev pub em_dash : Text
em_dash = 0xe2 ∷ 0x80 ∷ 0x94 ∷ []

abbrev pub no_relay : ParsedRelayUrl
no_relay = record { secure = true; host = []; port = []; target = [] }

unfoldable pub parsed_or_empty : Text → ParsedRelayUrl
parsed_or_empty relay_url = elim (parse_relay_url relay_url) [
  | none ↦ no_relay
  | some parsed ↦ parsed
]

unfoldable pub new : Text → Text → Session
unfolding parsed_or_empty
new relay_url hex_pubkey = record {
  relay_url = relay_url;
  hex_pubkey = hex_pubkey;
  parsed_relay = parsed_or_empty relay_url;
  stopped = false;
  ws_connected = false;
  auth_key = none;
  reconnect_attempt = 0;
  req_sent_at = 0;
  pending = [];
}

unfoldable pub begin : Op → Session → Session
begin op s = record s { pending = op ∷ s.pending }

unfoldable pub log : Now → LogLevel → Text → Shared → Shared
log now level message w = record w {
  logs = elim w.logs [ none ↦ none | some b ↦ some (push now.stamp level message b) ];
}

-- `"[" + relay_url_ + "] " + text`.
unfoldable pub tagged : Session → Text → Text
tagged s text = codes "[" ++ s.relay_url ++ codes "] " ++ text

unfoldable pub report : Now → RelayStatus → Text → Session → Shared → Shared
report now status message s w = record w {
  stats = RelayStats.set_status now.steady s.relay_url status message w.stats;
}

unfoldable pub ensure : Session → Shared → Shared
ensure s w = record w { stats = RelayStats.ensure_relay s.relay_url w.stats }

-- SetAuthKey.
unfoldable pub set_auth_key : Option AuthKey → State → State
set_auth_key key (s, w) = (record s { auth_key = key }, w)
