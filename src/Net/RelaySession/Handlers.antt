-- ===== src/Net/RelaySession/Handlers.antt =====
-- The handlers of src/net/relay_session.cpp. `lib` is what the libraries do, `now` what one handler
-- reads of the clocks and of the signing library.
use monitostr.Prelude.{
  ◌+◌, ◌-◌, ◌/◌, true, false, not, List, [], ◌∷◌, ◌++◌, Option, none, some, Text, codes, to_string,
  if◌then◌else◌, ℤ, is_empty,
}
use monitostr.Model.LogBuffer.{info, warn, error}
use monitostr.Model.RelayStats
use monitostr.Model.RelayStats.{
  RelayStats, RelayStatus, disconnected, resolving, connecting, tls_handshake, ws_handshake,
  subscribed,
}
use monitostr.Net.Json.{Json, array, string, item, nil}
use monitostr.Net.Services.{Services}
use monitostr.Net.SessionSupport.{
  RelayMessageEffect, ignore, auth_challenge, event_count, end_of_stored_events,
  max_reconnect_attempts, build_monitor_req_message, parse_relay_message_effect,
  should_reconnect_attempt, compute_reconnect_delay_ms,
}
use monitostr.Nostr.AuthKey.{AuthKey}
use monitostr.Nostr.Signer.{build_auth_event}
use monitostr.Net.RelaySession.{
  resolve, connect, tls, ws, read, close, fetch_nips, write_req, auth_write, timer, Now, ErrorCode,
  State, em_dash, parsed_or_empty, begin, log, tagged, report, ensure,
}

module _ (lib : Services) (now : Now) where
  unfoldable pub start_parsed : State → State
  unfolding begin log tagged report ensure
  start_parsed (s, w) =
      if is_empty s.parsed_relay.host
      then (
        s,
        log now error (tagged s (codes "invalid relay URL"))
            (report now RelayStatus.error (codes "invalid relay URL") s (ensure s w)),
      )
      else if not s.parsed_relay.secure
      then (
        s,
        log now warn (tagged s (codes "ws:// relay URLs are not supported yet; skipping session"))
            (report now RelayStatus.error (codes "unsupported ws:// relay URL") s (ensure s w)),
      )
      else (
        begin resolve s,
        report now resolving [] s
            (ensure s (log now info (tagged s (codes "resolving host " ++ s.parsed_relay.host)) w)),
      )

  -- Start. Cancelling the timer lets its handler run with an error, or too late to be cancelled:
  -- the entry stays pending.
  unfoldable pub start : State → State
  start (s, w) =
      start_parsed (record s { stopped = false; parsed_relay = parsed_or_empty s.relay_url }, w)

  -- Stop. What it cancels is completed by the environment like any other entry.
  unfoldable pub stop : State → State
  unfolding begin report
  stop (s, w) =
      if s.ws_connected
      then (begin close (record s { stopped = true; ws_connected = false }), w)
      else (record s { stopped = true }, report now disconnected [] s w)

  unfoldable pub schedule_reconnect : Text → State → State
  unfolding begin log tagged
  schedule_reconnect reason (s, w) =
      let attempt = s.reconnect_attempt + 1 in
      let delay_ms = compute_reconnect_delay_ms lib s.relay_url attempt now.steady in
      (
        begin (timer delay_ms) (record s { reconnect_attempt = attempt }),
        log now warn
            (tagged s (
              codes "reconnect "
              ++ to_string attempt
              ++ codes "/"
              ++ to_string max_reconnect_attempts
              ++ codes " in "
              ++ to_string delay_ms
              ++ codes " ms after "
              ++ reason))
            w,
      )

  unfoldable pub mark_error : Text → Text → State → State
  unfolding log tagged report
  mark_error stage message (s, w) =
      let reason = stage ++ codes ": " ++ message in
      let w' = log now error (tagged s reason) (report now RelayStatus.error reason s w) in
      if should_reconnect_attempt s.stopped s.reconnect_attempt stage
      then schedule_reconnect reason (s, w')
      else (s, w')

  -- OnResolve, the handler of `resolve`.
  unfoldable pub on_resolve : ErrorCode → State → State
  unfolding begin log tagged report
  on_resolve (some message) st = mark_error (codes "resolve") message st
  on_resolve none (s, w) = (
    begin connect s,
    report now connecting [] s (log now info (tagged s (codes "resolved, connecting...")) w),
  )

  -- OnConnect, the handler of `connect`; `sni` is the error of SSL_set_tlsext_host_name.
  unfoldable pub on_connect : ErrorCode → ErrorCode → State → State
  unfolding begin log tagged report
  on_connect (some message) sni st = mark_error (codes "connect") message st
  on_connect none sni (s, w) =
      let w' = log now info (tagged s (codes "TCP connected, starting TLS handshake")) w in
      elim sni [
        | some message ↦ mark_error (codes "set_sni") message (s, w')
        | none ↦ (begin tls s, report now tls_handshake [] s w')
      ]

  -- OnTlsHandshake, the handler of `tls`.
  unfoldable pub on_tls_handshake : ErrorCode → State → State
  unfolding begin log tagged report
  on_tls_handshake (some message) st = mark_error (codes "tls_handshake") message st
  on_tls_handshake none (s, w) = (
    begin ws s,
    report now ws_handshake [] s
        (log now info (tagged s (codes "TLS handshake OK, starting WebSocket handshake")) w),
  )

  -- OnWsHandshake, the handler of `ws`: it posts the NIP-11 fetch and writes the REQ.
  unfoldable pub on_ws_handshake : ErrorCode → State → State
  unfolding begin log tagged report
  on_ws_handshake (some message) st = mark_error (codes "ws_handshake") message st
  on_ws_handshake none (s, w) = (
    begin (write_req (build_monitor_req_message lib s.hex_pubkey)) (
        begin fetch_nips
          (record s { reconnect_attempt = 0; ws_connected = true; req_sent_at = now.steady })),
    report now subscribed [] s (log now info (tagged s (codes "subscribed")) w),
  )

  -- The continuation of the fetch that runs on the strand; without an answer there is none.
  unfoldable pub on_fetch_nips : Option (List ℤ) → State → State
  unfolding log tagged
  on_fetch_nips none st = st
  on_fetch_nips (some nips) (s, w) = if s.stopped then (s, w) else (
    s,
    log now info (tagged s (codes "NIP-11 capabilities loaded"))
        (record w { stats = RelayStats.set_supported_nips s.relay_url nips w.stats }),
  )

  -- OnWriteReq, the handler of `write_req`.
  unfoldable pub on_write_req : ErrorCode → State → State
  unfolding begin
  on_write_req (some message) st = mark_error (codes "write_req") message st
  on_write_req none (s, w) = (begin read s, w)

  pub auth_message : Json → Text
  auth_message parsed_event =
      lib.dump (array (item (string (codes "AUTH")) (item parsed_event nil)))

  unfoldable pub auth_answer : Text → State → State
  unfolding begin log tagged auth_message
  auth_answer [] (s, w) = (s, log now error (tagged s (codes "NIP-42 AUTH signing failed")) w)
  auth_answer (c ∷ event_json) (s, w) = elim (lib.parse (c ∷ event_json)) [
    | none ↦ (s, log now error (tagged s (codes "NIP-42 AUTH event JSON is malformed")) w)
    | some parsed_event ↦ (begin (auth_write (auth_message parsed_event)) s, w)
  ]

  -- OnAuthChallenge, by the key that is set.
  unfoldable pub answer_with : Option AuthKey → Text → State → State
  unfolding log tagged
  answer_with none challenge (s, w) = (
    s,
    log now warn
        (tagged s (
          codes "NIP-42 AUTH challenge received "
          ++ em_dash
          ++ codes " no private key set; skipping"))
        w,
  )
  answer_with (some key) challenge (s, w) =
      auth_answer (build_auth_event lib now.signing s.relay_url challenge key.privkey_bytes) (
        s,
        log now info
            (tagged s (codes "NIP-42 AUTH challenge received " ++ em_dash ++ codes " signing")) w,
      )

  unfoldable pub on_auth_challenge : Text → State → State
  on_auth_challenge challenge (s, w) = answer_with s.auth_key challenge (s, w)

  -- The handler of `auth_write`.
  unfoldable pub on_auth_written : ErrorCode → State → State
  unfolding log tagged
  on_auth_written (some message) (s, w) =
      (s, log now error (tagged s (codes "NIP-42 AUTH write failed: " ++ message)) w)
  on_auth_written none (s, w) = (s, log now info (tagged s (codes "NIP-42 AUTH sent")) w)

  unfoldable pub handle_effect : RelayMessageEffect → State → State
  unfolding log tagged
  handle_effect ignore st = st
  handle_effect (auth_challenge challenge) st = on_auth_challenge challenge st
  handle_effect event_count (s, w) =
      (s, record w { stats = RelayStats.increment_event s.relay_url w.stats })
  handle_effect end_of_stored_events (s, w) =
      let elapsed_ms = (now.steady - s.req_sent_at) / 1_000_000 in
      (
        s,
        log now info (tagged s (codes "EOSE received in " ++ to_string elapsed_ms ++ codes " ms"))
            (record w { stats = RelayStats.record_latency s.relay_url elapsed_ms w.stats }),
      )

  unfoldable pub handle_message : Text → State → State
  unfolding handle_effect
  handle_message payload st = handle_effect (parse_relay_message_effect lib payload) st

  unfoldable pub read_on : State → State
  unfolding begin
  read_on (s, w) = if s.stopped then (s, w) else (begin read s, w)

  -- OnRead, the handler of `read`.
  unfoldable pub on_read : ErrorCode → Text → State → State
  unfolding read_on
  on_read (some message) payload st = mark_error (codes "read") message st
  on_read none payload st = read_on (handle_message payload st)

  -- The handler of `async_close`, whatever its error.
  unfoldable pub on_close : State → State
  unfolding report
  on_close (s, w) = (s, report now disconnected [] s w)

  -- The handler of the timer: ResetTransportForReconnect, and a new start of the chain.
  unfoldable pub on_timer : ErrorCode → State → State
  unfolding begin report
  on_timer (some message) st = st
  on_timer none (s, w) =
      if s.stopped
      then (s, w)
      else (begin resolve (record s { ws_connected = false }), report now resolving [] s w)
