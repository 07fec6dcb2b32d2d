-- ===== src/Net/RelaySession/Connecting.antt =====
-- The handshakes of a session, run to their end (src/net/relay_session.cpp).
use monitostr.Prelude.{
  ◌≡◌, refl, ap, ◌∙◌, true, false, [], ◌∷◌, ◌++◌, Text, codes, arith, Option, some, none, text_eq,
  text_eq_iff, is_empty, ◌⊎◌, inl, inr, subst,
}
use mathlib.Core.Option
use monitostr.Model.RelayStats.{
  RelayStatus, subscribed, resolving, disconnected, find, set_status, with_status,
}
use monitostr.Model.RelayStats.Lookup.{find-modify}
use monitostr.Net.Services.{Services}
use monitostr.Net.RelayTarget.{ParsedRelayUrl, parse_relay_url}
use monitostr.Net.RelaySession.{
  Op, resolve, connect, tls, ws, Session, Shared, Now, State, begin, log, report, tagged, ensure,
  parsed_or_empty,
}
use monitostr.Net.RelaySession.Handlers.{
  start, start_parsed, stop, on_resolve, on_connect, on_tls_handshake, on_ws_handshake,
}
use monitostr.Net.RelaySession.Steps.{Outcome, complete, completes, stops, Steps, here, next}
use monitostr.Model.LogBuffer.{LogLevel, info, warn, error}

-- The status that the table shows for a relay.
unfoldable pub status_of : Text → Shared → Option RelayStatus
status_of url w = Option.map (λ v. v.status) (find url w.stats)

pub status_of-report :
    (now : Now) (status : RelayStatus) (message : Text) (s : Session) (w : Shared)
    → status_of s.relay_url (report now status message s w) ≡ some status
unfolding status_of report set_status with_status
status_of-report now status message s w = ground (
  arith,
  text_eq_iff s.relay_url s.relay_url,
  find-modify s.relay_url s.relay_url (with_status now.steady s.relay_url status message) w.stats,
)

pub status_of-report_other :
    (url : Text) (now : Now) (status : RelayStatus) (message : Text) (s : Session) (w : Shared)
    → text_eq s.relay_url url ≡ false
    → status_of url (report now status message s w) ≡ status_of url w
unfolding status_of report set_status with_status
status_of-report_other url now status message s w h = ground (
  arith,
  h,
  find-modify s.relay_url url (with_status now.steady s.relay_url status message) w.stats,
)

pub status_of-log :
    (url : Text) (now : Now) (level : LogLevel) (message : Text) (w : Shared)
    → status_of url (log now level message w) ≡ status_of url w
unfolding status_of log
status_of-log url now level message w = refl

abbrev pub no_error : Outcome
no_error = record { error = none; sni = none; payload = []; nips = none }

-- The completion of the only pending call.
pub finish : Services → Now → Op → State → State
finish lib now op (s, w) = complete lib now op no_error (record s { pending = [] }, w)

-- Every call of the chain up to the WebSocket handshake succeeds.
pub handshakes : Services → Now → State → State
handshakes lib now st =
    finish lib now ws (finish lib now tls (finish lib now connect (finish lib now resolve st)))

-- Then the relay shows as subscribed, and the REQ and the NIP-11 fetch are under way. The flag
-- `stopped` is not asked.
pub handshakes_lem :
    (lib : Services) (now : Now) (st : State)
    → ((handshakes lib now st).0.ws_connected ≡ true)
      × ((handshakes lib now st).0.stopped ≡ (st.0).stopped)
      × ((handshakes lib now st).0.reconnect_attempt ≡ 0)
      × (status_of (st.0).relay_url (handshakes lib now st).1 ≡ some subscribed)
unfolding handshakes finish complete on_resolve on_connect on_tls_handshake on_ws_handshake begin
handshakes_lem lib now (s, w) = (refl, refl, refl, status_of-report now subscribed [] s _)

-- They are steps that the environment may take.
handshakes-Steps :
    (lib : Services) (now : Now) (s : Session) (w : Shared)
    → s.pending ≡ resolve ∷ []
    → Steps lib (s, w) (handshakes lib now (s, w))
unfolding handshakes finish complete on_resolve on_connect on_tls_handshake on_ws_handshake begin
handshakes-Steps lib now s w p =
    next
      (next
        (next (next here (completes now resolve no_error [] [] p refl))
          (completes now connect no_error [] [] refl refl))
        (completes now tls no_error [] [] refl refl))
      (completes now ws no_error [] [] refl refl)

start_parsed_secure :
    (lib : Services) (now : Now) (s : Session) (w : Shared)
    → s.parsed_relay.secure ≡ true
    → is_empty s.parsed_relay.host ≡ false
    → ((start_parsed lib now (s, w)).0 ≡ begin resolve s)
      × (status_of s.relay_url (start_parsed lib now (s, w)).1 ≡ some resolving)
unfolding start_parsed
start_parsed_secure lib now s w secure named = ground (
  arith,
  status_of-report now resolving [] s
      (ensure s (log now info (tagged s (codes "resolving host " ++ s.parsed_relay.host)) w)),
)

start_parsed_refuses :
    (lib : Services) (now : Now) (s : Session) (w : Shared)
    → (s.parsed_relay.secure ≡ false) ⊎ (s.parsed_relay.host ≡ [])
    → ((start_parsed lib now (s, w)).0 ≡ s)
      × (status_of s.relay_url (start_parsed lib now (s, w)).1 ≡ some RelayStatus.error)
unfolding start_parsed
start_parsed_refuses lib now s w h =
    let bad = report now RelayStatus.error (codes "invalid relay URL") s (ensure s w) in
    let plain = report now RelayStatus.error (codes "unsupported ws:// relay URL") s (ensure s w) in
    ground (
      arith,
      status_of-report now RelayStatus.error (codes "invalid relay URL") s (ensure s w),
      status_of-report now RelayStatus.error (codes "unsupported ws:// relay URL") s (ensure s w),
      status_of-log s.relay_url now error (tagged s (codes "invalid relay URL")) bad,
      status_of-log s.relay_url now warn
          (tagged s (codes "ws:// relay URLs are not supported yet; skipping session")) plain,
    )

parsed_or_empty_refused :
    (url : Text)
    → (parse_relay_url url ≡ none)
      ⊎ ((parsed : ParsedRelayUrl) × (parse_relay_url url ≡ some parsed) × (parsed.secure ≡ false))
    → ((parsed_or_empty url).secure ≡ false) ⊎ ((parsed_or_empty url).host ≡ [])
unfolding parsed_or_empty
parsed_or_empty_refused url (inl e) = inr (rw (e, parsed_or_empty) refl)
parsed_or_empty_refused url (inr (parsed, e, insecure)) = inl (rw (e, parsed_or_empty) insecure)

parsed_or_empty-some :
    (url : Text) (parsed : ParsedRelayUrl)
    → parse_relay_url url ≡ some parsed
    → parsed_or_empty url ≡ parsed
unfolding parsed_or_empty
parsed_or_empty-some url parsed e = rw (e, parsed_or_empty)

start-parsed :
    (lib : Services) (now : Now) (s : Session) (w : Shared) (parsed : ParsedRelayUrl)
    → parse_relay_url s.relay_url ≡ some parsed
    → start lib now (s, w)
      ≡ start_parsed lib now (record s { stopped = false; parsed_relay = parsed }, w)
unfolding start
start-parsed lib now s w parsed e =
    ap (λ q. start_parsed lib now (record s { stopped = false; parsed_relay = q }, w))
      (parsed_or_empty-some s.relay_url parsed e)

-- A session with no pending call and a parsed wss URL with a host: `Start` leaves one call, to
-- resolve the host, unstops the session and shows it as resolving; and when the resolve, connect,
-- TLS and WebSocket calls then succeed in turn, which are steps the session can take, it shows as
-- subscribed.
pub start-handshakes :
    (lib : Services) (now : Now) (s : Session) (w : Shared) (parsed : ParsedRelayUrl)
    → s.pending ≡ []
    → parse_relay_url s.relay_url ≡ some parsed
    → parsed.secure ≡ true
    → is_empty parsed.host ≡ false
    → let st = start lib now (s, w) in
      ((st.0).pending ≡ resolve ∷ [])
      × ((st.0).stopped ≡ false)
      × (status_of s.relay_url st.1 ≡ some resolving)
      × (status_of s.relay_url (handshakes lib now st).1 ≡ some subscribed)
      × Steps lib st (handshakes lib now st)
unfolding begin
start-handshakes lib now s w parsed p e secure named =
    let begun : Session = record s { stopped = false; parsed_relay = parsed } in
    let r = start_parsed_secure lib now begun w secure named in
    rw (start-parsed lib now s w parsed e) (go (start_parsed lib now (begun, w)) r.0 r.1)
  where
    go :
        (st : State)
        → st.0 ≡ begin resolve (record s { stopped = false; parsed_relay = parsed })
        → status_of s.relay_url st.1 ≡ some resolving
        → ((st.0).pending ≡ resolve ∷ [])
          × ((st.0).stopped ≡ false)
          × (status_of s.relay_url st.1 ≡ some resolving)
          × (status_of s.relay_url (handshakes lib now st).1 ≡ some subscribed)
          × Steps lib st (handshakes lib now st)
    go (t, u) q h =
        let pending : t.pending ≡ resolve ∷ [] = rw q (rw p refl) in
        let url : t.relay_url ≡ s.relay_url = rw q refl in
        (
          pending,
          rw q refl,
          h,
          subst (λ k. status_of k (handshakes lib now (t, u)).1 ≡ some subscribed) url
              (handshakes_lem lib now (t, u)).3,
          handshakes-Steps lib now t u pending,
        )

Steps-append : {lib : Services} {st u v : State} → Steps lib st u → Steps lib u v → Steps lib st v
Steps-append r here = r
Steps-append r (next t s) = next (Steps-append r t) s

-- If the URL is not parsed, or is parsed as not secure, `Start` begins no call and shows the relay
-- in error.
pub start_refuses :
    (lib : Services) (now : Now) (s : Session) (w : Shared)
    → (parse_relay_url s.relay_url ≡ none)
      ⊎ ((parsed : ParsedRelayUrl) × (parse_relay_url s.relay_url ≡ some parsed)
          × (parsed.secure ≡ false))
    → let st = start lib now (s, w) in
      ((st.0).pending ≡ s.pending) × (status_of s.relay_url st.1 ≡ some RelayStatus.error)
unfolding start
start_refuses lib now s w h =
    let q = parsed_or_empty s.relay_url in
    let r =
      start_parsed_refuses lib now (record s { stopped = false; parsed_relay = q }) w
        (parsed_or_empty_refused s.relay_url h) in
    (ap (λ t. t.pending) r.0, r.1)

stop_lem :
    (lib : Services) (now : Now) (s : Session) (w : Shared)
    → s.ws_connected ≡ false
    → ((stop lib now (s, w)).0 ≡ record s { stopped = true })
      × (status_of s.relay_url (stop lib now (s, w)).1 ≡ some disconnected)
unfolding stop
stop_lem lib now s w h = ground (arith, status_of-report now disconnected [] s w)

-- A session that waits for the resolver and is stopped can still take the steps of all handshakes,
-- and ends stopped yet connected and shown as subscribed.
pub stop-handshakes :
    (lib : Services) (now : Now) (s : Session) (w : Shared)
    → s.ws_connected ≡ false
    → s.pending ≡ resolve ∷ []
    → let st = handshakes lib now (stop lib now (s, w)) in
      Steps lib (s, w) st
      × ((st.0).stopped ≡ true)
      × ((st.0).ws_connected ≡ true)
      × (status_of s.relay_url st.1 ≡ some subscribed)
stop-handshakes lib now s w h p =
    let stopped = stop lib now (s, w) in
    let e : stopped.0 ≡ record s { stopped = true } = (stop_lem lib now s w h).0 in
    let r = handshakes_lem lib now stopped in
    (
      Steps-append (next here (stops now refl))
          (handshakes-Steps lib now stopped.0 stopped.1 (rw e p)),
      r.1 ∙ ap (λ t. t.stopped) e,
      r.0,
      subst (λ k. status_of k (handshakes lib now stopped).1 ≡ some subscribed)
          (ap (λ t. t.relay_url) e) r.3,
    )
