-- ===== src/Net/RelaySession/Table.antt =====
-- The handlers of src/net/relay_session.cpp on the relay table.
use monitostr.Prelude.{
  ℕ, codes, subst, sym, Bool, true, false, List, Option, none, some, Text, ℤ, Option-cases, inl,
  inr, [], ◌∷◌, ◌++◌, if◌then◌else◌, not, is_empty,
}
use monitostr.Model.RelayStats.{RelayStats, RelayStatus, set_status, ensure_relay}
use monitostr.Model.RelayStats.Invariant.{
  Inv, step-Inv, ensures, sets_status, records_latency, increments_event, sets_nips, step,
}
use monitostr.Net.Services.{Services}
use monitostr.Net.SessionSupport.{
  RelayMessageEffect, ignore, auth_challenge, event_count, end_of_stored_events,
  parse_relay_message_effect,
}
use monitostr.Nostr.AuthKey.{AuthKey}
use monitostr.Net.RelaySession.{
  Op, resolve, connect, tls, ws, read, close, fetch_nips, write_req, auth_write, timer, Shared, Now,
  ErrorCode, State, log, report, ensure, set_auth_key,
}
use monitostr.Net.RelaySession.Handlers.{
  start_parsed, start, stop, schedule_reconnect, mark_error, on_resolve, on_connect,
  on_tls_handshake, on_ws_handshake, on_fetch_nips, on_write_req, auth_answer, answer_with,
  on_auth_challenge, on_auth_written, handle_effect, handle_message, read_on, on_read, on_close,
  on_timer,
}
use monitostr.Net.RelaySession.Steps.{Outcome, complete, Step, completes, stops, takes_key}

abbrev pub Tabled : Shared → Type 0
Tabled w = Inv w.stats

set_status-Inv :
    (now : ℕ) (url : Text) (status : RelayStatus) (message : Text) (m : RelayStats)
    → Inv m
    → Inv (set_status now url status message m)
unfolding step
set_status-Inv now url status message m h = step-Inv m (sets_status now url status message) h

ensure_relay-Inv : (url : Text) (m : RelayStats) → Inv m → Inv (ensure_relay url m)
unfolding step
ensure_relay-Inv url m h = step-Inv m (ensures url) h

if-Tabled : (b : Bool) (x y : State) → Tabled x.1 → Tabled y.1 → Tabled (if b then x else y).1
if-Tabled true x y h k = h
if-Tabled false x y h k = k

module _ (lib : Services) (now : Now) where
  start_parsed-Tabled : (st : State) → Tabled st.1 → Tabled (start_parsed lib now st).1
  unfolding start_parsed log report ensure
  start_parsed-Tabled (s, w) h =
      let e = ensure_relay-Inv s.relay_url w.stats h in
      if-Tabled (is_empty s.parsed_relay.host) _ _ (set_status-Inv _ _ _ _ _ e) (
        if-Tabled (not s.parsed_relay.secure) _ _ (set_status-Inv _ _ _ _ _ e)
          (set_status-Inv _ _ _ _ _ e))

  pub start-Tabled : (st : State) → Tabled st.1 → Tabled (start lib now st).1
  unfolding start
  start-Tabled (s, w) h = start_parsed-Tabled _ h

  pub stop-Tabled : (st : State) → Tabled st.1 → Tabled (stop lib now st).1
  unfolding stop report
  stop-Tabled (s, w) h = if-Tabled s.ws_connected _ _ h (set_status-Inv _ _ _ _ _ h)

  mark_error-Tabled :
      (stage message : Text) (st : State)
      → Tabled st.1
      → Tabled (mark_error lib now stage message st).1
  unfolding mark_error schedule_reconnect log report
  mark_error-Tabled stage message (s, w) h =
      let r =
        set_status-Inv now.steady s.relay_url RelayStatus.error (stage ++ codes ": " ++ message)
          w.stats h in
      if-Tabled _ _ _ r r

  auth_answer-Tabled :
      (text : Text) (st : State) → Tabled st.1 → Tabled (auth_answer lib now text st).1
  unfolding auth_answer log
  auth_answer-Tabled [] (s, w) h = h
  auth_answer-Tabled (c ∷ text) (s, w) h = elim (Option-cases (lib.parse (c ∷ text))) [
    | inl e ↦ rw (e, auth_answer) h
    | inr (json, e) ↦ rw (e, auth_answer) h
  ]

  answer_with-Tabled :
      (key : Option AuthKey) (challenge : Text) (st : State)
      → Tabled st.1
      → Tabled (answer_with lib now key challenge st).1
  unfolding answer_with log
  answer_with-Tabled none challenge (s, w) h = h
  answer_with-Tabled (some key) challenge (s, w) h = auth_answer-Tabled _ (s, _) h

  handle_effect-Tabled :
      (effect : RelayMessageEffect) (st : State)
      → Tabled st.1
      → Tabled (handle_effect lib now effect st).1
  unfolding handle_effect on_auth_challenge log step
  handle_effect-Tabled ignore st h = h
  handle_effect-Tabled (auth_challenge challenge) (s, w) h =
      answer_with-Tabled s.auth_key challenge (s, w) h
  handle_effect-Tabled event_count (s, w) h = step-Inv w.stats (increments_event s.relay_url) h
  handle_effect-Tabled end_of_stored_events (s, w) h =
      step-Inv w.stats (records_latency s.relay_url _) h

  on_read-Tabled :
      (error : ErrorCode) (payload : Text) (st : State)
      → Tabled st.1
      → Tabled (on_read lib now error payload st).1
  unfolding on_read handle_message read_on
  on_read-Tabled (some message) payload st h = mark_error-Tabled _ message st h
  on_read-Tabled none payload st h =
      let r = handle_effect-Tabled (parse_relay_message_effect lib payload) st h in
      if-Tabled _ _ _ r r

  on_connect-Tabled :
      (error sni : ErrorCode) (st : State)
      → Tabled st.1
      → Tabled (on_connect lib now error sni st).1
  unfolding on_connect log report
  on_connect-Tabled (some message) sni st h = mark_error-Tabled _ message st h
  on_connect-Tabled none (some message) (s, w) h =
      mark_error-Tabled (codes "set_sni") message (s, _) h
  on_connect-Tabled none none (s, w) h = set_status-Inv _ _ _ _ _ h

  on_resolve-Tabled :
      (error : ErrorCode) (st : State) → Tabled st.1 → Tabled (on_resolve lib now error st).1
  unfolding on_resolve log report
  on_resolve-Tabled (some message) st h = mark_error-Tabled (codes "resolve") message st h
  on_resolve-Tabled none (s, w) h = set_status-Inv _ _ _ _ _ h

  on_tls_handshake-Tabled :
      (error : ErrorCode) (st : State) → Tabled st.1 → Tabled (on_tls_handshake lib now error st).1
  unfolding on_tls_handshake log report
  on_tls_handshake-Tabled (some message) st h =
      mark_error-Tabled (codes "tls_handshake") message st h
  on_tls_handshake-Tabled none (s, w) h = set_status-Inv _ _ _ _ _ h

  on_ws_handshake-Tabled :
      (error : ErrorCode) (st : State) → Tabled st.1 → Tabled (on_ws_handshake lib now error st).1
  unfolding on_ws_handshake log report
  on_ws_handshake-Tabled (some message) st h = mark_error-Tabled (codes "ws_handshake") message st h
  on_ws_handshake-Tabled none (s, w) h = set_status-Inv _ _ _ _ _ h

  on_write_req-Tabled :
      (error : ErrorCode) (st : State) → Tabled st.1 → Tabled (on_write_req lib now error st).1
  unfolding on_write_req log report
  on_write_req-Tabled (some message) st h = mark_error-Tabled (codes "write_req") message st h
  on_write_req-Tabled none (s, w) h = h

  on_auth_written-Tabled :
      (error : ErrorCode) (st : State) → Tabled st.1 → Tabled (on_auth_written lib now error st).1
  unfolding on_auth_written log
  on_auth_written-Tabled (some message) (s, w) h = h
  on_auth_written-Tabled none (s, w) h = h

  on_fetch_nips-Tabled :
      (nips : Option (List ℤ)) (st : State) → Tabled st.1 → Tabled (on_fetch_nips lib now nips st).1
  unfolding on_fetch_nips log step
  on_fetch_nips-Tabled none st h = h
  on_fetch_nips-Tabled (some nips) (s, w) h =
      if-Tabled s.stopped _ _ h (step-Inv w.stats (sets_nips s.relay_url nips) h)

  on_timer-Tabled :
      (error : ErrorCode) (st : State) → Tabled st.1 → Tabled (on_timer lib now error st).1
  unfolding on_timer report
  on_timer-Tabled (some message) st h = h
  on_timer-Tabled none (s, w) h = if-Tabled s.stopped _ _ h (set_status-Inv _ _ _ _ _ h)

  complete-Tabled :
      (op : Op) (o : Outcome) (st : State) → Tabled st.1 → Tabled (complete lib now op o st).1
  unfolding complete on_close report
  complete-Tabled resolve o st h = on_resolve-Tabled o.error st h
  complete-Tabled connect o st h = on_connect-Tabled o.error o.sni st h
  complete-Tabled tls o st h = on_tls_handshake-Tabled o.error st h
  complete-Tabled ws o st h = on_ws_handshake-Tabled o.error st h
  complete-Tabled read o st h = on_read-Tabled o.error o.payload st h
  complete-Tabled close o (s, w) h = set_status-Inv _ _ _ _ _ h
  complete-Tabled fetch_nips o st h = on_fetch_nips-Tabled o.nips st h
  complete-Tabled (write_req text) o st h = on_write_req-Tabled o.error st h
  complete-Tabled (auth_write text) o st h = on_auth_written-Tabled o.error st h
  complete-Tabled (timer delay) o st h = on_timer-Tabled o.error st h

-- Every handler of a session keeps the table well formed.
pub Step-Tabled :
    (lib : Services) {before after : State}
    → Step lib before after
    → Tabled before.1
    → Tabled after.1
unfolding set_auth_key
Step-Tabled lib {before} (completes now op o xs ys p e) h =
    subst (λ (st : State). Tabled st.1) (sym e)
      (complete-Tabled lib now op o (record (before.0) { pending = xs ++ ys }, before.1) h)
Step-Tabled lib {before} (stops now e) h =
    subst (λ (st : State). Tabled st.1) (sym e) (stop-Tabled lib now before h)
Step-Tabled lib {before} (takes_key key e) h = subst (λ (st : State). Tabled st.1) (sym e) h
