-- ===== src/Examples/Sessions.antt =====
-- Instances of the theorems on relay sessions.
use monitostr.Prelude.{
  map, All, ℕ, ◌+◌, ◌-◌, ◌*◌, ◌%◌, ◌^◌, ◌≤◌, ◌<◌, ◌≡◌, ◌≢◌, ◌↔◌, ◌⊎◌, inl, inr, refl, Bool, true,
  false, List, [], ◌∷◌, ◌++◌, Option, none, some, Text, codes, arith, ℤ, ltb_ℤ, Has,
  IsStrictlySorted,
}
use monitostr.Model.RelayStats.{disconnected, reset, resolving, subscribed}
use monitostr.Net.Json.{Json, array, nil}
use monitostr.Net.SessionSupport.{parse_supported_nips_from_nip11_body, compute_reconnect_delay_ms}
use monitostr.Net.SessionSupport.Reconnect.{delay_window}
use monitostr.Net.SessionSupport.Nips.{Lists, parse_supported_nips_lem}
use monitostr.Net.RelayTarget.{ParsedRelayUrl, parse_relay_url}
use monitostr.Net.RelaySession.{Shared, resolve, read, auth_write, State}
use monitostr.Net.RelaySession.Handlers.{start, stop, auth_message}
use monitostr.Net.RelaySession.Steps.{
  Outcome, complete, Move, complete-Move, Steps, here, next, completes,
}
use monitostr.Net.RelaySession.Budget.{InBudget, Steps-InBudget}
use monitostr.Net.RelaySession.Chain.{total, link, Steps-link}
use monitostr.Net.RelaySession.Stopping.{cost, Completions, none_yet, one_more, stopped_winds_down}
use monitostr.Net.RelaySession.Connecting.{
  status_of, handshakes, no_error, start-handshakes, stop-handshakes,
}
use monitostr.Net.RelaySession.Challenge.{IsChallenge, Signs, challenges_overlap}
use monitostr.Net.SessionManager.{SessionManager, stop_all}
use monitostr.Net.SessionManager.Reset.{reset-stop_all}
use monitostr.Examples.Fixtures.{
  services, now, relay, key, session, shared, challenge_json, nip_values, nip11_json,
}

-- The resolver answers a session that waits for it.
abbrev resolved : State
resolved = complete services now resolve no_error (session [], shared)

to_resolved : Steps services (session (resolve ∷ []), shared) resolved
to_resolved = next here (completes now resolve no_error [] [] refl refl)

Steps-InBudget_example : InBudget (resolved.0)
Steps-InBudget_example =
    Steps-InBudget services {st = (session (resolve ∷ []), shared)} {u = resolved} (omega arith)
      to_resolved

one_call : total link (resolve ∷ []) ≤ 1
unfolding total link
one_call = omega arith

Steps-link_example : total link (resolved.0).pending ≤ 1
Steps-link_example =
    Steps-link services {st = (session (resolve ∷ []), shared)} {u = resolved} one_call to_resolved

complete-Move_example :
    Move resolve (session []) (complete services now resolve no_error (session [], shared)).0
complete-Move_example = complete-Move services now resolve no_error (session [], shared)

-- A session that was stopped while it resolved, and the resolver's last word.
abbrev halted : State
halted = (record (session (resolve ∷ [])) { stopped = true }, shared)

abbrev aborted : Outcome
aborted = record { error = some (codes "aborted"); sni = none; payload = []; nips = none }

abbrev wound_down : State
wound_down = complete services now resolve aborted (record (session []) { stopped = true }, shared)

to_wound_down : Completions services halted 1 wound_down
to_wound_down = one_more now resolve aborted [] [] none_yet refl

stopped_winds_down_example :
    ((wound_down.0).stopped ≡ true)
    × (1 + total cost (wound_down.0).pending ≤ total cost ((halted.0).pending))
stopped_winds_down_example =
    stopped_winds_down services {st = halted} {n = 1} {u = wound_down} refl to_wound_down

relay_parses : parse_relay_url (codes "wss://relay.example") ≡ some relay
unfolding parse_relay_url monitostr.Prelude.starts_with monitostr.Net.RelayTarget.parse_rest
    monitostr.Net.RelayTarget.split_port monitostr.Net.RelayTarget.split_relay_host_and_target
relay_parses = refl

start-handshakes_example :
    let st = start services now (session [], shared) in
    ((st.0).pending ≡ resolve ∷ [])
    × ((st.0).stopped ≡ false)
    × (status_of (codes "wss://relay.example") st.1 ≡ some resolving)
    × (status_of (codes "wss://relay.example") (handshakes services now st).1 ≡ some subscribed)
    × Steps services st (handshakes services now st)
start-handshakes_example =
    start-handshakes services now (session []) shared relay refl relay_parses refl refl

stop-handshakes_example :
    let st = handshakes services now (stop services now (session (resolve ∷ []), shared)) in
    Steps services (session (resolve ∷ []), shared) st
    × ((st.0).stopped ≡ true)
    × ((st.0).ws_connected ≡ true)
    × (status_of (codes "wss://relay.example") st.1 ≡ some subscribed)
stop-handshakes_example = stop-handshakes services now (session (resolve ∷ [])) shared refl refl

challenged : IsChallenge services (codes "[]") (codes "c1")
challenged = (nil, refl)

signed : Signs services now (session (read ∷ [])) key (codes "c1") challenge_json
unfolding monitostr.Nostr.Signer.build_auth_event
signed = (b'{', codes "}", refl, refl)

challenges_overlap_example :
    let message = auth_message services now challenge_json in
    (st : State) × Steps services (session (read ∷ []), shared) st
    × ((st.0).pending ≡ read ∷ auth_write message ∷ auth_write message ∷ [])
challenges_overlap_example =
    challenges_overlap services now (session (read ∷ [])) shared key (codes "[]") (codes "c1")
      challenge_json refl refl refl challenged signed

bounded : (seed : ℕ) → seed % 251 ≤ 250
bounded seed = omega arith

delay_window_example :
    (500 * 2 ^ (3 - 1) ≤ compute_reconnect_delay_ms services (codes "wss://a") 3 77)
    × (compute_reconnect_delay_ms services (codes "wss://a") 3 77 ≤ 500 * 2 ^ (3 - 1) + 250)
delay_window_example =
    delay_window services (codes "wss://a") bounded 3 77 (omega arith) (omega arith)

advertises : monitostr.Net.Json.member (codes "supported_nips") nip11_json ≡ some (array nip_values)
unfolding monitostr.Net.Json.member monitostr.Prelude.text_eq
advertises = refl

parse_supported_nips_lem_example :
    IsStrictlySorted ltb_ℤ (parse_supported_nips_from_nip11_body services (codes "x"))
    × ((n : ℤ)
        → Has n (parse_supported_nips_from_nip11_body services (codes "x")) ↔ Lists nip_values n)
parse_supported_nips_lem_example =
    parse_supported_nips_lem services (codes "x") nip11_json nip_values refl advertises

-- A manager with one session that still resolves.
abbrev manager : SessionManager
manager = record { sessions = session (resolve ∷ []) ∷ []; retired = []; shared = shared }

reset-stop_all_example :
    let cleared : Shared = record shared { stats = reset shared.stats } in
    (status_of (codes "wss://relay.example") cleared ≡ none)
    × (status_of
          (codes "wss://relay.example")
          (stop_all services now (record manager { shared = cleared })).shared
        ≡ some disconnected)
reset-stop_all_example =
    reset-stop_all services now manager (session (resolve ∷ [])) (inl refl) refl
