-- ===== src/Net/SessionSupport.antt =====
-- src/net/relay_session_support.cpp and include/monitostr/net/relay_session_support.hpp.
pub mod Reconnect
pub mod Nips
use Prim.Native.Nat.{bit_xor}
use monitostr.Prelude.{
  ℕ, zero, suc, ◌+◌, ◌-◌, ◌*◌, ◌%◌, ◌^◌, min, Bool, true, false, not, ◌||◌, List, [], ◌∷◌, ◌++◌,
  Option, none, some, Text, codes, text_eq, leb, ltb, if◌then◌else◌, ℤ, pos, ltb_ℤ, eq_ℤ, sort,
  unique,
}
use monitostr.Net.Json.{
  Json, Items, Fields, integer, string, array, object, nil, item, end, field, member, to_int,
}
use monitostr.Net.Services.{Services}

abbrev pub max_reconnect_attempts : ℕ
max_reconnect_attempts = 6

pub data RelayMessageEffect : Type 0 where
  ignore : RelayMessageEffect
  auth_challenge : Text → RelayMessageEffect
  event_count : RelayMessageEffect
  end_of_stored_events : RelayMessageEffect

unfoldable pub monitor_req : Text → Json
monitor_req hex_pubkey =
    let filter = object (
      field (codes "authors") (array (item (string hex_pubkey) nil)) (
        field (codes "kinds") (array (item (integer (pos 1)) nil))
          (field (codes "limit") (integer (pos 1)) end))) in
    array (item (string (codes "REQ")) (item (string (codes "monitostr-sub")) (item filter nil)))

unfoldable pub build_monitor_req_message : Services → Text → Text
unfolding monitor_req
build_monitor_req_message lib hex_pubkey = lib.dump (monitor_req hex_pubkey)

-- The tests on `kind` after the first element is known to be a string.
effect_of_kind : Text → Items → RelayMessageEffect
effect_of_kind kind (item (string challenge) rest) =
    if text_eq kind (codes "AUTH")
    then auth_challenge challenge
    else if text_eq kind (codes "EVENT")
    then event_count
    else if text_eq kind (codes "EOSE")
    then end_of_stored_events
    else ignore
effect_of_kind kind _ =
    if text_eq kind (codes "EVENT")
    then event_count
    else if text_eq kind (codes "EOSE")
    then end_of_stored_events
    else ignore

effect_of_json : Json → RelayMessageEffect
unfolding effect_of_kind
effect_of_json (array (item (string kind) rest)) = effect_of_kind kind rest
effect_of_json _ = ignore

unfoldable pub parse_relay_message_effect : Services → Text → RelayMessageEffect
unfolding effect_of_json
parse_relay_message_effect lib payload = elim (lib.parse payload) [
  | none ↦ ignore
  | some parsed ↦ effect_of_json parsed
]

unfoldable pub should_reconnect_attempt : Bool → ℕ → Text → Bool
should_reconnect_attempt stopped reconnect_attempt where' =
    if stopped || leb max_reconnect_attempts reconnect_attempt
    then false
    else if text_eq where' (codes "ws_handshake") || text_eq where' (codes "set_sni")
    then false
    else text_eq where' (codes "read")
      || text_eq where' (codes "resolve")
      || text_eq where' (codes "connect")
      || text_eq where' (codes "tls_handshake")
      || text_eq where' (codes "write_req")

pub integers_of : Items → List ℤ
integers_of nil = []
integers_of (item (integer n) rest) = to_int n ∷ integers_of rest
integers_of (item value rest) = integers_of rest

advertised : Option Json → List ℤ
unfolding integers_of
advertised (some (array values)) = integers_of values
advertised other = []

unfoldable pub parse_supported_nips_from_nip11_body : Services → Text → List ℤ
unfolding advertised
parse_supported_nips_from_nip11_body lib response_body =
    let nips : List ℤ = elim (lib.parse response_body) [
      | none ↦ []
      | some json ↦ advertised (member (codes "supported_nips") json)
    ] in
    unique eq_ℤ (sort ltb_ℤ nips)

unfoldable pub backoff_exponent : ℕ → ℕ
backoff_exponent reconnect_attempt =
    min (if ltb 0 reconnect_attempt then reconnect_attempt - 1 else 0) 8

-- `unsigned` arithmetic, 32 bits.
unfoldable pub compute_reconnect_delay_ms : Services → Text → ℕ → ℕ → ℕ
compute_reconnect_delay_ms lib relay_url reconnect_attempt entropy =
    let base_ms = 500 * 2 ^ backoff_exponent reconnect_attempt % 2 ^ 32 in
    let seed = bit_xor (lib.hash relay_url) entropy % 2 ^ 32 in
    min 30000 ((base_ms + lib.jitter seed) % 2 ^ 32)
