-- ===== src/Net/RelayTarget.antt =====
-- src/net/relay_target.cpp: relay URLs.
pub mod Laws
use monitostr.Prelude.{
  ℕ, suc, ◌+◌, Bool, true, false, ◌||◌, List, [], ◌∷◌, ◌++◌, Option, none, some, Text, codes,
  starts_with, take, drop, ◌==◌, if◌then◌else◌, ◌≡◌, refl,
}

pub record RelayHostTarget : Type 0 where
  pub host : Text
  pub target : Text

pub record ParsedRelayUrl : Type 0 where
  pub secure : Bool
  pub host : Text
  pub port : Text
  pub target : Text

-- `find_first_of` for the bytes that pass the test: the position of the first one.
unfoldable pub find_first : (ℕ → Bool) → Text → Option ℕ
find_first p [] = none
find_first p (c ∷ s) =
    let rest : Option ℕ = elim (find_first p s) [ none ↦ none | some i ↦ some (suc i) ] in
    if p c then some 0 else rest

unfoldable pub is_target_start : ℕ → Bool
is_target_start c = c == b'/' || c == b'?'

pub is_question : Text → Bool
is_question [] = false
is_question (c ∷ s) = c == b'?'

unfoldable pub split_relay_host_and_target : Text → RelayHostTarget
unfolding find_first is_target_start is_question
split_relay_host_and_target relay = elim (find_first is_target_start relay) [
  | none ↦ record { host = relay; target = codes "/" }
  | some target_pos ↦
      if is_question (drop target_pos relay)
      then record { host = take target_pos relay; target = b'/' ∷ drop target_pos relay }
      else record { host = take target_pos relay; target = drop target_pos relay }
]

-- `parsed.host.find(':')` and the split of the port that follows.
unfoldable pub split_port : ParsedRelayUrl → ParsedRelayUrl
unfolding find_first
split_port parsed = elim (find_first (λ c. c == b':') parsed.host) [
  | none ↦ parsed
  | some colon ↦ record parsed {
    port = drop (colon + 1) parsed.host;
    host = take colon parsed.host;
  }
]

-- What follows the scheme.
unfoldable pub parse_rest : Bool → Text → Text → Option ParsedRelayUrl
parse_rest secure port value =
    let host_target = split_relay_host_and_target value in
    let parsed = split_port (record {
      secure = secure;
      host = host_target.host;
      port = port;
      target = host_target.target;
    }) in
    elim parsed.host [ [] ↦ none | c ∷ rest ↦ some parsed ]

unfoldable pub parse_relay_url : Text → Option ParsedRelayUrl
parse_relay_url relay_url =
    if starts_with relay_url (codes "wss://")
    then parse_rest true (codes "443") (drop 6 relay_url)
    else if starts_with relay_url (codes "ws://")
    then parse_rest false (codes "80") (drop 5 relay_url)
    else none
