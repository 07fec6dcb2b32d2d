-- ===== src/Net/Bootstrap.antt =====
-- src/net/bootstrap_client.cpp. What the network does in one query of a seed relay is a `Seed`; the
-- clock of the log is one reading per query.
pub mod Filter
pub mod RelayList
pub mod Lists
pub mod Usable
use monitostr.Prelude.{
  ℕ, suc, ◌+◌, Bool, true, false, not, ◌&&◌, ◌||◌, List, [], ◌∷◌, ◌++◌, Option, none, some, Text,
  codes, text_eq, starts_with, to_string, is_empty, length, ltb, if◌then◌else◌, pos, ◌≡◌, refl,
}
use monitostr.Model.LogBuffer.{LogBuffer, LogLevel, info, warn, error, note}
use monitostr.Net.Json.{
  Json, Items, Fields, array, object, string, integer, nil, item, end, field, member,
}
use monitostr.Net.Services.{Services}
use monitostr.Net.RelayTarget.{ParsedRelayUrl, parse_relay_url}
use monitostr.Net.Bootstrap.RelayList.{
  extract_relay_urls_from_event, deduplicate, filter_supported_relay_urls,
}

-- The REQ of a query.
unfoldable pub query_request : Text → ℕ → Text → Json
query_request hex_pubkey kind sub_id =
    let filter = object (
      field (codes "authors") (array (item (string hex_pubkey) nil)) (
        field (codes "kinds") (array (item (integer (pos kind)) nil))
          (field (codes "limit") (integer (pos 20)) end))) in
    array (item (string (codes "REQ")) (item (string sub_id) (item filter nil)))

-- `message[1] == sub_id` and `message[2]` an object.
event_relays : Services → Text → Items → List Text
event_relays lib sub_id (item (string id) (item (object fields) rest)) =
    if text_eq id sub_id then extract_relay_urls_from_event lib (object fields) else []
event_relays lib sub_id _ = []

unfoldable pub message_relays : Services → Text → Json → List Text
unfolding event_relays
message_relays lib sub_id (array (item (string kind) rest)) =
    if text_eq kind (codes "EVENT") then event_relays lib sub_id rest else []
message_relays lib sub_id _ = []

unfoldable pub ends_query : Text → Json → Bool
ends_query sub_id (array (item (string kind) (item (string id) rest))) =
    text_eq kind (codes "EOSE") && text_eq id sub_id
ends_query sub_id _ = false

-- The loop of QueryKindWithWs over the payloads that are read before its time is up.
unfoldable pub query_loop : Services → Text → List Text → List Text
unfolding message_relays ends_query
query_loop lib sub_id [] = []
query_loop lib sub_id (payload ∷ payloads) = elim (lib.parse payload) [
  | none ↦ query_loop lib sub_id payloads
  | some message ↦
      message_relays lib sub_id message
      ++ (elim (ends_query sub_id message) [ true ↦ [] | false ↦ query_loop lib sub_id payloads ])
]

unfoldable pub query_kind_with_ws : Services → Text → List Text → List Text
unfolding query_loop
query_kind_with_ws lib sub_id payloads = deduplicate (query_loop lib sub_id payloads)

pub record BootstrapResult : Type 0 where
  pub ok : Bool
  pub error : Text
  pub source_event_kind : Text
  pub relay_urls : List Text

-- What one query of a seed relay meets: an exception of some call, a failure of the SNI call (of a
-- secure seed only), or the payloads read for kind 10002 and for kind 3.
pub data Seed : Type 0 where
  throws : Text → Seed
  no_sni : Seed
  answers : List Text → List Text → Seed

-- An exception leaves QuerySeedRelay, or it returns.
pub data Queried : Type 0 where
  thrown : Text → Queried
  returned : BootstrapResult → Option LogBuffer → Queried

unfoldable pub failed : Text → BootstrapResult
failed message = record { ok = false; error = message; source_event_kind = []; relay_urls = [] }

-- The result of the queries for the two kinds.
unfoldable pub of_kinds : List Text → List Text → BootstrapResult
of_kinds first second =
    if not (is_empty first)
    then record { ok = true; error = []; source_event_kind = codes "10002"; relay_urls = first }
    else if not (is_empty second)
    then record { ok = true; error = []; source_event_kind = codes "3"; relay_urls = second }
    else record {
      ok = false;
      error = codes "no relay list found in kinds 10002/3";
      source_event_kind = codes "none";
      relay_urls = [];
    }

unfoldable pub fallback_urls : Text → List Text
fallback_urls seed_relay_url =
    seed_relay_url ∷ codes "wss://nos.lol" ∷ codes "wss://relay.snort.social" ∷ []

-- The end of QuerySeedRelay.
unfoldable pub settle : Text → Text → BootstrapResult → Option LogBuffer → Queried
unfolding filter_supported_relay_urls fallback_urls
settle now seed_relay_url result logs =
    let supported = filter_supported_relay_urls now result.relay_urls logs in
    let fallback = filter_supported_relay_urls now (fallback_urls seed_relay_url) supported.1 in
    if is_empty supported.0
    then returned
        (record result { ok = true; source_event_kind = codes "fallback"; relay_urls = fallback.0 })
        (note now warn (codes "Bootstrap query failed, using fallback relay set") fallback.1)
    else returned (record result { relay_urls = supported.0 }) supported.1

-- From the connection on.
unfoldable pub query_connected :
    Services → Text → Text → ParsedRelayUrl → Seed → Option LogBuffer → Queried
unfolding settle of_kinds query_kind_with_ws failed
query_connected lib now seed_relay_url parsed (throws message) logs = thrown message
query_connected lib now seed_relay_url parsed no_sni logs =
    if parsed.secure
    then returned (failed (codes "failed to set SNI")) logs
    else settle now seed_relay_url (of_kinds [] []) logs
query_connected lib now seed_relay_url parsed (answers first second) logs =
    settle now seed_relay_url
      (of_kinds (query_kind_with_ws lib (codes "bootstrap-10002") first)
        (query_kind_with_ws lib (codes "bootstrap-3") second))
      logs

unfoldable pub query_seed_relay : Services → Text → Text → Text → Seed → Option LogBuffer → Queried
unfolding query_connected failed
query_seed_relay lib now seed_relay_url hex_pubkey seed logs =
    if is_empty hex_pubkey
    then returned (failed (codes "empty hex pubkey")) logs
    else elim (parse_relay_url seed_relay_url) [
      | none ↦ returned (failed (codes "invalid seed relay url")) logs
      | some parsed ↦ query_connected lib now seed_relay_url parsed seed logs
    ]

unfoldable pub candidates : Text → List Text
candidates seed_relay_url =
    seed_relay_url
    ∷ codes "wss://nos.lol"
    ∷ codes "wss://relay.nostr.band"
    ∷ codes "wss://relay.snort.social"
    ∷ codes "wss://nostr.wine"
    ∷ codes "wss://relay.primal.net"
    ∷ []

-- The UTF-8 bytes of the dash in two log lines.
abbrev trying_next : Text
trying_next = 32 ∷ 0xe2 ∷ 0x80 ∷ 0x94 ∷ codes " trying next"

-- The loop over the candidates; `seeds` says what the query of each meets, by its index.
unfoldable pub try_candidates :
    Services
    → Text
    → Text
    → (ℕ → Seed)
    → ℕ
    → List Text
    → BootstrapResult
    → Option LogBuffer
    → BootstrapResult × Option LogBuffer
unfolding query_seed_relay
try_candidates lib now hex_pubkey seeds i [] result logs = (result, logs)
try_candidates lib now hex_pubkey seeds i (candidate ∷ rest) result logs =
    let logs' = note now info (codes "Bootstrap trying seed relay: " ++ candidate) logs in
    elim (query_seed_relay lib now candidate hex_pubkey (seeds i) logs') [
      | thrown message ↦
          try_candidates lib now hex_pubkey seeds (suc i) rest
            (record result { ok = false; error = message })
            (note now warn
              (codes "Bootstrap seed "
                ++ candidate
                ++ codes " exception: "
                ++ message
                ++ trying_next)
              logs')
      | returned result' logs'' ↦ elim result'.ok [
        | true ↦ (
          result',
          note now info
              (codes "Bootstrap succeeded via "
                ++ candidate
                ++ codes " [kind:"
                ++ result'.source_event_kind
                ++ codes "] | relays discovered: "
                ++ to_string (length result'.relay_urls))
              logs'',
        )
        | false ↦ try_candidates lib now hex_pubkey seeds (suc i) rest result' (
            note now warn
              (codes "Bootstrap seed "
                ++ candidate
                ++ codes " failed: "
                ++ result'.error
                ++ trying_next)
              logs'')
      ]
    ]

-- `if (!result.ok)`: the log line after the loop.
unfoldable pub announce :
    Text → BootstrapResult × Option LogBuffer → BootstrapResult × Option LogBuffer
announce now (result, logs) = (
  result,
  if result.ok
      then logs
      else note now error
          (codes "Bootstrap failed on all seed relays "
            ++ 0xe2 ∷ 0x80 ∷ 0x94 ∷ codes " using emergency fallback set")
          logs,
)

abbrev pub default_seed_relay_url : Text
default_seed_relay_url = codes "wss://relay.damus.io"

-- The line that ResolveRelaysForPubkey writes before it posts the work.
unfoldable pub announce_start : Text → Text → Option LogBuffer → Option LogBuffer
announce_start now seed_relay_url logs =
    note now info (codes "Bootstrap starting (primary seed: " ++ seed_relay_url ++ codes ")") logs

-- The work that it posts: what the completion is called with.
unfoldable pub resolve_work :
    Services
    → Text
    → Text
    → Text
    → (ℕ → Seed)
    → Option LogBuffer
    → BootstrapResult × Option LogBuffer
unfolding try_candidates failed candidates announce
resolve_work lib now hex_pubkey seed_relay_url seeds logs =
    announce now
      (try_candidates lib now hex_pubkey seeds 0 (candidates seed_relay_url) (failed []) logs)

-- Both, where the work begins at once.
unfoldable pub resolve_relays_for_pubkey :
    Services
    → Text
    → Text
    → Text
    → (ℕ → Seed)
    → Option LogBuffer
    → BootstrapResult × Option LogBuffer
unfolding resolve_work announce_start
resolve_relays_for_pubkey lib now hex_pubkey seed_relay_url seeds logs =
    resolve_work lib now hex_pubkey seed_relay_url seeds (announce_start now seed_relay_url logs)
