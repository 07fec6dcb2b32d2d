-- ===== src/Net/Bootstrap/RelayList.antt =====
-- The relay URLs of an event, and which of them a session can use (src/net/bootstrap_client.cpp).
use monitostr.Prelude.{
  ℕ, ◌+◌, Bool, true, false, not, ◌&&◌, ◌||◌, List, [], ◌∷◌, ◌++◌, Option, none, some, Text, codes,
  text_eq, starts_with, to_string, ltb, if◌then◌else◌,
}
use monitostr.Model.LogBuffer.{LogBuffer, warn, note}
use monitostr.Net.Json.{Json, Items, Fields, array, object, string, nil, item, end, field, member}
use monitostr.Net.Services.{Services}
use monitostr.Net.RelayTarget.{ParsedRelayUrl, parse_relay_url}

unfoldable pub is_relay_url_like : Text → Bool
is_relay_url_like value = starts_with value (codes "wss://") || starts_with value (codes "ws://")

-- A tag `["r", url, ...]`.
tag_relays : Json → List Text
unfolding is_relay_url_like
tag_relays (array (item (string key) (item (string value) rest))) =
    if text_eq key (codes "r") && is_relay_url_like value then value ∷ [] else []
tag_relays _ = []

tags_relays : Items → List Text
unfolding tag_relays
tags_relays nil = []
tags_relays (item tag rest) = tag_relays tag ++ tags_relays rest

keys_relays : Fields → List Text
unfolding is_relay_url_like
keys_relays end = []
keys_relays (field key value rest) =
    if is_relay_url_like key then key ∷ keys_relays rest else keys_relays rest

string_relays : Json → List Text
unfolding is_relay_url_like
string_relays (string value) = if is_relay_url_like value then value ∷ [] else []
string_relays _ = []

items_relays : Items → List Text
unfolding string_relays
items_relays nil = []
items_relays (item value rest) = string_relays value ++ items_relays rest

-- What the parsed content lists.
content_relays : Option Json → List Text
unfolding keys_relays items_relays
content_relays (some (object fields)) = keys_relays fields
content_relays (some (array items)) = items_relays items
content_relays _ = []

relays_of_tags : Option Json → List Text
unfolding tags_relays
relays_of_tags (some (array tags)) = tags_relays tags
relays_of_tags _ = []

relays_of_content : Services → Option Json → List Text
unfolding content_relays
relays_of_content lib (some (string content)) = content_relays (lib.parse content)
relays_of_content lib _ = []

unfoldable pub extract_relay_urls_from_event : Services → Json → List Text
unfolding relays_of_tags relays_of_content
extract_relay_urls_from_event lib event =
    relays_of_tags (member (codes "tags") event)
    ++ relays_of_content lib (member (codes "content") event)

-- `seen.count(value)`.
unfoldable pub seen_before : Text → List Text → Bool
seen_before value [] = false
seen_before value (s ∷ seen) = text_eq value s || seen_before value seen

unfoldable pub parses : Option ParsedRelayUrl → Bool
parses none = false
parses (some parsed) = true

-- The loop of Deduplicate.
unfoldable pub dedup_from : List Text → List Text → List Text
unfolding parses seen_before
dedup_from seen [] = []
dedup_from seen (value ∷ values) =
    elim (parses (parse_relay_url value) && not (seen_before value seen)) [
      | true ↦ value ∷ dedup_from (value ∷ seen) values
      | false ↦ dedup_from seen values
    ]

unfoldable pub deduplicate : List Text → List Text
unfolding dedup_from
deduplicate values = dedup_from [] values

-- One round of FilterSupportedRelayUrls: the URLs kept and the count of insecure ones.
unfoldable pub sift : Option ParsedRelayUrl → Text → List Text × ℕ → List Text × ℕ
sift none url rest = rest
sift (some parsed) url rest = if parsed.secure then (url ∷ rest.0, rest.1) else (rest.0, rest.1 + 1)

unfoldable pub sift_all : List Text → List Text × ℕ
unfolding sift
sift_all [] = ([], 0)
sift_all (url ∷ urls) = sift (parse_relay_url url) url (sift_all urls)

unfoldable pub filter_supported_relay_urls :
    Text → List Text → Option LogBuffer → List Text × Option LogBuffer
unfolding sift_all
filter_supported_relay_urls now urls logs =
    let sifted = sift_all urls in
    (
      deduplicate sifted.0,
      if ltb 0 sifted.1
          then note now warn
              (codes "Bootstrap ignored "
                ++ to_string sifted.1
                ++ codes
                    " insecure ws:// relay URLs; monitostr currently monitors wss:// relays only")
              logs
          else logs,
    )
