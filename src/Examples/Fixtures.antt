-- ===== src/Examples/Fixtures.antt =====
-- A library, a clock, a session and tables that the instances share.
use monitostr.Prelude.{
  ℕ, ◌%◌, Text, true, false, List, [], ◌∷◌, Option, none, some, codes, length, pos,
}
use monitostr.Net.Json.{Json, Items, string, integer, array, item, nil, object, field, end}
use monitostr.Net.Services.{Services}
use monitostr.Net.RelayTarget.{ParsedRelayUrl}
use monitostr.Net.RelaySession.{Op, Session, Shared, Now}
use monitostr.Nostr.AuthKey.{AuthKey}
use monitostr.Model.LogBuffer.{LogEntry, info}
use monitostr.Ui.Navigation.{relays}
use monitostr.Ui.Command.{auto}
use monitostr.Ui.Render.Context.{normal_mode}
use monitostr.Ui.App.{App, Host}

-- The bytes 0 to 31.
abbrev pub key_bytes : List ℕ
key_bytes =
    0 ∷ 1 ∷ 2 ∷ 3 ∷ 4 ∷ 5 ∷ 6 ∷ 7 ∷ 8 ∷ 9 ∷ 10 ∷ 11 ∷ 12 ∷ 13 ∷ 14 ∷ 15 ∷ 16 ∷ 17 ∷ 18 ∷ 19 ∷ 20
    ∷ 21 ∷ 22 ∷ 23 ∷ 24 ∷ 25 ∷ 26 ∷ 27 ∷ 28 ∷ 29 ∷ 30 ∷ 255 ∷ []

-- A message that a relay sends as a challenge.
abbrev pub challenge_json : Json
challenge_json = array (item (string (codes "AUTH")) (item (string (codes "c1")) nil))

abbrev pub nip_values : Items
nip_values = item (integer (pos 42)) (item (integer (pos 1)) (item (integer (pos 42)) nil))

abbrev pub nip11_json : Json
nip11_json = object (field (codes "supported_nips") (array nip_values) end)

abbrev reads : Text → Option Json
reads [] = none
reads (c ∷ []) = some nip11_json
reads (c ∷ d ∷ text) = some challenge_json

abbrev pub services : Services
services = record {
  parse = reads;
  dump = λ json. codes "{}";
  hash = λ text. length text;
  jitter = λ seed. seed % 251;
  public_key = λ key. some key;
  sha256 = λ text. 7 ∷ [];
  schnorr_sign = λ key digest aux. some digest;
}

abbrev pub now : Now
now = record {
  stamp = codes "12:00:00";
  steady = 1000;
  signing = record { context = true; seeded = true; aux_rand = some []; created_at = 1 };
}

abbrev pub relay : ParsedRelayUrl
relay = record {
  secure = true;
  host = codes "relay.example";
  port = codes "443";
  target = codes "/";
}

abbrev pub key : AuthKey
key = record { privkey_bytes = key_bytes; hex_pubkey = codes "00" }

abbrev pub session : List Op → Session
session pending = record {
  relay_url = codes "wss://relay.example";
  hex_pubkey = codes "00";
  parsed_relay = relay;
  stopped = false;
  ws_connected = false;
  auth_key = some key;
  reconnect_attempt = 2;
  req_sent_at = 0;
  pending = pending;
}

abbrev pub shared : Shared
shared = record { stats = []; logs = none }

abbrev pub line : Text → LogEntry
line message = record { timestamp = codes "1"; level = info; message = message }

-- The UI at its start.
abbrev pub fresh : App
fresh = record {
  header_context = record { npub = []; hex_pubkey = [] };
  input_npub = [];
  mode = normal_mode;
  active_pane = relays;
  selected_relay = 0;
  logs_scroll_lines = 0;
  logs_follow = true;
  pending_g = false;
  logs_search_query = [];
  logs_search_hit_ordinal = 0;
  command_line = [];
  compact_mode = auto;
}

abbrev pub host : Host
host = record {
  now = codes "12:00:00";
  steady = 1000;
  can_exit = true;
  can_auth = true;
  copy_text = λ text. true;
  save_text = λ path text. true;
}
