-- ===== src/Model/RelayStats.antt =====
-- include/monitostr/model/relay_stats.hpp and src/model_relay_stats.cpp. A call that locks the mutex
-- is one step. The unordered map is an association list in its iteration order. Latencies are whole
-- milliseconds, the only values that RelaySession records; a steady_clock reading is a number.
pub mod Invariant
pub mod Lookup
pub mod Summary
use monitostr.Prelude.{
  ℕ, ◌+◌, ◌%◌, ◌^◌, Bool, true, false, List, [], ◌∷◌, ◌++◌, Option, none, some, Text, codes,
  text_eq, if◌then◌else◌, ℤ, ltb_ℤ, eq_ℤ, text_lt, sort, unique,
}
use monitostr.Model.Window.{push_window}

pub data RelayStatus : Type 0 where
  disconnected resolving connecting tls_handshake ws_handshake subscribed error : RelayStatus

unfoldable pub status_text : RelayStatus → Text
status_text disconnected = codes "Disconnected"
status_text resolving = codes "Resolving"
status_text connecting = codes "Connecting"
status_text tls_handshake = codes "TLS"
status_text ws_handshake = codes "WebSocket"
status_text subscribed = codes "Subscribed"
status_text error = codes "Error"

pub record RelayStat : Type 0 where
  pub relay_url : Text
  pub status : RelayStatus
  pub latency_ms : Option ℕ
  pub events_count : ℕ
  pub supported_nips : List ℤ
  pub latency_history_ms : List ℕ
  pub last_error : Text
  pub connected_at : Option ℕ

unfoldable pub default_stat : RelayStat
default_stat = record {
  relay_url = [];
  status = disconnected;
  latency_ms = none;
  events_count = 0;
  supported_nips = [];
  latency_history_ms = [];
  last_error = [];
  connected_at = none;
}

pub record AggregateStats : Type 0 where
  pub connected_relays : ℕ
  pub errored_relays : ℕ
  pub total_events : ℕ

abbrev pub latency_history_window : ℕ
latency_history_window = 60

-- `by_relay_`.
abbrev pub RelayStats : Type 0
RelayStats = List (Text × RelayStat)

unfoldable pub find : Text → RelayStats → Option RelayStat
find url [] = none
find url ((k, v) ∷ m) = if text_eq k url then some v else find url m

-- `RelayStat& stat = by_relay_[url];` followed by the writes `f` through the reference: a missing
-- key is first given a default value.
unfoldable pub modify : Text → (RelayStat → RelayStat) → RelayStats → RelayStats
unfolding default_stat
modify url f [] = (url, f default_stat) ∷ []
modify url f ((k, v) ∷ m) = if text_eq k url then (k, f v) ∷ m else (k, v) ∷ modify url f m

unfoldable pub reset : RelayStats → RelayStats
reset m = []

unfoldable pub ensure_relay : Text → RelayStats → RelayStats
unfolding find default_stat
ensure_relay url m = elim (find url m) [
  | none ↦ m ++ (url, record default_stat { relay_url = url }) ∷ []
  | some v ↦ m
]

is_subscribed : RelayStatus → Bool
is_subscribed subscribed = true
is_subscribed _ = false

is_error : RelayStatus → Bool
is_error error = true
is_error _ = false

-- The writes of SetStatus at the clock reading `now`.
unfoldable pub with_status : ℕ → Text → RelayStatus → Text → RelayStat → RelayStat
unfolding is_subscribed
with_status now url status message stat = record stat {
  relay_url = url;
  status = status;
  last_error = message;
  connected_at = if is_subscribed status then some now else none;
}

unfoldable pub set_status : ℕ → Text → RelayStatus → Text → RelayStats → RelayStats
set_status now url status message = modify url (with_status now url status message)

unfoldable pub with_latency : Text → ℕ → RelayStat → RelayStat
with_latency url latency stat = record stat {
  relay_url = url;
  latency_ms = some latency;
  latency_history_ms = push_window latency_history_window latency stat.latency_history_ms;
}

unfoldable pub record_latency : Text → ℕ → RelayStats → RelayStats
record_latency url latency = modify url (with_latency url latency)

unfoldable pub with_event : Text → RelayStat → RelayStat
with_event url stat = record stat {
  relay_url = url;
  events_count = (stat.events_count + 1) % 2 ^ 64;
}

unfoldable pub increment_event : Text → RelayStats → RelayStats
increment_event url = modify url (with_event url)

unfoldable pub with_nips : Text → List ℤ → RelayStat → RelayStat
with_nips url nips stat = record stat {
  relay_url = url;
  supported_nips = unique eq_ℤ (sort ltb_ℤ nips);
}

unfoldable pub set_supported_nips : Text → List ℤ → RelayStats → RelayStats
set_supported_nips url nips = modify url (with_nips url nips)

unfoldable pub values : RelayStats → List RelayStat
values [] = []
values ((k, v) ∷ m) = v ∷ values m

pub stat_lt : RelayStat → RelayStat → Bool
stat_lt lhs rhs = text_lt lhs.relay_url rhs.relay_url

unfoldable pub snapshot : RelayStats → List RelayStat
unfolding values stat_lt
snapshot m = sort stat_lt (values m)

-- One round of the loop of Aggregate; the counts are size_t and uint64_t.
aggregate_round : AggregateStats → RelayStat → AggregateStats
unfolding is_subscribed is_error
aggregate_round a stat = record {
  connected_relays =
      if is_subscribed stat.status then (a.connected_relays + 1) % 2 ^ 64 else a.connected_relays;
  errored_relays =
      if is_error stat.status then (a.errored_relays + 1) % 2 ^ 64 else a.errored_relays;
  total_events = (a.total_events + stat.events_count) % 2 ^ 64;
}

aggregate_loop : AggregateStats → RelayStats → AggregateStats
unfolding aggregate_round
aggregate_loop a [] = a
aggregate_loop a ((k, v) ∷ m) = aggregate_loop (aggregate_round a v) m

unfoldable pub aggregate : RelayStats → AggregateStats
unfolding aggregate_loop
aggregate m =
    aggregate_loop (record { connected_relays = 0; errored_relays = 0; total_events = 0 }) m
