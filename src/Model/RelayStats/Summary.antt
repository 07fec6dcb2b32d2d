-- ===== src/Model/RelayStats/Summary.antt =====
-- RelayStats::Snapshot and RelayStats::Aggregate of src/model_relay_stats.cpp.
use monitostr.Prelude.{
  ℕ, suc, ◌+◌, ◌%◌, ◌^◌, ◌<◌, ◌≡◌, ◌↔◌, List, [], ◌∷◌, some, text_eq_iff, text_lt-asym, arith, true,
  false, Perm, Has, IsSorted, sort-IsSorted, sort-Has, sort-perm,
}
use mathlib.Core.Logic.{ite}
use monitostr.Model.RelayStats.{
  RelayStatus, subscribed, error, aggregate_round, RelayStat, RelayStats, AggregateStats, find,
  values, stat_lt, snapshot, aggregate, aggregate_loop,
}
use monitostr.Model.RelayStats.Invariant.{Inv, Fresh-find}

values-Has :
    (v : RelayStat) (m : RelayStats) → Inv m → Has v (values m) ↔ (find v.relay_url m ≡ some v)
unfolding values find
values-Has v [] h = (λ e. absurd e, λ e. cc)
values-Has v ((k, w) ∷ m) h =
    ground (arith, text_eq_iff k v.relay_url, values-Has v m h.2, Fresh-find k m h.1, h.0.named)

stat_lt-asym : (a b : RelayStat) → stat_lt a b ≡ true → stat_lt b a ≡ false
unfolding stat_lt
stat_lt-asym a b h = text_lt-asym a.relay_url b.relay_url h

-- A snapshot of a well-formed table is sorted by URL, is a permutation of the table's entries, and
-- holds an entry exactly if the table has it under its URL.
pub snapshot_lem :
    (m : RelayStats)
    → Inv m
    → IsSorted stat_lt (snapshot m)
      × Perm (snapshot m) (values m)
      × ((v : RelayStat) → Has v (snapshot m) ↔ (find v.relay_url m ≡ some v))
unfolding snapshot
snapshot_lem m h = (
  sort-IsSorted stat_lt stat_lt-asym (values m),
  sort-perm stat_lt (values m),
  λ v. (
    λ e. (values-Has v m h).0 ((sort-Has stat_lt v (values m)).0 e),
    λ e. (sort-Has stat_lt v (values m)).1 ((values-Has v m h).1 e),
  ),
)

RelayStatus-discrete : Discrete RelayStatus
RelayStatus-discrete = hlevel

-- How many entries of the list have the status.
pub count_status : RelayStatus → List RelayStat → ℕ
count_status s [] = 0
count_status s (v ∷ l) =
    ite (RelayStatus-discrete v.status s) (suc (count_status s l)) (count_status s l)

pub sum_events : List RelayStat → ℕ
sum_events [] = 0
sum_events (v ∷ l) = v.events_count + sum_events l

-- What Aggregate promises, of the entries in any order.
pub record Aggregates (a : AggregateStats) (l : List RelayStat) : Type 0 where
  pub connected : a.connected_relays ≡ count_status subscribed l % 2 ^ 64
  pub errored : a.errored_relays ≡ count_status error l % 2 ^ 64
  pub events : a.total_events ≡ sum_events l % 2 ^ 64

aggregate_loop_lem :
    (m : RelayStats) (a : AggregateStats)
    → a.connected_relays < 2 ^ 64
    → a.errored_relays < 2 ^ 64
    → a.total_events < 2 ^ 64
    → ((aggregate_loop a m).connected_relays
        ≡ (a.connected_relays + count_status subscribed (values m)) % 2 ^ 64)
      × ((aggregate_loop a m).errored_relays
          ≡ (a.errored_relays + count_status error (values m)) % 2 ^ 64)
      × ((aggregate_loop a m).total_events ≡ (a.total_events + sum_events (values m)) % 2 ^ 64)
unfolding aggregate_loop values count_status sum_events
aggregate_loop_lem [] a c e t = omega arith
aggregate_loop_lem ((k, v) ∷ m) a c e t = ground (arith, aggregate_loop_lem m (aggregate_round a v))

-- Aggregate counts the subscribed entries and the entries in error and sums the event counts, each
-- modulo 2^64.
pub aggregate-Aggregates : (m : RelayStats) → Aggregates (aggregate m) (values m)
unfolding aggregate
aggregate-Aggregates m =
    let zeros : AggregateStats = record {
      connected_relays = 0;
      errored_relays = 0;
      total_events = 0;
    } in
    ground (arith, aggregate_loop_lem m zeros (omega arith) (omega arith) (omega arith))
