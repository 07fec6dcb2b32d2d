-- ===== src/Model/RelayStats/Invariant.antt =====
-- What holds of the relay table of src/model_relay_stats.cpp after any calls.
use monitostr.Prelude.{
  ℕ, ◌^◌, ◌≤◌, ◌<◌, ◌≡◌, ◌≢◌, refl, sym, subst, Option-cases, List, [], ◌∷◌, ◌++◌, Option, none,
  some, Text, text_eq, text_eq_iff, arith, Bool-cases, inl, inr, length, ℤ, ltb_ℤ, IsStrictlySorted,
  ltb_ℤ-IsStrictOrder, eq_ℤ, eq_ℤ_iff, sort, sort-IsSorted, unique-IsStrictlySorted,
}
use monitostr.Model.Window.{length-push_window_le}
use monitostr.Model.RelayStats.{
  RelayStat, RelayStats, RelayStatus, subscribed, default_stat, find, modify, reset, ensure_relay,
  set_status, with_status, record_latency, with_latency, increment_event, with_event,
  set_supported_nips, with_nips, latency_history_window,
}

abbrev pub IsSome : Option ℕ → Type 0
IsSome none = ⊥
IsSome (some t) = Unit {0}

-- An entry that stands under `key`.
pub record IsEntry (key : Text) (v : RelayStat) : Type 0 where
  pub named : v.relay_url ≡ key
  pub uptime : v.status ≡ subscribed → v.connected_at ≢ none
  pub downtime : v.status ≢ subscribed → v.connected_at ≡ none
  pub window : length v.latency_history_ms ≤ latency_history_window
  pub counted : v.events_count < 2 ^ 64
  pub nips_sorted : IsStrictlySorted ltb_ℤ v.supported_nips

abbrev pub Fresh : Text → RelayStats → Type 0
Fresh key [] = Unit {0}
Fresh key ((k, v) ∷ m) = (k ≢ key) × Fresh key m

-- Keys are distinct, and every entry is well formed.
abbrev pub Inv : RelayStats → Type 0
Inv [] = Unit {0}
Inv ((k, v) ∷ m) = IsEntry k v × Fresh k m × Inv m

named_default-IsEntry : (url : Text) → IsEntry url (record default_stat { relay_url = url })
unfolding default_stat
named_default-IsEntry url = record {
  named = refl;
  uptime = λ e. cc;
  downtime = λ h. refl;
  window = omega arith;
  counted = omega arith;
  nips_sorted = tt;
}

-- A write keeps the invariant if it makes a well-formed entry of one, and of a default one.
abbrev Keeps : Text → (RelayStat → RelayStat) → Type 0
Keeps url f = (v : RelayStat) → IsEntry url (record v { relay_url = url }) → IsEntry url (f v)

Fresh-modify :
    (key url : Text) (f : RelayStat → RelayStat) (m : RelayStats)
    → key ≢ url
    → Fresh key m
    → Fresh key (modify url f m)
unfolding modify
Fresh-modify key url f [] n h = ((λ e. n (sym e)), tt)
Fresh-modify key url f ((k, v) ∷ m) n h = ground (arith, Fresh-modify key url f m n h.1)

modify-Inv :
    (url : Text) (f : RelayStat → RelayStat) (m : RelayStats)
    → Keeps url f
    → Inv m
    → Inv (modify url f m)
unfolding modify default_stat
modify-Inv url f [] keep h = (keep default_stat (named_default-IsEntry url), tt, tt)
modify-Inv url f ((k, v) ∷ m) keep h = elim (Bool-cases (text_eq k url)) [
  | inl e ↦
      let p : k ≡ url = (text_eq_iff k url).0 e in
      let renamed : IsEntry url (record v { relay_url = url }) = record {
        named = refl;
        uptime = h.0.uptime;
        downtime = h.0.downtime;
        window = h.0.window;
        counted = h.0.counted;
        nips_sorted = h.0.nips_sorted;
      } in
      rw e (subst (λ t. IsEntry t (f v)) (sym p) (keep v renamed), h.1, h.2)
  | inr e ↦
      let differs : k ≢ url = λ p. ground (arith, text_eq_iff k url) in
      rw e (h.0, Fresh-modify k url f m differs h.1, modify-Inv url f m keep h.2)
]

with_status-Keeps :
    (now : ℕ) (url : Text) (status : RelayStatus) (message : Text)
    → Keeps url (with_status now url status message)
unfolding with_status
with_status-Keeps now url status message v h = ground arith

with_latency-Keeps : (url : Text) (latency : ℕ) → Keeps url (with_latency url latency)
unfolding with_latency
with_latency-Keeps url latency v h = record {
  named = refl;
  uptime = h.uptime;
  downtime = h.downtime;
  window = length-push_window_le latency_history_window latency v.latency_history_ms;
  counted = h.counted;
  nips_sorted = h.nips_sorted;
}

with_event-Keeps : (url : Text) → Keeps url (with_event url)
unfolding with_event
with_event-Keeps url v h = record {
  named = refl;
  uptime = h.uptime;
  downtime = h.downtime;
  window = h.window;
  counted = omega arith;
  nips_sorted = h.nips_sorted;
}

with_nips-Keeps : (url : Text) (nips : List ℤ) → Keeps url (with_nips url nips)
unfolding with_nips
with_nips-Keeps url nips v h = record {
  named = refl;
  uptime = h.uptime;
  downtime = h.downtime;
  window = h.window;
  counted = h.counted;
  nips_sorted =
      unique-IsStrictlySorted eq_ℤ eq_ℤ_iff ltb_ℤ ltb_ℤ-IsStrictOrder (sort ltb_ℤ nips)
        (sort-IsSorted ltb_ℤ ltb_ℤ-IsStrictOrder.asym nips);
}

-- `url` has no entry exactly where the lookup fails.
pub find-Fresh : (url : Text) (m : RelayStats) → find url m ≡ none → Fresh url m
unfolding find
find-Fresh url [] e = tt
find-Fresh url ((k, v) ∷ m) e = ground (arith, text_eq_iff k url, find-Fresh url m)

pub Fresh-find : (url : Text) (m : RelayStats) → Fresh url m → find url m ≡ none
unfolding find
Fresh-find url [] h = refl
Fresh-find url ((k, v) ∷ m) h = ground (arith, text_eq_iff k url, Fresh-find url m h.1)

Fresh-append :
    (key url : Text) (v : RelayStat) (m : RelayStats)
    → url ≢ key
    → Fresh key m
    → Fresh key (m ++ (url, v) ∷ [])
Fresh-append key url v [] n h = (n, tt)
Fresh-append key url v ((k, w) ∷ m) n h = (h.0, Fresh-append key url v m n h.1)

append-Inv :
    (url : Text) (v : RelayStat) (m : RelayStats)
    → IsEntry url v
    → Fresh url m
    → Inv m
    → Inv (m ++ (url, v) ∷ [])
append-Inv url v [] e f h = (e, tt, tt)
append-Inv url v ((k, w) ∷ m) e f h =
    (h.0, Fresh-append k url v m (λ p. f.0 (sym p)) h.1, append-Inv url v m e f.1 h.2)

ensure_relay-Inv : (url : Text) (m : RelayStats) → Inv m → Inv (ensure_relay url m)
unfolding ensure_relay
ensure_relay-Inv url m h = elim (Option-cases (find url m)) [
  | inl e ↦
      rw (e, ensure_relay) (append-Inv url _ m (named_default-IsEntry url) (find-Fresh url m e) h)
  | inr (v, e) ↦ rw (e, ensure_relay) h
]

-- The calls that write the table, with the steady_clock reading where one is taken.
pub data Call : Type 0 where
  resets : Call
  ensures : Text → Call
  sets_status : ℕ → Text → RelayStatus → Text → Call
  records_latency : Text → ℕ → Call
  increments_event : Text → Call
  sets_nips : Text → List ℤ → Call

unfoldable pub step : RelayStats → Call → RelayStats
step m resets = reset m
step m (ensures url) = ensure_relay url m
step m (sets_status now url status message) = set_status now url status message m
step m (records_latency url latency) = record_latency url latency m
step m (increments_event url) = increment_event url m
step m (sets_nips url nips) = set_supported_nips url nips m

-- Every call that changes the relay table keeps it well formed: keys are distinct, each entry
-- carries its key as URL, has a connection time exactly when it is subscribed, at most the window
-- of latencies, a count below 2^64 and strictly sorted NIPs.
pub step-Inv : (m : RelayStats) (c : Call) → Inv m → Inv (step m c)
unfolding step reset set_status record_latency increment_event set_supported_nips
step-Inv m resets h = tt
step-Inv m (ensures url) h = ensure_relay-Inv url m h
step-Inv m (sets_status now url status message) h =
    modify-Inv url _ m (with_status-Keeps now url status message) h
step-Inv m (records_latency url latency) h = modify-Inv url _ m (with_latency-Keeps url latency) h
step-Inv m (increments_event url) h = modify-Inv url _ m (with_event-Keeps url) h
step-Inv m (sets_nips url nips) h = modify-Inv url _ m (with_nips-Keeps url nips) h
