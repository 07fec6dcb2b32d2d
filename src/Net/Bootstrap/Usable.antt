-- ===== src/Net/Bootstrap/Usable.antt =====
-- What a bootstrap of src/net/bootstrap_client.cpp hands to the sessions.
use monitostr.Prelude.{
  ℕ, zero, suc, ◌+◌, ◌≡◌, ◌≢◌, ◌↔◌, ◌⊎◌, inl, inr, refl, sym, ap, subst, ◌∙◌, Bool, true, false,
  not, ◌&&◌, ◌||◌, List, [], ◌∷◌, ◌++◌, Option, none, some, Text, codes, is_empty, text_eq,
  text_eq_iff, Has, Bool-cases, Option-cases, arith, if◌then◌else◌,
}
use monitostr.Model.LogBuffer.{LogBuffer, note, info}
use monitostr.Net.Services.{Services}
use monitostr.Net.RelayTarget.{ParsedRelayUrl, parse_relay_url}
use monitostr.Net.Bootstrap.{
  fallback_urls, BootstrapResult, Seed, throws, no_sni, answers, Queried, thrown, returned, failed,
  of_kinds, query_kind_with_ws, settle, query_connected, query_seed_relay, candidates,
  try_candidates, announce, announce_start, resolve_work, resolve_relays_for_pubkey,
}
use monitostr.Net.Bootstrap.RelayList.{sift_all, deduplicate, filter_supported_relay_urls}
use monitostr.Net.Bootstrap.Lists.{Distinct}
use monitostr.Net.Bootstrap.Filter.{IsSecure, filter_supported_lem}

-- The seeds and the fallback URLs that are always there.
nos_lol : ParsedRelayUrl
nos_lol = record { secure = true; host = codes "nos.lol"; port = codes "443"; target = codes "/" }

nos_lol-IsSecure : IsSecure (codes "wss://nos.lol")
unfolding nos_lol parse_relay_url monitostr.Prelude.starts_with monitostr.Net.RelayTarget.parse_rest
    monitostr.Net.RelayTarget.split_port monitostr.Net.RelayTarget.split_relay_host_and_target
nos_lol-IsSecure = (nos_lol, refl, refl)

-- What a successful bootstrap promises: some relay, each secure, none twice.
pub record IsUsable (result : BootstrapResult) : Type 0 where
  pub some_relay : result.relay_urls ≢ []
  pub distinct : Distinct result.relay_urls
  pub secure : (url : Text) → Has url result.relay_urls → IsSecure url

-- An exception, a failure, or a usable result.
abbrev pub Promise : Queried → Type 0
Promise (thrown message) = Unit {0}
Promise (returned result logs) = result.ok ≡ true → IsUsable result

full : (url : Text) (urls : List Text) → Has url urls → urls ≢ []
full url [] h e = h
full url (u ∷ urls) h e = cc

settle-Promise :
    (now seed : Text) (result : BootstrapResult) (logs : Option LogBuffer)
    → Promise (settle now seed result logs)
unfolding settle fallback_urls
settle-Promise now seed result logs =
    let first = filter_supported_relay_urls now result.relay_urls logs in
    let one = filter_supported_lem now result.relay_urls logs in
    let second = filter_supported_lem now (fallback_urls seed) first.1 in
    elim (Bool-cases (is_empty first.0)) [
      | inl e ↦ rw e (λ ok. record {
        some_relay =
            full (codes "wss://nos.lol") _
              ((second.1 (codes "wss://nos.lol")).1 (inr (inl refl), nos_lol-IsSecure));
        distinct = second.0;
        secure = λ url h. ((second.1 url).0 h).1;
      })
      | inr e ↦ rw e (λ ok. record {
        some_relay = λ q. let t = ap is_empty q in cc;
        distinct = one.0;
        secure = λ url h. ((one.1 url).0 h).1;
      })
    ]

connected-Promise :
    (lib : Services) (now seed_url : Text) (parsed : ParsedRelayUrl) (seed : Seed)
    (logs : Option LogBuffer)
    → Promise (query_connected lib now seed_url parsed seed logs)
unfolding query_connected failed
connected-Promise lib now seed_url parsed (throws message) logs = tt
connected-Promise lib now seed_url parsed no_sni logs = elim (Bool-cases parsed.secure) [
  | inl e ↦ rw e (λ h. cc)
  | inr e ↦ rw e (settle-Promise now seed_url (of_kinds [] []) logs)
]
connected-Promise lib now seed_url parsed (answers first second) logs =
    settle-Promise now seed_url
      (of_kinds (query_kind_with_ws lib (codes "bootstrap-10002") first)
        (query_kind_with_ws lib (codes "bootstrap-3") second))
      logs

query-Promise :
    (lib : Services) (now seed_url hex : Text) (seed : Seed) (logs : Option LogBuffer)
    → Promise (query_seed_relay lib now seed_url hex seed logs)
unfolding query_seed_relay failed
query-Promise lib now seed_url [] seed logs = λ h. cc
query-Promise lib now seed_url (c ∷ hex) seed logs =
    elim (Option-cases (parse_relay_url seed_url)) [
      | inl e ↦ rw (e, query_seed_relay) (λ h. cc)
      | inr (parsed, e) ↦
          rw (e, query_seed_relay) (connected-Promise lib now seed_url parsed seed logs)
    ]

Queried-cases :
    (q : Queried)
    → ((message : Text) × (q ≡ thrown message))
      ⊎ ((r : BootstrapResult) × (logs : Option LogBuffer) × (q ≡ returned r logs))
Queried-cases (thrown message) = inl (message, refl)
Queried-cases (returned r logs) = inr (r, logs, refl)

try_candidates-Promise :
    (lib : Services) (now hex : Text) (seeds : ℕ → Seed) (i : ℕ) (urls : List Text)
    (result : BootstrapResult) (logs : Option LogBuffer)
    → result.ok ≡ false
    → (try_candidates lib now hex seeds i urls result logs).0.ok ≡ true
    → IsUsable (try_candidates lib now hex seeds i urls result logs).0
unfolding try_candidates
try_candidates-Promise lib now hex seeds i [] result logs bad =
    λ ok. absurd (let t = sym bad ∙ ok in cc)
try_candidates-Promise lib now hex seeds i (url ∷ urls) result logs bad =
    let logs' = note now info (codes "Bootstrap trying seed relay: " ++ url) logs in
    elim (Queried-cases (query_seed_relay lib now url hex (seeds i) logs')) [
      | inl (message, e) ↦
          rw (e, try_candidates)
            (try_candidates-Promise lib now hex seeds (suc i) urls
              (record result { ok = false; error = message }) _ refl)
      | inr (r, l, e) ↦
          let promised = subst Promise e (query-Promise lib now url hex (seeds i) logs') in
          elim (Bool-cases r.ok) [
            | inl t ↦ rw (e, t, try_candidates) (λ ok. promised t)
            | inr f ↦
                rw (e, f, try_candidates)
                  (try_candidates-Promise lib now hex seeds (suc i) urls r _ f)
          ]
    ]

announce-result : (now : Text) (r : BootstrapResult × Option LogBuffer) → (announce now r).0 ≡ r.0
unfolding announce
announce-result now (result, logs) = refl

-- The work of the bootstrap, from any log.
pub resolve_work-IsUsable :
    (lib : Services) (now hex seed_url : Text) (seeds : ℕ → Seed) (logs : Option LogBuffer)
    → (resolve_work lib now hex seed_url seeds logs).0.ok ≡ true
    → IsUsable (resolve_work lib now hex seed_url seeds logs).0
unfolding resolve_work failed
resolve_work-IsUsable lib now hex seed_url seeds logs =
    try_candidates-Promise lib now hex seeds 0 (candidates seed_url) (failed []) logs refl

-- The same of the whole lookup.
pub resolve_relays-IsUsable :
    (lib : Services) (now hex seed_url : Text) (seeds : ℕ → Seed) (logs : Option LogBuffer)
    → (resolve_relays_for_pubkey lib now hex seed_url seeds logs).0.ok ≡ true
    → IsUsable (resolve_relays_for_pubkey lib now hex seed_url seeds logs).0
unfolding resolve_relays_for_pubkey
resolve_relays-IsUsable lib now hex seed_url seeds logs =
    resolve_work-IsUsable lib now hex seed_url seeds (announce_start now seed_url logs)

-- The result of a seed that lists no relay.
abbrev fallen_back : List Text → BootstrapResult
fallen_back urls = record {
  ok = true;
  error = codes "no relay list found in kinds 10002/3";
  source_event_kind = codes "fallback";
  relay_urls = urls;
}

-- Where no query lists a relay, the result is the fallback list.
settle_nothing :
    (now seed : Text) (logs : Option LogBuffer)
    → (l l' : Option LogBuffer) × (settle now seed (of_kinds [] []) logs
        ≡ returned (fallen_back (filter_supported_relay_urls now (fallback_urls seed) l).0) l')
unfolding settle of_kinds filter_supported_relay_urls sift_all deduplicate
settle_nothing now seed logs = (logs, _, refl)

-- The query of a seed that is parsed and answers.
query_answers :
    (lib : Services) (now : Text) (c : ℕ) (hex seed_url : Text) (logs : Option LogBuffer)
    (parsed : ParsedRelayUrl) (first second : List Text)
    → parse_relay_url seed_url ≡ some parsed
    → query_seed_relay lib now seed_url (c ∷ hex) (answers first second) logs
      ≡ settle now seed_url
          (of_kinds
            (query_kind_with_ws lib (codes "bootstrap-10002") first)
            (query_kind_with_ws lib (codes "bootstrap-3") second))
          logs
unfolding query_seed_relay query_connected
query_answers lib now c hex seed_url logs parsed first second = ap (λ (o : Option ParsedRelayUrl).
    elim o [
      | none ↦ returned (failed (codes "invalid seed relay url")) logs
      | some parsed ↦ query_connected lib now seed_url parsed (answers first second) logs
    ])

query_nothing :
    (lib : Services) (now hex seed_url : Text) (logs : Option LogBuffer) (parsed : ParsedRelayUrl)
    (first second : List Text)
    → hex ≢ []
    → parse_relay_url seed_url ≡ some parsed
    → query_kind_with_ws lib (codes "bootstrap-10002") first ≡ []
    → query_kind_with_ws lib (codes "bootstrap-3") second ≡ []
    → (l l' : Option LogBuffer) × (query_seed_relay lib now seed_url hex (answers first second) logs
        ≡ returned (fallen_back (filter_supported_relay_urls now (fallback_urls seed_url) l).0) l')
unfolding query_seed_relay query_connected
query_nothing lib now [] seed_url logs parsed first second named e p q = absurd (named refl)
query_nothing lib now (c ∷ hex) seed_url logs parsed first second named e p q =
    let (l, l', r) = settle_nothing now seed_url logs in
    let second_kind = query_kind_with_ws lib (codes "bootstrap-3") second in
    let nothing =
      ap (λ u. settle now seed_url (of_kinds u second_kind) logs) p
      ∙ ap (λ u. settle now seed_url (of_kinds [] u) logs) q in
    (l, l', query_answers lib now c hex seed_url logs parsed first second e ∙ (nothing ∙ r))

-- A result with the fallback list: no URL twice, and of the seed and the two fixed relays those that
-- are secure.
pub record FallsBack (seed_url : Text) (result : BootstrapResult) : Type 0 where
  pub succeeds : result.ok ≡ true
  pub source : result.source_event_kind ≡ codes "fallback"
  pub distinct : Distinct result.relay_urls
  pub listed :
      (url : Text)
      → Has url result.relay_urls ↔ (
          Has url (seed_url ∷ codes "wss://nos.lol" ∷ codes "wss://relay.snort.social" ∷ [])
          × IsSecure url)

fallen_back-FallsBack :
    (now seed_url : Text) (logs : Option LogBuffer)
    → FallsBack seed_url
        (fallen_back (filter_supported_relay_urls now (fallback_urls seed_url) logs).0)
unfolding fallback_urls
fallen_back-FallsBack now seed_url logs =
    let kept = filter_supported_lem now (fallback_urls seed_url) logs in
    record { succeeds = refl; source = refl; distinct = kept.0; listed = kept.1 }

-- The same of the work that is posted.
pub answering_seed_settles :
    (lib : Services) (now hex seed_url : Text) (seeds : ℕ → Seed) (logs : Option LogBuffer)
    (parsed : ParsedRelayUrl) (first second : List Text)
    → hex ≢ []
    → parse_relay_url seed_url ≡ some parsed
    → seeds 0 ≡ answers first second
    → query_kind_with_ws lib (codes "bootstrap-10002") first ≡ []
    → query_kind_with_ws lib (codes "bootstrap-3") second ≡ []
    → FallsBack seed_url (resolve_work lib now hex seed_url seeds logs).0
unfolding resolve_work try_candidates candidates announce
answering_seed_settles lib now hex seed_url seeds logs parsed first second named e f p q =
    let logs' = note now info (codes "Bootstrap trying seed relay: " ++ seed_url) logs in
    let (l, l', r) = query_nothing lib now hex seed_url logs' parsed first second named e p q in
    let asked = ap (λ s. query_seed_relay lib now seed_url hex s logs') f ∙ r in
    rw (asked, try_candidates) (fallen_back-FallsBack now seed_url l)

-- If the hex key is not empty, the given seed URL is parsed, and that seed answers both queries
-- with no relay, then, whatever the other seeds would answer, the result is ok with the kind
-- fallback, lists no URL twice, and lists of the given seed URL, wss://nos.lol and
-- wss://relay.snort.social exactly those that are parsed as secure.
pub answering_seed_wins :
    (lib : Services) (now hex seed_url : Text) (seeds : ℕ → Seed) (logs : Option LogBuffer)
    (parsed : ParsedRelayUrl) (first second : List Text)
    → hex ≢ []
    → parse_relay_url seed_url ≡ some parsed
    → seeds 0 ≡ answers first second
    → query_kind_with_ws lib (codes "bootstrap-10002") first ≡ []
    → query_kind_with_ws lib (codes "bootstrap-3") second ≡ []
    → FallsBack seed_url (resolve_relays_for_pubkey lib now hex seed_url seeds logs).0
unfolding resolve_relays_for_pubkey
answering_seed_wins lib now hex seed_url seeds logs =
    answering_seed_settles lib now hex seed_url seeds (announce_start now seed_url logs)
