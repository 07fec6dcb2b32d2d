-- ===== src/Net/RelaySession/Fetch.antt =====
-- FetchRelaySupportedNips of src/net/relay_session.cpp: what the fetch of a relay's NIP-11 document
-- gives, by what the network does. Its result is that of the completion of `fetch_nips`.
use monitostr.Prelude.{
  ◌≡◌, refl, subst, List, ◌++◌, Option, none, some, Text, codes, ℤ, ltb_ℤ, IsStrictlySorted, eq_ℤ,
  eq_ℤ_iff, ltb_ℤ-IsStrictOrder, sort, sort-IsSorted, unique-IsStrictlySorted, if◌then◌else◌,
  Bool-cases, inl, inr,
}
use monitostr.Model.LogBuffer.{LogBuffer, warn, note}
use monitostr.Net.Services.{Services}
use monitostr.Net.RelayTarget.{ParsedRelayUrl}
use monitostr.Net.SessionSupport.{parse_supported_nips_from_nip11_body}

-- An exception of some call, a failure of the SNI call (of a secure relay only), or the body read.
pub data Fetched : Type 0 where
  throws : Text → Fetched
  no_sni : Text → Fetched
  responds : Text → Fetched

unfoldable pub fetch_relay_supported_nips :
    Services
    → Text
    → ParsedRelayUrl
    → Text
    → Fetched
    → Option LogBuffer
    → Option (List ℤ) × Option LogBuffer
fetch_relay_supported_nips lib now parsed_relay relay_url (throws message) logs = (
  none,
  note now warn (codes "[" ++ (relay_url ++ (codes "] NIP-11 fetch failed: " ++ message))) logs,
)
fetch_relay_supported_nips lib now parsed_relay relay_url (no_sni body) logs =
    if parsed_relay.secure
    then (none, note now warn (codes "[" ++ (relay_url ++ codes "] NIP-11 SNI setup failed")) logs)
    else (some (parse_supported_nips_from_nip11_body lib body), logs)
fetch_relay_supported_nips lib now parsed_relay relay_url (responds body) logs =
    (some (parse_supported_nips_from_nip11_body lib body), logs)

body-IsStrictlySorted :
    (lib : Services) (body : Text)
    → IsStrictlySorted ltb_ℤ (parse_supported_nips_from_nip11_body lib body)
unfolding parse_supported_nips_from_nip11_body
body-IsStrictlySorted lib body =
    unique-IsStrictlySorted eq_ℤ eq_ℤ_iff ltb_ℤ ltb_ℤ-IsStrictOrder (sort ltb_ℤ _)
      (sort-IsSorted ltb_ℤ ltb_ℤ-IsStrictOrder.asym _)

some_inj : {x y : List ℤ} → some x ≡ some y → x ≡ y
some_inj h = cc h

-- A list that is fetched is strictly increasing, and with one nothing is written to the log.
pub fetch-IsStrictlySorted :
    (lib : Services) (now : Text) (parsed : ParsedRelayUrl) (url : Text) (fetched : Fetched)
    (logs : Option LogBuffer) (nips : List ℤ)
    → (fetch_relay_supported_nips lib now parsed url fetched logs).0 ≡ some nips
    → IsStrictlySorted ltb_ℤ nips
      × ((fetch_relay_supported_nips lib now parsed url fetched logs).1 ≡ logs)
unfolding fetch_relay_supported_nips
fetch-IsStrictlySorted lib now parsed url (throws message) logs nips h = cc
fetch-IsStrictlySorted lib now parsed url (no_sni body) logs nips h =
    elim (Bool-cases parsed.secure) [
      | inl e ↦
          let bad : ◌≡◌ {A = Option (List ℤ)} none (some nips) =
            rw (e, fetch_relay_supported_nips) at h in
          cc bad
      | inr e ↦
          let given : ◌≡◌ {A = Option (List ℤ)}
              (some (parse_supported_nips_from_nip11_body lib body)) (some nips) =
            rw (e, fetch_relay_supported_nips) at h in
          (
            subst (IsStrictlySorted ltb_ℤ) (some_inj given) (body-IsStrictlySorted lib body),
            rw (e, fetch_relay_supported_nips) refl,
          )
    ]
fetch-IsStrictlySorted lib now parsed url (responds body) logs nips h =
    (subst (IsStrictlySorted ltb_ℤ) (some_inj h) (body-IsStrictlySorted lib body), refl)
