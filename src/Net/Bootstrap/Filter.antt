-- ===== src/Net/Bootstrap/Filter.antt =====
-- Which URLs FilterSupportedRelayUrls of src/net/bootstrap_client.cpp keeps.
use monitostr.Prelude.{
  ℕ, ◌≡◌, ◌↔◌, inl, inr, refl, sym, ap, subst, ◌∙◌, Bool, true, false, List, [], ◌∷◌, Option, none,
  some, Text, Has, Bool-cases,
}
use monitostr.Model.LogBuffer.{LogBuffer}
use monitostr.Net.RelayTarget.{ParsedRelayUrl, parse_relay_url}
use monitostr.Net.Bootstrap.RelayList.{sift, sift_all, filter_supported_relay_urls}
use monitostr.Net.Bootstrap.Lists.{Distinct, deduplicate_lem}

-- A URL that a session will accept.
abbrev pub IsSecure : Text → Type 0
IsSecure url =
    (parsed : ParsedRelayUrl) × (parse_relay_url url ≡ some parsed) × (parsed.secure ≡ true)

-- A URL that is dropped is not secure.
dropped :
    (url u : Text) (urls kept : List Text)
    → (IsSecure u → ⊥)
    → Has url kept ↔ (Has url urls × IsSecure url)
    → Has url kept ↔ (Has url (u ∷ urls) × IsSecure url)
dropped url u urls kept bad ih = (
  (λ h. (inr (ih.0 h).0, (ih.0 h).1)),
  (λ h. elim h.0 [ inl q ↦ absurd (bad (subst IsSecure q h.1)) | inr k ↦ ih.1 (k, h.1) ]),
)

secure_of : Option ParsedRelayUrl → Bool
secure_of none = false
secure_of (some parsed) = parsed.secure

insecure :
    (u : Text) (parsed : ParsedRelayUrl)
    → parse_relay_url u ≡ some parsed
    → parsed.secure ≡ false
    → IsSecure u
    → ⊥
unfolding secure_of
insecure u parsed e f (p, q, t) =
    let same : parsed.secure ≡ p.secure = ap secure_of (sym e ∙ q) in cc

sift-Has :
    (url u : Text) (urls : List Text) (rest : List Text × ℕ) (o : Option ParsedRelayUrl)
    → parse_relay_url u ≡ o
    → Has url rest.0 ↔ (Has url urls × IsSecure url)
    → Has url (sift o u rest).0 ↔ (Has url (u ∷ urls) × IsSecure url)
unfolding sift
sift-Has url u urls rest none e ih = dropped url u urls rest.0 (λ s. let p = s.1 in cc) ih
sift-Has url u urls rest (some parsed) e ih = elim (Bool-cases parsed.secure) [
  | inl t ↦ rw t (
    (λ h. elim h [
      | inl q ↦ (inl q, subst IsSecure (sym q) (parsed, e, t))
      | inr k ↦ (inr (ih.0 k).0, (ih.0 k).1)
    ]),
    (λ h. elim h.0 [ inl q ↦ inl q | inr k ↦ inr (ih.1 (k, h.1)) ]),
  )
  | inr f ↦ rw f (dropped url u urls rest.0 (insecure u parsed e f) ih)
]

sift_all_lem :
    (url : Text) (urls : List Text) → Has url (sift_all urls).0 ↔ (Has url urls × IsSecure url)
unfolding sift_all
sift_all_lem url [] = (λ h. absurd h, λ h. absurd h.0)
sift_all_lem url (u ∷ urls) =
    sift-Has url u urls (sift_all urls) (parse_relay_url u) refl (sift_all_lem url urls)

-- FilterSupportedRelayUrls keeps exactly the URLs that are parsed as secure, and none twice.
pub filter_supported_lem :
    (now : Text) (urls : List Text) (logs : Option LogBuffer)
    → Distinct (filter_supported_relay_urls now urls logs).0
      × ((url : Text)
          → Has url (filter_supported_relay_urls now urls logs).0 ↔ (Has url urls × IsSecure url))
unfolding filter_supported_relay_urls
filter_supported_lem now urls logs =
    let d = deduplicate_lem (sift_all urls).0 in
    (
      d.0,
      λ url.
          let k = sift_all_lem url urls in
          ((λ h. k.0 ((d.1 url).0 h).0), (λ h. (d.1 url).1 (k.1 h, (h.1.0, h.1.1)))),
    )
