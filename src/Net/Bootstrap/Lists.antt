-- ===== src/Net/Bootstrap/Lists.antt =====
-- Deduplicate and FilterSupportedRelayUrls of src/net/bootstrap_client.cpp.
use monitostr.Prelude.{
  ℕ, ◌≡◌, ◌≢◌, ◌↔◌, ◌⊎◌, inl, inr, refl, sym, ap, subst, ◌∙◌, Bool, true, false, not, ◌&&◌, ◌||◌,
  List, [], ◌∷◌, ◌++◌, Option, none, some, Text, text_eq, text_eq_iff, Has, Bool-cases,
  Option-cases, arith, if◌then◌else◌,
}
use monitostr.Net.RelayTarget.{ParsedRelayUrl, parse_relay_url}
use monitostr.Net.Bootstrap.RelayList.{seen_before, parses, dedup_from, deduplicate}

-- No element twice.
abbrev pub Distinct : List Text → Type 0
Distinct [] = Unit {0}
Distinct (x ∷ xs) = (Has x xs → ⊥) × Distinct xs

same_value :
    (v : Text) (seen values : List Text)
    → (Has v (dedup_from (v ∷ seen) values)
        ↔ (Has v values × (parses (parse_relay_url v) ≡ true) × (seen_before v (v ∷ seen) ≡ false)))
    → (Has v (dedup_from seen values)
        ↔ (Has v values × (parses (parse_relay_url v) ≡ true) × (seen_before v seen ≡ false)))
    → Has v (dedup_from seen (v ∷ values))
      ↔ (Has v (v ∷ values) × (parses (parse_relay_url v) ≡ true) × (seen_before v seen ≡ false))
unfolding dedup_from seen_before parse_relay_url monitostr.Prelude.starts_with
same_value v seen values taken left =
    elim (Bool-cases (parses (parse_relay_url v) && not (seen_before v seen))) [
      | inl e ↦ rw e (ground (arith, taken, left, e))
      | inr e ↦ rw e (ground (arith, left, e))
    ]

dedup_from_cases :
    (v value : Text) (seen values : List Text)
    → (Has v (dedup_from (value ∷ seen) values) ↔ (
        Has v values
        × (parses (parse_relay_url v) ≡ true)
        × (seen_before v (value ∷ seen) ≡ false)))
    → (Has v (dedup_from seen values)
        ↔ (Has v values × (parses (parse_relay_url v) ≡ true) × (seen_before v seen ≡ false)))
    → Has v (dedup_from seen (value ∷ values)) ↔ (
        Has v (value ∷ values) × (parses (parse_relay_url v) ≡ true) × (seen_before v seen ≡ false))
unfolding dedup_from seen_before parse_relay_url monitostr.Prelude.starts_with
dedup_from_cases v value seen values taken left = elim (Bool-cases (text_eq v value)) [
  | inl e ↦
      let same = (text_eq_iff v value).0 e in
      let taken' =
        subst
          (λ u. Has v (dedup_from (u ∷ seen) values) ↔ (
            Has v values
            × (parses (parse_relay_url v) ≡ true)
            × (seen_before v (u ∷ seen) ≡ false)))
          (sym same) taken in
      subst
        (λ u. Has v (dedup_from seen (u ∷ values)) ↔ (
          Has v (u ∷ values) × (parses (parse_relay_url v) ≡ true) × (seen_before v seen ≡ false)))
        same (same_value v seen values taken' left)
  | inr e ↦ elim (Bool-cases (parses (parse_relay_url value) && not (seen_before value seen))) [
    | inl f ↦ rw f (ground (arith, taken, e, text_eq_iff v value))
    | inr f ↦ rw f (ground (arith, left, e, text_eq_iff v value))
  ]
]

dedup_from_lem :
    (v : Text) (seen values : List Text)
    → Has v (dedup_from seen values)
      ↔ (Has v values × (parses (parse_relay_url v) ≡ true) × (seen_before v seen ≡ false))
unfolding dedup_from
dedup_from_lem v seen [] = (λ h. absurd h, λ h. absurd h.0)
dedup_from_lem v seen (value ∷ values) =
    dedup_from_cases v value seen values (dedup_from_lem v (value ∷ seen) values)
      (dedup_from_lem v seen values)

dedup_from-Distinct : (seen values : List Text) → Distinct (dedup_from seen values)
unfolding dedup_from seen_before parse_relay_url monitostr.Prelude.starts_with
dedup_from-Distinct seen [] = tt
dedup_from-Distinct seen (value ∷ values) =
    elim (Bool-cases (parses (parse_relay_url value) && not (seen_before value seen))) [
      | inl e ↦ rw e (
        (λ h. ground (
          arith,
          (dedup_from_lem value (value ∷ seen) values).0 h,
          (text_eq_iff value value).1 refl,
        )),
        dedup_from-Distinct (value ∷ seen) values,
      )
      | inr e ↦ rw e (dedup_from-Distinct seen values)
    ]

parses_iff :
    (o : Option ParsedRelayUrl)
    → (parses o ≡ true) ↔ ((parsed : ParsedRelayUrl) × (o ≡ some parsed))
unfolding parses
parses_iff none = (λ h. cc, λ h. cc)
parses_iff (some parsed) = ((λ h. (parsed, refl)), (λ h. refl))

no_one_seen : (v : Text) → seen_before v [] ≡ false
unfolding seen_before
no_one_seen v = refl

-- Deduplicate keeps exactly the URLs that are parsed, and none twice.
pub deduplicate_lem :
    (values : List Text)
    → Distinct (deduplicate values)
      × ((v : Text)
          → Has v (deduplicate values)
            ↔ (Has v values × ((parsed : ParsedRelayUrl) × (parse_relay_url v ≡ some parsed))))
unfolding deduplicate
deduplicate_lem values = (
  dedup_from-Distinct [] values,
  λ v.
      let r = dedup_from_lem v [] values in
      let p = parses_iff (parse_relay_url v) in
      ((λ h. ((r.0 h).0, p.0 ((r.0 h).1))), (λ h. r.1 (h.0, p.1 h.1, no_one_seen v))),
)
