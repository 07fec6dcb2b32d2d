-- ===== src/Net/SessionSupport/Nips.antt =====
-- ParseSupportedNipsFromNip11Body of src/net/relay_session_support.cpp.
use monitostr.Prelude.{
  ℕ, ◌-◌, ◌%◌, ◌^◌, ◌<◌, ◌≡◌, ◌≢◌, ◌↔◌, ◌⊎◌, inl, inr, refl, some, Text, codes, ℤ, pos, negsuc,
  ltb_ℤ, eq_ℤ, eq_ℤ_iff, ltb_ℤ-IsStrictOrder, sort, Has, sort-Has, unique-Has, IsStrictlySorted,
  sort-IsSorted, unique-IsStrictlySorted, arith, sym, ap, subst,
}
use monitostr.Net.Json.{
  Json, Items, null, boolean, integer, float, string, array, object, nil, item, member, to_int,
}
use monitostr.Net.Services.{Services}
use monitostr.Net.SessionSupport.{integers_of, parse_supported_nips_from_nip11_body}

-- The array has this element.
abbrev pub Holds : Json → Items → Type 0
Holds value nil = ⊥
Holds value (item v rest) = (v ≡ value) ⊎ Holds value rest

-- The remainder of an integer by 2^32.
abbrev pub residue : ℤ → ℕ
residue (pos n) = n % 2 ^ 32
residue (negsuc n) = 2 ^ 32 - 1 - n % 2 ^ 32

-- The range of an `int`.
abbrev pub IsInt : ℤ → Type 0
IsInt (pos n) = n < 2 ^ 31
IsInt (negsuc n) = n < 2 ^ 31

-- `n` is the `int` that is congruent to `m` modulo 2^32.
abbrev pub Reduces : ℤ → ℤ → Type 0
Reduces m n = IsInt n × (residue n ≡ residue m)

to_int-Reduces : (m : ℤ) → Reduces m (to_int m)
unfolding to_int
to_int-Reduces (pos m) = ground arith
to_int-Reduces (negsuc m) = ground arith

-- There is one such `int` only.
Reduces-unique : (m a b : ℤ) → Reduces m a → Reduces m b → a ≡ b
Reduces-unique m (pos a) (pos b) h k = ap pos (omega (arith, h.0, h.1, k.0, k.1))
Reduces-unique m (pos a) (negsuc b) h k = absurd (omega (arith, h.0, h.1, k.0, k.1))
Reduces-unique m (negsuc a) (pos b) h k = absurd (omega (arith, h.0, h.1, k.0, k.1))
Reduces-unique m (negsuc a) (negsuc b) h k = ap negsuc (omega (arith, h.0, h.1, k.0, k.1))

-- An integer of the array that is reduced to `n`.
abbrev pub Lists : Items → ℤ → Type 0
Lists values n = (m : ℤ) × Holds (integer m) values × Reduces m n

-- A value that is no integer adds nothing.
skips :
    (value : Json) (rest : Items) (n : ℤ)
    → ((m : ℤ) → value ≢ integer m)
    → Has n (integers_of rest) ↔ Lists rest n
    → Has n (integers_of rest) ↔ Lists (item value rest) n
skips value rest n other ih = (
  (λ h. let (m, at, low) = ih.0 h in (m, inr at, low)),
  (λ (m, at, low). elim at [ inl e ↦ absurd (other m e) | inr k ↦ ih.1 (m, k, low) ]),
)

integers_of-Lists : (values : Items) (n : ℤ) → Has n (integers_of values) ↔ Lists values n
unfolding integers_of
integers_of-Lists nil n = (λ h. absurd h, λ (m, at, low). absurd at)
integers_of-Lists (item (integer k) rest) n =
    let ih = integers_of-Lists rest n in
    (
      (λ h. elim h [
        | inl e ↦ (k, inl refl, subst (Reduces k) (sym e) (to_int-Reduces k))
        | inr t ↦ let (m, at, low) = ih.0 t in (m, inr at, low)
      ]),
      (λ (m, at, low). elim at [
        | inl e ↦
            let same : k ≡ m = cc in
            inl (
              Reduces-unique m n (to_int k) low
                (subst (λ j. Reduces j (to_int k)) same (to_int-Reduces k)))
        | inr t ↦ inr (ih.1 (m, t, low))
      ]),
    )
integers_of-Lists (item null rest) n = skips null rest n (λ m e. cc) (integers_of-Lists rest n)
integers_of-Lists (item (boolean b) rest) n =
    skips (boolean b) rest n (λ m e. cc) (integers_of-Lists rest n)
integers_of-Lists (item (float t) rest) n =
    skips (float t) rest n (λ m e. cc) (integers_of-Lists rest n)
integers_of-Lists (item (string t) rest) n =
    skips (string t) rest n (λ m e. cc) (integers_of-Lists rest n)
integers_of-Lists (item (array items) rest) n =
    skips (array items) rest n (λ m e. cc) (integers_of-Lists rest n)
integers_of-Lists (item (object fields) rest) n =
    skips (object fields) rest n (λ m e. cc) (integers_of-Lists rest n)

-- If the body is a JSON value whose `supported_nips` is an array, the result is strictly
-- increasing and holds exactly the ints that are congruent modulo 2^32 to an integer of the array.
pub parse_supported_nips_lem :
    (lib : Services) (body : Text) (json : Json) (values : Items)
    → lib.parse body ≡ some json
    → member (codes "supported_nips") json ≡ some (array values)
    → IsStrictlySorted ltb_ℤ (parse_supported_nips_from_nip11_body lib body)
      × ((n : ℤ) → Has n (parse_supported_nips_from_nip11_body lib body) ↔ Lists values n)
unfolding parse_supported_nips_from_nip11_body
parse_supported_nips_lem lib body json values p q =
    let found = integers_of values in
    rw (p, parse_supported_nips_from_nip11_body)
      (rw (q, parse_supported_nips_from_nip11_body)
        (
          unique-IsStrictlySorted eq_ℤ eq_ℤ_iff ltb_ℤ ltb_ℤ-IsStrictOrder (sort ltb_ℤ found)
              (sort-IsSorted ltb_ℤ ltb_ℤ-IsStrictOrder.asym found),
          λ n.
              let ends = integers_of-Lists values n in
              let u = unique-Has eq_ℤ eq_ℤ_iff n (sort ltb_ℤ found) in
              let t = sort-Has ltb_ℤ n found in
              ((λ h. ends.0 (t.0 (u.0 h))), (λ h. u.1 (t.1 (ends.1 h)))),
        ))
