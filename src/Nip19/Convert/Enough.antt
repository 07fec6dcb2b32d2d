-- ===== src/Nip19/Convert/Enough.antt =====
-- The fuel of the inner loop of ConvertBits.
use monitostr.Prelude.{
  ℕ, zero, suc, ◌-◌, ◌/◌, ◌%◌, ◌^◌, ◌<◌, ◌≡◌, refl, ◌∷◌, arith, ltb, ap, Bool-cases, inl, inr,
}
use monitostr.Nip19.Convert.{emit}

-- For a group width of at least 1, fuel above the number of bits ends the inner loop of
-- ConvertBits with fewer bits than a group, and one more round gives the same groups and bits.
pub emit_enough :
    (to_bits acc bits fuel : ℕ)
    → 0 < to_bits
    → bits < fuel
    → ((emit fuel to_bits acc bits).1 < to_bits)
      × (emit fuel to_bits acc bits ≡ emit (suc fuel) to_bits acc bits)
unfolding emit
emit_enough to_bits acc bits zero pos h = absurd (omega (arith, h))
emit_enough to_bits acc bits (suc fuel) pos h = elim (Bool-cases (ltb bits to_bits)) [
  | inl e ↦ rw (e, emit) (ground (arith, e), refl)
  | inr e ↦
      let rest = emit_enough to_bits acc (bits - to_bits) fuel pos (ground (arith, e)) in
      rw (e, emit)
        (rest.0, ap (λ r. ((acc / 2 ^ (bits - to_bits)) % 2 ^ to_bits % 256 ∷ r.0, r.1)) rest.1)
]
