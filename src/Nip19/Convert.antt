-- ===== src/Nip19/Convert.antt =====
-- ConvertBits of src/nip19/bech32_internal.hpp: regrouping bits, most significant first.
pub mod Value
pub mod Bytes
pub mod Enough
pub mod RoundTrip
use monitostr.Prelude.{
  ℕ, zero, suc, ◌+◌, ◌-◌, ◌*◌, ◌/◌, ◌%◌, ◌^◌, Bool, true, false, ◌||◌, not, List, [], ◌∷◌, ◌++◌,
  Option, none, some, ltb, leb, ◌==◌, if◌then◌else◌, ◌≡◌, refl,
}

-- `while (bits >= to_bits)`: the groups it emits and the bits that are left. `suc bits` rounds are
-- enough when `to_bits` is not 0.
unfoldable pub emit : ℕ → ℕ → ℕ → ℕ → List ℕ × ℕ
emit zero to_bits acc bits = ([], bits)
emit (suc fuel) to_bits acc bits =
    let rest = emit fuel to_bits acc (bits - to_bits) in
    elim (ltb bits to_bits) [
      | true ↦ ([], bits)
      | false ↦ ((acc / 2 ^ (bits - to_bits)) % 2 ^ to_bits % 256 ∷ rest.0, rest.1)
    ]

-- The variables of the loop over the input.
pub record Regroup : Type 0 where
  pub out : List ℕ
  pub acc : ℕ
  pub bits : ℕ

-- `((acc << from_bits) | value) & max_acc`; `value` has at most `from_bits` bits here.
unfoldable pub shift_in : ℕ → ℕ → ℕ → ℕ → ℕ
shift_in from_bits to_bits acc value = (acc * 2 ^ from_bits + value) % 2 ^ (from_bits + to_bits - 1)

unfoldable pub after : List ℕ → Option Regroup → Option Regroup
after groups none = none
after groups (some r) = some (record r { out = groups ++ r.out })

-- `if ((value >> from_bits) != 0U) return false;`
unfoldable pub if_narrow : Bool → Option Regroup → Option Regroup
if_narrow true r = r
if_narrow false r = none

-- The loop from the given `acc` and `bits`; a value that is too wide makes it return false.
unfoldable pub regroup : ℕ → ℕ → ℕ → ℕ → List ℕ → Option Regroup
unfolding emit shift_in after if_narrow
regroup from_bits to_bits acc bits [] = some (record { out = []; acc = acc; bits = bits })
regroup from_bits to_bits acc bits (value ∷ values) =
    let acc' = shift_in from_bits to_bits acc value in
    let emitted = emit (suc (bits + from_bits)) to_bits acc' (bits + from_bits) in
    if_narrow (ltb value (2 ^ from_bits))
      (after emitted.0 (regroup from_bits to_bits acc' emitted.1 values))

-- What is left below a full group, moved to its top.
unfoldable pub left_over : ℕ → Regroup → ℕ
left_over to_bits r = (r.acc * 2 ^ (to_bits - r.bits)) % 2 ^ to_bits

unfoldable pub finish : ℕ → ℕ → Bool → Option Regroup → Option (List ℕ)
unfolding left_over
finish from_bits to_bits pad none = none
finish from_bits to_bits true (some r) =
    if ltb 0 r.bits then some (r.out ++ left_over to_bits r % 256 ∷ []) else some r.out
finish from_bits to_bits false (some r) =
    if leb from_bits r.bits || not (left_over to_bits r == 0) then none else some r.out

unfoldable pub convert_bits : ℕ → ℕ → Bool → List ℕ → Option (List ℕ)
unfolding regroup finish
convert_bits from_bits to_bits pad input =
    finish from_bits to_bits pad (regroup from_bits to_bits 0 0 input)
