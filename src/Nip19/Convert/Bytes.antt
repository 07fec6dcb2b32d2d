-- ===== src/Nip19/Convert/Bytes.antt =====
-- The width of what ConvertBits of src/nip19/bech32_internal.hpp writes.
use monitostr.Prelude.{
  ℕ, zero, suc, ◌+◌, ◌-◌, ◌%◌, ◌^◌, Bool, true, false, List, [], ◌∷◌, Option, none, some, ltb, leb,
  not, ◌||◌, ◌==◌, All, All-append, Bool-cases, inl, inr, arith,
}
use monitostr.Nip19.Convert.{
  emit, Regroup, shift_in, after, if_narrow, regroup, left_over, finish, convert_bits,
}
use monitostr.Nip19.Convert.Value.{Fits}

emit-Fits : (fuel to_bits acc bits : ℕ) → All (Fits 8) (emit fuel to_bits acc bits).0
unfolding emit
emit-Fits zero to_bits acc bits = tt
emit-Fits (suc fuel) to_bits acc bits = elim (Bool-cases (ltb bits to_bits)) [
  | inl e ↦ rw (e, emit) tt
  | inr e ↦ rw (e, emit) (omega arith, emit-Fits fuel to_bits acc (bits - to_bits))
]

-- The bytes of a result, if there is one.
abbrev IsRegroup : Option Regroup → Type 0
IsRegroup none = Unit {0}
IsRegroup (some r) = All (Fits 8) r.out

after-IsRegroup :
    (groups : List ℕ) (o : Option Regroup)
    → All (Fits 8) groups
    → IsRegroup o
    → IsRegroup (after groups o)
unfolding after
after-IsRegroup groups none g h = tt
after-IsRegroup groups (some r) g h = All-append (Fits 8) groups r.out g h

regroup-IsRegroup :
    (from_bits to_bits acc bits : ℕ) (values : List ℕ)
    → IsRegroup (regroup from_bits to_bits acc bits values)
unfolding regroup if_narrow
regroup-IsRegroup from_bits to_bits acc bits [] = tt
regroup-IsRegroup from_bits to_bits acc bits (value ∷ values) =
    let acc' = shift_in from_bits to_bits acc value in
    let emitted = emit (suc (bits + from_bits)) to_bits acc' (bits + from_bits) in
    elim (Bool-cases (ltb value (2 ^ from_bits))) [
      | inl e ↦
          rw (e, regroup)
            (after-IsRegroup emitted.0 _
              (emit-Fits (suc (bits + from_bits)) to_bits acc' (bits + from_bits))
              (regroup-IsRegroup from_bits to_bits acc' emitted.1 values))
      | inr e ↦ rw (e, regroup) tt
    ]

abbrev pub AreBytes : Option (List ℕ) → Type 0
AreBytes none = Unit {0}
AreBytes (some out) = All (Fits 8) out

finish-AreBytes :
    (from_bits to_bits : ℕ) (pad : Bool) (o : Option Regroup)
    → IsRegroup o
    → AreBytes (finish from_bits to_bits pad o)
unfolding finish
finish-AreBytes from_bits to_bits pad none h = tt
finish-AreBytes from_bits to_bits true (some r) h = elim (Bool-cases (ltb 0 r.bits)) [
  | inl e ↦
      rw (e, finish)
        (All-append (Fits 8) r.out (left_over to_bits r % 256 ∷ []) h (omega arith, tt))
  | inr e ↦ rw (e, finish) h
]
finish-AreBytes from_bits to_bits false (some r) h =
    elim (Bool-cases (leb from_bits r.bits || not (left_over to_bits r == 0))) [
      | inl e ↦ rw (e, finish) tt
      | inr e ↦ rw (e, finish) h
    ]

-- Whatever the widths, the padding and the values, each element that ConvertBits writes is a byte.
pub convert_bits-AreBytes :
    (from_bits to_bits : ℕ) (pad : Bool) (input : List ℕ)
    → AreBytes (convert_bits from_bits to_bits pad input)
unfolding convert_bits
convert_bits-AreBytes from_bits to_bits pad input =
    finish-AreBytes from_bits to_bits pad (regroup from_bits to_bits 0 0 input)
      (regroup-IsRegroup from_bits to_bits 0 0 input)
