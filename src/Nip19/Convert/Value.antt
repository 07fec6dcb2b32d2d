-- ===== src/Nip19/Convert/Value.antt =====
-- What ConvertBits keeps: the number whose digits the groups are.
use monitostr.Prelude.{
  ℕ, zero, suc, ◌+◌, ◌*◌, ◌%◌, ◌^◌, ◌<◌, List, [], ◌∷◌, ◌++◌, some, ◌≡◌, refl, All, length, arith,
  ◌∙◌, ap, lt→ltb, All-append, length-append,
}
use monitostr.Nip19.Convert.{emit, Regroup, shift_in, after, if_narrow, regroup}

-- The digits read after the number `start`, in base `2 ^ width`.
unfoldable pub value_from : ℕ → ℕ → List ℕ → ℕ
value_from width start [] = start
value_from width start (d ∷ ds) = value_from width (start * 2 ^ width + d) ds

abbrev pub Fits : ℕ → ℕ → Type 0
Fits width d = d < 2 ^ width

pub value_from-append :
    (width start : ℕ) (xs ys : List ℕ)
    → value_from width start (xs ++ ys) ≡ value_from width (value_from width start xs) ys
unfolding value_from
value_from-append width start [] ys = refl
value_from-append width start (x ∷ xs) ys = value_from-append width (start * 2 ^ width + x) xs ys

-- One input digit: the groups emitted and the bits left hold what there was and the digit.
abbrev pub Keeps : ℕ → ℕ → ℕ → ℕ → Type 0
Keeps from_bits to_bits bits value =
    (e acc : ℕ)
    → let acc' = shift_in from_bits to_bits acc value in
      let emitted = emit (suc (bits + from_bits)) to_bits acc' (bits + from_bits) in
      (value_from to_bits e emitted.0 * 2 ^ emitted.1 + acc' % 2 ^ emitted.1
        ≡ (e * 2 ^ bits + acc % 2 ^ bits) * 2 ^ from_bits + value)
      × (to_bits * length emitted.0 + emitted.1 ≡ bits + from_bits)
      × (emitted.1 < to_bits)
      × All (Fits to_bits) emitted.0

pub Keeps-8_5 : (bits value : ℕ) → bits < 5 → value < 256 → Keeps 8 5 bits value
unfolding value_from emit shift_in
Keeps-8_5 zero value h k = λ e acc. (omega arith, omega arith, omega arith, grind arith)
Keeps-8_5 (suc zero) value h k = λ e acc. (omega arith, omega arith, omega arith, grind arith)
Keeps-8_5 (suc (suc zero)) value h k = λ e acc. (omega arith, omega arith, omega arith, grind arith)
Keeps-8_5 (suc (suc (suc zero))) value h k =
    λ e acc. (omega arith, omega arith, omega arith, grind arith)
Keeps-8_5 (suc (suc (suc (suc zero)))) value h k =
    λ e acc. (omega arith, omega arith, omega arith, grind arith)
Keeps-8_5 (suc (suc (suc (suc (suc n))))) value h k = absurd (omega arith)

pub Keeps-5_8 : (bits value : ℕ) → bits < 8 → value < 32 → Keeps 5 8 bits value
unfolding value_from emit shift_in
Keeps-5_8 zero value h k = λ e acc. (omega arith, omega arith, omega arith, grind arith)
Keeps-5_8 (suc zero) value h k = λ e acc. (omega arith, omega arith, omega arith, grind arith)
Keeps-5_8 (suc (suc zero)) value h k = λ e acc. (omega arith, omega arith, omega arith, grind arith)
Keeps-5_8 (suc (suc (suc zero))) value h k =
    λ e acc. (omega arith, omega arith, omega arith, grind arith)
Keeps-5_8 (suc (suc (suc (suc zero)))) value h k =
    λ e acc. (omega arith, omega arith, omega arith, grind arith)
Keeps-5_8 (suc (suc (suc (suc (suc zero))))) value h k =
    λ e acc. (omega arith, omega arith, omega arith, grind arith)
Keeps-5_8 (suc (suc (suc (suc (suc (suc zero)))))) value h k =
    λ e acc. (omega arith, omega arith, omega arith, grind arith)
Keeps-5_8 (suc (suc (suc (suc (suc (suc (suc zero))))))) value h k =
    λ e acc. (omega arith, omega arith, omega arith, grind arith)
Keeps-5_8 (suc (suc (suc (suc (suc (suc (suc (suc n)))))))) value h k = absurd (omega arith)

-- The loop ends, with the number that the input makes and fewer than `to_bits` bits left.
module _ (from_bits to_bits : ℕ)
    (keeps : (bits value : ℕ)
      → bits < to_bits
      → value < 2 ^ from_bits
      → Keeps from_bits to_bits bits value) where
  abbrev pub Regroups : ℕ → ℕ → List ℕ → Type 0
  Regroups acc bits values =
      (r : Regroup) × (regroup from_bits to_bits acc bits values ≡ some r)
      × ((e : ℕ)
          → value_from to_bits e r.out * 2 ^ r.bits + r.acc % 2 ^ r.bits
            ≡ value_from from_bits (e * 2 ^ bits + acc % 2 ^ bits) values)
      × (to_bits * length r.out + r.bits ≡ bits + from_bits * length values)
      × (r.bits < to_bits)
      × All (Fits to_bits) r.out

  pub regroup_lem :
      (acc bits : ℕ) (values : List ℕ)
      → bits < to_bits
      → All (Fits from_bits) values
      → Regroups acc bits values
  unfolding regroup value_from after if_narrow
  regroup_lem acc bits [] small fit =
      (record { out = []; acc = acc; bits = bits }, refl, (λ e. refl), omega arith, small, tt)
  regroup_lem acc bits (value ∷ values) small fit =
      let k = keeps bits value small fit.0 in
      let acc' = shift_in from_bits to_bits acc value in
      let emitted = emit (suc (bits + from_bits)) to_bits acc' (bits + from_bits) in
      let rest = regroup_lem acc' emitted.1 values (k 0 acc).2 fit.1 in
      let r = rest.0 in
      (
        record r { out = emitted.0 ++ r.out },
        rw (lt→ltb value (2 ^ from_bits) fit.0, regroup, rest.1) refl,
        (λ e. rw (value_from-append to_bits e emitted.0 r.out) (
            rest.2 (value_from to_bits e emitted.0)
            ∙ ap (λ n. value_from from_bits n values) (k e acc).0)),
        rw (length-append emitted.0 r.out) (grind (arith, (k 0 acc).1, rest.3)),
        rest.4,
        All-append (Fits to_bits) emitted.0 r.out (k 0 acc).3 rest.5,
      )
