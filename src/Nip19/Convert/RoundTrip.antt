-- ===== src/Nip19/Convert/RoundTrip.antt =====
-- ConvertBits from bytes to 5-bit groups and back.
use monitostr.Prelude.{
  ℕ, zero, suc, ◌+◌, ◌-◌, ◌*◌, ◌%◌, ◌^◌, ◌<◌, true, false, List, [], ◌∷◌, ◌++◌, some, ◌≡◌, refl,
  All, length, arith, ◌∙◌, ap, sym, All-append, length-append,
}
use monitostr.Nip19.Convert.{left_over, finish, convert_bits}
use monitostr.Nip19.Convert.Value.{
  Fits, regroup_lem, Keeps-8_5, Keeps-5_8, value_from, value_from-append,
}

-- Digits of the same number, as many on both sides, are the same digits.
pub value_from_injective :
    (s t : ℕ) (xs ys : List ℕ)
    → length xs ≡ length ys
    → All (Fits 8) xs
    → All (Fits 8) ys
    → value_from 8 s xs ≡ value_from 8 t ys
    → (s ≡ t) × (xs ≡ ys)
unfolding value_from
value_from_injective s t [] [] e hx hy h = (h, refl)
value_from_injective s t [] (y ∷ ys) e hx hy h = absurd (omega (arith, e))
value_from_injective s t (x ∷ xs) [] e hx hy h = absurd (omega (arith, e))
value_from_injective s t (x ∷ xs) (y ∷ ys) e hx hy h =
    let rest =
      value_from_injective (s * 2 ^ 8 + x) (t * 2 ^ 8 + y) xs ys (omega (arith, e)) hx.1 hy.1 h in
    let small = hx.0 in
    let small' = hy.0 in
    let head = rest.0 in let tail = rest.1 in let same : x ≡ y = omega arith in (omega arith, cc)

-- Padding: zero bits that fill the last group.
pub finish_pad :
    (out : List ℕ) (acc bits : ℕ)
    → bits < 5
    → All (Fits 5) out
    → (data5 : List ℕ) × (finish 8 5 true (some (record { out = out; acc = acc; bits = bits }))
        ≡ some data5)
      × All (Fits 5) data5
      × (value_from 5 0 data5
          ≡ (value_from 5 0 out * 2 ^ bits + acc % 2 ^ bits) * 2 ^ ((5 - bits) % 5))
      × (5 * length data5 ≡ 5 * length out + bits + (5 - bits) % 5)
unfolding finish left_over value_from
finish_pad out acc zero h fit = (out, refl, fit, omega arith, omega arith)
finish_pad out acc (suc zero) h fit = (
  out ++ (acc * 16) % 32 % 256 ∷ [],
  refl,
  All-append (Fits 5) out _ fit (grind arith, tt),
  rw (value_from-append 5 0 out ((acc * 16) % 32 % 256 ∷ [])) (omega arith),
  rw (length-append out ((acc * 16) % 32 % 256 ∷ [])) (omega arith),
)
finish_pad out acc (suc (suc zero)) h fit = (
  out ++ (acc * 8) % 32 % 256 ∷ [],
  refl,
  All-append (Fits 5) out _ fit (grind arith, tt),
  rw (value_from-append 5 0 out ((acc * 8) % 32 % 256 ∷ [])) (omega arith),
  rw (length-append out ((acc * 8) % 32 % 256 ∷ [])) (omega arith),
)
finish_pad out acc (suc (suc (suc zero))) h fit = (
  out ++ (acc * 4) % 32 % 256 ∷ [],
  refl,
  All-append (Fits 5) out _ fit (grind arith, tt),
  rw (value_from-append 5 0 out ((acc * 4) % 32 % 256 ∷ [])) (omega arith),
  rw (length-append out ((acc * 4) % 32 % 256 ∷ [])) (omega arith),
)
finish_pad out acc (suc (suc (suc (suc zero)))) h fit = (
  out ++ (acc * 2) % 32 % 256 ∷ [],
  refl,
  All-append (Fits 5) out _ fit (grind arith, tt),
  rw (value_from-append 5 0 out ((acc * 2) % 32 % 256 ∷ [])) (omega arith),
  rw (length-append out ((acc * 2) % 32 % 256 ∷ [])) (omega arith),
)
finish_pad out acc (suc (suc (suc (suc (suc n))))) h fit = absurd (omega arith)

-- Without padding: zero bits below a full group are dropped.
pub finish_exact :
    (out : List ℕ) (acc bits : ℕ)
    → bits < 5
    → acc % 2 ^ bits ≡ 0
    → finish 5 8 false (some (record { out = out; acc = acc; bits = bits })) ≡ some out
unfolding finish left_over
finish_exact out acc zero h e = ground arith
finish_exact out acc (suc zero) h e = ground arith
finish_exact out acc (suc (suc zero)) h e = ground arith
finish_exact out acc (suc (suc (suc zero))) h e = ground arith
finish_exact out acc (suc (suc (suc (suc zero)))) h e = ground arith
finish_exact out acc (suc (suc (suc (suc (suc n))))) h e = absurd (omega arith)

pub left_zero :
    (p x y a : ℕ) → p < 5 → x * 2 ^ p + a % 2 ^ p ≡ y * 2 ^ p → (a % 2 ^ p ≡ 0) × (x ≡ y)
left_zero zero x y a h e = (omega arith, omega arith)
left_zero (suc zero) x y a h e = (omega arith, omega arith)
left_zero (suc (suc zero)) x y a h e = (omega arith, omega arith)
left_zero (suc (suc (suc zero))) x y a h e = (omega arith, omega arith)
left_zero (suc (suc (suc (suc zero)))) x y a h e = (omega arith, omega arith)
left_zero (suc (suc (suc (suc (suc n))))) x y a h e = absurd (omega arith)

-- For bytes of any number, ConvertBits from 8 to 5 bits with padding succeeds with 5-bit groups,
-- with as many as the bits rounded up to a multiple of five need, and ConvertBits from 5 to 8 bits
-- without padding takes those groups back to the bytes.
pub convert_bits_round_trip :
    (bytes : List ℕ)
    → All (Fits 8) bytes
    → (data5 : List ℕ) × (convert_bits 8 5 true bytes ≡ some data5)
      × All (Fits 5) data5
      × (5 * length data5 ≡ 8 * length bytes + (5 - 8 * length bytes % 5) % 5)
      × (convert_bits 5 8 false data5 ≡ some bytes)
unfolding convert_bits
convert_bits_round_trip bytes fit =
    let g = regroup_lem 8 5 Keeps-8_5 0 0 bytes (omega arith) fit in
    let r = g.0 in
    let p = finish_pad r.out r.acc r.bits g.4 g.5 in
    let data5 = p.0 in
    let b = regroup_lem 5 8 Keeps-5_8 0 0 data5 (omega arith) p.2 in
    let q = b.0 in
    let small = g.4 in
    let left : q.bits ≡ (5 - r.bits) % 5 = omega (arith, g.3, p.4, b.3, b.4) in
    let size : length q.out ≡ length bytes = omega (arith, g.3, p.4, b.3, b.4) in
    let number : value_from 8 0 q.out * 2 ^ q.bits + q.acc % 2 ^ q.bits
        ≡ value_from 8 0 bytes * 2 ^ q.bits =
      b.2 0
      ∙ p.3
      ∙ ap (λ n. n * 2 ^ ((5 - r.bits) % 5)) (g.2 0)
      ∙ ap (λ n. value_from 8 0 bytes * 2 ^ n) (sym left) in
    let z = left_zero q.bits _ _ q.acc (omega arith) number in
    let same = (value_from_injective 0 0 q.out bytes size b.5 fit z.1).1 in
    (
      data5,
      rw g.1 p.1,
      p.2,
      omega (arith, g.3, p.4),
      ap (finish 5 8 false) b.1
          ∙ finish_exact q.out q.acc q.bits (omega arith) z.0
          ∙ ap (λ l. some l) same,
    )
