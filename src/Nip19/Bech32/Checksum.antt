-- ===== src/Nip19/Bech32/Checksum.antt =====
-- CreateChecksum and VerifyChecksum of src/nip19/bech32_internal.hpp.
use monitostr.Prelude.{
  ℕ, ◌+◌, ◌*◌, ◌/◌, ◌%◌, ◌^◌, ◌<◌, Bool, true, false, List, [], ◌∷◌, ◌++◌, Text, ◌==◌, ==_iff, ◌≡◌,
  refl, sym, ap, ◌∙◌, All, append_assoc, arith, if◌then◌else◌,
}
use monitostr.Prelude.Xor.{
  zero-bit_xor, bit_xor-zero, bit_xor_assoc, bit_xor_comm, bit_xor_self, bit_xor-high, bit_xor-low,
  bit_xor_small, bit_xor-times_32, bit_xor_add,
}
use Prim.Native.Nat.{bit_xor}
use monitostr.Nip19.Bech32.{
  gen, mix, polymod_step, polymod_from, polymod, hrp_expand, verify_checksum, six_zeros,
  six_symbols, create_checksum,
}

chosen :
    (b : Bool) (f : ℕ → ℕ) (p q p' q' y : ℕ)
    → f p ≡ bit_xor (f p') y
    → f q ≡ bit_xor (f q') y
    → f (if b then p else q) ≡ bit_xor (f (if b then p' else q')) y
chosen true f p q p' q' y h k = h
chosen false f p q p' q' y h k = k

mix-bit_xor :
    (top : ℕ) (gs : List ℕ) (x y : ℕ) → mix top gs (bit_xor x y) ≡ bit_xor (mix top gs x) y
unfolding mix
mix-bit_xor top [] x y = refl
mix-bit_xor top (g ∷ gs) x y =
    let swap : bit_xor (bit_xor x y) g ≡ bit_xor (bit_xor x g) y =
      bit_xor_assoc x y g ∙ ap (bit_xor x) (bit_xor_comm y g) ∙ sym (bit_xor_assoc x g y) in
    let taken = mix-bit_xor (top / 2) gs (bit_xor x g) y in
    let kept = mix-bit_xor (top / 2) gs x y in
    chosen (top % 2 == 0) (mix (top / 2) gs) _ _ _ _ y kept (ap (mix (top / 2) gs) swap ∙ taken)

-- A symbol put in beside the bits that `d` flips, where `d` is below the bits that are mixed.
step_flipped :
    (c d v : ℕ)
    → d < 2 ^ 25
    → v < 32
    → polymod_step (bit_xor c d) v ≡ bit_xor (polymod_step c 0) (d * 32 + v)
unfolding polymod_step
step_flipped c d v h k =
    let high : bit_xor c d / 2 ^ 25 ≡ c / 2 ^ 25 =
      bit_xor-high c d ∙ ap (bit_xor (c / 2 ^ 25)) (omega arith) ∙ bit_xor-zero (c / 2 ^ 25) in
    let low : bit_xor c d % 2 ^ 25 * 32 ≡ bit_xor (c % 2 ^ 25 * 32) (d * 32) =
      ap (λ n. n * 32) (bit_xor-low c d ∙ ap (bit_xor (c % 2 ^ 25)) (omega arith))
      ∙ sym (bit_xor-times_32 (c % 2 ^ 25) d) in
    let symbol : bit_xor (bit_xor (c % 2 ^ 25 * 32) (d * 32)) v
        ≡ bit_xor (c % 2 ^ 25 * 32) (d * 32 + v) =
      bit_xor_assoc (c % 2 ^ 25 * 32) (d * 32) v
      ∙ ap (bit_xor (c % 2 ^ 25 * 32)) (bit_xor_add d v k) in
    let top = c / 2 ^ 25 % 256 in
    ap (λ t. mix (t % 256) gen (bit_xor (bit_xor c d % 2 ^ 25 * 32) v)) high
    ∙ ap (λ l. mix top gen (bit_xor l v)) low
    ∙ ap (mix top gen) symbol
    ∙ mix-bit_xor top gen (c % 2 ^ 25 * 32) (d * 32 + v)
    ∙ ap (λ l. bit_xor (mix top gen l) (d * 32 + v)) (sym (bit_xor-zero (c % 2 ^ 25 * 32)))

step_first : (c v : ℕ) → polymod_step c v ≡ bit_xor (polymod_step c 0) v
unfolding polymod_step
step_first c v =
    let top = c / 2 ^ 25 % 256 in
    mix-bit_xor top gen (c % 2 ^ 25 * 32) v
    ∙ ap (λ l. bit_xor (mix top gen l) v) (sym (bit_xor-zero (c % 2 ^ 25 * 32)))

-- The number of six symbols.
abbrev pack : ℕ → ℕ → ℕ → ℕ → ℕ → ℕ → ℕ
pack a b c d e f = ((((a * 32 + b) * 32 + c) * 32 + d) * 32 + e) * 32 + f

-- Six last symbols flip the bits of what six zeros give.
six_flipped :
    (chk a b c d e f : ℕ)
    → a < 32
    → b < 32
    → c < 32
    → d < 32
    → e < 32
    → f < 32
    → polymod_from chk (a ∷ b ∷ c ∷ d ∷ e ∷ f ∷ [])
      ≡ bit_xor (polymod_from chk six_zeros) (pack a b c d e f)
unfolding polymod_from
six_flipped chk a b c d e f ha hb hc hd he hf =
    let s : ℕ → ℕ = λ n. polymod_step n 0 in
    let b' = a * 32 + b in
    let c' = b' * 32 + c in
    let d' = c' * 32 + d in
    let e' = d' * 32 + e in
    let e1 = step_first chk a in
    let e2 = step_flipped (s chk) a b (omega arith) hb in
    let e3 = step_flipped (s (s chk)) b' c (omega arith) hc in
    let e4 = step_flipped (s (s (s chk))) c' d (omega arith) hd in
    let e5 = step_flipped (s (s (s (s chk)))) d' e (omega arith) he in
    let e6 = step_flipped (s (s (s (s (s chk))))) e' f (omega arith) hf in
    ap (λ n. polymod_from n (b ∷ c ∷ d ∷ e ∷ f ∷ [])) e1
    ∙ ap (λ n. polymod_from n (c ∷ d ∷ e ∷ f ∷ [])) e2
    ∙ ap (λ n. polymod_from n (d ∷ e ∷ f ∷ [])) e3
    ∙ ap (λ n. polymod_from n (e ∷ f ∷ [])) e4
    ∙ ap (λ n. polymod_from n (f ∷ [])) e5
    ∙ e6

pub polymod_from-append :
    (chk : ℕ) (xs ys : List ℕ) → polymod_from chk (xs ++ ys) ≡ polymod_from (polymod_from chk xs) ys
unfolding polymod_from
polymod_from-append chk [] ys = refl
polymod_from-append chk (x ∷ xs) ys = polymod_from-append (polymod_step chk x) xs ys

mix_small :
    (top : ℕ) (gs : List ℕ) (x : ℕ) → All (λ g. g < 2 ^ 30) gs → x < 2 ^ 30 → mix top gs x < 2 ^ 30
unfolding mix
mix_small top [] x hg h = h
mix_small top (g ∷ gs) x hg h = ground (
  arith,
  mix_small (top / 2) gs x hg.1 h,
  mix_small (top / 2) gs (bit_xor x g) hg.1 (bit_xor_small x g h hg.0),
)

step_small : (c v : ℕ) → v < 2 ^ 30 → polymod_step c v < 2 ^ 30
unfolding polymod_step
step_small c v h =
    mix_small (c / 2 ^ 25 % 256) gen (bit_xor (c % 2 ^ 25 * 32) v) (grind arith)
      (bit_xor_small (c % 2 ^ 25 * 32) v (omega arith) h)

six_zeros_small : (chk : ℕ) → polymod_from chk six_zeros < 2 ^ 30
unfolding polymod_from
six_zeros_small chk = step_small (polymod_from chk (0 ∷ 0 ∷ 0 ∷ 0 ∷ 0 ∷ [])) 0 (omega arith)

-- A 30-bit number is the number of its six symbols.
six_symbols_lem :
    (chk poly : ℕ)
    → poly < 2 ^ 30
    → polymod_from chk (six_symbols poly) ≡ bit_xor (polymod_from chk six_zeros) poly
unfolding six_symbols
six_symbols_lem chk poly h =
    six_flipped chk (poly / 2 ^ 25 % 32) (poly / 2 ^ 20 % 32) (poly / 2 ^ 15 % 32)
      (poly / 2 ^ 10 % 32) (poly / 2 ^ 5 % 32) (poly % 32) (omega arith) (omega arith) (omega arith)
      (omega arith) (omega arith) (omega arith)
    ∙ ap (bit_xor (polymod_from chk six_zeros)) (omega arith)

-- For every prefix and every list of symbols, the symbols followed by the checksum created for
-- them pass the checksum test.
pub verify_checksum-create_checksum :
    (hrp : Text) (values : List ℕ)
    → verify_checksum hrp (values ++ create_checksum hrp values) ≡ true
unfolding verify_checksum create_checksum polymod
verify_checksum-create_checksum hrp values =
    let chk = polymod_from 1 (hrp_expand hrp ++ values) in
    let p = polymod_from chk six_zeros in
    let small = bit_xor_small p 1 (six_zeros_small chk) (omega arith) in
    let tail = polymod_from-append 1 (hrp_expand hrp ++ values) in
    let whole : polymod_from 1 (hrp_expand hrp ++ values ++ six_symbols (bit_xor p 1)) ≡ 1 =
      tail (six_symbols (bit_xor p 1))
      ∙ six_symbols_lem chk (bit_xor p 1) small
      ∙ sym (bit_xor_assoc p p 1)
      ∙ ap (λ n. bit_xor n 1) (bit_xor_self p)
      ∙ zero-bit_xor 1 in
    let written =
      ap (λ n. polymod_from 1 (hrp_expand hrp ++ values ++ six_symbols (bit_xor n 1)))
        (tail six_zeros) in
    let grouped =
      ap (polymod_from 1)
        (sym (append_assoc (hrp_expand hrp) values (create_checksum hrp values))) in
    (==_iff (polymod_from 1 (hrp_expand hrp ++ (values ++ create_checksum hrp values))) 1).1
      (grouped ∙ written ∙ whole)
