-- ===== src/Prelude/Xor.antt =====
-- The laws of exclusive or on native numbers, by binary digits.
use Prim.Native.Nat.{
  ℕ, zero, suc, ◌+◌, ◌*◌, ◌/◌, ◌%◌, ◌^◌, ◌≤◌, ◌<◌, bit_xor, digits, differ, bit_xor-bitwise,
}
use mathlib.Core.Path.{◌≡◌, refl, ◌∙◌}
use native.Mathlib.Omega.{arith}

abbrev xor_digits : ℕ → ℕ → ℕ → ℕ
xor_digits n a b = digits (λ b. b) differ n a b

differ_lem : (x y : ℕ) → x < 2 → y < 2 → differ x y ≡ (x + y) % 2
differ_lem zero y h k = omega arith
differ_lem (suc x) zero h k = omega arith
differ_lem (suc zero) (suc y) h k = omega arith
differ_lem (suc (suc x)) (suc y) h k = absurd (omega arith)

xor_digits_fuel : (n m a b : ℕ) → a ≤ n → a ≤ m → xor_digits n a b ≡ xor_digits m a b
xor_digits_fuel zero zero a b p q = refl
xor_digits_fuel zero (suc m) zero b p q = refl
xor_digits_fuel zero (suc m) (suc a) b p q = absurd (omega arith)
xor_digits_fuel (suc n) zero zero b p q = refl
xor_digits_fuel (suc n) zero (suc a) b p q = absurd (omega arith)
xor_digits_fuel (suc n) (suc m) zero b p q = refl
xor_digits_fuel (suc n) (suc m) (suc a) b p q =
    omega (arith, xor_digits_fuel n m (suc a / 2) (b / 2) (omega arith) (omega arith))

pub zero-bit_xor : (b : ℕ) → bit_xor 0 b ≡ b
zero-bit_xor b = bit_xor-bitwise 0 b

pub bit_xor_step : (a b : ℕ) → bit_xor a b ≡ bit_xor (a / 2) (b / 2) * 2 + (a % 2 + b % 2) % 2
bit_xor_step zero b = omega (arith, zero-bit_xor b, zero-bit_xor (b / 2))
bit_xor_step (suc a) b = omega (
  arith,
  bit_xor-bitwise (suc a) b,
  bit_xor-bitwise (suc a / 2) (b / 2),
  xor_digits_fuel a (suc a / 2) (suc a / 2) (b / 2) (omega arith) (omega arith),
  differ_lem (suc a % 2) (b % 2) (omega arith) (omega arith),
)

-- The lowest digit and the rest.
pub bit_xor-half : (a b : ℕ) → bit_xor a b / 2 ≡ bit_xor (a / 2) (b / 2)
bit_xor-half a b = omega (arith, bit_xor_step a b)

pub bit_xor-parity : (a b : ℕ) → bit_xor a b % 2 ≡ (a + b) % 2
bit_xor-parity a b = omega (arith, bit_xor_step a b)

bit_xor_comm_fuel : (n a b : ℕ) → a ≤ n → b ≤ n → bit_xor a b ≡ bit_xor b a
bit_xor_comm_fuel zero zero zero p q = refl
bit_xor_comm_fuel zero (suc a) b p q = absurd (omega arith)
bit_xor_comm_fuel zero zero (suc b) p q = absurd (omega arith)
bit_xor_comm_fuel (suc n) a b p q = omega (
  arith,
  bit_xor_step a b,
  bit_xor_step b a,
  bit_xor_comm_fuel n (a / 2) (b / 2) (omega arith) (omega arith),
)

pub bit_xor_comm : (a b : ℕ) → bit_xor a b ≡ bit_xor b a
bit_xor_comm a b = bit_xor_comm_fuel (a + b) a b (omega arith) (omega arith)

pub bit_xor-zero : (a : ℕ) → bit_xor a 0 ≡ a
bit_xor-zero a = bit_xor_comm a 0 ∙ zero-bit_xor a

bit_xor_assoc_fuel :
    (n a b c : ℕ) → a ≤ n → b ≤ n → c ≤ n → bit_xor (bit_xor a b) c ≡ bit_xor a (bit_xor b c)
bit_xor_assoc_fuel zero zero zero zero p q r = refl
bit_xor_assoc_fuel zero (suc a) b c p q r = absurd (omega arith)
bit_xor_assoc_fuel zero zero (suc b) c p q r = absurd (omega arith)
bit_xor_assoc_fuel zero zero zero (suc c) p q r = absurd (omega arith)
bit_xor_assoc_fuel (suc n) a b c p q r =
    let rest =
      bit_xor_assoc_fuel n (a / 2) (b / 2) (c / 2) (omega arith) (omega arith) (omega arith) in
    let left = bit_xor_step (bit_xor a b) c in
    let right = bit_xor_step a (bit_xor b c) in
    let half = bit_xor-half a b in
    let half' = bit_xor-half b c in
    let low = bit_xor-parity a b in
    let low' = bit_xor-parity b c in
    let left' : bit_xor (bit_xor a b) c
        ≡ bit_xor (bit_xor (a / 2) (b / 2)) (c / 2) * 2 + (a + b + c) % 2 =
      grind arith in
    let right' : bit_xor a (bit_xor b c)
        ≡ bit_xor (a / 2) (bit_xor (b / 2) (c / 2)) * 2 + (a + b + c) % 2 =
      grind arith in
    omega (arith, rest, left', right')

pub bit_xor_assoc : (a b c : ℕ) → bit_xor (bit_xor a b) c ≡ bit_xor a (bit_xor b c)
bit_xor_assoc a b c = bit_xor_assoc_fuel (a + b + c) a b c (omega arith) (omega arith) (omega arith)

bit_xor_self_fuel : (n a : ℕ) → a ≤ n → bit_xor a a ≡ 0
bit_xor_self_fuel zero zero p = refl
bit_xor_self_fuel zero (suc a) p = absurd (omega arith)
bit_xor_self_fuel (suc n) a p =
    omega (arith, bit_xor_step a a, bit_xor_self_fuel n (a / 2) (omega arith))

pub bit_xor_self : (a : ℕ) → bit_xor a a ≡ 0
bit_xor_self a = bit_xor_self_fuel a a (omega arith)

-- The digits from the k-th on, and those below it: the operation works on them apart.
pub from_digit : ℕ → ℕ → ℕ
from_digit zero a = a
from_digit (suc k) a = from_digit k (a / 2)

pub below_digit : ℕ → ℕ → ℕ
below_digit zero a = 0
below_digit (suc k) a = below_digit k (a / 2) * 2 + a % 2

from_digit-bit_xor :
    (k a b : ℕ) → from_digit k (bit_xor a b) ≡ bit_xor (from_digit k a) (from_digit k b)
unfolding from_digit
from_digit-bit_xor zero a b = refl
from_digit-bit_xor (suc k) a b = rw (bit_xor-half a b) (from_digit-bit_xor k (a / 2) (b / 2))

below_digit-bit_xor :
    (k a b : ℕ) → below_digit k (bit_xor a b) ≡ bit_xor (below_digit k a) (below_digit k b)
unfolding below_digit
below_digit-bit_xor zero a b = refl
below_digit-bit_xor (suc k) a b =
    let x = below_digit k (a / 2) * 2 + a % 2 in
    let y = below_digit k (b / 2) * 2 + b % 2 in
    let halves : x / 2 ≡ below_digit k (a / 2) = omega arith in
    let halves' : y / 2 ≡ below_digit k (b / 2) = omega arith in
    let rest = below_digit-bit_xor k (a / 2) (b / 2) in
    let step = bit_xor_step x y in
    let half = bit_xor-half a b in let low = bit_xor-parity a b in grind arith

from_25 : (a : ℕ) → from_digit 25 a ≡ a / 2 ^ 25
unfolding from_digit
from_25 a = omega arith

below_25 : (a : ℕ) → below_digit 25 a ≡ a % 2 ^ 25
unfolding below_digit
below_25 a = omega arith

from_30 : (a : ℕ) → from_digit 30 a ≡ a / 2 ^ 30
unfolding from_digit
from_30 a = omega arith

pub bit_xor-high : (a b : ℕ) → bit_xor a b / 2 ^ 25 ≡ bit_xor (a / 2 ^ 25) (b / 2 ^ 25)
bit_xor-high a b =
    grind (arith, from_digit-bit_xor 25 a b, from_25 a, from_25 b, from_25 (bit_xor a b))

pub bit_xor-low : (a b : ℕ) → bit_xor a b % 2 ^ 25 ≡ bit_xor (a % 2 ^ 25) (b % 2 ^ 25)
bit_xor-low a b =
    grind (arith, below_digit-bit_xor 25 a b, below_25 a, below_25 b, below_25 (bit_xor a b))

pub bit_xor_small : (a b : ℕ) → a < 2 ^ 30 → b < 2 ^ 30 → bit_xor a b < 2 ^ 30
bit_xor_small a b h k =
    let zero_a : a / 2 ^ 30 ≡ 0 = omega arith in
    let zero_b : b / 2 ^ 30 ≡ 0 = omega arith in
    let e = from_digit-bit_xor 30 a b in
    let p = from_30 a in
    let q = from_30 b in
    let r = from_30 (bit_xor a b) in
    let z = zero-bit_xor 0 in
    let quotient : bit_xor a b / 2 ^ 30 ≡ 0 = cc in omega (arith, quotient)

-- Digits moved up.
pub bit_xor-double : (a b : ℕ) → bit_xor (a * 2) (b * 2) ≡ bit_xor a b * 2
bit_xor-double a b =
    let half : a * 2 / 2 ≡ a = omega arith in
    let half' : b * 2 / 2 ≡ b = omega arith in
    let step = bit_xor_step (a * 2) (b * 2) in grind arith

pub bit_xor-times_32 : (a b : ℕ) → bit_xor (a * 32) (b * 32) ≡ bit_xor a b * 32
bit_xor-times_32 a b =
    let e1 = bit_xor-double a b in
    let e2 = bit_xor-double (a * 2) (b * 2) in
    let e3 = bit_xor-double (a * 2 * 2) (b * 2 * 2) in
    let e4 = bit_xor-double (a * 2 * 2 * 2) (b * 2 * 2 * 2) in
    let e5 = bit_xor-double (a * 2 * 2 * 2 * 2) (b * 2 * 2 * 2 * 2) in
    let up : a * 32 ≡ a * 2 * 2 * 2 * 2 * 2 = omega arith in
    let up' : b * 32 ≡ b * 2 * 2 * 2 * 2 * 2 = omega arith in
    rw (up, up', e5, e4, e3, e2, e1) (omega arith)

double-digit : (a v : ℕ) → bit_xor (a * 2) v ≡ bit_xor a (v / 2) * 2 + v % 2
double-digit a v =
    let half : a * 2 / 2 ≡ a = omega arith in let step = bit_xor_step (a * 2) v in grind arith

-- A digit below 32 in the free place.
pub bit_xor_add : (a v : ℕ) → v < 32 → bit_xor (a * 32) v ≡ a * 32 + v
bit_xor_add a v h =
    let e5 = double-digit a (v / 2 / 2 / 2 / 2) in
    let e4 = double-digit (a * 2) (v / 2 / 2 / 2) in
    let e3 = double-digit (a * 2 * 2) (v / 2 / 2) in
    let e2 = double-digit (a * 2 * 2 * 2) (v / 2) in
    let e1 = double-digit (a * 2 * 2 * 2 * 2) v in
    let up : a * 32 ≡ a * 2 * 2 * 2 * 2 * 2 = omega arith in
    let rest : v / 2 / 2 / 2 / 2 / 2 ≡ 0 = omega arith in
    rw (up, e1, e2, e3, e4, e5, rest, bit_xor-zero a) (omega arith)
