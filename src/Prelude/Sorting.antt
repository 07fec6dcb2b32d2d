-- ===== src/Prelude/Sorting.antt =====
-- std::sort as insertion sort under a strict order, std::unique, and the orders of texts and ints.
use mathlib.Core.Path.{◌≡◌, refl}
use mathlib.Core.Bool.{Bool, true, false, ◌&&◌}
use mathlib.Core.List.{List, [], ◌∷◌}
use Prim.Native.Nat.{ℕ}
use native.Mathlib.Omega.{arith}
use monitostr.Prelude.Tests.{◌==◌, ltb, if◌then◌else◌}
use monitostr.Prelude.Texts.{Text}
use mathlib.Core.Logic.{◌⊎◌, ◌↔◌}

-- An `int`; `negsuc n` is -(n + 1).
pub data ℤ : Type 0 where
  pos : ℕ → ℤ
  negsuc : ℕ → ℤ

unfoldable pub ltb_ℤ : ℤ → ℤ → Bool
ltb_ℤ (pos a) (pos b) = ltb a b
ltb_ℤ (pos a) (negsuc b) = false
ltb_ℤ (negsuc a) (pos b) = true
ltb_ℤ (negsuc a) (negsuc b) = ltb b a

-- `lhs < rhs` on std::string: the first byte that differs decides.
unfoldable pub text_lt : Text → Text → Bool
text_lt s [] = false
text_lt [] (d ∷ t) = true
text_lt (c ∷ s) (d ∷ t) = let rest = text_lt s t in if ltb c d then true else c == d && rest

unfoldable pub eq_ℤ : ℤ → ℤ → Bool
eq_ℤ (pos a) (pos b) = a == b
eq_ℤ (pos a) (negsuc b) = false
eq_ℤ (negsuc a) (pos b) = false
eq_ℤ (negsuc a) (negsuc b) = a == b

pub eq_ℤ_iff : (a b : ℤ) → (eq_ℤ a b ≡ true) ↔ (a ≡ b)
unfolding eq_ℤ
eq_ℤ_iff a b = ground arith

pub record IsStrictOrder {ℓ} {A : Type ℓ} (lt : A → A → Bool) : Type ℓ where
  pub trans : (a b c : A) → lt a b ≡ true → lt b c ≡ true → lt a c ≡ true
  pub total : (a b : A) → lt a b ≡ false → lt b a ≡ false → a ≡ b
  pub asym : (a b : A) → lt a b ≡ true → lt b a ≡ false

ltb_ℤ-trans : (a b c : ℤ) → ltb_ℤ a b ≡ true → ltb_ℤ b c ≡ true → ltb_ℤ a c ≡ true
unfolding ltb_ℤ
ltb_ℤ-trans a b c h k = ground arith

ltb_ℤ-total : (a b : ℤ) → ltb_ℤ a b ≡ false → ltb_ℤ b a ≡ false → a ≡ b
unfolding ltb_ℤ
ltb_ℤ-total a b h k = ground arith

ltb_ℤ-asym : (a b : ℤ) → ltb_ℤ a b ≡ true → ltb_ℤ b a ≡ false
unfolding ltb_ℤ
ltb_ℤ-asym a b h = ground arith

pub ltb_ℤ-IsStrictOrder : IsStrictOrder ltb_ℤ
ltb_ℤ-IsStrictOrder = record { trans = ltb_ℤ-trans; total = ltb_ℤ-total; asym = ltb_ℤ-asym }

pub text_lt_trans : (a b c : Text) → text_lt a b ≡ true → text_lt b c ≡ true → text_lt a c ≡ true
unfolding text_lt
text_lt_trans a [] c h k = ground arith
text_lt_trans a (y ∷ b) [] h k = ground arith
text_lt_trans [] (y ∷ b) (z ∷ c) h k = refl
text_lt_trans (x ∷ a) (y ∷ b) (z ∷ c) h k = ground (arith, text_lt_trans a b c)

pub text_lt-total : (a b : Text) → text_lt a b ≡ false → text_lt b a ≡ false → a ≡ b
unfolding text_lt
text_lt-total [] [] h k = refl
text_lt-total [] (y ∷ b) h k = ground arith
text_lt-total (x ∷ a) [] h k = ground arith
text_lt-total (x ∷ a) (y ∷ b) h k = ground (arith, text_lt-total a b)

pub text_lt-asym : (a b : Text) → text_lt a b ≡ true → text_lt b a ≡ false
unfolding text_lt
text_lt-asym [] [] h = ground arith
text_lt-asym [] (y ∷ b) h = refl
text_lt-asym (x ∷ a) [] h = ground arith
text_lt-asym (x ∷ a) (y ∷ b) h = ground (arith, text_lt-asym a b)

pub text_lt-IsStrictOrder : IsStrictOrder text_lt
text_lt-IsStrictOrder = record { trans = text_lt_trans; total = text_lt-total; asym = text_lt-asym }

module _ {ℓ} {A : Type ℓ} (lt : A → A → Bool) where
  unfoldable pub insert : A → List A → List A
  insert a [] = a ∷ []
  insert a (b ∷ bs) = let rest = insert a bs in if lt b a then b ∷ rest else a ∷ b ∷ bs

  unfoldable pub sort : List A → List A
  unfolding insert
  sort [] = []
  sort (a ∷ rest) = insert a (sort rest)

  -- No neighbour is below the one before it.
  abbrev pub IsSorted : List A → Type 0
  IsSorted [] = Unit {0}
  IsSorted (a ∷ []) = Unit {0}
  IsSorted (a ∷ b ∷ l) = (lt b a ≡ false) × IsSorted (b ∷ l)

  abbrev pub IsStrictlySorted : List A → Type 0
  IsStrictlySorted [] = Unit {0}
  IsStrictlySorted (a ∷ []) = Unit {0}
  IsStrictlySorted (a ∷ b ∷ l) = (lt a b ≡ true) × IsStrictlySorted (b ∷ l)

-- std::unique then erase: of each run of equal neighbours one stays.
module _ {ℓ} {A : Type ℓ} (eq : A → A → Bool) where
  unfoldable pub unique : List A → List A
  unique [] = []
  unique (a ∷ []) = a ∷ []
  unique (a ∷ b ∷ l) = let rest = unique (b ∷ l) in if eq a b then rest else a ∷ rest

-- `a` is an element of the list.
abbrev pub Has : {A : Type 0} → A → List A → Type 0
Has a [] = ⊥
Has a (x ∷ xs) = (a ≡ x) ⊎ Has a xs
