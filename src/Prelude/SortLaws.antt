-- ===== src/Prelude/SortLaws.antt =====
-- Insertion sort puts a list in order, and `unique` makes the order strict; neither changes members.
use mathlib.Core.Bool.{Bool, true, false}
use mathlib.Core.List.{List, [], ◌∷◌, Perm}
use mathlib.Core.List.Perm
use mathlib.Core.Logic.{◌⊎◌, ◌↔◌, inl, inr}
use mathlib.Core.Path.{◌≡◌}
use native.Mathlib.Omega.{arith}
use monitostr.Prelude.Sorting.{IsStrictOrder, IsSorted, IsStrictlySorted, insert, sort, unique, Has}
use monitostr.Prelude.Tests.{Bool-cases}

module _ {ℓ} {A : Type ℓ} (lt : A → A → Bool) where
  insert-perm : (a : A) (l : List A) → Perm (insert lt a l) (a ∷ l)
  unfolding insert
  insert-perm a [] = Perm.refl (a ∷ [])
  insert-perm a (b ∷ l) = elim (Bool-cases (lt b a)) [
    | inl e ↦ rw e (Perm.trans (Perm.cons b (insert-perm a l)) (Perm.swap a b l))
    | inr e ↦ rw e (Perm.refl (a ∷ b ∷ l))
  ]

  pub sort-perm : (l : List A) → Perm (sort lt l) l
  unfolding sort
  sort-perm [] = Perm.refl []
  sort-perm (a ∷ l) = Perm.trans (insert-perm a (sort lt l)) (Perm.cons a (sort-perm l))

module _ {ℓ} {A : Type ℓ} (lt : A → A → Bool)
    (asym : (a b : A) → lt a b ≡ true → lt b a ≡ false) where
  insert-IsSorted : (a : A) (l : List A) → IsSorted lt l → IsSorted lt (insert lt a l)
  unfolding insert
  insert-IsSorted a [] h = tt
  insert-IsSorted a (b ∷ []) h = ground (arith, asym b a)
  insert-IsSorted a (b ∷ c ∷ l) h =
      ground (arith, asym b a, asym c a, insert-IsSorted a (c ∷ l) h.1)

  pub sort-IsSorted : (l : List A) → IsSorted lt (sort lt l)
  unfolding sort
  sort-IsSorted [] = tt
  sort-IsSorted (a ∷ l) = insert-IsSorted a (sort lt l) (sort-IsSorted l)

module _ {A : Type 0} (lt : A → A → Bool) where
  insert-Has : (x a : A) (l : List A) → Has x (insert lt a l) ↔ ((x ≡ a) ⊎ Has x l)
  unfolding insert
  insert-Has x a [] = (λ h. h, λ h. h)
  insert-Has x a (b ∷ l) = ground (arith, insert-Has x a l)

  pub sort-Has : (x : A) (l : List A) → Has x (sort lt l) ↔ Has x l
  unfolding sort
  sort-Has x [] = (λ h. h, λ h. h)
  sort-Has x (a ∷ l) = ground (arith, insert-Has x a (sort lt l), sort-Has x l)

module _ {A : Type 0} (eq : A → A → Bool) (eq_iff : (a b : A) → (eq a b ≡ true) ↔ (a ≡ b)) where
  pub unique-Has : (x : A) (l : List A) → Has x (unique eq l) ↔ Has x l
  unfolding unique
  unique-Has x [] = (λ h. h, λ h. h)
  unique-Has x (a ∷ []) = (λ h. h, λ h. h)
  unique-Has x (a ∷ b ∷ l) = ground (arith, unique-Has x (b ∷ l), eq_iff a b)

  module _ (lt : A → A → Bool) (o : IsStrictOrder lt) where
    -- The first element that is left is above `a`.
    abbrev Above : A → List A → Type 0
    Above a [] = Unit {0}
    Above a (b ∷ l) = lt a b ≡ true

    unique-Above :
        (a b : A) (l : List A) → IsSorted lt (b ∷ l) → lt a b ≡ true → Above a (unique eq (b ∷ l))
    unfolding unique
    unique-Above a b [] s h = h
    unique-Above a b (c ∷ l) s h = elim (Bool-cases (eq b c)) [
      | inl e ↦ rw e (unique-Above a c l s.1 (rw ((eq_iff b c).0 e) at h))
      | inr e ↦ rw e h
    ]

    cons-IsStrictlySorted :
        (a : A) (l : List A) → Above a l → IsStrictlySorted lt l → IsStrictlySorted lt (a ∷ l)
    cons-IsStrictlySorted a [] h s = tt
    cons-IsStrictlySorted a (b ∷ l) h s = (h, s)

    pub unique-IsStrictlySorted : (l : List A) → IsSorted lt l → IsStrictlySorted lt (unique eq l)
    unfolding unique
    unique-IsStrictlySorted [] s = tt
    unique-IsStrictlySorted (a ∷ []) s = tt
    unique-IsStrictlySorted (a ∷ b ∷ l) s = elim (Bool-cases (eq a b)) [
      | inl e ↦ rw e (unique-IsStrictlySorted (b ∷ l) s.1)
      | inr e ↦ rw e (
          cons-IsStrictlySorted a (unique eq (b ∷ l))
            (unique-Above a b l s.1 (ground (arith, o.total a b, eq_iff a b)))
            (unique-IsStrictlySorted (b ∷ l) s.1))
    ]
