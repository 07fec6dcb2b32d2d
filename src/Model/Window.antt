-- ===== src/Model/Window.antt =====
-- `push_back(x)` and then `while (size() > limit) pop_front();`, as LogBuffer::Push
-- (include/monitostr/model/log_buffer.hpp) and RelayStats::RecordLatency (src/model_relay_stats.cpp)
-- both do on a deque.
use monitostr.Prelude.{
  ℕ, zero, suc, ◌+◌, ◌-◌, ◌≤◌, ◌≡◌, refl, List, [], ◌∷◌, ◌++◌, arith, length, drop, ltb,
  if◌then◌else◌, length-append, ap, sym, ◌∙◌, length-drop, Bool-cases, ltb→lt, inl, inr,
}
use native.Mathlib.Nat.{zero-add}

module _ {ℓ} {A : Type ℓ} where
  unfoldable pub pop_front_while_above : ℕ → List A → List A
  pop_front_while_above limit [] = []
  pop_front_while_above limit (x ∷ xs) =
      let rest = pop_front_while_above limit xs in
      if ltb limit (length (x ∷ xs)) then rest else x ∷ xs

  unfoldable pub push_window : ℕ → A → List A → List A
  unfolding pop_front_while_above
  push_window limit x xs = pop_front_while_above limit (xs ++ x ∷ [])

  pub pop_front_while_above-drop :
      (limit : ℕ) (xs : List A) → pop_front_while_above limit xs ≡ drop (length xs - limit) xs
  unfolding pop_front_while_above
  pop_front_while_above-drop limit [] = grind arith
  pop_front_while_above-drop limit (x ∷ xs) = elim (Bool-cases (ltb limit (length (x ∷ xs)))) [
    | inl h ↦
        let e : suc (length xs) - limit ≡ suc (length xs - limit) =
          omega (arith, ltb→lt limit (suc (length xs)) h) in
        rw h (rw e (pop_front_while_above-drop limit xs))
    | inr h ↦ let e : suc (length xs) - limit ≡ 0 = ground arith in rw h (rw e refl)
  ]

  drop-append_le : (n : ℕ) (xs ys : List A) → n ≤ length xs → drop n (xs ++ ys) ≡ drop n xs ++ ys
  drop-append_le zero xs ys h = refl
  drop-append_le (suc n) [] ys h = absurd (omega arith)
  drop-append_le (suc n) (x ∷ xs) ys h = drop-append_le n xs ys (omega arith)

  pub drop-nil : (m : ℕ) → drop {A = A} m [] ≡ []
  drop-nil zero = refl
  drop-nil (suc m) = refl

  drop-drop : (m n : ℕ) (xs : List A) → drop m (drop n xs) ≡ drop (n + m) xs
  drop-drop m zero xs = rw (zero-add)
  drop-drop m (suc n) [] = let e : suc n + m ≡ suc (n + m) = omega arith in rw e (drop-nil m)
  drop-drop m (suc n) (x ∷ xs) =
      let e : suc n + m ≡ suc (n + m) = omega arith in rw e (drop-drop m n xs)

  -- A window that holds the last `limit` elements of a history holds them after a push too.
  pub push_window-drop :
      (limit : ℕ) (x : A) (history : List A)
      → push_window limit x (drop (length history - limit) history)
        ≡ drop (length (history ++ x ∷ []) - limit) (history ++ x ∷ [])
  unfolding push_window
  push_window-drop limit x history =
      let k = length history - limit in
      let whole = history ++ x ∷ [] in
      let joined : drop k history ++ x ∷ [] ≡ drop k whole =
        sym (drop-append_le k history (x ∷ []) (omega arith)) in
      let count : k + (length (drop k whole) - limit) ≡ length whole - limit =
        omega (arith, length-drop k whole, length-append history (x ∷ [])) in
      pop_front_while_above-drop limit (drop k history ++ x ∷ [])
      ∙ ap (λ l. drop (length l - limit) l) joined
      ∙ drop-drop (length (drop k whole) - limit) k whole
      ∙ ap (λ n. drop n whole) count

  pub length-push_window_le :
      (limit : ℕ) (x : A) (xs : List A) → length (push_window limit x xs) ≤ limit
  unfolding push_window
  length-push_window_le limit x xs =
      rw (pop_front_while_above-drop limit (xs ++ x ∷ []), length-drop) (omega arith)
