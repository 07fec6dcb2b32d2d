-- ===== src/Ui/Navigation/Search.antt =====
-- Searching the log (src/ui/navigation_controller.cpp).
use monitostr.Prelude.{
  ℕ, zero, suc, ◌+◌, ◌-◌, ◌%◌, ◌≤◌, ◌<◌, ◌≡◌, ◌≢◌, ◌↔◌, refl, Bool, true, false, List, [], ◌∷◌,
  Text, arith, Has, contains, get_elem?, some, none, Option, if◌then◌else◌, ◌==◌, ==_iff, subst,
  Bool-cases, inl, inr,
}
use monitostr.StringUtils.{to_lower_copy}
use monitostr.Model.LogBuffer.{LogEntry}
use monitostr.Ui.Navigation.{size_mod, line_of, matches_from, find_log_matches, next_ordinal}

-- The two steps written out: they walk round the hits.
next_ordinal_forward :
    (ordinal count : ℕ)
    → ordinal < count
    → count < size_mod
    → next_ordinal true ordinal count ≡ (if ordinal + 1 == count then 0 else ordinal + 1)
unfolding next_ordinal
next_ordinal_forward ordinal count h fits = elim (Bool-cases (ordinal + 1 == count)) [
  | inl e ↦ rw e (grind (arith, (==_iff (ordinal + 1) count).0 e))
  | inr e ↦ rw e (grind arith)
]

next_ordinal_back :
    (ordinal count : ℕ)
    → ordinal < count
    → count + count < size_mod
    → next_ordinal false ordinal count ≡ (if ordinal == 0 then count - 1 else ordinal - 1)
unfolding next_ordinal
next_ordinal_back zero count h fits = grind arith
next_ordinal_back (suc ordinal) count h fits =
    let e : suc ordinal + count - 1 ≡ ordinal + count = omega arith in
    let small : (ordinal + count) % size_mod ≡ ordinal + count = omega arith in
    rw (e, small) (grind arith)

-- For an ordinal below the number of hits, twice which fits in size_t, stepping forward and back,
-- or back and forward, returns to it, and both steps stay below the number of hits.
pub next_ordinal_inverse :
    (ordinal count : ℕ)
    → ordinal < count
    → count + count < size_mod
    → (next_ordinal false (next_ordinal true ordinal count) count ≡ ordinal)
      × (next_ordinal true (next_ordinal false ordinal count) count ≡ ordinal)
      × (next_ordinal true ordinal count < count)
      × (next_ordinal false ordinal count < count)
next_ordinal_inverse ordinal count h fits = ground (
  arith,
  next_ordinal_forward ordinal count,
  next_ordinal_back ordinal count,
  next_ordinal_back (next_ordinal true ordinal count) count,
  next_ordinal_forward (next_ordinal false ordinal count) count,
)

-- An entry, if there is one, holds the lowered query.
pub hit : Text → Option LogEntry → Bool
hit lowered none = false
hit lowered (some entry) = contains (line_of entry) lowered

matches_above :
    (lowered : Text) (start i : ℕ) (entries : List LogEntry)
    → Has i (matches_from lowered start entries)
    → start ≤ i
unfolding matches_from
matches_above lowered start i [] h = absurd h
matches_above lowered start i (entry ∷ entries) h =
    ground (arith, matches_above lowered (suc start) i entries)

matches_from_lem :
    (lowered : Text) (start k : ℕ) (entries : List LogEntry)
    → Has (start + k) (matches_from lowered start entries)
      ↔ (hit lowered (get_elem? entries k) ≡ true)
unfolding matches_from hit
matches_from_lem lowered start k [] = (λ h. absurd h, λ h. cc)
matches_from_lem lowered start zero (entry ∷ entries) =
    ground (arith, matches_above lowered (suc start) (start + 0) entries)
matches_from_lem lowered start (suc k) (entry ∷ entries) =
    let e : start + suc k ≡ suc start + k = omega arith in
    rw e (ground (arith, matches_from_lem lowered (suc start) k entries))

-- The hits of a log search are exactly the indices of the entries whose time and message hold the
-- query in any case; an empty query has none.
pub find_log_matches_iff :
    (entries : List LogEntry) (query : Text) (k : ℕ)
    → Has k (find_log_matches entries query)
      ↔ ((query ≢ []) × (hit (to_lower_copy query) (get_elem? entries k) ≡ true))
unfolding find_log_matches
find_log_matches_iff entries [] k = (λ h. absurd h, λ h. h.0 refl)
find_log_matches_iff entries (c ∷ query) k =
    let r = matches_from_lem (to_lower_copy (c ∷ query)) 0 k entries in
    let e : 0 + k ≡ k = omega arith in
    let r' =
      subst
        (λ i.
          Has i (matches_from (to_lower_copy (c ∷ query)) 0 entries)
          ↔ (hit (to_lower_copy (c ∷ query)) (get_elem? entries k) ≡ true))
        e r in
    ((λ h. ((λ q. cc), r'.0 h)), (λ h. r'.1 h.1))
