-- ===== src/Ui/Render/Screen/Latency.antt =====
-- The latencies that src/ui/ui_renderer.cpp shows: the graph, and the mean, the least and the greatest.
use monitostr.Prelude.{
  ℕ, zero, suc, ◌+◌, ◌-◌, ◌*◌, ◌≤◌, ◌<◌, ◌≡◌, refl, ap, List, [], ◌∷◌, some, length, arith,
  Bool-cases, inl, inr, ltb, if◌then◌else◌, All, Option-cases, get_elem?,
}
use monitostr.Ui.Render.Context.{scan_latencies, rounded_mean}
use monitostr.Ui.Render.Table.{Scale, max_latency, level_at, levels, graph_levels}

-- The latencies of the graph.
max_latency_le : (history : List ℕ) (m v : ℕ) → v ≤ m → v ≤ max_latency history m
unfolding max_latency
max_latency_le [] m v h = h
max_latency_le (x ∷ history) m v h =
    max_latency_le history (if ltb m x then x else m) v (ground arith)

get_elem?-max_latency :
    (history : List ℕ) (m i : ℕ) {v : ℕ} → get_elem? history i ≡ some v → v ≤ max_latency history m
unfolding max_latency
get_elem?-max_latency [] m i h = cc
get_elem?-max_latency (x ∷ history) m zero h =
    max_latency_le history (if ltb m x then x else m) _ (ground arith)
get_elem?-max_latency (x ∷ history) m (suc i) h = get_elem?-max_latency history _ i h

-- A latency that is at most the greatest one is drawn no higher than the graph.
abbrev pub IsScale : Scale → Type 0
IsScale scale = (v m h : ℕ) → v ≤ m → scale v m h ≤ h

level_at_le :
    (scale : Scale) (history : List ℕ) (w h col : ℕ)
    → IsScale scale
    → level_at scale history w h col ≤ h
unfolding level_at
level_at_le scale history w h col is = elim (Bool-cases (ltb (length history + col) w)) [
  | inl e ↦ rw (e, level_at) (omega arith)
  | inr e ↦ elim (Option-cases (get_elem? history (length history + col - w))) [
    | inl n ↦ rw (e, n, level_at) (omega arith)
    | inr (v, n) ↦
        rw (e, n, level_at)
          (is v (max_latency history 1) h
            (get_elem?-max_latency history 1 (length history + col - w) n))
  ]
]

levels_lem :
    (scale : Scale) (history : List ℕ) (w h col count : ℕ)
    → IsScale scale
    → (length (levels scale history w h col count) ≡ count)
      × All (λ level. level ≤ h) (levels scale history w h col count)
unfolding levels
levels_lem scale history w h col zero is = (refl, tt)
levels_lem scale history w h col (suc count) is =
    let rest = levels_lem scale history w h (suc col) count is in
    (ap suc rest.0, (level_at_le scale history w h col is, rest.1))

-- If the quotient of a latency and a greater one never scales above the height, the graph has as many
-- columns as it is asked for, none higher than the height.
pub graph_levels_lem :
    (scale : Scale) (history : List ℕ) (w h : ℕ)
    → IsScale scale
    → (length (graph_levels scale history w h) ≡ w)
      × All (λ level. level ≤ h) (graph_levels scale history w h)
unfolding graph_levels
graph_levels_lem scale history w h is = levels_lem scale history w h 0 w is

product_le : (a b c : ℕ) → b ≤ c → a * b ≤ a * c
product_le a b c h = grind arith

-- What the loop knows of the latencies so far: their number and sum, within the bounds.
scan_lem :
    (history : List ℕ) (count sum mn mx : ℕ)
    → mn ≤ mx
    → count * mn ≤ sum
    → sum ≤ count * mx
    → let r = scan_latencies history sum mn mx in
      (r.1 ≤ mn)
      × (mx ≤ r.2)
      × ((count + length history) * r.1 ≤ r.0)
      × (r.0 ≤ (count + length history) * r.2)
      × All (λ v. (r.1 ≤ v) × (v ≤ r.2)) history
unfolding scan_latencies
scan_lem [] count sum mn mx o l h =
    (omega arith, omega arith, omega (arith, l), omega (arith, h), tt)
scan_lem (v ∷ history) count sum mn mx o l h =
    let mn' = if ltb v mn then v else mn in
    let mx' = if ltb mx v then v else mx in
    let lower : (mn' ≤ mn) × (mn' ≤ v) = ground arith in
    let upper : (mx ≤ mx') × (v ≤ mx') = ground arith in
    let l' : suc count * mn' ≤ sum + v =
      omega (arith, product_le count mn' mn lower.0, l, lower.1) in
    let h' : sum + v ≤ suc count * mx' =
      omega (arith, product_le count mx mx' upper.0, h, upper.1) in
    let rest = scan_lem history (suc count) (sum + v) mn' mx' (omega (arith, lower, upper)) l' h' in
    let n : count + suc (length history) ≡ suc count + length history = omega arith in
    (
      omega (arith, rest.0, lower.0),
      omega (arith, rest.1, upper.0),
      rw n rest.2,
      rw n rest.3,
      ((omega (arith, rest.0, lower.1), omega (arith, rest.1, upper.1)), rest.4),
    )

mean_bounds :
    (sum count mn mx : ℕ)
    → 0 < count
    → count * mn ≤ sum
    → sum ≤ count * mx
    → (mn ≤ rounded_mean sum count) × (rounded_mean sum count ≤ mx)
unfolding rounded_mean
mean_bounds sum count mn mx pos l h = (grind arith, grind arith)

-- For a history of latencies that is not empty, the least and the greatest that are shown bound every
-- latency, and the rounded mean lies between them.
pub scan_latencies_lem :
    (v : ℕ) (history : List ℕ)
    → let r = scan_latencies (v ∷ history) 0 v v in
      let mean = rounded_mean r.0 (length (v ∷ history)) in
      All (λ u. (r.1 ≤ u) × (u ≤ r.2)) (v ∷ history) × (r.1 ≤ mean) × (mean ≤ r.2)
scan_latencies_lem v history =
    let r = scan_lem (v ∷ history) 0 0 v v (omega arith) (omega arith) (omega arith) in
    let out = scan_latencies (v ∷ history) 0 v v in
    let n : length (v ∷ history) ≡ 0 + length (v ∷ history) = omega arith in
    let mean =
      mean_bounds out.0 (length (v ∷ history)) out.1 out.2 (omega arith) (rw n r.2) (rw n r.3) in
    (r.4, mean.0, mean.1)
