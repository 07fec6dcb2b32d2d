-- ===== src/Ui/Render/Screen/Selected.antt =====
-- The selected relay in the details and in the table (src/ui/ui_renderer.cpp and app.cpp).
use monitostr.Prelude.{
  ℕ, zero, suc, ◌+◌, ◌-◌, ◌^◌, ◌≤◌, ◌<◌, ◌≡◌, refl, ap, sym, ◌∙◌, List, [], ◌∷◌, length, take, drop,
  get_elem?, arith,
}
use monitostr.Ui.Render.{compute_relay_list_viewport}
use monitostr.Ui.Render.Viewport.{compute_relay_list_viewport_lem}
use monitostr.Ui.Render.Context.{RenderContext, selected_stat}
use monitostr.Ui.Render.Table.{shown_stats}

module _ {ℓ} {A : Type ℓ} where
  get_elem?-drop : (n i : ℕ) (xs : List A) → get_elem? (drop n xs) i ≡ get_elem? xs (n + i)
  get_elem?-drop zero i xs = let e : 0 + i ≡ i = omega arith in rw e refl
  get_elem?-drop (suc n) i [] = refl
  get_elem?-drop (suc n) i (x ∷ xs) =
      let e : suc n + i ≡ suc (n + i) = omega arith in rw e (get_elem?-drop n i xs)

  get_elem?-take : (n i : ℕ) (xs : List A) → i < n → get_elem? (take n xs) i ≡ get_elem? xs i
  get_elem?-take zero i xs h = absurd (omega (arith, h))
  get_elem?-take (suc n) i [] h = refl
  get_elem?-take (suc n) zero (x ∷ xs) h = refl
  get_elem?-take (suc n) (suc i) (x ∷ xs) h = get_elem?-take n i xs (omega (arith, h))

-- If the selected row is in a table of fewer than 2^63 relays, the relay that is summarised is the
-- one in that row, and the table draws it, as many rows below the first row it draws as the
-- selected row is below that.
pub selected_stat-shown :
    (c : RenderContext)
    → c.selected_relay < length c.relay_stats
    → length c.relay_stats < 2 ^ 63
    → let viewport =
        compute_relay_list_viewport (length c.relay_stats) c.selected_relay c.relay_rows in
      (selected_stat c ≡ get_elem? c.relay_stats c.selected_relay)
      × (viewport.start ≤ c.selected_relay)
      × (get_elem? (shown_stats viewport c.relay_stats) (c.selected_relay - viewport.start)
          ≡ selected_stat c)
unfolding selected_stat shown_stats
selected_stat-shown c inside small =
    let n = length c.relay_stats in
    let view = compute_relay_list_viewport n c.selected_relay c.relay_rows in
    let v =
      compute_relay_list_viewport_lem n c.selected_relay c.relay_rows (omega (arith, inside))
        small in
    let here : selected_stat c ≡ get_elem? c.relay_stats c.selected_relay = ground arith in
    let above : view.start ≤ c.selected_relay = omega (arith, v, inside) in
    let below : c.selected_relay - view.start < view.end - view.start = omega (arith, v, inside) in
    let e : view.start + (c.selected_relay - view.start) ≡ c.selected_relay =
      omega (arith, above) in
    (
      here,
      above,
      get_elem?-take (view.end - view.start) (c.selected_relay - view.start)
            (drop view.start c.relay_stats) below
          ∙ get_elem?-drop view.start (c.selected_relay - view.start) c.relay_stats
          ∙ ap (get_elem? c.relay_stats) e
          ∙ sym here,
    )
