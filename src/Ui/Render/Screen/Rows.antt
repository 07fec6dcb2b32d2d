-- ===== src/Ui/Render/Screen/Rows.antt =====
-- What fits where on the screen of src/ui/ui_renderer.cpp: the scroll bar, the rows and the columns.
use monitostr.Prelude.{
  ℕ, suc, ◌+◌, ◌-◌, ◌*◌, ◌/◌, ◌%◌, ◌^◌, ◌≤◌, ◌<◌, ◌≡◌, max, refl, ap, true, false, List, [], ◌∷◌,
  Text, codes, length, length-append, length-take, take, drop, length-drop, arith, Bool, to_string,
}
use monitostr.Model.LogBuffer.{LogEntry}
use monitostr.Model.RelayStats.{RelayStat}
use monitostr.Ui.Render.{
  truncate_with_ellipsis, format_nips, drawn_logs, first_line, compute_relay_list_viewport,
  clamped_visible,
}
use monitostr.Ui.Render.Viewport.{drawn_logs_lem, compute_relay_list_viewport_lem}
use monitostr.Ui.Render.Context.{RenderContext}
use monitostr.Ui.Render.Parts.{thumb_of, size_mod}
use monitostr.Ui.Render.Logs.{log_rows, log_body}
use monitostr.Ui.Render.Table.{Scale, ordinal_text, relay_rows, shown_stats, widths}

-- A share of `cells`, whether its product wraps round or not.
share_le :
    (cells part total : ℕ) → 0 < total → part ≤ total → cells * part % size_mod / total ≤ cells
share_le cells part total pos h =
    let grown : cells * part ≤ cells * total = grind arith in
    let wrapped : cells * part % size_mod ≤ cells * total = omega (arith, grown) in grind arith

-- If the first visible item leaves a full page of items, or is the first one, then the thumb of a
-- scroll bar with a cell has at least one cell and lies on the bar.
pub thumb_of_lem :
    (total first visible cells : ℕ)
    → 0 < cells
    → first ≤ total - visible
    → let thumb = thumb_of total first visible cells in
      (1 ≤ thumb.size) × (thumb.pos + thumb.size ≤ cells)
unfolding thumb_of
thumb_of_lem total first visible cells pos fits =
    let size = max 1 (cells * visible % size_mod / total) in
    ground (arith, share_le cells visible total, share_le (cells - size) first (total - visible))

length-truncate :
    (value : Text) (max_len : ℕ) → length (truncate_with_ellipsis value max_len) ≤ max_len
unfolding truncate_with_ellipsis
length-truncate value max_len = ground (
  arith,
  length-take max_len value,
  length-take (max_len - 3) value,
  length-append (take (max_len - 3) value) (codes "..."),
)

length-ordinal : (index_w idx : ℕ) → 1 ≤ index_w → length (ordinal_text index_w idx) ≤ index_w
unfolding ordinal_text
length-ordinal index_w idx h = ground (
  arith,
  length-take (index_w - 1) (to_string (idx + 1)),
  length-append (take (index_w - 1) (to_string (idx + 1))) (codes "+"),
)

-- The ordinal, the URL and the NIPs of a relay fit in their columns, in both layouts.
pub cells_fit :
    (compact : Bool) (idx : ℕ) (stat : RelayStat)
    → let w = widths compact in
      (length (ordinal_text w.index_w idx) ≤ w.index_w)
      × (length (truncate_with_ellipsis stat.relay_url (w.relay_w - 1)) < w.relay_w)
      × (length (truncate_with_ellipsis (format_nips stat.supported_nips) (w.nips_w - 1))
          < w.nips_w)
unfolding widths
cells_fit true idx stat = (
  length-ordinal 4 idx (omega arith),
  omega (arith, length-truncate stat.relay_url 20),
  omega (arith, length-truncate (format_nips stat.supported_nips) 11),
)
cells_fit false idx stat = (
  length-ordinal 5 idx (omega arith),
  omega (arith, length-truncate stat.relay_url 30),
  omega (arith, length-truncate (format_nips stat.supported_nips) 15),
)

length-log_rows : (i : ℕ) (entries : List LogEntry) → length (log_rows i entries) ≡ length entries
unfolding log_rows
length-log_rows i [] = refl
length-log_rows i (entry ∷ entries) = ap suc (length-log_rows (suc i) entries)

length-relay_rows :
    (scale : Scale) (compact : Bool) (selected idx : ℕ) (stats : List RelayStat)
    → length (relay_rows scale compact selected idx stats) ≡ 2 * length stats
unfolding relay_rows
length-relay_rows scale compact selected idx [] = refl
length-relay_rows scale compact selected idx (stat ∷ stats) =
    omega (arith, length-relay_rows scale compact selected (suc idx) stats)

-- The log panel has at most as many rows as lines that fit, and one at least where a line fits; the
-- relay table draws two elements for each row of the viewport.
pub rows_fit :
    (scale : Scale) (c : RenderContext)
    → 0 < c.log_lines
    → 0 < length c.relay_stats
    → length c.relay_stats < 2 ^ 63
    → let viewport =
        compute_relay_list_viewport (length c.relay_stats) c.selected_relay c.relay_rows in
      (1 ≤ length (log_body c))
      × (length (log_body c) ≤ c.log_lines)
      × (length (
            relay_rows scale c.compact c.selected_relay viewport.start
              (shown_stats viewport c.relay_stats))
          ≡ 2 * clamped_visible (length c.relay_stats) c.relay_rows)
unfolding log_body shown_stats
rows_fit scale c fits full small =
    let logs = drawn_logs c.visible_logs c.log_lines c.logs_scroll_lines in
    let start = first_line (length c.visible_logs) c.log_lines c.logs_scroll_lines in
    let drawn = drawn_logs_lem c.visible_logs c.log_lines c.logs_scroll_lines in
    let rows = length-log_rows start logs in
    let total = length c.relay_stats in
    let view = compute_relay_list_viewport total c.selected_relay c.relay_rows in
    let v = compute_relay_list_viewport_lem total c.selected_relay c.relay_rows full small in
    let shown = shown_stats view c.relay_stats in
    (
      ground arith,
      ground arith,
      omega (
        arith,
        length-relay_rows scale c.compact c.selected_relay view.start shown,
        length-take (view.end - view.start) (drop view.start c.relay_stats),
        length-drop view.start c.relay_stats,
        v,
      ),
    )
