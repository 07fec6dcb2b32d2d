-- ===== src/Ui/Render/Viewport.antt =====
-- The rows and lines that are drawn (src/ui/ui_renderer.cpp).
use monitostr.Prelude.{
  ℕ, ◌-◌, ◌^◌, ◌≤◌, ◌<◌, ◌≡◌, min, List, arith, length, drop, length-take, length-drop,
}
use monitostr.Model.LogBuffer.{LogEntry}
use monitostr.Ui.Render.{
  clamped_visible, first_row, compute_relay_list_viewport, first_line, drawn_logs,
}

pub compute_relay_list_viewport_lem :
    (total selected visible_rows : ℕ)
    → 0 < total
    → total < 2 ^ 63
    → let v = compute_relay_list_viewport total selected visible_rows in
      (v.end - v.start ≡ clamped_visible total visible_rows)
      × (v.end ≤ total)
      × (v.start ≤ min selected (total - 1))
      × (min selected (total - 1) < v.end)
unfolding compute_relay_list_viewport clamped_visible first_row
compute_relay_list_viewport_lem total selected visible_rows pos small = grind arith

-- RenderLogs draws as many lines as fit and exist, from the scroll position clamped so that the
-- last page is full.
pub drawn_logs_lem :
    (logs : List LogEntry) (log_lines scroll : ℕ)
    → (length (drawn_logs logs log_lines scroll) ≡ min log_lines (length logs))
      × (first_line (length logs) log_lines scroll ≡ min scroll (length logs - log_lines))
unfolding drawn_logs first_line
drawn_logs_lem logs log_lines scroll =
    let start = first_line (length logs) log_lines scroll in
    let rows = length-take log_lines (drop start logs) in
    let rest = length-drop start logs in grind arith
