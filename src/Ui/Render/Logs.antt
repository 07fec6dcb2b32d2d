-- ===== src/Ui/Render/Logs.antt =====
-- RenderLogs of src/ui/ui_renderer.cpp.
use monitostr.Prelude.{
  ℕ, suc, ◌%◌, Bool, List, [], ◌∷◌, codes, is_empty, length, ◌==◌, if◌then◌else◌,
}
use monitostr.StringUtils.{to_lower_copy}
use monitostr.Model.LogBuffer.{LogEntry, level_text}
use monitostr.Ui.Render.{first_line, drawn_logs, summarize_log_stream}
use monitostr.Ui.Render.Context.{RenderContext}
use monitostr.Ui.Render.Dom.{
  Element, text, separator, hbox, vbox, elements, ◌▷◌, border, flex, color, bgcolor, height, panel,
  panel_alt, border_color, border_focus, text_color, text_muted,
}
use monitostr.Ui.Render.Parts.{
  log_level_color, render_chip, render_panel_title, render_vertical_scroll_bar,
}

unfoldable pub log_row : ℕ → LogEntry → Element
log_row i entry =
    hbox (
      elements (
        (text entry.timestamp ▷ color text_muted)
        ∷ text (codes " ")
        ∷ render_chip (to_lower_copy (level_text entry.level)) (log_level_color entry.level)
            panel_alt
        ∷ text (codes " ")
        ∷ (text entry.message ▷ color text_color)
        ∷ []))
    ▷ bgcolor (if i % 2 == 0 then panel else panel_alt)

-- The loop from index `i` on.
unfoldable pub log_rows : ℕ → List LogEntry → List Element
unfolding log_row
log_rows i [] = []
log_rows i (entry ∷ entries) = log_row i entry ∷ log_rows (suc i) entries

unfoldable pub log_body : RenderContext → List Element
unfolding log_rows
log_body context =
    let start =
      first_line (length context.visible_logs) context.log_lines context.logs_scroll_lines in
    let lines =
      log_rows start
        (drawn_logs context.visible_logs context.log_lines context.logs_scroll_lines) in
    let summary =
      summarize_log_stream (length context.visible_logs) context.total_logs
        context.logs_search_query in
    if is_empty lines then (text summary.empty_text ▷ color text_muted) ∷ [] else lines

unfoldable pub render_logs : RenderContext → Bool → Element
unfolding log_body
render_logs context focused =
    let total = length context.visible_logs in
    let start = first_line total context.log_lines context.logs_scroll_lines in
    let summary = summarize_log_stream total context.total_logs context.logs_search_query in
    let content = hbox (
      elements (
        (vbox (elements (log_body context)) ▷ height context.log_lines ▷ flex)
        ∷ separator
        ∷ render_vertical_scroll_bar total start context.log_lines context.log_lines focused
        ∷ [])) in
    vbox (
      elements
        (render_panel_title (codes "LOG STREAM") summary.meta focused ∷ separator ∷ content ∷ []))
    ▷ border
    ▷ color (if focused then border_focus else border_color)
    ▷ bgcolor panel
